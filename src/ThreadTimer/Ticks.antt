-- ===== src/ThreadTimer/Ticks.antt =====
-- ThreadTimer.cpp: the steps of the thread when there are no calls: the end of the thread, a single
-- shot, and the calls of the client in a period.
use ctrlr_fx.Prelude.{
  ℕ, zero, suc, ◌+◌, ◌*◌, ◌≡◌, refl, sym, ap, subst, ◌∙◌, some, Bool, true, false, not,
  if◌then◌else◌, ◌⊎◌, Bool-cases, inl, inr, arith,
}
use ctrlr_fx.ClockTime.{TimeBase, add}
use ctrlr_fx.ClockTime.Duration.{equal}
use ctrlr_fx.ThreadTimer.{
  ThreadTimer, Place, starting, at_top, idle_test, begins, at_loop, idle_wait, delay_wait,
  period_wait, ended, no_time, resume, advance,
}
use ctrlr_fx.ThreadTimer.Threads.{
  System, waits, apart, start_delay_call, one_shot_call, call, called, own, own_steps, Reach,
  new_timer,
}
use ctrlr_fx.ThreadTimer.Signals.{Justified, Inv, reached, asleep_lem}

quit_places :
    {K W : Type 0} (on_timer : K → W → W) (clock : ℕ → TimeBase) (p : Place) (run : Bool)
    (t : ThreadTimer K) (a : Bool) (w : W)
    → Justified p (record t { run_ = run; quit_ = true }) a
    → (let s = own_steps on_timer clock 3 (record {
      timer = record t { run_ = run; quit_ = true };
      place = p;
      awake = a;
      world = w;
    }) in
        (s.place ≡ ended) × (s.world ≡ w))
unfolding Justified own_steps advance apart resume
quit_places f clock starting r t a w j = (refl, refl)
quit_places f clock at_top r t a w j = (refl, refl)
quit_places f clock idle_test true t a w j = (refl, refl)
quit_places f clock idle_test false t a w j = (refl, refl)
quit_places f clock begins r t a w j = ground (arith, j)
quit_places f clock (at_loop d) true t a w j = (refl, refl)
quit_places f clock (at_loop d) false t a w j = (refl, refl)
quit_places f clock idle_wait true t a w j = (refl, refl)
quit_places f clock idle_wait false t a w j = (refl, refl)
quit_places f clock (delay_wait d) true t a w j = (refl, refl)
quit_places f clock (delay_wait d) false t a w j = (refl, refl)
quit_places f clock (period_wait d) true t a w j = (refl, refl)
quit_places f clock (period_wait d) false t a w j = (refl, refl)
quit_places f clock ended r t a w j = (refl, refl)

-- In a reachable state with quit_ set, the thread of the timer is awake or not in a wait, and its
-- next three steps end it without a call of the client.
pub quit_ends :
    {K W : Type 0} (on_timer : K → W → W) (client : K) (w : W) (clock : ℕ → TimeBase)
    (s : System K W)
    → Reach on_timer (new_timer client w) s
    → s.timer.quit_ ≡ true
    → ((waits s.place ≡ false) ⊎ (s.awake ≡ true))
      × ((own_steps on_timer clock 3 s).place ≡ ended)
      × ((own_steps on_timer clock 3 s).world ≡ s.world)
quit_ends {K} {W} f client w clock s r e = (is_awake, ends.0, ends.1)
  where
    j : Inv s
    j = reached f client w s r

    is_awake : (waits s.place ≡ false) ⊎ (s.awake ≡ true)
    is_awake = elim (Bool-cases (waits s.place)) [
      | inr h ↦ inl h
      | inl h ↦ elim (Bool-cases s.awake) [
        | inl k ↦ inr k
        | inr k ↦ ground (arith, e, asleep_lem s.place s.timer s.awake j h k)
      ]
    ]

    set_to : Bool → System K W
    set_to q = record s { timer = record s.timer { quit_ = q } }

    ends : ((own_steps f clock 3 s).place ≡ ended) × ((own_steps f clock 3 s).world ≡ s.world)
    ends =
        subst
          (λ q.
            ((own_steps f clock 3 (set_to q)).place ≡ ended)
            × ((own_steps f clock 3 (set_to q)).world ≡ s.world))
          (sym e)
          (quit_places f clock s.place s.timer.run_ s.timer s.awake s.world
            (subst (λ q. Justified s.place (record s.timer { quit_ = q }) s.awake) e j))

-- A timer that waits for a start.
abbrev pub stopped : {K W : Type 0} → K → TimeBase → TimeBase → W → System K W
stopped client delay period w = record {
  timer = record {
    client_ = some client;
    init_delay = delay;
    period = period;
    run_ = false;
    quit_ = false;
  };
  place = idle_wait;
  awake = false;
  world = w;
}

-- one_shot on a stopped timer, with any timeout, calls the client once and leaves the timer
-- stopped and waiting for a start, where no other call comes between.
pub one_shot_lem :
    {K W : Type 0} (on_timer : K → W → W) (client : K) (w : W) (clock : ℕ → TimeBase)
    (delay period timeout : TimeBase)
    → own_steps on_timer clock
        (if equal timeout no_time then 7 else 8)
        (called (one_shot_call timeout) (stopped client delay period w))
      ≡ stopped client timeout no_time (on_timer client w)
unfolding own_steps advance apart resume equal call
one_shot_lem {K} {W} f client w c delay period d = by_delay (equal d no_time) refl
  where
    begun : Bool → System K W
    begun z = record {
      timer = record (stopped client d no_time w).timer { run_ = true };
      place = (if not z then delay_wait (add (c 2) d) else at_loop (c 2));
      awake = false;
      world = w;
    }

    by_delay :
        (z : Bool)
        → equal d no_time ≡ z
        → own_steps f c
            (if z then 7 else 8)
            (called (one_shot_call d) (stopped client delay period w))
          ≡ stopped client d no_time (f client w)
    by_delay true e = ap (λ b. own f (c 6) (own f (c 5) (own f (c 4) (own f (c 3) (begun b))))) e
    by_delay false e =
        ap (λ b. own f (c 7) (own f (c 6) (own f (c 5) (own f (c 4) (own f (c 3) (begun b)))))) e

-- The time of the wait after so many calls of the client, and what those calls did.
pub due : TimeBase → TimeBase → ℕ → TimeBase
due first period zero = first
due first period (suc n) = add (due first period n) period

pub ticked : {W : Type 0} → (W → W) → ℕ → W → W
ticked tick zero w = w
ticked tick (suc n) w = tick (ticked tick n w)

-- A started timer that waits, after its last call of the client, until `t`.
abbrev pub counting : {K W : Type 0} → K → TimeBase → TimeBase → TimeBase → W → System K W
counting client delay period t w = record (stopped client delay period w) {
  timer = record (stopped client delay period w).timer { run_ = true };
  place = period_wait t;
}

module _ {K W : Type 0} (on_timer : K → W → W) (client : K) (delay period : TimeBase) where
  -- From one wait to the next, the wait before the first call included.
  tick_lem :
      (now now' t : TimeBase) (w : W)
      → equal period no_time ≡ false
      → (own on_timer now' (own on_timer now (counting client delay period t w))
          ≡ counting client delay period (add t period) (on_timer client w))
        × (own on_timer now' (
              own on_timer now (record (counting client delay period t w) { place = delay_wait t }))
            ≡ counting client delay period (add t period) (on_timer client w))
  unfolding advance apart resume
  tick_lem now now' t w e = (ap tested e, ap tested e)
    where
      outcome : Bool → Place × ThreadTimer K × W
      outcome z =
          if z then (at_loop t, (stopped client delay period w).timer, on_timer client w) else (
            period_wait (add t period),
            (counting client delay period t w).timer,
            on_timer client w,
          )

      tested : Bool → System K W
      tested z = record {
        timer = (outcome z).1;
        place = (outcome z).0;
        awake = false;
        world = (outcome z).2;
      }

-- A stopped timer that is started with a delay and a period, neither zero, and has no more calls
-- and no early end of a wait, has after each of its waits called the client once more. The waits
-- are for the time at the start plus the delay, and then a period more each, so the times do not
-- drift.
pub periodic_lem :
    {K W : Type 0} (on_timer : K → W → W) (client : K) (w : W) (clock : ℕ → TimeBase)
    (delay period d p : TimeBase) (n : ℕ)
    → equal d no_time ≡ false
    → equal p no_time ≡ false
    → own_steps on_timer clock
        (5 + 2 * n)
        (called (start_delay_call d p) (stopped client delay period w))
      ≡ counting client d p (due (add (clock 2) d) p (suc n)) (ticked (on_timer client) (suc n) w)
unfolding own_steps advance apart resume call due ticked
periodic_lem {K} {W} f client w c delay period d p zero e h =
    ap (λ z. own f (c 4) (own f (c 3) (begun z))) e
    ∙ (tick_lem f client d p (c 3) (c 4) (add (c 2) d) w h).1
  where
    begun : Bool → System K W
    begun z = record (counting client d p (c 2) w) {
      place = (if not z then delay_wait (add (c 2) d) else at_loop (c 2));
    }
periodic_lem f client w c delay period d p (suc n) e h =
    ap (λ k. own_steps f c k (called (start_delay_call d p) (stopped client delay period w)))
      two_more
    ∙ ap (λ s. own f (c (suc (5 + 2 * n))) (own f (c (5 + 2 * n)) s))
        (periodic_lem f client w c delay period d p n e h)
    ∙ (tick_lem f client d p (c (5 + 2 * n)) (c (suc (5 + 2 * n))) (due (add (c 2) d) p (suc n))
        (ticked (f client) (suc n) w) h).0
  where
    two_more : 5 + 2 * suc n ≡ suc (suc (5 + 2 * n))
    two_more = omega arith
