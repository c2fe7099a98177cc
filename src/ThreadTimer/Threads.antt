-- ===== src/ThreadTimer/Threads.antt =====
-- ThreadTimer.cpp with its thread and any number of callers, in any interleaving, waits that end
-- without a cause included; the steps of the thread alone; what is shown of them.
use ctrlr_fx.Prelude.{ℕ, zero, suc, ◌≡◌, Bool, true, false, if◌then◌else◌}
use ctrlr_fx.ClockTime.{TimeBase}
use ctrlr_fx.ThreadTimer.{
  ThreadTimer, Place, starting, at_top, idle_test, begins, at_loop, idle_wait, delay_wait,
  period_wait, ended, init, register_client, start, start_period, start_delay, stop, one_shot, quit,
  resume, advance,
}

-- The timer, where its thread is, whether its wait is over, and what the clients act on.
pub record System (K W : Type 0) : Type 0 where
  pub timer : ThreadTimer K
  pub place : Place
  pub awake : Bool
  pub world : W

unfoldable pub waits : Place → Bool
waits starting = false
waits at_top = false
waits idle_test = false
waits begins = false
waits (at_loop t) = false
waits idle_wait = true
waits (delay_wait t) = true
waits (period_wait t) = true
waits ended = false

unfoldable pub is_idle : Place → Bool
is_idle starting = false
is_idle at_top = false
is_idle idle_test = false
is_idle begins = false
is_idle (at_loop t) = false
is_idle idle_wait = true
is_idle (delay_wait t) = false
is_idle (period_wait t) = false
is_idle ended = false

-- Whether the thread has given up the lock, or does not have it yet.
unfoldable pub apart : Place → Bool
apart starting = true
apart at_top = false
apart idle_test = false
apart begins = false
apart (at_loop t) = false
apart idle_wait = true
apart (delay_wait t) = true
apart (period_wait t) = true
apart ended = true

pub data Call (K : Type 0) : Type 0 where
  register_call : K → Call K
  start_call : Call K
  start_period_call : TimeBase → Call K
  start_delay_call : TimeBase → TimeBase → Call K
  stop_call : Call K
  one_shot_call : TimeBase → Call K
  quit_call : Call K

unfoldable pub call : {K : Type 0} → Call K → ThreadTimer K → ThreadTimer K × Bool
call (register_call client) t = register_client client t
call start_call t = start t
call (start_period_call period) t = start_period period t
call (start_delay_call delay period) t = start_delay delay period t
call stop_call t = stop t
call (one_shot_call timeout) t = one_shot timeout t
call quit_call t = quit t

-- A call while the lock is free. Its signal ends the wait of the thread, the only one that waits.
abbrev pub called : {K W : Type 0} → Call K → System K W → System K W
called c s =
    let r = call c s.timer in
    record s { timer = r.0; awake = if r.1 then waits s.place else s.awake }

-- After the constructor.
abbrev pub new_timer : {K W : Type 0} → K → W → System K W
new_timer client w = record { timer = init client; place = starting; awake = false; world = w }

module _ {K W : Type 0} (on_timer : K → W → W) where
  -- The thread's next step, with the time that the clock shows: on from where it is, out of its
  -- wait, or with the lock that it starts with.
  abbrev pub own : TimeBase → System K W → System K W
  own now s =
      if apart s.place
      then record s { place = resume s.place; awake = false }
      else (let r = advance on_timer now s.place s.timer s.world in
          record { timer = r.1; place = r.0; awake = false; world = r.2 })

  -- The first steps of the thread when there are no calls, with the times that the clock shows.
  unfoldable pub own_steps : (ℕ → TimeBase) → ℕ → System K W → System K W
  own_steps clock zero s = s
  own_steps clock (suc n) s = own (clock n) (own_steps clock n s)

  pub data Step : System K W → System K W → Type 0 where
    calls : (s : System K W) (c : Call K) → apart s.place ≡ true → Step s (called c s)
    runs : (s : System K W) (now : TimeBase) → apart s.place ≡ false → Step s (own now s)
    -- The time of a wait is over, or it ends without a cause.
    rouses : (s : System K W) → waits s.place ≡ true → Step s (record s { awake = true })
    wakes :
        (s : System K W) (now : TimeBase)
        → waits s.place ≡ true
        → s.awake ≡ true
        → Step s (own now s)
    enters : (s : System K W) (now : TimeBase) → s.place ≡ starting → Step s (own now s)

  pub data Reach : System K W → System K W → Type 0 where
    here : {s : System K W} → Reach s s
    next : {s t u : System K W} → Reach s t → Step t u → Reach s u
