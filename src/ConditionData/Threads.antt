-- ===== src/ConditionData/Threads.antt =====
-- CtrlrFx/ConditionData.h with any number of threads that wait for values and set values, in any
-- interleaving, wake-ups without a cause included.
use ctrlr_fx.Prelude.{
  ℕ, zero, suc, ◌≡◌, refl, sym, ap, ◌∙◌, List, [], ◌∷◌, ◌++◌, some, some_injective, Bool, true,
  false, get_elem?, arith,
}
use ctrlr_fx.RdWrLock.{Wake, wake_none, wake_one, wake_all}
use ctrlr_fx.ConditionData.{
  After, leaves, signals, broadcasts, Waiter, wait, passes, new_value, wakes,
}

-- The value, the threads asleep, and those that are about to test.
pub record System (A : Type 0) : Type 0 where
  pub val : A
  pub asleep : List (Waiter A)
  pub awake : List (Waiter A)

abbrev pub start : {A : Type 0} → A → System A
start val = record { val = val; asleep = []; awake = [] }

-- A list without the element at an index.
unfoldable pub remove_at : {A : Type 0} → List A → ℕ → List A
remove_at [] i = []
remove_at (x ∷ xs) zero = xs
remove_at (x ∷ xs) (suc i) = x ∷ remove_at xs i

abbrev pub roused : {A : Type 0} → System A → ℕ → Waiter A → System A
roused s i w = record s { asleep = remove_at s.asleep i; awake = w ∷ s.awake }

-- What the condition variable does. A signal wakes one thread, whichever, or finds none asleep.
pub data Woken {A : Type 0} : Wake → System A → System A → Type 0 where
  no_one : (s : System A) → Woken wake_none s s
  everyone :
      (s : System A) → Woken wake_all s (record s { asleep = []; awake = s.asleep ++ s.awake })
  one :
      (s : System A) (i : ℕ) (w : Waiter A)
      → get_elem? s.asleep i ≡ some w
      → Woken wake_one s (roused s i w)
  none_asleep : (s : System A) → s.asleep ≡ [] → Woken wake_one s s

-- Which ways of waking a program uses: signals too, or broadcasts only.
unfoldable pub Uses : {A : Type 0} → Bool → After A → Type 0
Uses signals_too leaves = signals_too ≡ signals_too
Uses signals_too (signals val) = signals_too ≡ true
Uses signals_too (broadcasts val) = signals_too ≡ signals_too

module _ {A : Type 0} (same : A → A → Bool) (signals_too : Bool) where
  pub data Step : System A → System A → Type 0 where
    calls :
        (s : System A) (w : Waiter A)
        → Uses signals_too w.after
        → Step s (record s { awake = w ∷ s.awake })
    sleeps :
        (s : System A) (i : ℕ) (w : Waiter A)
        → get_elem? s.awake i ≡ some w
        → passes same w.test s.val ≡ false
        → Step s (record s { asleep = w ∷ s.asleep; awake = remove_at s.awake i })
    returns :
        (s t : System A) (i : ℕ) (w : Waiter A)
        → get_elem? s.awake i ≡ some w
        → passes same w.test s.val ≡ true
        → Uses signals_too w.after
        → Woken
            (wakes w.after)
            (record s { val = new_value w.after s.val; awake = remove_at s.awake i })
            t
        → Step s t
    -- `signal(val)` and `broadcast(val)`, and `signal()` and `broadcast()` with the value there is.
    sets :
        (s t : System A) (a : After A)
        → Uses signals_too a
        → Woken (wakes a) (record s { val = new_value a s.val }) t
        → Step s t
    times_out :
        (s : System A) (i : ℕ) (w : Waiter A)
        → get_elem? s.asleep i ≡ some w
        → w.timed ≡ true
        → Step s (record s { asleep = remove_at s.asleep i })
    rouses :
        (s : System A) (i : ℕ) (w : Waiter A)
        → get_elem? s.asleep i ≡ some w
        → Step s (roused s i w)

  pub data Reach : System A → System A → Type 0 where
    here : {s : System A} → Reach s s
    next : {s t u : System A} → Reach s t → Step t u → Reach s u

-- No test of the threads passes.
abbrev Fail : {A : Type 0} → (A → A → Bool) → A → List (Waiter A) → Type 0
Fail same val [] = Unit {0}
Fail same val (w ∷ ws) = (passes same w.test val ≡ false) × Fail same val ws

module _ {A : Type 0} (same : A → A → Bool) where
  Fail-remove_at :
      (val : A) (ws : List (Waiter A)) (i : ℕ) → Fail same val ws → Fail same val (remove_at ws i)
  unfolding remove_at
  Fail-remove_at val [] i f = f
  Fail-remove_at val (w ∷ ws) zero f = f.1
  Fail-remove_at val (w ∷ ws) (suc i) f = (f.0, Fail-remove_at val ws i f.1)

  Fail-get_elem? :
      (val : A) (ws : List (Waiter A)) (i : ℕ) (w : Waiter A)
      → Fail same val ws
      → get_elem? ws i ≡ some w
      → passes same w.test val ≡ false
  Fail-get_elem? val [] i w f e = cc
  Fail-get_elem? val (x ∷ ws) zero w f e =
      ap (λ (y : Waiter A). passes same y.test val) (sym (some_injective e)) ∙ f.0
  Fail-get_elem? val (x ∷ ws) (suc i) w f e = Fail-get_elem? val ws i w f.1 e

  -- A program that broadcasts leaves asleep no thread whose value has come.
  set-Fail :
      (a : After A) (s t : System A)
      → Uses false a
      → Fail same s.val s.asleep
      → Woken (wakes a) (record s { val = new_value a s.val }) t
      → Fail same t.val t.asleep
  unfolding Uses wakes new_value
  set-Fail leaves s t u f (no_one _) = f
  set-Fail (signals val) s t u f k = ground (arith, u)
  set-Fail (broadcasts val) s t u f (everyone _) = tt

  Step-Fail :
      {s t : System A} → Step same false s t → Fail same s.val s.asleep → Fail same t.val t.asleep
  Step-Fail (calls s w u) f = f
  Step-Fail (sleeps s i w e p) f = (p, f)
  Step-Fail (returns s t i w e p u k) f =
      set-Fail w.after (record s { awake = remove_at s.awake i }) t u f k
  Step-Fail (sets s t a u k) f = set-Fail a s t u f k
  Step-Fail (times_out s i w e p) f = Fail-remove_at s.val s.asleep i f
  Step-Fail (rouses s i w e) f = Fail-remove_at s.val s.asleep i f

  Reach-Fail :
      {s t : System A} → Reach same false s t → Fail same s.val s.asleep → Fail same t.val t.asleep
  Reach-Fail here f = f
  Reach-Fail (next r st) f = Step-Fail st (Reach-Fail r f)

  -- In every state that threads can reach that wait for values and set them by broadcast only, in
  -- any interleaving, no thread is asleep whose test passes at the value.
  pub no_missed_value :
      (val : A) (s : System A) (i : ℕ) (w : Waiter A)
      → Reach same false (start val) s
      → get_elem? s.asleep i ≡ some w
      → passes same w.test s.val ≡ false
  no_missed_value val s i w r e = Fail-get_elem? s.val s.asleep i w (Reach-Fail r tt) e

  -- With signals, for a value that differs from the first and from another one, a state can be
  -- reached with that value in which a thread that waits for it is asleep and no thread is awake.
  pub signal_misses :
      (first a b : A)
      → same first a ≡ false
      → same first b ≡ false
      → same a b ≡ false
      → same a a ≡ true
      → (s : System A) × Reach same true (start first) s
        × (s.awake ≡ [])
        × (get_elem? s.asleep 1 ≡ some (wait a))
        × (passes same (wait a).test s.val ≡ true)
  unfolding passes new_value wakes remove_at Uses
  signal_misses first a b e f g h =
      let both : System A = record { val = first; asleep = wait b ∷ wait a ∷ []; awake = [] } in
      let chosen : System A = record { val = a; asleep = wait a ∷ []; awake = wait b ∷ [] } in
      let r1 : Reach same true (start first) (record (start first) { asleep = wait a ∷ [] }) =
        next (next here (calls (start first) (wait a) refl))
          (sleeps (record (start first) { awake = wait a ∷ [] }) 0 (wait a) refl e) in
      let r2 : Reach same true (start first) both =
        next (next r1 (calls (record (start first) { asleep = wait a ∷ [] }) (wait b) refl))
          (sleeps (record both { asleep = wait a ∷ []; awake = wait b ∷ [] }) 0 (wait b) refl f) in
      let r3 : Reach same true (start first) chosen =
        next r2
          (sets both chosen (signals a) refl (one (record both { val = a }) 0 (wait b) refl)) in
      (record both { val = a }, next r3 (sleeps chosen 0 (wait b) refl g), refl, refl, h)
