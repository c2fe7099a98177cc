-- ===== src/ConditionData/Tests.antt =====
-- CtrlrFx/ConditionData.h: a thread that waits for 2 while the value is 0.
use ctrlr_fx.Prelude.{ℕ, ◌≡◌, refl, [], ◌∷◌, Bool, false, ◌==◌}
use ctrlr_fx.ConditionData.{wait, passes}
use ctrlr_fx.ConditionData.Threads.{
  System, start, remove_at, Uses, calls, sleeps, Reach, here, next, no_missed_value,
}

abbrev same : ℕ → ℕ → Bool
same a b = a == b

abbrev waiting : System ℕ
waiting = record { val = 0; asleep = wait 2 ∷ []; awake = [] }

waiting-Reach : Reach same false (start 0) waiting
unfolding Uses passes remove_at
waiting-Reach =
    next (next here (calls (start 0) (wait 2) refl))
      (sleeps (record waiting { asleep = []; awake = wait 2 ∷ [] }) 0 (wait 2) refl refl)

no_missed_value_example : passes same (wait 2).test 0 ≡ false
no_missed_value_example = no_missed_value same 0 waiting 0 (wait 2) waiting-Reach refl
