-- ===== src/ConditionData.antt =====
-- CtrlrFx/ConditionData.h: a value under a mutex with a condition variable, and threads that wait for
-- the value. `T` is `A`, its `==` is `same`, and `!=` is taken to be the negation of it. Each call
-- holds the mutex but for its wait: the part up to a test, and from a wake-up to the next test, is
-- one step. The calls whose names begin with `lock_` are the others under the guard of Guard.antt.
pub mod Threads
mod Tests
use ctrlr_fx.Prelude.{Bool, true, false, not}
use ctrlr_fx.RdWrLock.{Wake, wake_none, wake_one, wake_all}

-- What a thread waits for: `wait(val)` and `wait_not(val)`.
pub data Test (A : Type 0) : Type 0 where
  matches : A → Test A
  differs : A → Test A

-- What it does then: nothing, or what `signal(val)` or `broadcast(val)` does.
pub data After (A : Type 0) : Type 0 where
  leaves : After A
  signals : A → After A
  broadcasts : A → After A

-- A call that waits, and whether with a time limit.
pub record Waiter (A : Type 0) : Type 0 where
  pub test : Test A
  pub after : After A
  pub timed : Bool

abbrev pub wait : {A : Type 0} → A → Waiter A
wait val = record { test = matches val; after = leaves; timed = false }

abbrev pub wait_not : {A : Type 0} → A → Waiter A
wait_not val = record { test = differs val; after = leaves; timed = false }

-- `wait(val, d)` and `wait_not(val, d)`, which return `false` when the time is over.
abbrev pub wait_for : {A : Type 0} → A → Waiter A
wait_for val = record (wait val) { timed = true }

abbrev pub wait_not_for : {A : Type 0} → A → Waiter A
wait_not_for val = record (wait_not val) { timed = true }

abbrev pub wait_and_signal : {A : Type 0} → A → A → Waiter A
wait_and_signal match_val new_val = record (wait match_val) { after = signals new_val }

abbrev pub wait_and_broadcast : {A : Type 0} → A → A → Waiter A
wait_and_broadcast match_val new_val = record (wait match_val) { after = broadcasts new_val }

abbrev pub wait_not_and_signal : {A : Type 0} → A → A → Waiter A
wait_not_and_signal match_val new_val = record (wait_not match_val) { after = signals new_val }

abbrev pub wait_not_and_broadcast : {A : Type 0} → A → A → Waiter A
wait_not_and_broadcast match_val new_val = record (wait_not match_val) {
  after = broadcasts new_val;
}

-- Whether the loop of the call ends at this value.
unfoldable pub passes : {A : Type 0} → (A → A → Bool) → Test A → A → Bool
passes same (matches val) val_ = same val_ val
passes same (differs val) val_ = not (same val_ val)

-- The value after it, and whom the condition variable wakes.
unfoldable pub new_value : {A : Type 0} → After A → A → A
new_value leaves val_ = val_
new_value (signals val) val_ = val
new_value (broadcasts val) val_ = val

unfoldable pub wakes : {A : Type 0} → After A → Wake
wakes leaves = wake_none
wakes (signals val) = wake_one
wakes (broadcasts val) = wake_all
