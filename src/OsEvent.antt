-- ===== src/OsEvent.antt =====
-- CtrlrFx/os/generic/CtrlrFx/OSEvent.h and src/os/generic/OSEvent.cpp: the event made from a condition
-- variable. Each function is what its caller does with the mutex of `cond_` held; a wait is `none`.
pub mod Signals
mod Tests
use ctrlr_fx.Prelude.{Option, none, some, Bool, true, false, not, if◌then◌else◌}

pub record OsEvent : Type 0 where
  pub manual_reset : Bool
  pub signaled : Bool

-- What `signal` does to the condition variable.
pub data Notice : Type 0 where
  notify_one : Notice
  notify_all : Notice

-- `wait`, from a test that ends its loop on.
abbrev pub wait : OsEvent → Option OsEvent
wait e =
    if not e.signaled
    then none
    else some (if not e.manual_reset then record e { signaled = false } else e)

-- `wait(d)`: where the test fails, `in_time` is what the wait on the condition variable returned.
abbrev pub wait_for : OsEvent → Bool → Option (Bool × OsEvent)
wait_for e in_time =
    if not e.signaled
    then (if in_time then none else some (false, e))
    else some (true, if not e.manual_reset then record e { signaled = false } else e)

-- `free` is the result of `cond_.trylock()`.
abbrev pub trywait : OsEvent → Bool → Bool × OsEvent
trywait e free = if not free then (false, e) else (e.signaled, record e { signaled = false })

abbrev pub signal : OsEvent → Notice × OsEvent
signal e = (if e.manual_reset then notify_all else notify_one, record e { signaled = true })

abbrev pub reset : OsEvent → OsEvent
reset e = record e { signaled = false }
