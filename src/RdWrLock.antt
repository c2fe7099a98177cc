-- ===== src/RdWrLock.antt =====
-- CtrlrFx/os/generic/CtrlrFx/RdWrLock.h and src/os/generic/RdWrLock.cpp: the reader/writer lock on a
-- condition variable. Each function below is what its caller does with the mutex of `cond_` held: a
-- wait loop is one test, where `none` says that the caller waits. `Wake` says which of the waiting
-- threads the call wakes. `nrd_` is a natural number: the increment of an `int` beyond its range has
-- no meaning in the source.
pub mod Threads
mod Tests
use ctrlr_fx.Prelude.{
  ℕ, ◌+◌, ◌-◌, Option, none, some, Bool, true, false, not, ◌||◌, ◌==◌, if◌then◌else◌,
}

pub record RdWrLock : Type 0 where
  pub wrlk : Bool
  pub wrwt : Bool
  pub nrd : ℕ

-- `signal` and `broadcast` of the condition variable, or neither.
pub data Wake : Type 0 where
  wake_none : Wake
  wake_one : Wake
  wake_all : Wake

pub record Done : Type 0 where
  pub ok : Bool
  pub lock : RdWrLock
  pub wake : Wake

abbrev pub new_lock : RdWrLock
new_lock = record { wrlk = false; wrwt = false; nrd = 0 }

-- `rd_lock`
abbrev pub rd_lock : RdWrLock → Option RdWrLock
rd_lock l = if l.wrlk || l.wrwt then none else some (record l { nrd = l.nrd + 1 })

abbrev pub rd_unlock : RdWrLock → Done
rd_unlock l = if l.nrd == 0 then record { ok = false; lock = l; wake = wake_none } else record {
  ok = true;
  lock = record l { nrd = l.nrd - 1 };
  wake = if l.nrd - 1 == 0 then wake_all else wake_none;
}

-- `wr_lock`, the first loop and the line after it.
abbrev pub wr_lock_wait : RdWrLock → Option RdWrLock
wr_lock_wait l = if l.wrwt then none else some (record l { wrwt = true })

-- `wr_lock`, the second loop and the rest.
abbrev pub wr_lock_take : RdWrLock → Option Done
wr_lock_take l =
    if l.wrlk || not (l.nrd == 0)
    then none
    else some record { ok = true; lock = record l { wrlk = true; wrwt = false }; wake = wake_one }

abbrev pub wr_unlock : RdWrLock → Done
wr_unlock l =
    if not l.wrlk
    then record { ok = false; lock = l; wake = wake_none }
    else record { ok = true; lock = record l { wrlk = false }; wake = wake_all }

abbrev pub wr_demote : RdWrLock → Done
wr_demote l =
    if not l.wrlk
    then record { ok = false; lock = l; wake = wake_none }
    else record { ok = true; lock = record l { wrlk = false; nrd = l.nrd + 1 }; wake = wake_all }
