-- ===== src/Guard.antt =====
-- CtrlrFx/Guard.h: the guard that holds a lock for a block of code. `RdGuard` and `WrGuard` of
-- CtrlrFx/os/generic/CtrlrFx/RdWrLock.h are the same code over `rd_lock` and `wr_lock`. The lock is a
-- parameter: its state `L`, and what `acquire` and `release` do to it for the thread of the guard.
pub mod Life
mod Tests
use ctrlr_fx.Prelude.{Bool, true, false, not, List, [], ◌∷◌, if◌then◌else◌}

pub record Guard (L : Type 0) : Type 0 where
  pub lock_ : L
  pub own_ : Bool

module _ {L : Type 0} (lock_acquire lock_release : L → L) where
  abbrev pub acquire : Guard L → Guard L
  acquire g = if not g.own_ then record { lock_ = lock_acquire g.lock_; own_ = true } else g

  abbrev pub release : Guard L → Guard L
  release g = if g.own_ then record { lock_ = lock_release g.lock_; own_ = false } else g

  -- `Guard(lock)` and `Guard(lock, own)`
  abbrev pub init : L → Guard L
  init l = record { lock_ = lock_acquire l; own_ = true }

  abbrev pub init_owned : L → Bool → Guard L
  init_owned l own = acquire (record { lock_ = l; own_ = own })

  -- The destructor: the lock that is left.
  abbrev pub destroy : Guard L → L
  destroy g = if g.own_ then lock_release g.lock_ else g.lock_
