-- ===== src/MsgSlot.antt =====
-- CtrlrFx/MsgSlot.h: the slot that passes one message. The semaphores are their counts. `T` is `A`.
-- `BinarySemaphore` is `binary` where a post leaves the count at 1 (CtrlrFx/os/ecos), and `counting`
-- where it is another name of `Semaphore` (CtrlrFx/os/posix/CtrlrFx/Semaphore.h).
pub mod Idle
mod Tests
use ctrlr_fx.Prelude.{ℕ, ◌+◌, ◌-◌, Option, none, some, Bool, true, false, ◌==◌, if◌then◌else◌}

pub data SemaphoreKind : Type 0 where
  binary : SemaphoreKind
  counting : SemaphoreKind

pub record MsgSlot (A : Type 0) : Type 0 where
  pub val : A
  pub sem_empty : ℕ
  pub sem_full : ℕ

-- `BinarySemaphore::post` of CtrlrFx/os/ecos, and `Semaphore::post`.
abbrev pub post_binary : ℕ → ℕ
post_binary n = 1

abbrev pub post_counting : ℕ → ℕ
post_counting n = n + 1

abbrev pub post : SemaphoreKind → ℕ → ℕ
post binary n = post_binary n
post counting n = post_counting n

module _ {A : Type 0} where
  -- The constructor; the value is what the default constructor of `T` leaves.
  abbrev pub new_slot : A → MsgSlot A
  new_slot found = record { val = found; sem_empty = 1; sem_full = 0 }

  abbrev pub do_put : SemaphoreKind → MsgSlot A → A → MsgSlot A
  do_put k s v = record s { val = v; sem_full = post k s.sem_full }

  abbrev pub do_get : SemaphoreKind → MsgSlot A → A × MsgSlot A
  do_get k s = (s.val, record s { sem_empty = post k s.sem_empty })

  -- `tryput`; `put` and `put(v, d)` where the wait ends with the semaphore acquired, or not.
  abbrev pub tryput : SemaphoreKind → MsgSlot A → A → Bool × MsgSlot A
  tryput k s v =
      if s.sem_empty == 0
      then (false, s)
      else (true, do_put k (record s { sem_empty = s.sem_empty - 1 }) v)

  -- `signal`: the result of its `tryacquire` is not used.
  abbrev pub signal : SemaphoreKind → MsgSlot A → A → MsgSlot A
  signal k s v = do_put k (record s { sem_empty = s.sem_empty - 1 }) v

  abbrev pub reset : MsgSlot A → MsgSlot A
  reset s = record s { sem_full = s.sem_full - 1 }

  abbrev pub tryget : SemaphoreKind → MsgSlot A → Option A × MsgSlot A
  tryget k s =
      if s.sem_full == 0
      then (none, s)
      else (let r = do_get k (record s { sem_full = s.sem_full - 1 }) in (some r.0, r.1))
