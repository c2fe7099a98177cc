-- ===== src/MsgQueue.antt =====
-- CtrlrFx/MsgQueue.h: the queue that threads share. The pointers are offsets from `buf_`. A
-- semaphore (Semaphore.h over the operating system's) is its count: `acquire` waits until
-- it is positive and takes one, `tryacquire` fails at 0, `post` adds one. `lock_` makes the parts
-- between the guards single steps. `T` is `A`, and `new T[n]` is the parameter `new_array`.
-- An access outside the array is `none`. A timed call is the `try` call or the blocking one,
-- whichever way the wait ends.
pub mod Holds
pub mod Threads
mod Tests
use ctrlr_fx.Prelude.{
  ℕ, zero, suc, ◌+◌, ◌-◌, List, [], Option, none, some, ◌>>=◌, Bool, true, false, ◌==◌, ltb, not,
  if◌then◌else◌, add_size, sub_size,
}
use ctrlr_fx.Memory.{load, store}

pub record MsgQueue (A : Type 0) : Type 0 where
  pub buf : List A
  pub cap : ℕ
  pub put_ : ℕ
  pub get_ : ℕ
  pub sz : ℕ
  pub own : Bool
  pub slots : ℕ
  pub items : ℕ

module _ {A : Type 0} where
  abbrev pub next : MsgQueue A → ℕ → ℕ
  next q p = if p + 1 == q.cap then 0 else p + 1

  abbrev pub capacity : MsgQueue A → ℕ
  capacity q = q.cap

  abbrev pub size : MsgQueue A → ℕ
  size q = q.sz

  abbrev pub available : MsgQueue A → ℕ
  available q = q.sz

  abbrev pub remaining : MsgQueue A → ℕ
  remaining q = sub_size (capacity q) q.sz

  pub full : MsgQueue A → Bool
  full q = size q == 0

  pub empty : MsgQueue A → Bool
  empty q = remaining q == 0

  -- `destroy`: both semaphores are drained.
  unfoldable pub destroy : MsgQueue A → MsgQueue A
  destroy q = record {
    buf = [];
    cap = 0;
    put_ = 0;
    get_ = 0;
    sz = 0;
    own = false;
    slots = 0;
    items = 0;
  }

  -- `set_buffer`: `slotSem_` is posted once for each cell. A null array is `none`.
  unfoldable pub set_buffer : MsgQueue A → Option (List A) → ℕ → Bool → MsgQueue A
  unfolding destroy
  set_buffer q none cap own = destroy q
  set_buffer q (some arr) cap own =
      if cap == 0
      then destroy q
      else record (destroy q) { buf = arr; cap = cap; own = own; slots = cap }

  unfoldable pub resize : (ℕ → List A) → MsgQueue A → ℕ → MsgQueue A
  unfolding set_buffer destroy
  resize new_array q cap =
      if ltb 0 cap then set_buffer q (some (new_array cap)) cap true else destroy q

  -- The locked part of `do_put`.
  unfoldable pub write_cell : MsgQueue A → A → Option (MsgQueue A)
  write_cell q v = do
    buf ← store q.buf q.put_ v
    some (record q { buf = buf; put_ = next q q.put_; sz = add_size q.sz 1 })

  -- The locked part of `do_get`.
  unfoldable pub read_cell : MsgQueue A → Option (A × MsgQueue A)
  read_cell q = do
    v ← load q.buf q.get_
    some (v, record q { get_ = next q q.get_; sz = sub_size q.sz 1 })

  unfoldable pub do_put : MsgQueue A → A → Option (Bool × MsgQueue A)
  unfolding write_cell
  do_put q v = write_cell q v >>= λ q'. some (true, record q' { items = q'.items + 1 })

  unfoldable pub do_get : MsgQueue A → Option (Option A × MsgQueue A)
  unfolding read_cell
  do_get q = read_cell q >>= λ r. some (some r.0, record r.1 { slots = r.1.slots + 1 })

  unfoldable pub tryput : MsgQueue A → A → Option (Bool × MsgQueue A)
  unfolding do_put
  tryput q v = if q.slots == 0 then some (false, q) else do_put (record q { slots = q.slots - 1 }) v

  unfoldable pub tryget : MsgQueue A → Option (Option A × MsgQueue A)
  unfolding do_get
  tryget q = if q.items == 0 then some (none, q) else do_get (record q { items = q.items - 1 })

  -- `peek`: the value at the front, which stays.
  pub peek : MsgQueue A → Option (Option A)
  peek q = if not (q.sz == 0) then (load q.buf q.get_ >>= λ v. some (some v)) else some none
