-- ===== src/CircQueue.antt =====
-- CtrlrFx/CircQueue.h: the circular queue over an array of `cap` cells, one of which stays unused.
-- The pointers `put_` and `get_` are offsets from `base_`, `end_ - base_` is `cap`, and a shell
-- with no memory has `cap` 0. An operation that follows a pointer outside the array is `none`.
-- `T` is the element type `A`; `new T[n]` is the parameter `new_array`, and `delete[]` is not
-- modelled beyond the loss of the memory. The byte specialisations at the end of the header are
-- left out: they name `T` and `empty_`, which are not declared there.
pub mod Inv
pub mod Fifo
pub mod Bulk
pub mod Refine
pub mod Run
mod Tests
use ctrlr_fx.Prelude.{
  ℕ, zero, suc, ◌+◌, ◌-◌, ◌%◌, ◌^◌, min, List, [], Option, none, some, ◌>>=◌, Bool, true, false,
  ◌==◌, ltb, if◌then◌else◌, sub_size, low32, sign_extend,
}
use ctrlr_fx.Memory.{load, store, copy_elem}

pub record CircQueue (A : Type 0) : Type 0 where
  pub buf : List A
  pub cap : ℕ
  pub put_ : ℕ
  pub get_ : ℕ
  pub own : Bool

module _ {A : Type 0} where
  -- `next`: one step on, round to `base_` at `end_`.
  abbrev pub next : CircQueue A → ℕ → ℕ
  next q p = if p + 1 == q.cap then 0 else p + 1

  -- `size`: the pointer difference and the sum are `int`, the result is `size_t`.
  pub size : CircQueue A → ℕ
  size q =
      let sz = low32 (q.put_ + 2 ^ 64 - q.get_) in
      sign_extend (if ltb sz (2 ^ 31) then sz else low32 (sz + q.cap))

  abbrev pub capacity : CircQueue A → ℕ
  capacity q = q.cap

  pub full : CircQueue A → Bool
  full q = next q q.put_ == q.get_

  pub empty : CircQueue A → Bool
  empty q = q.put_ == q.get_

  pub remaining : CircQueue A → ℕ
  remaining q = sub_size (sub_size (capacity q) (size q)) 1

  -- `dealloc`: owned memory goes away; `put_`, `get_` and `end_` are left as they are.
  pub dealloc : CircQueue A → CircQueue A
  dealloc q = if q.own then record q { buf = []; own = false } else q

  pub destroy : CircQueue A → CircQueue A
  destroy q = record (dealloc q) { buf = []; cap = 0; put_ = 0; get_ = 0 }

  -- `set(buf, cap, own)`
  pub set_buffer : CircQueue A → List A → ℕ → Bool → CircQueue A
  set_buffer q arr cap own =
      if cap == 0
      then destroy q
      else record (dealloc q) { buf = arr; cap = cap; put_ = 0; get_ = 0; own = own }

  pub resize : (ℕ → List A) → CircQueue A → ℕ → CircQueue A
  resize new_array q cap = if cap == 0 then destroy q else set_buffer q (new_array cap) cap true

  -- The constructors; before their bodies only `own_` is set.
  abbrev pub raw : CircQueue A
  raw = record { buf = []; cap = 0; put_ = 0; get_ = 0; own = false }

  pub init_shell : CircQueue A
  init_shell = destroy raw

  pub init_capacity : (ℕ → List A) → ℕ → CircQueue A
  init_capacity new_array cap = resize new_array raw cap

  pub init_array : List A → ℕ → Bool → CircQueue A
  init_array arr cap own = set_buffer raw arr cap own

  -- `put(v)`
  pub put : CircQueue A → A → Option (Bool × CircQueue A)
  put q v = if full q then some (false, q) else (do
    buf ← store q.buf q.put_ v
    some (true, record q { buf = buf; put_ = next q q.put_ }))

  -- `put(buf, n)`: the number of elements taken, and the queue.
  pub put_n : CircQueue A → List A → ℕ → Option (ℕ × CircQueue A)
  put_n q src count =
      let n = min count (remaining q) in
      let nwrap = sub_size q.cap q.put_ in
      if ltb n nwrap
      then (do
        buf ← copy_elem q.buf q.put_ src 0 n
        some (n, record q { buf = buf; put_ = q.put_ + n }))
      else (do
        buf ← copy_elem q.buf q.put_ src 0 nwrap
        buf' ← copy_elem buf 0 src nwrap (n - nwrap)
        some (n, record q { buf = buf'; put_ = n - nwrap }))

  -- `get(T* p)`: what is written through `p`, `none` for the result `false`.
  pub get : CircQueue A → Option (Option A × CircQueue A)
  get q =
      if empty q
      then some (none, q)
      else (do v ← load q.buf q.get_; some (some v, record q { get_ = next q q.get_ }))

  -- `get()`: with `T(0)` for an empty queue.
  pub get_or_zero : A → CircQueue A → Option (A × CircQueue A)
  get_or_zero zero_value q =
      if empty q
      then some (zero_value, q)
      else (do v ← load q.buf q.get_; some (v, record q { get_ = next q q.get_ }))

  -- `get(buf, n)`: the number of elements, the caller's array, and the queue.
  pub get_n : CircQueue A → List A → ℕ → Option (ℕ × List A × CircQueue A)
  get_n q out count =
      let n = min count (size q) in
      let nwrap = sub_size q.cap q.get_ in
      if empty q
      then some (0, out, q)
      else if ltb n nwrap
      then (do
        out' ← copy_elem out 0 q.buf q.get_ n
        some (n, out', record q { get_ = q.get_ + n }))
      else (do
        out' ← copy_elem out 0 q.buf q.get_ nwrap
        out'' ← copy_elem out' nwrap q.buf 0 (n - nwrap)
        some (n, out'', record q { get_ = n - nwrap }))
