-- ===== src/Buffer.antt =====
-- CtrlrFx/Buffer.h: an array with a position, a limit and a mark. The pointers are offsets from
-- `base_`; `end_` is the capacity. `T` is `A`, `new T[n]` is the parameter `new_array`, and
-- `delete[]` is not modelled beyond the loss of the memory. An access outside the array, or a
-- pointer before its start, is `none`. `set` and the accessors that hand out raw pointers are
-- left out (`set` is declared and not defined), and so are the `memcpy` specialisations of
-- `copy_elem`, which copy the same elements. Offsets are below 2 ^ 31, so that the cast to `int` in
-- `align` keeps them, and `align` is called with a positive boundary.
pub mod Inv
pub mod Transfer
pub mod Copies
mod Tests
use ctrlr_fx.Prelude.{
  ℕ, zero, suc, ◌+◌, ◌-◌, ◌*◌, ◌%◌, List, [], Option, none, some, ◌>>=◌, Bool, true, false, not,
  ◌==◌, ltb, leb, if◌then◌else◌, sub_size,
}
use ctrlr_fx.Memory.{load, store, copy_elem}

pub record Buffer (A : Type 0) : Type 0 where
  pub buf : List A
  pub pos : ℕ
  pub lim : ℕ
  pub end_ : ℕ
  pub mark_ : ℕ
  pub own : Bool

-- The argument of `incr_position(int n)`: a move on or back.
pub data Move : Type 0 where
  on back : ℕ → Move

module _ {A : Type 0} where
  abbrev pub capacity : Buffer A → ℕ
  capacity b = b.end_

  abbrev pub byte_capacity : ℕ → Buffer A → ℕ
  byte_capacity item_size b = capacity b * item_size

  abbrev pub size : Buffer A → ℕ
  size b = b.lim

  abbrev pub position : Buffer A → ℕ
  position b = b.pos

  abbrev pub available : Buffer A → ℕ
  available b = sub_size b.lim b.pos

  abbrev pub has_available : Buffer A → Bool
  has_available b = not (b.lim == b.pos)

  -- `full()` and `empty()` are the same test.
  abbrev pub full : Buffer A → Bool
  full b = b.lim == b.pos

  -- `size(sz)`, `position(pos)`, `incr_position()` and `incr_position(n)`.
  abbrev pub set_size : Buffer A → ℕ → Buffer A
  set_size b sz = record b { lim = sz }

  abbrev pub set_position : Buffer A → ℕ → Buffer A
  set_position b pos = record b { pos = pos }

  abbrev pub incr_position : Buffer A → Buffer A
  incr_position b = record b { pos = b.pos + 1 }

  pub incr_position_by : Buffer A → Move → Option (Buffer A)
  incr_position_by b (on n) = some (record b { pos = b.pos + n })
  incr_position_by b (back n) = if leb n b.pos then some (record b { pos = b.pos - n }) else none

  abbrev pub mark : Buffer A → Buffer A
  mark b = record b { mark_ = b.pos }

  abbrev pub reset : Buffer A → Buffer A
  reset b = record b { pos = b.mark_ }

  abbrev pub rewind : Buffer A → Buffer A
  rewind b = record b { pos = 0; mark_ = 0 }

  abbrev pub clear : Buffer A → Buffer A
  clear b = record b { pos = 0; mark_ = 0; lim = b.end_ }

  -- `clear(sz)`
  abbrev pub clear_to : Buffer A → ℕ → Buffer A
  clear_to b sz = record b {
    pos = 0;
    mark_ = 0;
    lim = if ltb (capacity b) sz then capacity b else sz;
  }

  abbrev pub flip : Buffer A → Buffer A
  flip b = record b { lim = b.pos; pos = 0; mark_ = 0 }

  pub reserve : Buffer A → ℕ → Option (Buffer A)
  reserve b n = if leb n b.end_ then some (record b { lim = b.end_ - n }) else none

  abbrev pub align : Buffer A → ℕ → Buffer A
  align b n =
      let rem = b.pos % n in
      let p = b.pos + (n - rem) in
      if rem == 0 then b else if ltb p b.end_ then record b { pos = p } else b

  -- `while (pos_ < lim_) *pos_++ = v;` with at most the given number of rounds.
  fill_loop : ℕ → Buffer A → A → Option (Buffer A)
  fill_loop zero b v = some b
  fill_loop (suc rounds) b v = elim (ltb b.pos b.lim) [
    | false ↦ some b
    | true ↦
        store b.buf b.pos v >>= λ buf. fill_loop rounds (record b { buf = buf; pos = b.pos + 1 }) v
  ]

  pub fill : Buffer A → A → Option (Buffer A)
  unfolding fill_loop
  fill b v = fill_loop (b.lim - b.pos) b v

  -- `for (i = 0; i < n; ++i) base_[i] = pos_[i];`, with `i` of the rounds done.
  compact_loop : List A → ℕ → ℕ → ℕ → Option (List A)
  compact_loop mem pos i zero = some mem
  compact_loop mem pos i (suc rounds) = do
    v ← load mem (pos + i)
    mem' ← store mem i v
    compact_loop mem' pos (i + 1) rounds

  -- The mark stays where it was.
  pub compact : Buffer A → Option (Buffer A)
  unfolding compact_loop
  compact b = compact_loop b.buf b.pos 0 (available b) >>= λ buf.
      some (record b { buf = buf; lim = b.lim - b.pos; pos = 0 })

  -- `put(v)` does not test the limit.
  unfoldable pub put : Buffer A → A → Option (Buffer A)
  put b v = store b.buf b.pos v >>= λ buf. some (record b { buf = buf; pos = b.pos + 1 })

  -- `put(arr, n)`
  unfoldable pub put_n : Buffer A → List A → ℕ → Option (ℕ × Buffer A)
  put_n b arr n =
      if ltb b.lim (b.pos + n)
      then some (0, b)
      else (copy_elem b.buf b.pos arr 0 n >>= λ buf.
          some (n, record b { buf = buf; pos = b.pos + n }))

  -- `get()` does not test the limit.
  pub get : Buffer A → Option (A × Buffer A)
  get b = load b.buf b.pos >>= λ v. some (v, record b { pos = b.pos + 1 })

  -- `get(T* p)`: what is written through `p`, `none` for the result `false`.
  unfoldable pub get_next : Buffer A → Option (Option A × Buffer A)
  get_next b =
      if b.pos == b.lim
      then some (none, b)
      else (load b.buf b.pos >>= λ v. some (some v, record b { pos = b.pos + 1 }))

  -- `get(arr, n)`: the count, the caller's array, and the buffer.
  unfoldable pub get_n : Buffer A → List A → ℕ → Option (ℕ × List A × Buffer A)
  get_n b arr n =
      if ltb b.lim (b.pos + n)
      then some (0, arr, b)
      else (copy_elem arr 0 b.buf b.pos n >>= λ arr'. some (n, arr', record b { pos = b.pos + n }))

  -- The constructors and the management of the memory.
  pub init_shell : Buffer A
  init_shell = record { buf = []; pos = 0; lim = 0; end_ = 0; mark_ = 0; own = false }

  pub init_array : List A → ℕ → Bool → Buffer A
  init_array arr cap own = record {
    buf = arr;
    pos = 0;
    lim = cap;
    end_ = cap;
    mark_ = 0;
    own = own;
  }

  -- `Buffer(arr, sz, cap, own)` and `assign` do not test `sz` against `cap`.
  pub init_filled : List A → ℕ → ℕ → Bool → Buffer A
  init_filled arr sz cap own = record {
    buf = arr;
    pos = sz;
    lim = cap;
    end_ = cap;
    mark_ = sz;
    own = own;
  }

  pub dealloc : Buffer A → Buffer A
  dealloc b = if b.own then record b { buf = []; own = false } else b

  pub alloc : (ℕ → List A) → ℕ → Buffer A
  alloc new_array cap = record {
    buf = new_array cap;
    pos = 0;
    lim = cap;
    end_ = cap;
    mark_ = 0;
    own = true;
  }

  pub init_capacity : (ℕ → List A) → ℕ → Buffer A
  unfolding alloc
  init_capacity new_array cap = alloc new_array cap

  pub assign : Buffer A → List A → ℕ → ℕ → Bool → Buffer A
  assign b arr sz cap own = record (dealloc b) {
    buf = arr;
    pos = sz;
    mark_ = sz;
    end_ = cap;
    lim = cap;
    own = own;
  }

  pub destroy : Buffer A → Buffer A
  destroy b = record (dealloc b) { lim = 0; end_ = 0; pos = 0; mark_ = 0 }

  pub resize : (ℕ → List A) → Buffer A → ℕ → Buffer A
  unfolding alloc
  resize new_array b cap = alloc new_array cap

  pub deep_copy : Buffer A → Buffer A → Option (Bool × Buffer A)
  deep_copy b rhs =
      if ltb (capacity b) (size rhs)
      then some (false, b)
      else (copy_elem b.buf 0 rhs.buf 0 (size rhs) >>= λ buf.
          some (true, record b { buf = buf; pos = rhs.pos; mark_ = rhs.mark_; lim = rhs.lim }))

  -- The copy constructor and `operator=`, which do not look at the result of `deep_copy`.
  pub init_copy : (ℕ → List A) → Buffer A → Option (Buffer A)
  unfolding alloc deep_copy
  init_copy new_array rhs = deep_copy (alloc new_array (capacity rhs)) rhs >>= λ r. some r.1
