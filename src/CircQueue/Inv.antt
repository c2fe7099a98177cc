-- ===== src/CircQueue/Inv.antt =====
-- The representation invariant of CtrlrFx/CircQueue.h: the offsets lie inside the array and the
-- `int` arithmetic of `size` does not overflow.
use ctrlr_fx.Prelude.{
  ℕ, ◌+◌, ◌-◌, ◌^◌, ◌<◌, ◌≡◌, ◌≢◌, List, [], none, some, Bool, true, false, ◌==◌, leb,
  if◌then◌else◌, length, set, get_elem?, arith,
}
use ctrlr_fx.Memory.{store_lem}
use ctrlr_fx.CircQueue.{
  CircQueue, next, size, full, empty, remaining, put, get, dealloc, destroy, set_buffer,
}

pub record IsValid {A : Type 0} (q : CircQueue A) : Type 0 where
  pub storage : length q.buf ≡ q.cap
  pub small : q.cap < 2 ^ 31
  pub put_in : q.put_ < q.cap
  pub get_in : q.get_ < q.cap

-- The number of elements between the two offsets, going round.
abbrev pub count : {A : Type 0} → CircQueue A → ℕ
count q = if leb q.get_ q.put_ then q.put_ - q.get_ else q.put_ + q.cap - q.get_

module _ {A : Type 0} (q : CircQueue A) (v : IsValid q) where
  pub size_lem : size q ≡ count q
  unfolding size
  size_lem = ground arith

  pub count-lt-cap : count q < q.cap
  count-lt-cap = ground arith

  pub remaining_lem : remaining q ≡ q.cap - 1 - count q
  unfolding remaining
  remaining_lem = ground (arith, size_lem)

  pub full_lem : full q ≡ (count q == q.cap - 1)
  unfolding full
  full_lem = ground arith

  pub empty_lem : empty q ≡ (count q == 0)
  unfolding empty
  empty_lem = ground arith

  -- On each branch of `put(v)` the access is inside the array.
  pub put_lem :
      (x : A)
      → put q x ≡ (
          if count q == q.cap - 1
          then some (false, q)
          else some (true, record q { buf = set q.buf q.put_ x; put_ = next q q.put_ }))
  unfolding put
  put_lem x = ground (arith, full_lem, store_lem q.buf q.put_ x)

  pub get_lem :
      (x : A)
      → get_elem? q.buf q.get_ ≡ some x
      → get q ≡ (
          if count q == 0 then some (none, q) else some (some x, record q { get_ = next q q.get_ }))
  unfolding get
  get_lem x e = ground (arith, empty_lem)

module _ {A : Type 0} where
  -- `destroy` and the default constructor leave a shell: no memory, no ownership.
  pub destroy_lem :
      (q : CircQueue A) → destroy q ≡ record { buf = []; cap = 0; put_ = 0; get_ = 0; own = false }
  unfolding destroy dealloc
  destroy_lem q = ground arith

  -- What `set` makes of an array that it is given is valid and empty.
  pub set_buffer-IsValid :
      (q : CircQueue A) (arr : List A) (own : Bool)
      → length arr < 2 ^ 31
      → length arr ≢ 0
      → IsValid (set_buffer q arr (length arr) own)
        × (count (set_buffer q arr (length arr) own) ≡ 0)
  unfolding set_buffer
  set_buffer-IsValid q arr own h k = ground arith
