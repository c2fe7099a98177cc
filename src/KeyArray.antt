-- ===== src/KeyArray.antt =====
-- CtrlrFx/KeyArray.h: a fixed number of slots, each with a key and a value; a slot whose key is
-- `EMPTY_SLOT` is free. The key type `KT` is an integer type, so a key is a number and
-- `EMPTY_SLOT`, which is `KT()`, is 0. An `int` index is an `Option`: `none` for the negative ones.
-- The array under it (CtrlrFx/Array.h) is a list of slots ; `size()` is the list's length.
pub mod Find
pub mod Laws
mod Tests
use ctrlr_fx.Prelude.{
  ℕ, zero, suc, ◌+◌, ◌≤◌, List, [], ◌∷◌, Option, none, some, ◌>>=◌, Bool, true, false, ◌==◌, ltb,
  if◌then◌else◌, get_elem?, set, pos, negsuc, to_int,
}
use ctrlr_fx.Memory.{load, store}

pub record KeyPair (T : Type 0) : Type 0 where
  pub key : ℕ
  pub val : T

abbrev pub KeyArray : Type 0 → Type 0
KeyArray T = List (KeyPair T)

abbrev pub empty_slot : ℕ
empty_slot = 0

-- The cast `(int) i`, which may make an index negative, and -1.
pub as_index : Option ℕ → Option ℕ
as_index none = none
as_index (some i) = elim (to_int i) [ pos k ↦ some k | negsuc k ↦ none ]

module _ {T : Type 0} where
  abbrev pub set_key : KeyPair T → ℕ → KeyPair T
  set_key p k = record p { key = k }

  -- The loop of `find`, with `i` of the slots passed.
  pub find_from : KeyArray T → ℕ → ℕ → Option ℕ
  find_from [] key i = none
  find_from (p ∷ ps) key i =
      let rest = find_from ps key (i + 1) in if p.key == key then some i else rest

  pub find_slot : KeyArray T → ℕ → Option ℕ
  find_slot arr key = find_from arr key 0

  pub find : KeyArray T → ℕ → Option ℕ
  unfolding find_slot as_index
  find arr key = as_index (find_slot arr key)

  pub is_empty_at : KeyArray T → Option ℕ → Bool
  is_empty_at arr none = false
  is_empty_at arr (some i) = elim (get_elem? arr i) [ none ↦ false | some p ↦ p.key == empty_slot ]

  -- The index that `put` returns, and the slots.
  put_at : KeyArray T → ℕ → T → Option ℕ → Option ℕ × KeyArray T
  put_at arr key val none = (none, arr)
  put_at arr key val (some i) = (some i, set arr i (record { key = key; val = val }))

  pub put : KeyArray T → ℕ → T → Option ℕ × KeyArray T
  unfolding put_at
  put arr key val = put_at arr key val (find arr empty_slot)

  -- `get_at` tests only that the index is not negative: past the end it faults, `none`.
  pub get_at : KeyArray T → Option ℕ → Option (Option T × KeyArray T)
  get_at arr none = some (none, arr)
  get_at arr (some i) = do
    p ← load arr i
    arr' ← store arr i (set_key p empty_slot)
    some (some p.val, arr')

  pub get : KeyArray T → ℕ → Option (Option T × KeyArray T)
  unfolding get_at
  get arr key = get_at arr (find arr key)

  pub remove_at : KeyArray T → Option ℕ → Bool × KeyArray T
  remove_at arr none = (false, arr)
  remove_at arr (some i) = elim (get_elem? arr i) [
    | none ↦ (false, arr)
    | some p ↦ (true, set arr i (set_key p empty_slot))
  ]

  pub remove : KeyArray T → ℕ → Bool × KeyArray T
  unfolding remove_at
  remove arr key = remove_at arr (find arr key)

  pub clear : KeyArray T → KeyArray T
  clear [] = []
  clear (p ∷ ps) = set_key p empty_slot ∷ clear ps

  -- The constructors clear the array that they allocate or are given.
  pub init_capacity : (ℕ → KeyArray T) → ℕ → KeyArray T
  unfolding clear
  init_capacity new_array cap = clear (new_array cap)
