-- ===== src/Memory.antt =====
-- Arrays of a program as lists of cells, and the element copy that Buffer.h, CircQueue.h and
-- Array.h each define (`copy_elem`). A load or a store outside the array is a fault, `none`.
pub mod Copy
use ctrlr_fx.Prelude.{
  ℕ, zero, suc, ◌+◌, ◌<◌, ◌≡◌, refl, List, [], ◌∷◌, Option, none, some, ◌>>=◌, get_elem?, set,
  length, ap, arith, take, drop, ◌++◌, leb, if◌then◌else◌,
}

module _ {A : Type 0} where
  -- `a[i]` as a value.
  abbrev pub load : List A → ℕ → Option A
  load a i = get_elem? a i

  -- `a[i] = v`.
  unfoldable pub store : List A → ℕ → A → Option (List A)
  store [] i v = none
  store (x ∷ xs) zero v = some (v ∷ xs)
  store (x ∷ xs) (suc i) v = store xs i v >>= λ ys. some (x ∷ ys)

  -- `while (n--) *dest++ = *src++;` with `dest` at `d` and `src` at `s`; the result is the
  -- destination's memory. The two memories do not overlap.
  unfoldable pub copy_elem : List A → ℕ → List A → ℕ → ℕ → Option (List A)
  copy_elem dest d src s zero = some dest
  copy_elem dest d src s (suc n) = do
    v ← load src s
    dest' ← store dest d v
    copy_elem dest' (d + 1) src (s + 1) n

  -- `memcpy` from and to the cells at an address.
  unfoldable pub load_block : List A → ℕ → ℕ → Option (List A)
  load_block mem a n = if leb (a + n) (length mem) then some (take n (drop a mem)) else none

  unfoldable pub store_block : List A → ℕ → List A → Option (List A)
  store_block mem a block =
      if leb (a + length block) (length mem)
      then some (take a mem ++ (block ++ drop (a + length block) mem))
      else none

  pub store_lem : (a : List A) (i : ℕ) (v : A) → i < length a → store a i v ≡ some (set a i v)
  unfolding store
  store_lem [] i v h = absurd (omega arith)
  store_lem (x ∷ xs) zero v h = refl
  store_lem (x ∷ xs) (suc i) v h = ground (arith, store_lem xs i v)
