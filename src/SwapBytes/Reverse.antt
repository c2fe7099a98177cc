-- ===== src/SwapBytes/Reverse.antt =====
-- `swap_bytes` reverses.
use mathlib.Core.List.{reverse, reverse-cons}
use ctrlr_fx.Prelude.{
  ℕ, zero, suc, ◌+◌, ◌-◌, ◌/◌, ◌≤◌, ◌<◌, ◌≡◌, refl, ap, ◌∙◌, List, [], ◌∷◌, Option, some, get_elem?,
  get_elem?-some, get_elem?-append, get_elem?-none, get_elem?-set_self, get_elem?-set_ne, set,
  length, length-append, length-set, list_ext, ltb, leb, ◌==◌, ◌&&◌, if◌then◌else◌, arith, ℕ-cases,
  inl, inr,
}
use ctrlr_fx.Memory.{store, store_lem}
use ctrlr_fx.SwapBytes.{swap_loop, swap_bytes, swap_bytes_uint16}

pub length-reverse : (xs : List ℕ) → length (reverse xs) ≡ length xs
length-reverse [] = refl
length-reverse (x ∷ xs) =
    omega
      (arith, ap length (reverse-cons x xs), length-append (reverse xs) (x ∷ []), length-reverse xs)

pub get_elem?-reverse :
    (xs : List ℕ) (j : ℕ)
    → j < length xs
    → get_elem? (reverse xs) j ≡ get_elem? xs (length xs - 1 - j)
get_elem?-reverse [] j h = absurd (omega arith)
get_elem?-reverse (x ∷ xs) j h =
    ap (λ t. get_elem? t j) (reverse-cons x xs)
    ∙ ground
        (arith, get_elem?-append (reverse xs) (x ∷ []) j, length-reverse xs, get_elem?-reverse xs j)

-- The cells from `i` on, up to the same distance from the end, are in the opposite order.
record Swapped (i : ℕ) (pv out : List ℕ) : Type 0 where
  size : length out ≡ length pv
  cells :
      (j : ℕ)
      → get_elem? out j ≡ (
          if leb i j && ltb (i + j) (length pv)
          then get_elem? pv (length pv - 1 - j)
          else get_elem? pv j)

exchange_cell :
    (pv : List ℕ) (i k : ℕ) {tmp x : ℕ}
    → get_elem? pv i ≡ some tmp
    → get_elem? pv k ≡ some x
    → i < length pv
    → k < length pv
    → (j : ℕ)
    → get_elem? (set (set pv i x) k tmp) j
      ≡ (if j == k then get_elem? pv i else if j == i then get_elem? pv k else get_elem? pv j)
exchange_cell pv i k {tmp} {x} e f h l j = ground (
  arith,
  e,
  f,
  get_elem?-set_self (set pv i x) k tmp,
  get_elem?-set_ne (set pv i x) k j tmp,
  get_elem?-set_self pv i x,
  get_elem?-set_ne pv i j x,
  length-set pv i x,
)

-- Two ends exchanged, and what lies between them reversed, is the reversal from the ends on.
exchange_cells :
    (f g : ℕ → Option ℕ) (n i j : ℕ)
    → i + i + 2 ≤ n
    → ((m : ℕ) → g m ≡ (if m == n - 1 - i then f i else if m == i then f (n - 1 - i) else f m))
    → (if leb (i + 1) j && ltb (i + 1 + j) n then g (n - 1 - j) else g j)
      ≡ (if leb i j && ltb (i + j) n then f (n - 1 - j) else f j)
exchange_cells f g n i j h ex = ground (arith, ex j, ex (n - 1 - j))

swap_loop_lem :
    (rounds i : ℕ) (pv : List ℕ)
    → i + rounds ≡ length pv / 2
    → (out : List ℕ) × (swap_loop rounds i pv ≡ some out) × Swapped i pv out
unfolding swap_loop
swap_loop_lem zero i pv h = (pv, refl, record { size = refl; cells = λ j. ground arith })
swap_loop_lem (suc rounds) i pv h =
    let k = length pv - 1 - i in
    let (tmp, e) = get_elem?-some pv i (omega arith) in
    let (x, f) = get_elem?-some pv k (omega arith) in
    let pv1 = set pv i x in
    let pv2 = set pv1 k tmp in
    let size : length pv2 ≡ length pv = length-set pv1 k tmp ∙ length-set pv i x in
    let (out, run, s) = swap_loop_lem rounds (i + 1) pv2 (omega (arith, size)) in
    (
      out,
      ground (arith, e, f, store_lem pv i x, store_lem pv1 k tmp, length-set pv i x, run),
      record {
        size = s.size ∙ size;
        cells = λ j.
            s.cells j
            ∙ ap
                (λ n.
                  if leb (i + 1) j && ltb (i + 1 + j) n
                  then get_elem? pv2 (n - 1 - j)
                  else get_elem? pv2 j)
                size
            ∙ exchange_cells (get_elem? pv) (get_elem? pv2) (length pv) i j (omega arith)
                (λ m. exchange_cell pv i k e f (omega arith) (omega arith) m);
      },
    )

reverse_short : (xs : List ℕ) → length xs ≤ 1 → reverse xs ≡ xs
reverse_short [] h = refl
reverse_short (x ∷ []) h = refl
reverse_short (x ∷ y ∷ xs) h = absurd (omega arith)

-- swap_bytes of a value of any size ends without a fault and leaves its bytes in the opposite
-- order.
pub swap_bytes_lem : (pv : List ℕ) → swap_bytes pv ≡ some (reverse pv)
unfolding swap_bytes
swap_bytes_lem pv = elim (ℕ-cases 1 (length pv)) [
  | inl long ↦
      let (out, run, s) = swap_loop_lem (length pv / 2) 0 pv (omega arith) in
      let same : out ≡ reverse pv = list_ext out (reverse pv) λ j. ground (
        arith,
        s.cells j,
        s.size,
        length-reverse pv,
        get_elem?-reverse pv j,
        get_elem?-none (reverse pv) j,
        get_elem?-none pv j,
      ) in
      ground (arith, long, run, same)
  | inr short ↦ ground (arith, short, reverse_short pv short)
]

-- The specialisation for two bytes does what the general loop does.
swap_bytes_uint16_lem : (pv : List ℕ) → length pv ≡ 2 → swap_bytes_uint16 pv ≡ swap_bytes pv
unfolding swap_bytes swap_bytes_uint16 swap_loop store
swap_bytes_uint16_lem [] h = absurd (omega arith)
swap_bytes_uint16_lem (x ∷ []) h = absurd (omega arith)
swap_bytes_uint16_lem (x ∷ y ∷ []) h = refl
swap_bytes_uint16_lem (x ∷ y ∷ z ∷ pv) h = absurd (omega arith)
