-- ===== src/Memory/Copy.antt =====
-- What `copy_elem` leaves in the destination, cell by cell.
use ctrlr_fx.Prelude.{
  ◌++◌, get_elem?-append, ℕ, zero, suc, ◌+◌, ◌-◌, ◌≤◌, ◌<◌, ◌≡◌, refl, ◌∙◌, List, some, get_elem?,
  set, length, length-set, get_elem?-some, get_elem?-set_self, get_elem?-set_ne, arith, ltb, leb,
  ◌&&◌, if◌then◌else◌,
}
use ctrlr_fx.Memory.{copy_elem, store_lem}

module _ {A : Type 0} where
  -- One round of the loop.
  pub copy_elem_step :
      (dest : List A) (d : ℕ) (src : List A) (s n : ℕ) {v : A}
      → get_elem? src s ≡ some v
      → d < length dest
      → copy_elem dest d src s (suc n) ≡ copy_elem (set dest d v) (d + 1) src (s + 1) n
  unfolding copy_elem
  copy_elem_step dest d src s n {v} e h = ground (arith, store_lem dest d v)

  -- The copy ends without a fault when both ranges lie inside their arrays.
  -- Cell `j` then holds what the source had at the same distance, or what it held before.
  pub record Copied (dest : List A) (d : ℕ) (src : List A) (s n : ℕ) (out : List A) : Type 0 where
    pub size : length out ≡ length dest
    pub cells :
        (j : ℕ)
        → get_elem? out j
          ≡ (if leb d j && ltb j (d + n) then get_elem? src (s + (j - d)) else get_elem? dest j)

  pub copy_elem-Copied :
      (dest : List A) (d : ℕ) (src : List A) (s n : ℕ)
      → d + n ≤ length dest
      → s + n ≤ length src
      → (out : List A) × (copy_elem dest d src s n ≡ some out) × Copied dest d src s n out
  unfolding copy_elem
  copy_elem-Copied dest d src s zero hd hs =
      (dest, refl, record { size = refl; cells = λ j. ground arith })
  copy_elem-Copied dest d src s (suc n) hd hs =
      let (v, e) = get_elem?-some src s (omega arith) in
      let (out, run, c) =
        copy_elem-Copied (set dest d v) (d + 1) src (s + 1) n (omega (arith, length-set dest d v))
          (omega arith) in
      (
        out,
        ground (arith, store_lem dest d v, e),
        record {
          size = c.size ∙ length-set dest d v;
          cells = λ j.
              ground
                (arith, c.cells j, e, get_elem?-set_self dest d v, get_elem?-set_ne dest d j v);
        },
      )

  pub Copied-none : (dest : List A) (d : ℕ) (src : List A) (s : ℕ) → Copied dest d src s 0 dest
  Copied-none dest d src s = record { size = refl; cells = λ j. ground arith }

  -- Two blocks copied one behind the other are their concatenation, copied.
  pub Copied-trans :
      (dest : List A) (d : ℕ) (xs ys mid out : List A)
      → Copied dest d xs 0 (length xs) mid
      → Copied mid (d + length xs) ys 0 (length ys) out
      → Copied dest d (xs ++ ys) 0 (length xs + length ys) out
  Copied-trans dest d xs ys mid out p q = record {
    size = q.size ∙ p.size;
    cells = λ j. ground (arith, p.cells j, q.cells j, get_elem?-append xs ys (j - d));
  }
