-- ===== src/KeyArray/Find.antt =====
-- CtrlrFx/KeyArray.h: what `find` finds.
use ctrlr_fx.Prelude.{
  ℕ, zero, suc, ◌+◌, ◌≡◌, ◌≢◌, refl, [], ◌∷◌, Option, none, some, ◌==◌, if◌then◌else◌, get_elem?,
  Bool-cases, ==_iff, ◌⊎◌, inl, inr, subst, ◌∙◌, arith, ◌≤◌, ◌^◌, length, get_elem?-lt, to_int_lem,
}
use ctrlr_fx.KeyArray.{KeyPair, KeyArray, find_from, find_slot, as_index, find}

-- No slot has the key.
abbrev pub Absent : {T : Type 0} → ℕ → KeyArray T → Type 0
Absent k [] = Unit
Absent k (p ∷ ps) = (p.key ≢ k) × Absent k ps

-- `i` is the first slot with the key.
abbrev pub FirstAt : {T : Type 0} → ℕ → KeyArray T → ℕ → Type 0
FirstAt k [] i = ⊥
FirstAt k (p ∷ ps) zero = p.key ≡ k
FirstAt k (p ∷ ps) (suc i) = (p.key ≢ k) × FirstAt k ps i

abbrev pub Found : {T : Type 0} → ℕ → KeyArray T → Option ℕ → Type 0
Found k arr none = Absent k arr
Found k arr (some i) = FirstAt k arr i

find_slot_nil : (T : Type 0) (k : ℕ) → find_slot {T = T} [] k ≡ none
unfolding find_slot find_from
find_slot_nil T k = refl

module _ {T : Type 0} where
  find_from_add :
      (arr : KeyArray T) (k i : ℕ)
      → find_from arr k (i + 1) ≡ elim (find_from arr k i) [ none ↦ none | some j ↦ some (j + 1) ]
  unfolding find_from
  find_from_add [] k i = refl
  find_from_add (p ∷ ps) k i = ground (arith, find_from_add ps k (i + 1))

  find_slot_cons :
      (p : KeyPair T) (ps : KeyArray T) (k : ℕ)
      → find_slot (p ∷ ps) k ≡ (
          if p.key == k
          then some 0
          else elim (find_slot ps k) [ none ↦ none | some j ↦ some (suc j) ])
  unfolding find_slot find_from
  find_slot_cons p ps k = ground (arith, find_from_add ps k 0)

  later-Found :
      (p : KeyPair T) (ps : KeyArray T) (k : ℕ) (o : Option ℕ)
      → p.key ≢ k
      → Found k ps o
      → Found k (p ∷ ps) (elim o [ none ↦ none | some j ↦ some (suc j) ])
  later-Found p ps k none ne h = (ne, h)
  later-Found p ps k (some j) ne h = (ne, h)

  -- The loop of `find` finds the first slot with the key, and none exactly when no slot has it.
  pub find_slot-Found : (arr : KeyArray T) (k : ℕ) → Found k arr (find_slot arr k)
  find_slot-Found [] k = rw (find_slot_nil T k) tt
  find_slot-Found (p ∷ ps) k = elim (Bool-cases (p.key == k)) [
    | inl same ↦ rw (find_slot_cons p ps k, same) ((==_iff p.key k).0 same)
    | inr other ↦
        rw (find_slot_cons p ps k, other)
          (later-Found p ps k (find_slot ps k) (ground arith) (find_slot-Found ps k))
  ]

  -- The two outcomes, for a split on the result.
  pub find_slot-cases :
      (arr : KeyArray T) (k : ℕ)
      → ((find_slot arr k ≡ none) × Absent k arr)
        ⊎ ((i : ℕ) × (find_slot arr k ≡ some i) × FirstAt k arr i)
  find_slot-cases arr k = split (find_slot arr k) refl
    where
      split :
          (o : Option ℕ)
          → find_slot arr k ≡ o
          → ((find_slot arr k ≡ none) × Absent k arr)
            ⊎ ((i : ℕ) × (find_slot arr k ≡ some i) × FirstAt k arr i)
      split none e = inl (e, subst (Found k arr) e (find_slot-Found arr k))
      split (some i) e = inr (i, e, subst (Found k arr) e (find_slot-Found arr k))

  -- The slot that is found lies in the array and has the key.
  pub FirstAt-key :
      (arr : KeyArray T) (k i : ℕ)
      → FirstAt k arr i
      → (p : KeyPair T) × (get_elem? arr i ≡ some p) × (p.key ≡ k)
  FirstAt-key [] k i h = absurd h
  FirstAt-key (p ∷ ps) k zero h = (p, refl, h)
  FirstAt-key (p ∷ ps) k (suc i) h = FirstAt-key ps k i h.1

  -- In an array that an `int` can index, the cast keeps the index.
  find_lem : (arr : KeyArray T) (k : ℕ) → length arr ≤ 2 ^ 31 → find arr k ≡ find_slot arr k
  unfolding find as_index
  find_lem arr k small = elim (find_slot-cases arr k) [
    | inl (e, a) ↦ ground (arith, e)
    | inr (i, e, f) ↦
        let (p, at, _) = FirstAt-key arr k i f in
        ground (arith, e, to_int_lem i (omega (arith, get_elem?-lt arr i at, small)))
  ]

  pub find-cases :
      (arr : KeyArray T) (k : ℕ)
      → length arr ≤ 2 ^ 31
      → ((find arr k ≡ none) × Absent k arr) ⊎ ((i : ℕ) × (find arr k ≡ some i) × FirstAt k arr i)
  find-cases arr k small = elim (find_slot-cases arr k) [
    | inl (e, a) ↦ inl (find_lem arr k small ∙ e, a)
    | inr (i, e, f) ↦ inr (i, find_lem arr k small ∙ e, f)
  ]
