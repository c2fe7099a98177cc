-- ===== src/KeyArray/Laws.antt =====
-- CtrlrFx/KeyArray.h as a map from keys to values.
use ctrlr_fx.Prelude.{
  ℕ, zero, suc, ◌≡◌, ◌≢◌, refl, [], ◌∷◌, Option, none, some, true, false, ◌==◌, if◌then◌else◌,
  get_elem?, Bool-cases, ◌⊎◌, inl, inr, set, get_elem?-lt, arith, ◌≤◌, ◌^◌, length,
}
use ctrlr_fx.Memory.{store_lem}
use ctrlr_fx.KeyArray.{KeyPair, KeyArray, empty_slot, set_key, put, get, remove, clear}
use ctrlr_fx.KeyArray.Find.{Absent, FirstAt, find-cases, FirstAt-key}

-- At most one slot has a given key other than `EMPTY_SLOT`.
abbrev pub Distinct : {T : Type 0} → KeyArray T → Type 0
Distinct [] = Unit
Distinct (p ∷ ps) = (p.key ≢ empty_slot → Absent p.key ps) × Distinct ps

-- What the array holds under a key: the value of the first slot that has it. Nothing is held under
-- `EMPTY_SLOT`.
first_value : {T : Type 0} → KeyArray T → ℕ → Option T
first_value [] k = none
first_value (p ∷ ps) k = if p.key == k then some p.val else first_value ps k

pub value_of : {T : Type 0} → KeyArray T → ℕ → Option T
value_of arr k = if k == empty_slot then none else first_value arr k

module _ {T : Type 0} where
  Absent-set :
      (arr : KeyArray T) (k i : ℕ) (q : KeyPair T)
      → q.key ≢ k
      → Absent k arr
      → Absent k (set arr i q)
  Absent-set [] k i q ne h = h
  Absent-set (p ∷ ps) k zero q ne h = (ne, h.1)
  Absent-set (p ∷ ps) k (suc i) q ne h = (h.0, Absent-set ps k i q ne h.1)

  -- Freeing a slot keeps the keys distinct.
  Distinct-free :
      (arr : KeyArray T) (i : ℕ) (q : KeyPair T)
      → q.key ≡ empty_slot
      → Distinct arr
      → Distinct (set arr i q)
  Distinct-free [] i q e d = d
  Distinct-free (p ∷ ps) zero q e d = ((λ ne. absurd (ne e)), d.1)
  Distinct-free (p ∷ ps) (suc i) q e d = (
    (λ ne. Absent-set ps p.key i q (λ s. ne (ground arith)) (d.0 ne)),
    Distinct-free ps i q e d.1,
  )

  -- Taking a slot for a key that no slot has keeps them distinct.
  Distinct-take :
      (arr : KeyArray T) (i : ℕ) (q : KeyPair T)
      → Absent q.key arr
      → Distinct arr
      → Distinct (set arr i q)
  Distinct-take [] i q a d = d
  Distinct-take (p ∷ ps) zero q a d = ((λ ne. a.1), d.1)
  Distinct-take (p ∷ ps) (suc i) q a d = (
    (λ ne. Absent-set ps p.key i q (λ s. a.0 (ground arith)) (d.0 ne)),
    Distinct-take ps i q a.1 d.1,
  )

  first_value-Absent : (arr : KeyArray T) (k : ℕ) → Absent k arr → first_value arr k ≡ none
  unfolding first_value
  first_value-Absent [] k h = refl
  first_value-Absent (p ∷ ps) k h = ground (arith, first_value-Absent ps k h.1)

  first_value-take :
      (arr : KeyArray T) (i k j : ℕ) (v : T)
      → FirstAt empty_slot arr i
      → Absent k arr
      → j ≢ empty_slot
      → first_value (set arr i (record { key = k; val = v })) j
        ≡ (if k == j then some v else first_value arr j)
  unfolding first_value
  first_value-take [] i k j v f a nj = absurd f
  first_value-take (p ∷ ps) zero k j v f a nj = ground (arith, first_value-Absent ps k a.1)
  first_value-take (p ∷ ps) (suc i) k j v f a nj =
      ground (arith, first_value-take ps i k j v f.1 a.1 nj)

  first_value-free :
      (arr : KeyArray T) (i k j : ℕ) (q : KeyPair T)
      → Distinct arr
      → FirstAt k arr i
      → q.key ≡ empty_slot
      → k ≢ empty_slot
      → j ≢ empty_slot
      → first_value (set arr i q) j ≡ (if k == j then none else first_value arr j)
  unfolding first_value
  first_value-free [] i k j q d f e nk nj = absurd f
  first_value-free (p ∷ ps) zero k j q d f e nk nj =
      ground (arith, first_value-Absent ps p.key (d.0 (λ z. nk (ground arith))))
  first_value-free (p ∷ ps) (suc i) k j q d f e nk nj =
      ground (arith, first_value-free ps i k j q d.1 f.1 e nk nj)

  -- What freeing the first slot with the key `k` leaves.
  abbrev pub Freed : ℕ → KeyArray T → KeyArray T → Type 0
  Freed k arr arr' =
      Distinct arr' × ((j : ℕ) → value_of arr' j ≡ (if k == j then none else value_of arr j))

  value_of-Absent : (arr : KeyArray T) (k : ℕ) → Absent k arr → value_of arr k ≡ none
  unfolding value_of
  value_of-Absent arr k h = ground (arith, first_value-Absent arr k h)

  free-Freed :
      (arr : KeyArray T) (i k : ℕ) (p : KeyPair T)
      → Distinct arr
      → FirstAt k arr i
      → k ≢ empty_slot
      → Freed k arr (set arr i (set_key p empty_slot))
  unfolding value_of
  free-Freed arr i k p d f nk = (
    Distinct-free arr i (set_key p empty_slot) refl d,
    λ j. elim (Bool-cases (j == empty_slot)) [
      | inl z ↦ ground arith
      | inr nz ↦
          ground
            (arith, first_value-free arr i k j (set_key p empty_slot) d f refl nk (ground arith))
    ],
  )

  keep-Freed : (arr : KeyArray T) (k : ℕ) → Distinct arr → Absent k arr → Freed k arr arr
  keep-Freed arr k d a = (d, λ j. ground (arith, value_of-Absent arr k a))

  first_value-FirstAt :
      (arr : KeyArray T) (k i : ℕ) (p : KeyPair T)
      → FirstAt k arr i
      → get_elem? arr i ≡ some p
      → first_value arr k ≡ some p.val
  unfolding first_value
  first_value-FirstAt [] k i p f e = absurd f
  first_value-FirstAt (q ∷ qs) k zero p f e = ground arith
  first_value-FirstAt (q ∷ qs) k (suc i) p f e = ground (arith, first_value-FirstAt qs k i p f.1 e)

  value_of-FirstAt :
      (arr : KeyArray T) (k i : ℕ) (p : KeyPair T)
      → k ≢ empty_slot
      → FirstAt k arr i
      → get_elem? arr i ≡ some p
      → value_of arr k ≡ some p.val
  unfolding value_of
  value_of-FirstAt arr k i p nk f e = ground (arith, first_value-FirstAt arr k i p f e)

  -- In an array of at most 2 ^ 31 slots with distinct keys, get of a key other than EMPTY_SLOT
  -- ends without a fault, hands over the value under the key, or nothing, and removes it; every
  -- other key keeps its value.
  pub get_key_lem :
      (arr : KeyArray T) (k : ℕ)
      → length arr ≤ 2 ^ 31
      → Distinct arr
      → k ≢ empty_slot
      → (arr' : KeyArray T) × (get arr k ≡ some (value_of arr k, arr')) × Freed k arr arr'
  unfolding get
  get_key_lem arr k small d nk = elim (find-cases arr k small) [
    | inl (e, a) ↦ (arr, ground (arith, e, value_of-Absent arr k a), keep-Freed arr k d a)
    | inr (i, e, f) ↦
        let (p, ep, _) = FirstAt-key arr k i f in
        (
          set arr i (set_key p empty_slot),
          ground (
            arith,
            e,
            ep,
            store_lem arr i (set_key p empty_slot) (get_elem?-lt arr i ep),
            value_of-FirstAt arr k i p nk f ep,
          ),
          free-Freed arr i k p d f nk,
        )
  ]

  -- `remove` leaves the array that `get` leaves, and returns whether there was such a key.
  pub remove-eq-get :
      (arr : KeyArray T) (k : ℕ)
      → length arr ≤ 2 ^ 31
      → k ≢ empty_slot
      → (arr' : KeyArray T) × (remove arr k
          ≡ (elim (value_of arr k) [ none ↦ false | some v ↦ true ], arr'))
        × (get arr k ≡ some (value_of arr k, arr'))
  unfolding remove get
  remove-eq-get arr k small nk = elim (find-cases arr k small) [
    | inl (e, a) ↦ (
      arr,
      ground (arith, e, value_of-Absent arr k a),
      ground (arith, e, value_of-Absent arr k a),
    )
    | inr (i, e, f) ↦
        let (p, ep, _) = FirstAt-key arr k i f in
        let v = value_of-FirstAt arr k i p nk f ep in
        (
          set arr i (set_key p empty_slot),
          ground (arith, e, ep, v),
          ground (arith, e, ep, store_lem arr i (set_key p empty_slot) (get_elem?-lt arr i ep), v),
        )
  ]

  -- With distinct keys, put of a key other than EMPTY_SLOT that is not there changes nothing and
  -- fails exactly when no slot is free; otherwise it uses the first free slot, and only the value
  -- under the key changes.
  pub put_key_lem :
      (arr : KeyArray T) (k : ℕ) (v : T)
      → length arr ≤ 2 ^ 31
      → Distinct arr
      → k ≢ empty_slot
      → Absent k arr
      → (Absent empty_slot arr × (put arr k v ≡ (none, arr)))
        ⊎ ((i : ℕ) × (arr' : KeyArray T) × FirstAt empty_slot arr i
            × (put arr k v ≡ (some i, arr'))
            × Distinct arr'
            × ((j : ℕ) → value_of arr' j ≡ (if k == j then some v else value_of arr j)))
  unfolding put value_of
  put_key_lem arr k v small d nk a = elim (find-cases arr empty_slot small) [
    | inl (e, full) ↦ inl (full, ground (arith, e))
    | inr (i, e, f) ↦ inr (
      i,
      set arr i (record { key = k; val = v }),
      f,
      ground (arith, e),
      Distinct-take arr i (record { key = k; val = v }) a d,
      λ j. elim (Bool-cases (j == empty_slot)) [
        | inl z ↦ ground arith
        | inr nz ↦ ground (arith, first_value-take arr i k j v f a (ground arith))
      ],
    )
  ]

  -- After `clear`, and so after a constructor, every slot is free and the keys are distinct.
  pub clear_lem :
      (arr : KeyArray T) → Distinct (clear arr) × ((k : ℕ) → k ≢ empty_slot → Absent k (clear arr))
  unfolding clear
  clear_lem [] = (tt, λ k nk. tt)
  clear_lem (p ∷ ps) =
      let (d, a) = clear_lem ps in
      (((λ ne. absurd (ne refl)), d), λ k nk. ((λ e. nk (ground arith)), a k nk))
