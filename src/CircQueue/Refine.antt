-- ===== src/CircQueue/Refine.antt =====
-- CtrlrFx/CircQueue.h refines the first-in first-out queue of CircQueue/Fifo.
use ctrlr_fx.Prelude.{
  ℕ, suc, ◌+◌, ◌-◌, ◌≤◌, ◌<◌, ◌≡◌, ◌≢◌, refl, ◌∙◌, List, [], ◌∷◌, ◌++◌, none, some, true, ltb,
  if◌then◌else◌, length, length-set, length-append, set, get_elem?, get_elem?-set_self,
  get_elem?-set_ne, get_elem?-append_one, get_elem?-drop, length-drop, drop, min, ℕ-cases, inl, inr,
  arith,
}
use ctrlr_fx.Memory.Copy.{Copied, copy_elem-Copied}
use ctrlr_fx.CircQueue.{get_n, CircQueue, next, put, get}
use ctrlr_fx.CircQueue.Inv.{IsValid, count, put_lem, get_lem, empty_lem, size_lem}

-- Where the element at distance `i` from the oldest one lies.
abbrev pub index : {A : Type 0} → CircQueue A → ℕ → ℕ
index q i = if ltb (q.get_ + i) q.cap then q.get_ + i else q.get_ + i - q.cap

-- A valid queue holds `xs`, oldest first.
pub record Holds {A : Type 0} (q : CircQueue A) (xs : List A) : Type 0 where
  pub valid : IsValid q
  pub counted : length xs ≡ count q
  pub cells : (i : ℕ) → i < length xs → get_elem? q.buf (index q i) ≡ get_elem? xs i

module _ {A : Type 0} (q : CircQueue A) where
  pub put-Holds :
      (xs : List A) (x : A)
      → Holds q xs
      → length xs ≢ q.cap - 1
      → (q' : CircQueue A) × (put q x ≡ some (true, q'))
        × (q'.cap ≡ q.cap)
        × Holds q' (xs ++ (x ∷ []))
  put-Holds xs x h ne = (
    record q { buf = set q.buf q.put_ x; put_ = next q q.put_ },
    ground (arith, put_lem q h.valid x, h.counted),
    refl,
    record {
      valid = ground (arith, h.valid, length-set q.buf q.put_ x);
      counted = ground (arith, h.valid, h.counted, length-append xs (x ∷ []));
      cells = λ i lt. ground (
        arith,
        h.valid,
        h.counted,
        h.cells i,
        length-append xs (x ∷ []),
        get_elem?-append_one xs x i,
        get_elem?-set_self q.buf q.put_ x,
        get_elem?-set_ne q.buf q.put_ (index q i) x,
      );
    },
  )

  pub get-Holds :
      (x : A) (xs : List A)
      → Holds q (x ∷ xs)
      → (q' : CircQueue A) × (get q ≡ some (some x, q')) × (q'.cap ≡ q.cap) × Holds q' xs
  get-Holds x xs h = (
    record q { get_ = next q q.get_ },
    ground (arith, get_lem q h.valid x, h.counted, h.cells 0),
    refl,
    record {
      valid = ground (arith, h.valid);
      counted = ground (arith, h.valid, h.counted);
      cells = λ i lt. ground (arith, h.valid, h.counted, h.cells (suc i));
    },
  )

  pub get-none : Holds q [] → get q ≡ some (none, q)
  unfolding get
  get-none h = ground (arith, h.valid, h.counted, empty_lem q h.valid)

  -- The part of the block get that follows the test for an empty queue, up to the end of the
  -- array (`m` fits there) and past it.
  get_n_linear :
      (xs out : List A) (n m : ℕ)
      → Holds q xs
      → m ≡ min n (length xs)
      → m ≤ length out
      → 0 < length xs
      → m < q.cap - q.get_
      → (out' : List A) × (get_n q out n ≡ some (m, out', record q { get_ = q.get_ + m }))
        × Copied out 0 xs 0 m out'
        × Holds (record q { get_ = q.get_ + m }) (drop m xs)
  unfolding get_n
  get_n_linear xs out n m h em fits some_in less =
      let (out', run, c) =
        copy_elem-Copied out 0 q.buf q.get_ m (omega arith) (ground (arith, h.valid)) in
      (
        out',
        ground (arith, h.valid, h.counted, size_lem q h.valid, empty_lem q h.valid, run),
        record {
          size = c.size;
          cells = λ j. ground (arith, h.valid, h.counted, c.cells j, h.cells j);
        },
        record {
          valid = ground (arith, h.valid);
          counted = ground (arith, h.valid, h.counted, length-drop m xs);
          cells = λ i lt.
              ground (
                arith,
                h.valid,
                h.counted,
                length-drop m xs,
                get_elem?-drop m xs i,
                h.cells (m + i),
              );
        },
      )

  get_n_wrap :
      (xs out : List A) (n m : ℕ)
      → Holds q xs
      → m ≡ min n (length xs)
      → m ≤ length out
      → 0 < length xs
      → q.cap - q.get_ ≤ m
      → (out' : List A) × (get_n q out n ≡ some (m, out', record q { get_ = m - (q.cap - q.get_) }))
        × Copied out 0 xs 0 m out'
        × Holds (record q { get_ = m - (q.cap - q.get_) }) (drop m xs)
  unfolding get_n
  get_n_wrap xs out n m h em fits some_in more =
      let k = q.cap - q.get_ in
      let (out1, run1, c1) =
        copy_elem-Copied out 0 q.buf q.get_ k (omega arith) (ground (arith, h.valid)) in
      let (out2, run2, c2) =
        copy_elem-Copied out1 k q.buf 0 (m - k) (omega (arith, c1.size))
          (ground (arith, h.valid, h.counted)) in
      (
        out2,
        ground (arith, h.valid, h.counted, size_lem q h.valid, empty_lem q h.valid, run1, run2),
        record {
          size = c2.size ∙ c1.size;
          cells = λ j. ground (arith, h.valid, h.counted, c1.cells j, c2.cells j, h.cells j);
        },
        record {
          valid = ground (arith, h.valid, h.counted);
          counted = ground (arith, h.valid, h.counted, length-drop m xs);
          cells = λ i lt.
              ground (
                arith,
                h.valid,
                h.counted,
                length-drop m xs,
                get_elem?-drop m xs i,
                h.cells (m + i),
              );
        },
      )

  -- The block get of n elements from a valid circular queue, into an array of at least n cells,
  -- ends without a fault, stores as many as there are, oldest first, at the start of the array,
  -- leaves the rest of it, and the queue holds what remains.
  pub get_n-Holds :
      (xs out : List A) (n : ℕ)
      → Holds q xs
      → n ≤ length out
      → (out' : List A) × (q' : CircQueue A) × (get_n q out n ≡ some (min n (length xs), out', q'))
        × Copied out 0 xs 0 (min n (length xs)) out'
        × Holds q' (drop (min n (length xs)) xs)
  unfolding get_n
  get_n-Holds xs out n h fits = elim (ℕ-cases 0 (length xs)) [
    | inl some_in ↦ elim (ℕ-cases (min n (length xs)) (q.cap - q.get_)) [
      | inl less ↦
          let (out', e, c, r) =
            get_n_linear xs out n (min n (length xs)) h refl (omega arith) some_in less in
          (out', record q { get_ = q.get_ + min n (length xs) }, e, c, r)
      | inr more ↦
          let (out', e, c, r) =
            get_n_wrap xs out n (min n (length xs)) h refl (omega arith) some_in more in
          (out', record q { get_ = min n (length xs) - (q.cap - q.get_) }, e, c, r)
    ]
    | inr none_in ↦
        let (out', run, c) = copy_elem-Copied out 0 xs 0 0 (omega arith) (omega arith) in
        let z : min n (length xs) ≡ 0 = omega arith in
        rw z (
          out,
          q,
          ground (arith, h.valid, h.counted, empty_lem q h.valid),
          record { size = refl; cells = λ j. ground arith },
          h,
        )
  ]
