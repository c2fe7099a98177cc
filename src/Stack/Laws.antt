-- ===== src/Stack/Laws.antt =====
-- CtrlrFx/Stack.h: the invariant, and the single-element operations as those of a list whose last
-- element is the top.
use ctrlr_fx.Prelude.{
  ℕ, ◌+◌, ◌-◌, ◌^◌, ◌≤◌, ◌<◌, ◌≡◌, refl, List, [], ◌∷◌, ◌++◌, some, true, false, ◌==◌,
  if◌then◌else◌, length, length-set, length-append, set, get_elem?, get_elem?-set_self,
  get_elem?-set_ne, get_elem?-append_one, Bool-cases, inl, inr, arith,
}
use ctrlr_fx.Memory.{store_lem}
use ctrlr_fx.Stack.{Stack, push, pop, pop_or_zero}

pub record IsValid {A : Type 0} (s : Stack A) : Type 0 where
  pub storage : length s.buf ≡ s.cap
  pub small : s.cap < 2 ^ 64
  pub in_use : s.sz ≤ s.cap

-- A valid stack holds `xs`, the bottom first.
pub record Holds {A : Type 0} (s : Stack A) (xs : List A) : Type 0 where
  pub valid : IsValid s
  pub counted : length xs ≡ s.sz
  pub cells : (i : ℕ) → i < length xs → get_elem? s.buf i ≡ get_elem? xs i

module _ {A : Type 0} where
  -- What a push of `x` leaves, where there is room.
  abbrev pub pushed : Stack A → A → Stack A
  pushed s x = record s { buf = set s.buf s.sz x; sz = s.sz + 1 }

  pub pushed-Holds :
      (s : Stack A) (xs : List A) (x : A)
      → Holds s xs
      → s.sz < s.cap
      → Holds (pushed s x) (xs ++ (x ∷ []))
  pushed-Holds s xs x h lt = record {
    valid = ground (arith, h.valid, length-set s.buf s.sz x);
    counted = ground (arith, h.counted, length-append xs (x ∷ []));
    cells = λ i k. ground (
      arith,
      h.valid,
      h.counted,
      h.cells i,
      length-append xs (x ∷ []),
      get_elem?-append_one xs x i,
      get_elem?-set_self s.buf s.sz x,
      get_elem?-set_ne s.buf s.sz i x,
    );
  }

  -- A full stack refuses the element and stays as it was; any other takes it on top.
  pub push_lem :
      (s : Stack A) (xs : List A) (x : A)
      → Holds s xs
      → (s' : Stack A) × (push s x ≡ some (if s.sz == s.cap then false else true, s'))
        × Holds s' (if s.sz == s.cap then xs else xs ++ (x ∷ []))
  unfolding push
  push_lem s xs x h = elim (Bool-cases (s.sz == s.cap)) [
    | inl is_full ↦ rw is_full (s, refl, h)
    | inr has_room ↦
        let lt : s.sz < s.cap = ground (arith, h.valid) in
        rw has_room
          (pushed s x, ground (arith, h.valid, store_lem s.buf s.sz x), pushed-Holds s xs x h lt)
  ]

  pub popped-Holds :
      (s : Stack A) (xs : List A) (x : A)
      → Holds s (xs ++ (x ∷ []))
      → Holds (record s { sz = s.sz - 1 }) xs
  popped-Holds s xs x h = record {
    valid = ground (arith, h.valid);
    counted = ground (arith, h.counted, length-append xs (x ∷ []));
    cells =
        λ i k. ground (arith, h.cells i, length-append xs (x ∷ []), get_elem?-append_one xs x i);
  }

  -- `pop(p)` yields the top; `pop()` yields the same.
  pub pop_lem :
      (s : Stack A) (xs : List A) (x zero_value : A)
      → Holds s (xs ++ (x ∷ []))
      → (s' : Stack A) × (pop s ≡ some (some x, s'))
        × (pop_or_zero zero_value s ≡ some (x, s'))
        × Holds s' xs
  unfolding pop pop_or_zero
  pop_lem s xs x zero_value h =
      let top : get_elem? s.buf (s.sz - 1) ≡ some x = ground (
        arith,
        h.counted,
        h.cells (s.sz - 1),
        length-append xs (x ∷ []),
        get_elem?-append_one xs x (s.sz - 1),
      ) in
      let pos : 0 < s.sz = omega (arith, h.counted, length-append xs (x ∷ [])) in
      (
        record s { sz = s.sz - 1 },
        ground (arith, h.valid, top),
        ground (arith, h.valid, top),
        popped-Holds s xs x h,
      )
