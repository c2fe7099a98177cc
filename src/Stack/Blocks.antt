-- ===== src/Stack/Blocks.antt =====
-- CtrlrFx/Stack.h: the block operations `push(buf, n)` and `pop(buf, n)`.
use native.Mathlib.Numerals.{add-one}
use ctrlr_fx.Prelude.{
  ℕ, zero, suc, ◌+◌, ◌-◌, ◌≤◌, ◌≡◌, refl, subst, ◌∙◌, min, List, [], ◌∷◌, ◌++◌, append-nil,
  append_assoc, some, if◌then◌else◌, length, length-set, length-append, set, take, drop,
  drop-get_elem?, get_elem?, get_elem?-some, get_elem?-take, length-take, get_elem?-set_self,
  get_elem?-set_ne, ap, take_all, list_ext, get_elem?-append_right, get_elem?-none, take-append,
  ltb, arith,
}
use ctrlr_fx.Memory.{store_lem}
use ctrlr_fx.Memory.Copy.{Copied}
use ctrlr_fx.Stack.{Stack, push_loop, push_n, pop_loop, pop_n, remaining}
use ctrlr_fx.Stack.Laws.{IsValid, Holds, pushed, pushed-Holds}

module _ {A : Type 0} where
  append-take_one :
      (xs src : List A) (i n : ℕ) {v : A}
      → get_elem? src i ≡ some v
      → (xs ++ (v ∷ [])) ++ take n (drop (i + 1) src) ≡ xs ++ take (suc n) (drop i src)
  append-take_one xs src i n {v} e = rw (drop-get_elem? src i e, add-one, append_assoc)

  push_loop-Holds :
      (n : ℕ) (s : Stack A) (xs src : List A) (i : ℕ)
      → Holds s xs
      → s.sz + n ≤ s.cap
      → i + n ≤ length src
      → (s' : Stack A) × (push_loop s src i n ≡ some s')
        × (s'.cap ≡ s.cap)
        × Holds s' (xs ++ take n (drop i src))
  unfolding push_loop
  push_loop-Holds zero s xs src i h hc hs = (s, refl, refl, rw append-nil h)
  push_loop-Holds (suc n) s xs src i h hc hs =
      let (v, ev) = get_elem?-some src i (omega arith) in
      let (s', e, c, h') =
        push_loop-Holds n (pushed s v) (xs ++ (v ∷ [])) src (i + 1)
          (pushed-Holds s xs v h (omega arith)) (omega arith) (omega arith) in
      (
        s',
        ground (arith, ev, h.valid, store_lem s.buf s.sz v, e),
        c,
        subst (Holds s') (append-take_one xs src i n ev) h',
      )

  -- The block push of n elements on a valid stack, from a source of at least n, ends without a
  -- fault, takes as many as fit, returns their number, and leaves the last one taken on top.
  pub push_n-Holds :
      (s : Stack A) (xs src : List A) (n : ℕ)
      → Holds s xs
      → n ≤ length src
      → (s' : Stack A) × (push_n s src n ≡ some (min n (s.cap - length xs), s'))
        × (s'.cap ≡ s.cap)
        × Holds s' (xs ++ take (min n (s.cap - length xs)) src)
  unfolding push_n
  push_n-Holds s xs src n h hn =
      let free : min n (remaining s) ≡ min n (s.cap - length xs) =
        omega (arith, h.valid, h.counted) in
      let (s', e, c, h') =
        push_loop-Holds (min n (s.cap - length xs)) s xs src 0 h (omega (arith, h.valid, h.counted))
          (omega arith) in
      (s', ground (arith, free, e), c, h')

  -- The loop writes the `n` topmost cells, in their order, to the cells of `out` up to `d`.
  pop_loop_lem :
      (n : ℕ) (s : Stack A) (out : List A) (d : ℕ)
      → IsValid s
      → n ≤ s.sz
      → n ≤ length out
      → d ≡ n - 1
      → (out' : List A) × (pop_loop s out d n ≡ some (out', record s { sz = s.sz - n }))
        × (length out' ≡ length out)
        × ((j : ℕ)
            → get_elem? out' j
              ≡ (if ltb j n then get_elem? s.buf (s.sz - n + j) else get_elem? out j))
  unfolding pop_loop
  pop_loop_lem zero s out d v hs ho hd = (out, ground arith, refl, λ j. ground arith)
  pop_loop_lem (suc n) s out d v hs ho hd =
      let (x, ex) = get_elem?-some s.buf (s.sz - 1) (omega (arith, v)) in
      let (out', e, l, c) =
        pop_loop_lem n (record s { sz = s.sz - 1 }) (set out d x) (d - 1) (omega (arith, v))
          (omega arith) (omega (arith, length-set out d x)) (omega arith) in
      (
        out',
        ground (arith, v, ex, store_lem out d x, e),
        l ∙ length-set out d x,
        λ j. ground (arith, ex, c j, get_elem?-set_self out d x, get_elem?-set_ne out d j x),
      )

  -- The block pop of n elements from a valid stack, into an array of at least n cells, ends
  -- without a fault, takes as many as there are, returns their number, stores the topmost ones in
  -- stack order at the start of the array, and leaves the rest of it.
  pub pop_n-Holds :
      (s : Stack A) (xs out : List A) (n : ℕ)
      → Holds s xs
      → n ≤ length out
      → (out' : List A) × (s' : Stack A) × (pop_n s out n ≡ some (min n (length xs), out', s'))
        × Copied out 0 xs (length xs - min n (length xs)) (min n (length xs)) out'
        × Holds s' (take (length xs - min n (length xs)) xs)
  unfolding pop_n
  pop_n-Holds s xs out n h hn =
      let m = min n (length xs) in
      let (out', e, l, c) =
        pop_loop_lem m s out (m - 1) h.valid (omega (arith, h.counted)) (omega arith) refl in
      (
        out',
        record s { sz = s.sz - m },
        ground (arith, h.counted, e),
        record { size = l; cells = λ j. ground (arith, h.counted, c j, h.cells (s.sz - m + j)) },
        record {
          valid = omega (arith, h.valid);
          counted = omega (arith, h.counted, length-take (length xs - m) xs);
          cells = λ i k. ground (
            arith,
            h.cells i,
            length-take (length xs - m) xs,
            get_elem?-take (length xs - m) xs i,
          );
        },
      )

  -- An array that fits into a valid stack, pushed whole and popped again into an array of the same
  -- length, comes back in the same order, and the stack holds what it held.
  pub pop_n-push_n :
      (s : Stack A) (xs src out : List A)
      → Holds s xs
      → length src ≤ s.cap - length xs
      → length out ≡ length src
      → (s1 : Stack A) × (s2 : Stack A) × (push_n s src (length src) ≡ some (length src, s1))
        × (pop_n s1 out (length src) ≡ some (length src, src, s2))
        × Holds s2 xs
  pop_n-push_n s xs src out h room same =
      let n = length src in
      let (s1, e1, _, h1) = push_n-Holds s xs src n h (omega arith) in
      let all : min n (s.cap - length xs) ≡ n = omega arith in
      let held : Holds s1 (xs ++ src) =
        subst (λ t. Holds s1 (xs ++ t)) (ap (λ k. take k src) all ∙ take_all n src (omega arith))
          h1 in
      let (out', s2, e2, c, h2) = pop_n-Holds s1 (xs ++ src) out n held (omega arith) in
      let m : min n (length (xs ++ src)) ≡ n = omega (arith, length-append xs src) in
      let back : length (xs ++ src) - min n (length (xs ++ src)) ≡ length xs =
        omega (arith, length-append xs src) in
      let whole : out' ≡ src = list_ext out' src λ j. ground (
        arith,
        m,
        back,
        same,
        c.cells j,
        get_elem?-append_right xs src j,
        get_elem?-none src j,
        get_elem?-none out j,
      ) in
      (
        s1,
        s2,
        ground (arith, all, e1),
        ground (arith, m, whole, e2),
        subst (Holds s2) (ap (λ k. take k (xs ++ src)) back ∙ take-append xs src) h2,
      )
