-- ===== src/Buffer/Transfer.antt =====
-- CtrlrFx/Buffer.h: block transfers, alone and in sequences of calls.
use ctrlr_fx.Prelude.{
  ℕ, zero, suc, ◌+◌, ◌-◌, ◌≤◌, ◌<◌, ◌≡◌, refl, ◌∙◌, List, [], ◌∷◌, none, some, ◌>>=◌, true, false,
  ltb, leb, ◌==◌, ◌⊎◌, ◌&&◌, if◌then◌else◌, length, get_elem?, get_elem?-some, get_elem?-none,
  list_ext, Bool-cases, ℕ-cases, inl, inr, set, length-set, get_elem?-set_self, get_elem?-set_ne,
  arith,
}
use ctrlr_fx.Memory.{copy_elem, store_lem}
use ctrlr_fx.Memory.Copy.{Copied, copy_elem-Copied}
use ctrlr_fx.Buffer.{
  Buffer, put_n, get_n, get_next, flip, clear, clear_to, rewind, mark, reset, compact, compact_loop,
  available,
}
use ctrlr_fx.Buffer.Inv.{
  IsValid, Call, puts_n, gets_n, fills, gets, flips, clears, rewinds, marks, resets, clears_to,
  call, calls, fill_lem,
}

module _ {A : Type 0} where
  pub put_n_fits :
      (b : Buffer A) (arr : List A) (n : ℕ)
      → b.pos + n ≤ b.lim
      → put_n b arr n ≡ (
          copy_elem b.buf b.pos arr 0 n >>= λ buf.
          some (n, record b { buf = buf; pos = b.pos + n }))
  unfolding put_n
  put_n_fits b arr n h = ground arith

  pub get_n_fits :
      (b : Buffer A) (arr : List A) (n : ℕ)
      → b.pos + n ≤ b.lim
      → get_n b arr n
        ≡ (copy_elem arr 0 b.buf b.pos n >>= λ arr'. some (n, arr', record b { pos = b.pos + n }))
  unfolding get_n
  get_n_fits b arr n h = ground arith

  -- On a valid buffer, with a source of at least n elements, a block put of n that fits below the
  -- limit is stored at the position, which moves behind it; one that does not fit is refused whole
  -- and nothing changes.
  pub put_n_lem :
      (b : Buffer A) (arr : List A) (n : ℕ)
      → IsValid b
      → n ≤ length arr
      → ((available b < n) × (put_n b arr n ≡ some (0, b)))
        ⊎ ((n ≤ available b)
            × (buf' : List A) × (put_n b arr n ≡ some (n, record b { buf = buf'; pos = b.pos + n }))
            × Copied b.buf b.pos arr 0 n buf')
  unfolding put_n
  put_n_lem b arr n w h = elim (ℕ-cases b.lim (b.pos + n)) [
    | inl over ↦ inl (omega (arith, w), ground arith)
    | inr fits ↦
        let (buf', run, c) =
          copy_elem-Copied b.buf b.pos arr 0 n (omega (arith, w)) (omega arith) in
        inr (omega arith, buf', ground (arith, run), c)
  ]

  pub get_n_lem :
      (b : Buffer A) (arr : List A) (n : ℕ)
      → IsValid b
      → n ≤ length arr
      → ((available b < n) × (get_n b arr n ≡ some (0, arr, b)))
        ⊎ ((n ≤ available b)
            × (arr' : List A) × (get_n b arr n ≡ some (n, arr', record b { pos = b.pos + n }))
            × Copied arr 0 b.buf b.pos n arr')
  unfolding get_n
  get_n_lem b arr n w h = elim (ℕ-cases b.lim (b.pos + n)) [
    | inl over ↦ inl (omega (arith, w), ground arith)
    | inr fits ↦
        let (arr', run, c) =
          copy_elem-Copied arr 0 b.buf b.pos n (omega arith) (omega (arith, w)) in
        inr (omega arith, arr', ground (arith, run), c)
  ]

  -- What is written as a block into a cleared valid buffer, and fits its memory, is after flip
  -- exactly what a block get of the same length reads, and then nothing is left.
  pub get_n-flip-put_n :
      (b : Buffer A) (src out : List A)
      → IsValid b
      → length src ≤ b.end_
      → length out ≡ length src
      → (b1 : Buffer A) × (b2 : Buffer A) × (put_n (clear b) src (length src)
          ≡ some (length src, b1))
        × (get_n (flip b1) out (length src) ≡ some (length src, src, b2))
        × (available b2 ≡ 0)
  get_n-flip-put_n b src out w fits same =
      let n = length src in
      let (buf', run, c) = copy_elem-Copied b.buf 0 src 0 n (omega (arith, w)) (omega arith) in
      let (out', run', c') =
        copy_elem-Copied out 0 buf' 0 n (omega arith) (omega (arith, w, c.size)) in
      let whole : out' ≡ src = list_ext out' src λ j.
        ground (arith, same, c'.cells j, c.cells j, get_elem?-none src j, get_elem?-none out j) in
      (
        record (clear b) { buf = buf'; pos = n },
        record (clear b) { buf = buf'; pos = n; lim = n },
        ground (arith, put_n_fits (clear b) src n (omega arith), run),
        ground (
          arith,
          get_n_fits (flip (record (clear b) { buf = buf'; pos = n })) out n (omega arith),
          run',
          whole,
        ),
        omega arith,
      )

  next_none : (b : Buffer A) → (b.pos == b.lim) ≡ true → get_next b ≡ some (none, b)
  unfolding get_next
  next_none b h = rw h

  next_some :
      (b : Buffer A) {v : A}
      → (b.pos == b.lim) ≡ false
      → get_elem? b.buf b.pos ≡ some v
      → get_next b ≡ some (some v, record b { pos = b.pos + 1 })
  unfolding get_next
  next_some b h e = rw (h, e)

  -- Every call of `Call` ends without a fault and keeps the buffer valid.
  pub call-IsValid :
      (b : Buffer A) (c : Call A) → IsValid b → (b' : Buffer A) × (call b c ≡ some b') × IsValid b'
  unfolding call
  call-IsValid b (puts_n arr) w = elim (put_n_lem b arr (length arr) w (omega arith)) [
    | inl (lt, e) ↦ (b, ground (arith, e), w)
    | inr (le, buf', e, c) ↦ (
      record b { buf = buf'; pos = b.pos + length arr },
      ground (arith, e),
      omega (arith, w, c.size),
    )
  ]
  call-IsValid b (gets_n arr) w = elim (get_n_lem b arr (length arr) w (omega arith)) [
    | inl (lt, e) ↦ (b, ground (arith, e), w)
    | inr (le, arr', e, c) ↦
        (record b { pos = b.pos + length arr }, ground (arith, e), omega (arith, w))
  ]
  call-IsValid b (fills v) w =
      let (buf', e, l, _) = fill_lem b v w in
      (record b { buf = buf'; pos = b.lim }, e, omega (arith, w, l))
  call-IsValid b gets w = elim (Bool-cases (b.pos == b.lim)) [
    | inl at_end ↦ (b, ground (arith, next_none b at_end), w)
    | inr more ↦
        let (v, e) = get_elem?-some b.buf b.pos (ground (arith, w)) in
        (record b { pos = b.pos + 1 }, ground (arith, next_some b more e), ground (arith, w))
  ]
  call-IsValid b flips w = (flip b, refl, omega (arith, w))
  call-IsValid b clears w = (clear b, refl, omega (arith, w))
  call-IsValid b rewinds w = (rewind b, refl, omega (arith, w))
  call-IsValid b marks w = (mark b, refl, omega (arith, w))
  call-IsValid b resets w = (reset b, refl, omega (arith, w))
  call-IsValid b (clears_to n) w = (clear_to b n, refl, ground (arith, w))

  -- Every sequence of the calls of a buffer that test the limit ends without a fault on a valid
  -- buffer and keeps it valid.
  pub calls-IsValid :
      (cs : List (Call A)) (b : Buffer A)
      → IsValid b
      → (b' : Buffer A) × (calls b cs ≡ some b') × IsValid b'
  unfolding calls
  calls-IsValid [] b w = (b, refl, w)
  calls-IsValid (c ∷ cs) b w =
      let (b1, e1, w1) = call-IsValid b c w in
      let (b2, e2, w2) = calls-IsValid cs b1 w1 in (b2, rw e1 e2, w2)

  -- The loop of `compact`: each cell below the count gets what lies `pos` further on.
  compact_loop_lem :
      (n : ℕ) (mem : List A) (pos i : ℕ)
      → pos + i + n ≤ length mem
      → (out : List A) × (compact_loop mem pos i n ≡ some out)
        × (length out ≡ length mem)
        × ((j : ℕ)
            → get_elem? out j
              ≡ (if leb i j && ltb j (i + n) then get_elem? mem (pos + j) else get_elem? mem j))
  unfolding compact_loop
  compact_loop_lem zero mem pos i h = (mem, refl, refl, λ j. ground arith)
  compact_loop_lem (suc n) mem pos i h =
      let (v, e) = get_elem?-some mem (pos + i) (omega arith) in
      let (out, run, l, c) =
        compact_loop_lem n (set mem i v) pos (i + 1) (omega (arith, length-set mem i v)) in
      (
        out,
        ground (arith, e, store_lem mem i v, run),
        l ∙ length-set mem i v,
        λ j. ground (
          arith,
          e,
          c j,
          get_elem?-set_self mem i v,
          get_elem?-set_ne mem i j v,
          get_elem?-set_ne mem i (pos + j) v,
        ),
      )

  -- compact of a valid buffer moves what is between position and limit to the start, sets the
  -- position to 0 and the limit behind it, and leaves the mark.
  pub compact_lem :
      (b : Buffer A)
      → IsValid b
      → (buf' : List A) × (compact b ≡ some (record b { buf = buf'; pos = 0; lim = b.lim - b.pos }))
        × (length buf' ≡ length b.buf)
        × ((j : ℕ)
            → get_elem? buf' j
              ≡ (if ltb j (b.lim - b.pos) then get_elem? b.buf (b.pos + j) else get_elem? b.buf j))
  unfolding compact
  compact_lem b w =
      let (out, run, l, c) = compact_loop_lem (b.lim - b.pos) b.buf b.pos 0 (omega (arith, w)) in
      let same : available b ≡ b.lim - b.pos = omega (arith, w) in
      (out, rw same (rw run), l, λ j. ground (arith, c j))

  -- The mark is not moved with the data: after `compact`, a `reset` to a mark beyond the new limit
  -- leaves the position beyond the limit, and the buffer is not valid any more.
  pub reset-compact-not-IsValid :
      (b b' : Buffer A)
      → IsValid b
      → b.lim < b.pos + b.mark_
      → compact b ≡ some b'
      → ¬ IsValid (reset b')
  reset-compact-not-IsValid b b' w h e v =
      let (buf', e', _, _) = compact_lem b w in ground (arith, e, e', v.within)
