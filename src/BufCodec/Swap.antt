-- ===== src/BufCodec/Swap.antt =====
-- CtrlrFx/BufCodec.h and src/data/BufCodec.cpp: `put_swap2/4/8` and `get_swap2/4/8`.
use mathlib.Core.List.{reverse, reverse-reverse}
use ctrlr_fx.Prelude.{
  ℕ, zero, suc, ◌+◌, ◌-◌, ◌^◌, ◌≤◌, ◌<◌, ◌≡◌, refl, sym, ◌∙◌, ap, List, [], ◌∷◌, none, some, Bool,
  not, ltb, ◌==◌, ◌⊎◌, if◌then◌else◌, length, length-set, set, get_elem?, get_elem?-some,
  get_elem?-none, get_elem?-set_self, get_elem?-set_ne, list_ext, ℕ-cases, inl, inr, arith,
}
use ctrlr_fx.Memory.{store_lem}
use ctrlr_fx.Buffer
use ctrlr_fx.Buffer.{Buffer}
use ctrlr_fx.BufCodec.{Codec, put_swap, put_all, get_swap, get_all}
use ctrlr_fx.BufCodec.Bytes.{
  host_bytes, host_value, length-host_bytes, host_value-host_bytes, reverse-host_bytes,
}
use ctrlr_fx.BufCodec.Native.{IsValid, Stored}

get_elem?_cons :
    (x : ℕ) (xs : List ℕ) (i : ℕ)
    → get_elem? (x ∷ xs) i ≡ (if i == 0 then some x else get_elem? xs (i - 1))
get_elem?_cons x xs zero = refl
get_elem?_cons x xs (suc i) = ground arith

module _ (big : Bool) where
  put_all_lem :
      (xs : List ℕ) (b : Buffer ℕ)
      → IsValid b
      → b.pos + length xs ≤ b.end_
      → (buf' : List ℕ) × (put_all big b xs
          ≡ some (record b { buf = buf'; pos = b.pos + length xs }))
        × Stored b.buf b.pos xs buf'
  unfolding put_all Buffer.put
  put_all_lem [] b w h = (b.buf, ground arith, record { size = refl; cells = λ j. ground arith })
  put_all_lem (x ∷ xs) b w h =
      let b1 : Buffer ℕ = record b { buf = set b.buf b.pos x; pos = b.pos + 1 } in
      let (buf', run, s) =
        put_all_lem xs b1 (omega (arith, w, length-set b.buf b.pos x)) (omega arith) in
      (
        buf',
        ground (arith, w, store_lem b.buf b.pos x, run),
        record {
          size = s.size ∙ length-set b.buf b.pos x;
          cells = λ j. ground (
            arith,
            w,
            s.cells j,
            get_elem?-set_self b.buf b.pos x,
            get_elem?-set_ne b.buf b.pos j x,
            get_elem?_cons x xs (j - b.pos),
          );
        },
      )

  get_all_lem :
      (n : ℕ) (b : Buffer ℕ)
      → IsValid b
      → b.pos + n ≤ b.lim
      → (bs : List ℕ) × (get_all big b n ≡ some (bs, record b { pos = b.pos + n }))
        × (length bs ≡ n)
        × ((j : ℕ) → get_elem? bs j ≡ (if ltb j n then get_elem? b.buf (b.pos + j) else none))
  unfolding get_all Buffer.get_next
  get_all_lem zero b w h = ([], ground arith, refl, λ j. ground arith)
  get_all_lem (suc n) b w h =
      let (v, e) = get_elem?-some b.buf b.pos (omega (arith, w)) in
      let (bs, run, l, c) =
        get_all_lem n (record b { pos = b.pos + 1 }) (omega (arith, w)) (omega arith) in
      (
        v ∷ bs,
        ground (arith, e, run),
        ap suc l,
        λ j. get_elem?_cons v bs j ∙ ground (arith, e, c (j - 1)),
      )

  -- A swapped put over a valid buffer whose position is not beyond its limit either finds too
  -- little room, returns 0 and leaves the encoder as it was, its good state included, or stores at
  -- the unaligned position the bytes of a host of the other byte order.
  pub put_swap_lem :
      (c : Codec) (n v : ℕ)
      → IsValid c.buf_
      → c.buf_.pos ≤ c.buf_.lim
      → ((c.buf_.lim < c.buf_.pos + n) × (put_swap big c n v ≡ some (0, c)))
        ⊎ ((c.buf_.pos + n ≤ c.buf_.lim)
            × (buf' : List ℕ) × (put_swap big c n v
                ≡ some (n, record c { buf_ = record c.buf_ { buf = buf'; pos = c.buf_.pos + n } }))
            × Stored c.buf_.buf c.buf_.pos (host_bytes (not big) n v) buf')
  unfolding put_swap
  put_swap_lem c n v w h = elim (ℕ-cases c.buf_.lim (c.buf_.pos + n)) [
    | inl over ↦ inl (over, ground (arith, w))
    | inr fits ↦
        let (buf', run, s) =
          put_all_lem (host_bytes (not big) n v) c.buf_ w
            (omega (arith, w, length-host_bytes (not big) n v)) in
        inr (
          fits,
          buf',
          rw (reverse-host_bytes big n v) (ground (arith, w, run, length-host_bytes (not big) n v)),
          s,
        )
  ]

  -- Over a valid buffer with n bytes left, a swapped get of n bytes reads the value whose bytes,
  -- in the order of a host of the other byte order, lie at the position.
  get_swap_lem :
      (c : Codec) (n v : ℕ)
      → IsValid c.buf_
      → c.buf_.pos + n ≤ c.buf_.lim
      → v < 256 ^ n
      → ((j : ℕ)
          → j < n
          → get_elem? c.buf_.buf (c.buf_.pos + j) ≡ get_elem? (host_bytes (not big) n v) j)
      → get_swap big c n
        ≡ some (n, some v, record c { buf_ = record c.buf_ { pos = c.buf_.pos + n } })
  unfolding get_swap
  get_swap_lem c n v w fits small held =
      let (bs, run, l, cells) = get_all_lem n c.buf_ w fits in
      let bytes : bs ≡ host_bytes (not big) n v = list_ext bs (host_bytes (not big) n v) λ j.
        ground (
          arith,
          cells j,
          held j,
          length-host_bytes (not big) n v,
          get_elem?-none (host_bytes (not big) n v) j,
        ) in
      let value : host_value big (reverse bs) ≡ v =
        ap (λ t. host_value big (reverse t)) (bytes ∙ sym (reverse-host_bytes big n v))
        ∙ ap (host_value big) (reverse-reverse (host_bytes big n v))
        ∙ host_value-host_bytes big n v small in
      ground (arith, w, run, value)
