-- ===== src/BufCodec/Stream.antt =====
-- CtrlrFx/BufCodec.h: a sequence of values through the native encoder, and back through the native
-- decoder.

use ctrlr_fx.Prelude.{
  ℕ, ◌+◌, ◌%◌, ◌^◌, ◌≤◌, ◌<◌, ◌≡◌, refl, sym, ◌∙◌, List, [], ◌∷◌, Option, some, ◌>>=◌, Bool, true,
  false, ◌==◌, ◌⊎◌, length, get_elem?, Bool-cases, ℕ-cases, inl, inr, subst, arith,
}
use ctrlr_fx.Memory.Copy.{copy_elem-Copied}
use ctrlr_fx.Buffer
use ctrlr_fx.Buffer.{Buffer}
use ctrlr_fx.BufCodec.{Codec, put, put_block, get, init, clear}
use ctrlr_fx.BufCodec.Bytes.{host_bytes, length-host_bytes}
use ctrlr_fx.BufCodec.Native.{IsValid, aligned, put_lem, get_lem}

-- A value with the size of its type, which it fits.
pub record Item : Type 0 where
  pub size : ℕ
  pub value : ℕ
  pub some_size : 0 < size
  pub fits : value < 256 ^ size

module _ (big : Bool) where
  -- `enc << v1 << v2 << …`
  unfoldable pub encode : Codec → List Item → Option Codec
  encode c [] = some c
  encode c (i ∷ is) = put big c i.size i.value >>= λ r. encode r.1 is

  -- `dec >> v1 >> v2 >> …` for values of the same types: what is read, and the decoder.
  unfoldable pub decode : Codec → List Item → Option (List (Option ℕ) × Codec)
  decode c [] = some ([], c)
  decode c (i ∷ is) = do r ← get big c i.size; s ← decode r.2 is; some (r.1 ∷ s.0, s.1)

  pub values : List Item → List (Option ℕ)
  values [] = []
  values (i ∷ is) = some i.value ∷ values is

  -- From `p` on, `cells` holds the bytes of the values, each where it is due; they end at `stop`.
  abbrev Layout : List ℕ → ℕ → List Item → ℕ → ℕ → Type 0
  Layout cells end_ [] p stop = p ≡ stop
  Layout cells end_ (i ∷ is) p stop =
      ((j : ℕ)
        → j < i.size
        → get_elem? cells (aligned end_ i.size p + j) ≡ get_elem? (host_bytes big i.size i.value) j)
      × Layout cells end_ is (aligned end_ i.size p + i.size) stop

  -- A bad encoder stays bad and stores nothing.
  encode_bad :
      (is : List Item) (b : Buffer ℕ)
      → encode (record { buf_ = b; good_ = false }) is ≡ some (record { buf_ = b; good_ = false })
  unfolding encode put
  encode_bad [] b = refl
  encode_bad (i ∷ is) b = encode_bad is b

  aligned-ge : (end_ n p : ℕ) → p ≤ aligned end_ n p
  aligned-ge end_ n p = ground arith

  -- What a good encoder has done when it is still good after the values.
  record Encoded (b : Buffer ℕ) (is : List Item) (c : Codec) : Type 0 where
    good : c.good_ ≡ true
    valid : IsValid c.buf_
    same_end : c.buf_.end_ ≡ b.end_
    same_lim : c.buf_.lim ≡ b.lim
    forward : b.pos ≤ c.buf_.pos
    below : c.buf_.pos ≤ b.lim
    before : (j : ℕ) → j < b.pos → get_elem? c.buf_.buf j ≡ get_elem? b.buf j
    layout : Layout c.buf_.buf b.end_ is b.pos c.buf_.pos

  encode_lem :
      (is : List Item) (b : Buffer ℕ)
      → IsValid b
      → b.pos ≤ b.lim
      → (c : Codec) × (encode (record { buf_ = b; good_ = true }) is ≡ some c)
        × ((c.good_ ≡ false) ⊎ Encoded b is c)
  unfolding encode
  encode_lem [] b w h = (
    record { buf_ = b; good_ = true },
    refl,
    inr (record {
      good = refl;
      valid = w;
      same_end = refl;
      same_lim = refl;
      forward = omega arith;
      below = h;
      before = λ j k. refl;
      layout = refl;
    }),
  )
  encode_lem (i ∷ is) b w h = elim (put_lem big b w i.size i.some_size i.value) [
    | inl (over, e) ↦ (
      record { buf_ = record b { pos = aligned b.end_ i.size b.pos }; good_ = false },
      rw e (encode_bad is (record b { pos = aligned b.end_ i.size b.pos })),
      inl refl,
    )
    | inr (fits, buf', e, s) ↦
        let q = aligned b.end_ i.size b.pos in
        let b1 : Buffer ℕ = record b { buf = buf'; pos = q + i.size } in
        let w1 : IsValid b1 = omega (arith, w, s.size) in
        let (c, run, r) = encode_lem is b1 w1 fits in
        (
          c,
          rw e run,
          elim r [
            | inl bad ↦ inl bad
            | inr x ↦ inr (record {
              good = x.good;
              valid = x.valid;
              same_end = x.same_end;
              same_lim = x.same_lim;
              forward = omega (arith, x.forward, aligned-ge b.end_ i.size b.pos);
              below = x.below;
              before = λ j k.
                  x.before j (omega (arith, aligned-ge b.end_ i.size b.pos))
                  ∙ ground (arith, s.cells j, aligned-ge b.end_ i.size b.pos);
              layout = (
                λ j k.
                    x.before (q + j) (omega arith)
                    ∙ ground (arith, s.cells (q + j), length-host_bytes big i.size i.value),
                x.layout,
              );
            })
          ],
        )
  ]

  Layout-ge :
      (is : List Item) (cells : List ℕ) (end_ p stop : ℕ) → Layout cells end_ is p stop → p ≤ stop
  Layout-ge [] cells end_ p stop l = omega arith
  Layout-ge (i ∷ is) cells end_ p stop l = omega (
    arith,
    Layout-ge is cells end_ (aligned end_ i.size p + i.size) stop l.1,
    aligned-ge end_ i.size p,
  )

  decode_lem :
      (is : List Item) (b : Buffer ℕ) (stop : ℕ)
      → IsValid b
      → Layout b.buf b.end_ is b.pos stop
      → stop ≤ b.lim
      → decode (record { buf_ = b; good_ = true }) is
        ≡ some (values is, record { buf_ = record b { pos = stop }; good_ = true })
  unfolding decode values
  decode_lem [] b stop w l h = rw (← l) refl
  decode_lem (i ∷ is) b stop w l h =
      let q = aligned b.end_ i.size b.pos in
      let room : q + i.size ≤ b.lim =
        omega (arith, Layout-ge is b.buf b.end_ (q + i.size) stop l.1) in
      let b1 : Buffer ℕ = record b { pos = q + i.size } in
      let w1 : IsValid b1 = omega (arith, w) in
      rw (get_lem big b w i.size i.some_size i.value i.fits room l.0)
        (rw (decode_lem is b1 stop w1 l.1 h))

  -- Encoding any list of values into a cleared valid buffer ends without a fault.
  pub encode-some :
      (b : Buffer ℕ) (is : List Item)
      → IsValid b
      → (c : Codec) × (encode (clear (init b)) is ≡ some c)
  unfolding init
  encode-some b is w =
      let (c, run, _) = encode_lem is (Buffer.clear b) (omega (arith, w)) (omega arith) in (c, run)

  -- Values that an encoder put into a cleared valid buffer, and is still good after, are what a
  -- decoder gets from the flipped buffer, in order; it is then good and at the end of the data.
  pub decode-encode :
      (b : Buffer ℕ) (is : List Item) {c : Codec}
      → IsValid b
      → encode (clear (init b)) is ≡ some c
      → c.good_ ≡ true
      → (d : Codec) × (decode (init (Buffer.flip c.buf_)) is ≡ some (values is, d))
        × (d.good_ ≡ true)
        × (Buffer.available d.buf_ ≡ 0)
  unfolding init
  decode-encode b is {c} w run good =
      let (c', run', r) = encode_lem is (Buffer.clear b) (omega (arith, w)) (omega arith) in
      let same : c' ≡ c = cc in
      let x : Encoded (Buffer.clear b) is c = elim r [
        | inl bad ↦ cc
        | inr x ↦ subst (Encoded (Buffer.clear b) is) same x
      ] in
      (
        record { buf_ = record (Buffer.flip c.buf_) { pos = c.buf_.pos }; good_ = true },
        decode_lem is (Buffer.flip c.buf_) c.buf_.pos (omega (arith, x.valid))
            (subst (λ e. Layout c.buf_.buf e is 0 c.buf_.pos) (sym x.same_end) x.layout)
            (omega arith),
        refl,
        omega arith,
      )

  block_runs :
      (b : Buffer ℕ) (arr : List ℕ) (n : ℕ)
      → IsValid b
      → n ≤ length arr
      → (r : ℕ) × (b' : Buffer ℕ) × (Buffer.put_n b arr n ≡ some (r, b'))
  unfolding Buffer.put_n
  block_runs b arr n w h = elim (ℕ-cases b.lim (b.pos + n)) [
    | inl over ↦ (0, b, ground (arith, over))
    | inr fits ↦
        let (buf', run, c) =
          copy_elem-Copied b.buf b.pos arr 0 n (omega (arith, w, fits)) (omega arith) in
        (n, record b { buf = buf'; pos = b.pos + n }, ground (arith, run, fits))
  ]

  block_good :
      (b : Buffer ℕ) (arr : List ℕ) (n : ℕ)
      → IsValid b
      → n ≤ length arr
      → (c' : Codec) × (put_block big (record { buf_ = b; good_ = true }) arr n ≡ some (0, c'))
  unfolding put_block
  block_good b arr n w h = elim (put_lem big b w 2 (omega arith) (n % 2 ^ 16)) [
    | inl (over, e) ↦
        (record { buf_ = record b { pos = aligned b.end_ 2 b.pos }; good_ = false }, rw e refl)
    | inr (fits, buf', e, st) ↦
        let b1 : Buffer ℕ = record b { buf = buf'; pos = aligned b.end_ 2 b.pos + 2 } in
        let (r, b2, e2) =
          block_runs (Buffer.align b1 1) arr n (ground (arith, w, fits, st.size)) h in
        (record { buf_ = b2; good_ = r == n }, rw (e, e2) refl)
  ]

  -- The block put of n bytes, of a source of at least n, by an encoder over a valid buffer ends
  -- without a fault and returns 0 in every case, also where it stored everything.
  pub put_block-zero :
      (c : Codec) (arr : List ℕ) (n : ℕ)
      → IsValid c.buf_
      → n ≤ length arr
      → (c' : Codec) × (put_block big c arr n ≡ some (0, c'))
  unfolding put_block
  put_block-zero c arr n w h = elim (Bool-cases c.good_) [
    | inl good ↦
        subst (λ g. (c' : Codec) × (put_block big (record c { good_ = g }) arr n ≡ some (0, c')))
          (sym good) (block_good c.buf_ arr n w h)
    | inr bad ↦ (c, ground (arith, bad))
  ]
