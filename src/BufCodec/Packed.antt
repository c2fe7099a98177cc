-- ===== src/BufCodec/Packed.antt =====
-- CtrlrFx/BufCodec.h: a native encoder and decoder whose position is a multiple of the size of the
-- next value: the buffer's bytes as a list.
use ctrlr_fx.Prelude.{
  ℕ, ◌+◌, ◌%◌, ◌^◌, ◌≤◌, ◌<◌, ◌≡◌, refl, sym, ap, ◌∙◌, List, ◌++◌, some, Bool, true, length,
  length-append, length-take, take, drop, get_elem?, get_elem?-append, get_elem?-take,
  get_elem?-drop, get_elem?-none, list_ext, inl, inr, ℕ-cases, arith, subst,
}
use ctrlr_fx.Buffer.{Buffer}
use ctrlr_fx.BufCodec.{Codec, put, get}
use ctrlr_fx.BufCodec.Bytes.{host_bytes, length-host_bytes}
use ctrlr_fx.BufCodec.Native.{IsValid, Stored, aligned, put_lem, get_lem}

-- What lies before the position.
abbrev pub before : Buffer ℕ → List ℕ
before b = take b.pos b.buf

abbrev pub good : Buffer ℕ → Codec
good b = record { buf_ = b; good_ = true }

-- The buffer has the bytes behind what it had.
pub record Grown (b : Buffer ℕ) (bytes : List ℕ) (b' : Buffer ℕ) : Type 0 where
  pub valid : IsValid b'
  pub next : b'.pos ≡ b.pos + length bytes
  pub limit : b'.lim ≡ b.lim
  pub out : before b' ≡ before b ++ bytes

aligned_due : (end_ n p : ℕ) → p % n ≡ 0 → aligned end_ n p ≡ p
aligned_due end_ n p h = ground arith

-- The first cells of an array that has the bytes stored at `p`.
Stored-take :
    (old new bytes : List ℕ) (p : ℕ)
    → p + length bytes ≤ length old
    → Stored old p bytes new
    → take (p + length bytes) new ≡ take p old ++ bytes
Stored-take old new bytes p h s = list_ext (take (p + length bytes) new) (take p old ++ bytes) λ j.
    elim (ℕ-cases j (p + length bytes)) [
      | inl within ↦
          get_elem?-take (p + length bytes) new j within
          ∙ s.cells j
          ∙ ground (
            arith,
            get_elem?-append (take p old) bytes j,
            length-take p old,
            get_elem?-take p old j,
            within,
          )
          ∙ sym (get_elem?-append (take p old) bytes j)
      | inr beyond ↦
          get_elem?-none (take (p + length bytes) new) j
            (omega (arith, length-take (p + length bytes) new, beyond))
          ∙ sym (
              get_elem?-none (take p old ++ bytes) j
                (omega (arith, length-append (take p old) bytes, length-take p old, beyond, h)))
    ]

module _ (big : Bool) (b : Buffer ℕ) (w : IsValid b) (n : ℕ) (some_ : 0 < n) (due : b.pos % n ≡ 0)
    (fits : b.pos + n ≤ b.lim) (v : ℕ) where
  pub put_due :
      (b' : Buffer ℕ) × (put big (good b) n v ≡ some (n, good b')) × Grown b (host_bytes big n v) b'
  put_due = elim (put_lem big b w n some_ v) [
    | inl (over, e) ↦ absurd (omega (arith, over, fits, aligned_due b.end_ n b.pos due))
    | inr (_, buf', e, s) ↦
        let here = aligned_due b.end_ n b.pos due in
        let bytes = host_bytes big n v in
        let long = length-host_bytes big n v in
        (
          record b { buf = buf'; pos = aligned b.end_ n b.pos + n },
          e,
          record {
            valid = omega (arith, w, here, s.size, fits);
            next = omega (arith, here, long);
            limit = refl;
            out =
                ap (λ m. take m buf') {y = b.pos + length bytes} (omega (arith, here, long))
                ∙ Stored-take b.buf buf' bytes b.pos (omega (arith, w, fits, long))
                    (subst (λ q. Stored b.buf q bytes buf') here s);
          },
        )
  ]

  pub get_due :
      (rest : List ℕ)
      → v < 256 ^ n
      → drop b.pos b.buf ≡ host_bytes big n v ++ rest
      → get big (good b) n ≡ some (n, some v, good (record b { pos = b.pos + n }))
  get_due rest small held =
      let here = aligned_due b.end_ n b.pos due in
      let bytes = host_bytes big n v in
      let long = length-host_bytes big n v in
      get_lem big b w n some_ v small (omega (arith, here, fits)) (λ j k.
        ap (λ q. get_elem? b.buf (q + j)) here
        ∙ sym (get_elem?-drop b.pos b.buf j)
        ∙ ap (λ xs. get_elem? xs j) held
        ∙ get_elem?-append bytes rest j
        ∙ ground (arith, k, long))
      ∙ ap (λ q. some (n, some v, good (record b { pos = q + n }))) here
