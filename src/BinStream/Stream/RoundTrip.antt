-- ===== src/BinStream/Stream/RoundTrip.antt =====
-- Typed values out to a memory stream and in from the same memory, for each byte order and with or
-- without alignment.
use mathlib.Core.List.{reverse}
use ctrlr_fx.Prelude.{
  ℕ, ◌+◌, ◌-◌, ◌%◌, ◌≤◌, ◌≡◌, refl, ap, ◌∙◌, List, [], ◌∷◌, ◌++◌, Option, some, ◌>>=◌, Bool, true,
  false, ◌==◌, if◌then◌else◌, length, length-append, replicate, length-replicate, subst, arith,
  Bool-cases, ge→ltb, inl, inr,
}
use ctrlr_fx.BufCodec.Bytes.{host_bytes, length-host_bytes}
use ctrlr_fx.BufCodec.Stream.{Item}
use ctrlr_fx.SwapBytes.{swap_bytes}
use ctrlr_fx.SwapBytes.Reverse.{length-reverse, swap_bytes_lem}
use ctrlr_fx.BinStream.StreamBuf.{StreamBuf, palign, pad}
use ctrlr_fx.BinStream.MemStream.{overflow}
use ctrlr_fx.BinStream.MemStream.Areas.{IsWritable, room}
use ctrlr_fx.BinStream.MemStream.Extend.{
  Extended, Extended-refl, Extended-trans, sputn_fits, pad_fits,
}
use ctrlr_fx.BinStream.Stream.{BinStream, goodbit, insert, write}

-- The format: zeros up to a multiple of the size where the stream aligns, and the bytes of the value
-- as the host has them, or the other way round.
abbrev pub gap : Bool → ℕ → ℕ → ℕ
gap align off n = if align then (if off % n == 0 then 0 else n - off % n) else 0

abbrev pub wire : Bool → Bool → Item → List ℕ
wire big swap i =
    if swap then reverse (host_bytes big i.size i.value) else host_bytes big i.size i.value

abbrev pub packed : Bool → Bool → Bool → ℕ → Item → List ℕ
packed big swap align off i = replicate (gap align off i.size) 0 ++ wire big swap i

abbrev pub serial : Bool → Bool → Bool → ℕ → List Item → List ℕ
serial big swap align off [] = []
serial big swap align off (i ∷ is) =
    packed big swap align off i
    ++ serial big swap align (off + length (packed big swap align off i)) is

module _ (big : Bool) where
  -- `os << v1 << v2 << …`
  pub insert_all : BinStream (Unit {0}) → List Item → Option (BinStream (Unit {0}))
  insert_all s [] = some s
  insert_all s (i ∷ is) = insert overflow big s i.size i.value >>= λ t. insert_all t is

  pub length-wire : (swap : Bool) (i : Item) → length (wire big swap i) ≡ i.size
  length-wire false i = length-host_bytes big i.size i.value
  length-wire true i =
      length-reverse (host_bytes big i.size i.value) ∙ length-host_bytes big i.size i.value

  -- The area after the padding, where the stream pads.
  aligned_put :
      (align : Bool) (b : StreamBuf) (n : ℕ)
      → (if align then palign overflow b tt n else some (b, tt {0}))
        ≡ pad overflow (gap align (b.pnext_ - b.pbegin_) n) b tt
  unfolding palign pad
  aligned_put false b n = refl
  aligned_put true b n = elim (Bool-cases ((b.pnext_ - b.pbegin_) % n == 0)) [
    | inl e ↦ rw e refl
    | inr e ↦ rw e refl
  ]

  swapped_bytes :
      (swap : Bool) (i : Item)
      → (if swap
          then swap_bytes (host_bytes big i.size i.value)
          else some (host_bytes big i.size i.value))
        ≡ some (wire big swap i)
  swapped_bytes false i = refl
  swapped_bytes true i = swap_bytes_lem (host_bytes big i.size i.value)

  -- A stream that was good after every value: it has the values' bytes behind what it had.
  pub record Inserted (s : BinStream (Unit {0})) (bytes : List ℕ) (t : BinStream (Unit {0}))
      : Type 0 where
    pub good : t.state_ ≡ goodbit
    pub swap : t.swap_ ≡ s.swap_
    pub align : t.align_ ≡ s.align_
    pub area : Extended s.buf_ bytes t.buf_

  pub insert_lem :
      (s : BinStream (Unit {0})) (i : Item)
      → IsWritable s.buf_
      → length (packed big s.swap_ s.align_ (s.buf_.pnext_ - s.buf_.pbegin_) i) ≤ room s.buf_
      → (t : BinStream (Unit {0})) × (insert overflow big s i.size i.value ≡ some t)
        × Inserted s (packed big s.swap_ s.align_ (s.buf_.pnext_ - s.buf_.pbegin_) i) t
  unfolding insert write
  insert_lem s i w h =
      let k = gap s.align_ (s.buf_.pnext_ - s.buf_.pbegin_) i.size in
      let (m, run, e) = pad_fits k s.buf_ w (
        omega (
          arith,
          h,
          length-append (replicate {A = ℕ} k 0) (wire big s.swap_ i),
          length-replicate {A = ℕ} k 0,
        )) in
      let (b', runs, f) = sputn_fits m (wire big s.swap_ i) e.valid (
        omega (
          arith,
          h,
          length-append (replicate {A = ℕ} k 0) (wire big s.swap_ i),
          length-replicate {A = ℕ} k 0,
          e.next,
          e.end_,
        )) in
      (
        record s { state_ = goodbit; buf_ = b' },
        rw
            (
              aligned_put s.align_ s.buf_ i.size,
              run,
              swapped_bytes s.swap_ i,
              runs,
              ge→ltb (length (wire big s.swap_ i)) (length (wire big s.swap_ i)) (omega arith),
            )
            refl,
        record {
          good = refl;
          swap = refl;
          align = refl;
          area = Extended-trans s.buf_ m b' (replicate k 0) (wire big s.swap_ i) e f;
        },
      )

  -- All the values.
  pub insert_all_lem :
      (is : List Item) (s : BinStream (Unit {0}))
      → s.state_ ≡ goodbit
      → IsWritable s.buf_
      → length (serial big s.swap_ s.align_ (s.buf_.pnext_ - s.buf_.pbegin_) is) ≤ room s.buf_
      → (t : BinStream (Unit {0})) × (insert_all s is ≡ some t)
        × Inserted s (serial big s.swap_ s.align_ (s.buf_.pnext_ - s.buf_.pbegin_) is) t
  unfolding insert_all
  insert_all_lem [] s g w h =
      (s, refl, record { good = g; swap = refl; align = refl; area = Extended-refl s.buf_ w })
  insert_all_lem (i ∷ is) s g w h =
      let off = s.buf_.pnext_ - s.buf_.pbegin_ in
      let first = packed big s.swap_ s.align_ off i in
      let rest = serial big s.swap_ s.align_ (off + length first) is in
      let (t, run, e) = insert_lem s i w (omega (arith, h, length-append first rest)) in
      let moved : t.buf_.pnext_ - t.buf_.pbegin_ ≡ off + length first =
        omega (arith, w, e.area.next, e.area.begin) in
      let same : serial big t.swap_ t.align_ (t.buf_.pnext_ - t.buf_.pbegin_) is ≡ rest =
        (λ j. serial big (e.swap j) (e.align j) (moved j) is) in
      let (u, runs, f) =
        insert_all_lem is t e.good e.area.valid
          (omega (arith, ap length same, e.area.next, e.area.end_, h, length-append first rest)) in
      (
        u,
        rw run runs,
        record {
          good = f.good;
          swap = f.swap ∙ e.swap;
          align = f.align ∙ e.align;
          area =
              Extended-trans s.buf_ t.buf_ u.buf_ first rest e.area
                (subst (λ x. Extended t.buf_ x u.buf_) same f.area);
        },
      )
