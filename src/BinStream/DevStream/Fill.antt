-- ===== src/BinStream/DevStream/Fill.antt =====
-- src/io/BinStream/DevBinStream.cpp: how an input stream buffer is filled from its device.
use ctrlr_fx.Prelude.{
  ℕ, ◌+◌, ◌-◌, ◌≤◌, ◌<◌, ◌≡◌, refl, sym, ap, ◌∙◌, min, List, [], ◌++◌, Option, none, some, inl, inr,
  ◌⊎◌, length, take, drop, take_prefix, drop-take-append, length-take, length-drop, ◌==◌,
  Bool-cases, Option-cases, arith, ℤ, pos_part,
}
use ctrlr_fx.Memory.{load_block, store_block}
use ctrlr_fx.Device.Blocks.{Reads}
use ctrlr_fx.BinStream.StreamBuf.{StreamBuf, setg, in_avail}
use ctrlr_fx.BinStream.DevStream.{at_fd, keep_back, fill_buf}
use ctrlr_fx.BinStream.MemStream.Areas.{unread, between, put_at, length-put_at, between-put_at}

-- The get area lies in the buffer's memory, or is not set.
pub record IsFed (base : ℕ) (b : StreamBuf) : Type 0 where
  pub non_null : 0 < base
  pub begun : b.gbegin_ ≤ b.gnext_
  pub within : b.gnext_ ≤ b.gend_
  pub bounded : b.gend_ ≤ base + 132
  pub stored : base + 132 ≤ length b.mem
  pub unset : b.gnext_ ≡ 0 → b.gend_ ≡ 0

-- The bytes that fill_buf is to keep lie apart from the place that it keeps them in.
abbrev pub IsApart : ℕ → StreamBuf → Type 0
IsApart base b = (b.gnext_ ≡ b.gbegin_) ⊎ (base + 4 + min (b.gnext_ - b.gbegin_) 4 ≤ b.gnext_)

pub length-between : (mem : List ℕ) (a z : ℕ) → z ≤ length mem → length (between mem a z) ≡ z - a
length-between mem a z h = omega (arith, length-take (z - a) (drop a mem), length-drop a mem)

between_before :
    (mem : List ℕ) (a p : ℕ) (block : List ℕ)
    → a ≤ p
    → p ≤ length mem
    → between (put_at mem p block) a p ≡ between mem a p
between_before mem a p block h k =
    ap (take (p - a)) (drop-take-append a p mem (block ++ drop (p + length block) mem) h k)
    ∙ take_prefix (p - a) (between mem a p) (block ++ drop (p + length block) mem)
        (sym (length-between mem a p k))

between_at :
    (mem : List ℕ) (p z : ℕ) (block : List ℕ)
    → p ≤ length mem
    → z ≡ p + length block
    → between (put_at mem p block) p z ≡ block
between_at mem p z block h e =
    between-put_at mem p p z block (omega arith) h e
    ∙ ap (λ m. take m (drop p mem) ++ block) {y = 0} (omega arith)

pub avail_lem :
    (base : ℕ) (b : StreamBuf) → IsFed base b → pos_part (in_avail b) ≡ b.gend_ - b.gnext_
unfolding in_avail
avail_lem base b v = ground (arith, v, v.unset)

module _ {W : Type 0} (base : ℕ) (sys_read : ℤ → W → ℕ → Option (List ℕ) × W) (input : W → List ℕ)
    (fd : ℤ) (law : Reads (sys_read fd) input) where
  keep_back_lem :
      (b : StreamBuf) (nb : ℕ)
      → IsFed base b
      → nb ≤ 4
      → nb ≤ b.gnext_
      → (nb ≡ 0) ⊎ (base + 4 + nb ≤ b.gnext_)
      → (mem : List ℕ) × (keep_back base sys_read b nb ≡ some mem)
        × (length mem ≡ length b.mem)
        × (between mem (base + 4 - nb) (base + 4) ≡ between b.mem (b.gnext_ - nb) b.gnext_)
  unfolding keep_back load_block store_block
  keep_back_lem b nb v le back far = elim (Bool-cases (nb == 0)) [
    | inl none_ ↦ (
      b.mem,
      ground (arith, none_),
      refl,
      ap (λ m. take m (drop (base + 4 - nb) b.mem)) {y = 0} (ground (arith, none_))
          ∙ sym (ap (λ m. take m (drop (b.gnext_ - nb) b.mem)) {y = 0} (ground (arith, none_))),
    )
    | inr some_ ↦
        let old = between b.mem (b.gnext_ - nb) b.gnext_ in
        let whole : take nb (drop (b.gnext_ - nb) b.mem) ≡ old =
          ap (λ m. take m (drop (b.gnext_ - nb) b.mem)) (omega arith) in
        let size = length-between b.mem (b.gnext_ - nb) b.gnext_ (omega (arith, v)) in
        (
          put_at b.mem (base + 4 - nb) old,
          ground (arith, some_, v, whole, size, far),
          length-put_at b.mem (base + 4 - nb) old (omega (arith, size, v)),
          between_at b.mem (base + 4 - nb) (base + 4) old (omega (arith, v))
              (omega (arith, size, v)),
        )
  ]

  -- fill_buf of a valid stream buffer whose last bytes are apart from their new place ends without a fault. Where the device gives bytes, those are
  -- then the unread ones, and the last ones read before, up to four, stand in front of them, to be
  -- put back; where the call fails, there is no get area.
  pub fill_buf_lem :
      (b : StreamBuf) (w : W)
      → IsFed base b
      → IsApart base b
      → (b' : StreamBuf) × (w' : W) × (w' ≡ (sys_read fd w 128).1)
        × IsFed base b'
        × (((bytes : List ℕ) × ((sys_read fd w 128).0 ≡ some bytes)
              × (fill_buf base sys_read b (at_fd fd w)
                  ≡ some (some (length bytes), b', at_fd fd w'))
              × (unread b' ≡ bytes)
              × (b'.gnext_ ≡ base + 4)
              × (between b'.mem b'.gbegin_ b'.gnext_
                  ≡ between b.mem (b.gnext_ - min (b.gnext_ - b.gbegin_) 4) b.gnext_))
            ⊎ (((sys_read fd w 128).0 ≡ none)
                × (fill_buf base sys_read b (at_fd fd w) ≡ some (none, b', at_fd fd w'))
                × (unread b' ≡ [])))
  unfolding fill_buf store_block
  fill_buf_lem b w v far =
      let nb = min (b.gnext_ - b.gbegin_) 4 in
      let (mem, kept, size, back) =
        keep_back_lem b nb v (omega arith) (omega (arith, v)) (omega (arith, far)) in
      elim (Option-cases (sys_read fd w 128).0) [
        | inl bad ↦ (
          setg (record b { mem = mem }) 0 0 0,
          (sys_read fd w 128).1,
          refl,
          omega (arith, v, size),
          inr (bad, ground (arith, kept, bad), refl),
        )
        | inr (bytes, e) ↦
            let most = law.limit w 128 bytes e in
            let p = base + 4 in
            let fits : p + length bytes ≤ length mem = omega (arith, most, v, size) in
            (
              setg (record b { mem = put_at mem p bytes }) (p - nb) p (p + length bytes),
              (sys_read fd w 128).1,
              refl,
              omega (arith, v, size, most, length-put_at mem p bytes fits),
              inl (
                bytes,
                e,
                ground (arith, kept, e, fits),
                between_at mem p (p + length bytes) bytes (omega (arith, fits)) refl,
                refl,
                between_before mem (p - nb) p bytes (omega arith) (omega (arith, fits)) ∙ back,
              ),
            )
      ]
