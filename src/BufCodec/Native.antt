-- ===== src/BufCodec/Native.antt =====
-- CtrlrFx/BufCodec.h: one value through `put` and `get`: where it is stored, when it is refused,
-- and what is read back.
use native.Mathlib.Nat.{mod-lt, mod-add-mod, mod_self}
use ctrlr_fx.Prelude.{
  ℕ, ◌+◌, ◌-◌, ◌%◌, ◌^◌, ◌≤◌, ◌<◌, ◌≡◌, sym, ap, ◌∙◌, List, some, Bool, true, false, ltb, leb, ◌==◌,
  ◌⊎◌, ◌&&◌, if◌then◌else◌, length, length-replicate, replicate, get_elem?, get_elem?-none,
  list_ext, ℕ-cases, inl, inr, arith,
}
use ctrlr_fx.Memory.Copy.{copy_elem-Copied}
use ctrlr_fx.Buffer
use ctrlr_fx.Buffer.{Buffer}
use ctrlr_fx.BufCodec.{put, get}
use ctrlr_fx.BufCodec.Bytes.{host_bytes, length-host_bytes, host_value-host_bytes}

-- The buffer's offsets lie inside its memory; `align` may take the position past the limit.
pub record IsValid (b : Buffer ℕ) : Type 0 where
  pub storage : length b.buf ≡ b.end_
  pub within : b.pos ≤ b.end_
  pub limited : b.lim ≤ b.end_
  pub small : b.end_ < 2 ^ 31

-- Where a value of `n` bytes goes that is due at `p`.
abbrev pub aligned : ℕ → ℕ → ℕ → ℕ
aligned end_ n p =
    let rem = p % n in if rem == 0 then p else if ltb (p + (n - rem)) end_ then p + (n - rem) else p

-- The cells from `q` on hold the bytes, in an array that agrees with `old` elsewhere.
pub record Stored (old : List ℕ) (q : ℕ) (bytes : List ℕ) (new : List ℕ) : Type 0 where
  pub size : length new ≡ length old
  pub cells :
      (j : ℕ)
      → get_elem? new j
        ≡ (if leb q j && ltb j (q + length bytes) then get_elem? bytes (j - q) else get_elem? old j)

pub align_lem :
    (b : Buffer ℕ) (n : ℕ) → Buffer.align b n ≡ record b { pos = aligned b.end_ n b.pos }
align_lem b n = ground arith

round_up : (n p : ℕ) → 0 < n → (p + (n - p % n)) % n ≡ 0
round_up n p h = sym (mod-add-mod p n (n - p % n)) ∙ ap (λ k. k % n) whole ∙ mod_self n
  where
    whole : p % n + (n - p % n) ≡ n
    whole = omega (arith, mod-lt p h)

-- Where a value fits behind the position it is stored at a multiple of its size.
pub aligned_multiple :
    (end_ n p : ℕ) → 0 < n → aligned end_ n p + n ≤ end_ → aligned end_ n p % n ≡ 0
aligned_multiple end_ n p h fits = ground (arith, round_up n p h)

module _ (big : Bool) (b : Buffer ℕ) (w : IsValid b) (n : ℕ) (pos : 0 < n) where
  abbrev due : ℕ
  due = aligned b.end_ n b.pos

  -- `put` of a value on a good encoder: if it fits below the limit its bytes go to the aligned
  -- position, a multiple of its size, and nothing else changes; if not, nothing is stored, the
  -- result is 0 and the encoder is bad.
  pub put_lem :
      (v : ℕ)
      → ((b.lim < due + n)
          × (put big (record { buf_ = b; good_ = true }) n v
              ≡ some (0, record { buf_ = record b { pos = due }; good_ = false })))
        ⊎ ((due + n ≤ b.lim)
            × (buf' : List ℕ) × (put big (record { buf_ = b; good_ = true }) n v
                ≡ some (n, record { buf_ = record b { buf = buf'; pos = due + n }; good_ = true }))
            × Stored b.buf due (host_bytes big n v) buf')
  unfolding put Buffer.put_n
  put_lem v = elim (ℕ-cases b.lim (due + n)) [
    | inl over ↦ inl (over, rw (align_lem b n) (ground arith))
    | inr fits ↦
        let (buf', run, c) =
          copy_elem-Copied b.buf due (host_bytes big n v) 0 n (omega (arith, w))
            (omega (arith, length-host_bytes big n v)) in
        inr (
          fits,
          buf',
          rw (align_lem b n) (ground (arith, run)),
          record {
            size = c.size;
            cells = λ j. ground (arith, length-host_bytes big n v, c.cells j);
          },
        )
  ]

  -- `get` on a good decoder reads back the value whose bytes lie at the aligned position.
  pub get_lem :
      (v : ℕ)
      → v < 256 ^ n
      → due + n ≤ b.lim
      → ((j : ℕ) → j < n → get_elem? b.buf (due + j) ≡ get_elem? (host_bytes big n v) j)
      → get big (record { buf_ = b; good_ = true }) n
        ≡ some (n, some v, record { buf_ = record b { pos = due + n }; good_ = true })
  unfolding get Buffer.get_n
  get_lem v small fits held =
      let (out, run, c) =
        copy_elem-Copied (replicate {A = ℕ} n 0) 0 b.buf due n
          (omega (arith, length-replicate {A = ℕ} n 0)) (omega (arith, w)) in
      let bytes : out ≡ host_bytes big n v = list_ext out (host_bytes big n v) λ j. ground (
        arith,
        c.cells j,
        held j,
        length-host_bytes big n v,
        length-replicate {A = ℕ} n 0,
        get_elem?-none (host_bytes big n v) j,
        get_elem?-none (replicate {A = ℕ} n 0) j,
      ) in
      rw (align_lem b n) (ground (arith, run, bytes, host_value-host_bytes big n v small))
