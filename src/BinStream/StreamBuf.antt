-- ===== src/BinStream/StreamBuf.antt =====
-- CtrlrFx/BinStreamBuf.h and src/io/BinStream/BinStreamBuf.cpp: the get and the put area of a stream
-- buffer. An address is an index into the memory `mem`, and 0, where no object lies, is the null
-- pointer. A byte is a number below 256; a result of -1 is `none`, and an access outside the memory
-- a `none` around everything. `D` is what a derived class adds, and the virtual `underflow` and
-- `overflow` are parameters. Addresses and counts are below 2 ^ 31 and counts are not negative.
use ctrlr_fx.Prelude.{
  ℕ, zero, suc, ◌+◌, ◌-◌, ◌%◌, min, List, [], ◌∷◌, ◌++◌, Option, none, some, ◌>>=◌, Bool, true,
  false, not, ◌&&◌, ◌==◌, ltb, if◌then◌else◌, length, take, drop, ℤ, pos, difference,
}
use ctrlr_fx.Memory.{load, store, load_block, store_block}

pub record StreamBuf : Type 0 where
  pub mem : List ℕ
  pub pbegin_ : ℕ
  pub pnext_ : ℕ
  pub pend_ : ℕ
  pub gbegin_ : ℕ
  pub gnext_ : ℕ
  pub gend_ : ℕ

-- The constructor, over the memory of the program.
abbrev pub new_buf : List ℕ → StreamBuf
new_buf mem = record {
  mem = mem;
  pbegin_ = 0;
  pnext_ = 0;
  pend_ = 0;
  gbegin_ = 0;
  gnext_ = 0;
  gend_ = 0;
}

abbrev pub setg : StreamBuf → ℕ → ℕ → ℕ → StreamBuf
setg b gbeg gnex gen = record b { gbegin_ = gbeg; gnext_ = gnex; gend_ = gen }

-- `setp(pbeg, pen)`
abbrev pub setp : StreamBuf → ℕ → ℕ → StreamBuf
setp b pbeg pen = record b { pbegin_ = pbeg; pnext_ = pbeg; pend_ = pen }

-- `gnext_ && gnext_ < gend_`
abbrev pub readable : StreamBuf → Bool
readable b = not (b.gnext_ == 0) && ltb b.gnext_ b.gend_

-- `pnext_ && pnext_ < pend_`
abbrev pub writable : StreamBuf → Bool
writable b = not (b.pnext_ == 0) && ltb b.pnext_ b.pend_

-- `in_avail()` with the base class's `showmanyc`.
unfoldable pub in_avail : StreamBuf → ℤ
in_avail b = if b.gnext_ == 0 then pos 0 else difference b.gend_ b.gnext_

-- `sputbackc(by)` and `sungetc()`, with the base class's `pbackfail`.
unfoldable pub sputbackc : StreamBuf → ℕ → Option (Option ℕ × StreamBuf)
sputbackc b by =
    if not (b.gnext_ == 0) && ltb b.gbegin_ b.gnext_
    then (load b.mem (b.gnext_ - 1) >>= λ c.
        some (if c == by then (some c, record b { gnext_ = b.gnext_ - 1 }) else (none, b)))
    else some (none, b)

unfoldable pub sungetc : StreamBuf → Option (Option ℕ × StreamBuf)
sungetc b =
    if not (b.gnext_ == 0) && ltb b.gbegin_ b.gnext_
    then (load b.mem (b.gnext_ - 1) >>= λ c. some (some c, record b { gnext_ = b.gnext_ - 1 }))
    else some (none, b)

module _ {D : Type 0} (underflow : StreamBuf → D → Option (Option ℕ × StreamBuf × D)) where
  unfoldable pub uflow : StreamBuf → D → Option (Option ℕ × StreamBuf × D)
  uflow b d = underflow b d >>= λ r. some (elim r.0 [
    | none ↦ r
    | some c ↦ if r.1.gnext_ == 0 then r else (some c, record r.1 { gnext_ = r.1.gnext_ + 1 }, r.2)
  ])

  unfoldable pub sgetc : StreamBuf → D → Option (Option ℕ × StreamBuf × D)
  sgetc b d =
      if readable b then (load b.mem b.gnext_ >>= λ c. some (some c, b, d)) else underflow b d

  unfoldable pub sbumpc : StreamBuf → D → Option (Option ℕ × StreamBuf × D)
  unfolding uflow
  sbumpc b d =
      if readable b
      then (load b.mem b.gnext_ >>= λ c. some (some c, record b { gnext_ = b.gnext_ + 1 }, d))
      else uflow b d

  unfoldable pub snextc : StreamBuf → D → Option (Option ℕ × StreamBuf × D)
  unfolding sbumpc sgetc
  snextc b d = sbumpc b d >>= λ r. elim r.0 [ none ↦ some r | some c ↦ sgetc r.1 r.2 ]

  -- `while (n--) sbumpc();`
  unfoldable pub skip : ℕ → StreamBuf → D → Option (StreamBuf × D)
  unfolding sbumpc
  skip zero b d = some (b, d)
  skip (suc n) b d = sbumpc b d >>= λ r. skip n r.1 r.2

  unfoldable pub galign : StreamBuf → D → ℕ → Option (StreamBuf × D)
  unfolding skip
  galign b d n =
      let rem = (b.gnext_ - b.gbegin_) % n in if rem == 0 then some (b, d) else skip (n - rem) b d

  -- The loop of `xsgetn` for `cnt` bytes, with at most the given number of rounds: the bytes that go
  -- to the caller's array, the buffer, and the derived class's part.
  unfoldable pub get_rounds : ℕ → StreamBuf → D → ℕ → Option (List ℕ × StreamBuf × D)
  unfolding uflow
  get_rounds zero b d cnt = some ([], b, d)
  get_rounds (suc fuel) b d cnt = elim (cnt == 0) [
    | true ↦ some ([], b, d)
    | false ↦ elim (readable b) [
      | true ↦
          let size = min cnt (b.gend_ - b.gnext_) in
          load_block b.mem b.gnext_ size >>= λ bytes.
          get_rounds fuel (record b { gnext_ = b.gnext_ + size }) d (cnt - size) >>= λ r.
          some (bytes ++ r.0, r.1, r.2)
      | false ↦ uflow b d >>= λ u. elim u.0 [
        | none ↦ some ([], u.1, u.2)
        | some c ↦ get_rounds fuel u.1 u.2 (cnt - 1) >>= λ r. some (c % 256 ∷ r.0, r.1, r.2)
      ]
    ]
  ]

  -- `sgetn` and `xsgetn`: the result is the number of the bytes.
  unfoldable pub sgetn : StreamBuf → D → ℕ → Option (List ℕ × StreamBuf × D)
  unfolding get_rounds
  sgetn b d n = get_rounds n b d n

module _ {D : Type 0} (overflow : ℕ → StreamBuf → D → Option (Option ℕ × StreamBuf × D)) where
  unfoldable pub sputc : StreamBuf → D → ℕ → Option (Option ℕ × StreamBuf × D)
  sputc b d by =
      if writable b
      then (store b.mem b.pnext_ by >>= λ mem.
          some (some by, record b { mem = mem; pnext_ = b.pnext_ + 1 }, d))
      else overflow by b d

  -- `while (n--) sputc(0x00);`
  unfoldable pub pad : ℕ → StreamBuf → D → Option (StreamBuf × D)
  unfolding sputc
  pad zero b d = some (b, d)
  pad (suc n) b d = sputc b d 0 >>= λ r. pad n r.1 r.2

  unfoldable pub palign : StreamBuf → D → ℕ → Option (StreamBuf × D)
  unfolding pad
  palign b d n =
      let rem = (b.pnext_ - b.pbegin_) % n in if rem == 0 then some (b, d) else pad (n - rem) b d

  -- The loop of `xsputn` for the bytes from `bybuf` on: how many are left over.
  unfoldable pub put_rounds : ℕ → StreamBuf → D → List ℕ → Option (ℕ × StreamBuf × D)
  put_rounds zero b d bytes = some (length bytes, b, d)
  put_rounds (suc fuel) b d [] = some (0, b, d)
  put_rounds (suc fuel) b d (by ∷ rest) = elim (writable b) [
    | true ↦
        let size = min (suc (length rest)) (b.pend_ - b.pnext_) in
        store_block b.mem b.pnext_ (take size (by ∷ rest)) >>= λ mem.
        put_rounds fuel (record b { mem = mem; pnext_ = b.pnext_ + size }) d (drop size (by ∷ rest))
    | false ↦ overflow by b d >>= λ u. elim u.0 [
      | none ↦ some (suc (length rest), u.1, u.2)
      | some c ↦ put_rounds fuel u.1 u.2 rest
    ]
  ]

  -- `sputn` and `xsputn`.
  unfoldable pub sputn : StreamBuf → D → List ℕ → Option (ℕ × StreamBuf × D)
  unfolding put_rounds
  sputn b d bytes = put_rounds (length bytes) b d bytes >>= λ r. some (length bytes - r.0, r.1, r.2)
