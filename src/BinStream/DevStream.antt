-- ===== src/BinStream/DevStream.antt =====
-- CtrlrFx/DevBinStream.h and src/io/BinStream/DevBinStream.cpp: stream buffers over a device of the
-- operating system. `W` is the state of the system, and `sys_read`, `sys_write`, `sys_open` and
-- `sys_close` are its calls on a handle, `none` where they return -1. `m_buf` is the memory from
-- `base` on. `memcpy` of ranges that overlap is undefined, and `none`. `xsgetn` and `xsputn` take `unsigned` counts and so
-- hide the base class's, which its own `sgetn` and `sputn` go on calling. A loop that has not ended within its fuel is
-- `none`.
pub mod Fill
pub mod In
pub mod Out
mod Tests
use ctrlr_fx.Prelude.{
  ℕ, zero, suc, ◌+◌, ◌-◌, min, List, [], ◌∷◌, ◌++◌, Option, none, some, ◌>>=◌, Bool, true, false,
  not, ◌&&◌, ◌||◌, ◌==◌, ltb, leb, if◌then◌else◌, length, take, drop, ℤ, pos, negsuc, pos_part,
  to_int, less,
}
use ctrlr_fx.Memory.{load, store, load_block, store_block}
use ctrlr_fx.BinStream.StreamBuf.{StreamBuf, setg, setp, in_avail, writable}

-- `m_rd` or `m_wr`, and the system.
pub record Device (W : Type 0) : Type 0 where
  pub fd : ℤ
  pub sys : W

-- A device with a handle.
abbrev pub at_fd : {W : Type 0} → ℤ → W → Device W
at_fd fd w = record { fd = fd; sys = w }

-- `BACK_BUF_SIZE` and `BUF_SIZE` of an input, and `BUF_SIZE` of an output.
abbrev pub back_buf_size : ℕ
back_buf_size = 4

abbrev pub in_buf_size : ℕ
in_buf_size = 128

abbrev pub out_buf_size : ℕ
out_buf_size = 512

abbrev pub is_open : {W : Type 0} → Device W → Bool
is_open d = not (less d.fd (pos 0))

-- The constructors.
abbrev pub init_in : {W : Type 0} → StreamBuf → W → StreamBuf × Device W
init_in b w = (setg b 0 0 0, record { fd = negsuc 0; sys = w })

abbrev pub init_out : {W : Type 0} → ℕ → StreamBuf → W → StreamBuf × Device W
init_out base b w = (setp b base (base + out_buf_size), record { fd = negsuc 0; sys = w })

module _ {W : Type 0} (sys_close : ℤ → W → W) where
  -- `InDevBinStreamBuf::close`
  unfoldable pub close_in : Device W → Device W
  close_in d =
      if not (less d.fd (pos 0)) && (pos_part d.fd == 0)
      then d
      else record { fd = pos 0; sys = sys_close d.fd d.sys }

  -- `InDevBinStreamBuf::open`, with the name and the flags in `sys_open`.
  unfoldable pub open_in : (W → ℤ × W) → Device W → Bool × Device W
  unfolding close_in
  open_in sys_open d =
      let r = sys_open (close_in d).sys in
      let d' : Device W = record { fd = r.0; sys = r.1 } in (is_open d', d')

module _ {W : Type 0} (base : ℕ) (sys_read : ℤ → W → ℕ → Option (List ℕ) × W) where
  -- `memcpy` of the last bytes that were read, in front of the buffer: the ranges are apart where
  -- one ends before the other begins.
  unfoldable pub keep_back : StreamBuf → ℕ → Option (List ℕ)
  keep_back b nb = elim (nb == 0) [
    | true ↦ some b.mem
    | false ↦
        let dest = base + back_buf_size - nb in
        elim (leb (dest + nb) (b.gnext_ - nb) || leb b.gnext_ dest) [
          | false ↦ none
          | true ↦ load_block b.mem (b.gnext_ - nb) nb >>= λ old. store_block b.mem dest old
        ]
  ]

  unfoldable pub fill_buf : StreamBuf → Device W → Option (Option ℕ × StreamBuf × Device W)
  unfolding keep_back
  fill_buf b d =
      let nb = min (b.gnext_ - b.gbegin_) back_buf_size in
      keep_back b nb >>= λ mem.
      let r = sys_read d.fd d.sys in_buf_size in
      elim r.0 [
        | none ↦ some (none, setg (record b { mem = mem }) 0 0 0, record d { sys = r.1 })
        | some bytes ↦ store_block mem (base + back_buf_size) bytes >>= λ mem'.
            let p = base + back_buf_size in
            some (
              some (length bytes),
              setg (record b { mem = mem' }) (p - nb) p (p + length bytes),
              record d { sys = r.1 },
            )
      ]

  -- `InDevBinStreamBuf::underflow`
  unfoldable pub underflow : StreamBuf → Device W → Option (Option ℕ × StreamBuf × Device W)
  unfolding fill_buf
  underflow b d = elim (b.gnext_ == b.gend_) [
    | false ↦ load b.mem b.gnext_ >>= λ c. some (some c, b, d)
    | true ↦ fill_buf b d >>= λ r. elim r.0 [
      | none ↦ some (none, r.1, r.2)
      | some n ↦ load r.1.mem r.1.gnext_ >>= λ c. some (some c, r.1, r.2)
    ]
  ]

  -- The loop of `xsgetn` for `cnt` more bytes: those that it stores.
  unfoldable pub in_rounds : ℕ → StreamBuf → Device W → ℕ → Option (List ℕ × StreamBuf × Device W)
  unfolding underflow
  in_rounds zero b d cnt = none
  in_rounds (suc fuel) b d cnt = elim (cnt == 0) [
    | true ↦ some ([], b, d)
    | false ↦
        let nbuf = pos_part (in_avail b) in
        elim (nbuf == 0) [
          | true ↦ underflow b d >>= λ u. elim u.0 [
            | none ↦ some ([], u.1, u.2)
            | some c ↦ in_rounds fuel u.1 u.2 cnt
          ]
          | false ↦
              let ncpy = min cnt nbuf in
              load_block b.mem b.gnext_ ncpy >>= λ bytes.
              in_rounds fuel (record b { gnext_ = b.gnext_ + ncpy }) d (cnt - ncpy) >>= λ r.
              some (bytes ++ r.0, r.1, r.2)
        ]
  ]

  -- `InDevBinStreamBuf::xsgetn`: the result is the number of the bytes.
  unfoldable pub in_xsgetn : ℕ → StreamBuf → Device W → ℕ → Option (List ℕ × StreamBuf × Device W)
  unfolding in_rounds
  in_xsgetn fuel b d n = in_rounds fuel b d n

module _ {W : Type 0} (sys_write : ℤ → W → List ℕ → Option ℕ × W) where
  -- `OutDevBinStreamBuf::sync`: `true` for 0 and `false` for -1. A count that the cast to `int` makes
  -- negative is a size beyond the memory.
  unfoldable pub sync : StreamBuf → Device W → Option (Bool × StreamBuf × Device W)
  sync b d = elim (to_int (b.pnext_ - b.pbegin_)) [
    | negsuc k ↦ none
    | pos nbuf ↦ load_block b.mem b.pbegin_ nbuf >>= λ block.
        let r = sys_write d.fd d.sys block in
        some (elim r.0 [
          | none ↦ (false, b, record d { sys = r.1 })
          | some count ↦ elim (to_int count) [
            | negsuc k ↦ (false, b, record d { sys = r.1 })
            | pos n ↦ (true, record b { pnext_ = b.pnext_ - n }, record d { sys = r.1 })
          ]
        ])
  ]

  -- `OutDevBinStreamBuf::overflow` of a byte, with the `sputc` that it calls.
  unfoldable pub overflow : ℕ → ℕ → StreamBuf → Device W → Option (Option ℕ × StreamBuf × Device W)
  unfolding sync
  overflow zero c b d = none
  overflow (suc fuel) c b d = sync b d >>= λ r. elim r.0 [
    | false ↦ some (none, r.1, r.2)
    | true ↦ elim (writable r.1) [
      | true ↦ store r.1.mem r.1.pnext_ c >>= λ mem.
          some (some c, record r.1 { mem = mem; pnext_ = r.1.pnext_ + 1 }, r.2)
      | false ↦ overflow fuel c r.1 r.2
    ]
  ]

  -- The loop of `xsputn` for the bytes that are left: how many it leaves over.
  unfoldable pub out_rounds : ℕ → StreamBuf → Device W → List ℕ → Option (ℕ × StreamBuf × Device W)
  unfolding sync
  out_rounds zero b d bytes = none
  out_rounds (suc fuel) b d bytes = elim (length bytes == 0) [
    | true ↦ some (0, b, d)
    | false ↦ elim (b.pend_ - b.pnext_ == 0) [
      | true ↦ sync b d >>= λ r. elim r.0 [
        | false ↦ some (length bytes, r.1, r.2)
        | true ↦ out_rounds fuel r.1 r.2 bytes
      ]
      | false ↦
          let ncpy = min (length bytes) (b.pend_ - b.pnext_) in
          store_block b.mem b.pnext_ (take ncpy bytes) >>= λ mem.
          out_rounds fuel (record b { mem = mem; pnext_ = b.pnext_ + ncpy }) d (drop ncpy bytes)
    ]
  ]

  -- `OutDevBinStreamBuf::xsputn`
  unfoldable pub out_xsputn : ℕ → StreamBuf → Device W → List ℕ → Option (ℕ × StreamBuf × Device W)
  unfolding out_rounds
  out_xsputn fuel b d bytes = out_rounds fuel b d bytes >>= λ r. some (length bytes - r.0, r.1, r.2)

  -- `OutDevBinStreamBuf::close` and `open`.
  unfoldable pub close_out : (ℤ → W → W) → StreamBuf → Device W → Option (StreamBuf × Device W)
  unfolding sync
  close_out sys_close b d = elim (is_open d) [
    | false ↦ some (b, d)
    | true ↦ sync b d >>= λ r. some (r.1, record { fd = negsuc 0; sys = sys_close d.fd r.2.sys })
  ]

  unfoldable pub open_out :
      (ℤ → W → W) → (W → ℤ × W) → StreamBuf → Device W → Option (Bool × StreamBuf × Device W)
  unfolding close_out
  open_out sys_close sys_open b d = close_out sys_close b d >>= λ c.
      let r = sys_open c.1.sys in
      let d' : Device W = record { fd = r.0; sys = r.1 } in some (is_open d', c.0, d')
