-- ===== src/BinStream/Stream.antt =====
-- CtrlrFx/BinStreamBase.h, CtrlrFx/BinStream.h, src/io/BinStream/BinStreamBase.cpp and
-- src/io/BinStream/BinStream.cpp: streams of typed values over a stream buffer. `big` says whether
-- the host is big-endian; a value of an integer type of `n` bytes is the number that its bits stand
-- for. The state is the sum of its bits. Values of floating-point types go out and in as they are,
-- by `write` and `get_block`. `ignore`, `peek` and `readsome` are declared and not defined.
pub mod Endian
pub mod RoundTrip
pub mod ReadBack
use ctrlr_fx.Prelude.{
  ℕ, ◌+◌, ◌-◌, ◌%◌, ◌^◌, List, [], ◌∷◌, ◌++◌, Option, none, some, ◌>>=◌, Bool, true, false, not,
  ◌==◌, ltb, if◌then◌else◌, length, drop, ℤ, pos, replicate,
}
use ctrlr_fx.Memory.{load}
use ctrlr_fx.BufCodec.Bytes.{host_bytes, host_value}
use ctrlr_fx.SwapBytes.{swap_bytes}
use ctrlr_fx.BinStream.StreamBuf.{
  StreamBuf, sbumpc, sgetn, galign, sputc, sputn, palign, sputbackc, sungetc,
}
use ctrlr_fx.BinStream.MemStream.{OpenMode, SeekDir, cur}

abbrev pub goodbit : ℕ
goodbit = 0

abbrev pub eofbit : ℕ
eofbit = 1

abbrev pub failbit : ℕ
failbit = 2

pub data ByteOrder : Type 0 where
  little_endian big_endian : ByteOrder

-- `BinStreamBase`, with what a derived buffer adds to the buffer.
pub record BinStream (D : Type 0) : Type 0 where
  pub state_ : ℕ
  pub buf_ : StreamBuf
  pub ext_ : D
  pub swap_ : Bool
  pub align_ : Bool

module _ (big : Bool) where
  -- Whether the first byte in memory of the 32-bit number 1 is 1.
  abbrev first_is_one : Bool
  first_is_one = elim (load (host_bytes big 4 1) 0) [ none ↦ false | some b ↦ b == 1 ]

  pub host_byte_order : ByteOrder
  unfolding host_bytes
  host_byte_order = if first_is_one then little_endian else big_endian

  pub swapped_byte_order : ByteOrder
  unfolding host_bytes
  swapped_byte_order = if first_is_one then big_endian else little_endian

abbrev same_order : ByteOrder → ByteOrder → Bool
same_order little_endian little_endian = true
same_order big_endian big_endian = true
same_order little_endian big_endian = false
same_order big_endian little_endian = false

module _ {D : Type 0} where
  abbrev pub new_stream : StreamBuf → D → BinStream D
  new_stream buf ext = record {
    state_ = goodbit;
    buf_ = buf;
    ext_ = ext;
    swap_ = false;
    align_ = false;
  }

  -- `byte_order()` and `byte_order(order)`.
  pub byte_order : Bool → BinStream D → ByteOrder
  unfolding host_byte_order swapped_byte_order
  byte_order big s = if s.swap_ then host_byte_order big else swapped_byte_order big

  pub set_byte_order : Bool → BinStream D → ByteOrder → BinStream D
  unfolding swapped_byte_order
  set_byte_order big s order = record s { swap_ = same_order order (swapped_byte_order big) }

  abbrev pub set_align : BinStream D → Bool → BinStream D
  set_align s on = record s { align_ = on }

  -- `fail()`
  abbrev pub fail : BinStream D → Bool
  fail s = not (ltb (s.state_ % 4) 2)

  -- The stream after a call that leaves the buffer as given, in the given state.
  abbrev after : BinStream D → StreamBuf → D → ℕ → BinStream D
  after s buf ext state = record s { state_ = state; buf_ = buf; ext_ = ext }

module _ {D : Type 0} (underflow : StreamBuf → D → Option (Option ℕ × StreamBuf × D)) where
  -- `get()`
  abbrev pub get : BinStream D → Option (Option ℕ × BinStream D)
  get s = sbumpc underflow s.buf_ s.ext_ >>= λ r.
      some (r.0, after s r.1 r.2 (elim r.0 [ none ↦ eofbit + failbit | some c ↦ goodbit ]))

  -- `get(by)`: what `by` is afterwards.
  abbrev pub get_byte : BinStream D → ℕ → Option (ℕ × BinStream D)
  get_byte s by = get s >>= λ r. some (elim r.0 [ none ↦ by | some c ↦ c % 256 ], r.1)

  -- `operator>>(bool&)` and `operator>>(byte&)`, which store the result -1 as well.
  abbrev pub get_bool : BinStream D → Option (Bool × BinStream D)
  get_bool s = get s >>= λ r. some (elim r.0 [ none ↦ false | some c ↦ ltb 0 c ], r.1)

  abbrev pub extract_byte : BinStream D → Option (ℕ × BinStream D)
  extract_byte s = get s >>= λ r. some (elim r.0 [ none ↦ 255 | some c ↦ c % 256 ], r.1)

  -- `get(buf, n)` and `read(buf, n)`: the bytes that are stored from `buf` on.
  unfoldable pub get_block : BinStream D → ℕ → Option (List ℕ × BinStream D)
  get_block s n = sgetn underflow s.buf_ s.ext_ n >>= λ r.
      some (r.0, after s r.1 r.2 (if ltb (length r.0) n then eofbit + failbit else goodbit))

  -- `extract(v)`: the bytes of `v` before the call give the bytes after it.
  unfoldable pub extract : BinStream D → List ℕ → Option (List ℕ × BinStream D)
  extract s v = do
    a ← if s.align_ then galign underflow s.buf_ s.ext_ (length v) else some (s.buf_, s.ext_)
    r ← get_block (after s a.0 a.1 s.state_) (length v)
    let bytes = r.0 ++ drop (length r.0) v
    swapped ← if s.swap_ then swap_bytes bytes else some bytes
    some (swapped, r.1)

  -- `operator>>(ByteBuffer&)`: the length, and the bytes that are stored in the buffer's array. The
  -- length is not compared with the buffer's capacity.
  abbrev pub extract_buffer : Bool → BinStream D → List ℕ → Option (ℕ × List ℕ × BinStream D)
  extract_buffer big s len = do
    l ← extract s len
    let n = host_value big l.0
    r ← get_block l.1 n
    some (n, r.0, r.1)

module _ {D : Type 0} where
  abbrev pub putback : BinStream D → ℕ → Option (BinStream D)
  putback s by = sputbackc s.buf_ by >>= λ r.
      some (after s r.1 s.ext_ (elim r.0 [ none ↦ failbit | some c ↦ goodbit ]))

  abbrev pub unget : BinStream D → Option (BinStream D)
  unget s = sungetc s.buf_ >>= λ r.
      some (after s r.1 s.ext_ (elim r.0 [ none ↦ failbit | some c ↦ goodbit ]))

module _ {D : Type 0} (overflow : ℕ → StreamBuf → D → Option (Option ℕ × StreamBuf × D)) where
  -- `put(by)`; `operator<<` of a `bool` puts 1 or 0.
  abbrev pub put : BinStream D → ℕ → Option (BinStream D)
  put s by = sputc overflow s.buf_ s.ext_ by >>= λ r.
      some (after s r.1 r.2 (elim r.0 [ none ↦ failbit | some c ↦ goodbit ]))

  unfoldable pub write : BinStream D → List ℕ → Option (BinStream D)
  write s bytes = sputn overflow s.buf_ s.ext_ bytes >>= λ r.
      some (after s r.1 r.2 (if ltb r.0 (length bytes) then failbit else goodbit))

  -- `insert(v)` for a value of `n` bytes.
  unfoldable pub insert : Bool → BinStream D → ℕ → ℕ → Option (BinStream D)
  insert big s n v = do
    a ← if s.align_ then palign overflow s.buf_ s.ext_ n else some (s.buf_, s.ext_)
    bytes ← if s.swap_ then swap_bytes (host_bytes big n v) else some (host_bytes big n v)
    write (after s a.0 a.1 s.state_) bytes

  -- `operator<<(const ByteBuffer&)` with `size` and the bytes from `data()` on: the length goes out
  -- as a `uint16_t`.
  abbrev pub insert_buffer : Bool → BinStream D → ℕ → List ℕ → Option (BinStream D)
  insert_buffer big s size data_ = insert big s 2 (size % 2 ^ 16) >>= λ t. write t data_

abbrev input : OpenMode
input = record { in_ = true; out = false }

abbrev output : OpenMode
output = record { in_ = false; out = true }

module _ {D : Type 0} (seekoff : StreamBuf → ℤ → SeekDir → OpenMode → Option ℕ × StreamBuf)
    (seekpos : StreamBuf → ℤ → OpenMode → Option (Option ℕ × StreamBuf)) where
  -- `tellg()` and `tellp()`: the place, `none` for -1, and the stream.
  abbrev pub tellg : BinStream D → Option ℕ × BinStream D
  tellg s =
      if fail s
      then (none, s)
      else (let r = seekoff s.buf_ (pos 0) cur input in (r.0, record s { buf_ = r.1 }))

  abbrev pub tellp : BinStream D → Option ℕ × BinStream D
  tellp s =
      if fail s
      then (none, s)
      else (let r = seekoff s.buf_ (pos 0) cur output in (r.0, record s { buf_ = r.1 }))

  abbrev sought : BinStream D → Option ℕ × StreamBuf → BinStream D
  sought s r = after s r.1 s.ext_ (elim r.0 [ none ↦ failbit | some p ↦ goodbit ])

  -- `seekg(pos)`, `seekg(off, dir)`, `seekp(pos)` and `seekp(off, dir)`.
  abbrev pub seekg : BinStream D → ℤ → Option (BinStream D)
  seekg s p = seekpos s.buf_ p input >>= λ r. some (sought s r)

  abbrev pub seekg_off : BinStream D → ℤ → SeekDir → BinStream D
  seekg_off s off dir = sought s (seekoff s.buf_ off dir input)

  abbrev pub seekp : BinStream D → ℤ → Option (BinStream D)
  seekp s p = seekpos s.buf_ p output >>= λ r. some (sought s r)

  abbrev pub seekp_off : BinStream D → ℤ → SeekDir → BinStream D
  seekp_off s off dir = sought s (seekoff s.buf_ off dir output)
