-- ===== src/BinStream/MemStream/Seek.antt =====
-- src/io/BinStream/MemBinStream.cpp: positions in a memory stream.
use ctrlr_fx.Prelude.{
  ℕ, ◌+◌, ◌-◌, ◌^◌, ◌≤◌, ◌<◌, ◌≡◌, none, some, true, false, leb, ◌&&◌, if◌then◌else◌, ℤ, pos,
  negsuc, pos_part, neg_part, difference, ◌+ℤ◌, ◌-ℤ◌, arith,
}
use ctrlr_fx.BinStream.StreamBuf.{StreamBuf}
use ctrlr_fx.BinStream.MemStream.{OpenMode, cur, as_int, seekoff, seekpos}
use ctrlr_fx.BinStream.MemStream.Areas.{IsReadable}

abbrev pub input : OpenMode
input = record { in_ = true; out = false }

-- An integer that an `int` can hold is kept.
as_int_lem : (a : ℤ) → pos_part a < 2 ^ 31 → neg_part a ≤ 2 ^ 31 → as_int a ≡ a
unfolding as_int
as_int_lem (pos n) h k = ground arith
as_int_lem (negsuc n) h k = ground arith

jump : (k g next : ℕ) → pos k +ℤ (pos g -ℤ pos next) ≡ difference (k + g) next
unfolding ◌+ℤ◌ ◌-ℤ◌
jump k g next = ground arith

seekpos_lem :
    (b : StreamBuf) (k : ℕ)
    → IsReadable b
    → b.gnext_ < 2 ^ 31
    → b.gbegin_ + k < 2 ^ 31
    → seekpos b (pos k) input ≡ some (some k, record b { gnext_ = b.gbegin_ + k })
unfolding seekpos ◌+ℤ◌
seekpos_lem b k w h l = ground (
  arith,
  jump k b.gbegin_ b.gnext_,
  as_int_lem (difference (k + b.gbegin_) b.gnext_) (ground arith) (ground arith),
)

tell_lem :
    (b : StreamBuf)
    → seekoff b (pos 0) cur input ≡ (
        if leb b.gbegin_ b.gnext_ && leb b.gnext_ b.gend_
        then (some (b.gnext_ - b.gbegin_), b)
        else (none, b))
unfolding seekoff as_int ◌+ℤ◌
tell_lem b = ground arith

-- A seek of the get area of a memory stream to place k succeeds, also beyond the end of the area,
-- where addresses fit an int. The place is then told as k if it lies in the area, and as an error
-- if not.
pub seekoff-seekpos :
    (b : StreamBuf) (k : ℕ)
    → IsReadable b
    → b.gnext_ < 2 ^ 31
    → b.gbegin_ + k < 2 ^ 31
    → (b' : StreamBuf) × (seekpos b (pos k) input ≡ some (some k, b'))
      × (seekoff b' (pos 0) cur input
          ≡ (if leb k (b.gend_ - b.gbegin_) then (some k, b') else (none, b')))
seekoff-seekpos b k w h l =
    let b' : StreamBuf = record b { gnext_ = b.gbegin_ + k } in
    (b', seekpos_lem b k w h l, ground (arith, tell_lem b', w.begun, w.within))
