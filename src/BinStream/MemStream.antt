-- ===== src/BinStream/MemStream.antt =====
-- CtrlrFx/MemBinStream.h and src/io/BinStream/MemBinStream.cpp: a stream buffer over one block of
-- memory, which is all of the stream. `underflow` and `overflow` are those of the base class. An
-- open mode is two bits; a `seekdir` may have a value that the `switch` does not name. A `long` is an
-- integer; `int(off)` is `as_int`. A pointer that would lie before address 0 is a fault, `none`.
pub mod Areas
pub mod Transfers
pub mod Extend
pub mod Seek
use ctrlr_fx.Prelude.{
  ℕ, ◌+◌, ◌-◌, ◌%◌, ◌^◌, Option, none, some, ◌>>=◌, Bool, true, false, not, ◌&&◌, ltb,
  if◌then◌else◌, ℤ, pos, negsuc, pos_part, ◌+ℤ◌, ◌-ℤ◌, less,
}
use ctrlr_fx.BinStream.StreamBuf.{StreamBuf, setg, setp}

-- The base class's `underflow()` and `overflow(c)`.
abbrev pub underflow : StreamBuf → Unit {0} → Option (Option ℕ × StreamBuf × Unit {0})
underflow b d = some (none, b, d)

abbrev pub overflow : ℕ → StreamBuf → Unit {0} → Option (Option ℕ × StreamBuf × Unit {0})
overflow c b d = some (none, b, d)

pub record OpenMode : Type 0 where
  pub in_ : Bool
  pub out : Bool

pub data SeekDir : Type 0 where
  beg cur end_ other : SeekDir

abbrev pub setbuf : StreamBuf → ℕ → ℕ → StreamBuf
setbuf b p n = setp (setg b p p (p + n)) p (p + n)

unfoldable pub reset : StreamBuf → OpenMode → StreamBuf
reset b mode =
    let g = if mode.in_ then record b { gnext_ = b.gbegin_ } else b in
    if mode.out then record g { pnext_ = b.pbegin_ } else g

-- A `long` as an `int`: the low 32 bits.
pub as_int : ℤ → ℤ
as_int (pos n) = let m = n % 2 ^ 32 in if ltb m (2 ^ 31) then pos m else negsuc (2 ^ 32 - 1 - m)
as_int (negsuc n) = let m = n % 2 ^ 32 in if ltb m (2 ^ 31) then negsuc m else pos (2 ^ 32 - 1 - m)

-- The pointer that `off` and `dir` stand for, in an area.
abbrev target : ℤ → SeekDir → ℕ → ℕ → ℕ → ℤ
target off beg first next end = pos first +ℤ off
target off cur first next end = pos next +ℤ off
target off end_ first next end = pos end +ℤ off
target off other first next end = pos 0

-- The place of a target in the area and the pointer there, or `none` for a target outside.
abbrev place : ℤ → ℕ → ℕ → Option (ℕ × ℕ)
place p first end =
    if not (less p (pos first)) && not (less (pos end) p)
    then some (pos_part p - first, pos_part p)
    else none

abbrev move_get : StreamBuf → ℤ → SeekDir → Option ℕ × StreamBuf
move_get b off dir =
    elim (place (target (as_int off) dir b.gbegin_ b.gnext_ b.gend_) b.gbegin_ b.gend_) [
      | none ↦ (none, b)
      | some r ↦ (some r.0, record b { gnext_ = r.1 })
    ]

abbrev move_put : StreamBuf → ℤ → SeekDir → Option ℕ × StreamBuf
move_put b off dir =
    elim (place (target (as_int off) dir b.pbegin_ b.pnext_ b.pend_) b.pbegin_ b.pend_) [
      | none ↦ (none, b)
      | some r ↦ (some r.0, record b { pnext_ = r.1 })
    ]

-- Where both areas move, the result is that of the put area.
pub seekoff : StreamBuf → ℤ → SeekDir → OpenMode → Option ℕ × StreamBuf
unfolding as_int
seekoff b off dir mode =
    let r = if mode.in_ then move_get b off dir else (none, b) in
    if mode.out then move_put r.1 off dir else r

-- `next + int(p + (first - next))`, where `gbump` and `pbump` put the pointer.
abbrev bumped : ℤ → ℕ → ℕ → Option ℕ
bumped p first next =
    let q = pos next +ℤ as_int (p +ℤ (pos first -ℤ pos next)) in
    if less q (pos 0) then none else some (pos_part q)

-- `posMax` is 2 ^ 32 - 1. The end of the area plays no part.
pub seekpos : StreamBuf → ℤ → OpenMode → Option (Option ℕ × StreamBuf)
unfolding as_int
seekpos b p mode =
    if not (less p (pos 0)) && not (less (pos (2 ^ 32 - 1)) p)
    then (do
      g ←
          if mode.in_
          then (bumped p b.gbegin_ b.gnext_ >>= λ q. some (record b { gnext_ = q }))
          else some b
      h ←
          if mode.out
          then (bumped p b.pbegin_ b.pnext_ >>= λ q. some (record g { pnext_ = q }))
          else some g
      some (
        (if mode.in_ then some (pos_part p) else if mode.out then some (pos_part p) else none),
        h,
      ))
    else some (none, b)
