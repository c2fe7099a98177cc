-- ===== src/BufCodec.antt =====
-- CtrlrFx/BufCodec.h and src/data/BufCodec.cpp: encoders and decoders over a byte buffer, in the
-- byte order of the host (`BinNative…`) and in the other order (`BinSwap…`). `big` says whether
-- the host is big-endian. A value of an integer type of `n` bytes is the number that its bits stand
-- for; a byte is a number below 256. `operator<<` and `operator>>` call `put` and `get`. Floating
-- point values are left out. Counts are below 2 ^ 31, so that the casts to `int` keep them.
pub mod Bytes
pub mod Native
pub mod Packed
pub mod Stream
pub mod Swap
mod Tests
use ctrlr_fx.Prelude.{
  ℕ, zero, suc, ◌+◌, ◌-◌, ◌%◌, ◌^◌, ◌≡◌, min, List, [], ◌∷◌, Option, none, some, ◌>>=◌, Bool, true,
  false, not, ◌==◌, ltb, if◌then◌else◌, replicate,
}
use mathlib.Core.List.{reverse}
use ctrlr_fx.Buffer
use ctrlr_fx.Buffer.{Buffer}
use Bytes.{host_bytes, host_value}

-- `BufCodec`: the buffer and the state.
pub record Codec : Type 0 where
  pub buf_ : Buffer ℕ
  pub good_ : Bool

unfoldable pub init : Buffer ℕ → Codec
init b = record { buf_ = b; good_ = true }

abbrev pub mark : Codec → Codec
mark c = record c { buf_ = Buffer.mark c.buf_ }

abbrev pub reset : Codec → Codec
reset c = record { buf_ = Buffer.reset c.buf_; good_ = true }

abbrev pub rewind : Codec → Codec
rewind c = record { buf_ = Buffer.rewind c.buf_; good_ = true }

abbrev pub clear : Codec → Codec
clear c = record { buf_ = Buffer.clear c.buf_; good_ = true }

-- The size of `cnt_t`, a `uint16_t`.
abbrev pub cnt_size : ℕ
cnt_size = 2

-- `nc`, which the decoder reads into; the call that leaves it unset returns before its use.
count_of : Option ℕ → ℕ
count_of none = 0
count_of (some n) = n

module _ (big : Bool) where
  -- `put(const T& v)` with `sizeof(T)` = `n`, of both encoders: the count, and the encoder.
  pub put : Codec → ℕ → ℕ → Option (ℕ × Codec)
  put c n v =
      if c.good_
      then (Buffer.put_n (Buffer.align c.buf_ n) (host_bytes big n v) n >>= λ r.
          some (r.0, record { buf_ = r.1; good_ = r.0 == n }))
      else some (0, c)

  -- `put(const T arr[], size_t n)` for bytes. The count of the block goes to a second variable
  -- `nx`, so the result is 0 in every case.
  pub put_block : Codec → List ℕ → ℕ → Option (ℕ × Codec)
  put_block c arr n =
      if c.good_
      then (put c cnt_size (n % 2 ^ 16) >>= λ r.
          if r.0 == cnt_size
          then (Buffer.put_n (Buffer.align r.1.buf_ 1) arr n >>= λ s.
              some (0, record { buf_ = s.1; good_ = s.0 == n }))
          else some (0, r.1))
      else some (0, c)

  unfoldable pub put_bool : Codec → Bool → Option (ℕ × Codec)
  put_bool c b = put c 1 (if b then 1 else 0)

  -- `get(T* v)` with `sizeof(T)` = `n`, of both decoders: the count, what is written through the
  -- pointer (`none` for nothing), and the decoder.
  pub get : Codec → ℕ → Option (ℕ × Option ℕ × Codec)
  get c n =
      if c.good_
      then (Buffer.get_n (Buffer.align c.buf_ n) (replicate n 0) n >>= λ r. some (
        r.0,
        (if r.0 == 0 then none else some (host_value big r.1)),
        record { buf_ = r.2; good_ = r.0 == n },
      ))
      else some (0, none, c)

  -- `get(T arr[], size_t n)` for bytes: the count, the caller's array, and the decoder.
  pub get_block : Codec → List ℕ → ℕ → Option (ℕ × List ℕ × Codec)
  unfolding count_of
  get_block c arr count =
      if c.good_
      then (get c cnt_size >>= λ r.
          if r.0 == cnt_size
          then (let n = min count (count_of r.1) in
              Buffer.get_n (Buffer.align r.2.buf_ 1) arr n >>= λ s.
              some (s.0, s.1, record { buf_ = s.2; good_ = s.0 == n }))
          else some (0, arr, r.2))
      else some (0, arr, c)

  -- `get_bool` of the native decoder: the byte is 0 before the read.
  pub get_bool : Codec → Option (ℕ × Bool × Codec)
  get_bool c = get c 1 >>= λ r. some (r.0, elim r.1 [ none ↦ false | some by ↦ not (by == 0) ], r.2)

  -- `buf_.put(b)` for each byte.
  put_all : Buffer ℕ → List ℕ → Option (Buffer ℕ)
  put_all b [] = some b
  put_all b (x ∷ xs) = Buffer.put b x >>= λ b'. put_all b' xs

  -- `put_swap2`, `put_swap4` and `put_swap8`, with `n` the number of bytes: the bytes of the value
  -- from the last to the first. Neither the alignment nor `good_` plays a part.
  pub put_swap : Codec → ℕ → ℕ → Option (ℕ × Codec)
  unfolding put_all
  put_swap c n v =
      if ltb (Buffer.available c.buf_) n
      then some (0, c)
      else (put_all c.buf_ (reverse (host_bytes big n v)) >>= λ b. some (n, record c { buf_ = b }))

  -- `buf_.get(p)` for each of `n` bytes, in the order of the calls; the byte of a call that
  -- returns `false` is left out.
  get_all : Buffer ℕ → ℕ → Option (List ℕ × Buffer ℕ)
  get_all b zero = some ([], b)
  get_all b (suc n) = Buffer.get_next b >>= λ r.
      get_all r.1 n >>= λ s. some (elim r.0 [ none ↦ s.0 | some x ↦ x ∷ s.0 ], s.1)

  -- `get_swap2`, `get_swap4` and `get_swap8`: the first byte that is read is the value's last.
  pub get_swap : Codec → ℕ → Option (ℕ × Option ℕ × Codec)
  unfolding get_all
  get_swap c n =
      if ltb (Buffer.available c.buf_) n
      then some (0, none, c)
      else (get_all c.buf_ n >>= λ r.
          some (n, some (host_value big (reverse r.0)), record c { buf_ = r.1 }))
