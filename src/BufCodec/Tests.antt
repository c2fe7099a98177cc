-- ===== src/BufCodec/Tests.antt =====
-- Runs of CtrlrFx/BufCodec.h on small buffers, and instances of its theorems.
use ctrlr_fx.Prelude.{ℕ, ◌≡◌, refl, List, [], ◌∷◌, some, true, false, replicate, arith}
use ctrlr_fx.Memory.{store, copy_elem}
use ctrlr_fx.Buffer
use ctrlr_fx.Buffer.{Buffer}
use ctrlr_fx.BufCodec.{Codec, init, clear, put, get, put_block}
use ctrlr_fx.BufCodec.Bytes.{host_bytes, host_value}
use ctrlr_fx.BufCodec.Native.{IsValid}
use ctrlr_fx.BufCodec.Stream.{Item, encode, encode-some, decode, decode-encode, values}

abbrev zeros : ℕ → Buffer ℕ
zeros n = record { buf = replicate n 0; pos = 0; lim = n; end_ = n; mark_ = 0; own = true }

zeros-IsValid : IsValid (zeros 8)
zeros-IsValid = omega arith

-- A byte, and a 16-bit value that is stored at the next even offset.
abbrev items : List Item
items =
    record { size = 1; value = 7; some_size = omega arith; fits = omega arith }
    ∷ record { size = 2; value = 258; some_size = omega arith; fits = omega arith }
    ∷ []

abbrev encoded : Codec
encoded = record {
  buf_ = record (zeros 8) { buf = 7 ∷ 0 ∷ 2 ∷ 1 ∷ 0 ∷ 0 ∷ 0 ∷ 0 ∷ []; pos = 4 };
  good_ = true;
}

encode_items : encode false (clear (init (zeros 8))) items ≡ some encoded
unfolding encode init put host_bytes Buffer.put_n copy_elem store
encode_items = refl

decode_items :
    decode false (init (Buffer.flip encoded.buf_)) items
    ≡ some (
      some 7 ∷ some 258 ∷ [],
      record { buf_ = record (Buffer.flip encoded.buf_) { pos = 4 }; good_ = true },
    )
unfolding decode init get host_value Buffer.get_n copy_elem store
decode_items = refl

encode-some_example : (c : Codec) × (encode false (clear (init (zeros 8))) items ≡ some c)
encode-some_example = encode-some false (zeros 8) items zeros-IsValid

decode-encode_example :
    (d : Codec) × (decode false (init (Buffer.flip encoded.buf_)) items
      ≡ some (values false items, d))
    × (d.good_ ≡ true)
    × (Buffer.available d.buf_ ≡ 0)
decode-encode_example = decode-encode false (zeros 8) items zeros-IsValid encode_items refl

put_block_stores_and_returns_zero :
    put_block false (init (zeros 8)) (9 ∷ 5 ∷ []) 2
    ≡ some (
      0,
      record {
        buf_ = record (zeros 8) { buf = 2 ∷ 0 ∷ 9 ∷ 5 ∷ 0 ∷ 0 ∷ 0 ∷ 0 ∷ []; pos = 4 };
        good_ = true;
      },
    )
unfolding put_block init put host_bytes Buffer.put_n copy_elem store
put_block_stores_and_returns_zero = refl

-- 1, 2 are the bytes of 258 on a big-endian host.
abbrev swapped : Codec
swapped = record { buf_ = record (zeros 2) { buf = 1 ∷ 2 ∷ [] }; good_ = true }
