-- ===== src/BinStream/Tests.antt =====
-- Runs of the streams on small memories.
use ctrlr_fx.Prelude.{ℕ, ◌≡◌, ◌≤◌, refl, List, [], ◌∷◌, some, none, true, false, length, arith}
use ctrlr_fx.BufCodec.Stream.{Item}
use ctrlr_fx.BufCodec.Bytes.{host_bytes, bytes_le}
use ctrlr_fx.BinStream.StreamBuf.{StreamBuf, new_buf, sputbackc, sungetc, sgetc, snextc}
use ctrlr_fx.BinStream.MemStream.{underflow, setbuf, reset}
use ctrlr_fx.BinStream.MemStream.Seek.{input}
use ctrlr_fx.BinStream.Stream.{BinStream, goodbit}
use ctrlr_fx.BinStream.Stream.RoundTrip.{serial, insert_all}
use ctrlr_fx.BinStream.Stream.ReadBack.{extract_all, values, mem_stream, extract_all-insert_all}

abbrev five : StreamBuf
five = setbuf (new_buf (0 ∷ 10 ∷ 11 ∷ 12 ∷ 13 ∷ 14 ∷ [])) 1 5

-- The byte that was read is put back, and the next one is there after it.
put_back : sputbackc (record five { gnext_ = 2 }) 10 ≡ some (some 10, record five { gnext_ = 1 })
unfolding sputbackc
put_back = refl

unget_first : sungetc five ≡ some (none, five)
unfolding sungetc
unget_first = refl

next_byte : snextc underflow five tt ≡ some (some 11, record five { gnext_ = 2 }, tt)
unfolding snextc sgetc
next_byte = refl

rewound : reset (record five { gnext_ = 4; pnext_ = 3 }) input ≡ record five { pnext_ = 3 }
unfolding reset
rewound = refl

abbrev items : List Item
items =
    record { size = 2; value = 513; some_size = omega arith; fits = omega arith }
    ∷ record { size = 4; value = 70000; some_size = omega arith; fits = omega arith }
    ∷ []

items_fit : length (serial false true true 0 items) ≤ 9
unfolding host_bytes bytes_le
items_fit = omega arith

abbrev zeros : List ℕ
zeros = 0 ∷ 0 ∷ 0 ∷ 0 ∷ 0 ∷ 0 ∷ 0 ∷ 0 ∷ 0 ∷ 0 ∷ []

extract_all-insert_all_example :
    (t u : BinStream (Unit {0})) × (insert_all false (mem_stream zeros 1 9 true true) items
      ≡ some t)
    × (t.state_ ≡ goodbit)
    × (extract_all false (mem_stream t.buf_.mem 1 9 true true) items ≡ some (values items, u))
    × (u.state_ ≡ goodbit)
extract_all-insert_all_example =
    extract_all-insert_all false zeros 1 9 true true items (omega arith) (omega arith) items_fit
