-- ===== src/BinStream/DevStream/Tests.antt =====
-- Stream buffers over a device that gives all of its input and takes all of its output.
use ctrlr_fx.Prelude.{
  ℕ, ◌+◌, ◌*◌, ◌≤◌, ◌<◌, ◌≡◌, refl, sym, List, [], ◌∷◌, ◌++◌, Option, none, some, some_injective,
  ap, ◌∙◌, ◌⊎◌, length, length-take, length-drop, inl, take, drop, take_all, take-append-drop,
  replicate, ℤ, pos, arith,
}
use ctrlr_fx.Device.Blocks.{Reads, Writes}
use ctrlr_fx.BinStream.StreamBuf.{StreamBuf, new_buf, setp}
use ctrlr_fx.BinStream.MemStream.Areas.{unread, written}
use ctrlr_fx.BinStream.DevStream.{Device, at_fd, in_xsgetn, out_xsputn, close_out}
use ctrlr_fx.BinStream.DevStream.Fill.{IsFed}
use ctrlr_fx.BinStream.DevStream.In.{Failed, Fetched, in_xsgetn_lem}
use ctrlr_fx.BinStream.DevStream.Out.{Taken, sync_lem, out_xsputn_lem, close_out-out_xsputn}
use ctrlr_fx.BinStream.DevStream.Out

abbrev file_read : ℤ → List ℕ → ℕ → Option (List ℕ) × List ℕ
file_read fd w n = (some (take n w), drop n w)

abbrev file_write : ℤ → List ℕ → List ℕ → Option ℕ × List ℕ
file_write fd w block = (some (length block), w ++ block)

abbrev contents : List ℕ → List ℕ
contents w = w

file-Reads : (fd : ℤ) → Reads (file_read fd) contents
file-Reads fd = record {
  limit = λ w n bytes e. omega (arith, length-take n w, ap length (some_injective e));
  next = λ w n bytes e. sym (take-append-drop n w) ∙ ap (λ u. u ++ drop n w) (some_injective e);
  failed = λ w n e. cc;
}

file-Writes : (fd : ℤ) → Writes (file_write fd) contents
file-Writes fd = record {
  limit = λ w bytes k e. omega (arith, some_injective e);
  next = λ w bytes k e. ap (λ u. w ++ u) (sym (take_all k bytes (omega (arith, some_injective e))));
  failed = λ w bytes e. cc;
}

-- Not yet filled, after its constructor.
abbrev unfilled : StreamBuf
unfilled = new_buf (replicate 133 0)

unfilled-IsFed : IsFed 1 unfilled
unfilled-IsFed = omega arith

abbrev three : List ℕ
three = 7 ∷ 8 ∷ 9 ∷ []

file-Ample :
    (w : List ℕ) (bytes : List ℕ)
    → (file_read (pos 3) w 128).0 ≡ some bytes
    → (4 ≤ length bytes) ⊎ (length (file_read (pos 3) w 128).1 ≡ 0)
file-Ample w bytes e =
    omega (arith, length-take 128 w, length-drop 128 w, ap length (some_injective e))

in_xsgetn_lem_example :
    (got : List ℕ) × (b' : StreamBuf) × (w' : List ℕ) × (in_xsgetn 1 file_read
        (2 * 2 + 2)
        unfilled
        (at_fd (pos 3) three)
        2
      ≡ some (got, b', at_fd (pos 3) w'))
    × Fetched 1 file_read contents (pos 3) (file-Reads (pos 3)) unfilled three 2 got b' w'
    × ((length got ≡ 2)
        ⊎ ((unread b' ≡ []) × Failed 1 file_read contents (pos 3) (file-Reads (pos 3)) w'))
in_xsgetn_lem_example =
    in_xsgetn_lem 1 file_read contents (pos 3) (file-Reads (pos 3)) file-Ample unfilled three 2
      unfilled-IsFed (inl (inl refl)) (omega arith)

abbrev ready : StreamBuf
ready = setp unfilled 1 5

file-Whole :
    (w : List ℕ) (block : List ℕ) (n : ℕ)
    → (file_write (pos 3) w block).0 ≡ some n
    → n ≡ length block
file-Whole w block n e = sym (some_injective e)

close_out-out_xsputn_example :
    (r : ℕ × StreamBuf × Device (List ℕ)) × (c : StreamBuf × Device (List ℕ)) × (out_xsputn
        file_write
        (2 * length three + 2)
        ready
        (at_fd (pos 3) [])
        three
      ≡ some r)
    × (close_out file_write (λ fd w. w) r.1 r.2 ≡ some c)
    × (r.2.sys ++ written r.1 ≡ ([] ++ written ready) ++ take r.0 three)
    × (((r.0 ≡ length three) × (c.1.sys ≡ ([] ++ written ready) ++ three))
        ⊎ ((r.0 < length three)
            × Out.Failed file_write contents (pos 3) (file-Writes (pos 3)) r.1 r.2.sys)
        ⊎ ((file_write (pos 3) r.2.sys (written r.1)).0 ≡ none))
close_out-out_xsputn_example =
    close_out-out_xsputn file_write contents (pos 3) (file-Writes (pos 3)) file-Whole (λ fd w. w)
      (λ w. refl) ready [] three (omega arith) (omega arith) (omega arith) refl
