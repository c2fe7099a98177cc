-- ===== src/BinStream/DevStream/Out.antt =====
-- src/io/BinStream/DevBinStream.cpp: what an output stream buffer sends to its device.
use ctrlr_fx.Prelude.{
  ℕ, zero, suc, ◌+◌, ◌-◌, ◌*◌, ◌≤◌, ◌<◌, ◌≡◌, refl, sym, ap, subst, ◌∙◌, min, List, ◌++◌, Option,
  none, some, inl, inr, ◌⊎◌, length, take, drop, take-take, take_all, take_add, append-nil,
  append_assoc, length-take, length-drop, Bool, true, false, ◌==◌, Bool-cases, Option-cases, arith,
  ℤ, negsuc, to_int_lem,
}
use ctrlr_fx.Memory.{load_block, store_block}
use ctrlr_fx.Device.Blocks.{Writes}
use ctrlr_fx.BinStream.StreamBuf.{StreamBuf}
use ctrlr_fx.BinStream.DevStream.{
  Device, at_fd, out_buf_size, is_open, sync, out_rounds, out_xsputn, close_out,
}
use ctrlr_fx.BinStream.MemStream.Areas.{
  IsWritable, written, room, between, put_at, length-put_at, between-put_at,
}

written_less :
    (b : StreamBuf) (n : ℕ)
    → IsWritable b
    → written (record b { pnext_ = b.pnext_ - n }) ≡ take (length (written b) - n) (written b)
written_less b n v =
    let size : length (written b) ≡ b.pnext_ - b.pbegin_ = omega (
      arith,
      length-take (b.pnext_ - b.pbegin_) (drop b.pbegin_ b.mem),
      length-drop b.pbegin_ b.mem,
      v,
    ) in
    ap (λ m. take m (drop b.pbegin_ b.mem)) (omega (arith, size))
    ∙ sym (
        take-take (length (written b) - n) (b.pnext_ - b.pbegin_) (drop b.pbegin_ b.mem)
          (omega (arith, size)))

-- What a call of xsputn with some bytes does, where it leaves some over: the rest is buffered or
-- out, in order, behind what was.
pub record Taken {W : Type 0} (output : W → List ℕ) (b : StreamBuf) (w : W) (bytes : List ℕ)
    (left : ℕ) (b' : StreamBuf) (w' : W) : Type 0 where
  pub valid : IsWritable b'
  pub same_begin : b'.pbegin_ ≡ b.pbegin_
  pub same_end : b'.pend_ ≡ b.pend_
  pub most : left ≤ length bytes
  pub order : output w' ++ written b' ≡ (output w ++ written b) ++ take (length bytes - left) bytes

-- The area is no larger than the buffer of the class.
abbrev pub IsSmall : StreamBuf → Type 0
IsSmall b = b.pend_ ≤ b.pbegin_ + out_buf_size

module _ {W : Type 0} (sys_write : ℤ → W → List ℕ → Option ℕ × W) (output : W → List ℕ) (fd : ℤ)
    (law : Writes (sys_write fd) output) where
  -- sync of a valid stream buffer offers the device what is written in it, and ends without a
  -- fault. Where the device takes n bytes, the first n are out, in order, and the buffer then
  -- holds what is written in it but for the last n; where the call fails, nothing changes.
  pub sync_lem :
      (b : StreamBuf) (w : W)
      → IsWritable b
      → IsSmall b
      → (n : ℕ) × (w' : W) × (ok : Bool) × (sync sys_write b (at_fd fd w)
          ≡ some (ok, record b { pnext_ = b.pnext_ - n }, at_fd fd w'))
        × (n ≤ length (written b))
        × (output w' ≡ output w ++ take n (written b))
        × (written (record b { pnext_ = b.pnext_ - n }) ≡ take (length (written b) - n) (written b))
        × (w' ≡ (sys_write fd w (written b)).1)
        × (((ok ≡ true) × ((sys_write fd w (written b)).0 ≡ some n))
            ⊎ ((ok ≡ false) × ((sys_write fd w (written b)).0 ≡ none) × (n ≡ 0)))
  unfolding sync load_block
  sync_lem b w v small =
      let size : length (written b) ≡ b.pnext_ - b.pbegin_ = omega (
        arith,
        length-take (b.pnext_ - b.pbegin_) (drop b.pbegin_ b.mem),
        length-drop b.pbegin_ b.mem,
        v,
      ) in
      let cast = to_int_lem (b.pnext_ - b.pbegin_) (omega (arith, v, small)) in
      elim (Option-cases (sys_write fd w (written b)).0) [
        | inl bad ↦ (
          0,
          (sys_write fd w (written b)).1,
          false,
          ground (arith, v, bad, cast),
          omega arith,
          law.failed w (written b) bad ∙ sym (append-nil (output w)),
          written_less b 0 v,
          refl,
          inr (refl, bad, refl),
        )
        | inr (n, e) ↦ (
          n,
          (sys_write fd w (written b)).1,
          true,
          ground (
            arith,
            v,
            e,
            cast,
            to_int_lem n (omega (arith, law.limit w (written b) n e, size, v, small)),
          ),
          law.limit w (written b) n e,
          law.next w (written b) n e,
          written_less b n v,
          refl,
          inl (refl, e),
        )
      ]

  -- A device that takes all of a block, or fails.
  abbrev pub Whole : Type 0
  Whole = (w : W) (block : List ℕ) (n : ℕ) → (sys_write fd w block).0 ≡ some n → n ≡ length block

  -- The device refused what is still in the buffer, and is in the state in which that call left it.
  abbrev pub Failed : StreamBuf → W → Type 0
  Failed b' w' =
      (v : W) × ((sys_write fd v (written b')).0 ≡ none) × (w' ≡ (sys_write fd v (written b')).1)

  emptied :
      (b : StreamBuf) (n : ℕ) → IsWritable b → n ≡ length (written b) → b.pnext_ - n ≡ b.pbegin_
  emptied b n v e = omega (
    arith,
    e,
    length-take (b.pnext_ - b.pbegin_) (drop b.pbegin_ b.mem),
    length-drop b.pbegin_ b.mem,
    v,
  )

  -- After a sync that went well all is out and the area is empty.
  synced :
      (b : StreamBuf) (w w' : W) (n : ℕ)
      → IsWritable b
      → n ≡ length (written b)
      → output w' ≡ output w ++ take n (written b)
      → output w' ++ written (record b { pnext_ = b.pnext_ - n }) ≡ output w ++ written b
  synced b w w' n v e out =
      ap (λ t. output w' ++ t)
        (written_less b n v ∙ ap (λ m. take m (written b)) {y = 0} (omega (arith, e)))
      ∙ append-nil (output w')
      ∙ out
      ∙ ap (λ t. output w ++ t) (take_all n (written b) (omega (arith, e)))

  Taken-none :
      (b : StreamBuf) (w : W) (bytes : List ℕ)
      → IsWritable b
      → Taken output b w bytes (length bytes) b w
  Taken-none b w bytes v = record {
    valid = v;
    same_begin = refl;
    same_end = refl;
    most = omega arith;
    order = sym (
        ap (λ m. (output w ++ written b) ++ take m bytes) {y = 0} (omega arith)
        ∙ append-nil (output w ++ written b));
  }

  failed_sync :
      (b : StreamBuf) (w w' : W) (n : ℕ) (bytes : List ℕ)
      → IsWritable b
      → n ≡ 0
      → output w' ≡ output w ++ take n (written b)
      → output w' ++ written (record b { pnext_ = b.pnext_ - n })
        ≡ (output w ++ written b) ++ take 0 bytes
  failed_sync b w w' n bytes v z out =
      ap (λ m. output w' ++ between b.mem b.pbegin_ m) (omega (arith, z))
      ∙ ap (λ u. u ++ written b)
          (out ∙ ap (λ m. output w ++ take m (written b)) z ∙ append-nil (output w))
      ∙ sym (append-nil (output w ++ written b))

  Taken-more :
      (b b1 b' : StreamBuf) (w w1 w' : W) (bytes : List ℕ) (k left : ℕ)
      → k ≤ length bytes
      → b1.pbegin_ ≡ b.pbegin_
      → b1.pend_ ≡ b.pend_
      → output w1 ++ written b1 ≡ (output w ++ written b) ++ take k bytes
      → Taken output b1 w1 (drop k bytes) left b' w'
      → Taken output b w bytes left b' w'
  Taken-more b b1 b' w w1 w' bytes k left h pb pe e t = record {
    valid = t.valid;
    same_begin = t.same_begin ∙ pb;
    same_end = t.same_end ∙ pe;
    most = omega (arith, t.most, length-drop k bytes);
    order =
        let m = length (drop k bytes) - left in
        t.order
        ∙ ap (λ u. u ++ take m (drop k bytes)) e
        ∙ append_assoc (output w ++ written b) (take k bytes) (take m (drop k bytes))
        ∙ ap (λ u. (output w ++ written b) ++ u) (sym (take_add k m bytes))
        ∙ ap (λ j. (output w ++ written b) ++ take j bytes)
            (omega (arith, h, t.most, length-drop k bytes));
  }

  -- A block that fits is put behind what is written.
  put_block :
      (b : StreamBuf) (block : List ℕ) (k : ℕ)
      → IsWritable b
      → k ≡ length block
      → k ≤ room b
      → IsWritable (record b { mem = put_at b.mem b.pnext_ block; pnext_ = b.pnext_ + k })
        × (written (record b { mem = put_at b.mem b.pnext_ block; pnext_ = b.pnext_ + k })
            ≡ written b ++ block)
  put_block b block k v e h = (
    omega (arith, v, e, length-put_at b.mem b.pnext_ block (omega (arith, e, v))),
    between-put_at b.mem b.pbegin_ b.pnext_ (b.pnext_ + k) block v.begun (omega (arith, v))
        (omega (arith, e)),
  )

  rounds_lem :
      Whole
      → (fuel : ℕ) (b : StreamBuf) (w : W) (bytes : List ℕ) → IsWritable b
      → IsSmall b
      → b.pbegin_ < b.pend_
      → 2 * length bytes + 2 - min 1 (room b) ≤ fuel
      → (left : ℕ) × (b' : StreamBuf) × (w' : W) × (out_rounds sys_write fuel b (at_fd fd w) bytes
          ≡ some (left, b', at_fd fd w'))
        × Taken output b w bytes left b' w'
        × ((left ≡ 0) ⊎ ((0 < left) × Failed b' w'))
  unfolding out_rounds store_block
  rounds_lem whole zero b w bytes v small h enough = absurd (omega arith)
  rounds_lem whole (suc fuel) b w bytes v small h enough = elim (Bool-cases (length bytes == 0)) [
    | inl done ↦ (
      0,
      b,
      w,
      ground (arith, done),
      subst (λ n. Taken output b w bytes n b w) (ground (arith, done)) (Taken-none b w bytes v),
      inl refl,
    )
    | inr todo ↦ elim (Bool-cases (b.pend_ - b.pnext_ == 0)) [
      | inl full ↦
          let (n, w1, ok, run, most, out, _, last, why) = sync_lem b w v small in
          elim why [
            | inr (bad, e, z) ↦
                let same : written b ≡ written (record b { pnext_ = b.pnext_ - n }) =
                  ap (λ m. between b.mem b.pbegin_ m) (omega (arith, z)) in
                (
                  length bytes,
                  record b { pnext_ = b.pnext_ - n },
                  w1,
                  ground (arith, todo, full, run, bad),
                  Taken-more b (record b { pnext_ = b.pnext_ - n })
                      (record b { pnext_ = b.pnext_ - n }) w w1 w1 bytes 0 (length bytes)
                      (omega arith) refl refl (failed_sync b w w1 n bytes v z out)
                      (Taken-none (record b { pnext_ = b.pnext_ - n }) w1 bytes
                        (omega (arith, v, z))),
                  inr (
                    ground (arith, todo),
                    subst
                        (λ u. (v : W) × ((sys_write fd v u).0 ≡ none) × (w1 ≡ (sys_write fd v u).1))
                        same (w, e, last),
                  ),
                )
            | inl (good, e) ↦
                let b1 : StreamBuf = record b { pnext_ = b.pnext_ - n } in
                let all = whole w (written b) n e in
                let (left, b', w', runs, t, ends) =
                  rounds_lem whole fuel b1 w1 bytes (omega (arith, v, emptied b n v all)) small
                    (omega arith) (ground (arith, full, emptied b n v all)) in
                (
                  left,
                  b',
                  w',
                  ground (arith, todo, full, run, good, runs),
                  Taken-more b b1 b' w w1 w' bytes 0 left (omega arith) refl refl
                      (synced b w w1 n v all out ∙ sym (append-nil (output w ++ written b))) t,
                  ends,
                )
          ]
      | inr free ↦
          let k = min (length bytes) (room b) in
          let size : k ≡ length (take k bytes) = omega (arith, length-take k bytes) in
          let put = put_block b (take k bytes) k v size (omega arith) in
          let b1 : StreamBuf = record b {
            mem = put_at b.mem b.pnext_ (take k bytes);
            pnext_ = b.pnext_ + k;
          } in
          let (left, b', w', runs, t, ends) =
            rounds_lem whole fuel b1 w (drop k bytes) put.0 small h
              (ground (arith, todo, free, length-drop k bytes)) in
          (
            left,
            b',
            w',
            ground (arith, todo, free, v, size, runs),
            Taken-more b b1 b' w w w' bytes k left (omega arith) refl refl
                (ap (λ u. output w ++ u) put.1
                  ∙ sym (append_assoc (output w) (written b) (take k bytes)))
                t,
            ends,
          )
    ]
  ]

  pub out_xsputn_lem :
      Whole
      → (b : StreamBuf) (w : W) (bytes : List ℕ) → IsWritable b
      → IsSmall b
      → b.pbegin_ < b.pend_
      → (left : ℕ) × (b' : StreamBuf) × (w' : W) × (out_xsputn sys_write
            (2 * length bytes + 2)
            b
            (at_fd fd w)
            bytes
          ≡ some (length bytes - left, b', at_fd fd w'))
        × Taken output b w bytes left b' w'
        × ((left ≡ 0) ⊎ ((0 < left) × Failed b' w'))
  unfolding out_xsputn
  out_xsputn_lem whole b w bytes v small h =
      let (left, b', w', run, t, ends) =
        rounds_lem whole (2 * length bytes + 2) b w bytes v small h (omega arith) in
      (left, b', w', ground (arith, run), t, ends)

  -- Over a device that takes a whole block or fails, whose close writes nothing: xsputn of a block
  -- into a valid stream buffer with an area of at most 512 bytes, and a close after it, end
  -- without a fault. After xsputn, what is out and what is in the buffer are what was there before
  -- and the bytes that it returns the number of, in order. After the close all of it is out; or
  -- xsputn returned fewer bytes because its last call of the device failed, with what is still in
  -- the buffer; or the call of the device in close failed.
  pub close_out-out_xsputn :
      Whole
      → (sys_close : ℤ → W → W) → ((w : W) → output (sys_close fd w) ≡ output w)
      → (b : StreamBuf) (w : W) (bytes : List ℕ) → IsWritable b
      → IsSmall b
      → b.pbegin_ < b.pend_
      → is_open (at_fd fd w) ≡ true
      → (r : ℕ × StreamBuf × Device W) × (c : StreamBuf × Device W) × (out_xsputn sys_write
            (2 * length bytes + 2)
            b
            (at_fd fd w)
            bytes
          ≡ some r)
        × (close_out sys_write sys_close r.1 r.2 ≡ some c)
        × (output r.2.sys ++ written r.1 ≡ (output w ++ written b) ++ take r.0 bytes)
        × (((r.0 ≡ length bytes) × (output c.1.sys ≡ (output w ++ written b) ++ bytes))
            ⊎ ((r.0 < length bytes) × Failed r.1 r.2.sys)
            ⊎ ((sys_write fd r.2.sys (written r.1)).0 ≡ none))
  unfolding close_out
  close_out-out_xsputn whole sys_close shut b w bytes v small h o =
      let (left, b', w', run, t, ends) = out_xsputn_lem whole b w bytes v small h in
      let (n, w1, ok, flush, most, out, _, _, why) =
        sync_lem b' w' t.valid (omega (arith, small, t.same_begin, t.same_end)) in
      (
        (length bytes - left, b', at_fd fd w'),
        (record b' { pnext_ = b'.pnext_ - n }, record { fd = negsuc 0; sys = sys_close fd w1 }),
        run,
        ground (arith, o, flush),
        t.order,
        elim ends [
          | inr (some_, f) ↦ inr (inl (omega (arith, some_, t.most), f))
          | inl z ↦ elim why [
            | inr (_, bad, _) ↦ inr (inr bad)
            | inl (_, good) ↦ inl (
              omega (arith, z),
              shut w1
                  ∙ out
                  ∙ ap (λ u. output w' ++ u)
                      (take_all n (written b') (omega (arith, whole w' (written b') n good)))
                  ∙ t.order
                  ∙ ap (λ u. (output w ++ written b) ++ u)
                      (take_all (length bytes - left) bytes (omega (arith, z))),
            )
          ]
        ],
      )
