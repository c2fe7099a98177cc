-- ===== src/BinStream/DevStream/In.antt =====
-- src/io/BinStream/DevBinStream.cpp: what an input stream buffer reads from its device.
use ctrlr_fx.Prelude.{
  ℕ, zero, suc, ◌+◌, ◌-◌, ◌*◌, ◌≤◌, ◌<◌, ◌≡◌, refl, sym, ap, subst, ◌∙◌, min, List, [], ◌++◌,
  Option, none, some, inl, inr, ◌⊎◌, length, take, drop, take_add, append_assoc, length-take,
  length-drop, length-append, get_elem?-some, true, false, ◌==◌, Bool-cases, arith, ℤ, pos_part,
  drop_add,
}
use ctrlr_fx.Memory.{load_block}
use ctrlr_fx.Device.Blocks.{Reads}
use ctrlr_fx.BinStream.StreamBuf.{StreamBuf, in_avail}
use ctrlr_fx.BinStream.DevStream.{Device, at_fd, underflow, in_rounds, in_xsgetn}
use ctrlr_fx.BinStream.MemStream.Areas.{unread}
use ctrlr_fx.BinStream.DevStream.Fill.{IsFed, IsApart, length-between, avail_lem, fill_buf_lem}

module _ {W : Type 0} (base : ℕ) (sys_read : ℤ → W → ℕ → Option (List ℕ) × W) (input : W → List ℕ)
    (fd : ℤ) (law : Reads (sys_read fd) input) where
  -- The device is in the state in which a failed call left it.
  abbrev pub Failed : W → Type 0
  Failed w' = (v : W) × ((sys_read fd v 128).0 ≡ none) × (w' ≡ (sys_read fd v 128).1)

  -- A device that gives at least four bytes until it gives its last ones.
  abbrev pub Ample : Type 0
  Ample =
      (w : W) (bytes : List ℕ)
      → (sys_read fd w 128).0 ≡ some bytes
      → (4 ≤ length bytes) ⊎ (length (input (sys_read fd w 128).1) ≡ 0)

  -- At its end the area can be filled again, or there is nothing more.
  abbrev pub IsSpaced : StreamBuf → W → Type 0
  IsSpaced b w = IsApart base (record b { gnext_ = b.gend_ }) ⊎ (length (input w) ≡ 0)

  -- At the end of the area, with more to come: the area is filled, or the call failed.
  refill_lem :
      Ample
      → (b : StreamBuf) (w : W) → IsFed base b
      → IsSpaced b w
      → b.gnext_ ≡ b.gend_
      → 0 < length (input w)
      → (b' : StreamBuf) × (w' : W) × IsFed base b'
        × (input w ≡ unread b' ++ input w')
        × (((c : ℕ) × (underflow base sys_read b (at_fd fd w) ≡ some (some c, b', at_fd fd w'))
              × (b'.gnext_ < b'.gend_)
              × IsSpaced b' w')
            ⊎ ((underflow base sys_read b (at_fd fd w) ≡ some (none, b', at_fd fd w'))
                × (unread b' ≡ [])
                × Failed w'))
  unfolding underflow
  refill_lem ample b w v apart stop more =
      let far : IsApart base b = elim apart [
        | inl h ↦ omega (arith, h, stop)
        | inr h ↦ absurd (omega (arith, h, more))
      ] in
      let (b', w', last, v', why) = fill_buf_lem base sys_read input fd law b w v far in
      elim why [
        | inr (bad, run, nothing) ↦ (
          b',
          w',
          v',
          law.failed w 128 bad ∙ sym (ap input last) ∙ sym (ap (λ u. u ++ input w') nothing),
          inr (ground (arith, stop, run), nothing, (w, bad, last)),
        )
        | inl (bytes, e, run, all, place, _) ↦
            let parts =
              ap length (law.next w 128 bytes e)
              ∙ length-append bytes (input (sys_read fd w 128).1) in
            let some_ : 0 < length bytes = elim (ample w bytes e) [
              | inl h ↦ omega (arith, h)
              | inr h ↦ omega (arith, h, parts, more)
            ] in
            let size = length-between b'.mem b'.gnext_ b'.gend_ (omega (arith, v')) in
            let filled : b'.gnext_ < b'.gend_ = omega (arith, some_, size, ap length all) in
            let (c, at) = get_elem?-some b'.mem b'.gnext_ (omega (arith, v', filled)) in
            (
              b',
              w',
              v',
              law.next w 128 bytes e
                  ∙ ap (λ u. u ++ input (sys_read fd w 128).1) (sym all)
                  ∙ ap (λ u. unread b' ++ input u) (sym last),
              inl (
                c,
                ground (arith, stop, run, at),
                filled,
                elim (ample w bytes e) [
                  | inl h ↦ inl (inr (omega (arith, h, size, ap length all, place)))
                  | inr h ↦ inr (ap (λ u. length (input u)) last ∙ h)
                ],
              ),
            )
      ]

  -- What the loop does from some state on.
  pub record Fetched (b : StreamBuf) (w : W) (n : ℕ) (got : List ℕ) (b' : StreamBuf) (w' : W)
      : Type 0 where
    pub valid : IsFed base b'
    pub most : length got ≤ n
    pub order : unread b ++ input w ≡ got ++ (unread b' ++ input w')

  Fetched-later :
      (b b1 b' : StreamBuf) (w w1 w' : W) (n : ℕ) (got : List ℕ)
      → unread b ≡ []
      → input w ≡ unread b1 ++ input w1
      → Fetched b1 w1 n got b' w'
      → Fetched b w n got b' w'
  Fetched-later b b1 b' w w1 w' n got nothing e f = record {
    valid = f.valid;
    most = f.most;
    order = ap (λ u. u ++ input w) nothing ∙ e ∙ f.order;
  }

  -- The first `k` unread bytes and the others.
  unread_split :
      (b : StreamBuf) (k : ℕ)
      → k ≤ b.gend_ - b.gnext_
      → unread b ≡ take k (drop b.gnext_ b.mem) ++ unread (record b { gnext_ = b.gnext_ + k })
  unread_split b k h =
      ap (λ m. take m (drop b.gnext_ b.mem)) (omega arith)
      ∙ take_add k (b.gend_ - (b.gnext_ + k)) (drop b.gnext_ b.mem)
      ∙ ap (λ u. take k (drop b.gnext_ b.mem) ++ take (b.gend_ - (b.gnext_ + k)) u)
          (sym (drop_add b.gnext_ k b.mem))

  Fetched-more :
      (b b' : StreamBuf) (w w' : W) (n k : ℕ) (got : List ℕ)
      → k ≤ b.gend_ - b.gnext_
      → k ≤ n
      → length (take k (drop b.gnext_ b.mem)) ≡ k
      → Fetched (record b { gnext_ = b.gnext_ + k }) w (n - k) got b' w'
      → Fetched b w n (take k (drop b.gnext_ b.mem) ++ got) b' w'
  Fetched-more b b' w w' n k got h le size f =
      let bytes = take k (drop b.gnext_ b.mem) in
      record {
        valid = f.valid;
        most = omega (arith, f.most, size, le, length-append bytes got);
        order =
            ap (λ u. u ++ input w) (unread_split b k h)
            ∙ append_assoc bytes (unread (record b { gnext_ = b.gnext_ + k })) (input w)
            ∙ ap (λ u. bytes ++ u) f.order
            ∙ sym (append_assoc bytes got (unread b' ++ input w'));
      }

  -- A round that copies.
  in_rounds_copy :
      (fuel : ℕ) (b : StreamBuf) (d : Device W) (n k : ℕ) (r : List ℕ × StreamBuf × Device W)
      → pos_part (in_avail b) ≡ b.gend_ - b.gnext_
      → k ≡ min n (b.gend_ - b.gnext_)
      → b.gnext_ + k ≤ length b.mem
      → n == 0 ≡ false
      → b.gend_ - b.gnext_ == 0 ≡ false
      → in_rounds base sys_read fuel (record b { gnext_ = b.gnext_ + k }) d (n - k) ≡ some r
      → in_rounds base sys_read (suc fuel) b d n
        ≡ some (take k (drop b.gnext_ b.mem) ++ r.0, r.1, r.2)
  unfolding in_rounds load_block
  in_rounds_copy fuel b d n k r a e h todo some_ run = ground arith

  -- What the loop with some fuel does.
  abbrev pub Fetches : ℕ → StreamBuf → W → ℕ → Type 0
  Fetches fuel b w n =
      (got : List ℕ) × (b' : StreamBuf) × (w' : W) × (in_rounds base sys_read fuel b (at_fd fd w) n
        ≡ some (got, b', at_fd fd w'))
      × Fetched b w n got b' w'
      × ((length got ≡ n) ⊎ ((unread b' ≡ []) × Failed w'))

  Fetches-Failed :
      (fuel : ℕ) (b b1 : StreamBuf) (w w1 : W) (n : ℕ)
      → IsFed base b
      → n == 0 ≡ false
      → b.gend_ - b.gnext_ == 0 ≡ true
      → unread b ≡ []
      → IsFed base b1
      → input w ≡ unread b1 ++ input w1
      → underflow base sys_read b (at_fd fd w) ≡ some (none, b1, at_fd fd w1)
      → unread b1 ≡ []
      → Failed w1
      → Fetches (suc fuel) b w n
  unfolding in_rounds
  Fetches-Failed fuel b b1 w w1 n v todo empty nothing v1 order run none_ f = (
    [],
    b1,
    w1,
    ground (arith, avail_lem base b v),
    Fetched-later b b1 b1 w w1 w1 n [] nothing order
        (record { valid = v1; most = omega arith; order = refl }),
    inr (none_, f),
  )

  Fetches-filled :
      (fuel : ℕ) (b b1 : StreamBuf) (w w1 : W) (n c : ℕ)
      → IsFed base b
      → n == 0 ≡ false
      → b.gend_ - b.gnext_ == 0 ≡ true
      → unread b ≡ []
      → input w ≡ unread b1 ++ input w1
      → underflow base sys_read b (at_fd fd w) ≡ some (some c, b1, at_fd fd w1)
      → Fetches fuel b1 w1 n
      → Fetches (suc fuel) b w n
  unfolding in_rounds
  Fetches-filled fuel b b1 w w1 n c v todo empty nothing order run (got, b', w', runs, f, ends) = (
    got,
    b',
    w',
    ground (arith, avail_lem base b v),
    Fetched-later b b1 b' w w1 w' n got nothing order f,
    ends,
  )

  Fetches-copied :
      (fuel : ℕ) (b : StreamBuf) (w : W) (n k : ℕ)
      → IsFed base b
      → n == 0 ≡ false
      → b.gend_ - b.gnext_ == 0 ≡ false
      → k ≡ min n (b.gend_ - b.gnext_)
      → Fetches fuel (record b { gnext_ = b.gnext_ + k }) w (n - k)
      → Fetches (suc fuel) b w n
  Fetches-copied fuel b w n k v todo some_ e (got, b', w', runs, f, ends) =
      let bytes = take k (drop b.gnext_ b.mem) in
      let size : length bytes ≡ k =
        omega (arith, e, v, length-take k (drop b.gnext_ b.mem), length-drop b.gnext_ b.mem) in
      (
        bytes ++ got,
        b',
        w',
        in_rounds_copy fuel b (at_fd fd w) n k (got, b', at_fd fd w') (avail_lem base b v) e
            (omega (arith, v, e)) todo some_ runs,
        Fetched-more b b' w w' n k got (omega (arith, e)) (omega (arith, e)) size f,
        elim ends [
          | inl e' ↦ inl (omega (arith, e, e', size, length-append bytes got))
          | inr x ↦ inr x
        ],
      )

  -- What is left after a round that copies.
  left_after :
      (b : StreamBuf) (w : W) (n k : ℕ)
      → k ≤ b.gend_ - b.gnext_
      → b.gend_ ≤ length b.mem
      → n ≤ length (unread b ++ input w)
      → n - k ≤ length (unread (record b { gnext_ = b.gnext_ + k }) ++ input w)
  left_after b w n k le st h =
      let b1 : StreamBuf = record b { gnext_ = b.gnext_ + k } in
      omega (
        arith,
        ap length (unread_split b k le),
        length-append (unread b) (input w),
        length-append (take k (drop b.gnext_ b.mem)) (unread b1),
        length-append (unread b1) (input w),
        length-take k (drop b.gnext_ b.mem),
      )

  in_rounds_lem :
      Ample
      → (fuel : ℕ) (b : StreamBuf) (w : W) (n : ℕ) → IsFed base b
      → IsSpaced b w
      → n ≤ length (unread b ++ input w)
      → 2 * n + 2 - min 1 (b.gend_ - b.gnext_) ≤ fuel
      → Fetches fuel b w n
  unfolding in_rounds
  in_rounds_lem ample zero b w n v apart h enough = absurd (omega arith)
  in_rounds_lem ample (suc fuel) b w n v apart h enough = elim (Bool-cases (n == 0)) [
    | inl done ↦ (
      [],
      b,
      w,
      ground (arith, done),
      record { valid = v; most = omega arith; order = refl },
      inl (ground (arith, done)),
    )
    | inr todo ↦ elim (Bool-cases (b.gend_ - b.gnext_ == 0)) [
      | inl empty ↦
          let nothing : unread b ≡ [] =
            ap (λ m. take m (drop b.gnext_ b.mem)) {y = 0} (ground (arith, empty)) in
          let left : n ≤ length (input w) = subst (λ u. n ≤ length (u ++ input w)) nothing h in
          let (b1, w1, v1, order, why) =
            refill_lem ample b w v apart (ground (arith, empty, v)) (ground (arith, todo, left)) in
          elim why [
            | inr (run, none_, f) ↦
                Fetches-Failed fuel b b1 w w1 n v todo empty nothing v1 order run none_ f
            | inl (c, run, filled, apart1) ↦
                Fetches-filled fuel b b1 w w1 n c v todo empty nothing order run (
                  in_rounds_lem ample fuel b1 w1 n v1 apart1 (subst (λ u. n ≤ length u) order left)
                    (ground (arith, empty, filled, enough)))
          ]
      | inr some_ ↦
          let k = min n (b.gend_ - b.gnext_) in
          Fetches-copied fuel b w n k v todo some_ refl (
            in_rounds_lem ample fuel (record b { gnext_ = b.gnext_ + k }) w (n - k)
              (ground (arith, some_, v, v.unset)) apart
              (left_after b w n k (omega arith) (omega (arith, v)) h)
              (ground (arith, todo, some_, enough)))
    ]
  ]

  -- Over a device that keeps to the manual page of read(2) and gives at least four bytes until its
  -- last ones, for a valid stream buffer whose bytes to be put back do not overlap their new place
  -- when it is next filled: xsgetn of n bytes, where as many are left, ends without a fault. It
  -- yields the next bytes, in order, leaves the others, and yields fewer than n only when nothing
  -- is left in the buffer and its last call of the device failed.
  pub in_xsgetn_lem :
      Ample
      → (b : StreamBuf) (w : W) (n : ℕ) → IsFed base b
      → IsSpaced b w
      → n ≤ length (unread b ++ input w)
      → (got : List ℕ) × (b' : StreamBuf) × (w' : W) × (in_xsgetn base sys_read
            (2 * n + 2)
            b
            (at_fd fd w)
            n
          ≡ some (got, b', at_fd fd w'))
        × Fetched b w n got b' w'
        × ((length got ≡ n) ⊎ ((unread b' ≡ []) × Failed w'))
  unfolding in_xsgetn
  in_xsgetn_lem ample b w n v apart h =
      in_rounds_lem ample (2 * n + 2) b w n v apart h (omega arith)
