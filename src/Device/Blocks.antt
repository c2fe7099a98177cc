-- ===== src/Device/Blocks.antt =====
-- src/io/Device/Device.cpp: what `read_n` and `write_n` transfer, over a system that keeps to the
-- manual pages of read(2) and write(2).
use ctrlr_fx.Prelude.{
  ℕ, zero, suc, ◌+◌, ◌-◌, ◌≤◌, ◌≡◌, refl, sym, ap, ◌∙◌, List, [], ◌++◌, append-nil, append_assoc,
  Option, none, some, ◌==◌, ltb, length, length_zero, length-drop, take_all, take_add,
  length-append, take, drop, ℤ, pos, negsuc, subst, Option-cases, Bool-cases, ◌⊎◌, inl, inr,
  if◌then◌else◌, arith, ◌<◌, ◌^◌, to_int_lem,
}
use ctrlr_fx.Memory.{copy_elem}
use ctrlr_fx.Memory.Copy.{Copied, copy_elem-Copied, Copied-trans, Copied-none}
use ctrlr_fx.Device.{read_rounds, read_n, write_rounds, write_n}

-- read(2): at most the number asked for, the next bytes of the input, in order. A failed call
-- takes none.
pub record Reads {W : Type 0} (sys_read : W → ℕ → Option (List ℕ) × W) (input : W → List ℕ)
    : Type 0 where
  pub limit : (w : W) (n : ℕ) (bytes : List ℕ) → (sys_read w n).0 ≡ some bytes → length bytes ≤ n
  pub next :
      (w : W) (n : ℕ) (bytes : List ℕ)
      → (sys_read w n).0 ≡ some bytes
      → input w ≡ bytes ++ input (sys_read w n).1
  pub failed : (w : W) (n : ℕ) → (sys_read w n).0 ≡ none → input w ≡ input (sys_read w n).1

module _ {W : Type 0} (sys_read : W → ℕ → Option (List ℕ) × W) (input : W → List ℕ) where
  -- Why `read_n` stopped: the block is full, or a call for the rest of it failed or was at the end
  -- of the input. `nx` is the result of that call.
  abbrev pub Stopped : (rest : ℕ) → ℤ → W → Type 0
  Stopped rest nx w' =
      (rest ≡ 0)
      ⊎ ((v : W) × (w' ≡ (sys_read v rest).1)
          × ((((sys_read v rest).0 ≡ none) × (nx ≡ negsuc 0))
              ⊎ ((bytes : List ℕ) × ((sys_read v rest).0 ≡ some bytes)
                  × (length bytes ≡ 0)
                  × (nx ≡ pos 0))))

  -- What `read_n` with room for `n` bytes at `b` does: `k` bytes, the next of the input, are in the
  -- block, and nothing else is stored.
  pub record Received (w : W) (mem : List ℕ) (b n k : ℕ) (nx : ℤ) (mem' : List ℕ) (w' : W)
      : Type 0 where
    pub most : k ≤ n
    pub got : List ℕ
    pub count : length got ≡ k
    pub order : input w ≡ got ++ input w'
    pub placed : Copied mem b got 0 k mem'
    pub stopped : Stopped (n - k) nx w'

pub copy_elem-nothing :
    (mem : List ℕ) (b : ℕ) (bytes : List ℕ) (s n : ℕ) → n ≡ 0 → copy_elem mem b bytes s n ≡ some mem
unfolding copy_elem
copy_elem-nothing mem b bytes s n z = subst (λ m. copy_elem mem b bytes s m ≡ some mem) (sym z) refl

module _ {W : Type 0} (sys_read : W → ℕ → Option (List ℕ) × W) (input : W → List ℕ)
    (law : Reads sys_read input) where
  nothing :
      (w w' : W) (mem : List ℕ) (b n : ℕ) (nx : ℤ)
      → input w ≡ input w'
      → Stopped sys_read input n nx w'
      → Received sys_read input w mem b n 0 nx mem w'
  nothing w w' mem b n nx e s = record {
    most = omega arith;
    got = [];
    count = refl;
    order = e;
    placed = Copied-none mem b [] 0;
    stopped = subst (λ m. Stopped sys_read input m nx w') (omega arith) s;
  }

  more :
      (w w1 w' : W) (mem mid mem' : List ℕ) (b n k : ℕ) (nx : ℤ) (bytes : List ℕ)
      → length bytes ≤ n
      → input w ≡ bytes ++ input w1
      → Copied mem b bytes 0 (length bytes) mid
      → Received sys_read input w1 mid (b + length bytes) (n - length bytes) k nx mem' w'
      → Received sys_read input w mem b n (length bytes + k) nx mem' w'
  more w w1 w' mem mid mem' b n k nx bytes le e c r = record {
    most = omega (arith, r.most);
    got = bytes ++ r.got;
    count = omega (arith, length-append bytes r.got, r.count);
    order = e ∙ ap (λ t. bytes ++ t) r.order ∙ sym (append_assoc bytes r.got (input w'));
    placed =
        subst (λ m. Copied mem b (bytes ++ r.got) 0 (length bytes + m) mem') r.count
          (Copied-trans mem b bytes r.got mid mem' c
            (subst (λ m. Copied mid (b + length bytes) r.got 0 m mem') (sym r.count) r.placed));
    stopped = subst (λ m. Stopped sys_read input m nx w') (omega arith) r.stopped;
  }

  rounds_lem :
      (fuel : ℕ) (w : W) (mem : List ℕ) (b n nr : ℕ) (nx : ℤ)
      → b + n ≤ length mem
      → nr ≤ n
      → n < 2 ^ 31
      → n ≤ nr + fuel
      → (k : ℕ) × (nx' : ℤ) × (mem' : List ℕ) × (w' : W) × (read_rounds sys_read fuel w mem b n nr
            nx
          ≡ some (nr + k, nx', mem', w'))
        × Received sys_read input w mem (b + nr) (n - nr) k nx' mem' w'
        × (k ≡ 0 → n - nr ≡ 0 → nx' ≡ nx)
  unfolding read_rounds
  rounds_lem zero w mem b n nr nx h le small enough = (
    0,
    nx,
    mem,
    w,
    ground arith,
    nothing w w mem (b + nr) (n - nr) nx refl (inl (omega arith)),
    λ _ _. refl,
  )
  rounds_lem (suc fuel) w mem b n nr nx h le small enough = elim (Bool-cases (ltb nr n)) [
    | inr done ↦ (
      0,
      nx,
      mem,
      w,
      ground (arith, done),
      nothing w w mem (b + nr) (n - nr) nx refl (inl (ground arith)),
      λ _ _. refl,
    )
    | inl todo ↦ elim (Option-cases (sys_read w (n - nr)).0) [
      | inl bad ↦ (
        0,
        negsuc 0,
        mem,
        (sys_read w (n - nr)).1,
        ground (arith, todo, bad),
        nothing w (sys_read w (n - nr)).1 mem (b + nr) (n - nr) (negsuc 0)
            (law.failed w (n - nr) bad) (inr (w, refl, inl (bad, refl))),
        λ _ z. absurd (ground (arith, todo, z)),
      )
      | inr (bytes, e) ↦ elim (Bool-cases (length bytes == 0)) [
        | inl eof ↦ (
          0,
          pos 0,
          mem,
          (sys_read w (n - nr)).1,
          ground (
            arith,
            todo,
            e,
            eof,
            to_int_lem 0,
            copy_elem-nothing mem (b + nr) bytes 0 (length bytes),
          ),
          nothing w (sys_read w (n - nr)).1 mem (b + nr) (n - nr) (pos 0)
              (law.next w (n - nr) bytes e
                ∙ ap (λ t. t ++ input (sys_read w (n - nr)).1)
                    (length_zero bytes (ground (arith, eof))))
              (inr (w, refl, inr (bytes, e, ground arith, refl))),
          λ _ z. absurd (ground (arith, todo, z)),
        )
        | inr some_ ↦
            let most = law.limit w (n - nr) bytes e in
            let cast = to_int_lem (length bytes) (omega (arith, most, small)) in
            let (mid, run, c) =
              copy_elem-Copied mem (b + nr) bytes 0 (length bytes) (omega (arith, most))
                (omega arith) in
            let (k, nx', mem', w', runs, r, _) =
              rounds_lem fuel (sys_read w (n - nr)).1 mid b n (nr + length bytes)
                (pos (length bytes)) (omega (arith, c.size)) (omega (arith, most)) small
                (ground arith) in
            (
              length bytes + k,
              nx',
              mem',
              w',
              ground (arith, todo, e, some_, run, runs, cast),
              more w (sys_read w (n - nr)).1 w' mem mid mem' (b + nr) (n - nr) k nx' bytes most
                  (law.next w (n - nr) bytes e) c
                  (subst
                    (λ m.
                      Received sys_read input (sys_read w (n - nr)).1 mid m (n - nr - length bytes)
                        k nx' mem' w')
                    (omega arith)
                    (subst
                      (λ m.
                        Received sys_read input (sys_read w (n - nr)).1 mid
                          (b + (nr + length bytes)) m k nx' mem' w')
                      (omega arith) r)),
              λ _ z. absurd (ground (arith, todo, z)),
            )
      ]
    ]
  ]

  -- Over a system that keeps to the manual page of read(2), read_n of n bytes, fewer than 2 ^ 31,
  -- into a memory with room for them ends without a fault. It returns the number of bytes that it
  -- has stored, which are the next of the input, in order, and the rest of the memory is as
  -- before; or, when it has none, what its last call returned. It stores fewer than n only when a
  -- call for the rest failed or was at the end of the input.
  pub read_n_lem :
      (w : W) (mem : List ℕ) (b n : ℕ)
      → b + n ≤ length mem
      → n < 2 ^ 31
      → (k : ℕ) × (nx : ℤ) × (mem' : List ℕ) × (w' : W) × (read_n sys_read w mem b n
          ≡ some ((if k == 0 then nx else pos k), mem', w'))
        × Received sys_read input w mem b n k nx mem' w'
        × (n ≡ 0 → nx ≡ pos 0)
  unfolding read_n
  read_n_lem w mem b n h small =
      let (k, nx, mem', w', run, r, idle) =
        rounds_lem n w mem b n 0 (pos 0) h (omega arith) small (omega arith) in
      (
        k,
        nx,
        mem',
        w',
        ground (arith, run, to_int_lem k (omega (arith, r.most, small))),
        subst (λ m. Received sys_read input w mem m n k nx mem' w') (omega arith)
            (subst (λ m. Received sys_read input w mem (b + 0) m k nx mem' w') (omega arith) r),
        λ z. idle (omega (arith, r.most, z)) (omega (arith, z)),
      )

-- write(2): it takes at most what it is given, in order, and a failed call takes nothing.
pub record Writes {W : Type 0} (sys_write : W → List ℕ → Option ℕ × W) (output : W → List ℕ)
    : Type 0 where
  pub limit : (w : W) (bytes : List ℕ) (k : ℕ) → (sys_write w bytes).0 ≡ some k → k ≤ length bytes
  pub next :
      (w : W) (bytes : List ℕ) (k : ℕ)
      → (sys_write w bytes).0 ≡ some k
      → output (sys_write w bytes).1 ≡ output w ++ take k bytes
  pub failed :
      (w : W) (bytes : List ℕ)
      → (sys_write w bytes).0 ≡ none
      → output (sys_write w bytes).1 ≡ output w

module _ {W : Type 0} (sys_write : W → List ℕ → Option ℕ × W) (output : W → List ℕ) where
  -- Why `write_n` stopped: everything is out, or a call for the rest failed or took nothing.
  abbrev pub Refused : List ℕ → ℤ → W → Type 0
  Refused rest nx w' =
      (length rest ≡ 0)
      ⊎ ((v : W) × (w' ≡ (sys_write v rest).1)
          × ((((sys_write v rest).0 ≡ none) × (nx ≡ negsuc 0))
              ⊎ (((sys_write v rest).0 ≡ some 0) × (nx ≡ pos 0))))

  -- What `write_n` of a block does: the first `k` bytes are out, in order.
  pub record Sent (w : W) (block : List ℕ) (k : ℕ) (nx : ℤ) (w' : W) : Type 0 where
    pub most : k ≤ length block
    pub order : output w' ≡ output w ++ take k block
    pub stopped : Refused (drop k block) nx w'

module _ {W : Type 0} (sys_write : W → List ℕ → Option ℕ × W) (output : W → List ℕ)
    (law : Writes sys_write output) where
  write_rounds_lem :
      (fuel : ℕ) (w0 w : W) (block : List ℕ) (nw : ℕ) (nx : ℤ)
      → nw ≤ length block
      → length block < 2 ^ 31
      → length block ≤ nw + fuel
      → output w ≡ output w0 ++ take nw block
      → (k : ℕ) × (nx' : ℤ) × (w' : W) × (write_rounds sys_write fuel w block (length block) nw nx
          ≡ (k, nx', w'))
        × Sent sys_write output w0 block k nx' w'
        × (length block ≡ 0 → nx' ≡ nx)
  unfolding write_rounds
  write_rounds_lem zero w0 w block nw nx h small enough e = (
    nw,
    nx,
    w,
    refl,
    record { most = h; order = e; stopped = inl (omega (arith, length-drop nw block)) },
    λ z. refl,
  )
  write_rounds_lem (suc fuel) w0 w block nw nx h small enough e =
      let whole =
        take_all (length block - nw) (drop nw block) (omega (arith, length-drop nw block)) in
      (elim (Bool-cases (ltb nw (length block))) [
        | inr done ↦ (
          nw,
          nx,
          w,
          ground (arith, done),
          record {
            most = h;
            order = e;
            stopped = inl (ground (arith, done, length-drop nw block));
          },
          λ z. refl,
        )
        | inl todo ↦ elim (Option-cases (sys_write w (drop nw block)).0) [
          | inl bad ↦ (
            nw,
            negsuc 0,
            (sys_write w (drop nw block)).1,
            ground (arith, todo, bad, whole),
            record {
              most = h;
              order = law.failed w (drop nw block) bad ∙ e;
              stopped = inr (w, refl, inl (bad, refl));
            },
            λ z. absurd (ground (arith, todo, z)),
          )
          | inr (k, got) ↦ elim (Bool-cases (k == 0)) [
            | inl none_ ↦ (
              nw,
              pos 0,
              (sys_write w (drop nw block)).1,
              ground (arith, todo, got, none_, whole, to_int_lem 0),
              record {
                most = h;
                order =
                    law.next w (drop nw block) k got
                    ∙ ap (λ m. output w ++ take m (drop nw block)) {y = 0} (ground (arith, none_))
                    ∙ append-nil (output w)
                    ∙ e;
                stopped = inr (w, refl, inr (ground (arith, got, none_), refl));
              },
              λ z. absurd (ground (arith, todo, z)),
            )
            | inr some_ ↦
                let most = law.limit w (drop nw block) k got in
                let cast = to_int_lem k (omega (arith, most, length-drop nw block, small)) in
                let (n, nx', w', run, s, _) =
                  write_rounds_lem fuel w0 (sys_write w (drop nw block)).1 block (nw + k) (pos k)
                    (omega (arith, most, length-drop nw block)) small (ground (arith, some_))
                    (law.next w (drop nw block) k got
                      ∙ ap (λ t. t ++ take k (drop nw block)) e
                      ∙ append_assoc (output w0) (take nw block) (take k (drop nw block))
                      ∙ ap (λ t. output w0 ++ t) (sym (take_add nw k block))) in
                (
                  n,
                  nx',
                  w',
                  ground (arith, todo, got, some_, run, whole, cast),
                  s,
                  λ z. absurd (ground (arith, todo, z)),
                )
          ]
        ]
      ])

  -- Over a system that keeps to the manual page of write(2), write_n of a block of fewer than 2 ^
  -- 31 bytes has sent its first bytes, in order, and returns their number; or, when it has sent
  -- none, what its last call returned, and 0 for the empty block. It sends less than the block
  -- only when a call for the rest failed or took nothing.
  pub write_n_lem :
      (w : W) (block : List ℕ)
      → length block < 2 ^ 31
      → (k : ℕ) × (nx : ℤ) × (w' : W) × (write_n sys_write w block (length block)
          ≡ ((if k == 0 then nx else pos k), w'))
        × Sent sys_write output w block k nx w'
        × (length block ≡ 0 → nx ≡ pos 0)
  unfolding write_n
  write_n_lem w block small =
      let (k, nx, w', run, s, idle) =
        write_rounds_lem (length block) w w block 0 (pos 0) (omega arith) small (omega arith)
          (sym (append-nil (output w))) in
      (k, nx, w', ground (arith, run, to_int_lem k (omega (arith, s.most, small))), s, idle)
