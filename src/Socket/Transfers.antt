-- ===== src/Socket/Transfers.antt =====
-- src/io/net/Socket.cpp against src/io/Device/Device.cpp: the block transfers of a buffer over a
-- socket, which move the position with each call of the system, and those over a descriptor, which
-- count and move it at the end.
use ctrlr_fx.Prelude.{
  ℕ, zero, suc, ◌+◌, ◌-◌, ◌^◌, ◌≤◌, ◌<◌, ◌≡◌, refl, ap, ◌∙◌, List, Option, some, ◌>>=◌, ◌==◌, ltb,
  Bool-cases, Option-cases, inl, inr, length, take, drop, drop_add, length-take, ℤ, pos, negsuc,
  pos_part, to_int, to_int_lem, less, if◌then◌else◌, arith, sub_size, sub_size_lem, ℕ-cases,
}
use ctrlr_fx.Memory.{copy_elem}
use ctrlr_fx.Buffer
use ctrlr_fx.Buffer.{Buffer}
use ctrlr_fx.Device
use ctrlr_fx.Device.{read_rounds, read_n, write_rounds, write_n}
use ctrlr_fx.Device.Blocks.{Reads, Writes, copy_elem-nothing}
use ctrlr_fx.Socket.Tcp.{
  result, buffer_read_rounds, read_n_buffer, buffer_write_rounds, write_n_buffer,
}

-- The two return tests agree where a call that gives nothing gives no count.
result_lem :
    (nr : ℕ) (nx : ℤ)
    → (nr ≡ 0 → pos_part nx ≡ 0)
    → result nr nx ≡ (if nr == 0 then nx else to_int nr)
unfolding result to_int
result_lem nr (pos k) h = ground (arith, h)
result_lem nr (negsuc k) h = ground arith

module _ {W : Type 0} (recv : W → ℕ → Option (List ℕ) × W) (input : W → List ℕ)
    (law : Reads recv input) where
  -- The buffer after a loop of `read_n` that began at its position.
  abbrev moved : Buffer ℕ → ℕ × ℤ × List ℕ × W → ℕ × ℤ × Buffer ℕ × W
  moved buf r = (r.0, r.1, record buf { buf = r.2; pos = buf.pos + r.0 }, r.3)

  buffer_read_rounds_lem :
      (fuel : ℕ) (w : W) (buf : Buffer ℕ) (mem : List ℕ) (n nr : ℕ) (nx : ℤ)
      → buf.lim ≡ buf.pos + n
      → buf.lim < 2 ^ 64
      → n < 2 ^ 31
      → nr ≤ n
      → buffer_read_rounds recv fuel w (record buf { buf = mem; pos = buf.pos + nr }) nr nx
        ≡ (read_rounds recv fuel w mem buf.pos n nr nx >>= λ r. some (moved buf r))
  unfolding buffer_read_rounds read_rounds
  buffer_read_rounds_lem zero w buf mem n nr nx e small int h = refl
  buffer_read_rounds_lem (suc fuel) w buf mem n nr nx e small int h =
      let left : sub_size buf.lim (buf.pos + nr) ≡ n - nr =
        sub_size_lem buf.lim (buf.pos + nr) (omega (arith, e, h)) small ∙ omega (arith, e) in
      elim (ℕ-cases nr n) [
        | inr done ↦ ground (arith, e, h, done)
        | inl todo ↦ elim (Option-cases (recv w (n - nr)).0) [
          | inl bad ↦ ground (arith, e, todo, left, bad)
          | inr (bytes, got) ↦ elim (Bool-cases (length bytes == 0)) [
            | inl eof ↦
                let z : length bytes ≡ 0 = ground (arith, eof) in
                ground (
                  arith,
                  e,
                  todo,
                  left,
                  got,
                  eof,
                  to_int_lem 0,
                  copy_elem-nothing mem (buf.pos + nr) bytes 0 (length bytes) z,
                )
            | inr some_ ↦
                elim (Option-cases (copy_elem mem (buf.pos + nr) bytes 0 (length bytes))) [
                  | inl fault ↦ ground (arith, e, todo, left, got, some_, fault)
                  | inr (mem', run) ↦
                      let most = law.limit w (n - nr) bytes got in
                      let cast = to_int_lem (length bytes) (omega (arith, most, int)) in
                      ground (
                        cast,
                        arith,
                        e,
                        todo,
                        left,
                        got,
                        some_,
                        run,
                        buffer_read_rounds_lem fuel (recv w (n - nr)).1 buf mem' n
                            (nr + length bytes) (pos (length bytes)) e small int
                            (omega (arith, most, todo)),
                      )
                ]
          ]
        ]
      ]

  -- A loop that has read nothing did not end with a positive count.
  read_rounds_sign :
      (fuel : ℕ) (w : W) (mem : List ℕ) (b n nr : ℕ) (nx : ℤ) (r : ℕ × ℤ × List ℕ × W)
      → (nr ≡ 0 → pos_part nx ≡ 0)
      → read_rounds recv fuel w mem b n nr nx ≡ some r
      → r.0 ≡ 0
      → pos_part r.1 ≡ 0
  unfolding read_rounds
  read_rounds_sign zero w mem b n nr nx r h e z = ground (arith, e, h)
  read_rounds_sign (suc fuel) w mem b n nr nx r h e z = elim (Bool-cases (ltb nr n)) [
    | inr done ↦ ground (arith, e, h, done)
    | inl todo ↦ elim (Option-cases (recv w (n - nr)).0) [
      | inl bad ↦ ground (arith, e, todo, bad)
      | inr (bytes, got) ↦ elim (Option-cases (copy_elem mem (b + nr) bytes 0 (length bytes))) [
        | inl fault ↦ ground (arith, e, todo, got, fault)
        | inr (mem', run) ↦
            let nx' = to_int (length bytes) in
            elim (Bool-cases (less (pos 0) nx')) [
              | inr stop ↦ ground (arith, e, todo, got, run, stop)
              | inl on ↦
                  read_rounds_sign fuel (recv w (n - nr)).1 mem' b n (nr + pos_part nx') nx' r
                    (λ p. absurd (ground (arith, p, on))) (ground (arith, e, todo, got, run, on)) z
            ]
      ]
    ]
  ]

  -- The loop does not count past the block.
  read_rounds_most :
      (fuel : ℕ) (w : W) (mem : List ℕ) (b n nr : ℕ) (nx : ℤ) (r : ℕ × ℤ × List ℕ × W)
      → n < 2 ^ 31
      → nr ≤ n
      → read_rounds recv fuel w mem b n nr nx ≡ some r
      → r.0 ≤ n
  unfolding read_rounds
  read_rounds_most zero w mem b n nr nx r int h e = ground (arith, e, h)
  read_rounds_most (suc fuel) w mem b n nr nx r int h e = elim (Bool-cases (ltb nr n)) [
    | inr done ↦ ground (arith, e, h, done)
    | inl todo ↦ elim (Option-cases (recv w (n - nr)).0) [
      | inl bad ↦ ground (arith, e, todo, bad)
      | inr (bytes, got) ↦ elim (Option-cases (copy_elem mem (b + nr) bytes 0 (length bytes))) [
        | inl fault ↦ ground (arith, e, todo, got, fault)
        | inr (mem', run) ↦
            let most = law.limit w (n - nr) bytes got in
            let cast = to_int_lem (length bytes) (omega (arith, most, int)) in
            let nx' = to_int (length bytes) in
            elim (Bool-cases (less (pos 0) nx')) [
              | inr stop ↦ ground (arith, e, todo, got, run, stop)
              | inl on ↦
                  read_rounds_most fuel (recv w (n - nr)).1 mem' b n (nr + pos_part nx') nx' r int
                    (ground (arith, most, cast)) (ground (arith, e, todo, got, run, on))
            ]
      ]
    ]
  ]

  -- Over a recv that keeps to the manual page, read_n of a buffer whose position is at most its
  -- limit, with fewer than 2 ^ 31 bytes between them, does over a socket what it does over a
  -- descriptor, whose loop, count and return test are others: the result, the buffer and the
  -- system are the same, faults included.
  pub socket-eq-device_read_n :
      (w : W) (buf : Buffer ℕ)
      → buf.pos ≤ buf.lim
      → buf.lim < 2 ^ 64
      → buf.lim < buf.pos + 2 ^ 31
      → read_n_buffer recv w buf ≡ Device.read_n_buffer recv w buf
  unfolding read_n_buffer Device.read_n_buffer read_n
  socket-eq-device_read_n w buf h small int =
      let n = buf.lim - buf.pos in
      let left : Buffer.available buf ≡ n = sub_size_lem buf.lim buf.pos h small in
      let same =
        buffer_read_rounds_lem n w buf buf.buf n 0 (pos 0) (omega (arith, h)) small
          (omega (arith, int)) (omega arith) in
      elim (Option-cases (read_rounds recv n w buf.buf buf.pos n 0 (pos 0))) [
        | inl fault ↦ ground (arith, left, same, fault)
        | inr (r, run) ↦
            let sign = read_rounds_sign n w buf.buf buf.pos n 0 (pos 0) r (λ p. refl) run in
            let most =
              read_rounds_most n w buf.buf buf.pos n 0 (pos 0) r (omega (arith, int)) (omega arith)
                run in
            ground (
              arith,
              left,
              same,
              run,
              sign,
              result_lem r.0 r.1 sign,
              to_int_lem r.0 (omega (arith, most, int)),
            )
      ]

module _ {W : Type 0} (send : W → List ℕ → Option ℕ × W) (output : W → List ℕ)
    (law : Writes send output) where
  abbrev sent_to : Buffer ℕ → ℕ × ℤ × W → ℕ × ℤ × Buffer ℕ × W
  sent_to buf r = (r.0, r.1, record buf { pos = buf.pos + r.0 }, r.2)

  buffer_write_rounds_lem :
      (fuel : ℕ) (w : W) (buf : Buffer ℕ) (n nw : ℕ) (nx : ℤ)
      → buf.lim ≡ buf.pos + n
      → buf.lim < 2 ^ 64
      → buf.lim ≤ length buf.buf
      → n < 2 ^ 31
      → nw ≤ n
      → buffer_write_rounds send fuel w (record buf { pos = buf.pos + nw }) nw nx
        ≡ sent_to buf (write_rounds send fuel w (drop buf.pos buf.buf) n nw nx)
  unfolding buffer_write_rounds write_rounds
  buffer_write_rounds_lem zero w buf n nw nx e small stored int h = refl
  buffer_write_rounds_lem (suc fuel) w buf n nw nx e small stored int h =
      let block = take (n - nw) (drop nw (drop buf.pos buf.buf)) in
      let left : sub_size buf.lim (buf.pos + nw) ≡ n - nw =
        sub_size_lem buf.lim (buf.pos + nw) (omega (arith, e, h)) small ∙ omega (arith, e) in
      let same : take (sub_size buf.lim (buf.pos + nw)) (drop (buf.pos + nw) buf.buf) ≡ block =
        ap (λ m. take m (drop (buf.pos + nw) buf.buf)) left
        ∙ ap (take (n - nw)) (drop_add buf.pos nw buf.buf) in
      elim (ℕ-cases nw n) [
        | inr done ↦ ground (arith, e, h, done)
        | inl todo ↦ elim (Option-cases (send w block).0) [
          | inl bad ↦ ground (arith, e, todo, same, bad)
          | inr (k, got) ↦ elim (Bool-cases (k == 0)) [
            | inl none_ ↦ ground (arith, e, todo, same, got, none_, to_int_lem 0)
            | inr some_ ↦
                let most = law.limit w block k got in
                let size : length block ≤ n - nw =
                  omega (arith, length-take (n - nw) (drop nw (drop buf.pos buf.buf))) in
                let cast = to_int_lem k (omega (arith, most, size, int)) in
                ground (
                  cast,
                  arith,
                  e,
                  todo,
                  same,
                  got,
                  some_,
                  buffer_write_rounds_lem fuel (send w block).1 buf n (nw + k) (pos k) e small
                      stored int (omega (arith, most, size, todo)),
                )
          ]
        ]
      ]

  write_rounds_sign :
      (fuel : ℕ) (w : W) (block : List ℕ) (n nw : ℕ) (nx : ℤ)
      → (nw ≡ 0 → pos_part nx ≡ 0)
      → (write_rounds send fuel w block n nw nx).0 ≡ 0
      → pos_part (write_rounds send fuel w block n nw nx).1 ≡ 0
  unfolding write_rounds
  write_rounds_sign zero w block n nw nx h z = h z
  write_rounds_sign (suc fuel) w block n nw nx h z = elim (Bool-cases (ltb nw n)) [
    | inr done ↦ ground (arith, h, done, z)
    | inl todo ↦ elim (Option-cases (send w (take (n - nw) (drop nw block))).0) [
      | inl bad ↦ ground (arith, todo, bad)
      | inr (k, got) ↦
          let nx' = to_int k in
          elim (Bool-cases (less (pos 0) nx')) [
            | inr stop ↦ ground (arith, todo, got, stop, z)
            | inl on ↦
                let later =
                  write_rounds_sign fuel (send w (take (n - nw) (drop nw block))).1 block n
                    (nw + pos_part nx') nx' (λ p. absurd (ground (arith, p, on))) in
                ground (arith, todo, got, on, z, later)
          ]
    ]
  ]

  write_rounds_most :
      (fuel : ℕ) (w : W) (block : List ℕ) (n nw : ℕ) (nx : ℤ)
      → n < 2 ^ 31
      → nw ≤ n
      → (write_rounds send fuel w block n nw nx).0 ≤ n
  unfolding write_rounds
  write_rounds_most zero w block n nw nx int h = h
  write_rounds_most (suc fuel) w block n nw nx int h = elim (Bool-cases (ltb nw n)) [
    | inr done ↦ ground (arith, h, done)
    | inl todo ↦
        let rest = take (n - nw) (drop nw block) in
        elim (Option-cases (send w rest).0) [
          | inl bad ↦ ground (arith, todo, bad)
          | inr (k, got) ↦
              let size : k ≤ n - nw =
                omega (arith, law.limit w rest k got, length-take (n - nw) (drop nw block)) in
              let cast = to_int_lem k (omega (arith, size, int)) in
              let later =
                write_rounds_most fuel (send w rest).1 block n (nw + k) (pos k) int
                  (omega (arith, size, h)) in
              elim (Bool-cases (k == 0)) [
                | inl none_ ↦ ground (arith, todo, got, none_, cast, h)
                | inr some_ ↦ ground (arith, todo, got, some_, cast, later)
              ]
        ]
  ]

  -- Over a `send` that takes at most what it is given, write_n of a valid buffer does for a TCP
  -- socket what it does for a descriptor.
  pub socket-eq-device_write_n :
      (w : W) (buf : Buffer ℕ)
      → buf.pos ≤ buf.lim
      → buf.lim < 2 ^ 64
      → buf.lim < buf.pos + 2 ^ 31
      → buf.lim ≤ length buf.buf
      → write_n_buffer send w buf ≡ Device.write_n_buffer send w buf
  unfolding write_n_buffer Device.write_n_buffer write_n
  socket-eq-device_write_n w buf h small int stored =
      let n = buf.lim - buf.pos in
      let left : Buffer.available buf ≡ n = sub_size_lem buf.lim buf.pos h small in
      let same =
        buffer_write_rounds_lem n w buf n 0 (pos 0) (omega (arith, h)) small stored
          (omega (arith, int)) (omega arith) in
      let block = drop buf.pos buf.buf in
      let r = write_rounds send n w block n 0 (pos 0) in
      let sign = write_rounds_sign n w block n 0 (pos 0) (λ p. refl) in
      let most = write_rounds_most n w block n 0 (pos 0) (omega (arith, int)) (omega arith) in
      ground (
        arith,
        left,
        same,
        sign,
        result_lem r.0 r.1 sign,
        to_int_lem r.0 (omega (arith, most, int)),
      )
