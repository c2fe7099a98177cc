-- ===== src/Socket/Tcp.antt =====
-- src/io/net/Socket.cpp: the transfers of TCP and UDP sockets. `recv w n` is `::recv` on the handle
-- for `n` bytes, the bytes or `none` for a negative result, and `send` is `::send`. An access
-- outside a buffer is `none`. The counts of the system become `int`s by `to_int`.
use ctrlr_fx.Prelude.{
  ℕ, zero, suc, ◌+◌, List, Option, none, some, ◌>>=◌, true, false, ◌==◌, if◌then◌else◌, length,
  take, drop, ℤ, pos, negsuc, pos_part, less, to_int, ◌&&◌,
}
use ctrlr_fx.Memory.{copy_elem}
use ctrlr_fx.Buffer
use ctrlr_fx.Buffer.{Buffer}

-- `(nr == 0 && nx < 0) ? nx : int(nr)`
unfoldable pub result : ℕ → ℤ → ℤ
result nr nx = if nr == 0 && less nx (pos 0) then nx else to_int nr

module _ {W : Type 0} (recv : W → ℕ → Option (List ℕ) × W) where
  -- `read(ByteBuffer&)`, and `recv(ByteBuffer&)` and `recvfrom` of a UDP socket.
  unfoldable pub read_buffer : W → Buffer ℕ → Option (ℤ × Buffer ℕ × W)
  read_buffer w buf =
      let r = recv w (Buffer.available buf) in
      elim r.0 [
        | none ↦ some (negsuc 0, buf, r.1)
        | some bytes ↦ copy_elem buf.buf buf.pos bytes 0 (length bytes) >>= λ mem.
            let n = to_int (length bytes) in
            some (n, record buf { buf = mem; pos = buf.pos + pos_part n }, r.1)
      ]

  -- The loop of `read_n(ByteBuffer&)`, with at most the given number of rounds: `nr`, `nx`, the
  -- buffer and the system.
  unfoldable pub buffer_read_rounds : ℕ → W → Buffer ℕ → ℕ → ℤ → Option (ℕ × ℤ × Buffer ℕ × W)
  buffer_read_rounds zero w buf nr nx = some (nr, nx, buf, w)
  buffer_read_rounds (suc fuel) w buf nr nx = elim (Buffer.full buf) [
    | true ↦ some (nr, nx, buf, w)
    | false ↦
        let r = recv w (Buffer.available buf) in
        elim r.0 [
          | none ↦ some (nr, negsuc 0, buf, r.1)
          | some bytes ↦ copy_elem buf.buf buf.pos bytes 0 (length bytes) >>= λ mem.
              let nx' = to_int (length bytes) in
              elim (less (pos 0) nx') [
                | false ↦ some (nr, nx', record buf { buf = mem }, r.1)
                | true ↦
                    buffer_read_rounds fuel r.1
                      (record buf { buf = mem; pos = buf.pos + pos_part nx' }) (nr + pos_part nx')
                      nx'
              ]
        ]
  ]

  -- `read_n(ByteBuffer&)`
  unfoldable pub read_n_buffer : W → Buffer ℕ → Option (ℤ × Buffer ℕ × W)
  unfolding buffer_read_rounds result
  read_n_buffer w buf = buffer_read_rounds (Buffer.available buf) w buf 0 (pos 0) >>= λ r.
      some (result r.0 r.1, r.2, r.3)

module _ {W : Type 0} (send : W → List ℕ → Option ℕ × W) where
  -- `write(ByteBuffer&)`, and `send(ByteBuffer&)` and `sendto` of a UDP socket.
  unfoldable pub write_buffer : W → Buffer ℕ → ℤ × Buffer ℕ × W
  write_buffer w buf =
      let r = send w (take (Buffer.available buf) (drop buf.pos buf.buf)) in
      elim r.0 [
        | none ↦ (negsuc 0, buf, r.1)
        | some k ↦ let n = to_int k in (n, record buf { pos = buf.pos + pos_part n }, r.1)
      ]

  unfoldable pub buffer_write_rounds : ℕ → W → Buffer ℕ → ℕ → ℤ → ℕ × ℤ × Buffer ℕ × W
  buffer_write_rounds zero w buf nw nx = (nw, nx, buf, w)
  buffer_write_rounds (suc fuel) w buf nw nx = elim (Buffer.full buf) [
    | true ↦ (nw, nx, buf, w)
    | false ↦
        let r = send w (take (Buffer.available buf) (drop buf.pos buf.buf)) in
        elim r.0 [
          | none ↦ (nw, negsuc 0, buf, r.1)
          | some k ↦
              let nx' = to_int k in
              elim (less (pos 0) nx') [
                | false ↦ (nw, nx', buf, r.1)
                | true ↦
                    buffer_write_rounds fuel r.1 (record buf { pos = buf.pos + pos_part nx' })
                      (nw + pos_part nx') nx'
              ]
        ]
  ]

  -- `write_n(ByteBuffer&)`
  unfoldable pub write_n_buffer : W → Buffer ℕ → ℤ × Buffer ℕ × W
  unfolding buffer_write_rounds result
  write_n_buffer w buf =
      let r = buffer_write_rounds (Buffer.available buf) w buf 0 (pos 0) in
      (result r.0 r.1, r.2, r.3)
