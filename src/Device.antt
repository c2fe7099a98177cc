-- ===== src/Device.antt =====
-- CtrlrFx/Device.h and src/io/Device/Device.cpp: the transfers of a whole block over the operating
-- system's `::read` and `::write`, which may transfer less than they are asked for, and the life of
-- the handle. `W` is the state of the system. `sys_read w n` gives the bytes it read, at most `n`,
-- or `none` for -1; `sys_write w bytes` the number it took, or `none`. A memory is a list of bytes,
-- and an access outside is `none`. The counts of the system become `int`s by `to_int`.
pub mod Blocks
mod Tests
use ctrlr_fx.Prelude.{
  ℕ, zero, suc, ◌+◌, ◌-◌, List, [], ◌∷◌, Option, none, some, ◌>>=◌, Bool, true, false, ◌&&◌, not,
  ◌==◌, ltb, if◌then◌else◌, length, take, drop, ℤ, pos, negsuc, pos_part, less, to_int,
}
use ctrlr_fx.Memory.{copy_elem}
use ctrlr_fx.Buffer
use ctrlr_fx.Buffer.{Buffer}

module _ {W : Type 0} (sys_read : W → ℕ → Option (List ℕ) × W) where
  -- The loop of `read_n`, with at most the given number of rounds: `nr`, `nx`, the memory and the
  -- system. The block begins at `b`.
  unfoldable pub read_rounds : ℕ → W → List ℕ → ℕ → ℕ → ℕ → ℤ → Option (ℕ × ℤ × List ℕ × W)
  read_rounds zero w mem b n nr nx = some (nr, nx, mem, w)
  read_rounds (suc fuel) w mem b n nr nx = elim (ltb nr n) [
    | false ↦ some (nr, nx, mem, w)
    | true ↦
        let r = sys_read w (n - nr) in
        elim r.0 [
          | none ↦ some (nr, negsuc 0, mem, r.1)
          | some bytes ↦ copy_elem mem (b + nr) bytes 0 (length bytes) >>= λ mem'.
              let nx' = to_int (length bytes) in
              elim (less (pos 0) nx') [
                | false ↦ some (nr, nx', mem', r.1)
                | true ↦ read_rounds fuel r.1 mem' b n (nr + pos_part nx') nx'
              ]
        ]
  ]

  -- `read_n(fd, buf, n)`.
  unfoldable pub read_n : W → List ℕ → ℕ → ℕ → Option (ℤ × List ℕ × W)
  unfolding read_rounds
  read_n w mem b n = read_rounds n w mem b n 0 (pos 0) >>= λ r.
      some ((if r.0 == 0 then r.1 else to_int r.0), r.2, r.3)

  -- `read_n(fd, ByteBuffer&)`.
  unfoldable pub read_n_buffer : W → Buffer ℕ → Option (ℤ × Buffer ℕ × W)
  unfolding read_n
  read_n_buffer w buf = read_n w buf.buf buf.pos (Buffer.available buf) >>= λ r.
      let filled = record buf { buf = r.1 } in
      some (
        r.0,
        (if ltb 0 (pos_part r.0) then record filled { pos = buf.pos + pos_part r.0 } else filled),
        r.2,
      )

  -- `read(fd, ByteBuffer&)`: one call of the system.
  pub read_buffer : W → Buffer ℕ → Option (ℤ × Buffer ℕ × W)
  read_buffer w buf =
      let r = sys_read w (Buffer.available buf) in
      elim r.0 [
        | none ↦ some (negsuc 0, buf, r.1)
        | some bytes ↦ copy_elem buf.buf buf.pos bytes 0 (length bytes) >>= λ mem.
            let n = to_int (length bytes) in
            some (n, record buf { buf = mem; pos = buf.pos + pos_part n }, r.1)
      ]

module _ {W : Type 0} (sys_write : W → List ℕ → Option ℕ × W) where
  -- The loop of `write_n` over the block that begins at `b`: `nw`, `nx` and the system.
  unfoldable pub write_rounds : ℕ → W → List ℕ → ℕ → ℕ → ℤ → ℕ × ℤ × W
  write_rounds zero w block n nw nx = (nw, nx, w)
  write_rounds (suc fuel) w block n nw nx = elim (ltb nw n) [
    | false ↦ (nw, nx, w)
    | true ↦
        let r = sys_write w (take (n - nw) (drop nw block)) in
        elim r.0 [
          | none ↦ (nw, negsuc 0, r.1)
          | some k ↦
              let nx' = to_int k in
              elim (less (pos 0) nx') [
                | false ↦ (nw, nx', r.1)
                | true ↦ write_rounds fuel r.1 block n (nw + pos_part nx') nx'
              ]
        ]
  ]

  -- `write_n(fd, buf, n)`, `block` the bytes from `buf` on.
  unfoldable pub write_n : W → List ℕ → ℕ → ℤ × W
  unfolding write_rounds
  write_n w block n =
      let r = write_rounds n w block n 0 (pos 0) in ((if r.0 == 0 then r.1 else to_int r.0), r.2)

  -- `write_n(fd, ByteBuffer&)`.
  unfoldable pub write_n_buffer : W → Buffer ℕ → ℤ × Buffer ℕ × W
  unfolding write_n
  write_n_buffer w buf =
      let r = write_n w (drop buf.pos buf.buf) (Buffer.available buf) in
      (
        r.0,
        (if ltb 0 (pos_part r.0) then record buf { pos = buf.pos + pos_part r.0 } else buf),
        r.1,
      )

  -- `write(fd, ByteBuffer&)`: one call of the system.
  pub write_buffer : W → Buffer ℕ → ℤ × Buffer ℕ × W
  write_buffer w buf =
      let r = sys_write w (take (Buffer.available buf) (drop buf.pos buf.buf)) in
      elim r.0 [
        | none ↦ (negsuc 0, buf, r.1)
        | some k ↦ let n = to_int k in (n, record buf { pos = buf.pos + pos_part n }, r.1)
      ]

-- `DeviceBase`: the descriptor, or `none` for a negative one, and whether it is owned.
pub record DeviceBase : Type 0 where
  pub fd_ : Option ℕ
  pub own_ : Bool

-- `INVALID_HANDLE` and the default constructor, which leaves `own_` as it was found.
abbrev pub new_device : Bool → DeviceBase
new_device found = record { fd_ = none; own_ = found }

abbrev pub from_handle : ℕ → Bool → DeviceBase
from_handle fd own = record { fd_ = some fd; own_ = own }

abbrev pub claim : DeviceBase → DeviceBase
claim d = record d { own_ = true }

abbrev pub is_open : DeviceBase → Bool
is_open d = elim d.fd_ [ none ↦ false | some fd ↦ true ]

module _ {W : Type 0} (sys_open : W → Option ℕ × W) (sys_close : W → ℕ → W) where
  unfoldable pub close : DeviceBase → W → DeviceBase × W
  close d w = elim d.fd_ [
    | none ↦ (d, w)
    | some fd ↦ if d.own_ then (record { fd_ = none; own_ = false }, sys_close w fd) else (d, w)
  ]

  -- `open(name, flags)`; the result is `fd_`.
  unfoldable pub open_file : DeviceBase → W → DeviceBase × W
  open_file d w = let r = sys_open (close d w).1 in (record { fd_ = r.0; own_ = true }, r.1)

  unfoldable pub assign : DeviceBase → W → ℕ → Bool → DeviceBase × W
  assign d w fd own = (from_handle fd own, (close d w).1)
