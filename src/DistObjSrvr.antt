-- ===== src/DistObjSrvr.antt =====
-- CtrlrFx/DistObjSrvr.h, CtrlrFx/BinDistObj.h and src/DistObj/DistObjSrvr.cpp: the client's and the
-- server's end of a port that carries commands to distributed objects. The port is an `IDevice`,
-- whose methods are virtual: `port_read w n` is `read_n` of `n` bytes and gives the bytes it read, or
-- `none` for a negative result, and `port_write` is `write_n` and says whether its result is not
-- negative. `W` is the state of the port. `quit_` is volatile and is read from it. The lock is the
-- guard of Guard.antt around each call. An `int` result is the 32-bit word that its bits stand for,
-- and an access outside a buffer is `none`. `big` says whether the host is big-endian.
pub mod Client
pub mod Packets
pub mod Serve
pub mod Tests
use ctrlr_fx.Prelude.{
  ℕ, zero, suc, ◌+◌, ◌*◌, ◌-◌, ◌%◌, ◌^◌, List, [], ◌∷◌, ◌++◌, Option, none, some, ◌>>=◌, Bool, true,
  false, not, ◌==◌, ◌&&◌, ltb, if◌then◌else◌, length, take, drop, get_elem?, replicate,
}
use ctrlr_fx.Memory.{store_block}
use ctrlr_fx.Buffer
use ctrlr_fx.Buffer.{Buffer}
use ctrlr_fx.BufCodec
use ctrlr_fx.BufCodec.{Codec}
use ctrlr_fx.BufCodec.Bytes.{host_bytes, host_value}
use ctrlr_fx.DistObj.{ObjMap, dispatch}

-- `BIN_MSG_TYPE_CMD` and `BIN_MSG_TYPE_RSP`.
abbrev pub msg_type_cmd : ℕ
msg_type_cmd = 0

abbrev pub msg_type_rsp : ℕ
msg_type_rsp = 1

-- `-CFXE_PACKET_WRITE`, `-CFXE_PACKET_READ` and `-CFXE_UNKNOWN_OBJ`.
abbrev pub packet_write_error : ℕ
packet_write_error = 2 ^ 32 - 3

abbrev pub packet_read_error : ℕ
packet_read_error = 2 ^ 32 - 4

abbrev pub unknown_obj_error : ℕ
unknown_obj_error = 2 ^ 32 - 6

-- `tgt_obj(obj_class, obj_inst)`
abbrev pub tgt_obj : ℕ → ℕ → ℕ
tgt_obj obj_class obj_inst = obj_class * 2 ^ 16 + obj_inst

-- The bytes of a `BinPktHdr` and of a `BinRspHdr`.
abbrev pub pkt_hdr : Bool → ℕ → ℕ → ℕ → List ℕ
pkt_hdr big byte_order msg_type msg_size =
    67 ∷ 88 ∷ byte_order ∷ msg_type ∷ host_bytes big 4 msg_size

abbrev pub rsp_hdr : Bool → ℕ → ℕ → List ℕ
rsp_hdr big msg_id reply = host_bytes big 4 msg_id ++ host_bytes big 4 reply

-- A field of one byte of a header in memory.
abbrev pub byte_at : List ℕ → ℕ → ℕ
byte_at hdr i = elim (get_elem? hdr i) [ none ↦ 0 | some b ↦ b ]

-- The bytes with others put over them from `i` on.
abbrev overlay : List ℕ → ℕ → List ℕ → List ℕ
overlay mem i bytes = take i mem ++ (bytes ++ drop (i + length bytes) mem)

-- `read_n(ByteBuffer&)` of a device: a block read for what is available, from the position on.
module _ {W : Type 0} (port_read : W → ℕ → Option (List ℕ) × W) where
  abbrev pub read_buffer : W → Buffer ℕ → Option (Buffer ℕ × W)
  read_buffer w b =
      let r = port_read w (Buffer.available b) in
      elim r.0 [
        | none ↦ some (b, r.1)
        | some bytes ↦ store_block b.buf b.pos bytes >>= λ mem.
            some (record b { buf = mem; pos = b.pos + length bytes }, r.1)
      ]

-- The bytes that `write_n(ByteBuffer&)` sends.
abbrev pub contents : Buffer ℕ → List ℕ
contents b = take (Buffer.available b) (drop b.pos b.buf)

module _ {W : Type 0} (port_read : W → ℕ → Option (List ℕ) × W) (port_write : W → List ℕ → Bool × W)
    (big : Bool) where
  -- The end of `send`, with `msg_size` of the response: the reply, and the response's payload.
  abbrev receive : W → ℕ → ℕ → Buffer ℕ → Option (ℕ × Buffer ℕ × W)
  receive w msg_size reply rsp =
      let n = (msg_size + 2 ^ 32 - 8) % 2 ^ 32 in
      if n == 0
      then some (reply, rsp, w)
      else (read_buffer port_read w (Buffer.set_size rsp n) >>= λ r.
          some (reply, Buffer.flip r.0, r.1))

  -- `send(msg_type, packet, rsp)`. The size of the payload is not compared with the buffer's.
  unfoldable pub send : W → ℕ → Buffer ℕ → Buffer ℕ → Option (ℕ × Buffer ℕ × W)
  send w msg_type packet rsp =
      let a = port_write w (pkt_hdr big 0 msg_type (Buffer.available packet % 2 ^ 32)) in
      let b = port_write a.1 (contents packet) in
      let c = port_read b.1 8 in
      elim a.0 [
        | false ↦ some (packet_write_error, rsp, a.1)
        | true ↦ elim b.0 [
          | false ↦ some (packet_write_error, rsp, b.1)
          | true ↦ elim c.0 [
            | none ↦ some (packet_read_error, rsp, c.1)
            | some hdr ↦
                let d = port_read c.1 8 in
                if not (length hdr == 8) then some (packet_read_error, rsp, c.1) else elim d.0 [
                  | none ↦ some (packet_read_error, rsp, d.1)
                  | some rhdr ↦
                      if not (length rhdr == 8)
                      then some (packet_read_error, rsp, d.1)
                      else receive d.1 (host_value big (drop 4 hdr)) (host_value big (drop 4 rhdr))
                          rsp
                ]
          ]
        ]
      ]

-- What `get_pkt_hdr` returns: -1 or the negative result of a read, the error for a server that
-- closes, or 0 with the header.
pub data HdrResult : Type 0 where
  failed closing : HdrResult
  got : List ℕ → HdrResult

-- `BinCmdHdr`
pub record CmdHdr : Type 0 where
  pub msg_id : ℕ
  pub tgt : ℕ
  pub operation : ℕ

-- A field of the command header, which stays as it was when the packet is too short.
abbrev pub field : Bool → Codec → ℕ → Option (ℕ × Codec)
field big c old = BufCodec.get big c 4 >>= λ r. some (elim r.1 [ none ↦ old | some v ↦ v ], r.2)

-- The buffers, which `cmd_decoder` and `rsp_encoder` hold by reference, and the locals of `run`.
pub record Server : Type 0 where
  pub cmd : Codec
  pub rsp : Codec
  pub hdr : List ℕ
  pub cmd_hdr : CmdHdr

module _ {W : Type 0} (port_read : W → ℕ → Option (List ℕ) × W) (port_write : W → List ℕ → Bool × W)
    (quit_ : W → Bool) (big : Bool) where
  -- The end of `get_pkt_hdr`, after the loop.
  abbrev rest_of_hdr : W → List ℕ → HdrResult × W
  rest_of_hdr w hdr =
      let r = port_read w 6 in
      if quit_ w then (closing, w) else (
        elim r.0 [
          | none ↦ failed
          | some bytes ↦ got (overlay (overlay hdr 0 (67 ∷ 88 ∷ [])) 2 bytes)
        ],
        r.1,
      )

  -- The loop of `get_pkt_hdr`, with at most the given number of rounds: `magic` and `nx`.
  unfoldable pub hdr_rounds : ℕ → W → List ℕ → ℕ → List ℕ → Option (HdrResult × W)
  hdr_rounds zero w magic nx hdr = none
  hdr_rounds (suc fuel) w magic nx hdr =
      let r = port_read w (2 - nx) in
      elim r.0 [
        | none ↦ some (failed, r.1)
        | some bytes ↦ elim (length bytes == 0) [
          | true ↦ some (failed, r.1)
          | false ↦
              let read = overlay magic nx bytes in
              let again = byte_at read 1 == 67 in
              let magic' = if again then 67 ∷ 0 ∷ [] else read in
              let nx' = if again then 1 else nx in
              elim ((byte_at magic' 0 == 67) && (byte_at magic' 1 == 88)) [
                | true ↦ some (rest_of_hdr r.1 hdr)
                | false ↦ elim (quit_ r.1) [
                  | true ↦ some (rest_of_hdr r.1 hdr)
                  | false ↦ hdr_rounds fuel r.1 magic' nx' hdr
                ]
              ]
        ]
      ]

  module _ {O : Type 0} (invoke : O → ℕ → ℕ → Codec → Codec → Option (ℕ × Codec × Codec × O))
      (map : List ObjMap) (max : ℕ) where
    -- From the payload on, in `run`: the command, the dispatch, and the response.
    abbrev respond : Server → O → W → ℕ → Option (Server × O × W)
    respond s o w ret =
        let rsp = Buffer.flip s.rsp.buf_ in
        let size = (8 + Buffer.available rsp) % 2 ^ 32 in
        let hdr = pkt_hdr big (byte_at s.hdr 2) msg_type_rsp size in
        let a = port_write w hdr in
        let b = port_write a.1 (rsp_hdr big s.cmd_hdr.msg_id ret) in
        let c = port_write b.1 (contents rsp) in
        some (
          record s { hdr = hdr; rsp = record s.rsp { buf_ = rsp } },
          o,
          (if ltb 0 size then c.1 else b.1),
        )

    unfoldable pub command : Server → O → W → Option (Server × O × W)
    command s o w = do
      a ← field big s.cmd s.cmd_hdr.msg_id
      b ← field big a.1 s.cmd_hdr.tgt
      c ← field big b.1 s.cmd_hdr.operation
      let rsp = BufCodec.clear s.rsp
      r ←
          dispatch (λ obj op. invoke o obj op c.1 rsp) (some (unknown_obj_error, c.1, rsp, o)) map
            max b.0 c.0
      q ← r
      let s' = record s {
        cmd = q.1;
        rsp = q.2;
        cmd_hdr = record { msg_id = a.0; tgt = b.0; operation = c.0 };
      }
      respond s' q.3 w q.0

    -- One round of the loop of `run`, with the rounds that `get_pkt_hdr` may take and what it finds in
    -- its `magic`: whether the loop goes on.
    unfoldable pub serve : ℕ → List ℕ → Server → O → W → Option (Bool × Server × O × W)
    unfolding hdr_rounds command
    serve fuel magic s o w = hdr_rounds fuel w magic 0 s.hdr >>= λ r. elim (quit_ r.1) [
      | true ↦ some (false, s, o, r.1)
      | false ↦ elim r.0 [
        | failed ↦ some (false, s, o, r.1)
        | closing ↦ some (false, s, o, r.1)
        | got hdr ↦
            read_buffer port_read r.1 (Buffer.clear_to s.cmd.buf_ (host_value big (drop 4 hdr)))
            >>= λ p.
                let t = record s {
                  hdr = hdr;
                  cmd = BufCodec.rewind (record s.cmd { buf_ = Buffer.flip p.0 });
                } in
                if byte_at hdr 3 == msg_type_cmd
                then (command t o p.1 >>= λ q. some (true, q.0, q.1, q.2))
                else some (true, t, o, p.1)
      ]
    ]

    -- `run`, with the rounds of its loop and of `get_pkt_hdr`.
    pub run : ℕ → ℕ → List ℕ → Server → O → W → Option (Server × O × W)
    unfolding serve
    run zero fuel magic s o w = none
    run (suc rounds) fuel magic s o w = elim (quit_ w) [
      | true ↦ some (s, o, w)
      | false ↦ serve fuel magic s o w >>= λ r. elim r.0 [
        | false ↦ some (r.1, r.2, r.3)
        | true ↦ run rounds fuel magic r.1 r.2 r.3
      ]
    ]
