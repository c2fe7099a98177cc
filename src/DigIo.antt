-- ===== src/DigIo.antt =====
-- CtrlrFx/DigIO.h, CtrlrFx/DigIO_stub.h, CtrlrFx/DigIO_skel.h, src/DistObj/DigIO_stub.cpp and
-- src/DistObj/DigIO_skel.cpp: digital ports that a client uses from afar. A stub encodes a command
-- and sends it through the client's `DistObjSrvr`; a skeleton decodes it and calls the object, whose
-- methods are virtual and parameters here. An `int32_t` is the 32-bit word that its bits stand for. A
-- local that is not initialised holds `found`, and so does a fresh buffer.
pub mod Stub
pub mod Skel
pub mod Call
mod Tests
use ctrlr_fx.Prelude.{
  ℕ, ◌+◌, ◌-◌, ◌%◌, ◌^◌, List, [], ◌∷◌, Option, none, some, ◌>>=◌, Bool, true, false, not, ◌==◌,
  if◌then◌else◌,
}
use ctrlr_fx.Buffer
use ctrlr_fx.Buffer.{Buffer}
use ctrlr_fx.BufCodec
use ctrlr_fx.BufCodec.{Codec}

-- `CMD_SIZE`
abbrev pub cmd_size : ℕ
cmd_size = 256

-- `DigIn::WIDTH_CMD` and `VALUE_CMD`; `DigOut::WIDTH_CMD`, `SET_CMD`, `CLEAR_CMD`, `TOGGLE_CMD`.
abbrev pub width_cmd_op : ℕ
width_cmd_op = 0

abbrev pub value_cmd_op : ℕ
value_cmd_op = 1

abbrev pub set_cmd_op : ℕ
set_cmd_op = 1

abbrev pub clear_cmd_op : ℕ
clear_cmd_op = 2

abbrev pub toggle_cmd_op : ℕ
toggle_cmd_op = 3

-- `FixedBuffer<byte, CMD_SIZE>`
abbrev pub fixed_buffer : List ℕ → Buffer ℕ
fixed_buffer found = record {
  buf = found;
  pos = 0;
  lim = cmd_size;
  end_ = cmd_size;
  mark_ = 0;
  own = false;
}

-- The value that a local of the given content has after a read.
abbrev pub read : ℕ → Option ℕ → ℕ
read found none = found
read found (some v) = v

-- The same for a `bool`, read as one byte.
abbrev pub read_bool : Bool → Option ℕ → Bool
read_bool found none = found
read_bool found (some v) = not (v == 0)

-- `send` of the client's server, with the state of its port.
abbrev pub Sender : Type 0 → Type 0
Sender W = W → ℕ → Buffer ℕ → Buffer ℕ → Option (ℕ × Buffer ℕ × W)

module _ {W : Type 0} (big : Bool) (send : Sender W) (tgt : ℕ) where
  -- `put_cmd_hdr`, with `next_msg_id`: the next identifier, and the encoder.
  unfoldable pub put_cmd_hdr : Codec → ℕ → ℕ → Option (ℕ × Codec)
  put_cmd_hdr enc msg_id cmd = do
    a ← BufCodec.put big enc 4 msg_id
    b ← BufCodec.put big a.1 4 tgt
    c ← BufCodec.put big b.1 4 cmd
    some ((msg_id + 1) % 2 ^ 32, c.1)

  -- The call of `send`, with type `BIN_MSG_TYPE_CMD`.
  abbrev sent : W → Codec → List ℕ → Option (ℕ × Buffer ℕ × W)
  sent w enc rsp_found = send w 0 (Buffer.flip enc.buf_) (fixed_buffer rsp_found)

  -- `width()` of both stubs: the result, the next identifier and the port.
  unfoldable pub width : W → ℕ → List ℕ → List ℕ → Option (ℕ × ℕ × W)
  width w msg_id found rsp_found = do
    h ← put_cmd_hdr (BufCodec.init (fixed_buffer found)) msg_id width_cmd_op
    r ← sent w h.1 rsp_found
    if r.0 == 0
        then (BufCodec.get big (BufCodec.init r.1) 4 >>= λ g. some (read 0 g.1, h.0, r.2))
        else some (0, h.0, r.2)

  -- `DigIn_stub::value(bit)`
  unfoldable pub value : W → ℕ → List ℕ → List ℕ → ℕ → Option (Bool × ℕ × W)
  value w msg_id found rsp_found bit = do
    h ← put_cmd_hdr (BufCodec.init (fixed_buffer found)) msg_id value_cmd_op
    c ← BufCodec.put big h.1 4 bit
    r ← sent w c.1 rsp_found
    if r.0 == 0
        then (BufCodec.get big (BufCodec.init r.1) 1 >>= λ g. some (read_bool false g.1, h.0, r.2))
        else some (false, h.0, r.2)

  -- `DigOut_stub::set(bit, b)`
  unfoldable pub set : W → ℕ → List ℕ → List ℕ → ℕ → Bool → Option (ℕ × W)
  set w msg_id found rsp_found bit b = do
    h ← put_cmd_hdr (BufCodec.init (fixed_buffer found)) msg_id set_cmd_op
    c ← BufCodec.put big h.1 4 bit
    d ← BufCodec.put_bool big c.1 b
    r ← sent w d.1 rsp_found
    some (h.0, r.2)

  -- `DigOut_stub::clear(bit)` and `DigOut_stub::toggle(bit)`, which differ in the command.
  unfoldable pub bit_command : ℕ → W → ℕ → List ℕ → List ℕ → ℕ → Option (ℕ × W)
  bit_command cmd w msg_id found rsp_found bit = do
    h ← put_cmd_hdr (BufCodec.init (fixed_buffer found)) msg_id cmd
    c ← BufCodec.put big h.1 4 bit
    r ← sent w c.1 rsp_found
    some (h.0, r.2)

-- What a handler gives: the result, the decoder, the encoder and the object.
abbrev pub Handled : Type 0 → Type 0
Handled O = Option (ℕ × Codec × Codec × O)

module _ {O : Type 0} where
  -- `get_mbr_ptr(op)`: the handler of the first entry; the table ends before its sentinel.
  abbrev get_mbr_ptr :
      List (ℕ × (Codec → Codec → Handled O)) → ℕ → Option (Codec → Codec → Handled O)
  get_mbr_ptr [] op = none
  get_mbr_ptr (m ∷ rest) op =
      let later = get_mbr_ptr rest op in if m.0 == op then some m.1 else later

  -- `invoke`, with what it returns for an unknown command.
  abbrev invoke : List (ℕ × (Codec → Codec → Handled O)) → ℕ → O → ℕ → Codec → Codec → Handled O
  invoke method_map unknown o op param rsp = elim (get_mbr_ptr method_map op) [
    | none ↦ some (unknown, param, rsp, o)
    | some handler ↦ handler param rsp
  ]

module _ {O : Type 0} (big : Bool) (width : O → ℕ) (found : ℕ) where
  -- `width_cmd` of both skeletons.
  abbrev width_cmd : O → Codec → Codec → Handled O
  width_cmd o param rsp = BufCodec.put big rsp 4 (width o) >>= λ r. some (0, param, r.1, o)

  -- `DigIn_skel::invoke`, which returns -1 for an unknown command.
  module _ (value : O → ℕ → Bool) where
    abbrev value_cmd : O → Codec → Codec → Handled O
    value_cmd o param rsp = do
      p ← BufCodec.get big param 4
      r ← BufCodec.put_bool big rsp (value o (read found p.1))
      some (0, p.2, r.1, o)

    unfoldable pub dig_in_invoke : O → ℕ → Codec → Codec → Handled O
    dig_in_invoke o = invoke ((0, width_cmd o) ∷ (1, value_cmd o) ∷ []) (2 ^ 32 - 1) o

  -- `DigOut_skel::invoke`, which returns `-CFXE_UNKNOWN_CMD` for an unknown command.
  module _ (set : O → ℕ → Bool → O) (clear toggle : O → ℕ → O) where
    -- The second parameter of `SET_CMD` is optional.
    abbrev set_cmd : O → Codec → Codec → Handled O
    set_cmd o param rsp = do
      p ← BufCodec.get big param 4
      q ← BufCodec.get big p.2 1
      some (0, q.2, rsp, set o (read found p.1) (read_bool true q.1))

    abbrev clear_cmd : O → Codec → Codec → Handled O
    clear_cmd o param rsp =
        BufCodec.get big param 4 >>= λ p. some (0, p.2, rsp, clear o (read found p.1))

    abbrev toggle_cmd : O → Codec → Codec → Handled O
    toggle_cmd o param rsp =
        BufCodec.get big param 4 >>= λ p. some (0, p.2, rsp, toggle o (read found p.1))

    unfoldable pub dig_out_invoke : O → ℕ → Codec → Codec → Handled O
    dig_out_invoke o =
        invoke ((0, width_cmd o) ∷ (1, set_cmd o) ∷ (2, clear_cmd o) ∷ (3, toggle_cmd o) ∷ [])
          (2 ^ 32 - 7) o
