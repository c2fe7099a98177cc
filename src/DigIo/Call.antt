-- ===== src/DigIo/Call.antt =====
-- src/DistObj: a call of a stub, through the client's end of a port and the server's end of another,
-- up to the object and back.
use ctrlr_fx.Prelude.{
  ℕ, suc, ◌+◌, ◌%◌, ◌^◌, ◌≤◌, ◌<◌, ◌≡◌, ◌≢◌, refl, ap, ◌∙◌, List, [], ◌++◌, Option, some, Bool,
  true, false, length, length-append, drop, arith,
}
use ctrlr_fx.Buffer
use ctrlr_fx.Buffer.{Buffer}
use ctrlr_fx.BufCodec
use ctrlr_fx.BufCodec.{Codec}
use ctrlr_fx.BufCodec.Bytes.{host_bytes, length-host_bytes}
use ctrlr_fx.BufCodec.Packed.{get_due}
use ctrlr_fx.DistObj.{ObjMap}
use ctrlr_fx.DistObj.Registry.{Registered, lookup}
use ctrlr_fx.DistObjSrvr.{Server, send, serve}
use ctrlr_fx.DistObjSrvr.Client.{Open, request, response, send_lem}
use ctrlr_fx.DistObjSrvr.Packets.{cmd_body}
use ctrlr_fx.DistObjSrvr.Serve.{Ready, serve_lem}
use ctrlr_fx.DigIo
use ctrlr_fx.DigIo.{fixed_buffer}
use ctrlr_fx.DigIo.Stub.{fixed-IsValid, put_cmd_hdr_lem, no_args, put_args_lem, contents-flip}
use ctrlr_fx.DigIo.Skel.{flag, dig_out, set-Answers, width-Answers}

-- The bytes of a stub's packets and of the answers.
abbrev pub set_request : Bool → ℕ → ℕ → ℕ → Bool → List ℕ
set_request big msg_id tgt bit b =
    request big (cmd_body big msg_id tgt 1 (host_bytes big 4 bit ++ host_bytes big 1 (flag b)))

abbrev pub width_request : Bool → ℕ → ℕ → List ℕ
width_request big msg_id tgt = request big (cmd_body big msg_id tgt 0 [])

module _ {W : Type 0} (port_read : W → ℕ → Option (List ℕ) × W) (port_write : W → List ℕ → Bool × W)
    (input output : W → List ℕ) (law : Open port_read port_write input output) (big : Bool)
    (tgt msg_id : ℕ) (w : W) (found rsp_found rest : List ℕ) (size : length found ≡ 256)
    (rsp_size : length rsp_found ≡ 256) where
  -- The stub's end of a call of `set`.
  pub set_stub :
      (bit : ℕ) (b : Bool)
      → input w ≡ response big 0 msg_id 0 [] ++ rest
      → (w' : W) × (DigIo.set big (send port_read port_write big) tgt w msg_id found rsp_found bit b
          ≡ some ((msg_id + 1) % 2 ^ 32, w'))
        × (input w' ≡ rest)
        × (output w' ≡ output w ++ set_request big msg_id tgt bit b)
  unfolding DigIo.set BufCodec.put_bool
  set_stub bit b e =
      let (h, run1, g) =
        put_cmd_hdr_lem big (send port_read port_write big) tgt found msg_id 1 size in
      let (b1, b2, run2, run3, _, c) =
        put_args_lem big (send port_read port_write big) tgt found msg_id 1 bit (flag b) h g in
      let (rsp', w', sent, p, i, o) =
        send_lem port_read port_write input output law big w (Buffer.flip b2)
          (fixed_buffer rsp_found) 0 msg_id 0 [] rest (omega (arith, c.valid)) (omega arith)
          (fixed-IsValid rsp_found rsp_size) refl (omega arith) (omega arith) e in
      (
        w',
        rw run1 (rw run2 (rw run3 (rw sent refl))),
        i,
        o
            ∙ ap (λ t. output w ++ request big t)
                (contents-flip (fixed_buffer found) b2
                  (cmd_body big msg_id tgt 1 (host_bytes big 4 bit ++ host_bytes big 1 (flag b)))
                  refl c),
      )

  -- The stub's end of a call of `width`.
  pub width_stub :
      (n : ℕ)
      → n < 2 ^ 32
      → input w ≡ response big 0 msg_id 0 (host_bytes big 4 n) ++ rest
      → (w' : W) × (DigIo.width big (send port_read port_write big) tgt w msg_id found rsp_found
          ≡ some (n, (msg_id + 1) % 2 ^ 32, w'))
        × (input w' ≡ rest)
        × (output w' ≡ output w ++ width_request big msg_id tgt)
  unfolding DigIo.width BufCodec.init
  width_stub n small e =
      let four = length-host_bytes big 4 n in
      let (h, run1, g) =
        put_cmd_hdr_lem big (send port_read port_write big) tgt found msg_id 0 size in
      let c = no_args big (send port_read port_write big) tgt found msg_id 0 h g in
      let (rsp', w', sent, p, i, o) =
        send_lem port_read port_write input output law big w (Buffer.flip h)
          (fixed_buffer rsp_found) 0 msg_id 0 (host_bytes big 4 n) rest (omega (arith, c.valid))
          (omega arith) (fixed-IsValid rsp_found rsp_size) refl (omega (arith, four)) (omega arith)
          e in
      let some_ : 0 < length (host_bytes big 4 n) = omega (arith, four) in
      let (tail, held) = p.bytes in
      let start = p.start some_ in
      let read =
        get_due big rsp' p.valid 4 (omega arith) (ap (λ m. m % 4) start)
          (omega (arith, start, p.limit some_, four)) n tail small
          (ap (λ m. drop m rsp'.buf) start ∙ held some_) in
      (
        w',
        rw run1 (rw sent (rw read refl)),
        i,
        o
            ∙ ap (λ t. output w ++ request big t)
                (contents-flip (fixed_buffer found) h (cmd_body big msg_id tgt 0 []) refl c),
      )

-- A client with a stub for the target, and a server with a digital output registered for it. `n` is
-- what the server's uninitialised local holds.
module _ {V W O : Type 0} (client_read : V → ℕ → Option (List ℕ) × V)
    (client_write : V → List ℕ → Bool × V) (client_in client_out : V → List ℕ)
    (client : Open client_read client_write client_in client_out)
    (port_read : W → ℕ → Option (List ℕ) × W) (port_write : W → List ℕ → Bool × W)
    (input output : W → List ℕ) (quit_ : W → Bool) (law : Open port_read port_write input output)
    (runs : (w : W) → quit_ w ≡ false) (big : Bool) (width : O → ℕ) (n : ℕ) (set : O → ℕ → Bool → O)
    (clear toggle : O → ℕ → O) (map : List ObjMap) (max : ℕ) (es : List ObjMap)
    (reg : Registered map max es) (spare : length es < max) (tgt msg_id : ℕ)
    (known : lookup es tgt ≢ 0) (small_tgt : tgt < 2 ^ 32) (small_id : msg_id < 2 ^ 32) (v : V)
    (w : W) (found rsp_found rest later magic : List ℕ) (size : length found ≡ 256)
    (rsp_size : length rsp_found ≡ 256) (two : length magic ≡ 2) (fuel : ℕ) (s : Server) (o : O)
    (ready : Ready s) (cmd_room : 17 ≤ s.cmd.buf_.end_) where
  -- One round of the server's loop.
  abbrev pub round : Option (Bool × Server × O × W)
  round =
      serve port_read port_write quit_ big (dig_out big width n set clear toggle) map max (suc fuel)
        magic s o w

  -- A stub sets a bit of a remote digital output over two open ports, of hosts with the same byte
  -- order, with the object registered and the buffers large enough: where the server finds the
  -- packet that the stub sends, and the stub the one that the server answers with, the call ends,
  -- the object is set with the same bit and value, and both ends are ready for what follows.
  pub set_call :
      (bit : ℕ) (b : Bool)
      → bit < 2 ^ 32
      → client_in v ≡ response big 0 msg_id 0 [] ++ rest
      → input w ≡ set_request big msg_id tgt bit b ++ later
      → (v' : V) × (w' : W) × (s' : Server) × (DigIo.set big
            (send client_read client_write big)
            tgt
            v
            msg_id
            found
            rsp_found
            bit
            b
          ≡ some ((msg_id + 1) % 2 ^ 32, v'))
        × (client_out v' ≡ client_out v ++ set_request big msg_id tgt bit b)
        × (client_in v' ≡ rest)
        × (round ≡ some (true, s', set o bit b, w'))
        × (output w' ≡ output w ++ response big 0 msg_id 0 [])
        × (input w' ≡ later)
        × Ready s'
  set_call bit b small e f =
      let (v', called, i, out) =
        set_stub client_read client_write client_in client_out client big tgt msg_id v found
          rsp_found rest size rsp_size bit b e in
      let (s', w', served, r, j, put_) =
        serve_lem port_read port_write input output quit_ law runs big
          (dig_out big width n set clear toggle) map max es reg spare fuel s o w magic msg_id tgt 1
          (host_bytes big 4 bit ++ host_bytes big 1 (flag b)) later 0 [] (set o bit b) two ready
          small_id small_tgt (omega arith)
          (omega (
            arith,
            cmd_room,
            length-append (host_bytes big 4 bit) (host_bytes big 1 (flag b)),
            length-host_bytes big 4 bit,
            length-host_bytes big 1 (flag b),
          ))
          known
          (set-Answers big width n set clear toggle s o (lookup es tgt) msg_id tgt ready bit b small
            cmd_room)
          f in
      (v', w', s', called, out, i, served, put_, j, r)

  -- In the same way a stub that asks a remote digital output for its width returns the width of
  -- the object, which is as before.
  pub width_call :
      width o < 2 ^ 32
      → 4 ≤ s.rsp.buf_.end_
      → client_in v ≡ response big 0 msg_id 0 (host_bytes big 4 (width o)) ++ rest
      → input w ≡ width_request big msg_id tgt ++ later
      → (v' : V) × (w' : W) × (s' : Server) × (DigIo.width big
            (send client_read client_write big)
            tgt
            v
            msg_id
            found
            rsp_found
          ≡ some (width o, (msg_id + 1) % 2 ^ 32, v'))
        × (client_out v' ≡ client_out v ++ width_request big msg_id tgt)
        × (client_in v' ≡ rest)
        × (round ≡ some (true, s', o, w'))
        × (output w' ≡ output w ++ response big 0 msg_id 0 (host_bytes big 4 (width o)))
        × (input w' ≡ later)
        × Ready s'
  width_call small rsp_room e f =
      let (v', called, i, out) =
        width_stub client_read client_write client_in client_out client big tgt msg_id v found
          rsp_found rest size rsp_size (width o) small e in
      let (s', w', served, r, j, put_) =
        serve_lem port_read port_write input output quit_ law runs big
          (dig_out big width n set clear toggle) map max es reg spare fuel s o w magic msg_id tgt 0
          [] later 0 (host_bytes big 4 (width o)) o two ready small_id small_tgt (omega arith)
          (omega (arith, cmd_room)) known
          (width-Answers big width n set clear toggle s o (lookup es tgt) msg_id tgt ready small
            (omega (arith, cmd_room)) rsp_room)
          f in
      (v', w', s', called, out, i, served, put_, j, r)
