-- ===== src/DigIo/Skel.antt =====
-- src/DistObj/DigIO_skel.cpp: what a skeleton answers to the commands of a stub.
use ctrlr_fx.Prelude.{
  ℕ, ◌+◌, ◌^◌, ◌≤◌, ◌<◌, ◌≡◌, refl, ap, ◌∙◌, List, [], ◌++◌, append_assoc, Option, some, Bool, true,
  false, if◌then◌else◌, length, length-append, drop, arith,
}
use ctrlr_fx.Buffer
use ctrlr_fx.Buffer.{Buffer}
use ctrlr_fx.BufCodec
use ctrlr_fx.BufCodec.{Codec}
use ctrlr_fx.BufCodec.Bytes.{host_bytes, length-host_bytes}
use ctrlr_fx.BufCodec.Native.{IsValid}
use ctrlr_fx.BufCodec.Packed.{good, Grown, put_due, get_due}
use ctrlr_fx.DistObjSrvr.{Server}
use ctrlr_fx.DistObjSrvr.Packets.{cmd_body, length-cmd_body, loaded, args_lem, behind}
use ctrlr_fx.DistObjSrvr.Serve.{Answers, Ready}
use ctrlr_fx.DigIo.{read_bool, dig_out_invoke}

abbrev pub flag : Bool → ℕ
flag b = if b then 1 else 0

-- An empty response.
nothing_put : (b : Buffer ℕ) → IsValid b → Grown (Buffer.clear b) [] (Buffer.clear b)
nothing_put b v = record { valid = omega (arith, v); next = refl; limit = refl; out = refl }

-- The decoder with a command's arguments, and what it gets: the first, of four bytes, and a second
-- of one byte.
module _ (big : Bool) (b : Buffer ℕ) (v : IsValid b) (msg_id tgt op : ℕ) where
  abbrev pub decoder : List ℕ → ℕ → Codec
  decoder args p = good (record (loaded b (cmd_body big msg_id tgt op args)) { pos = p })

  first_lem :
      (bit : ℕ) (more : List ℕ)
      → bit < 2 ^ 32
      → 16 + length more ≤ b.end_
      → BufCodec.get big (decoder (host_bytes big 4 bit ++ more) 12) 4
        ≡ some (4, some bit, decoder (host_bytes big 4 bit ++ more) 16)
  first_lem bit more small fits =
      let args = host_bytes big 4 bit ++ more in
      let body = cmd_body big msg_id tgt op args in
      let tail = drop (0 + length body) b.buf in
      let long = length-cmd_body big msg_id tgt op args in
      let size : length args ≡ 4 + length more =
        omega (arith, length-append (host_bytes big 4 bit) more, length-host_bytes big 4 bit) in
      let (w, e) = args_lem big b msg_id tgt op args v (omega (arith, size, fits)) in
      get_due big (record (loaded b body) { pos = 12 }) (omega (arith, w, long, size)) 4
        (omega arith) refl (omega (arith, long, size)) bit (more ++ tail) small
        (e ∙ append_assoc (host_bytes big 4 bit) more tail)

  second_lem :
      (bit f : ℕ)
      → f < 256
      → 17 ≤ b.end_
      → BufCodec.get big (decoder (host_bytes big 4 bit ++ host_bytes big 1 f) 16) 1
        ≡ some (1, some f, decoder (host_bytes big 4 bit ++ host_bytes big 1 f) 17)
  second_lem bit f small fits =
      let args = host_bytes big 4 bit ++ host_bytes big 1 f in
      let body = cmd_body big msg_id tgt op args in
      let tail = drop (0 + length body) b.buf in
      let long = length-cmd_body big msg_id tgt op args in
      let size : length args ≡ 5 = omega (
        arith,
        length-append (host_bytes big 4 bit) (host_bytes big 1 f),
        length-host_bytes big 4 bit,
        length-host_bytes big 1 f,
      ) in
      let (w, e) = args_lem big b msg_id tgt op args v (omega (arith, size, fits)) in
      get_due big (record (loaded b body) { pos = 16 }) (omega (arith, w, long, size)) 1
        (omega arith) refl (omega (arith, long, size)) f tail small
        (ap (λ n. drop n (body ++ tail)) {x = 16} (omega (arith, length-host_bytes big 4 bit))
          ∙ behind (body ++ tail) 12 (host_bytes big 4 bit) (host_bytes big 1 f ++ tail)
              (e ∙ append_assoc (host_bytes big 4 bit) (host_bytes big 1 f) tail))

read_flag : (found b : Bool) → read_bool found (some (flag b)) ≡ b
read_flag found true = refl
read_flag found false = refl

flag_small : (b : Bool) → flag b < 256
flag_small true = omega arith
flag_small false = omega arith

module _ {O : Type 0} (big : Bool) (width : O → ℕ) (found : ℕ) (set : O → ℕ → Bool → O)
    (clear toggle : O → ℕ → O) where
  -- The object, behind its pointer.
  abbrev pub dig_out : O → ℕ → ℕ → Codec → Codec → Option (ℕ × Codec × Codec × O)
  dig_out o obj op param rsp = dig_out_invoke big width found set clear toggle o op param rsp

module _ {O : Type 0} (big : Bool) (width : O → ℕ) (found : ℕ) (set : O → ℕ → Bool → O)
    (clear toggle : O → ℕ → O) (s : Server) (o : O) (obj msg_id tgt : ℕ) (ready : Ready s) where
  pub set-Answers :
      (bit : ℕ) (b : Bool)
      → bit < 2 ^ 32
      → 17 ≤ s.cmd.buf_.end_
      → Answers
          (dig_out big width found set clear toggle)
          s
          o
          obj
          1
          (cmd_body big msg_id tgt 1 (host_bytes big 4 bit ++ host_bytes big 1 (flag b)))
          0
          []
          (set o bit b)
  unfolding dig_out_invoke
  set-Answers bit b small fits =
      let f = flag b in
      let args = host_bytes big 4 bit ++ host_bytes big 1 f in
      let long : length args ≡ 5 = omega (
        arith,
        length-append (host_bytes big 4 bit) (host_bytes big 1 f),
        length-host_bytes big 4 bit,
        length-host_bytes big 1 f,
      ) in
      let first =
        first_lem big s.cmd.buf_ ready.cmd msg_id tgt 1 bit (host_bytes big 1 f) small
          (omega (arith, fits, length-host_bytes big 1 f)) in
      let second = second_lem big s.cmd.buf_ ready.cmd msg_id tgt 1 bit f (flag_small b) fits in
      record {
        cmd = decoder big s.cmd.buf_ ready.cmd msg_id tgt 1 args 17;
        rsp = BufCodec.clear s.rsp;
        run =
            rw (dig_out_invoke, first)
              (rw second (
                ap
                  (λ x. some (
                    0,
                    decoder big s.cmd.buf_ ready.cmd msg_id tgt 1 args 17,
                    BufCodec.clear s.rsp,
                    set o bit x,
                  ))
                  (read_flag true b)));
        grown = nothing_put s.rsp.buf_ ready.rsp;
        valid = omega (
          arith,
          fits,
          long,
          (args_lem big s.cmd.buf_ msg_id tgt 1 args ready.cmd (omega (arith, fits, long))).0,
          length-cmd_body big msg_id tgt 1 args,
        );
      }

  pub width-Answers :
      width o < 2 ^ 32
      → 12 ≤ s.cmd.buf_.end_
      → 4 ≤ s.rsp.buf_.end_
      → Answers
          (dig_out big width found set clear toggle)
          s
          o
          obj
          0
          (cmd_body big msg_id tgt 0 [])
          0
          (host_bytes big 4 (width o))
          o
  unfolding dig_out_invoke
  width-Answers small fits room =
      let (w, _) = args_lem big s.cmd.buf_ msg_id tgt 0 [] ready.cmd fits in
      let (b, run, g) =
        put_due big (Buffer.clear s.rsp.buf_) (omega (arith, ready.rsp)) 4 (omega arith) refl room
          (width o) in
      record {
        cmd = decoder big s.cmd.buf_ ready.cmd msg_id tgt 0 [] 12;
        rsp = good b;
        run = rw (dig_out_invoke, run) refl;
        grown = g;
        valid = omega (arith, w, fits, length-cmd_body big msg_id tgt 0 []);
      }
