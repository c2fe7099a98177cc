-- ===== src/DistObjSrvr/Serve.antt =====
-- src/DistObj/DistObjSrvr.cpp: one command that `run` takes from the port, dispatches and answers.
use ctrlr_fx.Prelude.{
  ℕ, suc, ◌+◌, ◌%◌, ◌^◌, ◌≤◌, ◌<◌, ◌≡◌, ◌≢◌, refl, sym, ap, ◌∙◌, subst, List, [], ◌∷◌, ◌++◌,
  append_assoc, append-nil, Option, some, ◌>>=◌, Bool, true, false, ◌==◌, if◌then◌else◌, length,
  length-append, length-drop, take, drop, drop_all, sub_size, sub_size_lem, arith,
}
use ctrlr_fx.Buffer
use ctrlr_fx.Buffer.{Buffer}
use ctrlr_fx.BufCodec
use ctrlr_fx.BufCodec.{Codec, get}
use ctrlr_fx.BufCodec.Bytes.{host_bytes, length-host_bytes, host_value-host_bytes}
use ctrlr_fx.BufCodec.Native.{IsValid}
use ctrlr_fx.BufCodec.Packed.{good, Grown}
use ctrlr_fx.DistObj.{ObjMap}
use ctrlr_fx.DistObj.Registry.{Registered, lookup, dispatch_lem}
use ctrlr_fx.DistObjSrvr.{
  Server, CmdHdr, got, hdr_rounds, overlay, byte_at, read_buffer, command, respond, serve, pkt_hdr,
  rsp_hdr, msg_type_cmd, msg_type_rsp, unknown_obj_error,
}
use ctrlr_fx.DistObjSrvr.Client.{Open, request, response, read_buffer_lem, length-pkt_hdr}
use ctrlr_fx.DistObjSrvr.Packets.{cmd_body, length-cmd_body, loaded, decoded_lem}

ne_else : {A : Type 0} (n : ℕ) → n ≢ 0 → (x y : A) → (if n == 0 then x else y) ≡ y
ne_else n h x y = ground (arith, h)

-- A header that was read over the bytes of the last one.
hdr_read :
    (hdr : List ℕ) (big : Bool) (byte_order msg_type msg_size : ℕ)
    → length hdr ≡ 8
    → overlay (overlay hdr 0 (67 ∷ 88 ∷ [])) 2 (byte_order ∷ msg_type ∷ host_bytes big 4 msg_size)
      ≡ pkt_hdr big byte_order msg_type msg_size
hdr_read hdr big byte_order msg_type msg_size h =
    ap (λ t. 67 ∷ 88 ∷ byte_order ∷ msg_type ∷ (host_bytes big 4 msg_size ++ t))
      (drop_all (2 + length (byte_order ∷ msg_type ∷ host_bytes big 4 msg_size))
        (67 ∷ 88 ∷ drop 2 hdr)
        (omega (arith, h, length-host_bytes big 4 msg_size, length-drop 2 hdr)))
    ∙ ap (λ t. 67 ∷ 88 ∷ byte_order ∷ msg_type ∷ t) (append-nil (host_bytes big 4 msg_size))

-- A server whose buffers and header are whole.
pub record Ready (s : Server) : Type 0 where
  pub cmd : IsValid s.cmd.buf_
  pub rsp : IsValid s.rsp.buf_
  pub hdr : length s.hdr ≡ 8

module _ {O : Type 0} (invoke : O → ℕ → ℕ → Codec → Codec → Option (ℕ × Codec × Codec × O)) where
  -- The object's answer to a command whose arguments are next in the decoder: the result, the
  -- bytes of the response, and the object after it.
  pub record Answers (s : Server) (o : O) (obj op : ℕ) (body : List ℕ) (ret : ℕ) (payload : List ℕ)
      (o' : O) : Type 0 where
    pub cmd : Codec
    pub rsp : Codec
    pub run :
        invoke o obj op (good (record (loaded s.cmd.buf_ body) { pos = 12 })) (BufCodec.clear s.rsp)
        ≡ some (ret, cmd, rsp, o')
    pub grown : Grown (Buffer.clear s.rsp.buf_) payload rsp.buf_
    pub valid : IsValid cmd.buf_

module _ {W : Type 0} (port_read : W → ℕ → Option (List ℕ) × W) (port_write : W → List ℕ → Bool × W)
    (input output : W → List ℕ) (quit_ : W → Bool) (law : Open port_read port_write input output)
    (runs : (w : W) → quit_ w ≡ false) (big : Bool) where
  -- A header that begins where the server reads is found, with its bytes.
  hdr_lem :
      (fuel : ℕ) (w : W) (magic hdr : List ℕ) (byte_order msg_type msg_size : ℕ) (rest : List ℕ)
      → length magic ≡ 2
      → length hdr ≡ 8
      → input w ≡ pkt_hdr big byte_order msg_type msg_size ++ rest
      → (w' : W) × (hdr_rounds port_read port_write quit_ big (suc fuel) w magic 0 hdr
          ≡ some (got (pkt_hdr big byte_order msg_type msg_size), w'))
        × (input w' ≡ rest)
        × (output w' ≡ output w)
  unfolding hdr_rounds
  hdr_lem fuel w magic hdr byte_order msg_type msg_size rest two eight e =
      let six = byte_order ∷ msg_type ∷ host_bytes big 4 msg_size in
      let (w1, run1, i1, o1) = law.reads w (67 ∷ 88 ∷ []) (six ++ rest) e in
      let (w2, run2, i2, o2) = law.reads w1 six rest i1 in
      let len : length six ≡ 6 = omega (arith, length-host_bytes big 4 msg_size) in
      let read2 = subst (λ n. port_read w1 n ≡ (some six, w2)) len run2 in
      (
        w2,
        ground (
          arith,
          run1,
          read2,
          runs w1,
          hdr_read hdr big byte_order msg_type msg_size eight,
          two,
          drop_all 2 magic (omega (arith, two)),
        ),
        i2,
        o2 ∙ o1,
      )

  -- The payload of a command, in the server's buffer.
  load_lem :
      (w : W) (b : Buffer ℕ) (body rest : List ℕ)
      → IsValid b
      → length body ≤ b.end_
      → input w ≡ body ++ rest
      → (b' : Buffer ℕ) × (w' : W) × (read_buffer port_read w (Buffer.clear_to b (length body))
          ≡ some (b', w'))
        × (Buffer.flip b' ≡ loaded b body)
        × (input w' ≡ rest)
        × (output w' ≡ output w)
  load_lem w b body rest v fits e =
      let c : Buffer ℕ = record b { pos = 0; mark_ = 0; lim = length body } in
      let same : Buffer.clear_to b (length body) ≡ c = ground (arith, fits) in
      let (w', run, i, o) =
        read_buffer_lem port_read port_write input output law big w c body rest
          (omega (arith, v, fits)) (omega arith) (omega arith) e in
      (
        record c { buf = body ++ drop (0 + length body) b.buf; pos = length body },
        w',
        rw same run,
        refl,
        i,
        o,
      )

  module _ {O : Type 0} (invoke : O → ℕ → ℕ → Codec → Codec → Option (ℕ × Codec × Codec × O))
      (map : List ObjMap) (max : ℕ) (es : List ObjMap) (reg : Registered map max es)
      (spare : length es < max) where
    respond_lem :
        (s : Server) (o : O) (w : W) (ret : ℕ) (payload : List ℕ) (b : Buffer ℕ) (rest : List ℕ)
        → input w ≡ rest
        → length s.hdr ≡ 8
        → Grown (Buffer.clear b) payload s.rsp.buf_
        → (s' : Server) × (w' : W) × (respond port_read port_write quit_ big invoke map max s o w
              ret
            ≡ some (s', o, w'))
          × (s'.cmd ≡ s.cmd)
          × IsValid s'.rsp.buf_
          × (length s'.hdr ≡ 8)
          × (input w' ≡ rest)
          × (output w' ≡ output w ++ response big (byte_at s.hdr 2) s.cmd_hdr.msg_id ret payload)
    respond_lem s o w ret payload b rest e eight g =
        let n : sub_size s.rsp.buf_.pos 0 ≡ length payload =
          sub_size_lem s.rsp.buf_.pos 0 (omega arith) (omega (arith, g.valid))
          ∙ omega (arith, g.next) in
        let size : (8 + sub_size s.rsp.buf_.pos 0) % 2 ^ 32 ≡ 8 + length payload =
          omega (arith, n, g.valid, g.next) in
        let body : take (sub_size s.rsp.buf_.pos 0) s.rsp.buf_.buf ≡ payload =
          ap (λ m. take m s.rsp.buf_.buf) {y = s.rsp.buf_.pos} (n ∙ omega (arith, g.next))
          ∙ g.out in
        let hdr = pkt_hdr big (byte_at s.hdr 2) msg_type_rsp (8 + length payload) in
        let rhdr = rsp_hdr big s.cmd_hdr.msg_id ret in
        let (w1, run1, i1, o1) = law.writes w hdr in
        let (w2, run2, i2, o2) = law.writes w1 rhdr in
        let (w3, run3, i3, o3) = law.writes w2 payload in
        (
          record s { hdr = hdr; rsp = record s.rsp { buf_ = Buffer.flip s.rsp.buf_ } },
          w3,
          ground (arith, size, body, run1, run2, run3),
          refl,
          omega (arith, g.valid),
          length-pkt_hdr big (byte_at s.hdr 2) msg_type_rsp (8 + length payload),
          i3 ∙ i2 ∙ i1 ∙ e,
          o3
              ∙ ap (λ t. t ++ payload)
                  (o2 ∙ ap (λ t. t ++ rhdr) o1 ∙ append_assoc (output w) hdr rhdr)
              ∙ append_assoc (output w) (hdr ++ rhdr) payload
              ∙ ap (λ t. output w ++ t) (append_assoc hdr rhdr payload),
        )

    -- The server with the command in its buffer.
    abbrev taken : Server → List ℕ → List ℕ → Server
    taken s hdr body = record s { hdr = hdr; cmd = good (loaded s.cmd.buf_ body) }

    abbrev dispatched : Server → List ℕ → List ℕ → CmdHdr → Codec → Codec → Server
    dispatched s hdr body cmd_hdr cmd rsp = record s {
      hdr = hdr;
      cmd = cmd;
      rsp = rsp;
      cmd_hdr = cmd_hdr;
    }

    command_lem :
        (s : Server) (o : O) (w : W) (hdr : List ℕ) (msg_id tgt op : ℕ) (args : List ℕ) (ret : ℕ)
        (payload : List ℕ) (o' : O)
        → IsValid s.cmd.buf_
        → msg_id < 2 ^ 32
        → tgt < 2 ^ 32
        → op < 2 ^ 32
        → 12 + length args ≤ s.cmd.buf_.end_
        → lookup es tgt ≢ 0
        → (a : Answers invoke s o
            (lookup es tgt)
            op
            (cmd_body big msg_id tgt op args)
            ret
            payload
            o')
        → command port_read port_write quit_ big invoke map max
            (taken s hdr (cmd_body big msg_id tgt op args))
            o
            w
          ≡ respond port_read port_write quit_ big invoke map max
              (dispatched s hdr
                (cmd_body big msg_id tgt op args)
                (record { msg_id = msg_id; tgt = tgt; operation = op })
                a.cmd
                a.rsp)
              o'
              w
              ret
    unfolding command
    command_lem s o w hdr msg_id tgt op args ret payload o' v small1 small2 small3 fits known a =
        let body = cmd_body big msg_id tgt op args in
        let long = length-cmd_body big msg_id tgt op args in
        let b = loaded s.cmd.buf_ body in
        let tail = drop (0 + length body) s.cmd.buf_.buf in
        let whole : IsValid b = omega (
          arith,
          v,
          fits,
          long,
          length-append body tail,
          length-drop (0 + length body) s.cmd.buf_.buf,
        ) in
        let d =
          decoded_lem big b msg_id tgt op args tail whole (omega (arith, long)) refl small1 small2
            small3 in
        let c = good (record b { pos = 12 }) in
        let rsp = BufCodec.clear s.rsp in
        let found =
          dispatch_lem (λ obj p. invoke o obj p c rsp) (some (unknown_obj_error, c, rsp, o)) map max
            es tgt op reg spare in
        let given =
          found
          ∙ ap some (
              ne_else (lookup es tgt) known (some (unknown_obj_error, c, rsp, o))
                (invoke o (lookup es tgt) op c rsp)
              ∙ a.run) in
        rw (command, d.id s.cmd_hdr.msg_id)
          (rw (d.target s.cmd_hdr.tgt) (rw (d.operation s.cmd_hdr.operation) (rw given refl)))

    -- A server that is open and ready takes a command from the port, gives it to the object that is
    -- registered for its target, and answers with what the object returned, under the command's
    -- identifier. It is then ready for the next packet, which the input begins with.
    pub serve_lem :
        (fuel : ℕ) (s : Server) (o : O) (w : W) (magic : List ℕ) (msg_id tgt op : ℕ)
        (args rest : List ℕ) (ret : ℕ) (payload : List ℕ) (o' : O)
        → length magic ≡ 2
        → Ready s
        → msg_id < 2 ^ 32
        → tgt < 2 ^ 32
        → op < 2 ^ 32
        → 12 + length args ≤ s.cmd.buf_.end_
        → lookup es tgt ≢ 0
        → Answers invoke s o (lookup es tgt) op (cmd_body big msg_id tgt op args) ret payload o'
        → input w ≡ request big (cmd_body big msg_id tgt op args) ++ rest
        → (s' : Server) × (w' : W) × (serve port_read port_write quit_ big invoke map max
              (suc fuel)
              magic
              s
              o
              w
            ≡ some (true, s', o', w'))
          × Ready s'
          × (input w' ≡ rest)
          × (output w' ≡ output w ++ response big 0 msg_id ret payload)
    unfolding serve command
    serve_lem fuel s o w magic msg_id tgt op args rest ret payload o' two ready small1 small2 small3
          fits known a e =
        let body = cmd_body big msg_id tgt op args in
        let long = length-cmd_body big msg_id tgt op args in
        let hdr = pkt_hdr big 0 msg_type_cmd (length body) in
        let (w1, run1, i1, o1) =
          hdr_lem fuel w magic s.hdr 0 msg_type_cmd (length body) (body ++ rest) two ready.hdr
            (e ∙ append_assoc hdr body rest) in
        let (b', w2, run2, flipped, i2, o2) =
          load_lem w1 s.cmd.buf_ body rest ready.cmd (omega (arith, fits, long)) i1 in
        let cmd_hdr : CmdHdr = record { msg_id = msg_id; tgt = tgt; operation = op } in
        let (s', w3, run3, same, valid, eight, i3, o3) =
          respond_lem (dispatched s hdr body cmd_hdr a.cmd a.rsp) o' w2 ret payload s.rsp.buf_ rest
            i2 (length-pkt_hdr big 0 msg_type_cmd (length body)) a.grown in
        let size =
          host_value-host_bytes big 4 (length body) (omega (arith, long, fits, ready.cmd)) in
        let ran =
          command_lem s o w2 hdr msg_id tgt op args ret payload o' ready.cmd small1 small2 small3
            fits known a in
        (
          s',
          w3,
          rw (serve, run1)
              (rw (runs w1) (
                rw size (
                  rw run2
                    (rw flipped (rw ran (ap (λ r. r >>= λ q. some (true, q.0, q.1, q.2)) run3)))))),
          record { cmd = subst (λ c. IsValid c.buf_) (sym same) a.valid; rsp = valid; hdr = eight },
          i3,
          o3 ∙ ap (λ t. t ++ response big 0 msg_id ret payload) (o2 ∙ o1),
        )
