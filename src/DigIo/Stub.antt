-- ===== src/DigIo/Stub.antt =====
-- src/DistObj/DigIO_stub.cpp: the bytes of a stub's command.
use ctrlr_fx.Prelude.{
  ℕ, ◌+◌, ◌%◌, ◌^◌, ◌≡◌, refl, sym, ap, ◌∙◌, List, [], ◌++◌, append_assoc, append-nil, some, subst,
  Bool, length, length-append, take, sub_size_lem, arith,
}
use ctrlr_fx.Buffer
use ctrlr_fx.Buffer.{Buffer}
use ctrlr_fx.BufCodec
use ctrlr_fx.BufCodec.{Codec}
use ctrlr_fx.BufCodec.Bytes.{host_bytes, length-host_bytes}
use ctrlr_fx.BufCodec.Native.{IsValid}
use ctrlr_fx.BufCodec.Packed.{before, good, Grown, put_due}
use ctrlr_fx.DistObjSrvr.{contents}
use ctrlr_fx.DistObjSrvr.Packets.{cmd_body}
use ctrlr_fx.DigIo.{fixed_buffer, put_cmd_hdr, Sender}

pub fixed-IsValid : (found : List ℕ) → length found ≡ 256 → IsValid (fixed_buffer found)
fixed-IsValid found h = omega (arith, h)

pub Grown-trans :
    (b m b' : Buffer ℕ) (xs ys : List ℕ) → Grown b xs m → Grown m ys b' → Grown b (xs ++ ys) b'
Grown-trans b m b' xs ys g h = record {
  valid = h.valid;
  next = omega (arith, g.next, h.next, length-append xs ys);
  limit = h.limit ∙ g.limit;
  out = h.out ∙ ap (λ t. t ++ ys) g.out ∙ append_assoc (before b) xs ys;
}

-- The bytes of a flipped buffer that was filled from its start.
pub contents-flip :
    (b b' : Buffer ℕ) (bytes : List ℕ)
    → b.pos ≡ 0
    → Grown b bytes b'
    → contents (Buffer.flip b') ≡ bytes
contents-flip b b' bytes z g =
    ap (λ m. take m b'.buf) {y = b'.pos}
      (sub_size_lem b'.pos 0 (omega arith) (omega (arith, g.valid)) ∙ omega arith)
    ∙ g.out
    ∙ ap (λ m. take m b.buf ++ bytes) z

module _ {W : Type 0} (big : Bool) (send : Sender W) (tgt : ℕ) where
  -- The buffer with a command's packet in it.
  abbrev pub Command : List ℕ → ℕ → ℕ → List ℕ → Buffer ℕ → Type 0
  Command found msg_id op args b = Grown (fixed_buffer found) (cmd_body big msg_id tgt op args) b

  cmd_body_assoc :
      (msg_id op : ℕ) (args : List ℕ)
      → (host_bytes big 4 msg_id ++ (host_bytes big 4 tgt ++ host_bytes big 4 op)) ++ args
        ≡ cmd_body big msg_id tgt op args
  cmd_body_assoc msg_id op args =
      append_assoc (host_bytes big 4 msg_id) (host_bytes big 4 tgt ++ host_bytes big 4 op) args
      ∙ ap (λ t. host_bytes big 4 msg_id ++ t)
          (append_assoc (host_bytes big 4 tgt) (host_bytes big 4 op) args)

  length-hdr :
      (msg_id op : ℕ)
      → length (host_bytes big 4 msg_id ++ (host_bytes big 4 tgt ++ host_bytes big 4 op)) ≡ 12
  length-hdr msg_id op = omega (
    arith,
    length-append (host_bytes big 4 msg_id) (host_bytes big 4 tgt ++ host_bytes big 4 op),
    length-append (host_bytes big 4 tgt) (host_bytes big 4 op),
    length-host_bytes big 4 msg_id,
    length-host_bytes big 4 tgt,
    length-host_bytes big 4 op,
  )

  pub put_cmd_hdr_lem :
      (found : List ℕ) (msg_id cmd : ℕ)
      → length found ≡ 256
      → (b : Buffer ℕ) × (put_cmd_hdr big send tgt (BufCodec.init (fixed_buffer found)) msg_id cmd
          ≡ some ((msg_id + 1) % 2 ^ 32, good b))
        × Grown
            (fixed_buffer found)
            (host_bytes big 4 msg_id ++ (host_bytes big 4 tgt ++ host_bytes big 4 cmd))
            b
  unfolding put_cmd_hdr BufCodec.init
  put_cmd_hdr_lem found msg_id cmd h =
      let b0 = fixed_buffer found in
      let (b1, run1, g1) =
        put_due big b0 (fixed-IsValid found h) 4 (omega arith) refl (omega arith) msg_id in
      let (b2, run2, g2) =
        put_due big b1 g1.valid 4 (omega arith)
          (omega (arith, g1.next, length-host_bytes big 4 msg_id))
          (omega (arith, g1.next, g1.limit, length-host_bytes big 4 msg_id)) tgt in
      let (b3, run3, g3) =
        put_due big b2 g2.valid 4 (omega arith)
          (omega
            (arith, g1.next, g2.next, length-host_bytes big 4 msg_id, length-host_bytes big 4 tgt))
          (omega (
            arith,
            g1.next,
            g1.limit,
            g2.next,
            g2.limit,
            length-host_bytes big 4 msg_id,
            length-host_bytes big 4 tgt,
          ))
          cmd in
      (
        b3,
        rw (run1, run2, run3) refl,
        Grown-trans b0 b1 b3 (host_bytes big 4 msg_id)
            (host_bytes big 4 tgt ++ host_bytes big 4 cmd) g1
            (Grown-trans b1 b2 b3 (host_bytes big 4 tgt) (host_bytes big 4 cmd) g2 g3),
      )

  -- A command without arguments.
  pub no_args :
      (found : List ℕ) (msg_id op : ℕ) (b : Buffer ℕ)
      → Grown
          (fixed_buffer found)
          (host_bytes big 4 msg_id ++ (host_bytes big 4 tgt ++ host_bytes big 4 op))
          b
      → Command found msg_id op [] b
  no_args found msg_id op b g =
      subst (λ t. Grown (fixed_buffer found) t b)
        (sym (append-nil (host_bytes big 4 msg_id ++ (host_bytes big 4 tgt ++ host_bytes big 4 op)))
          ∙ cmd_body_assoc msg_id op [])
        g

  -- A first argument of four bytes, and a second of one byte.
  pub put_args_lem :
      (found : List ℕ) (msg_id op bit flag : ℕ) (b : Buffer ℕ)
      → Grown
          (fixed_buffer found)
          (host_bytes big 4 msg_id ++ (host_bytes big 4 tgt ++ host_bytes big 4 op))
          b
      → (b1 b2 : Buffer ℕ) × (BufCodec.put big (good b) 4 bit ≡ some (4, good b1))
        × (BufCodec.put big (good b1) 1 flag ≡ some (1, good b2))
        × Command found msg_id op (host_bytes big 4 bit) b1
        × Command found msg_id op (host_bytes big 4 bit ++ host_bytes big 1 flag) b2
  put_args_lem found msg_id op bit flag b g =
      let b0 = fixed_buffer found in
      let hdr = host_bytes big 4 msg_id ++ (host_bytes big 4 tgt ++ host_bytes big 4 op) in
      let at : b.pos ≡ 12 = omega (arith, g.next, length-hdr msg_id op) in
      let (b1, run1, g1) =
        put_due big b g.valid 4 (omega arith) (omega (arith, at)) (omega (arith, at, g.limit))
          bit in
      let at1 : b1.pos ≡ 16 = omega (arith, g1.next, at, length-host_bytes big 4 bit) in
      let (b2, run2, g2) =
        put_due big b1 g1.valid 1 (omega arith) (omega (arith, at1))
          (omega (arith, at1, g1.limit, g.limit)) flag in
      let c1 = Grown-trans b0 b b1 hdr (host_bytes big 4 bit) g g1 in
      (
        b1,
        b2,
        run1,
        run2,
        subst (λ t. Grown b0 t b1) (cmd_body_assoc msg_id op (host_bytes big 4 bit)) c1,
        subst (λ t. Grown b0 t b2)
            (append_assoc hdr (host_bytes big 4 bit) (host_bytes big 1 flag)
              ∙ cmd_body_assoc msg_id op (host_bytes big 4 bit ++ host_bytes big 1 flag))
            (Grown-trans b0 b1 b2 (hdr ++ host_bytes big 4 bit) (host_bytes big 1 flag) c1 g2),
      )
