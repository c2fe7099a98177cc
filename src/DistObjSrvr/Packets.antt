-- ===== src/DistObjSrvr/Packets.antt =====
-- src/DistObj/DistObjSrvr.cpp: the packet of a command, byte by byte, and what the decoder gets of it.
use ctrlr_fx.Prelude.{
  ℕ, ◌+◌, ◌%◌, ◌^◌, ◌≤◌, ◌<◌, ◌≡◌, refl, ap, ◌∙◌, List, ◌++◌, append_assoc, some, Bool, length,
  length-append, length-drop, drop, drop_add, drop-append, arith,
}
use ctrlr_fx.Buffer.{Buffer}
use ctrlr_fx.BufCodec.Bytes.{host_bytes, length-host_bytes}
use ctrlr_fx.BufCodec.Native.{IsValid}
use ctrlr_fx.BufCodec.Packed.{good, get_due}
use ctrlr_fx.DistObjSrvr.{field}

-- The body of a command's packet.
abbrev pub cmd_body : Bool → ℕ → ℕ → ℕ → List ℕ → List ℕ
cmd_body big msg_id tgt op args =
    host_bytes big 4 msg_id ++ (host_bytes big 4 tgt ++ (host_bytes big 4 op ++ args))

pub length-cmd_body :
    (big : Bool) (msg_id tgt op : ℕ) (args : List ℕ)
    → length (cmd_body big msg_id tgt op args) ≡ 12 + length args
length-cmd_body big msg_id tgt op args = omega (
  arith,
  length-append (host_bytes big 4 msg_id) (host_bytes big 4 tgt ++ (host_bytes big 4 op ++ args)),
  length-append (host_bytes big 4 tgt) (host_bytes big 4 op ++ args),
  length-append (host_bytes big 4 op) args,
  length-host_bytes big 4 msg_id,
  length-host_bytes big 4 tgt,
  length-host_bytes big 4 op,
)

-- The command buffer once a body is in it.
abbrev pub loaded : Buffer ℕ → List ℕ → Buffer ℕ
loaded b body = record b {
  buf = body ++ drop (0 + length body) b.buf;
  pos = 0;
  lim = length body;
  mark_ = 0;
}

-- What follows a block that the cells at `p` begin with.
pub behind :
    (cells : List ℕ) (p : ℕ) (xs ys : List ℕ)
    → drop p cells ≡ xs ++ ys
    → drop (p + length xs) cells ≡ ys
behind cells p xs ys e = drop_add p (length xs) cells ∙ ap (drop (length xs)) e ∙ drop-append xs ys

module _ (big : Bool) where
  abbrev at : Buffer ℕ → ℕ → Buffer ℕ
  at b p = record b { pos = p }

  field_lem :
      (b : Buffer ℕ) (p v old : ℕ) (rest : List ℕ)
      → IsValid b
      → p % 4 ≡ 0
      → p + 4 ≤ b.lim
      → v < 2 ^ 32
      → drop p b.buf ≡ host_bytes big 4 v ++ rest
      → field big (good (at b p)) old ≡ some (v, good (at b (p + 4)))
  field_lem b p v old rest w due fits small e =
      ground (
        arith,
        get_due big (at b p) (omega (arith, w, fits)) 4 (omega arith) due fits v rest small e,
      )

  -- What is found of a command in the buffer that its body was loaded into.
  pub record Decoded (b : Buffer ℕ) (msg_id tgt op : ℕ) (args : List ℕ) : Type 0 where
    pub id : (old : ℕ) → field big (good (at b 0)) old ≡ some (msg_id, good (at b 4))
    pub target : (old : ℕ) → field big (good (at b 4)) old ≡ some (tgt, good (at b 8))
    pub operation : (old : ℕ) → field big (good (at b 8)) old ≡ some (op, good (at b 12))

  -- The fields of a command's body in memory.
  splits_lem :
      (cells : List ℕ) (msg_id tgt op : ℕ) (args tail : List ℕ)
      → cells ≡ cmd_body big msg_id tgt op args ++ tail
      → (xs ys : List ℕ) × (drop 0 cells ≡ host_bytes big 4 msg_id ++ xs)
        × (drop 4 cells ≡ host_bytes big 4 tgt ++ ys)
        × (drop 8 cells ≡ host_bytes big 4 op ++ (args ++ tail))
        × (drop 12 cells ≡ args ++ tail)
  splits_lem cells msg_id tgt op args tail e =
      let i = host_bytes big 4 msg_id in
      let t = host_bytes big 4 tgt in
      let o = host_bytes big 4 op in
      let e0 : drop 0 cells ≡ i ++ ((t ++ (o ++ args)) ++ tail) =
        e ∙ append_assoc i (t ++ (o ++ args)) tail in
      let e4 : drop 4 cells ≡ t ++ ((o ++ args) ++ tail) =
        ap (λ n. drop n cells) {x = 4} (omega (arith, length-host_bytes big 4 msg_id))
        ∙ behind cells 0 i ((t ++ (o ++ args)) ++ tail) e0
        ∙ append_assoc t (o ++ args) tail in
      let e8 : drop 8 cells ≡ o ++ (args ++ tail) =
        ap (λ n. drop n cells) {x = 8} (omega (arith, length-host_bytes big 4 tgt))
        ∙ behind cells 4 t ((o ++ args) ++ tail) e4
        ∙ append_assoc o args tail in
      (
        (t ++ (o ++ args)) ++ tail,
        (o ++ args) ++ tail,
        e0,
        e4,
        e8,
        ap (λ n. drop n cells) {x = 12} (omega (arith, length-host_bytes big 4 op))
            ∙ behind cells 8 o (args ++ tail) e8,
      )

  pub decoded_lem :
      (b : Buffer ℕ) (msg_id tgt op : ℕ) (args tail : List ℕ)
      → IsValid b
      → 12 ≤ b.lim
      → b.buf ≡ cmd_body big msg_id tgt op args ++ tail
      → msg_id < 2 ^ 32
      → tgt < 2 ^ 32
      → op < 2 ^ 32
      → Decoded b msg_id tgt op args
  decoded_lem b msg_id tgt op args tail w long e small1 small2 small3 =
      let (xs, ys, e0, e4, e8, _) = splits_lem b.buf msg_id tgt op args tail e in
      record {
        id = λ old. field_lem b 0 msg_id old xs w refl (omega (arith, long)) small1 e0;
        target = λ old. field_lem b 4 tgt old ys w refl (omega (arith, long)) small2 e4;
        operation =
            λ old. field_lem b 8 op old (args ++ tail) w refl (omega (arith, long)) small3 e8;
      }

-- The arguments of a command in the buffer that its body was loaded into.
pub args_lem :
    (big : Bool) (b : Buffer ℕ) (msg_id tgt op : ℕ) (args : List ℕ)
    → IsValid b
    → 12 + length args ≤ b.end_
    → IsValid (loaded b (cmd_body big msg_id tgt op args))
      × (drop 12 (loaded b (cmd_body big msg_id tgt op args)).buf
          ≡ args ++ drop (0 + length (cmd_body big msg_id tgt op args)) b.buf)
args_lem big b msg_id tgt op args v fits =
    let body = cmd_body big msg_id tgt op args in
    let tail = drop (0 + length body) b.buf in
    let long = length-cmd_body big msg_id tgt op args in
    let (_, _, _, _, _, e) = splits_lem big (body ++ tail) msg_id tgt op args tail refl in
    (omega (arith, v, fits, long, length-append body tail, length-drop (0 + length body) b.buf), e)
