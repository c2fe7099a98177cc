-- ===== src/DistObjSrvr/Client.antt =====
-- src/DistObj/DistObjSrvr.cpp: a command that `send` sends, and the response that it takes, over a
-- port that delivers every byte.
use ctrlr_fx.Prelude.{
  ℕ, ◌+◌, ◌-◌, ◌%◌, ◌^◌, ◌≤◌, ◌<◌, ◌≡◌, refl, sym, ap, ◌∙◌, subst, List, [], ◌∷◌, ◌++◌,
  append_assoc, Option, some, Bool, true, length, length-append, length-take, length-drop, take,
  drop, drop_prefix, sub_size_lem, arith,
}
use ctrlr_fx.Memory.{store_block}
use ctrlr_fx.Buffer
use ctrlr_fx.Buffer.{Buffer}
use ctrlr_fx.BufCodec.Bytes.{host_bytes, host_value, length-host_bytes, host_value-host_bytes}
use ctrlr_fx.BufCodec.Native.{IsValid}
use ctrlr_fx.DistObjSrvr.{
  send, receive, read_buffer, pkt_hdr, rsp_hdr, contents, msg_type_cmd, msg_type_rsp,
}

-- A port that is open: `input` is what is still to be read and `output` what has been written. A read
-- of bytes that are there gives them all, and a write sends everything.
pub record Open {W : Type 0} (port_read : W → ℕ → Option (List ℕ) × W)
    (port_write : W → List ℕ → Bool × W) (input output : W → List ℕ) : Type 0 where
  pub reads :
      (w : W) (bytes rest : List ℕ)
      → input w ≡ bytes ++ rest
      → (w' : W) × (port_read w (length bytes) ≡ (some bytes, w'))
        × (input w' ≡ rest)
        × (output w' ≡ output w)
  pub writes :
      (w : W) (bytes : List ℕ)
      → (w' : W) × (port_write w bytes ≡ (true, w'))
        × (input w' ≡ input w)
        × (output w' ≡ output w ++ bytes)

-- A packet with a command, and one with a response.
abbrev pub request : Bool → List ℕ → List ℕ
request big body = pkt_hdr big 0 msg_type_cmd (length body) ++ body

abbrev pub response : Bool → ℕ → ℕ → ℕ → List ℕ → List ℕ
response big byte_order msg_id reply payload =
    pkt_hdr big byte_order msg_type_rsp (8 + length payload)
    ++ (rsp_hdr big msg_id reply ++ payload)

pub length-pkt_hdr :
    (big : Bool) (byte_order msg_type msg_size : ℕ)
    → length (pkt_hdr big byte_order msg_type msg_size) ≡ 8
length-pkt_hdr big byte_order msg_type msg_size = omega (arith, length-host_bytes big 4 msg_size)

pub length-rsp_hdr : (big : Bool) (msg_id reply : ℕ) → length (rsp_hdr big msg_id reply) ≡ 8
length-rsp_hdr big msg_id reply = omega (
  arith,
  length-append (host_bytes big 4 msg_id) (host_bytes big 4 reply),
  length-host_bytes big 4 msg_id,
  length-host_bytes big 4 reply,
)

rsp_hdr-reply :
    (big : Bool) (msg_id reply : ℕ)
    → reply < 2 ^ 32
    → host_value big (drop 4 (rsp_hdr big msg_id reply)) ≡ reply
rsp_hdr-reply big msg_id reply h =
    ap (host_value big) (
      drop_prefix 4 (host_bytes big 4 msg_id) (host_bytes big 4 reply)
        (sym (length-host_bytes big 4 msg_id)))
    ∙ host_value-host_bytes big 4 reply h

pub length-contents :
    (b : Buffer ℕ) → IsValid b → b.pos ≤ b.lim → Buffer.available b % 2 ^ 32 ≡ length (contents b)
length-contents b v le = omega (
  arith,
  v,
  le,
  sub_size_lem b.lim b.pos le (omega (arith, v)),
  length-take (Buffer.available b) (drop b.pos b.buf),
  length-drop b.pos b.buf,
)

-- What is left of a response's buffer to be decoded: the payload, if there is one.
pub record Payload (found : Buffer ℕ) (payload : List ℕ) (b : Buffer ℕ) : Type 0 where
  pub valid : IsValid b
  pub none_ : length payload ≡ 0 → b ≡ found
  pub start : 0 < length payload → b.pos ≡ 0
  pub limit : 0 < length payload → b.lim ≡ length payload
  pub bytes : (tail : List ℕ) × (0 < length payload → drop 0 b.buf ≡ payload ++ tail)

module _ {W : Type 0} (port_read : W → ℕ → Option (List ℕ) × W) (port_write : W → List ℕ → Bool × W)
    (input output : W → List ℕ) (law : Open port_read port_write input output) (big : Bool) where
  -- A payload that fits into the buffer is read into it.
  pub read_buffer_lem :
      (w : W) (b : Buffer ℕ) (bytes rest : List ℕ)
      → IsValid b
      → b.pos ≤ b.lim
      → b.lim ≡ b.pos + length bytes
      → input w ≡ bytes ++ rest
      → (w' : W) × (read_buffer port_read w b
          ≡ some (
            record b {
              buf = take b.pos b.buf ++ (bytes ++ drop (b.pos + length bytes) b.buf);
              pos = b.lim;
            },
            w',
          ))
        × (input w' ≡ rest)
        × (output w' ≡ output w)
  unfolding store_block
  read_buffer_lem w b bytes rest v le size e =
      let (w', run, i, o) = law.reads w bytes rest e in
      let n : Buffer.available b ≡ length bytes =
        sub_size_lem b.lim b.pos le (omega (arith, v)) ∙ omega (arith, size) in
      (w', ground (arith, ap (port_read w) n, run, size, v.storage, v.limited), i, o)

  -- The length that the client takes off the size of a response.
  payload_size : (n : ℕ) → n < 2 ^ 31 → (8 + n + 2 ^ 32 - 8) % 2 ^ 32 ≡ n
  payload_size n h = omega arith

  receive_lem :
      (w : W) (rsp : Buffer ℕ) (reply : ℕ) (payload rest : List ℕ)
      → IsValid rsp
      → rsp.pos ≡ 0
      → length payload ≤ rsp.end_
      → input w ≡ payload ++ rest
      → (rsp' : Buffer ℕ) × (w' : W) × (receive port_read port_write big w
            (8 + length payload)
            reply
            rsp
          ≡ some (reply, rsp', w'))
        × Payload rsp payload rsp'
        × (input w' ≡ rest)
        × (output w' ≡ output w)
  receive_lem w rsp reply [] rest r at_start fits e = (
    rsp,
    w,
    refl,
    record {
      valid = r;
      none_ = λ z. refl;
      start = λ z. absurd (omega (arith, z));
      limit = λ z. absurd (omega (arith, z));
      bytes = ([], λ z. absurd (omega (arith, z)));
    },
    e,
    refl,
  )
  receive_lem w rsp reply (x ∷ xs) rest r at_start fits e =
      let payload = x ∷ xs in
      let n = payload_size (length payload) (omega (arith, r, fits)) in
      let b : Buffer ℕ = Buffer.set_size rsp (length payload) in
      let (w', run, i, o) =
        read_buffer_lem w b payload rest (omega (arith, r, fits)) (omega (arith, at_start))
          (omega (arith, at_start)) e in
      let mem = take rsp.pos rsp.buf ++ (payload ++ drop (rsp.pos + length payload) rsp.buf) in
      let none_before : take rsp.pos rsp.buf ≡ [] = ap (λ m. take m rsp.buf) at_start in
      (
        record rsp { buf = mem; lim = length payload; pos = 0; mark_ = 0 },
        w',
        ground (arith, n, run),
        record {
          valid = omega (
            arith,
            r,
            fits,
            at_start,
            length-append (take rsp.pos rsp.buf)
                (payload ++ drop (rsp.pos + length payload) rsp.buf),
            length-append payload (drop (rsp.pos + length payload) rsp.buf),
            length-drop (rsp.pos + length payload) rsp.buf,
            length-take rsp.pos rsp.buf,
          );
          none_ = λ z. absurd (omega (arith, z));
          start = λ z. refl;
          limit = λ z. refl;
          bytes = (
            drop (rsp.pos + length payload) rsp.buf,
            λ z. ap (λ t. t ++ (payload ++ drop (rsp.pos + length payload) rsp.buf)) none_before,
          );
        },
        i,
        o,
      )

  send_runs :
      (w w1 w2 w3 w4 w5 : W) (packet rsp rsp' : Buffer ℕ) (byte_order msg_id reply : ℕ)
      (payload : List ℕ)
      → port_write w (pkt_hdr big 0 msg_type_cmd (Buffer.available packet % 2 ^ 32)) ≡ (true, w1)
      → port_write w1 (contents packet) ≡ (true, w2)
      → port_read w2 (length (pkt_hdr big byte_order msg_type_rsp (8 + length payload)))
        ≡ (some (pkt_hdr big byte_order msg_type_rsp (8 + length payload)), w3)
      → port_read w3 (length (rsp_hdr big msg_id reply)) ≡ (some (rsp_hdr big msg_id reply), w4)
      → receive port_read port_write big w4 (8 + length payload) reply rsp ≡ some (reply, rsp', w5)
      → reply < 2 ^ 32
      → length payload < 2 ^ 31
      → send port_read port_write big w msg_type_cmd packet rsp ≡ some (reply, rsp', w5)
  unfolding send
  send_runs w w1 w2 w3 w4 w5 packet rsp rsp' byte_order msg_id reply payload run1 run2 run3 run4
        run5 small short =
      let hdr_len = length-pkt_hdr big byte_order msg_type_rsp (8 + length payload) in
      let rhdr_len = length-rsp_hdr big msg_id reply in
      let read1 =
        subst
          (λ n.
            port_read w2 n ≡ (some (pkt_hdr big byte_order msg_type_rsp (8 + length payload)), w3))
          hdr_len run3 in
      let read2 =
        subst (λ n. port_read w3 n ≡ (some (rsp_hdr big msg_id reply), w4)) rhdr_len run4 in
      ground (
        arith,
        run1,
        run2,
        read1,
        read2,
        hdr_len,
        rhdr_len,
        host_value-host_bytes big 4 (8 + length payload) (omega (arith, short)),
        rsp_hdr-reply big msg_id reply small,
        run5,
      )

  pub send_lem :
      (w : W) (packet rsp : Buffer ℕ) (byte_order msg_id reply : ℕ) (payload rest : List ℕ)
      → IsValid packet
      → packet.pos ≤ packet.lim
      → IsValid rsp
      → rsp.pos ≡ 0
      → length payload ≤ rsp.end_
      → reply < 2 ^ 32
      → input w ≡ response big byte_order msg_id reply payload ++ rest
      → (rsp' : Buffer ℕ) × (w' : W) × (send port_read port_write big w msg_type_cmd packet rsp
          ≡ some (reply, rsp', w'))
        × Payload rsp payload rsp'
        × (input w' ≡ rest)
        × (output w' ≡ output w ++ request big (contents packet))
  unfolding send
  send_lem w packet rsp byte_order msg_id reply payload rest v le r at_start fits small e =
      let hdr = pkt_hdr big byte_order msg_type_rsp (8 + length payload) in
      let rhdr = rsp_hdr big msg_id reply in
      let (w1, run1, i1, o1) =
        law.writes w (pkt_hdr big 0 msg_type_cmd (Buffer.available packet % 2 ^ 32)) in
      let (w2, run2, i2, o2) = law.writes w1 (contents packet) in
      let (w3, run3, i3, o3) = law.reads w2 hdr (rhdr ++ (payload ++ rest)) (
        i2
        ∙ i1
        ∙ e
        ∙ append_assoc hdr (rhdr ++ payload) rest
        ∙ ap (λ t. hdr ++ t) (append_assoc rhdr payload rest)) in
      let (w4, run4, i4, o4) = law.reads w3 rhdr (payload ++ rest) i3 in
      let (rsp', w5, run5, p, i5, o5) = receive_lem w4 rsp reply payload rest r at_start fits i4 in
      (
        rsp',
        w5,
        send_runs w w1 w2 w3 w4 w5 packet rsp rsp' byte_order msg_id reply payload run1 run2 run3
            run4 run5 small (omega (arith, r, fits)),
        p,
        i5,
        o5
            ∙ o4
            ∙ o3
            ∙ o2
            ∙ ap (λ t. t ++ contents packet) o1
            ∙ append_assoc (output w)
                (pkt_hdr big 0 msg_type_cmd (Buffer.available packet % 2 ^ 32)) (contents packet)
            ∙ ap (λ n. output w ++ (pkt_hdr big 0 msg_type_cmd n ++ contents packet))
                (length-contents packet v le),
      )
