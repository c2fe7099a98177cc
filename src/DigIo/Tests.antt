-- ===== src/DigIo/Tests.antt =====
-- A digital output of eight bits whose calls are recorded, called through two queues of bytes.
use ctrlr_fx.Prelude.{
  ℕ, ◌+◌, ◌%◌, ◌^◌, ◌≡◌, refl, List, [], ◌∷◌, ◌++◌, some, Bool, true, false, inr, length, replicate,
  arith,
}
use ctrlr_fx.DistObj.{ObjMap}
use ctrlr_fx.DistObj.Registry.{Registered}
use ctrlr_fx.DistObjSrvr.{Server, send, serve}
use ctrlr_fx.DistObjSrvr.Client.{response}
use ctrlr_fx.DistObjSrvr.Serve.{Ready}
use ctrlr_fx.DistObjSrvr.Tests.{
  queue_read, queue_write, to_read, sent_bytes, stays_open, queue-Open,
}
use ctrlr_fx.DigIo
use ctrlr_fx.DigIo.{fixed_buffer}
use ctrlr_fx.DigIo.Skel.{dig_out}
use ctrlr_fx.DigIo.Call.{set_request, set_call}

-- The object: the bits that were set, the last first.
abbrev Bits : Type 0
Bits = List (ℕ × Bool)

abbrev eight : Bits → ℕ
eight o = 8

abbrev set_bit : Bits → ℕ → Bool → Bits
set_bit o bit b = (bit, b) ∷ o

abbrev keep : Bits → ℕ → Bits
keep o bit = o

abbrev entries : List ObjMap
entries = record { key = 5; obj = 100 } ∷ []

abbrev map : List ObjMap
map = record { key = 5; obj = 100 } ∷ record { key = 0; obj = 0 } ∷ []

map-Registered : Registered map 2 entries
map-Registered = record {
  storage = refl;
  rest = (refl, (λ e. omega (arith, e)), inr (record { key = 0; obj = 0 }, refl, refl));
}

abbrev fresh : List ℕ
fresh = replicate 256 0

fresh_size : length fresh ≡ 256
fresh_size = refl

abbrev server : Server
server = record {
  cmd = record { buf_ = fixed_buffer fresh; good_ = true };
  rsp = record { buf_ = fixed_buffer fresh; good_ = true };
  hdr = replicate 8 0;
  cmd_hdr = record { msg_id = 0; tgt = 0; operation = 0 };
}

server-Ready : Ready server
server-Ready = record {
  cmd = omega (arith, fresh_size);
  rsp = omega (arith, fresh_size);
  hdr = refl;
}

set_call_example :
    (v' w' : List ℕ × List ℕ) × (s' : Server) × (DigIo.set false
        (send queue_read queue_write false)
        5
        (response false 0 9 0 [] ++ [], [])
        9
        fresh
        fresh
        3
        true
      ≡ some ((9 + 1) % 2 ^ 32, v'))
    × (v'.1 ≡ [] ++ set_request false 9 5 3 true)
    × (v'.0 ≡ [])
    × (serve queue_read queue_write stays_open false
          (dig_out false eight 0 set_bit keep keep)
          map
          2
          1
          (0 ∷ 0 ∷ [])
          server
          []
          (set_request false 9 5 3 true ++ [], [])
        ≡ some (true, s', (3, true) ∷ [], w'))
    × (w'.1 ≡ [] ++ response false 0 9 0 [])
    × (w'.0 ≡ [])
    × Ready s'
set_call_example =
    set_call queue_read queue_write to_read sent_bytes queue-Open queue_read queue_write to_read
      sent_bytes stays_open queue-Open (λ w. refl) false eight 0 set_bit keep keep map 2 entries
      map-Registered (omega arith) 5 9 (λ e. omega (arith, e)) (omega arith) (omega arith)
      (response false 0 9 0 [] ++ [], []) (set_request false 9 5 3 true ++ [], []) fresh fresh [] []
      (0 ∷ 0 ∷ []) fresh_size fresh_size refl 0 server [] server-Ready (omega arith) 3 true
      (omega arith) refl refl
