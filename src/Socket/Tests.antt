-- ===== src/Socket/Tests.antt =====
-- Two sockets that pass a handle on, and transfers over a peer that sends what is asked for.
use ctrlr_fx.Prelude.{
  ℕ, ◌+◌, ◌≤◌, ◌≡◌, refl, sym, ap, ◌∙◌, List, [], ◌∷◌, ◌++◌, Option, none, some, some_injective,
  true, false, ◌&&◌, length, length-take, take, take_all, drop, take-append-drop, count, remove,
  if◌then◌else◌, arith,
}
use ctrlr_fx.Buffer.{Buffer}
use ctrlr_fx.Device
use ctrlr_fx.Device.Blocks.{Reads, Writes}
use ctrlr_fx.Socket.{acceptor_open, reset, assign, close}
use ctrlr_fx.Socket.Tcp.{read_n_buffer}
use ctrlr_fx.Socket.Owners.{
  Program, start, held, obtains, constructs, adopts, assigns, Reach, here, next,
  one_owner_of_handle, acceptor_open_lem,
}
use ctrlr_fx.Socket.Transfers.{socket-eq-device_read_n}

abbrev given : Program
given = record start { loose = 5 ∷ []; handles = record { made = 5 ∷ []; closed = [] } }

abbrev owned : Program
owned = record given { socks = some 5 ∷ []; loose = [] }

abbrev pair : Program
pair = record owned { socks = none ∷ some 5 ∷ [] }

abbrev passed : Program
passed = record owned { socks = some 5 ∷ none ∷ [] }

passed-Reach : Reach start passed
unfolding count remove assign reset close
passed-Reach =
    next
      (next (next (next here (obtains start 5 refl)) (adopts given 5 (omega arith)))
        (constructs owned))
      (assigns pair 0 1 none (some 5) (λ e. absurd (omega (arith, e))) refl refl)

one_owner_of_handle_example :
    (count 5 passed.handles.made
      ≡ count 5 passed.handles.closed
        + (held 5 passed.socks + count 5 passed.loose + count 5 passed.dropped))
    × (held 5 passed.socks + count 5 passed.loose + count 5 passed.dropped ≤ 1)
one_owner_of_handle_example = one_owner_of_handle passed 5 passed-Reach

acceptor_open_lem_example :
    (let r = acceptor_open true (some 5) true false true none start.handles in
      (r.0 ≡ (true && false && true))
      × (r.1 ≡ (if r.0 then some 5 else none))
      × (count 5 r.2.made ≡ count 5 r.2.closed + 1))
acceptor_open_lem_example = acceptor_open_lem 5 true false true start.handles refl

abbrev peer_recv : List ℕ → ℕ → Option (List ℕ) × List ℕ
peer_recv w n = (some (take n w), drop n w)

abbrev peer_send : List ℕ → List ℕ → Option ℕ × List ℕ
peer_send w block = (some (length block), w ++ block)

abbrev peer : List ℕ → List ℕ
peer w = w

peer-Reads : Reads peer_recv peer
peer-Reads = record {
  limit = λ w n bytes e. omega (arith, length-take n w, ap length (some_injective e));
  next = λ w n bytes e. sym (take-append-drop n w) ∙ ap (λ u. u ++ drop n w) (some_injective e);
  failed = λ w n e. cc;
}

peer-Writes : Writes peer_send peer
peer-Writes = record {
  limit = λ w bytes k e. omega (arith, some_injective e);
  next = λ w bytes k e. ap (λ u. w ++ u) (sym (take_all k bytes (omega (arith, some_injective e))));
  failed = λ w bytes e. cc;
}

abbrev half_full : Buffer ℕ
half_full = record { buf = 1 ∷ 2 ∷ 0 ∷ 0 ∷ []; pos = 2; lim = 4; end_ = 4; mark_ = 0; own = false }

socket-eq-device_read_n_example :
    read_n_buffer peer_recv (8 ∷ 9 ∷ []) half_full
    ≡ Device.read_n_buffer peer_recv (8 ∷ 9 ∷ []) half_full
socket-eq-device_read_n_example =
    socket-eq-device_read_n peer_recv peer peer-Reads (8 ∷ 9 ∷ []) half_full (omega arith)
      (omega arith) (omega arith)
