-- ===== src/Socket.antt =====
-- CtrlrFx/Socket.h, CtrlrFx/TcpAcceptor.h, CtrlrFx/TcpConnector.h and src/io/net: sockets that own
-- handles of the operating system. A handle is a number, and `none` is INVALID_SOCKET and every
-- negative value. What the system did is a list of the handles that it gave out and a list of those
-- that it was told to close. The calls of the system that change no handle (`bind`, `listen`,
-- `connect`, `setsockopt`) are their results, `true` where they are not negative.
pub mod Tcp
pub mod Owners
pub mod Transfers
mod Tests
use ctrlr_fx.Prelude.{
  ℕ, List, [], ◌∷◌, Option, none, some, Bool, true, false, not, ◌==◌, ◌&&◌, if◌then◌else◌,
}

-- `sock_`
abbrev pub Socket : Type 0
Socket = Option ℕ

-- The handles that the system gave out and those that it was told to close, latest first.
pub record Handles : Type 0 where
  pub made : List ℕ
  pub closed : List ℕ

abbrev pub sys_close : ℕ → Handles → Handles
sys_close h w = record w { closed = h ∷ w.closed }

-- `::socket` or `::accept`, with its result.
abbrev pub sys_make : Socket → Handles → Handles
sys_make none w = w
sys_make (some h) w = record w { made = h ∷ w.made }

abbrev pub is_open : Socket → Bool
is_open none = false
is_open (some h) = true

abbrev pub same_handle : Socket → Socket → Bool
same_handle none none = true
same_handle none (some k) = false
same_handle (some h) none = false
same_handle (some h) (some k) = h == k

-- `release()`: the handle, and the socket after it.
abbrev pub release : Socket → Socket × Socket
release s = (s, none)

unfoldable pub close : Socket → Handles → Socket × Handles
close none w = (none, w)
close (some h) w = ((release (some h)).1, sys_close h w)

unfoldable pub reset : Socket → Socket → Handles → Socket × Handles
unfolding close
reset s sock w = if not (same_handle s sock) then (s, (close sock w).1) else (sock, w)

-- `operator=(Socket& s)` between two objects: the one assigned to, `s`, and the system.
unfoldable pub assign : Socket → Socket → Handles → Socket × Socket × Handles
unfolding reset
assign sock s w = let r = release s in let t = reset r.0 sock w in (t.0, r.1, t.1)

-- `TcpSocket::open()`, with the result of `create()`: whether it returns 0.
unfoldable pub tcp_open : Socket → Socket → Handles → Bool × Socket × Handles
unfolding reset
tcp_open created sock w =
    let t = (if not (is_open sock) then reset created sock (sys_make created w) else (sock, w)) in
    (is_open t.0, t.0, t.1)

-- `TcpAcceptor::open(addr, queSize)`, with whether the address is set and the results of
-- `create()`, `setsockopt`, `bind` and `listen`: whether it returns 0.
unfoldable pub acceptor_open :
    Bool → Socket → Bool → Bool → Bool → Socket → Handles → Bool × Socket × Handles
unfolding reset
acceptor_open is_set created reuse bound listens sock w =
    if is_open sock
    then (true, sock, w)
    else if not is_set
    then (false, sock, w)
    else (let t = reset created sock (sys_make created w) in
        if not (is_open t.0)
        then (false, t.0, t.1)
        else if not reuse
        then (false, (release t.0).1, t.1)
        else if not bound
        then (false, (release t.0).1, t.1)
        else if not listens
        then (false, (release t.0).1, t.1)
        else (true, t.0, t.1))

-- `TcpConnector::connect(addr)`, with the results of `create()` and `connect`.
unfoldable pub connector_connect : Socket → Bool → Socket → Handles → Bool × Socket × Handles
unfolding reset
connector_connect created connected sock w =
    let t = reset created sock (sys_make created w) in
    if not connected then (false, (release t.0).1, t.1) else (true, t.0, t.1)
