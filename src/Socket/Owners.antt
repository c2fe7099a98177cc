-- ===== src/Socket/Owners.antt =====
-- Any number of Socket objects, and the code that has handles in variables of its own: who has a
-- handle, and when it is closed. New objects stand first in the list of objects. The code gives an
-- object only a handle that it has, and the system gives out only handles that are not open.
use ctrlr_fx.Prelude.{
  ℕ, zero, suc, ◌+◌, ◌≤◌, ◌<◌, ◌≡◌, ◌≢◌, refl, sym, ap, ◌∙◌, List, [], ◌∷◌, none, some, Bool, true,
  false, not, ◌&&◌, ◌==◌, if◌then◌else◌, Bool-cases, ◌⊎◌, inl, inr, get_elem?, set,
  get_elem?-set_ne, arith, count, remove, count-remove,
}
use ctrlr_fx.Socket.{
  Socket, Handles, sys_make, is_open, same_handle, release, close, reset, assign, tcp_open,
  acceptor_open, connector_connect,
}

unfoldable pub holds : ℕ → Socket → ℕ
holds h none = 0
holds h (some k) = if k == h then 1 else 0

-- How many objects have the handle.
unfoldable pub held : ℕ → List Socket → ℕ
held h [] = 0
held h (x ∷ xs) = holds h x + held h xs

abbrev pub keep : Socket → List ℕ → List ℕ
keep none hs = hs
keep (some h) hs = h ∷ hs

-- The objects, the handles that the code has in variables, those that nobody has any more, and the
-- system.
pub record Program : Type 0 where
  pub socks : List Socket
  pub loose : List ℕ
  pub dropped : List ℕ
  pub handles : Handles

abbrev pub start : Program
start = record { socks = []; loose = []; dropped = []; handles = record { made = []; closed = [] } }

-- The handle is not open.
abbrev pub IsFree : ℕ → Handles → Type 0
IsFree h w = count h w.made ≡ count h w.closed

-- What the system made is a new handle, or nothing.
abbrev pub IsNew : Socket → Handles → Type 0
IsNew none w = Unit
IsNew (some h) w = IsFree h w

-- What `TcpAcceptor::open` and `TcpConnector::connect` gave up by `release`, whose result they do not
-- use: the socket that they made, where they made one and did not keep it.
unfoldable pub given_up : Bool → Socket → Socket → List ℕ → List ℕ
given_up tried created kept hs = if tried && not (is_open kept) then keep created hs else hs

-- The program after one of the two calls, with its result, on an object.
abbrev pub after_open : Program → ℕ → Bool → Socket → Bool × Socket × Handles → Program
after_open s i tried created r = record s {
  socks = set s.socks i r.1;
  dropped = given_up tried created r.1 s.dropped;
  handles = r.2;
}

pub data Step : Program → Program → Type 0 where
  -- The code calls `::socket` or `::accept`.
  obtains :
      (s : Program) (h : ℕ)
      → IsFree h s.handles
      → Step s (record s { loose = h ∷ s.loose; handles = sys_make (some h) s.handles })
  -- `Socket()`, `Socket(socket_t)` and `Socket(Socket&)`
  constructs : (s : Program) → Step s (record s { socks = none ∷ s.socks })
  adopts :
      (s : Program) (h : ℕ)
      → 0 < count h s.loose
      → Step s (record s { socks = some h ∷ s.socks; loose = remove h s.loose })
  copies :
      (s : Program) (i : ℕ) (x : Socket)
      → get_elem? s.socks i ≡ some x
      → Step s (record s { socks = (release x).0 ∷ set s.socks i (release x).1 })
  releases :
      (s : Program) (i : ℕ) (x : Socket)
      → get_elem? s.socks i ≡ some x
      → Step s
          (record s { socks = set s.socks i (release x).1; loose = keep (release x).0 s.loose })
  -- `close()` and the destructor.
  closes :
      (s : Program) (i : ℕ) (x : Socket)
      → get_elem? s.socks i ≡ some x
      → Step s (record s {
        socks = set s.socks i (close x s.handles).0;
        handles = (close x s.handles).1;
      })
  resets :
      (s : Program) (i h : ℕ) (x : Socket)
      → get_elem? s.socks i ≡ some x
      → 0 < count h s.loose
      → Step s (record s {
        socks = set s.socks i (reset (some h) x s.handles).0;
        loose = remove h s.loose;
        handles = (reset (some h) x s.handles).1;
      })
  assigns :
      (s : Program) (i j : ℕ) (x y : Socket)
      → i ≢ j
      → get_elem? s.socks i ≡ some x
      → get_elem? s.socks j ≡ some y
      → Step s (record s {
        socks = set (set s.socks j (assign x y s.handles).1) i (assign x y s.handles).0;
        handles = (assign x y s.handles).2;
      })
  opens :
      (s : Program) (i h : ℕ) (x : Socket)
      → get_elem? s.socks i ≡ some x
      → IsFree h s.handles
      → Step s (record s {
        socks = set s.socks i (tcp_open (some h) x s.handles).1;
        handles = (tcp_open (some h) x s.handles).2;
      })
  accepts :
      (s : Program) (i : ℕ) (created x : Socket) (is_set reuse bound listens : Bool)
      → get_elem? s.socks i ≡ some x
      → IsNew created s.handles
      → Step s (
          after_open s i
            (is_set && not (is_open x))
            created
            (acceptor_open is_set created reuse bound listens x s.handles))
  connects :
      (s : Program) (i : ℕ) (created x : Socket) (connected : Bool)
      → get_elem? s.socks i ≡ some x
      → IsNew created s.handles
      → Step s (after_open s i true created (connector_connect created connected x s.handles))
  -- The code forgets a handle.
  forgets :
      (s : Program) (h : ℕ)
      → 0 < count h s.loose
      → Step s (record s { loose = remove h s.loose; dropped = h ∷ s.dropped })

pub data Reach : Program → Program → Type 0 where
  here : {s : Program} → Reach s s
  next : {s t u : Program} → Reach s t → Step t u → Reach s u

-- What is open of a handle is held once, by an object or by the code, or was given up once.
abbrev Inv : Program → Type 0
Inv s =
    (h : ℕ)
    → (count h s.handles.made
        ≡ count h s.handles.closed + (held h s.socks + count h s.loose + count h s.dropped))
      × (held h s.socks + count h s.loose + count h s.dropped ≤ 1)

count-taken :
    (h k : ℕ) (hs : List ℕ) → 0 < count k hs → count h (remove k hs) + holds h (some k) ≡ count h hs
unfolding holds
count-taken h k hs p = count-remove h k hs p

held-set :
    (h i : ℕ) (x y : Socket) (xs : List Socket)
    → get_elem? xs i ≡ some x
    → held h (set xs i y) + holds h x ≡ held h xs + holds h y
unfolding held
held-set h i x y [] e = cc
held-set h zero x y (z ∷ xs) e = ground (arith, e)
held-set h (suc i) x y (z ∷ xs) e = ground (arith, held-set h i x y xs e)

holds_self : (k : ℕ) → holds k (some k) ≡ 1
unfolding holds
holds_self k = ground arith

holds_none : (k : ℕ) → holds k none ≡ 0
unfolding holds
holds_none k = refl

close_lem :
    (h : ℕ) (x : Socket) (w : Handles)
    → (count h (close x w).1.closed ≡ count h w.closed + holds h x)
      × ((close x w).1.made ≡ w.made)
      × ((close x w).0 ≡ none)
unfolding count holds close
close_lem h none w = (omega arith, refl, refl)
close_lem h (some k) w = (ground arith, refl, refl)

-- A socket that takes over a handle other than its own.
reset_lem :
    (h : ℕ) (s x : Socket) (w : Handles)
    → same_handle s x ≡ false
    → (count h (reset s x w).1.closed ≡ count h w.closed + holds h x)
      × ((reset s x w).1.made ≡ w.made)
      × ((reset s x w).0 ≡ s)
unfolding reset
reset_lem h s x w e = ground (arith, e, close_lem h x w)

same_lem : (s x : Socket) → same_handle s x ≡ true → s ≡ x
same_lem none none e = refl
same_lem none (some k) e = cc
same_lem (some h) none e = cc
same_lem (some h) (some k) e = ap some (ground (arith, e))

holds-le-held :
    (h i : ℕ) (x : Socket) (xs : List Socket) → get_elem? xs i ≡ some x → holds h x ≤ held h xs
unfolding held
holds-le-held h i x [] e = cc
holds-le-held h zero x (z ∷ xs) e = ground (arith, e)
holds-le-held h (suc i) x (z ∷ xs) e = ground (arith, holds-le-held h i x xs e)

-- Two objects do not have the same handle.
distinct :
    (s : Program) (i j : ℕ) (x y : Socket)
    → Inv s
    → i ≢ j
    → get_elem? s.socks i ≡ some x
    → get_elem? s.socks j ≡ some y
    → (x ≡ none) ⊎ (same_handle y x ≡ false)
distinct s i j none y v ne e f = inl refl
distinct s i j (some k) none v ne e f = inr refl
distinct s i j (some k) (some l) v ne e f = elim (Bool-cases (l == k)) [
  | inr other ↦ inr other
  | inl same ↦
      let kept = get_elem?-set_ne s.socks j i none (λ p. ne (sym p)) ∙ e in
      let l_is_k : holds k (some l) ≡ holds k (some k) =
        ap (holds k) (same_lem (some l) (some k) same) in
      absurd (
        omega (
          arith,
          v k,
          holds_self k,
          holds_none k,
          l_is_k,
          held-set k j (some l) none s.socks f,
          holds-le-held k i (some k) (set s.socks j none) kept,
        ))
]

module _ (s : Program) (v : Inv s) where
  closes-Inv :
      (i : ℕ) (x : Socket)
      → get_elem? s.socks i ≡ some x
      → Inv (record s {
        socks = set s.socks i (close x s.handles).0;
        handles = (close x s.handles).1;
      })
  unfolding holds
  closes-Inv i x e h =
      ground (arith, v h, close_lem h x s.handles, held-set h i x (close x s.handles).0 s.socks e)

  resets-Inv :
      (i h : ℕ) (x : Socket)
      → get_elem? s.socks i ≡ some x
      → 0 < count h s.loose
      → Inv (record s {
        socks = set s.socks i (reset (some h) x s.handles).0;
        loose = remove h s.loose;
        handles = (reset (some h) x s.handles).1;
      })
  resets-Inv i h x e l k = elim (Bool-cases (same_handle (some h) x)) [
    | inl same ↦ absurd (
        omega (
          arith,
          v h,
          l,
          holds_self h,
          ap (holds h) (same_lem (some h) x same),
          holds-le-held h i x s.socks e,
        ))
    | inr other ↦ ground (
      arith,
      v k,
      reset_lem k (some h) x s.handles other,
      held-set k i x (reset (some h) x s.handles).0 s.socks e,
      count-taken k h s.loose l,
    )
  ]

  releases-Inv :
      (i : ℕ) (x : Socket)
      → get_elem? s.socks i ≡ some x
      → Inv (record s { socks = set s.socks i none; loose = keep x s.loose })
  unfolding holds count
  releases-Inv i none e k = ground (arith, v k, held-set k i none none s.socks e)
  releases-Inv i (some l) e k = ground (arith, v k, held-set k i (some l) none s.socks e)

  -- The object that is assigned from gives its handle up first.
  assigns-Inv :
      (i j : ℕ) (x y : Socket)
      → i ≢ j
      → get_elem? s.socks i ≡ some x
      → get_elem? s.socks j ≡ some y
      → same_handle y x ≡ false
      → Inv (record s {
        socks = set (set s.socks j (assign x y s.handles).1) i (assign x y s.handles).0;
        handles = (assign x y s.handles).2;
      })
  unfolding assign holds
  assigns-Inv i j x y ne e f other k =
      let kept = get_elem?-set_ne s.socks j i none (λ p. ne (sym p)) ∙ e in
      ground (
        arith,
        v k,
        reset_lem k y x s.handles other,
        held-set k j y none s.socks f,
        held-set k i x (reset y x s.handles).0 (set s.socks j none) kept,
      )

  assigns_none :
      (i j : ℕ)
      → i ≢ j
      → get_elem? s.socks i ≡ some none
      → get_elem? s.socks j ≡ some none
      → Inv (record s { socks = set (set s.socks j none) i none })
  unfolding holds
  assigns_none i j ne e f k =
      let kept = get_elem?-set_ne s.socks j i none (λ p. ne (sym p)) ∙ e in
      ground (
        arith,
        v k,
        held-set k j none none s.socks f,
        held-set k i none none (set s.socks j none) kept,
      )

  opens-Inv :
      (i h : ℕ) (x : Socket)
      → get_elem? s.socks i ≡ some x
      → IsFree h s.handles
      → Inv (record s {
        socks = set s.socks i (tcp_open (some h) x s.handles).1;
        handles = (tcp_open (some h) x s.handles).2;
      })
  unfolding tcp_open reset close count holds
  opens-Inv i h none e free k = ground (arith, v k, v h, free, held-set k i none (some h) s.socks e)
  opens-Inv i h (some l) e free k = ground (arith, v k, held-set k i (some l) (some l) s.socks e)

  -- No object has a handle that is not open.
  new_apart :
      (i h : ℕ) (x : Socket)
      → get_elem? s.socks i ≡ some x
      → IsFree h s.handles
      → same_handle (some h) x ≡ false
  new_apart i h none e free = refl
  new_apart i h (some l) e free = elim (Bool-cases (h == l)) [
    | inr other ↦ other
    | inl same ↦ absurd (
        omega (
          arith,
          v h,
          free,
          holds_self h,
          ap (holds h) (same_lem (some h) (some l) same),
          holds-le-held h i (some l) s.socks e,
        ))
  ]

  accepts-Inv :
      (i : ℕ) (created x : Socket) (is_set reuse bound listens : Bool)
      → get_elem? s.socks i ≡ some x
      → IsNew created s.handles
      → Inv (
          after_open s i
            (is_set && not (is_open x))
            created
            (acceptor_open is_set created reuse bound listens x s.handles))
  unfolding acceptor_open given_up reset close count holds
  accepts-Inv i created (some l) is_set reuse bound listens e new k =
      ground (arith, v k, held-set k i (some l) (some l) s.socks e)
  accepts-Inv i created none false reuse bound listens e new k =
      ground (arith, v k, held-set k i none none s.socks e)
  accepts-Inv i none none true reuse bound listens e new k =
      ground (arith, v k, held-set k i none none s.socks e)
  accepts-Inv i (some h) none true reuse bound listens e new k =
      ground (
        arith,
        v k,
        v h,
        new,
        held-set k i none none s.socks e,
        held-set k i none (some h) s.socks e,
      )

  connects-Inv :
      (i : ℕ) (created x : Socket) (connected : Bool)
      → get_elem? s.socks i ≡ some x
      → IsNew created s.handles
      → Inv (after_open s i true created (connector_connect created connected x s.handles))
  unfolding connector_connect given_up reset close count holds
  connects-Inv i none none connected e new k = ground (arith, v k, held-set k i none none s.socks e)
  connects-Inv i none (some l) connected e new k =
      ground (arith, v k, held-set k i (some l) none s.socks e)
  connects-Inv i (some h) none connected e new k =
      ground (
        arith,
        v k,
        v h,
        new,
        held-set k i none none s.socks e,
        held-set k i none (some h) s.socks e,
      )
  connects-Inv i (some h) (some l) connected e new k = ground (
    arith,
    v k,
    v h,
    new,
    new_apart i h (some l) e new,
    held-set k i (some l) none s.socks e,
    held-set k i (some l) (some h) s.socks e,
  )

Step-Inv : {s t : Program} → Step s t → Inv s → Inv t
unfolding held holds count assign reset
Step-Inv (obtains s h free) v k = ground (arith, v k, v h, free)
Step-Inv (constructs s) v k = ground (arith, v k)
Step-Inv (adopts s h l) v k = ground (arith, v k, count-remove k h s.loose l)
Step-Inv (copies s i x e) v k = ground (arith, v k, held-set k i x none s.socks e)
Step-Inv (releases s i x e) v k = releases-Inv s v i x e k
Step-Inv (closes s i x e) v k = closes-Inv s v i x e k
Step-Inv (resets s i h x e l) v k = resets-Inv s v i h x e l k
Step-Inv (assigns s i j none none ne e f) v k = assigns_none s v i j ne e f k
Step-Inv (assigns s i j none (some l) ne e f) v k = assigns-Inv s v i j none (some l) ne e f refl k
Step-Inv (assigns s i j (some m) y ne e f) v k = elim (distinct s i j (some m) y v ne e f) [
  | inl nothing ↦ cc
  | inr other ↦ assigns-Inv s v i j (some m) y ne e f other k
]
Step-Inv (opens s i h x e free) v k = opens-Inv s v i h x e free k
Step-Inv (accepts s i created x is_set reuse bound listens e new) v k =
    accepts-Inv s v i created x is_set reuse bound listens e new k
Step-Inv (connects s i created x connected e new) v k =
    connects-Inv s v i created x connected e new k
Step-Inv (forgets s h l) v k = ground (arith, v k, count-remove k h s.loose l)

Reach-Inv : {s t : Program} → Reach s t → Inv s → Inv t
Reach-Inv here v = v
Reach-Inv (next r st) v = Step-Inv st (Reach-Inv r v)

start-Inv : Inv start
unfolding count held
start-Inv h = omega arith

-- In any order of calls on any number of sockets, acceptors and connectors, where the system gives
-- out only handles that are not open and the code passes on only handles that it has: a handle has
-- been given out as often as it was closed, and once more exactly when one object or one variable
-- of the code has it, or it was given up. It is given up by an open or a connect that fails after
-- it made the handle, or by code that forgets it. So no handle has two owners, and none is closed
-- twice.
pub one_owner_of_handle :
    (s : Program) (h : ℕ)
    → Reach start s
    → (count h s.handles.made
        ≡ count h s.handles.closed + (held h s.socks + count h s.loose + count h s.dropped))
      × (held h s.socks + count h s.loose + count h s.dropped ≤ 1)
one_owner_of_handle s h r = Reach-Inv r start-Inv h

-- When an acceptor that is not open opens a set address and the system makes a socket, open
-- returns 0 and the acceptor has the socket exactly when setsockopt, bind and listen all go well;
-- in every case the handle is given out once more than it is closed, so where one of them fails it
-- is left open and no object has it.
pub acceptor_open_lem :
    (h : ℕ) (reuse bound listens : Bool) (w : Handles)
    → IsFree h w
    → (let r = acceptor_open true (some h) reuse bound listens none w in
        (r.0 ≡ (reuse && bound && listens))
        × (r.1 ≡ (if r.0 then some h else none))
        × (count h r.2.made ≡ count h r.2.closed + 1))
unfolding acceptor_open reset close count
acceptor_open_lem h false bound listens w free = (refl, refl, ground (arith, free))
acceptor_open_lem h true false listens w free = (refl, refl, ground (arith, free))
acceptor_open_lem h true true false w free = (refl, refl, ground (arith, free))
acceptor_open_lem h true true true w free = (refl, refl, ground (arith, free))

pub connector_connect_lem :
    (h : ℕ) (connected : Bool) (sock : Socket) (w : Handles)
    → IsFree h w
    → holds h sock ≡ 0
    → (let r = connector_connect (some h) connected sock w in
        (r.0 ≡ connected)
        × (r.1 ≡ (if connected then some h else none))
        × (count h r.2.made ≡ count h r.2.closed + 1))
unfolding connector_connect reset close count holds
connector_connect_lem h false none w free z = (refl, refl, ground (arith, free))
connector_connect_lem h true none w free z = (refl, refl, ground (arith, free))
connector_connect_lem h false (some k) w free z =
    ground (arith, free, z, reset_lem h (some h) (some k) (sys_make (some h) w) (ground (arith, z)))
connector_connect_lem h true (some k) w free z =
    ground (arith, free, z, reset_lem h (some h) (some k) (sys_make (some h) w) (ground (arith, z)))
