-- ===== src/MsgQueue/Holds.antt =====
-- CtrlrFx/MsgQueue.h: what the array holds, and the two locked parts as operations on it.
use ctrlr_fx.Prelude.{
  ℕ, suc, subst, sym, ◌+◌, ◌-◌, ◌^◌, ◌≤◌, ◌<◌, ◌≡◌, ◌↔◌, refl, List, [], ◌∷◌, ◌++◌, none, some,
  true, false, ◌==◌, ltb, if◌then◌else◌, length, length-set, length-append, set, get_elem?,
  get_elem?-set_self, get_elem?-set_ne, get_elem?-append_one, Bool-cases, inl, inr, arith,
}
use ctrlr_fx.Memory.{store_lem}
use ctrlr_fx.MsgQueue.{
  MsgQueue, next, write_cell, read_cell, do_put, do_get, tryput, tryget, peek, full, empty, destroy,
  set_buffer, resize,
}

abbrev pub wrap : ℕ → ℕ → ℕ
wrap cap p = if ltb p cap then p else p - cap

-- The array holds `xs`, oldest first: `sz` cells from `get_` on, going round, up to `put_`.
pub record Holds {A : Type 0} (q : MsgQueue A) (xs : List A) : Type 0 where
  pub storage : length q.buf ≡ q.cap
  pub small : q.cap < 2 ^ 64
  pub get_in : q.get_ < q.cap
  pub counted : q.sz ≡ length xs
  pub room : length xs ≤ q.cap
  pub put_at : q.put_ ≡ wrap q.cap (q.get_ + length xs)
  pub cells : (i : ℕ) → i < length xs → get_elem? q.buf (wrap q.cap (q.get_ + i)) ≡ get_elem? xs i

module _ {A : Type 0} (q : MsgQueue A) where
  -- With a free cell the write adds the value at the end and touches no held value.
  pub write_cell-Holds :
      (xs : List A) (x : A)
      → Holds q xs
      → length xs < q.cap
      → (q' : MsgQueue A) × (write_cell q x ≡ some q')
        × Holds q' (xs ++ (x ∷ []))
        × (q'.cap ≡ q.cap)
        × (q'.slots ≡ q.slots)
        × (q'.items ≡ q.items)
  unfolding write_cell
  write_cell-Holds xs x h lt = (
    record q { buf = set q.buf q.put_ x; put_ = next q q.put_; sz = q.sz + 1 },
    ground (arith, h, store_lem q.buf q.put_ x),
    record {
      storage = ground (arith, h, length-set q.buf q.put_ x);
      small = h.small;
      get_in = h.get_in;
      counted = ground (arith, h, length-append xs (x ∷ []));
      room = ground (arith, h, length-append xs (x ∷ []));
      put_at = ground (arith, h, length-append xs (x ∷ []));
      cells = λ i k. ground (
        arith,
        h,
        h.cells i,
        length-append xs (x ∷ []),
        get_elem?-append_one xs x i,
        get_elem?-set_self q.buf q.put_ x,
        get_elem?-set_ne q.buf q.put_ (wrap q.cap (q.get_ + i)) x,
      );
    },
    refl,
    refl,
    refl,
  )

  -- The read takes the oldest value off.
  pub read_cell-Holds :
      (x : A) (xs : List A)
      → Holds q (x ∷ xs)
      → (q' : MsgQueue A) × (read_cell q ≡ some (x, q'))
        × Holds q' xs
        × (q'.cap ≡ q.cap)
        × (q'.slots ≡ q.slots)
        × (q'.items ≡ q.items)
  unfolding read_cell
  read_cell-Holds x xs h = (
    record q { get_ = next q q.get_; sz = q.sz - 1 },
    ground (arith, h, h.cells 0),
    record {
      storage = h.storage;
      small = h.small;
      get_in = ground (arith, h);
      counted = ground (arith, h);
      room = ground (arith, h);
      put_at = ground (arith, h);
      cells = λ i k. ground (arith, h, h.cells (suc i));
    },
    refl,
    refl,
    refl,
  )

  -- full() of a message queue whose array holds a list of values is true exactly when that list is
  -- empty, and empty() exactly when all cells are in use.
  pub full_empty_lem :
      (xs : List A)
      → Holds q xs
      → ((full q ≡ true) ↔ (length xs ≡ 0)) × ((empty q ≡ true) ↔ (length xs ≡ q.cap))
  unfolding full empty
  full_empty_lem xs h = ground (arith, h)

-- The semaphores play no part in what the array holds.
pub Holds-counts :
    {A : Type 0} (q : MsgQueue A) (xs : List A) (s i : ℕ)
    → Holds q xs
    → Holds (record q { slots = s; items = i }) xs
Holds-counts q xs s i h = record {
  storage = h.storage;
  small = h.small;
  get_in = h.get_in;
  counted = h.counted;
  room = h.room;
  put_at = h.put_at;
  cells = h.cells;
}

-- No thread is between its `acquire` and its `post`.
pub record Idle {A : Type 0} (q : MsgQueue A) (xs : List A) : Type 0 where
  pub holds : Holds q xs
  pub free : q.slots + length xs ≡ q.cap
  pub stored : q.items ≡ length xs

module _ {A : Type 0} (q : MsgQueue A) where
  -- On an idle message queue tryput fails and changes nothing exactly when every cell is in use,
  -- and otherwise adds the value at the end.
  pub tryput_lem :
      (xs : List A) (x : A)
      → Idle q xs
      → (q' : MsgQueue A) × (tryput q x ≡ some (if length xs == q.cap then false else true, q'))
        × Idle q' (if length xs == q.cap then xs else xs ++ (x ∷ []))
        × (q'.cap ≡ q.cap)
  unfolding tryput do_put
  tryput_lem xs x h = elim (Bool-cases (length xs == q.cap)) [
    | inl is_full ↦ rw is_full (q, ground (arith, h.free), h, refl)
    | inr has_room ↦
        let q0 : MsgQueue A = record q { slots = q.slots - 1 } in
        let (q1, e, h1, c, s, t) =
          write_cell-Holds q0 xs x (Holds-counts q xs (q.slots - 1) q.items h.holds)
            (ground (arith, h.holds)) in
        rw has_room (
          record q1 { items = q1.items + 1 },
          ground (arith, h.free, e),
          record {
            holds = Holds-counts q1 _ q1.slots (q1.items + 1) h1;
            free = ground (arith, h.free, c, s, length-append xs (x ∷ []));
            stored = ground (arith, h.stored, t, length-append xs (x ∷ []));
          },
          c,
        )
  ]

  pub tryget-none : Idle q [] → tryget q ≡ some (none, q)
  unfolding tryget
  tryget-none h = ground (arith, h.stored)

  -- On an idle message queue that holds values peek shows the oldest one and tryget hands it over
  -- and removes it.
  pub tryget_lem :
      (x : A) (xs : List A)
      → Idle q (x ∷ xs)
      → (q' : MsgQueue A) × (peek q ≡ some (some x))
        × (tryget q ≡ some (some x, q'))
        × Idle q' xs
        × (q'.cap ≡ q.cap)
  unfolding tryget do_get peek
  tryget_lem x xs h =
      let q0 : MsgQueue A = record q { items = q.items - 1 } in
      let (q1, e, h1, c, s, t) =
        read_cell-Holds q0 x xs (Holds-counts q (x ∷ xs) q.slots (q.items - 1) h.holds) in
      (
        record q1 { slots = q1.slots + 1 },
        ground (arith, h.holds, h.holds.cells 0),
        ground (arith, h.stored, e),
        record {
          holds = Holds-counts q1 xs (q1.slots + 1) q1.items h1;
          free = ground (arith, h.free, c, s);
          stored = ground (arith, h.stored, t);
        },
        c,
      )

-- A queue with a new array holds nothing.
pub resize-Idle :
    {A : Type 0} (new_array : ℕ → List A) (q : MsgQueue A) (cap : ℕ)
    → 0 < cap
    → cap < 2 ^ 64
    → length (new_array cap) ≡ cap
    → Idle (resize new_array q cap) [] × ((resize new_array q cap).cap ≡ cap)
unfolding resize set_buffer destroy
resize-Idle {A} new_array q cap pos small e =
    subst (λ (q' : MsgQueue A). Idle q' [] × (q'.cap ≡ cap)) (sym fresh)
      (
        record {
          holds = record {
            storage = e;
            small = small;
            get_in = pos;
            counted = refl;
            room = omega arith;
            put_at = ground (arith, pos);
            cells = λ i h. absurd (omega (arith, h));
          };
          free = omega arith;
          stored = refl;
        },
        refl,
      )
  where
    fresh : resize new_array q cap ≡ record {
      buf = new_array cap;
      cap = cap;
      put_ = 0;
      get_ = 0;
      sz = 0;
      own = true;
      slots = cap;
      items = 0;
    }
    fresh = ground (arith, pos)
