-- ===== src/MsgQueue/Threads.antt =====
-- CtrlrFx/MsgQueue.h with any number of threads in `put` and `get`. Each takes a semaphore, runs its
-- locked part, and posts the other semaphore; between these steps any other thread may step.
-- `destroy`, `set_buffer` and `resize` are not thread-safe and are not steps.
use ctrlr_fx.Prelude.{
  ℕ, suc, ◌+◌, ◌-◌, ◌^◌, ◌≤◌, ◌<◌, ◌≡◌, refl, sym, ◌∙◌, ap, List, [], ◌∷◌, ◌++◌, some, Bool, false,
  ◌==◌, length, length-append, append_assoc, some_injective, subst, arith,
}
use ctrlr_fx.MsgQueue.{MsgQueue, write_cell, read_cell, set_buffer, destroy}
use ctrlr_fx.MsgQueue.Holds.{Holds, Holds-counts, write_cell-Holds, read_cell-Holds}

-- The queue and where the threads in `put` and `get` stand. `written` and `read` are what the locked
-- parts have written and read so far, oldest first.
pub record System (A : Type 0) : Type 0 where
  pub queue : MsgQueue A
  pub putting : List A
  pub written : List A
  pub to_post_item : ℕ
  pub getting : ℕ
  pub read : List A
  pub to_post_slot : ℕ

module _ {A : Type 0} where
  -- `put_acquires` is the end of `slotSem_.acquire()` in `put(v)`, `put(v, d)` and `tryput(v)`.
  pub data Step : System A → System A → Type 0 where
    put_acquires :
        (s : System A) (v : A)
        → 0 < s.queue.slots
        → Step s (record s {
          queue = record s.queue { slots = s.queue.slots - 1 };
          putting = v ∷ s.putting;
        })
    put_writes :
        (s : System A) (xs : List A) (v : A) (ys : List A) (q : MsgQueue A)
        → s.putting ≡ xs ++ (v ∷ ys)
        → write_cell s.queue v ≡ some q
        → Step s (record s {
          queue = q;
          putting = xs ++ ys;
          written = s.written ++ (v ∷ []);
          to_post_item = s.to_post_item + 1;
        })
    put_posts :
        (s : System A)
        → 0 < s.to_post_item
        → Step s (record s {
          queue = record s.queue { items = s.queue.items + 1 };
          to_post_item = s.to_post_item - 1;
        })
    get_acquires :
        (s : System A)
        → 0 < s.queue.items
        → Step s (record s {
          queue = record s.queue { items = s.queue.items - 1 };
          getting = s.getting + 1;
        })
    get_reads :
        (s : System A) (v : A) (q : MsgQueue A)
        → 0 < s.getting
        → read_cell s.queue ≡ some (v, q)
        → Step s (record s {
          queue = q;
          getting = s.getting - 1;
          read = s.read ++ (v ∷ []);
          to_post_slot = s.to_post_slot + 1;
        })
    get_posts :
        (s : System A)
        → 0 < s.to_post_slot
        → Step s (record s {
          queue = record s.queue { slots = s.queue.slots + 1 };
          to_post_slot = s.to_post_slot - 1;
        })

  pub data Reach (s : System A) : System A → Type 0 where
    here : Reach s s
    next : {t u : System A} → Reach s t → Step t u → Reach s u

  -- Every cell is counted once: free, promised to a writer, in use, or read and not yet free
  -- again; every held value is counted once: announced, promised to a reader, or not yet announced.
  pub record Inv (s : System A) (held : List A) : Type 0 where
    pub holds : Holds s.queue held
    pub cells : s.queue.slots + length s.putting + length held + s.to_post_slot ≡ s.queue.cap
    pub values : s.queue.items + s.getting + s.to_post_item ≡ length held
    pub in_order : s.written ≡ s.read ++ held

  unfoldable pub start : List A → Bool → System A
  start arr own = record {
    queue =
        set_buffer
          (record {
            buf = [];
            cap = 0;
            put_ = 0;
            get_ = 0;
            sz = 0;
            own = false;
            slots = 0;
            items = 0;
          })
          (some arr) (length arr) own;
    putting = [];
    written = [];
    to_post_item = 0;
    getting = 0;
    read = [];
    to_post_slot = 0;
  }

  length-remove_one : (xs ys : List A) (v : A) → length (xs ++ (v ∷ ys)) ≡ suc (length (xs ++ ys))
  length-remove_one [] ys v = refl
  length-remove_one (x ∷ xs) ys v = ap suc (length-remove_one xs ys v)

  pos_ne : (arr : List A) → 0 < length arr → (length arr == 0) ≡ false
  pos_ne arr h = ground (arith, h)

  -- A thread about to write has a free cell, and one about to read a value.
  put_room :
      (s : System A) (held xs ys : List A) (x : A)
      → Inv s held
      → s.putting ≡ xs ++ (x ∷ ys)
      → length held < s.queue.cap
  put_room s held xs ys x v e = omega (arith, v.cells, ap length e, length-remove_one xs ys x)

  wrote-Inv :
      (s : System A) (held xs ys : List A) (x : A) (q : MsgQueue A)
      → Inv s held
      → s.putting ≡ xs ++ (x ∷ ys)
      → Holds q (held ++ (x ∷ []))
      → q.cap ≡ s.queue.cap
      → q.slots ≡ s.queue.slots
      → q.items ≡ s.queue.items
      → Inv
          (record s {
            queue = q;
            putting = xs ++ ys;
            written = s.written ++ (x ∷ []);
            to_post_item = s.to_post_item + 1;
          })
          (held ++ (x ∷ []))
  wrote-Inv s held xs ys x q v e h c sl it = record {
    holds = h;
    cells = omega (
      arith,
      v.cells,
      ap length e,
      length-remove_one xs ys x,
      length-append held (x ∷ []),
      c,
      sl,
    );
    values = omega (arith, v.values, length-append held (x ∷ []), it);
    in_order = ap (λ l. l ++ (x ∷ [])) v.in_order ∙ append_assoc s.read held (x ∷ []);
  }

  read-Inv :
      (s : System A) (held : List A) (y : A) (q : MsgQueue A)
      → Inv s (y ∷ held)
      → 0 < s.getting
      → Holds q held
      → q.cap ≡ s.queue.cap
      → q.slots ≡ s.queue.slots
      → q.items ≡ s.queue.items
      → Inv
          (record s {
            queue = q;
            getting = s.getting - 1;
            read = s.read ++ (y ∷ []);
            to_post_slot = s.to_post_slot + 1;
          })
          held
  read-Inv s held y q v pos h c sl it = record {
    holds = h;
    cells = omega (arith, v.cells, c, sl);
    values = omega (arith, v.values, it, pos);
    in_order = v.in_order ∙ sym (append_assoc s.read (y ∷ []) held);
  }

  start-Inv :
      (arr : List A) (own : Bool) → length arr < 2 ^ 64 → 0 < length arr → Inv (start arr own) []
  unfolding start set_buffer destroy
  start-Inv arr own h pos = rw (pos_ne arr pos) record {
    holds = record {
      storage = refl;
      small = h;
      get_in = pos;
      counted = refl;
      room = omega arith;
      put_at = ground (arith, pos);
      cells = λ i k. absurd (omega (arith, k));
    };
    cells = omega arith;
    values = refl;
    in_order = refl;
  }

  Step-Inv :
      {s t : System A} (held : List A) → Inv s held → Step s t → (held' : List A) × Inv t held'
  Step-Inv held v (put_acquires s x h) = (
    held,
    record {
      holds = Holds-counts s.queue held (s.queue.slots - 1) s.queue.items v.holds;
      cells = omega (arith, v.cells, h);
      values = v.values;
      in_order = v.in_order;
    },
  )
  Step-Inv held v (put_writes s xs x ys q e run) =
      let (q', e', h', c, sl, it) =
        write_cell-Holds s.queue held x v.holds (put_room s held xs ys x v e) in
      (
        held ++ (x ∷ []),
        subst
            (λ r.
              Inv
                (record s {
                  queue = r;
                  putting = xs ++ ys;
                  written = s.written ++ (x ∷ []);
                  to_post_item = s.to_post_item + 1;
                })
                (held ++ (x ∷ [])))
            (some_injective (sym e' ∙ run)) (wrote-Inv s held xs ys x q' v e h' c sl it),
      )
  Step-Inv held v (put_posts s h) = (
    held,
    record {
      holds = Holds-counts s.queue held s.queue.slots (s.queue.items + 1) v.holds;
      cells = v.cells;
      values = omega (arith, v.values, h);
      in_order = v.in_order;
    },
  )
  Step-Inv held v (get_acquires s h) = (
    held,
    record {
      holds = Holds-counts s.queue held s.queue.slots (s.queue.items - 1) v.holds;
      cells = v.cells;
      values = omega (arith, v.values, h);
      in_order = v.in_order;
    },
  )
  Step-Inv [] v (get_reads s x q h run) = absurd (omega (arith, v.values, h))
  Step-Inv (y ∷ held) v (get_reads s x q h run) =
      let (q', e', h', c, sl, it) = read_cell-Holds s.queue y held v.holds in
      (
        held,
        subst
            (λ (r : A × MsgQueue A).
              Inv
                (record s {
                  queue = r.1;
                  getting = s.getting - 1;
                  read = s.read ++ (r.0 ∷ []);
                  to_post_slot = s.to_post_slot + 1;
                })
                held)
            (some_injective (sym e' ∙ run)) (read-Inv s held y q' v h h' c sl it),
      )
  Step-Inv held v (get_posts s h) = (
    held,
    record {
      holds = Holds-counts s.queue held (s.queue.slots + 1) s.queue.items v.holds;
      cells = omega (arith, v.cells, h);
      values = v.values;
      in_order = v.in_order;
    },
  )

  pub Reach-Inv :
      {s t : System A} (held : List A) → Inv s held → Reach s t → (held' : List A) × Inv t held'
  Reach-Inv held v here = (held, v)
  Reach-Inv held v (next r st) = let (mid, w) = Reach-Inv held v r in Step-Inv mid w st

module _ {A : Type 0} (arr : List A) (own : Bool) (small : length arr < 2 ^ 64)
    (pos : 0 < length arr) (s : System A) (run : Reach (start arr own) s) where
  reached : (held : List A) × Inv s held
  reached = Reach-Inv [] (start-Inv arr own small pos) run

  -- For threads that put into and get from a new message queue over a non-empty array of fewer
  -- than 2 ^ 64 cells, in any interleaving of their semaphore and locked steps, what was read is
  -- what was written, in the same order, up to the values still held, and those fit the queue.
  pub written_lem :
      (held : List A) × (s.written ≡ s.read ++ held)
      × (length held ≤ s.queue.cap)
      × (s.queue.sz ≡ length held)
  written_lem = let (held, v) = reached in (held, v.in_order, v.holds.room, v.holds.counted)

  -- In a state that such threads can reach, a thread that has acquired a free slot can always run
  -- its locked write: it ends without a fault and there is room at that moment, whatever other
  -- threads did.
  pub put_runs :
      (xs ys : List A) (x : A)
      → s.putting ≡ xs ++ (x ∷ ys)
      → (q : MsgQueue A) × (write_cell s.queue x ≡ some q) × (s.queue.sz < s.queue.cap)
  put_runs xs ys x e =
      let (held, v) = reached in
      let room = put_room s held xs ys x v e in
      let (q, run', h, c, sl, it) = write_cell-Holds s.queue held x v.holds room in
      (q, run', omega (arith, room, v.holds.counted))

  -- In a state that such threads can reach, a thread that has acquired an item can always run its
  -- locked read: it ends without a fault and yields the oldest value that was written and not yet
  -- read.
  pub get_runs :
      0 < s.getting
      → (x : A) × (held : List A) × (q : MsgQueue A) × (read_cell s.queue ≡ some (x, q))
        × (s.written ≡ s.read ++ (x ∷ held))
  get_runs h = let (held, v) = reached in split held v h
    where
      split :
          (held : List A)
          → Inv s held
          → 0 < s.getting
          → (x : A) × (held : List A) × (q : MsgQueue A) × (read_cell s.queue ≡ some (x, q))
            × (s.written ≡ s.read ++ (x ∷ held))
      split [] v h = absurd (omega (arith, v.values, h))
      split (x ∷ held) v h =
          let (q, run', h, c, sl, it) = read_cell-Holds s.queue x held v.holds in
          (x, held, q, run', v.in_order)
