-- ===== src/RdWrLock/Threads.antt =====
-- src/os/generic/RdWrLock.cpp with any number of threads, in any interleaving, wake-ups without a cause
-- included. A thread calls an unlocking function, or `wr_demote`, only while it holds that lock.
-- `wr_lock` may let another thread in between its two loops here, which the source does only when
-- the second loop waits.
use ctrlr_fx.Prelude.{
  ℕ, ◌+◌, ◌-◌, ◌≤◌, ◌<◌, ◌≡◌, ◌≢◌, refl, none, some, Bool, true, ◌==◌, if◌then◌else◌, ◌⊎◌, inl, inr,
  Bool-cases, arith,
}
use ctrlr_fx.RdWrLock.{
  RdWrLock, Wake, wake_none, wake_one, wake_all, Done, new_lock, rd_lock, rd_unlock, wr_lock_wait,
  wr_lock_take, wr_unlock, wr_demote,
}

-- How many threads are about to test, or asleep in, the loop of `rd_lock` and each loop of
-- `wr_lock`, and how many hold the lock.
pub record System : Type 0 where
  pub lock : RdWrLock
  pub rd_awake : ℕ
  pub rd_asleep : ℕ
  pub wait_awake : ℕ
  pub wait_asleep : ℕ
  pub take_awake : ℕ
  pub take_asleep : ℕ
  pub readers : ℕ
  pub writers : ℕ

abbrev pub start : System
start = record {
  lock = new_lock;
  rd_awake = 0;
  rd_asleep = 0;
  wait_awake = 0;
  wait_asleep = 0;
  take_awake = 0;
  take_asleep = 0;
  readers = 0;
  writers = 0;
}

-- What the condition variable does. A signal wakes one thread, whichever, or finds none asleep.
pub data Woken : Wake → System → System → Type 0 where
  no_one : (s : System) → Woken wake_none s s
  everyone :
      (s : System)
      → Woken wake_all s (record s {
        rd_awake = s.rd_awake + s.rd_asleep;
        rd_asleep = 0;
        wait_awake = s.wait_awake + s.wait_asleep;
        wait_asleep = 0;
        take_awake = s.take_awake + s.take_asleep;
        take_asleep = 0;
      })
  one_rd :
      (s : System)
      → 0 < s.rd_asleep
      → Woken wake_one s (record s { rd_awake = s.rd_awake + 1; rd_asleep = s.rd_asleep - 1 })
  one_wait :
      (s : System)
      → 0 < s.wait_asleep
      → Woken wake_one s
          (record s { wait_awake = s.wait_awake + 1; wait_asleep = s.wait_asleep - 1 })
  one_take :
      (s : System)
      → 0 < s.take_asleep
      → Woken wake_one s
          (record s { take_awake = s.take_awake + 1; take_asleep = s.take_asleep - 1 })
  none_asleep : (s : System) → s.rd_asleep + s.wait_asleep + s.take_asleep ≡ 0 → Woken wake_one s s

pub data Step : System → System → Type 0 where
  rd_calls : (s : System) → Step s (record s { rd_awake = s.rd_awake + 1 })
  rd_waits :
      (s : System)
      → 0 < s.rd_awake
      → rd_lock s.lock ≡ none
      → Step s (record s { rd_awake = s.rd_awake - 1; rd_asleep = s.rd_asleep + 1 })
  rd_enters :
      (s : System) (l : RdWrLock)
      → 0 < s.rd_awake
      → rd_lock s.lock ≡ some l
      → Step s (record s { lock = l; rd_awake = s.rd_awake - 1; readers = s.readers + 1 })
  rd_leaves :
      (s t : System)
      → 0 < s.readers
      → Woken
          (rd_unlock s.lock).wake
          (record s { lock = (rd_unlock s.lock).lock; readers = s.readers - 1 })
          t
      → Step s t
  wr_calls : (s : System) → Step s (record s { wait_awake = s.wait_awake + 1 })
  wr_waits :
      (s : System)
      → 0 < s.wait_awake
      → wr_lock_wait s.lock ≡ none
      → Step s (record s { wait_awake = s.wait_awake - 1; wait_asleep = s.wait_asleep + 1 })
  wr_passes :
      (s : System) (l : RdWrLock)
      → 0 < s.wait_awake
      → wr_lock_wait s.lock ≡ some l
      → Step s (record s { lock = l; wait_awake = s.wait_awake - 1; take_awake = s.take_awake + 1 })
  wr_waits_more :
      (s : System)
      → 0 < s.take_awake
      → wr_lock_take s.lock ≡ none
      → Step s (record s { take_awake = s.take_awake - 1; take_asleep = s.take_asleep + 1 })
  wr_enters :
      (s t : System) (d : Done)
      → 0 < s.take_awake
      → wr_lock_take s.lock ≡ some d
      → Woken d.wake
          (record s { lock = d.lock; take_awake = s.take_awake - 1; writers = s.writers + 1 })
          t
      → Step s t
  wr_leaves :
      (s t : System)
      → 0 < s.writers
      → Woken
          (wr_unlock s.lock).wake
          (record s { lock = (wr_unlock s.lock).lock; writers = s.writers - 1 })
          t
      → Step s t
  wr_demotes :
      (s t : System)
      → 0 < s.writers
      → Woken
          (wr_demote s.lock).wake
          (record s {
            lock = (wr_demote s.lock).lock;
            readers = s.readers + 1;
            writers = s.writers - 1;
          })
          t
      → Step s t
  wakes_up : (s t : System) → Woken wake_one s t → Step s t

pub data Reach (s : System) : System → Type 0 where
  here : Reach s s
  next : {t u : System} → Reach s t → Step t u → Reach s u

abbrev bit : Bool → ℕ
bit b = if b then 1 else 0

-- The fields count the threads, and a writer excludes readers and other writers.
record Counted (s : System) : Type 0 where
  read_locks : s.lock.nrd ≡ s.readers
  write_locks : bit s.lock.wrlk ≡ s.writers
  waiting : bit s.lock.wrwt ≡ s.take_awake + s.take_asleep
  excluded : (s.readers ≡ 0) ⊎ (s.writers ≡ 0)

-- A reader, or a writer in its first loop, sleeps only while a writer holds the lock or is next; a
-- writer in its second loop, only while someone holds it.
record Justified (s : System) : Type 0 where
  queue : (s.rd_asleep + s.wait_asleep ≡ 0) ⊎ (1 ≤ bit s.lock.wrlk + bit s.lock.wrwt)
  taker : (s.take_asleep ≡ 0) ⊎ (1 ≤ bit s.lock.wrlk + s.lock.nrd)

start-Counted : Counted start
start-Counted = record {
  read_locks = refl;
  write_locks = refl;
  waiting = refl;
  excluded = inl refl;
}

start-Justified : Justified start
start-Justified = record { queue = inl refl; taker = inl refl }

Woken-Counted : (w : Wake) (s t : System) → Counted s → Woken w s t → Counted t
Woken-Counted w s t c (no_one s') = c
Woken-Counted w s t c (everyone s') = record {
  read_locks = c.read_locks;
  write_locks = c.write_locks;
  waiting = omega (arith, c.waiting);
  excluded = c.excluded;
}
Woken-Counted w s t c (one_rd s' h) = record {
  read_locks = c.read_locks;
  write_locks = c.write_locks;
  waiting = c.waiting;
  excluded = c.excluded;
}
Woken-Counted w s t c (one_wait s' h) = record {
  read_locks = c.read_locks;
  write_locks = c.write_locks;
  waiting = c.waiting;
  excluded = c.excluded;
}
Woken-Counted w s t c (one_take s' h) = record {
  read_locks = c.read_locks;
  write_locks = c.write_locks;
  waiting = omega (arith, c.waiting, h);
  excluded = c.excluded;
}
Woken-Counted w s t c (none_asleep s' h) = c

-- After a broadcast nobody sleeps; one wake-up gives nobody a reason less.
Woken-Justified :
    (w : Wake) (s t : System) → ((w ≡ wake_all) ⊎ Justified s) → Woken w s t → Justified t
Woken-Justified w s t j (everyone s') = record { queue = inl refl; taker = inl refl }
Woken-Justified w s t (inl e) k = absurd cc
Woken-Justified w s t (inr j) (no_one s') = j
Woken-Justified w s t (inr j) (one_rd s' h) = record {
  queue = ground (arith, j.queue, h);
  taker = j.taker;
}
Woken-Justified w s t (inr j) (one_wait s' h) = record {
  queue = ground (arith, j.queue, h);
  taker = j.taker;
}
Woken-Justified w s t (inr j) (one_take s' h) = record {
  queue = j.queue;
  taker = ground (arith, j.taker, h);
}
Woken-Justified w s t (inr j) (none_asleep s' h) = j

abbrev Inv : System → Type 0
Inv s = Counted s × Justified s

-- A call that changes the lock, then wakes.
Inv-Woken :
    (w : Wake) (s t : System) → Counted s → (w ≡ wake_all) ⊎ Justified s → Woken w s t → Inv t
Inv-Woken w s t c j k = (Woken-Counted w s t c k, Woken-Justified w s t j k)

leave-Justified :
    (s : System)
    → Inv s
    → 0 < s.readers
    → ((rd_unlock s.lock).wake ≡ wake_all)
      ⊎ Justified (record s { lock = (rd_unlock s.lock).lock; readers = s.readers - 1 })
leave-Justified s (c, j) h = elim (Bool-cases (s.lock.nrd - 1 == 0)) [
  | inl last ↦ inl (ground (arith, last, h, c.read_locks))
  | inr more ↦ inr record { queue = ground (arith, j.queue); taker = ground (arith, more) }
]

Step-Inv : {s t : System} → Step s t → Inv s → Inv t
Step-Inv (rd_calls s) (c, j) = (
  record {
    read_locks = c.read_locks;
    write_locks = c.write_locks;
    waiting = c.waiting;
    excluded = c.excluded;
  },
  record { queue = j.queue; taker = j.taker },
)
Step-Inv (rd_waits s h e) (c, j) = (
  record {
    read_locks = c.read_locks;
    write_locks = c.write_locks;
    waiting = c.waiting;
    excluded = c.excluded;
  },
  record { queue = ground (arith, e); taker = j.taker },
)
Step-Inv (rd_enters s l h e) (c, j) = (
  record {
    read_locks = ground (arith, e, c.read_locks);
    write_locks = ground (arith, e, c.write_locks);
    waiting = ground (arith, e, c.waiting);
    excluded = ground (arith, e, c.excluded, c.write_locks);
  },
  record { queue = ground (arith, e, j.queue); taker = ground (arith, e, j.taker) },
)
Step-Inv (rd_leaves s t h k) (c, j) =
    Inv-Woken _ _ t
      record {
        read_locks = ground (arith, h, c.read_locks);
        write_locks = ground (arith, c.write_locks);
        waiting = ground (arith, c.waiting);
        excluded = ground (arith, c.excluded);
      }
      (leave-Justified s (c, j) h) k
Step-Inv (wr_calls s) (c, j) = (
  record {
    read_locks = c.read_locks;
    write_locks = c.write_locks;
    waiting = c.waiting;
    excluded = c.excluded;
  },
  record { queue = j.queue; taker = j.taker },
)
Step-Inv (wr_waits s h e) (c, j) = (
  record {
    read_locks = c.read_locks;
    write_locks = c.write_locks;
    waiting = c.waiting;
    excluded = c.excluded;
  },
  record { queue = ground (arith, e); taker = j.taker },
)
Step-Inv (wr_passes s l h e) (c, j) = (
  record {
    read_locks = ground (arith, e, c.read_locks);
    write_locks = ground (arith, e, c.write_locks);
    waiting = ground (arith, e, c.waiting);
    excluded = c.excluded;
  },
  record { queue = ground (arith, e, j.queue); taker = ground (arith, e, j.taker) },
)
Step-Inv (wr_waits_more s h e) (c, j) = (
  record {
    read_locks = c.read_locks;
    write_locks = c.write_locks;
    waiting = omega (arith, c.waiting, h);
    excluded = c.excluded;
  },
  record { queue = j.queue; taker = ground (arith, e) },
)
Step-Inv (wr_enters s t d h e k) (c, j) =
    Inv-Woken _ _ t
      record {
        read_locks = ground (arith, e, c.read_locks);
        write_locks = ground (arith, e, c.write_locks);
        waiting = ground (arith, e, h, c.waiting);
        excluded = ground (arith, e, c.read_locks);
      }
      (inr record { queue = ground (arith, e); taker = ground (arith, e) }) k
Step-Inv (wr_leaves s t h k) (c, j) =
    Inv-Woken _ _ t
      record {
        read_locks = ground (arith, c.read_locks);
        write_locks = ground (arith, h, c.write_locks);
        waiting = ground (arith, c.waiting);
        excluded = ground (arith, c.excluded);
      }
      (inl (ground (arith, h, c.write_locks))) k
Step-Inv (wr_demotes s t h k) (c, j) =
    Inv-Woken _ _ t
      record {
        read_locks = ground (arith, h, c.write_locks, c.read_locks);
        write_locks = ground (arith, h, c.write_locks);
        waiting = ground (arith, c.waiting);
        excluded = ground (arith, h, c.excluded, c.write_locks);
      }
      (inl (ground (arith, h, c.write_locks))) k
Step-Inv (wakes_up s t k) (c, j) = Inv-Woken _ s t c (inr j) k

Reach-Inv : {s t : System} → Reach s t → Inv s → Inv t
Reach-Inv here v = v
Reach-Inv (next r st) v = Step-Inv st (Reach-Inv r v)

reached : (s : System) → Reach start s → Inv s
reached s r = Reach-Inv r (start-Counted, start-Justified)

-- In every state that threads using the reader/writer lock can reach, at most one thread holds the
-- write lock, none holds the read lock while one does, and nrd_ and wrlk_ count the two.
pub exclusion :
    (s : System)
    → Reach start s
    → (s.writers ≤ 1)
      × ((s.readers ≡ 0) ⊎ (s.writers ≡ 0))
      × (s.lock.nrd ≡ s.readers)
      × ((if s.lock.wrlk then 1 else 0) ≡ s.writers)
exclusion s r =
    let (c, j) = reached s r in
    (ground (arith, c.write_locks), c.excluded, c.read_locks, c.write_locks)

-- In a reachable state where no thread holds the reader/writer lock and some thread waits for it,
-- a waiting thread is awake and its next test lets it through.
pub no_lost_wakeup :
    (s : System)
    → Reach start s
    → s.readers + s.writers ≡ 0
    → 0 < s.rd_awake + s.rd_asleep + s.wait_awake + s.wait_asleep + s.take_awake + s.take_asleep
    → ((0 < s.take_awake) × (wr_lock_take s.lock ≢ none))
      ⊎ ((0 < s.wait_awake) × (wr_lock_wait s.lock ≢ none))
      ⊎ ((0 < s.rd_awake) × (rd_lock s.lock ≢ none))
no_lost_wakeup s r idle waits =
    let (c, j) = reached s r in
    ground (arith, c.read_locks, c.write_locks, c.waiting, j.queue, j.taker)

-- In a reachable state a thread that holds the lock releases it, or demotes it, with result `true`.
pub release_lem :
    (s : System)
    → Reach start s
    → ((s.readers ≡ 0) ⊎ ((rd_unlock s.lock).ok ≡ true))
      × ((s.writers ≡ 0) ⊎ (((wr_unlock s.lock).ok ≡ true) × ((wr_demote s.lock).ok ≡ true)))
release_lem s r = let (c, j) = reached s r in ground (arith, c.read_locks, c.write_locks)

-- In a reachable state where a writer is in the second loop of wr_lock, rd_lock and the first loop
-- of wr_lock wait, and it is the only such writer.
writer_first :
    (s : System)
    → Reach start s
    → 0 < s.take_awake + s.take_asleep
    → (rd_lock s.lock ≡ none) × (wr_lock_wait s.lock ≡ none) × (s.take_awake + s.take_asleep ≡ 1)
writer_first s r h = let (c, j) = reached s r in ground (arith, c.waiting)
