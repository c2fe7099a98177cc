-- ===== src/SeqLock/Tests.antt =====
-- CtrlrFx/SeqLock.h: one whole write, then a read of both cells.
use ctrlr_fx.Prelude.{ℕ, ◌%◌, ◌≡◌, refl, [], ◌∷◌, true, false, arith}
use ctrlr_fx.SeqLock.{write_lock, read_begin, read_retry}
use ctrlr_fx.SeqLock.Snapshot.{
  System, locks, writes, unlocks, begins, reads, Reach, here, next, start, SeenIn, snapshot_lem,
}

abbrev locked : System ℕ
locked = record (start 0 (1 ∷ 2 ∷ [])) { ctr = 1; writing = true; steps = 1 }

abbrev changed : System ℕ
changed = record locked { cells = 5 ∷ 2 ∷ [] }

abbrev unlocked : System ℕ
unlocked = record changed { ctr = 2; writing = false; steps = 2 }

abbrev begun : System ℕ
begun = record unlocked { begun = 2; old = 5 ∷ 2 ∷ []; begun_steps = 2 }

abbrev read_both : System ℕ
read_both = record begun { seen = (1, 2) ∷ (0, 5) ∷ [] }

read_both-Reach : Reach (start 0 (1 ∷ 2 ∷ [])) read_both
read_both-Reach =
    next
      (next
        (next
          (next (next (next here (locks (start 0 (1 ∷ 2 ∷ [])) refl)) (writes locked 0 5 refl))
            (unlocks changed refl))
          (begins unlocked))
        (reads begun 0 5 refl))
      (reads (record begun { seen = (0, 5) ∷ [] }) 1 2 refl)

snapshot_lem_example : SeenIn (read_both.old) (read_both.seen) × (read_both.begun_steps % 2 ≡ 0)
snapshot_lem_example =
    snapshot_lem 0 (1 ∷ 2 ∷ []) read_both (omega arith) refl read_both-Reach (omega arith) refl

-- The counter is not set by a constructor. Found odd, it is even during a write, and what is read
-- then passes.
passes_in_write : read_retry (write_lock 1) (read_begin (write_lock 1)) ≡ false
passes_in_write = refl
