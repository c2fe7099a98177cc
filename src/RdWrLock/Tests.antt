-- ===== src/RdWrLock/Tests.antt =====
-- src/os/generic/RdWrLock.cpp: a writer takes the lock, a reader waits for it, the writer leaves.
use ctrlr_fx.Prelude.{◌≤◌, ◌<◌, ◌≡◌, ◌≢◌, refl, none, true, false, if◌then◌else◌, ◌⊎◌, arith}
use ctrlr_fx.RdWrLock.{rd_lock, wr_lock_wait, wr_lock_take}
use ctrlr_fx.RdWrLock.Threads.{
  System, start, rd_calls, rd_waits, wr_calls, wr_passes, wr_enters, wr_leaves, everyone,
  none_asleep, Reach, here, next, exclusion, no_lost_wakeup,
}

abbrev passed : System
passed = record start { lock = record { wrlk = false; wrwt = true; nrd = 0 }; take_awake = 1 }

abbrev written : System
written = record start { lock = record { wrlk = true; wrwt = false; nrd = 0 }; writers = 1 }

abbrev reader_waits : System
reader_waits = record written { rd_asleep = 1 }

abbrev reader_woken : System
reader_woken = record start { rd_awake = 1 }

passed-Reach : Reach start passed
passed-Reach =
    next (next here (wr_calls start))
      (wr_passes (record start { wait_awake = 1 }) passed.lock (omega arith) refl)

written-Reach : Reach start written
written-Reach =
    next passed-Reach (wr_enters passed written _ (omega arith) refl (none_asleep written refl))

reader_waits-Reach : Reach start reader_waits
reader_waits-Reach =
    next (next written-Reach (rd_calls written))
      (rd_waits (record written { rd_awake = 1 }) (omega arith) refl)

reader_woken-Reach : Reach start reader_woken
reader_woken-Reach =
    next reader_waits-Reach (
      wr_leaves reader_waits reader_woken (omega arith) (everyone (record start { rd_asleep = 1 })))

exclusion_example :
    (reader_waits.writers ≤ 1)
    × ((reader_waits.readers ≡ 0) ⊎ (reader_waits.writers ≡ 0))
    × (reader_waits.lock.nrd ≡ reader_waits.readers)
    × ((if reader_waits.lock.wrlk then 1 else 0) ≡ reader_waits.writers)
exclusion_example = exclusion reader_waits reader_waits-Reach

no_lost_wakeup_example :
    ((0 < reader_woken.take_awake) × (wr_lock_take reader_woken.lock ≢ none))
    ⊎ ((0 < reader_woken.wait_awake) × (wr_lock_wait reader_woken.lock ≢ none))
    ⊎ ((0 < reader_woken.rd_awake) × (rd_lock reader_woken.lock ≢ none))
no_lost_wakeup_example = no_lost_wakeup reader_woken reader_woken-Reach refl (omega arith)
