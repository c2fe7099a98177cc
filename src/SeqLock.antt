-- ===== src/SeqLock.antt =====
-- CtrlrFx/SeqLock.h: the lock of one writer whose readers try again. The counter is an `int` of 32 bits,
-- given by its bit pattern, which an increment wraps.
pub mod Snapshot
mod Tests
use ctrlr_fx.Prelude.{ℕ, ◌+◌, ◌%◌, ◌^◌, Bool, not, ◌||◌, ◌==◌}

abbrev pub write_lock : ℕ → ℕ
write_lock ctr = (ctr + 1) % 2 ^ 32

abbrev pub write_unlock : ℕ → ℕ
write_unlock ctr = (ctr + 1) % 2 ^ 32

abbrev pub read_begin : ℕ → ℕ
read_begin ctr = ctr

-- With `begun` what `read_begin` returned; `begun & 1` is its remainder by 2.
abbrev pub read_retry : ℕ → ℕ → Bool
read_retry ctr begun = not (begun % 2 == 0) || not (begun == ctr)
