-- ===== src/ThreadTimer/Tests.antt =====
-- src/os/generic/ThreadTimer.cpp: a timer that is stopped, started and told to quit; its client counts.
use ctrlr_fx.Prelude.{ℕ, ◌+◌, ◌*◌, ◌≡◌, refl, true, false, not, if◌then◌else◌, ◌⊎◌, pos}
use ctrlr_fx.ClockTime.{TimeBase, add}
use ctrlr_fx.ClockTime.Duration.{equal}
use ctrlr_fx.ThreadTimer.{idle_test, ended, no_time, resume, advance}
use ctrlr_fx.ThreadTimer.Threads.{
  System, waits, is_idle, apart, call, start_delay_call, one_shot_call, quit_call, called, own,
  own_steps, calls, runs, enters, Reach, here, next, new_timer,
}
use ctrlr_fx.ThreadTimer.Signals.{asleep_flags}
use ctrlr_fx.ThreadTimer.Ticks.{
  quit_ends, stopped, one_shot_lem, due, ticked, counting, periodic_lem,
}

abbrev count : ℕ → ℕ → ℕ
count client w = w + 1

abbrev millisecond : TimeBase
millisecond = record { tv_sec = pos 0; tv_nsec = pos 1000000 }

abbrev clock : ℕ → TimeBase
clock n = record { tv_sec = pos n; tv_nsec = pos 0 }

abbrev waiting : System ℕ ℕ
waiting = stopped 7 no_time no_time 0

waiting-Reach : Reach count (new_timer 7 0) waiting
unfolding apart resume advance
waiting-Reach =
    next
      (next (next here (enters (new_timer 7 0) no_time refl))
        (runs (own count no_time (new_timer 7 0)) no_time refl))
      (runs (record waiting { place = idle_test }) no_time refl)

asleep_flags_example :
    (waiting.timer.quit_ ≡ false) × (waiting.timer.run_ ≡ not (is_idle waiting.place))
unfolding waits
asleep_flags_example = asleep_flags count 7 0 waiting waiting-Reach refl refl

quit_ends_example :
    ((waits (called quit_call waiting).place ≡ false) ⊎ ((called quit_call waiting).awake ≡ true))
    × ((own_steps count clock 3 (called quit_call waiting)).place ≡ ended)
    × ((own_steps count clock 3 (called quit_call waiting)).world ≡ 0)
unfolding apart call
quit_ends_example =
    quit_ends count 7 0 clock (called quit_call waiting)
      (next waiting-Reach (calls waiting quit_call refl)) refl

one_shot_lem_example :
    own_steps count clock
      (if equal millisecond no_time then 7 else 8)
      (called (one_shot_call millisecond) waiting)
    ≡ stopped 7 millisecond no_time 1
one_shot_lem_example = one_shot_lem count 7 0 clock no_time no_time millisecond

periodic_lem_example :
    own_steps count clock (5 + 2 * 3) (called (start_delay_call millisecond millisecond) waiting)
    ≡ counting 7 millisecond millisecond
        (due (add (clock 2) millisecond) millisecond 4)
        (ticked (count 7) 4 0)
unfolding equal
periodic_lem_example =
    periodic_lem count 7 0 clock no_time no_time millisecond millisecond 3 millisecond_lasts
      millisecond_lasts
  where
    millisecond_lasts : equal millisecond no_time ≡ false
    millisecond_lasts = refl
