-- ===== src/ClockTime.antt =====
-- CtrlrFx/os/posix/CtrlrFx/Time.h and src/os/posix/Time.cpp: times of seconds and nanoseconds, for
-- `Duration` and for absolute times alike. Their fields are 64 bits wide in the source; a sum beyond
-- that is undefined there, and the fields here have no bound. The conversions to units, which narrow,
-- are in ClockTime/Duration with the widths of their types.
pub mod Normal
pub mod Duration
mod Tests
use ctrlr_fx.Prelude.{
  ℕ, zero, suc, ◌+◌, ◌-◌, ◌*◌, ◌/◌, Bool, ◌&&◌, if◌then◌else◌, ℤ, pos, negsuc, pos_part, neg_part,
  ◌+ℤ◌, ◌-ℤ◌, times, less,
}

pub record TimeBase : Type 0 where
  pub tv_sec : ℤ
  pub tv_nsec : ℤ

abbrev pub ns_per_sec : ℕ
ns_per_sec = 1000000000

pub ticks : TimeBase → ℤ
ticks t = times t.tv_sec ns_per_sec +ℤ t.tv_nsec

abbrev pub one_up : TimeBase → TimeBase
one_up t = record { tv_sec = t.tv_sec +ℤ pos 1; tv_nsec = t.tv_nsec -ℤ pos ns_per_sec }

abbrev pub one_down : TimeBase → TimeBase
one_down t = record { tv_sec = t.tv_sec -ℤ pos 1; tv_nsec = t.tv_nsec +ℤ pos ns_per_sec }

-- The two loops of `normalize_timespec`, with at most the given number of rounds.
carry_up : ℕ → TimeBase → TimeBase
carry_up zero t = t
carry_up (suc rounds) t =
    let rest = carry_up rounds (one_up t) in if less (pos ns_per_sec) t.tv_nsec then rest else t

carry_down : ℕ → TimeBase → TimeBase
carry_down zero t = t
carry_down (suc rounds) t =
    let rest = carry_down rounds (one_down t) in
    if less t.tv_nsec (pos 0 -ℤ pos ns_per_sec) then rest else t

-- Its last statement.
match_signs : TimeBase → TimeBase
match_signs t =
    if less (pos 0) t.tv_sec && less t.tv_nsec (pos 0)
    then one_down t
    else if less t.tv_sec (pos 0) && less (pos 0) t.tv_nsec
    then one_up t
    else t

unfoldable pub normalize : TimeBase → TimeBase
unfolding carry_up carry_down match_signs
normalize t =
    let up = carry_up (pos_part t.tv_nsec / ns_per_sec) t in
    match_signs (carry_down (neg_part up.tv_nsec / ns_per_sec) up)

-- `+=` and `+`, `-=` and `-`.
pub add : TimeBase → TimeBase → TimeBase
unfolding normalize
add t d = normalize (record { tv_sec = t.tv_sec +ℤ d.tv_sec; tv_nsec = t.tv_nsec +ℤ d.tv_nsec })

pub sub : TimeBase → TimeBase → TimeBase
unfolding normalize
sub t d = normalize (record { tv_sec = t.tv_sec -ℤ d.tv_sec; tv_nsec = t.tv_nsec -ℤ d.tv_nsec })
