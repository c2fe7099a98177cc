-- ===== src/ClockTime/Tests.antt =====
-- CtrlrFx/os/posix/CtrlrFx/Time.h on single times.
use ctrlr_fx.Prelude.{◌≡◌, refl, none, some, times, narrow, inl, pos, negsuc, ◌+ℤ◌, ◌-ℤ◌, arith}
use ctrlr_fx.ClockTime.{TimeBase, ticks, normalize, add, sub}
use ctrlr_fx.ClockTime.Duration.{
  from_nsec, from_usec, from_msec, to_nsec, to_usec, to_msec, to-from-units,
}
use ctrlr_fx.ClockTime.Normal.{IsNormal, add-sub-ticks}

-- 3 s and -2.5 s in nanoseconds.
abbrev mixed : TimeBase
mixed = record { tv_sec = pos 3; tv_nsec = negsuc 2499999999 }

abbrev half : TimeBase
half = record { tv_sec = pos 0; tv_nsec = pos 500000000 }

-- A whole second of nanoseconds stays.
abbrev whole : TimeBase
whole = record { tv_sec = pos 1; tv_nsec = pos 1000000000 }

normalize-whole : normalize whole ≡ whole
unfolding normalize ◌+ℤ◌ ◌-ℤ◌
normalize-whole = refl

normalize-mixed : normalize mixed ≡ half
unfolding normalize ◌+ℤ◌ ◌-ℤ◌
normalize-mixed = refl

half-IsNormal : IsNormal half
half-IsNormal = record { small = (omega arith, omega arith); up = inl refl; down = inl refl }

add-sub-ticks_example :
    (ticks (add half mixed) ≡ ticks half +ℤ ticks mixed)
    × (ticks (sub half mixed) ≡ ticks half -ℤ ticks mixed)
    × IsNormal (add half mixed)
    × IsNormal (sub half mixed)
add-sub-ticks_example = add-sub-ticks half mixed

to-from-units_example :
    (to_nsec (from_nsec (negsuc 2499999999)) ≡ some (negsuc 2499999999))
    × (to_usec (from_usec (negsuc 2147483647)) ≡ some (negsuc 2147483647))
    × (to_msec (from_msec (pos 2500)) ≡ some (pos 2500))
to-from-units_example =
    to-from-units (negsuc 2499999999) (negsuc 2147483647) (pos 2500) (omega arith) (omega arith)
      (omega arith)

-- A duration of an hour has no number of microseconds in 32 bits.
abbrev hour : TimeBase
hour = record { tv_sec = pos 3600; tv_nsec = pos 0 }

to_usec-hour : to_usec hour ≡ none
unfolding to_usec times narrow
to_usec-hour = refl
