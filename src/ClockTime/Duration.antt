-- ===== src/ClockTime/Duration.antt =====
-- CtrlrFx/os/posix/CtrlrFx/Time.h: durations from whole units and back, and the comparison of times.
-- Division and remainder round towards 0.
use ctrlr_fx.Prelude.{
  ℕ, ◌+◌, ◌/◌, ◌%◌, ◌<◌, ◌≡◌, Bool, true, false, ◌&&◌, ◌==◌, ℤ, pos, negsuc, pos_part, neg_part,
  difference, ◌+ℤ◌, times, parts-injective, Option, none, some, ◌>>=◌, ◌^◌, ◌-◌, ltb, leb,
  if◌then◌else◌, narrow, narrow_lem, IsSigned, less, ap, subst, ◌≢◌, Bool-cases, ◌⊎◌, inl, inr,
  arith,
}
use ctrlr_fx.ClockTime.{TimeBase, ns_per_sec, ticks}
use ctrlr_fx.ClockTime.Normal.{IsNormal, normal_unique}

abbrev pub quotient : ℤ → ℕ → ℤ
quotient a k = difference (pos_part a / k) (neg_part a / k)

abbrev pub remainder : ℤ → ℕ → ℤ
remainder a k = difference (pos_part a % k) (neg_part a % k)

pub from_nsec : ℤ → TimeBase
from_nsec ns = record { tv_sec = quotient ns ns_per_sec; tv_nsec = remainder ns ns_per_sec }

pub from_usec : ℤ → TimeBase
from_usec us = record { tv_sec = quotient us 1000000; tv_nsec = times (remainder us 1000000) 1000 }

pub from_msec : ℤ → TimeBase
from_msec ms = record { tv_sec = quotient ms 1000; tv_nsec = times (remainder ms 1000) 1000000 }

-- A sum or a product of a signed type of `w` bits: `none` where it overflows, which is undefined.
in_range : ℕ → ℤ → Option ℤ
in_range w a =
    if ltb (pos_part a) (2 ^ (w - 1)) && leb (neg_part a) (2 ^ (w - 1)) then some a else none

-- `nsec_t` has 64 bits, `usec_t` and `msec_t` have 32: `narrow` is the conversion of a number of 64
-- bits, such as `tv_sec`, to them.
unfoldable pub to_nsec : TimeBase → Option ℤ
unfolding in_range
to_nsec t = in_range 64 (times t.tv_sec ns_per_sec) >>= λ p. in_range 64 (p +ℤ t.tv_nsec)

unfoldable pub to_usec : TimeBase → Option ℤ
unfolding in_range
to_usec t = in_range 32 (times (narrow t.tv_sec) 1000000) >>= λ p.
    in_range 64 (p +ℤ quotient t.tv_nsec 1000) >>= λ sum. some (narrow sum)

unfoldable pub to_msec : TimeBase → Option ℤ
unfolding in_range
to_msec t = in_range 32 (times (narrow t.tv_sec) 1000) >>= λ p.
    in_range 64 (p +ℤ quotient t.tv_nsec 1000000) >>= λ sum. some (narrow sum)

abbrev pub same : ℤ → ℤ → Bool
same a b = (pos_part a == pos_part b) && (neg_part a == neg_part b)

unfoldable pub equal : TimeBase → TimeBase → Bool
equal t r = same t.tv_sec r.tv_sec && same t.tv_nsec r.tv_nsec

pub before : TimeBase → TimeBase → Bool
before t r = less (ticks t) (ticks r)

-- In each of the conversions.
nsec_back : (n : ℤ) → IsSigned 64 n → to_nsec (from_nsec n) ≡ some n
unfolding to_nsec from_nsec times ◌+ℤ◌
nsec_back (pos k) h = ground arith
nsec_back (negsuc k) h = ground arith

usec_back : (n : ℤ) → IsSigned 32 n → to_usec (from_usec n) ≡ some n
unfolding to_usec from_usec times ◌+ℤ◌
usec_back (pos k) h =
    ground (arith, narrow_lem (quotient (pos k) 1000000) (ground arith), narrow_lem (pos k) h)
usec_back (negsuc k) h =
    ground (arith, narrow_lem (quotient (negsuc k) 1000000) (ground arith), narrow_lem (negsuc k) h)

msec_back : (n : ℤ) → IsSigned 32 n → to_msec (from_msec n) ≡ some n
unfolding to_msec from_msec times ◌+ℤ◌
msec_back (pos k) h =
    ground (arith, narrow_lem (quotient (pos k) 1000) (ground arith), narrow_lem (pos k) h)
msec_back (negsuc k) h =
    ground (arith, narrow_lem (quotient (negsuc k) 1000) (ground arith), narrow_lem (negsuc k) h)

-- A number of nanoseconds of 64 bits, or of microseconds or milliseconds of 32 bits, of either
-- sign, comes back from the duration made of it, and nothing overflows on the way.
pub to-from-units :
    (n u m : ℤ)
    → IsSigned 64 n
    → IsSigned 32 u
    → IsSigned 32 m
    → (to_nsec (from_nsec n) ≡ some n)
      × (to_usec (from_usec u) ≡ some u)
      × (to_msec (from_msec m) ≡ some m)
to-from-units n u m hn hu hm = (nsec_back n hn, usec_back u hu, msec_back m hm)

same_self : (a : ℤ) → same a a ≡ true
same_self a = ground arith

same-eq : (a b : ℤ) → same a b ≡ true → a ≡ b
same-eq a b h = parts-injective a b (ground (arith, h))

equal_self : (t : TimeBase) → equal t t ≡ true
unfolding equal
equal_self t = ground (arith, same_self t.tv_sec, same_self t.tv_nsec)

equal-ticks : (t r : TimeBase) → equal t r ≡ true → ticks t ≡ ticks r
unfolding equal
equal-ticks t r h =
    let secs = same-eq t.tv_sec r.tv_sec (ground (arith, h)) in
    let nsecs = same-eq t.tv_nsec r.tv_nsec (ground (arith, h)) in
    λ i. ticks (record { tv_sec = secs i; tv_nsec = nsecs i })

-- Of two times in the form that normalize makes, with less than a second of nanoseconds, exactly
-- one of equal, before and after holds.
pub compare_lem :
    (t r : TimeBase)
    → IsNormal t
    → IsNormal r
    → pos_part t.tv_nsec + neg_part t.tv_nsec < ns_per_sec
    → pos_part r.tv_nsec + neg_part r.tv_nsec < ns_per_sec
    → ((equal t r ≡ true) × (before t r ≡ false) × (before r t ≡ false))
      ⊎ ((equal t r ≡ false) × (before t r ≡ true) × (before r t ≡ false))
      ⊎ ((equal t r ≡ false) × (before t r ≡ false) × (before r t ≡ true))
unfolding before
compare_lem t r v w ht hr = elim (Bool-cases (equal t r)) [
  | inl equals ↦
      let e = equal-ticks t r equals in
      inl (
        equals,
        ground (arith, ap pos_part e, ap neg_part e),
        ground (arith, ap pos_part e, ap neg_part e),
      )
  | inr differs ↦
      let ne : ticks t ≢ ticks r = λ e.
        let same_time = normal_unique t r v w ht hr e in
        absurd cc (subst (λ k. equal t k ≡ true) same_time (equal_self t), differs) in
      let apart : pos_part (ticks t) + neg_part (ticks r)
          ≢ pos_part (ticks r) + neg_part (ticks t) =
        λ e. ne (parts-injective (ticks t) (ticks r) e) in
      inr (ground (arith, differs, apart))
]
