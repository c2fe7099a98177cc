-- ===== src/ClockTime/Normal.antt =====
-- CtrlrFx/os/posix/CtrlrFx/Time.h: what `normalize` makes of a time, and sums and differences.
use ctrlr_fx.Prelude.{
  ℕ, zero, suc, ◌+◌, ◌*◌, ◌/◌, ◌≤◌, ◌<◌, ◌≡◌, true, false, ◌&&◌, ℤ, pos, pos_part, neg_part, ◌+ℤ◌,
  ◌-ℤ◌, +ℤ_parts, -ℤ_parts, times, times_parts, parts-injective, one_part, less, ap, ◌∙◌,
  Bool-cases, ◌⊎◌, inl, inr, arith,
}
use ctrlr_fx.ClockTime.{
  TimeBase, ns_per_sec, ticks, one_up, one_down, carry_up, carry_down, match_signs, normalize, add,
  sub,
}

-- The same number of nanoseconds, without subtraction.
abbrev Same : TimeBase → TimeBase → Type 0
Same t r =
    pos_part t.tv_sec * ns_per_sec
      + pos_part t.tv_nsec
      + (neg_part r.tv_sec * ns_per_sec + neg_part r.tv_nsec)
    ≡ pos_part r.tv_sec * ns_per_sec
      + pos_part r.tv_nsec
      + (neg_part t.tv_sec * ns_per_sec + neg_part t.tv_nsec)

Same-ticks : (t r : TimeBase) → Same t r → ticks t ≡ ticks r
unfolding ticks
Same-ticks t r h = parts-injective _ _ (
    omega (
      arith,
      h,
      +ℤ_parts (times t.tv_sec ns_per_sec) t.tv_nsec,
      +ℤ_parts (times r.tv_sec ns_per_sec) r.tv_nsec,
      times_parts t.tv_sec ns_per_sec,
      times_parts r.tv_sec ns_per_sec,
    ))

ticks-Same : (t r : TimeBase) → ticks t ≡ ticks r → Same t r
unfolding ticks
ticks-Same t r e = omega (
  arith,
  ap pos_part e,
  ap neg_part e,
  +ℤ_parts (times t.tv_sec ns_per_sec) t.tv_nsec,
  +ℤ_parts (times r.tv_sec ns_per_sec) r.tv_nsec,
  times_parts t.tv_sec ns_per_sec,
  times_parts r.tv_sec ns_per_sec,
)

-- The two parts of `ticks`.
ticks_parts :
    (s n : ℤ)
    → pos_part (ticks (record { tv_sec = s; tv_nsec = n })) + (neg_part s * ns_per_sec + neg_part n)
      ≡ neg_part (ticks (record { tv_sec = s; tv_nsec = n }))
        + (pos_part s * ns_per_sec + pos_part n)
unfolding ticks
ticks_parts s n = omega (arith, +ℤ_parts (times s ns_per_sec) n, times_parts s ns_per_sec)

sum-ticks :
    (t d : TimeBase)
    → ticks (record { tv_sec = t.tv_sec +ℤ d.tv_sec; tv_nsec = t.tv_nsec +ℤ d.tv_nsec })
      ≡ ticks t +ℤ ticks d
sum-ticks t d = parts-injective _ _ (
    omega (
      arith,
      ticks_parts (t.tv_sec +ℤ d.tv_sec) (t.tv_nsec +ℤ d.tv_nsec),
      ticks_parts t.tv_sec t.tv_nsec,
      ticks_parts d.tv_sec d.tv_nsec,
      +ℤ_parts (ticks t) (ticks d),
      +ℤ_parts t.tv_sec d.tv_sec,
      +ℤ_parts t.tv_nsec d.tv_nsec,
    ))

diff-ticks :
    (t d : TimeBase)
    → ticks (record { tv_sec = t.tv_sec -ℤ d.tv_sec; tv_nsec = t.tv_nsec -ℤ d.tv_nsec })
      ≡ ticks t -ℤ ticks d
diff-ticks t d = parts-injective _ _ (
    omega (
      arith,
      ticks_parts (t.tv_sec -ℤ d.tv_sec) (t.tv_nsec -ℤ d.tv_nsec),
      ticks_parts t.tv_sec t.tv_nsec,
      ticks_parts d.tv_sec d.tv_nsec,
      -ℤ_parts (ticks t) (ticks d),
      -ℤ_parts t.tv_sec d.tv_sec,
      -ℤ_parts t.tv_nsec d.tv_nsec,
    ))

one_up-Same : (t : TimeBase) → Same t (one_up t)
one_up-Same t = omega (arith, +ℤ_parts t.tv_sec (pos 1), -ℤ_parts t.tv_nsec (pos ns_per_sec))

one_down-Same : (t : TimeBase) → Same t (one_down t)
one_down-Same t = omega (arith, -ℤ_parts t.tv_sec (pos 1), +ℤ_parts t.tv_nsec (pos ns_per_sec))

-- A round of the first loop takes a second off a number above it.
one_up-nsec :
    (t : TimeBase)
    → less (pos ns_per_sec) t.tv_nsec ≡ true
    → pos_part (one_up t).tv_nsec + ns_per_sec ≡ pos_part t.tv_nsec
one_up-nsec t h = ground (
  arith,
  h,
  -ℤ_parts t.tv_nsec (pos ns_per_sec),
  one_part t.tv_nsec,
  one_part (t.tv_nsec -ℤ pos ns_per_sec),
)

one_down-nsec :
    (t : TimeBase)
    → less t.tv_nsec (pos 0 -ℤ pos ns_per_sec) ≡ true
    → (neg_part (one_down t).tv_nsec + ns_per_sec ≡ neg_part t.tv_nsec)
      × (pos_part (one_down t).tv_nsec ≡ 0)
one_down-nsec t h = ground (
  arith,
  h,
  -ℤ_parts (pos 0) (pos ns_per_sec),
  +ℤ_parts t.tv_nsec (pos ns_per_sec),
  one_part t.tv_nsec,
  one_part (t.tv_nsec +ℤ pos ns_per_sec),
)

not_below :
    (t : TimeBase)
    → less t.tv_nsec (pos 0 -ℤ pos ns_per_sec) ≡ false
    → neg_part t.tv_nsec ≤ ns_per_sec
not_below t h = ground (arith, h, -ℤ_parts (pos 0) (pos ns_per_sec), one_part t.tv_nsec)

carry_up_lem :
    (f : ℕ) (t : TimeBase)
    → pos_part t.tv_nsec ≤ (f + 1) * ns_per_sec
    → Same t (carry_up f t) × (pos_part (carry_up f t).tv_nsec ≤ ns_per_sec)
unfolding carry_up
carry_up_lem zero t h = (omega arith, omega arith)
carry_up_lem (suc f) t h = elim (Bool-cases (less (pos ns_per_sec) t.tv_nsec)) [
  | inl more ↦
      let (same, up) = carry_up_lem f (one_up t) (omega (arith, h, one_up-nsec t more)) in
      rw more (omega (arith, same, one_up-Same t), up)
  | inr done ↦ rw done (omega arith, ground arith)
]

carry_down_lem :
    (f : ℕ) (t : TimeBase)
    → neg_part t.tv_nsec ≤ (f + 1) * ns_per_sec
    → pos_part t.tv_nsec ≤ ns_per_sec
    → Same t (carry_down f t)
      × (pos_part (carry_down f t).tv_nsec ≤ ns_per_sec)
      × (neg_part (carry_down f t).tv_nsec ≤ ns_per_sec)
unfolding carry_down
carry_down_lem zero t h k = (omega arith, k, omega arith)
carry_down_lem (suc f) t h k = elim (Bool-cases (less t.tv_nsec (pos 0 -ℤ pos ns_per_sec))) [
  | inl more ↦
      let (less_by, none_over) = one_down-nsec t more in
      let (same, up, down) =
        carry_down_lem f (one_down t) (omega (arith, h, less_by)) (omega (arith, none_over)) in
      rw more (omega (arith, same, one_down-Same t), up, down)
  | inr done ↦ rw done (omega arith, k, not_below t done)
]

-- The nanoseconds are at most a second either way, and not of the other sign than the seconds.
pub record IsNormal (t : TimeBase) : Type 0 where
  pub small : (pos_part t.tv_nsec ≤ ns_per_sec) × (neg_part t.tv_nsec ≤ ns_per_sec)
  pub up : (pos_part t.tv_sec ≡ 0) ⊎ (neg_part t.tv_nsec ≡ 0)
  pub down : (neg_part t.tv_sec ≡ 0) ⊎ (pos_part t.tv_nsec ≡ 0)

match_signs_lem :
    (t : TimeBase)
    → pos_part t.tv_nsec ≤ ns_per_sec
    → neg_part t.tv_nsec ≤ ns_per_sec
    → Same t (match_signs t) × IsNormal (match_signs t)
unfolding match_signs
match_signs_lem t h k = elim (Bool-cases (less (pos 0) t.tv_sec && less t.tv_nsec (pos 0))) [
  | inl over ↦ rw over (
    one_down-Same t,
    ground (
      arith,
      over,
      h,
      k,
      -ℤ_parts t.tv_sec (pos 1),
      +ℤ_parts t.tv_nsec (pos ns_per_sec),
      one_part t.tv_sec,
      one_part t.tv_nsec,
      one_part (t.tv_sec -ℤ pos 1),
      one_part (t.tv_nsec +ℤ pos ns_per_sec),
    ),
  )
  | inr fine ↦ elim (Bool-cases (less t.tv_sec (pos 0) && less (pos 0) t.tv_nsec)) [
    | inl under ↦
        rw (fine, under)
          (
            one_up-Same t,
            ground (
              arith,
              under,
              h,
              k,
              +ℤ_parts t.tv_sec (pos 1),
              -ℤ_parts t.tv_nsec (pos ns_per_sec),
              one_part t.tv_sec,
              one_part t.tv_nsec,
              one_part (t.tv_sec +ℤ pos 1),
              one_part (t.tv_nsec -ℤ pos ns_per_sec),
            ),
          )
    | inr fine' ↦
        rw (fine, fine')
          (omega arith, ground (arith, fine, fine', h, k, one_part t.tv_sec, one_part t.tv_nsec))
  ]
]

-- normalize keeps the number of nanoseconds that a time stands for, and makes the nanoseconds at
-- most a second either way and not of the other sign than the seconds.
pub normalize_lem : (t : TimeBase) → (ticks (normalize t) ≡ ticks t) × IsNormal (normalize t)
unfolding normalize
normalize_lem t =
    let f = pos_part t.tv_nsec / ns_per_sec in
    let up = carry_up f t in
    let (same1, top) = carry_up_lem f t (omega arith) in
    let g = neg_part up.tv_nsec / ns_per_sec in
    let (same2, top2, bottom) = carry_down_lem g up (omega arith) top in
    let (same3, normal) = match_signs_lem (carry_down g up) top2 bottom in
    (Same-ticks _ t (omega (arith, same1, same2, same3)), normal)

-- Two times that `normalize` could have made, with less than a second of nanoseconds, stand for the same
-- number of nanoseconds only if they are equal.
pub normal_unique :
    (t r : TimeBase)
    → IsNormal t
    → IsNormal r
    → pos_part t.tv_nsec + neg_part t.tv_nsec < ns_per_sec
    → pos_part r.tv_nsec + neg_part r.tv_nsec < ns_per_sec
    → ticks t ≡ ticks r
    → t ≡ r
normal_unique t r v w ht hr e =
    let same = ticks-Same t r e in
    let secs : t.tv_sec ≡ r.tv_sec =
      parts-injective t.tv_sec r.tv_sec
        (ground (arith, same, v.up, v.down, w.up, w.down, ht, hr)) in
    let nsecs : t.tv_nsec ≡ r.tv_nsec =
      parts-injective t.tv_nsec r.tv_nsec
        (omega (arith, same, ap pos_part secs, ap neg_part secs)) in
    λ i. record { tv_sec = secs i; tv_nsec = nsecs i }

-- The sum and the difference of times stand for the sum and the difference of their numbers of
-- nanoseconds, and have the form that normalize makes.
pub add-sub-ticks :
    (t d : TimeBase)
    → (ticks (add t d) ≡ ticks t +ℤ ticks d)
      × (ticks (sub t d) ≡ ticks t -ℤ ticks d)
      × IsNormal (add t d)
      × IsNormal (sub t d)
unfolding add sub
add-sub-ticks t d =
    let sum : TimeBase = record {
      tv_sec = t.tv_sec +ℤ d.tv_sec;
      tv_nsec = t.tv_nsec +ℤ d.tv_nsec;
    } in
    let diff : TimeBase = record {
      tv_sec = t.tv_sec -ℤ d.tv_sec;
      tv_nsec = t.tv_nsec -ℤ d.tv_nsec;
    } in
    let (e1, n1) = normalize_lem sum in
    let (e2, n2) = normalize_lem diff in (e1 ∙ sum-ticks t d, e2 ∙ diff-ticks t d, n1, n2)
