-- ===== src/Buffer/Copies.antt =====
-- CtrlrFx/Buffer.h: the deep copy of one buffer by another.
use ctrlr_fx.Prelude.{
  ℕ, ◌≤◌, ◌<◌, ◌≡◌, refl, ◌⊎◌, List, some, true, false, length, ℕ-cases, inl, inr, arith,
}
use ctrlr_fx.Memory.Copy.{Copied, copy_elem-Copied}
use ctrlr_fx.Buffer.{Buffer, deep_copy, init_copy}
use ctrlr_fx.Buffer.Inv.{IsValid}

module _ {A : Type 0} where
  -- A copy into a buffer that is large enough takes over position, mark, limit and the cells below
  -- the limit; a copy into a smaller one is refused and changes nothing.
  pub deep_copy_lem :
      (b rhs : Buffer A)
      → IsValid b
      → IsValid rhs
      → ((b.end_ < rhs.lim) × (deep_copy b rhs ≡ some (false, b)))
        ⊎ ((rhs.lim ≤ b.end_)
            × (buf' : List A) × (deep_copy b rhs
                ≡ some (
                  true,
                  record b { buf = buf'; pos = rhs.pos; mark_ = rhs.mark_; lim = rhs.lim },
                ))
            × Copied b.buf 0 rhs.buf 0 rhs.lim buf')
  unfolding deep_copy
  deep_copy_lem b rhs v w = elim (ℕ-cases b.end_ rhs.lim) [
    | inl small ↦ inl (small, ground arith)
    | inr fits ↦
        let (buf', run, c) =
          copy_elem-Copied b.buf 0 rhs.buf 0 rhs.lim (omega (arith, v)) (omega (arith, w)) in
        inr (fits, buf', ground (arith, run), c)
  ]

  -- Where new T[n] has n cells, the copy constructor of a valid buffer ends without a fault and
  -- gives a valid buffer with its own memory of the same capacity and the same position, mark,
  -- limit and cells below the limit.
  pub init_copy_lem :
      (new_array : ℕ → List A) (rhs : Buffer A)
      → ((n : ℕ) → length (new_array n) ≡ n)
      → IsValid rhs
      → (b : Buffer A) × (init_copy new_array rhs ≡ some b)
        × IsValid b
        × (b.own ≡ true)
        × (b.pos ≡ rhs.pos)
        × (b.lim ≡ rhs.lim)
        × (b.mark_ ≡ rhs.mark_)
        × (b.end_ ≡ rhs.end_)
        × Copied (new_array rhs.end_) 0 rhs.buf 0 rhs.lim b.buf
  unfolding init_copy
  init_copy_lem new_array rhs sized w =
      let (buf', run, c) =
        copy_elem-Copied (new_array rhs.end_) 0 rhs.buf 0 rhs.lim (omega (arith, w, sized rhs.end_))
          (omega (arith, w)) in
      (
        record rhs { buf = buf'; own = true },
        ground (arith, w, run),
        omega (arith, w, c.size, sized rhs.end_),
        refl,
        refl,
        refl,
        refl,
        refl,
        c,
      )
