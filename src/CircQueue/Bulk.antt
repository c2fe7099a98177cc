-- ===== src/CircQueue/Bulk.antt =====
-- CtrlrFx/CircQueue.h: the block transfers `put(buf, n)` and `get(buf, n)`, which copy up to the
-- end of the array and then from its start, against loops of single transfers.
use ctrlr_fx.Prelude.{
  ℕ, zero, suc, ◌+◌, ◌-◌, ◌≤◌, ◌<◌, ◌≡◌, inl, inr, min, refl, ◌∙◌, ap, List, Option, some, ◌>>=◌,
  >>=_assoc, ◌==◌, if◌then◌else◌, length, length-set, set, get_elem?, get_elem?-some, ℕ-cases,
  arith,
}
use native.Mathlib.Nat.{zero-add, add-zero, suc-add}
use ctrlr_fx.Memory.{load, copy_elem}
use ctrlr_fx.Memory.Copy.{copy_elem_step, copy_elem-Copied}
use ctrlr_fx.CircQueue.{CircQueue, next, remaining, put, put_n}
use ctrlr_fx.CircQueue.Inv.{IsValid, count, count-lt-cap, remaining_lem, put_lem}

module _ {A : Type 0} where
  -- `n` calls of `put(v)` with the elements of `src` from `s` on.
  unfoldable pub put_each : CircQueue A → List A → ℕ → ℕ → Option (CircQueue A)
  put_each q src s zero = some q
  put_each q src s (suc n) = do v ← load src s; r ← put q v; put_each r.1 src (s + 1) n

  -- The queue after one accepted element.
  abbrev after_put : CircQueue A → A → CircQueue A
  after_put q v = record q { buf = set q.buf q.put_ v; put_ = next q q.put_ }

  after_put-IsValid :
      (q : CircQueue A) (v : A)
      → IsValid q
      → count q < q.cap - 1
      → IsValid (after_put q v) × (count (after_put q v) ≡ count q + 1)
  after_put-IsValid q v w h = ground (arith, length-set q.buf q.put_ v)

  put_each_step :
      (q : CircQueue A) (src : List A) (s n : ℕ) {v : A}
      → IsValid q
      → count q < q.cap - 1
      → get_elem? src s ≡ some v
      → put_each q src s (suc n) ≡ put_each (after_put q v) src (s + 1) n
  unfolding put_each
  put_each_step q src s n {v} w h e = ground (arith, put_lem q w v, e)

  -- A run of elements that ends at the end of the array or before it is one copy.
  put_each_linear :
      (n : ℕ) (q : CircQueue A) (src : List A) (s : ℕ) (p : ℕ)
      → IsValid q
      → p ≡ q.put_
      → count q + n < q.cap
      → p + n ≤ q.cap
      → s + n ≤ length src
      → put_each q src s n ≡ (
          copy_elem q.buf p src s n >>= λ b.
          some (record q { buf = b; put_ = if p + n == q.cap then 0 else p + n }))
  unfolding put_each copy_elem
  put_each_linear zero q src s p w e hc hp hs = ground (arith, w)
  put_each_linear (suc n) q src s p w e hc hp hs =
      let (v, ev) = get_elem?-some src s (omega arith) in
      let (w', c') = after_put-IsValid q v w (omega arith) in
      put_each_step q src s n w (omega arith) ev ∙ elim (ℕ-cases (p + 1) q.cap) [
        | inl more ↦
            put_each_linear n (after_put q v) src (s + 1) (p + 1) w' (ground arith) (omega arith)
              (omega arith) (omega arith)
            ∙ ground (arith, w, copy_elem_step q.buf p src s n ev)
        | inr last ↦ ground (arith, w, copy_elem_step q.buf p src s n ev)
      ]

  put_each_split :
      (m k : ℕ) (q : CircQueue A) (src : List A) (s : ℕ)
      → put_each q src s (m + k) ≡ (put_each q src s m >>= λ q'. put_each q' src (s + m) k)
  unfolding put_each
  put_each_split zero k q src s = rw (zero-add, add-zero)
  put_each_split (suc m) k q src s = rw (suc-add, ← shift) (simp (>>=_assoc, put_each_split m k))
    where
      shift : s + 1 + m ≡ s + suc m
      shift = omega arith

  -- A run that goes on from the start of the array is two copies.
  put_each_wrap :
      (q : CircQueue A) (src : List A) (m k : ℕ)
      → IsValid q
      → q.put_ + m ≡ q.cap
      → count q + m + k < q.cap
      → m + k ≤ length src
      → put_each q src 0 (m + k) ≡ (
          copy_elem q.buf q.put_ src 0 m >>= λ b.
          copy_elem b 0 src m k >>= λ b'. some (record q { buf = b'; put_ = k }))
  put_each_wrap q src m k w e hc hs =
      let (b, run, c) = copy_elem-Copied q.buf q.put_ src 0 m (ground arith) (omega arith) in
      let w' : IsValid (record q { buf = b; put_ = 0 }) = ground (arith, c.size) in
      put_each_split m k q src 0
      ∙ ground (
        arith,
        run,
        put_each_linear m q src 0 q.put_ w refl (omega arith) (omega arith) (omega arith),
        put_each_linear k (record q { buf = b; put_ = 0 }) src m 0 w' refl (ground arith)
            (omega arith) (omega arith),
      )

  -- The body of `put(buf, n)` once `n` is the number of elements that fit, `m`.
  put_n-eq :
      (q : CircQueue A) (src : List A) (n m : ℕ)
      → IsValid q
      → m ≡ min n (remaining q)
      → m ≤ length src
      → count q + m < q.cap
      → put_n q src n ≡ (put_each q src 0 m >>= λ q'. some (m, q'))
  unfolding put_n
  put_n-eq q src n m w e hs hc = elim (ℕ-cases m (q.cap - q.put_)) [
    | inl less ↦
        ground (arith, e, put_each_linear m q src 0 q.put_ w refl hc (omega arith) (omega arith))
    | inr more ↦
        let k = m - (q.cap - q.put_) in
        let em : m ≡ q.cap - q.put_ + k = omega arith in
        ground (
          arith,
          em,
          ap (put_each q src 0) em,
          put_each_wrap q src (q.cap - q.put_) k w (omega arith) (omega arith) (omega arith),
        )
  ]

  -- On a valid circular queue, with a source of at least n elements, the block put has the outcome
  -- of single puts of as many of the first n elements as fit, and returns their number.
  pub put_n-eq-put_each :
      (q : CircQueue A) (src : List A) (n : ℕ)
      → IsValid q
      → n ≤ length src
      → put_n q src n
        ≡ (put_each q src 0 (min n (remaining q)) >>= λ q'. some (min n (remaining q), q'))
  put_n-eq-put_each q src n w hn =
      put_n-eq q src n (min n (remaining q)) w refl (omega arith)
        (omega (arith, remaining_lem q w, count-lt-cap q w))
