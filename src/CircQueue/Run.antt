-- ===== src/CircQueue/Run.antt =====
-- Sequences of calls on a CtrlrFx/CircQueue.h queue: no client can tell it from the first-in
-- first-out queue of CircQueue/Fifo.
use native.Mathlib.Numerals.{add-one}
use native.Mathlib.Nat.{le_refl}
use ctrlr_fx.Prelude.{
  ℕ, zero, suc, ◌+◌, ◌-◌, ◌≤◌, ◌<◌, ◌≡◌, refl, ◌∙◌, List, [], ◌∷◌, ◌++◌, append-nil, append_assoc,
  Option, some, ◌>>=◌, ◌==◌, length, length-append, get_elem?, get_elem?-some, take, drop,
  drop-get_elem?, min, Bool-cases, subst, inl, inr, arith,
}
use ctrlr_fx.CircQueue.{CircQueue, size, remaining, put, get, put_n}
use ctrlr_fx.CircQueue.Fifo.{
  Call, puts, gets, puts_n, sizes, remainings, Reply, accepted, got, number, answer, answers,
}
use ctrlr_fx.CircQueue.Inv.{size_lem, remaining_lem, put_lem}
use ctrlr_fx.CircQueue.Bulk.{put_each, put_n-eq-put_each}
use ctrlr_fx.CircQueue.Refine.{Holds, put-Holds, get-Holds, get-none}

module _ {A : Type 0} where
  -- One call, with what it returns; `none` if it faults.
  unfoldable pub call : CircQueue A → Call A → Option (Reply A × CircQueue A)
  call q (puts x) = put q x >>= λ r. some (accepted r.0, r.1)
  call q gets = get q >>= λ r. some (got r.0, r.1)
  call q (puts_n ys) = put_n q ys (length ys) >>= λ r. some (number r.0, r.1)
  call q sizes = some (number (size q), q)
  call q remainings = some (number (remaining q), q)

  unfoldable pub run : CircQueue A → List (Call A) → Option (List (Reply A))
  run q [] = some []
  run q (c ∷ cs) = do r ← call q c; rs ← run r.1 cs; some (r.0 ∷ rs)

  append-take_one :
      (xs src : List A) (s n : ℕ) {v : A}
      → get_elem? src s ≡ some v
      → (xs ++ (v ∷ [])) ++ take n (drop (s + 1) src) ≡ xs ++ take (suc n) (drop s src)
  append-take_one xs src s n {v} e = rw (drop-get_elem? src s e, add-one, append_assoc)

  -- `put_each` extends what the queue holds by the elements that it is given.
  pub put_each-Holds :
      (n : ℕ) (q : CircQueue A) (xs src : List A) (s : ℕ)
      → Holds q xs
      → length xs + n < q.cap
      → s + n ≤ length src
      → (q' : CircQueue A) × (put_each q src s n ≡ some q')
        × (q'.cap ≡ q.cap)
        × Holds q' (xs ++ take n (drop s src))
  unfolding put_each
  put_each-Holds zero q xs src s h hc hs = (q, refl, refl, rw append-nil h)
  put_each-Holds (suc n) q xs src s h hc hs =
      let (v, ev) = get_elem?-some src s (omega arith) in
      let (q1, e1, c1, h1) = put-Holds q xs v h (omega arith) in
      let (q2, e2, c2, h2) =
        put_each-Holds n q1 (xs ++ (v ∷ [])) src (s + 1) h1
          (omega (arith, length-append xs (v ∷ []))) (omega arith) in
      (q2, ground (arith, ev, e1, e2), c2 ∙ c1, subst (Holds q2) (append-take_one xs src s n ev) h2)

  -- The block put takes the elements that fit, in order.
  pub put_n-Holds :
      (q : CircQueue A) (xs src : List A) (n : ℕ)
      → Holds q xs
      → n ≤ length src
      → (q' : CircQueue A) × (put_n q src n ≡ some (min n (q.cap - 1 - length xs), q'))
        × (q'.cap ≡ q.cap)
        × Holds q' (xs ++ take (min n (q.cap - 1 - length xs)) src)
  put_n-Holds q xs src n h hn =
      let free : min n (remaining q) ≡ min n (q.cap - 1 - length xs) =
        omega (arith, remaining_lem q h.valid, h.counted) in
      let (q', e, c, h') =
        put_each-Holds (min n (q.cap - 1 - length xs)) q xs src 0 h (grind arith) (omega arith) in
      (q', ground (arith, put_n-eq-put_each q src n h.valid hn, free, e), c, h')

  -- Every call ends without a fault, returns what the first-in first-out queue returns, and
  -- leaves the queue holding what that one holds.
  pub call-Holds :
      (q : CircQueue A) (xs : List A) (c : Call A)
      → Holds q xs
      → (q' : CircQueue A) × (call q c ≡ some ((answer (q.cap - 1) xs c).0, q'))
        × (q'.cap ≡ q.cap)
        × Holds q' (answer (q.cap - 1) xs c).1
  unfolding call answer
  call-Holds q xs (puts x) h = elim (Bool-cases (length xs == q.cap - 1)) [
    | inl is_full ↦ rw is_full (q, ground (arith, put_lem q h.valid x, h.counted), refl, h)
    | inr has_room ↦
        let (q', e, c, h') = put-Holds q xs x h (ground arith) in rw has_room (q', rw e, c, h')
  ]
  call-Holds q [] gets h = (q, rw (get-none q h), refl, h)
  call-Holds q (x ∷ xs) gets h = let (q', e, c, h') = get-Holds q x xs h in (q', rw e, c, h')
  call-Holds q xs (puts_n ys) h =
      let (q', e, c, h') = put_n-Holds q xs ys (length ys) h (le_refl _) in (q', rw e, c, h')
  call-Holds q xs sizes h = (q, ground (arith, size_lem q h.valid, h.counted), refl, h)
  call-Holds q xs remainings h = (q, ground (arith, remaining_lem q h.valid, h.counted), refl, h)

  -- On a valid circular queue that holds some elements, every sequence of calls of put, get, the
  -- block put, size and remaining ends without a fault and returns what a first-in first-out queue
  -- of one element less than the capacity returns.
  pub run_refines :
      (cs : List (Call A)) (q : CircQueue A) (xs : List A)
      → Holds q xs
      → run q cs ≡ some (answers (q.cap - 1) xs cs)
  unfolding run answers
  run_refines [] q xs h = refl
  run_refines (c ∷ cs) q xs h =
      let (q', e, k, h') = call-Holds q xs c h in ground (arith, e, k, run_refines cs q' _ h')
