-- ===== src/SeqLock/Snapshot.antt =====
-- CtrlrFx/SeqLock.h: one writer and one reader of shared data, whose steps come in any order. The data
-- is read and written cell by cell.
use ctrlr_fx.Prelude.{
  ℕ, ◌+◌, ◌%◌, ◌^◌, ◌≤◌, ◌<◌, ◌≡◌, refl, List, [], ◌∷◌, some, Bool, true, false, if◌then◌else◌,
  get_elem?, set, subst, ◌⊎◌, inl, inr, arith,
}
use ctrlr_fx.SeqLock.{write_lock, write_unlock, read_begin, read_retry}

-- The counter, the data and whether the writer is at work. `begun` is what `read_begin` returned last,
-- `old` the data at that time, and `seen` what was read since, with its place. `steps` is what
-- the counter would be without its wrap-around, and `begun_steps` that at the last `read_begin`.
pub record System (A : Type 0) : Type 0 where
  pub ctr : ℕ
  pub cells : List A
  pub writing : Bool
  pub begun : ℕ
  pub old : List A
  pub seen : List (ℕ × A)
  pub steps : ℕ
  pub begun_steps : ℕ

module _ {A : Type 0} where
  pub data Step : System A → System A → Type 0 where
    locks :
        (s : System A)
        → s.writing ≡ false
        → Step s (record s { ctr = write_lock s.ctr; writing = true; steps = s.steps + 1 })
    writes :
        (s : System A) (i : ℕ) (v : A)
        → s.writing ≡ true
        → Step s (record s { cells = set s.cells i v })
    unlocks :
        (s : System A)
        → s.writing ≡ true
        → Step s (record s { ctr = write_unlock s.ctr; writing = false; steps = s.steps + 1 })
    begins :
        (s : System A)
        → Step s
            (record s { begun = read_begin s.ctr; old = s.cells; seen = []; begun_steps = s.steps })
    reads :
        (s : System A) (i : ℕ) (v : A)
        → get_elem? s.cells i ≡ some v
        → Step s (record s { seen = (i, v) ∷ s.seen })

  pub data Reach (s : System A) : System A → Type 0 where
    here : Reach s s
    next : {t u : System A} → Reach s t → Step t u → Reach s u

  -- The class has no constructor: the counter starts with what it is found with.
  abbrev pub start : ℕ → List A → System A
  start found cells = record {
    ctr = found;
    cells = cells;
    writing = false;
    begun = found;
    old = cells;
    seen = [];
    steps = found;
    begun_steps = found;
  }

  -- Everything seen stands in the data at its place.
  abbrev pub SeenIn : List A → List (ℕ × A) → Type 0
  SeenIn cells [] = Unit
  SeenIn cells (r ∷ rs) = (get_elem? cells r.0 ≡ some r.1) × SeenIn cells rs

  record Inv (s : System A) : Type 0 where
    counter : s.ctr ≡ s.steps % 2 ^ 32
    parity : s.steps % 2 ≡ (if s.writing then 1 else 0)
    begun_at : s.begun ≡ s.begun_steps % 2 ^ 32
    before : s.begun_steps ≤ s.steps
    current :
        ((s.begun_steps < s.steps) ⊎ (s.begun_steps % 2 ≡ 1))
        ⊎ ((s.cells ≡ s.old) × SeenIn s.old s.seen)

  start-Inv :
      (found : ℕ) (cells : List A) → found < 2 ^ 32 → found % 2 ≡ 0 → Inv (start found cells)
  start-Inv found cells small even = record {
    counter = omega arith;
    parity = even;
    begun_at = omega arith;
    before = omega arith;
    current = inr (refl, tt);
  }

  Step-Inv : {s t : System A} → Step s t → Inv s → Inv t
  Step-Inv (locks s h) v = record {
    counter = omega (arith, v.counter);
    parity = ground (arith, v.parity, h);
    begun_at = v.begun_at;
    before = omega (arith, v.before);
    current = inl (inl (omega (arith, v.before)));
  }
  Step-Inv (writes s i x h) v = record {
    counter = v.counter;
    parity = v.parity;
    begun_at = v.begun_at;
    before = v.before;
    current = inl (ground (arith, v.before, v.parity, h));
  }
  Step-Inv (unlocks s h) v = record {
    counter = omega (arith, v.counter);
    parity = ground (arith, v.parity, h);
    begun_at = v.begun_at;
    before = omega (arith, v.before);
    current = inl (inl (omega (arith, v.before)));
  }
  Step-Inv (begins s) v = record {
    counter = v.counter;
    parity = v.parity;
    begun_at = v.counter;
    before = omega arith;
    current = inr (refl, tt);
  }
  Step-Inv (reads s i x e) v = record {
    counter = v.counter;
    parity = v.parity;
    begun_at = v.begun_at;
    before = v.before;
    current = elim v.current [
      | inl late ↦ inl late
      | inr (same, seen) ↦ inr (same, (subst (λ c. get_elem? c i ≡ some x) same e, seen))
    ];
  }

  Reach-Inv : {s t : System A} → Reach s t → Inv s → Inv t
  Reach-Inv here v = v
  Reach-Inv (next r st) v = Step-Inv st (Reach-Inv r v)

  -- For a counter that is even when it is first used, which no constructor sees to: in any order
  -- of the steps of one writer and a reader, where read_retry returns false and the counter was
  -- incremented fewer than 2 ^ 32 times since read_begin, everything read stood in the data at
  -- read_begin, when no write was under way.
  pub snapshot_lem :
      (found : ℕ) (cells : List A) (s : System A)
      → found < 2 ^ 32
      → found % 2 ≡ 0
      → Reach (start found cells) s
      → s.steps < s.begun_steps + 2 ^ 32
      → read_retry s.ctr s.begun ≡ false
      → SeenIn s.old s.seen × (s.begun_steps % 2 ≡ 0)
  snapshot_lem found cells s small zero r few done =
      let v = Reach-Inv r (start-Inv found cells small zero) in
      let same : s.begun ≡ s.ctr = ground (arith, done) in
      let even : s.begun % 2 ≡ 0 = ground (arith, done) in
      let at : s.steps ≡ s.begun_steps =
        omega (arith, same, v.counter, v.begun_at, v.before, few) in
      let begun_even : s.begun_steps % 2 ≡ 0 = omega (arith, even, v.begun_at) in
      elim v.current [
        | inl (inl late) ↦ absurd (omega (arith, late, at))
        | inl (inr odd) ↦ absurd (omega (arith, odd, begun_even))
        | inr (e, seen) ↦ (seen, begun_even)
      ]
