-- ===== src/CircQueue/Fifo.antt =====
-- What CtrlrFx/CircQueue.h promises its clients: a first-in first-out queue of at most `room`
-- elements, oldest first, and the calls that a client can make of it.
use ctrlr_fx.Prelude.{
  ℕ, ◌-◌, min, List, [], ◌∷◌, ◌++◌, Option, none, some, Bool, true, false, ◌==◌, if◌then◌else◌,
  length, take,
}

pub data Call (A : Type 0) : Type 0 where
  puts : A → Call A
  gets : Call A
  puts_n : List A → Call A
  sizes : Call A
  remainings : Call A

pub data Reply (A : Type 0) : Type 0 where
  accepted : Bool → Reply A
  got : Option A → Reply A
  number : ℕ → Reply A

module _ {A : Type 0} (room : ℕ) where
  unfoldable pub answer : List A → Call A → Reply A × List A
  answer xs (puts x) =
      if length xs == room then (accepted false, xs) else (accepted true, xs ++ (x ∷ []))
  answer [] gets = (got none, [])
  answer (x ∷ xs) gets = (got (some x), xs)
  answer xs (puts_n ys) = let n = min (length ys) (room - length xs) in (number n, xs ++ take n ys)
  answer xs sizes = (number (length xs), xs)
  answer xs remainings = (number (room - length xs), xs)

  unfoldable pub answers : List A → List (Call A) → List (Reply A)
  answers xs [] = []
  answers xs (c ∷ cs) = let (r, xs') = answer xs c in r ∷ answers xs' cs
