-- ===== src/RecursiveMutex/Tests.antt =====
-- src/os/generic/RecursiveMutex.cpp: thread 1 locks twice, thread 2 is refused.
use ctrlr_fx.Prelude.{ℕ, ◌≡◌, List, [], ◌∷◌, true, arith}
use ctrlr_fx.RecursiveMutex.{new_mutex}
use ctrlr_fx.RecursiveMutex.Nesting.{Call, locks, trylocks, unlocks, calls, depth, one_owner}

abbrev thread : ℕ
thread = 1

abbrev nested : List Call
nested = locks 1 ∷ trylocks 2 true ∷ locks 1 ∷ unlocks 2 ∷ []

one_owner_example :
    (thread ≡ 1)
    × ((calls (new_mutex 9) nested).owner ≡ 1)
    × ((calls (new_mutex 9) nested).level ≡ 2)
one_owner_example = one_owner 9 1 1 nested (omega arith) (omega arith)

abbrev given_back : List Call
given_back = locks 1 ∷ unlocks 1 ∷ []

no_depth : (t : ℕ) → depth t 0 (new_mutex 9) given_back ≡ 0
no_depth t = ground arith
