-- ===== src/Guard/Tests.antt =====
-- CtrlrFx/Guard.h over a lock that counts how often it is held.
use ctrlr_fx.Prelude.{ℕ, ◌+◌, ◌-◌, true, false, List, [], ◌∷◌, ◌≡◌, arith}
use ctrlr_fx.Guard.{init, init_owned, destroy}
use ctrlr_fx.Guard.Life.{Call, acquires, releases, calls, guard_life}

abbrev up : ℕ → ℕ
up n = n + 1

abbrev down : ℕ → ℕ
down n = n - 1

abbrev script : List Call
script = acquires ∷ releases ∷ releases ∷ acquires ∷ []

guard_life_example :
    (destroy up down (calls up down (init up down 3) script) ≡ 3)
    × (destroy up down (calls up down (init_owned up down 3 false) script) ≡ 3)
    × (destroy up down (calls up down (init_owned up down 3 true) script) ≡ 2)
guard_life_example = guard_life up down (λ n. omega arith) 3 script
