-- ===== src/Stack/Tests.antt =====
-- Runs of CtrlrFx/Stack.h on a small stack, and instances of its theorems.
use ctrlr_fx.Prelude.{ℕ, zero, suc, ◌<◌, ◌≡◌, refl, [], ◌∷◌, some, true, false, get_elem?, arith}
use ctrlr_fx.Memory.{store}
use ctrlr_fx.Stack.{Stack, push_n, pop_n, push_loop, pop_loop, init_array}
use ctrlr_fx.Stack.Laws.{Holds}
use ctrlr_fx.Stack.Blocks.{pop_n-push_n}

-- 5 under 6, and room for two more.
abbrev two : Stack ℕ
two = record { buf = 5 ∷ 6 ∷ 0 ∷ 0 ∷ []; sz = 2; cap = 4; own = true }

two-Holds : Holds two (5 ∷ 6 ∷ [])
two-Holds = record { valid = omega arith; counted = refl; cells = λ i h. cell i h }
  where
    cell : (i : ℕ) → i < 2 → get_elem? two.buf i ≡ get_elem? (5 ∷ 6 ∷ []) i
    cell zero h = refl
    cell (suc zero) h = refl
    cell (suc (suc i)) h = absurd (omega arith)

push_n_takes_what_fits :
    push_n two (7 ∷ 8 ∷ 9 ∷ []) 3
    ≡ some (2, record { buf = 5 ∷ 6 ∷ 7 ∷ 8 ∷ []; sz = 4; cap = 4; own = true })
unfolding push_n push_loop store
push_n_takes_what_fits = refl

pop_n_reverses : pop_n two (0 ∷ 0 ∷ 0 ∷ []) 3 ≡ some (2, 5 ∷ 6 ∷ 0 ∷ [], record two { sz = 0 })
unfolding pop_n pop_loop store
pop_n_reverses = refl

-- The constructor takes `own` and does not keep it.
init_array_drops_own : (init_array {A = ℕ} (1 ∷ []) 1 true).own ≡ false
unfolding init_array
init_array_drops_own = refl

pop_n-push_n_example :
    (s1 : Stack ℕ) × (s2 : Stack ℕ) × (push_n two (7 ∷ 8 ∷ []) 2 ≡ some (2, s1))
    × (pop_n s1 (0 ∷ 0 ∷ []) 2 ≡ some (2, 7 ∷ 8 ∷ [], s2))
    × Holds s2 (5 ∷ 6 ∷ [])
pop_n-push_n_example =
    pop_n-push_n two (5 ∷ 6 ∷ []) (7 ∷ 8 ∷ []) (0 ∷ 0 ∷ []) two-Holds (omega arith) refl
