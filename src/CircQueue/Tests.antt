-- ===== src/CircQueue/Tests.antt =====
-- Runs of CtrlrFx/CircQueue.h on small queues, and instances of its theorems.
use ctrlr_fx.Prelude.{
  ℕ, zero, suc, ◌<◌, ◌≡◌, refl, min, List, [], ◌∷◌, some, ◌>>=◌, true, false, get_elem?, arith,
}
use ctrlr_fx.Memory.{store, copy_elem}
use ctrlr_fx.CircQueue.{CircQueue, size, full, empty, remaining, put, get, put_n}
use ctrlr_fx.CircQueue.Fifo.{
  Call, puts, gets, puts_n, sizes, remainings, accepted, got, number, answers,
}
use ctrlr_fx.CircQueue.Inv.{IsValid}
use ctrlr_fx.CircQueue.Bulk.{put_each, put_n-eq-put_each}
use ctrlr_fx.CircQueue.Refine.{Holds, index}
use ctrlr_fx.CircQueue.Run.{call, run, run_refines}

-- Four cells; 7, 8 and 9 are stored, round the end of the array.
abbrev wrapped : CircQueue ℕ
wrapped = record { buf = 8 ∷ 9 ∷ 0 ∷ 7 ∷ []; cap = 4; put_ = 2; get_ = 3; own = true }

-- The same array with 7 and 8 stored.
abbrev roomy : CircQueue ℕ
roomy = record { buf = 8 ∷ 9 ∷ 0 ∷ 7 ∷ []; cap = 4; put_ = 1; get_ = 3; own = true }

abbrev script : List (Call ℕ)
script = puts 1 ∷ gets ∷ puts 1 ∷ sizes ∷ gets ∷ puts_n (4 ∷ 5 ∷ 6 ∷ []) ∷ remainings ∷ []

wrapped-Holds : Holds wrapped (7 ∷ 8 ∷ 9 ∷ [])
wrapped-Holds = record { valid = omega arith; counted = refl; cells = λ i h. cell i h }
  where
    cell : (i : ℕ) → i < 3 → get_elem? wrapped.buf (index wrapped i) ≡ get_elem? (7 ∷ 8 ∷ 9 ∷ []) i
    cell zero h = refl
    cell (suc zero) h = refl
    cell (suc (suc zero)) h = refl
    cell (suc (suc (suc i))) h = absurd (omega arith)

roomy-IsValid : IsValid roomy
roomy-IsValid = omega arith

run-script :
    run wrapped script
    ≡ some (
        accepted false
        ∷ got (some 7)
        ∷ accepted true
        ∷ number 3
        ∷ got (some 8)
        ∷ number 1
        ∷ number 0
        ∷ [])
unfolding run call put get put_n size full empty remaining store copy_elem
run-script = refl

run_refines_example : run wrapped script ≡ some (answers 3 (7 ∷ 8 ∷ 9 ∷ []) script)
run_refines_example = run_refines script wrapped (7 ∷ 8 ∷ 9 ∷ []) wrapped-Holds

put_n-eq-put_each_example : put_n roomy (4 ∷ 5 ∷ 6 ∷ []) 3 ≡ (
    put_each roomy (4 ∷ 5 ∷ 6 ∷ []) 0 (min 3 (remaining roomy)) >>= λ q'.
    some (min 3 (remaining roomy), q'))
put_n-eq-put_each_example = put_n-eq-put_each roomy (4 ∷ 5 ∷ 6 ∷ []) 3 roomy-IsValid (omega arith)
