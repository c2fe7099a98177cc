-- ===== src/Buffer/Tests.antt =====
-- Runs of CtrlrFx/Buffer.h on a small buffer, and instances of its theorems.
use ctrlr_fx.Prelude.{ℕ, ◌≡◌, refl, List, [], ◌∷◌, some, true, replicate, arith}
use ctrlr_fx.Memory.{store, copy_elem}
use ctrlr_fx.Buffer.{Buffer, available, put_n, get_n, get_next, flip, clear, align}
use ctrlr_fx.Buffer.Inv.{IsValid, Call, puts_n, gets_n, flips, gets, call, calls}
use ctrlr_fx.Buffer.Transfer.{get_n-flip-put_n, calls-IsValid}

-- Two of four cells written.
abbrev half : Buffer ℕ
half = record { buf = 1 ∷ 2 ∷ 3 ∷ 4 ∷ []; pos = 2; lim = 4; end_ = 4; mark_ = 2; own = true }

half-IsValid : IsValid half
half-IsValid = omega arith

abbrev script : List (Call ℕ)
script = puts_n (7 ∷ []) ∷ puts_n (8 ∷ 9 ∷ []) ∷ flips ∷ gets_n (0 ∷ 0 ∷ []) ∷ gets ∷ gets ∷ []

run-script :
    calls half script ≡ some (record half { buf = 1 ∷ 2 ∷ 7 ∷ 4 ∷ []; pos = 3; lim = 3; mark_ = 0 })
unfolding calls call put_n get_n get_next copy_elem store
run-script = refl

-- The limit is 2 and the boundary 4 lies inside the memory of 8: the position passes the limit.
align_passes_limit :
    (align {A = ℕ}
      (record { buf = replicate 8 0; pos = 1; lim = 2; end_ = 8; mark_ = 0; own = true })
      4).pos
    ≡ 4
align_passes_limit = refl

get_n-flip-put_n_example :
    (b1 : Buffer ℕ) × (b2 : Buffer ℕ) × (put_n (clear half) (7 ∷ 8 ∷ []) 2 ≡ some (2, b1))
    × (get_n (flip b1) (0 ∷ 0 ∷ []) 2 ≡ some (2, 7 ∷ 8 ∷ [], b2))
    × (available b2 ≡ 0)
get_n-flip-put_n_example =
    get_n-flip-put_n half (7 ∷ 8 ∷ []) (0 ∷ 0 ∷ []) half-IsValid (omega arith) refl

calls-IsValid_example : (b' : Buffer ℕ) × (calls half script ≡ some b') × IsValid b'
calls-IsValid_example = calls-IsValid script half half-IsValid

-- Three of four cells read, with the mark at the third.
abbrev late : Buffer ℕ
late = record { buf = 1 ∷ 2 ∷ 3 ∷ 4 ∷ []; pos = 3; lim = 4; end_ = 4; mark_ = 3; own = true }
