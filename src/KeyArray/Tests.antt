-- ===== src/KeyArray/Tests.antt =====
-- Runs of CtrlrFx/KeyArray.h on small arrays, and instances of its theorems.
use ctrlr_fx.Prelude.{ℕ, ◌≡◌, refl, [], to_int, ◌∷◌, none, some, arith}
use ctrlr_fx.Memory.{store}
use ctrlr_fx.KeyArray.{KeyArray, KeyPair, put, get, get_at, find, find_from}
use ctrlr_fx.KeyArray.Laws.{Distinct, Freed, value_of, get_key_lem}

abbrev slot : ℕ → ℕ → KeyPair ℕ
slot k v = record { key = k; val = v }

-- Key 7 holds 70, key 9 holds 90, and the middle slot is free.
abbrev sample : KeyArray ℕ
sample = slot 7 70 ∷ slot 0 1 ∷ slot 9 90 ∷ []

sample-Distinct : Distinct sample
sample-Distinct = omega arith

put_uses_the_free_slot : put sample 5 50 ≡ (some 1, slot 7 70 ∷ slot 5 50 ∷ slot 9 90 ∷ [])
unfolding put find find_from to_int
put_uses_the_free_slot = refl

get_frees_the_slot : get sample 9 ≡ some (some 90, slot 7 70 ∷ slot 0 1 ∷ slot 0 90 ∷ [])
unfolding get find find_from to_int store
get_frees_the_slot = refl

-- `get_at` of a free slot hands over its old value and reports success.
get_at_of_free_slot : get_at sample (some 1) ≡ some (some 1, sample)
unfolding get_at store
get_at_of_free_slot = refl

-- `get_at` past the end is outside the array.
get_at_past_end : get_at sample (some 3) ≡ none
unfolding get_at
get_at_past_end = refl

get_key_lem_example :
    (arr' : KeyArray ℕ) × (get sample 9 ≡ some (value_of sample 9, arr')) × Freed 9 sample arr'
get_key_lem_example = get_key_lem sample 9 (omega arith) sample-Distinct (omega arith)
