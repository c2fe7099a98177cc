-- ===== src/DistObj/Tests.antt =====
-- CtrlrFx/DistObj.h on registries of two cells.
use ctrlr_fx.Prelude.{ℕ, ◌≡◌, refl, List, [], ◌∷◌, none, inl, inr, arith}
use ctrlr_fx.DistObj.{ObjMap, get_obj}
use ctrlr_fx.DistObj.Registry.{Registered, get_obj_lem}

abbrev entry : ℕ → ℕ → ObjMap
entry key obj = record { key = key; obj = obj }

abbrev one_entry : List ObjMap
one_entry = entry 5 100 ∷ entry 9 0 ∷ []

one_entry-Registered : Registered one_entry 2 (entry 5 100 ∷ [])
one_entry-Registered = record {
  storage = refl;
  rest = (refl, (λ e. omega (arith, e)), inr (entry 9 0, refl, refl));
}

abbrev two_entries : List ObjMap
two_entries = entry 5 100 ∷ entry 6 200 ∷ []

two_entries-Registered : Registered two_entries 2 two_entries
two_entries-Registered = record {
  storage = refl;
  rest = (refl, (λ e. omega (arith, e)), (refl, (λ e. omega (arith, e)), inl refl));
}

-- In the full registry an unknown key is looked for past the array's end.
get_obj_lem_example : get_obj two_entries 2 7 ≡ none
get_obj_lem_example = get_obj_lem two_entries 2 two_entries two_entries-Registered 7
