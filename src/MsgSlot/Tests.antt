-- ===== src/MsgSlot/Tests.antt =====
-- CtrlrFx/MsgSlot.h on short lists of calls.
use ctrlr_fx.Prelude.{ℕ, ◌≡◌, refl, List, [], ◌∷◌, none}
use ctrlr_fx.MsgSlot.{MsgSlot, binary, new_slot}
use ctrlr_fx.MsgSlot.Idle.{Idle, Call, tryputs, signals, trygets, calls, spec_calls, slot_refines}

abbrev empty_slot : MsgSlot ℕ
empty_slot = new_slot 0

abbrev script : List (Call ℕ)
script = tryputs 5 ∷ tryputs 6 ∷ signals 8 ∷ trygets ∷ trygets ∷ []

slot_refines_example :
    ((calls binary empty_slot script).0 ≡ (spec_calls none script).0)
    × Idle (calls binary empty_slot script).1 (spec_calls none script).1
slot_refines_example = slot_refines empty_slot none script (refl, refl)
