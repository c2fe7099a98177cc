-- ===== src/OsEvent/Tests.antt =====
-- src/os/generic/OSEvent.cpp on short lists of calls.
use ctrlr_fx.Prelude.{◌+◌, ◌≤◌, ◌≡◌, refl, List, [], ◌∷◌, true, false}
use ctrlr_fx.OsEvent.{OsEvent}
use ctrlr_fx.OsEvent.Signals.{
  Call, waits, waits_for, trywaits, signals, passed, sent_all, passed_bound,
}

abbrev auto : OsEvent
auto = record { manual_reset = false; signaled = true }

abbrev manual : OsEvent
manual = record { manual_reset = true; signaled = false }

abbrev script : List Call
script = waits ∷ waits ∷ signals ∷ signals ∷ trywaits true ∷ waits_for false ∷ []

script-passed : passed auto script ≡ 2
script-passed = refl

passed_bound_example : passed auto script ≤ sent_all script + 1
passed_bound_example = passed_bound auto script refl
