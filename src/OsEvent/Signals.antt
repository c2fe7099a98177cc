-- ===== src/OsEvent/Signals.antt =====
-- src/os/generic/OSEvent.cpp: calls by any threads, one after the other, as their critical sections come.
use ctrlr_fx.Prelude.{
  ℕ, suc, ◌+◌, ◌≤◌, ◌≡◌, ◌≢◌, List, [], ◌∷◌, Option, none, some, Bool, true, false, if◌then◌else◌,
  arith,
}
use ctrlr_fx.OsEvent.{OsEvent, notify_all, wait, wait_for, trywait, signal, reset}

pub data Call : Type 0 where
  waits : Call
  waits_for : Bool → Call
  trywaits : Bool → Call
  signals : Call
  resets : Call

abbrev waited : OsEvent → Option OsEvent → Bool × OsEvent
waited e none = (false, e)
waited e (some e') = (true, e')

abbrev waited_for : OsEvent → Option (Bool × OsEvent) → Bool × OsEvent
waited_for e none = (false, e)
waited_for e (some r) = r

-- Whether the call was a wait that the event let through, and the event after it.
abbrev pub call : OsEvent → Call → Bool × OsEvent
call e waits = waited e (wait e)
call e (waits_for in_time) = waited_for e (wait_for e in_time)
call e (trywaits free) = trywait e free
call e signals = (false, (signal e).1)
call e resets = (false, reset e)

-- The waits that were let through, and the signals, in a list of calls.
abbrev pub passed : OsEvent → List Call → ℕ
passed e [] = 0
passed e (c ∷ cs) = (if (call e c).0 then 1 else 0) + passed (call e c).1 cs

abbrev sent : Call → ℕ
sent signals = 1
sent waits = 0
sent (waits_for in_time) = 0
sent (trywaits free) = 0
sent resets = 0

abbrev pub sent_all : List Call → ℕ
sent_all [] = 0
sent_all (c ∷ cs) = sent c + sent_all cs

abbrev bit : Bool → ℕ
bit b = if b then 1 else 0

call-balance :
    (e : OsEvent) (c : Call)
    → e.manual_reset ≡ false
    → ((if (call e c).0 then 1 else 0) + bit (call e c).1.signaled ≤ sent c + bit e.signaled)
      × ((call e c).1.manual_reset ≡ false)
call-balance e waits h = ground (arith, h)
call-balance e (waits_for in_time) h = ground (arith, h)
call-balance e (trywaits free) h = ground (arith, h)
call-balance e signals h = ground (arith, h)
call-balance e resets h = ground (arith, h)

-- An auto-reset event lets at most one wait through for each signal, and one more if it was
-- signaled at first, whatever the order of the calls.
pub passed_bound :
    (e : OsEvent) (cs : List Call)
    → e.manual_reset ≡ false
    → passed e cs ≤ sent_all cs + (if e.signaled then 1 else 0)
passed_bound e [] h = ground arith
passed_bound e (c ∷ cs) h =
    let (b, m) = call-balance e c h in ground (arith, b, passed_bound (call e c).1 cs m)

-- A call that waits, with or without a time limit.
abbrev pub is_wait : Call → Bool
is_wait waits = true
is_wait (waits_for in_time) = true
is_wait (trywaits free) = false
is_wait signals = false
is_wait resets = false

abbrev pub all_waits : List Call → ℕ
all_waits [] = 0
all_waits (c ∷ cs) = let rest = all_waits cs in if is_wait c then suc rest else rest

abbrev pub plain : Call → Bool
plain waits = true
plain (waits_for in_time) = true
plain (trywaits free) = false
plain signals = true
plain resets = false

abbrev pub all_plain : List Call → Bool
all_plain [] = true
all_plain (c ∷ cs) = let rest = all_plain cs in if plain c then rest else false

-- A manual-reset event that was signaled wakes all waiting threads and lets every wait through as
-- long as no one calls reset or trywait.
pub manual_lem :
    (e : OsEvent) (cs : List Call)
    → e.manual_reset ≡ true
    → all_plain cs ≡ true
    → ((signal e).0 ≡ notify_all) × (passed (signal e).1 cs ≡ all_waits cs)
manual_lem e [] m p = ground (arith, m)
manual_lem e (waits ∷ cs) m p = ground (arith, m, manual_lem e cs m p)
manual_lem e (waits_for in_time ∷ cs) m p = ground (arith, m, manual_lem e cs m p)
manual_lem e (trywaits free ∷ cs) m p = ground (arith, p)
manual_lem e (signals ∷ cs) m p = ground (arith, m, manual_lem e cs m p)
manual_lem e (resets ∷ cs) m p = ground (arith, p)

-- `trywait` that gets the mutex takes the signal of every event, of one with manual reset too: no
-- wait passes after it until the next signal.
pub trywait-takes :
    (e : OsEvent)
    → ((trywait e true).0 ≡ e.signaled)
      × (wait (trywait e true).1 ≡ none)
      × ((wait (signal (trywait e true).1).1) ≢ none)
trywait-takes e = ground arith
