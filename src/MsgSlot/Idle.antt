-- ===== src/MsgSlot/Idle.antt =====
-- CtrlrFx/MsgSlot.h, one call after the other: the slot as the message in it, if any.
use ctrlr_fx.Prelude.{◌≡◌, refl, List, [], ◌∷◌, Option, none, some, Bool, true, false, arith}
use ctrlr_fx.MsgSlot.{MsgSlot, SemaphoreKind, binary, counting, tryput, signal, reset, tryget}

pub data Call (A : Type 0) : Type 0 where
  tryputs : A → Call A
  signals : A → Call A
  trygets : Call A

pub data Result (A : Type 0) : Type 0 where
  stored : Bool → Result A
  signaled : Result A
  got : Option A → Result A

module _ {A : Type 0} where
  -- No call is under way: one semaphore is signaled, and it tells whether a message is there.
  abbrev pub Idle : MsgSlot A → Option A → Type 0
  Idle s none = (s.sem_empty ≡ 1) × (s.sem_full ≡ 0)
  Idle s (some v) = (s.val ≡ v) × (s.sem_empty ≡ 0) × (s.sem_full ≡ 1)

  abbrev pub call : SemaphoreKind → MsgSlot A → Call A → Result A × MsgSlot A
  call k s (tryputs v) = (let r = tryput k s v in (stored r.0, r.1))
  call k s (signals v) = (signaled, signal k s v)
  call k s trygets = (let r = tryget k s in (got r.0, r.1))

  abbrev pub calls : SemaphoreKind → MsgSlot A → List (Call A) → List (Result A) × MsgSlot A
  calls k s [] = ([], s)
  calls k s (c ∷ cs) = let r = call k s c in let rest = calls k r.1 cs in (r.0 ∷ rest.0, rest.1)

  -- The slot as it should be: it holds a message or none.
  abbrev pub spec : Option A → Call A → Result A × Option A
  spec none (tryputs v) = (stored true, some v)
  spec (some u) (tryputs v) = (stored false, some u)
  spec m (signals v) = (signaled, some v)
  spec m trygets = (got m, none)

  abbrev pub spec_calls : Option A → List (Call A) → List (Result A) × Option A
  spec_calls m [] = ([], m)
  spec_calls m (c ∷ cs) = let r = spec m c in let rest = spec_calls r.1 cs in (r.0 ∷ rest.0, rest.1)

  call-refines :
      (s : MsgSlot A) (m : Option A) (c : Call A)
      → Idle s m
      → ((call binary s c).0 ≡ (spec m c).0) × Idle (call binary s c).1 (spec m c).1
  call-refines s none (tryputs v) h = ground (arith, h)
  call-refines s (some u) (tryputs v) h = ground (arith, h)
  call-refines s none (signals v) h = ground (arith, h)
  call-refines s (some u) (signals v) h = ground (arith, h)
  call-refines s none trygets h = ground (arith, h)
  call-refines s (some u) trygets h = ground (arith, h)

  -- With binary semaphores, every list of tryput, signal and tryget on an idle message slot has
  -- the results of a slot that holds a message or none, where signal replaces the message.
  pub slot_refines :
      (s : MsgSlot A) (m : Option A) (cs : List (Call A))
      → Idle s m
      → ((calls binary s cs).0 ≡ (spec_calls m cs).0)
        × Idle (calls binary s cs).1 (spec_calls m cs).1
  slot_refines s m [] h = (refl, h)
  slot_refines s m (c ∷ cs) h =
      let (e, h1) = call-refines s m c h in
      let (es, h2) = slot_refines (call binary s c).1 (spec m c).1 cs h1 in (cc (e, es), h2)

  -- With counting semaphores `signal` on a slot that holds a message makes the slot give the new message
  -- twice.
  pub signal-twice :
      (s : MsgSlot A) (u v : A)
      → Idle s (some u)
      → ((calls counting s (signals v ∷ trygets ∷ trygets ∷ [])).0
          ≡ signaled ∷ got (some v) ∷ got (some v) ∷ [])
  signal-twice s u v h = ground (arith, h)

  -- reset of a message slot that holds a message leaves it in a state where tryput and tryget fail
  -- and change nothing, with either kind of semaphore.
  pub reset-stuck :
      (k : SemaphoreKind) (s : MsgSlot A) (u v : A)
      → Idle s (some u)
      → (tryput k (reset s) v ≡ (false, reset s)) × (tryget k (reset s) ≡ (none, reset s))
  reset-stuck k s u v h = ground (arith, h)
