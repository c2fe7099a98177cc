-- ===== src/Guard/Life.antt =====
-- CtrlrFx/Guard.h: a guard from its constructor to its destructor.
use ctrlr_fx.Prelude.{Bool, true, false, List, [], ◌∷◌, ◌≡◌, refl, ◌∙◌}
use ctrlr_fx.Guard.{Guard, acquire, release, init, init_owned, destroy}

pub data Call : Type 0 where
  acquires : Call
  releases : Call

module _ {L : Type 0} (lock_acquire lock_release : L → L) where
  abbrev pub call : Guard L → Call → Guard L
  call g acquires = acquire lock_acquire lock_release g
  call g releases = release lock_acquire lock_release g

  abbrev pub calls : Guard L → List Call → Guard L
  calls g [] = g
  calls g (c ∷ cs) = calls (call g c) cs

  module _ (undo : (l : L) → lock_release (lock_acquire l) ≡ l) where
    -- The lock without what the guard holds of it.
    abbrev bare : Guard L → L
    bare g = destroy lock_acquire lock_release g

    call-bare : (g : Guard L) (c : Call) → bare (call g c) ≡ bare g
    call-bare g acquires = go g.own_ g.lock_
      where
        go :
            (own : Bool) (l : L)
            → bare (call (record { lock_ = l; own_ = own }) acquires)
              ≡ bare (record { lock_ = l; own_ = own })
        go true l = refl
        go false l = undo l
    call-bare g releases = go g.own_ g.lock_
      where
        go :
            (own : Bool) (l : L)
            → bare (call (record { lock_ = l; own_ = own }) releases)
              ≡ bare (record { lock_ = l; own_ = own })
        go true l = refl
        go false l = refl

    calls-bare : (g : Guard L) (cs : List Call) → bare (calls g cs) ≡ bare g
    calls-bare g [] = refl
    calls-bare g (c ∷ cs) = calls-bare (call g c) cs ∙ call-bare g c

    -- For a lock whose release undoes its acquisition, a guard leaves the lock as it was from
    -- constructor to destructor, whatever calls of acquire and release stand between, and a guard
    -- told that the lock is held leaves it released once.
    pub guard_life :
        (l : L) (cs : List Call)
        → (destroy lock_acquire lock_release (calls (init lock_acquire lock_release l) cs) ≡ l)
          × (destroy lock_acquire lock_release
                (calls (init_owned lock_acquire lock_release l false) cs)
              ≡ l)
          × (destroy lock_acquire lock_release
                (calls (init_owned lock_acquire lock_release l true) cs)
              ≡ lock_release l)
    guard_life l cs = (
      calls-bare (init lock_acquire lock_release l) cs ∙ undo l,
      calls-bare (init_owned lock_acquire lock_release l false) cs ∙ undo l,
      calls-bare (init_owned lock_acquire lock_release l true) cs,
    )
