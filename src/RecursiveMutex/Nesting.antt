-- ===== src/RecursiveMutex/Nesting.antt =====
-- src/os/generic/RecursiveMutex.cpp: calls by any threads, one after the other, as their critical sections
-- come. A `lock` that has to wait is a call that acquired nothing; its test after the wake-up is a
-- call of its own.
use ctrlr_fx.Prelude.{
  ℕ, ◌+◌, ◌-◌, ◌<◌, ◌≡◌, refl, subst, List, [], ◌∷◌, Option, none, some, Bool, true, false, ◌&&◌,
  ◌==◌, if◌then◌else◌, arith,
}
use ctrlr_fx.RecursiveMutex.{RecursiveMutex, new_mutex, lock, lock_again, trylock, unlock}

pub data Call : Type 0 where
  locks : ℕ → Call
  locks_again : ℕ → Call
  trylocks : ℕ → Bool → Call
  unlocks : ℕ → Call

-- Whether the call acquired a level, and the mutex after it.
abbrev taken : RecursiveMutex → Option RecursiveMutex → Bool × RecursiveMutex
taken m none = (false, m)
taken m (some m') = (true, m')

abbrev pub call : RecursiveMutex → Call → Bool × RecursiveMutex
call m (locks t) = taken m (lock m t)
call m (locks_again t) = taken m (lock_again m t)
call m (trylocks t free) = trylock m free t
call m (unlocks t) = (false, (unlock m t).1)

abbrev pub calls : RecursiveMutex → List Call → RecursiveMutex
calls m [] = m
calls m (c ∷ cs) = calls (call m c).1 cs

-- How many levels the thread `t` has after one more call: one more if it acquired, one less, down to
-- 0, if it unlocked.
abbrev pub depth_step : ℕ → ℕ → Call → Bool → ℕ
depth_step t d (locks u) got = if t == u && got then d + 1 else d
depth_step t d (locks_again u) got = if t == u && got then d + 1 else d
depth_step t d (trylocks u free) got = if t == u && got then d + 1 else d
depth_step t d (unlocks u) got = if t == u then d - 1 else d

-- The thread's levels after the calls, from what the calls returned to it.
abbrev pub depth : ℕ → ℕ → RecursiveMutex → List Call → ℕ
depth t d m [] = d
depth t d m (c ∷ cs) = depth t (depth_step t d c (call m c).0) (call m c).1 cs

abbrev pub level_of : RecursiveMutex → ℕ → ℕ
level_of m t = if m.owner == t then m.level else 0

-- The level that `owner_` and `level_` give a thread follows what the thread was granted, in each
-- call: the mutex agrees with every thread's own count.
call-level_of :
    (m : RecursiveMutex) (c : Call) (t : ℕ)
    → level_of (call m c).1 t ≡ depth_step t (level_of m t) c (call m c).0
call-level_of m (locks u) t = ground arith
call-level_of m (locks_again u) t = ground arith
call-level_of m (trylocks u free) t = ground arith
call-level_of m (unlocks u) t = ground arith

calls-level_of :
    (m : RecursiveMutex) (cs : List Call) (t : ℕ)
    → level_of (calls m cs) t ≡ depth t (level_of m t) m cs
calls-level_of m [] t = refl
calls-level_of m (c ∷ cs) t =
    subst (λ d. level_of (calls (call m c).1 cs) t ≡ depth t d (call m c).1 cs)
      (call-level_of m c t) (calls-level_of (call m c).1 cs t)

-- After any calls by any threads on a new recursive mutex, a thread granted more levels than it
-- gave back is the owner at exactly that level, and there is at most one such thread.
pub one_owner :
    (found t u : ℕ) (cs : List Call)
    → 0 < depth t 0 (new_mutex found) cs
    → 0 < depth u 0 (new_mutex found) cs
    → (t ≡ u)
      × ((calls (new_mutex found) cs).owner ≡ t)
      × ((calls (new_mutex found) cs).level ≡ depth t 0 (new_mutex found) cs)
one_owner found t u cs h k =
    ground (arith, calls-level_of (new_mutex found) cs t, calls-level_of (new_mutex found) cs u)

-- When the threads gave back what they were granted, `lock` and `trylock` of any thread succeed.
pub released_lem :
    (found : ℕ) (cs : List Call)
    → ((t : ℕ) → depth t 0 (new_mutex found) cs ≡ 0)
    → (u : ℕ)
    → ((call (calls (new_mutex found) cs) (locks u)).0 ≡ true)
      × ((call (calls (new_mutex found) cs) (locks_again u)).0 ≡ true)
      × ((call (calls (new_mutex found) cs) (trylocks u true)).0 ≡ true)
released_lem found cs h u =
    let o = (calls (new_mutex found) cs).owner in
    ground (arith, calls-level_of (new_mutex found) cs o, h o)
