-- ===== src/RecursiveMutex.antt =====
-- CtrlrFx/os/generic/CtrlrFx/RecursiveMutex.h and src/os/generic/RecursiveMutex.cpp: the mutex that its
-- owner may lock again. Each function is what its caller does with the mutex of `cond_` held; a wait
-- is `none`. A thread is a number, and `level_` is a natural number: an `int` that passes its range
-- has no meaning in the source.
pub mod Nesting
mod Tests
use ctrlr_fx.Prelude.{
  ℕ, ◌+◌, ◌-◌, List, [], ◌∷◌, Option, none, some, Bool, true, false, not, ◌&&◌, ◌==◌, ltb,
  if◌then◌else◌,
}

pub record RecursiveMutex : Type 0 where
  pub owner : ℕ
  pub level : ℕ

-- The constructor sets the level only.
abbrev pub new_mutex : ℕ → RecursiveMutex
new_mutex found = record { owner = found; level = 0 }

abbrev pub lock : RecursiveMutex → ℕ → Option RecursiveMutex
lock m curr =
    if m.level == 0
    then some (record { owner = curr; level = m.level + 1 })
    else if m.owner == curr
    then some (record m { level = m.level + 1 })
    else none

-- What `lock` does after it was woken.
abbrev pub lock_again : RecursiveMutex → ℕ → Option RecursiveMutex
lock_again m curr =
    if ltb 0 m.level then none else some (record { owner = curr; level = m.level + 1 })

-- `free` is the result of `cond_.trylock()`.
abbrev pub trylock : RecursiveMutex → Bool → ℕ → Bool × RecursiveMutex
trylock m free curr =
    if not free
    then (false, m)
    else if m.level == 0
    then (true, record { owner = curr; level = m.level + 1 })
    else if not (m.owner == curr)
    then (false, m)
    else (true, record m { level = m.level + 1 })

-- With the signal, or without.
abbrev pub unlock : RecursiveMutex → ℕ → Bool × RecursiveMutex
unlock m curr =
    if ltb 0 m.level && m.owner == curr
    then (m.level - 1 == 0, record m { level = m.level - 1 })
    else (false, m)
