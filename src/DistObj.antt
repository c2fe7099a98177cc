-- ===== src/DistObj.antt =====
-- CtrlrFx/DistObj.h and src/DistObj/DistObj.cpp: the registry that finds a distributed object by its
-- key. `obj_map_` is its array of `MAX_NUM_DIST_OBJ` cells; a cell's object is a pointer, 0 for null.
-- A read outside the array is `none`. `IDistObj::invoke` is virtual and is a parameter; so is the
-- array that the constructor finds, which it does not clear. The messages for debugging are left out.
pub mod Registry
mod Tests
use ctrlr_fx.Prelude.{
  ℕ, zero, suc, ◌+◌, ◌-◌, List, [], Option, none, some, ◌>>=◌, Bool, true, false, ◌==◌, ltb, not,
  ◌&&◌, if◌then◌else◌, length,
}
use ctrlr_fx.Memory.{load, store}

pub record ObjMap : Type 0 where
  pub key : ℕ
  pub obj : ℕ

-- What `register_obj` returns: a position, or the error for want of room.
pub data Registration : Type 0 where
  registered : ℕ → Registration
  no_mem : Registration

-- The constructor.
abbrev pub new_registry : List ObjMap → Option (List ObjMap)
new_registry found = do e ← load found 0; store found 0 (record e { obj = 0 })

-- The loop of `register_obj`, from `i`.
abbrev pub find_free : List ObjMap → ℕ → ℕ → ℕ → Option ℕ
find_free map max zero i = none
find_free map max (suc fuel) i = load map i >>= λ e.
    (let rest = find_free map max fuel (i + 1) in
      if not (e.obj == 0) && ltb i max then rest else some i)

abbrev pub terminate : List ObjMap → ℕ → ℕ → Option (Registration × List ObjMap)
terminate map max i =
    if ltb i (max - 1)
    then (load map (i + 1) >>= λ e.
        store map (i + 1) (record e { obj = 0 }) >>= λ map'. some (registered (i + 1), map'))
    else some (registered i, map)

pub register_obj : List ObjMap → ℕ → ℕ → ℕ → Option (Registration × List ObjMap)
register_obj map max key obj = do
  i ← find_free map max (suc max) 0
  if i == max
      then some (no_mem, map)
      else (store map i (record { key = key; obj = obj }) >>= λ map'. terminate map' max i)

-- The loop of `get_obj`, from `i`.
abbrev pub find_key : List ObjMap → ℕ → ℕ → ℕ → ℕ → Option ℕ
find_key map max key zero i = none
find_key map max key (suc fuel) i = load map i >>= λ e.
    (let rest = find_key map max key fuel (i + 1) in
      if not (e.obj == 0) && ltb i max then (if e.key == key then some e.obj else rest) else some 0)

pub get_obj : List ObjMap → ℕ → ℕ → Option ℕ
get_obj map max key = find_key map max key (suc max) 0

module _ {R : Type 0} (invoke : ℕ → ℕ → R) (unknown_obj : R) where
  -- `dispatch`, with the key and the operation read from the command.
  unfoldable pub dispatch : List ObjMap → ℕ → ℕ → ℕ → Option R
  unfolding get_obj
  dispatch map max key op = do
    p ← get_obj map max key
    some (if p == 0 then unknown_obj else invoke p op)
