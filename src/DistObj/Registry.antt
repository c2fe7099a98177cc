-- ===== src/DistObj/Registry.antt =====
-- CtrlrFx/DistObj.h: the registry as the list of what was registered, in that order.
use ctrlr_fx.Prelude.{
  ℕ, zero, suc, ◌+◌, ◌≤◌, ◌<◌, ◌≡◌, ◌≢◌, refl, sym, ◌∙◌, subst, List, [], ◌∷◌, ◌++◌, none, some,
  ◌==◌, ◌&&◌, if◌then◌else◌, length, length-set, set, get_elem?, get_elem?-set_self,
  get_elem?-set_ne, get_elem?-lt, get_elem?-none, Bool-cases, get_elem?-some, ◌⊎◌, inl, inr, arith,
}
use ctrlr_fx.Memory.{store_lem}
use ctrlr_fx.DistObj.{
  ObjMap, registered, new_registry, find_free, find_key, register_obj, get_obj, dispatch,
}

-- The place `i` ends the registrations: the array ends there, or a null object stands there.
abbrev pub IsEnd : List ObjMap → ℕ → ℕ → Type 0
IsEnd map max i = (i ≡ max) ⊎ ((e : ObjMap) × (get_elem? map i ≡ some e) × (e.obj ≡ 0))

-- From `i` on the array holds `es`, none of them null, and then the end.
abbrev pub Rest : List ObjMap → ℕ → ℕ → List ObjMap → Type 0
Rest map max i [] = IsEnd map max i
Rest map max i (e ∷ es) = (get_elem? map i ≡ some e) × (e.obj ≢ 0) × Rest map max (i + 1) es

-- The array of `max` cells holds the registrations `es`.
pub record Registered (map : List ObjMap) (max : ℕ) (es : List ObjMap) : Type 0 where
  pub storage : length map ≡ max
  pub rest : Rest map max 0 es

-- The object of the first entry with the key, or null.
abbrev pub lookup : List ObjMap → ℕ → ℕ
lookup [] key = 0
lookup (e ∷ es) key = let rest = lookup es key in if e.key == key then e.obj else rest

-- The loop of `register_obj` runs to the end of the entries, and faults there if they fill the array.
find_free_lem :
    (map : List ObjMap) (max : ℕ) (es : List ObjMap) (fuel i : ℕ)
    → length map ≡ max
    → Rest map max i es
    → length es < fuel
    → find_free map max fuel i ≡ (if i + length es == max then none else some (i + length es))
find_free_lem map max es zero i s r k = absurd (omega (arith, k))
find_free_lem map max [] (suc fuel) i s (inl e) k = ground (arith, s, e, get_elem?-none map i)
find_free_lem map max [] (suc fuel) i s (inr (e, at, free)) k =
    ground (arith, s, at, free, get_elem?-lt map i at)
find_free_lem map max (e ∷ es) (suc fuel) i s (at, live, r) k = ground (
  arith,
  s,
  at,
  live,
  get_elem?-lt map i at,
  find_free_lem map max es fuel (i + 1) s r (omega (arith, k)),
)

-- The loop of `get_obj` finds the first entry with the key; without one it returns null at the end,
-- and faults if the entries fill the array.
find_key_lem :
    (map : List ObjMap) (max : ℕ) (es : List ObjMap) (key fuel i : ℕ)
    → length map ≡ max
    → Rest map max i es
    → length es < fuel
    → find_key map max key fuel i
      ≡ (if (i + length es == max) && (lookup es key == 0) then none else some (lookup es key))
find_key_lem map max es key zero i s r k = absurd (omega (arith, k))
find_key_lem map max [] key (suc fuel) i s (inl e) k = ground (arith, s, e, get_elem?-none map i)
find_key_lem map max [] key (suc fuel) i s (inr (e, at, free)) k =
    ground (arith, s, at, free, get_elem?-lt map i at)
find_key_lem map max (e ∷ es) key (suc fuel) i s (at, live, r) k = ground (
  arith,
  s,
  at,
  live,
  get_elem?-lt map i at,
  find_key_lem map max es key fuel (i + 1) s r (omega (arith, k)),
)

Rest-length :
    (map : List ObjMap) (max : ℕ) (es : List ObjMap) (i : ℕ)
    → length map ≡ max
    → Rest map max i es
    → i + length es ≤ max
Rest-length map max [] i s (inl e) = omega (arith, e)
Rest-length map max [] i s (inr (e, at, free)) = omega (arith, s, get_elem?-lt map i at)
Rest-length map max (e ∷ es) i s (at, live, r) = omega (arith, Rest-length map max es (i + 1) s r)

-- One more entry after the others.
Rest-append_one :
    (map map' : List ObjMap) (max p : ℕ) (es : List ObjMap) (e : ObjMap) (i : ℕ)
    → ((j : ℕ) → j < p → get_elem? map' j ≡ get_elem? map j)
    → get_elem? map' p ≡ some e
    → e.obj ≢ 0
    → IsEnd map' max (p + 1)
    → i + length es ≡ p
    → Rest map max i es
    → Rest map' max i (es ++ (e ∷ []))
Rest-append_one map map' max p [] e i same at live end h r =
    let here : i ≡ p = omega (arith, h) in
    (
      subst (λ k. get_elem? map' k ≡ some e) (sym here) at,
      live,
      subst (λ k. IsEnd map' max (k + 1)) (sym here) end,
    )
Rest-append_one map map' max p (x ∷ es) e i same at live end h (at', live', r) = (
  same i (omega (arith, h)) ∙ at',
  live',
  Rest-append_one map map' max p es e (i + 1) same at live end (omega (arith, h)) r,
)

module _ (map : List ObjMap) (max : ℕ) (es : List ObjMap) (r : Registered map max es) where
  -- get_obj returns the object of the first entry with the key, or null without one, but reads
  -- past the array when no entry has the key and the entries fill it.
  pub get_obj_lem :
      (key : ℕ)
      → get_obj map max key
        ≡ (if (length es == max) && (lookup es key == 0) then none else some (lookup es key))
  unfolding get_obj
  get_obj_lem key =
      let fits = Rest-length map max es 0 r.storage r.rest in
      ground (arith, find_key_lem map max es key (suc max) 0 r.storage r.rest (omega (arith, fits)))

  -- register_obj of an object that is not null, in a registry with room, adds its entry after the
  -- others and returns the next position, or its own position if it took the last cell.
  pub register_obj_lem :
      (key obj : ℕ)
      → obj ≢ 0
      → length es < max
      → (map' : List ObjMap) × (register_obj map max key obj
          ≡ some (registered (if length es + 1 == max then length es else length es + 1), map'))
        × Registered map' max (es ++ (record { key = key; obj = obj } ∷ []))
  unfolding register_obj
  register_obj_lem key obj live lt =
      let new : ObjMap = record { key = key; obj = obj } in
      let n = length es in
      let map1 = set map n new in
      let inside : n < length map = omega (arith, lt, r.storage) in
      let found = find_free_lem map max es (suc max) 0 r.storage r.rest (omega (arith, lt)) in
      let stored = store_lem map n new inside in
      let len1 = length-set map n new in
      let at1 = get_elem?-set_self map n new inside in
      elim (Bool-cases (n + 1 == max)) [
        | inl last ↦ (
          map1,
          ground (arith, last, lt, found, stored),
          record {
            storage = len1 ∙ r.storage;
            rest =
                Rest-append_one map map1 max n es new 0
                  (λ j k. get_elem?-set_ne map n j new (λ e. omega (arith, e, k))) at1 live
                  (inl (ground (arith, last))) (omega arith) r.rest;
          },
        )
        | inr more ↦
            let inside1 : n + 1 < length map1 = ground (arith, len1, r.storage, lt, more) in
            let (e, at) = get_elem?-some map1 (n + 1) inside1 in
            let null : ObjMap = record e { obj = 0 } in
            let map2 = set map1 (n + 1) null in
            let stored1 = store_lem map1 (n + 1) null inside1 in
            (
              map2,
              ground (arith, more, lt, found, stored, at, stored1),
              record {
                storage = length-set map1 (n + 1) null ∙ len1 ∙ r.storage;
                rest =
                    Rest-append_one map map2 max n es new 0
                      (λ j k.
                        get_elem?-set_ne map1 (n + 1) j null (λ e. omega (arith, e, k))
                        ∙ get_elem?-set_ne map n j new (λ e. omega (arith, e, k)))
                      (get_elem?-set_ne map1 (n + 1) n null (λ e. omega (arith, e)) ∙ at1) live
                      (inr (null, get_elem?-set_self map1 (n + 1) null inside1, refl)) (omega arith)
                      r.rest;
              },
            )
      ]

  -- `register_obj` of a full array reads past it: it never returns that there is no room.
  pub register_obj_full : (key obj : ℕ) → length es ≡ max → register_obj map max key obj ≡ none
  unfolding register_obj
  register_obj_full key obj e =
      ground (arith, e, find_free_lem map max es (suc max) 0 r.storage r.rest (omega (arith, e)))

-- The constructor's array holds no entries, whatever it found there.
pub new_registry_lem :
    (found : List ObjMap) (max : ℕ)
    → length found ≡ max
    → 0 < max
    → (map : List ObjMap) × (new_registry found ≡ some map) × Registered map max []
new_registry_lem found max s pos =
    let (e, at) = get_elem?-some found 0 (omega (arith, s, pos)) in
    let null : ObjMap = record e { obj = 0 } in
    (
      set found 0 null,
      ground (arith, at, store_lem found 0 null (omega (arith, s, pos))),
      record {
        storage = length-set found 0 null ∙ s;
        rest = inr (null, get_elem?-set_self found 0 null (omega (arith, s, pos)), refl);
      },
    )

module _ {R : Type 0} (invoke : ℕ → ℕ → R) (unknown_obj : R) where
  -- A command goes to the object of the first entry with its key, and a key without an entry is
  -- answered with the error, while the array has a free cell.
  pub dispatch_lem :
      (map : List ObjMap) (max : ℕ) (es : List ObjMap) (key op : ℕ)
      → Registered map max es
      → length es < max
      → dispatch invoke unknown_obj map max key op
        ≡ some (if lookup es key == 0 then unknown_obj else invoke (lookup es key) op)
  unfolding dispatch
  dispatch_lem map max es key op r lt = ground (arith, lt, get_obj_lem map max es r key)
