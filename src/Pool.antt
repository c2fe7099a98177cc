-- ===== src/Pool.antt =====
-- CtrlrFx/os/generic/CtrlrFx/MemPool.h and CtrlrFx/ObjPool.h: pools of blocks, which are message
-- queues of their addresses. An address is a number, in units of `T`, and 0 is null. `new_array` is
-- `new T[n]` of the queue. A `put` that would wait is `none` in `fill`, which no other thread sees.
pub mod Blocks
pub mod Clients
mod Tests
use ctrlr_fx.Prelude.{
  ℕ, zero, suc, ◌+◌, ◌*◌, List, [], ◌∷◌, Option, none, some, ◌>>=◌, Bool, true, false,
  if◌then◌else◌,
}
use ctrlr_fx.MsgQueue
use ctrlr_fx.MsgQueue.{MsgQueue}

-- The loops of the constructors and of `assign`, with the rounds left, from block `i` on.
unfoldable pub fill : ℕ → ℕ → MsgQueue ℕ → ℕ → ℕ → Option (MsgQueue ℕ)
fill arr sz q i zero = some q
fill arr sz q i (suc rounds) =
    MsgQueue.tryput q (arr + i * sz) >>= λ r. if r.0 then fill arr sz r.1 (i + 1) rounds else none

-- `arr_` and `que_`.
pub record MemPool : Type 0 where
  pub arr : ℕ
  pub que : MsgQueue ℕ

-- A queue without an array.
abbrev pub empty_queue : MsgQueue ℕ
empty_queue = record {
  buf = [];
  cap = 0;
  put_ = 0;
  get_ = 0;
  sz = 0;
  own = false;
  slots = 0;
  items = 0;
}

module _ (new_array : ℕ → List ℕ) where
  -- The message queue that is made with a capacity.
  abbrev pub new_queue : ℕ → MsgQueue ℕ
  new_queue cap = MsgQueue.resize new_array empty_queue cap

  -- `MemPool(n, sz)`, with the address of `new T[n * sz]`.
  unfoldable pub new_pool : ℕ → ℕ → ℕ → Option MemPool
  unfolding fill
  new_pool found n sz =
      fill found sz (new_queue n) 0 n >>= λ q. some (record { arr = found; que = q })

  -- `assign(arr, n, sz, own)` and `MemPool(arr, n, sz, own)`.
  unfoldable pub assign : MemPool → ℕ → ℕ → ℕ → Bool → Option MemPool
  unfolding fill
  assign p arr n sz own =
      let a = (if own then arr else 0) in
      fill a sz p.que 0 n >>= λ q. some (record { arr = a; que = q })

  unfoldable pub new_pool_over : ℕ → ℕ → ℕ → Bool → Option MemPool
  unfolding assign
  new_pool_over arr n sz own = assign (record { arr = 0; que = new_queue n }) arr n sz own

  -- `ObjPool(arr, n)`: one object after the other.
  unfoldable pub obj_pool_over : ℕ → ℕ → Option (MsgQueue ℕ)
  unfolding fill
  obj_pool_over arr n = fill arr 1 (new_queue n) 0 n

-- `ObjPool(n)`, with the addresses of the objects that `new T` gives, in order.
unfoldable pub fill_objects : MsgQueue ℕ → List ℕ → Option (MsgQueue ℕ)
fill_objects q [] = some q
fill_objects q (p ∷ ps) = MsgQueue.tryput q p >>= λ r. if r.0 then fill_objects r.1 ps else none

-- `ObjPool::dealloc` with at most the given number of rounds: what it deletes, in order.
unfoldable pub dealloc : ℕ → MsgQueue ℕ → Bool → Option (List ℕ × MsgQueue ℕ)
dealloc fuel q false = some ([], q)
dealloc zero q true = none
dealloc (suc fuel) q true = MsgQueue.tryget q >>= λ r. elim r.0 [
  | none ↦ some ([], r.1)
  | some p ↦ dealloc fuel r.1 true >>= λ d. some (p ∷ d.0, d.1)
]
