-- ===== src/Stack.antt =====
-- CtrlrFx/Stack.h: a stack over an array of `cap` cells, `sz` of them in use. An access outside
-- the array is `none`. `T` is `A`, `new T[n]` is the parameter `new_array`, and `delete[]` is not
-- modelled beyond the loss of the memory.
pub mod Laws
pub mod Blocks
mod Tests
use ctrlr_fx.Prelude.{
  ℕ, zero, suc, ◌+◌, ◌-◌, min, List, [], Option, none, some, ◌>>=◌, Bool, true, false, ◌==◌, ltb,
  if◌then◌else◌, add_size, sub_size,
}
use ctrlr_fx.Memory.{load, store}

pub record Stack (A : Type 0) : Type 0 where
  pub buf : List A
  pub sz : ℕ
  pub cap : ℕ
  pub own : Bool

module _ {A : Type 0} where
  abbrev pub full : Stack A → Bool
  full s = s.sz == s.cap

  abbrev pub empty : Stack A → Bool
  empty s = s.sz == 0

  abbrev pub remaining : Stack A → ℕ
  remaining s = sub_size s.cap s.sz

  abbrev pub available : Stack A → ℕ
  available s = s.sz

  -- The three constructors; the third takes `own` and stores `false`.
  pub init_shell : Stack A
  init_shell = record { buf = []; sz = 0; cap = 0; own = false }

  pub init_capacity : (ℕ → List A) → ℕ → Stack A
  init_capacity new_array cap = record { buf = new_array cap; sz = 0; cap = cap; own = true }

  pub init_array : List A → ℕ → Bool → Stack A
  init_array arr cap own = record { buf = arr; sz = 0; cap = cap; own = false }

  pub dealloc : Stack A → Stack A
  dealloc s = if s.own then record s { buf = []; own = false } else s

  -- `set(buf, cap, own)`
  pub set_buffer : Stack A → List A → ℕ → Bool → Stack A
  set_buffer s arr cap own = record (dealloc s) { buf = arr; sz = 0; cap = cap; own = own }

  pub resize : (ℕ → List A) → Stack A → ℕ → Stack A
  resize new_array s cap = set_buffer s (new_array cap) cap true

  -- `base_[sz_++] = v`
  push_cell : Stack A → A → Option (Stack A)
  push_cell s v = do buf ← store s.buf s.sz v; some (record s { buf = buf; sz = add_size s.sz 1 })

  -- `push(v)`
  pub push : Stack A → A → Option (Bool × Stack A)
  unfolding push_cell
  push s v = if full s then some (false, s) else push_cell s v >>= λ s'. some (true, s')

  -- The loop of `push(buf, n)`, with `i` of the rounds done.
  pub push_loop : Stack A → List A → ℕ → ℕ → Option (Stack A)
  unfolding push_cell
  push_loop s src i zero = some s
  push_loop s src i (suc rounds) = do
    v ← load src i
    s' ← push_cell s v
    push_loop s' src (i + 1) rounds

  pub push_n : Stack A → List A → ℕ → Option (ℕ × Stack A)
  push_n s src n = push_loop s src 0 (min n (remaining s)) >>= λ s'. some (min n (remaining s), s')

  -- `base_[--sz_]`
  pop_cell : Stack A → Option (A × Stack A)
  pop_cell s = do v ← load s.buf (sub_size s.sz 1); some (v, record s { sz = sub_size s.sz 1 })

  -- `pop()`, with `T(0)` for an empty stack.
  pub pop_or_zero : A → Stack A → Option (A × Stack A)
  unfolding pop_cell
  pop_or_zero zero_value s = if ltb 0 s.sz then pop_cell s else some (zero_value, s)

  -- `pop(T* p)`: what is written through `p`, `none` for the result `false`.
  pub pop : Stack A → Option (Option A × Stack A)
  unfolding pop_cell
  pop s = if s.sz == 0 then some (none, s) else pop_cell s >>= λ r. some (some r.0, r.1)

  -- The loop of `pop(buf, n)`: `nx` rounds are left, and `buf` points at cell `d`.
  pub pop_loop : Stack A → List A → ℕ → ℕ → Option (List A × Stack A)
  unfolding pop_cell
  pop_loop s out d zero = some (out, s)
  pop_loop s out d (suc nx) = do
    r ← pop_cell s
    out' ← store out d r.0
    pop_loop r.1 out' (d - 1) nx

  -- `buf += n - 1` is the start of the loop; with `n` 0 the pointer is not followed.
  pub pop_n : Stack A → List A → ℕ → Option (ℕ × List A × Stack A)
  pop_n s out count =
      let n = min count (available s) in pop_loop s out (n - 1) n >>= λ r. some (n, r.0, r.1)
