-- ===== src/SwapBytes.antt =====
-- CtrlrFx/swap.h: the bytes of a value put in the opposite order, in place. A value is the list of
-- its bytes in memory; an access outside it is `none`.
pub mod Reverse
use ctrlr_fx.Prelude.{
  ℕ, zero, suc, ◌+◌, ◌-◌, ◌/◌, List, Option, none, some, ◌>>=◌, ltb, if◌then◌else◌, length,
}
use ctrlr_fx.Memory.{load, store}

-- The loop of `swap_bytes`, with the rounds left, from `i`.
pub swap_loop : ℕ → ℕ → List ℕ → Option (List ℕ)
swap_loop zero i pv = some pv
swap_loop (suc rounds) i pv = do
  tmp ← load pv i
  x ← load pv (length pv - 1 - i)
  pv1 ← store pv i x
  pv2 ← store pv1 (length pv - 1 - i) tmp
  swap_loop rounds (i + 1) pv2

unfoldable pub swap_bytes : List ℕ → Option (List ℕ)
unfolding swap_loop
swap_bytes pv = if ltb 1 (length pv) then swap_loop (length pv / 2) 0 pv else some pv

-- The specialisation for two bytes.
pub swap_bytes_uint16 : List ℕ → Option (List ℕ)
swap_bytes_uint16 pv = do tmp ← load pv 0; x ← load pv 1; pv1 ← store pv 0 x; store pv1 1 tmp
