-- ===== src/Prelude/Words.antt =====
-- Arithmetic on `size_t` (64 bits) and on `int` (32 bits, two's complement), with the wrap-around
-- written out. A word is the natural number below 2 ^ 64 (or 2 ^ 32) that its bits stand for.
use Prim.Native.Nat.{ℕ, ◌+◌, ◌-◌, ◌%◌, ◌^◌, ◌≤◌, ◌<◌}
use mathlib.Core.Path.{◌≡◌}
use native.Mathlib.Omega.{arith}
use ctrlr_fx.Prelude.Tests.{ltb, if◌then◌else◌}

-- `size_t` addition and subtraction.
abbrev pub add_size : ℕ → ℕ → ℕ
add_size a b = (a + b) % 2 ^ 64

abbrev pub sub_size : ℕ → ℕ → ℕ
sub_size a b = (a + 2 ^ 64 - b) % 2 ^ 64

-- The conversion of a 64-bit difference to `int` keeps its low 32 bits.
abbrev pub low32 : ℕ → ℕ
low32 x = x % 2 ^ 32

-- The conversion of an `int` to `size_t` extends its sign.
abbrev pub sign_extend : ℕ → ℕ
sign_extend x = if ltb x (2 ^ 31) then x else x + 2 ^ 64 - 2 ^ 32

pub sub_size_lem : (a b : ℕ) → b ≤ a → a < 2 ^ 64 → sub_size a b ≡ a - b
sub_size_lem a b h k = omega arith
