-- ===== src/Prelude/Int.antt =====
-- Signed numbers for `time_t` and `long`, under the library's names over the native numbers. What is
-- proved of them goes through their two parts, which are natural numbers.
use Prim.Native.Nat.{ℕ, suc, ◌+◌, ◌-◌, ◌*◌, ◌%◌, ◌^◌, ◌<◌, ◌≤◌}
use mathlib.Core.Path.{◌≡◌, refl}
use mathlib.Core.Logic.{◌⊎◌, inl, inr}
use mathlib.Core.Bool.{Bool}
use native.Mathlib.Omega.{arith}
use ctrlr_fx.Prelude.Tests.{ltb, leb, if◌then◌else◌}

-- `negsuc n` is -(n + 1).
pub data ℤ : Type 0 where
  pos : ℕ → ℤ
  negsuc : ℕ → ℤ

abbrev pub pos_part : ℤ → ℕ
pos_part (pos n) = n
pos_part (negsuc n) = 0

abbrev pub neg_part : ℤ → ℕ
neg_part (pos n) = 0
neg_part (negsuc n) = suc n

-- The number `a - b`.
abbrev pub difference : ℕ → ℕ → ℤ
difference a b = if leb b a then pos (a - b) else negsuc (b - a - 1)

infixl 65 ◌+ℤ◌ ◌-ℤ◌
unfoldable pub ◌+ℤ◌ : ℤ → ℤ → ℤ
a +ℤ b = difference (pos_part a + pos_part b) (neg_part a + neg_part b)

unfoldable pub ◌-ℤ◌ : ℤ → ℤ → ℤ
a -ℤ b = difference (pos_part a + neg_part b) (neg_part a + pos_part b)

-- A product with a natural number.
unfoldable pub times : ℤ → ℕ → ℤ
times a k = difference (pos_part a * k) (neg_part a * k)

abbrev pub less : ℤ → ℤ → Bool
less a b = ltb (pos_part a + neg_part b) (pos_part b + neg_part a)

pub +ℤ_parts :
    (a b : ℤ)
    → pos_part (a +ℤ b) + (neg_part a + neg_part b) ≡ neg_part (a +ℤ b) + (pos_part a + pos_part b)
unfolding ◌+ℤ◌
+ℤ_parts a b = ground arith

pub -ℤ_parts :
    (a b : ℤ)
    → pos_part (a -ℤ b) + (neg_part a + pos_part b) ≡ neg_part (a -ℤ b) + (pos_part a + neg_part b)
unfolding ◌-ℤ◌
-ℤ_parts a b = ground arith

pub times_parts :
    (a : ℤ) (k : ℕ) → pos_part (times a k) + neg_part a * k ≡ neg_part (times a k) + pos_part a * k
unfolding times
times_parts a k = ground arith

-- At most one part is not 0.
pub one_part : (a : ℤ) → (pos_part a ≡ 0) ⊎ (neg_part a ≡ 0)
one_part (pos n) = inr refl
one_part (negsuc n) = inl refl

pub parts-injective : (a b : ℤ) → pos_part a + neg_part b ≡ pos_part b + neg_part a → a ≡ b
parts-injective a b h = ground arith

-- The conversion of a number to `int` (32 bits, two's complement): of `size_t` and of a signed type.
unfoldable pub to_int : ℕ → ℤ
to_int n = let low = n % 2 ^ 32 in if ltb low (2 ^ 31) then pos low else negsuc (2 ^ 32 - 1 - low)

unfoldable pub narrow : ℤ → ℤ
unfolding to_int
narrow (pos n) = to_int n
narrow (negsuc n) = to_int (2 ^ 32 - 1 - n % 2 ^ 32)

-- A value of a signed type of `w` bits.
abbrev pub IsSigned : ℕ → ℤ → Type 0
IsSigned w a = (pos_part a < 2 ^ (w - 1)) × (neg_part a ≤ 2 ^ (w - 1))

pub to_int_lem : (n : ℕ) → n < 2 ^ 31 → to_int n ≡ pos n
unfolding to_int
to_int_lem n h = ground arith

pub narrow_lem : (a : ℤ) → IsSigned 32 a → narrow a ≡ a
unfolding narrow to_int
narrow_lem (pos n) h = ground arith
narrow_lem (negsuc n) h = ground arith
