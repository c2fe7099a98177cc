-- ===== src/BufCodec/Bytes.antt =====
-- The bytes of an integer in memory, as CtrlrFx/BufCodec.h sees them through `byte*`.
use mathlib.Core.List.{reverse, reverse-reverse, reverse-cons}
use native.Mathlib.Nat.{pow-suc}
use ctrlr_fx.Prelude.{
  ℕ, zero, suc, ◌+◌, ◌*◌, ◌/◌, ◌%◌, ◌^◌, ◌<◌, ◌≡◌, refl, ◌∙◌, ap, List, [], ◌∷◌, Bool, true, false,
  not, length, length-append, arith,
}

-- The `n` bytes of `v`, the least significant first.
unfoldable pub bytes_le : ℕ → ℕ → List ℕ
bytes_le zero v = []
bytes_le (suc n) v = v % 256 ∷ bytes_le n (v / 256)

pub value_le : List ℕ → ℕ
value_le [] = 0
value_le (b ∷ bs) = b + 256 * value_le bs

-- The bytes from the lowest address on, on a host of the given order.
unfoldable pub host_bytes : Bool → ℕ → ℕ → List ℕ
unfolding bytes_le
host_bytes false n v = bytes_le n v
host_bytes true n v = reverse (bytes_le n v)

unfoldable pub host_value : Bool → List ℕ → ℕ
unfolding value_le
host_value false bs = value_le bs
host_value true bs = value_le (reverse bs)

length-bytes_le : (n v : ℕ) → length (bytes_le n v) ≡ n
unfolding bytes_le
length-bytes_le zero v = refl
length-bytes_le (suc n) v = ap suc (length-bytes_le n (v / 256))

length-reverse : (xs : List ℕ) → length (reverse xs) ≡ length xs
length-reverse [] = refl
length-reverse (x ∷ xs) =
    omega
      (arith, ap length (reverse-cons x xs), length-append (reverse xs) (x ∷ []), length-reverse xs)

pub length-host_bytes : (big : Bool) (n v : ℕ) → length (host_bytes big n v) ≡ n
unfolding host_bytes
length-host_bytes false n v = length-bytes_le n v
length-host_bytes true n v = length-reverse (bytes_le n v) ∙ length-bytes_le n v

value_le-bytes_le : (n v : ℕ) → v < 256 ^ n → value_le (bytes_le n v) ≡ v
unfolding value_le bytes_le
value_le-bytes_le zero v h = omega arith
value_le-bytes_le (suc n) v h = omega (arith, value_le-bytes_le n (v / 256) smaller)
  where
    bound : v < 256 ^ n * 256
    bound = rw pow-suc at h

    smaller : v / 256 < 256 ^ n
    smaller = omega (arith, bound)

-- A value is read back from its own bytes, on either kind of host.
pub host_value-host_bytes :
    (big : Bool) (n v : ℕ) → v < 256 ^ n → host_value big (host_bytes big n v) ≡ v
unfolding host_value host_bytes
host_value-host_bytes false n v h = value_le-bytes_le n v h
host_value-host_bytes true n v h = rw reverse-reverse (value_le-bytes_le n v h)

-- Reversed, the bytes of one kind of host are those of the other.
pub reverse-host_bytes :
    (big : Bool) (n v : ℕ) → reverse (host_bytes big n v) ≡ host_bytes (not big) n v
unfolding host_bytes
reverse-host_bytes false n v = refl
reverse-host_bytes true n v = reverse-reverse (bytes_le n v)
