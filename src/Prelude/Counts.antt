-- ===== src/Prelude/Counts.antt =====
-- How often a number stands in a list.
use Prim.Native.Nat.{ℕ, suc, ◌+◌, ◌≤◌, ◌<◌}
use mathlib.Core.Path.{◌≡◌}
use mathlib.Core.List.{List, [], ◌∷◌, ◌++◌}
use native.Mathlib.Omega.{arith}
use ctrlr_fx.Prelude.Lists.{length}
use ctrlr_fx.Prelude.Tests.{◌==◌, if◌then◌else◌}

unfoldable pub count : ℕ → List ℕ → ℕ
count h [] = 0
count h (k ∷ ks) = if k == h then suc (count h ks) else count h ks

unfoldable pub remove : ℕ → List ℕ → List ℕ
remove h [] = []
remove h (k ∷ ks) = if k == h then ks else k ∷ remove h ks

pub count-remove :
    (h k : ℕ) (hs : List ℕ)
    → 0 < count k hs
    → count h (remove k hs) + (if k == h then 1 else 0) ≡ count h hs
unfolding count remove
count-remove h k [] p = absurd (omega arith)
count-remove h k (j ∷ hs) p = ground (arith, count-remove h k hs)

pub count-append : (h : ℕ) (xs ys : List ℕ) → count h (xs ++ ys) ≡ count h xs + count h ys
unfolding count
count-append h [] ys = omega arith
count-append h (x ∷ xs) ys = ground (arith, count-append h xs ys)

pub length-remove : (k : ℕ) (hs : List ℕ) → 0 < count k hs → suc (length (remove k hs)) ≡ length hs
unfolding count remove
length-remove k [] p = absurd (omega arith)
length-remove k (j ∷ hs) p = ground (arith, length-remove k hs)

pub count-le-length : (k : ℕ) (hs : List ℕ) → count k hs ≤ length hs
unfolding count
count-le-length k [] = omega arith
count-le-length k (j ∷ hs) = ground (arith, count-le-length k hs)
