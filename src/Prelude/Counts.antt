-- ===== src/Prelude/Counts.antt =====
-- How often a number stands in a list, and the numbers from one on.
use Prim.Native.Nat.{ℕ, zero, suc, ◌+◌}
use mathlib.Core.Path.{◌≡◌}
use mathlib.Core.List.{List, [], ◌∷◌, ◌++◌}
use native.Mathlib.Omega.{arith}
use dee.Prelude.Tests.{ltb, ◌==◌, if◌then◌else◌}

abbrev pub indicator : ℕ → ℕ → ℕ
indicator s t = if s == t then 1 else 0

unfoldable pub count : ℕ → List ℕ → ℕ
count s [] = 0
count s (t ∷ ts) = indicator s t + count s ts

abbrev pub in_range : ℕ → ℕ → ℕ
in_range n s = if ltb s n then 1 else 0

-- `i`, `i + 1`, … : `n` numbers.
unfoldable pub range_from : ℕ → ℕ → List ℕ
range_from zero i = []
range_from (suc n) i = i ∷ range_from n (suc i)

pub count-range_from :
    (n i s : ℕ) → count s (range_from n i) ≡ (if ltb s i then 0 else in_range (i + n) s)
unfolding count range_from
count-range_from zero i s = ground arith
count-range_from (suc n) i s = ground (arith, count-range_from n (suc i) s)

pub count-append : (s : ℕ) (xs ys : List ℕ) → count s (xs ++ ys) ≡ count s xs + count s ys
unfolding count
count-append s [] ys = omega arith
count-append s (x ∷ xs) ys = ground (arith, count-append s xs ys)
