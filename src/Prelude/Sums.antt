-- ===== src/Prelude/Sums.antt =====
-- Sums over lists of native numbers.
use Prim.Native.Nat.{ℕ, ◌+◌, min, max}
use mathlib.Core.Option.{Option, none, some}
use mathlib.Core.Path.{◌≡◌}
use mathlib.Core.List.{List, [], ◌∷◌, ◌++◌}
use native.Mathlib.Omega.{arith}

abbrev pub sum : List ℕ → ℕ
sum [] = 0
sum (x ∷ xs) = x + sum xs

pub sum-append : (xs ys : List ℕ) → sum (xs ++ ys) ≡ sum xs + sum ys
sum-append [] ys = omega arith
sum-append (x ∷ xs) ys = omega (arith, sum-append xs ys)

-- Python's `max` with the default 0, and `min` of a list that may be empty.
unfoldable pub max_of : List ℕ → ℕ
max_of [] = 0
max_of (n ∷ ns) = max n (max_of ns)

unfoldable pub min_of : List ℕ → Option ℕ
min_of [] = none
min_of (n ∷ ns) = some (elim (min_of ns) [ none ↦ n | some m ↦ min n m ])
