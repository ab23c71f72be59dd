-- ===== src/Prelude/Sums.antt =====
-- Sums of lists of numbers.
use Prim.Native.Nat.{ℕ, zero, suc, ◌+◌, ◌≤◌}
use mathlib.Core.Path.{◌≡◌}
use mathlib.Core.List.{List, [], ◌∷◌, ◌++◌}
use mathlib.Core.Option.{some}
use native.Mathlib.Omega.{arith}
use sia_optimization_proposa.Prelude.Lists.{get_elem?, set}

abbrev pub sum : List ℕ → ℕ
sum [] = 0
sum (x ∷ xs) = x + sum xs

pub sum-append : (xs ys : List ℕ) → sum (xs ++ ys) ≡ sum xs + sum ys
sum-append [] ys = omega arith
sum-append (x ∷ xs) ys = omega (arith, sum-append xs ys)

pub sum-set :
    (xs : List ℕ) (i v w : ℕ) → get_elem? xs i ≡ some v → sum (set xs i w) + v ≡ sum xs + w
sum-set [] i v w h = absurd (ground arith)
sum-set (x ∷ xs) zero v w h = ground arith
sum-set (x ∷ xs) (suc i) v w h = omega (arith, sum-set xs i v w h)

pub get_elem?-le-sum : (xs : List ℕ) (i v : ℕ) → get_elem? xs i ≡ some v → v ≤ sum xs
get_elem?-le-sum [] i v h = absurd (ground arith)
get_elem?-le-sum (x ∷ xs) zero v h = ground arith
get_elem?-le-sum (x ∷ xs) (suc i) v h = omega (arith, get_elem?-le-sum xs i v h)
