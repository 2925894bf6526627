-- ===== src/Prelude/Count.antt =====
-- How often a number stands in a list: the multiset view of pools and rings.
use Prim.Native.Nat.{ℕ, ◌+◌}
use mathlib.Core.Path.{◌≡◌}
use mathlib.Core.List.{List, [], ◌∷◌, ◌++◌}
use native.Mathlib.Omega.{arith}
use go_afxdp.Prelude.Tests.{◌==◌, if◌then◌else◌}
use go_afxdp.Prelude.Lists.{take, drop, take-append-drop}

unfoldable pub count : ℕ → List ℕ → ℕ
count a [] = 0
count a (x ∷ xs) = (if x == a then 1 else 0) + count a xs

pub count-append : (a : ℕ) (xs ys : List ℕ) → count a (xs ++ ys) ≡ count a xs + count a ys
unfolding count
count-append a [] ys = omega arith
count-append a (x ∷ xs) ys = omega (arith, count-append a xs ys)

pub count-take-drop :
    (a n : ℕ) (xs : List ℕ) → count a (take n xs) + count a (drop n xs) ≡ count a xs
count-take-drop a n xs = rw (← count-append a (take n xs) (drop n xs), take-append-drop n xs)

pub count-one : (a x : ℕ) → count a (x ∷ []) ≡ (if x == a then 1 else 0)
unfolding count
count-one a x = omega arith

pub count-cons : (a x : ℕ) (xs : List ℕ) → count a (x ∷ xs) ≡ count a (x ∷ []) + count a xs
unfolding count
count-cons a x xs = omega arith
