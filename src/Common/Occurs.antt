-- ===== src/Common/Occurs.antt =====
-- How often a number is in a list.
use Prim.Native.Nat.{ℕ, ◌+◌}
use mathlib.Core.Path.{◌≡◌}
use mathlib.Core.List.{List, [], ◌∷◌, ◌++◌}
use native.Mathlib.Omega.{arith}
use afriyie_os.Common.Tests.{◌==◌, if◌then◌else◌}

abbrev pub occurs : ℕ → List ℕ → ℕ
occurs t [] = 0
occurs t (x ∷ xs) = let rest = occurs t xs in if x == t then rest + 1 else rest

pub occurs-append :
    (t x : ℕ) (xs : List ℕ) → occurs t (xs ++ (x ∷ [])) ≡ occurs t xs + (if x == t then 1 else 0)
occurs-append t x [] = ground arith
occurs-append t x (y ∷ ys) = ground (arith, occurs-append t x ys)
