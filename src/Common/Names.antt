-- ===== src/Common/Names.antt =====
-- Strings as lists of bytes, and maps from them as association lists.
use Prim.Native.Nat.{ℕ}
use mathlib.Core.Path.{◌≡◌, refl, ap₂}
use mathlib.Core.Bool.{Bool, true, false, ◌&&◌}
use mathlib.Core.List.{List, [], ◌∷◌}
use mathlib.Core.Option.{Option, none, some}
use native.Mathlib.Omega.{arith}
use sylar_demo.Common.Tests.{◌==◌, if◌then◌else◌, eq→==}

abbrev pub same : List ℕ → List ℕ → Bool
same [] [] = true
same [] (y ∷ ys) = false
same (x ∷ xs) [] = false
same (x ∷ xs) (y ∷ ys) = (x == y) && same xs ys

pub same_lem : (xs ys : List ℕ) → same xs ys ≡ true → xs ≡ ys
same_lem [] [] h = refl
same_lem [] (y ∷ ys) h = absurd (ground (arith, h))
same_lem (x ∷ xs) [] h = absurd (ground (arith, h))
same_lem (x ∷ xs) (y ∷ ys) h =
    let head : x ≡ y = ground (arith, h) in ap₂ ◌∷◌ head (same_lem xs ys (ground (arith, h)))

pub same_refl : (s : List ℕ) → same s s ≡ true
same_refl [] = refl
same_refl (x ∷ xs) = rw (eq→== x x refl) (same_refl xs)

-- What a map has for a name.
abbrev pub find {ℓ} : {A : Type ℓ} → List ℕ → List (List ℕ × A) → Option A
find name [] = none
find name ((n, a) ∷ rest) = if same n name then some a else find name rest
