-- ===== src/Common/Heap.antt =====
-- Objects at addresses: a store to one of them.
use Prim.Native.Nat.{ℕ}
use mathlib.Core.Path.{◌≡◌, refl, sym}
use mathlib.Core.Logic.{◌≢◌, ◌⊎◌, inl, inr}
use native.Mathlib.Omega.{arith}
use sylar_demo.Common.Tests.{◌==◌, if◌then◌else◌, eq→==, ne→==_false, Bool-cases}

module _ {ℓ} {A : Type ℓ} where
  pub update : ℕ → A → (ℕ → A) → ℕ → A
  update a x heap b = if a == b then x else heap b

  pub update_same : (a : ℕ) (x : A) (heap : ℕ → A) → update a x heap a ≡ x
  unfolding update
  update_same a x heap = rw (eq→== a a refl) refl

  pub update_other : (a b : ℕ) (x : A) (heap : ℕ → A) → b ≢ a → update a x heap b ≡ heap b
  unfolding update
  update_other a b x heap n = rw (ne→==_false a b (λ e. n (sym e))) refl

-- Two addresses are the same, or not.
pub address-cases : (a b : ℕ) → (a ≡ b) ⊎ (a ≢ b)
address-cases a b = elim (Bool-cases (a == b)) [
  | inl e ↦ inl (ground (arith, e))
  | inr e ↦ inr (λ k. ground (arith, e, k))
]
