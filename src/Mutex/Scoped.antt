-- ===== src/Mutex/Scoped.antt =====
-- The calls that a scoped lock (sylar/mutex.h) makes of its mutex.
use sylar_demo.Common.{
  ℕ, zero, suc, ◌≡◌, refl, sym, ap, ◌∙◌, ◌⊎◌, inl, inr, Bool, true, false, List, [], ◌∷◌, ◌++◌,
  if◌then◌else◌, ◌≢◌, arith, Bool-cases,
}
use mathlib.Core.List.{append_assoc}
use mathlib.Core.Path.{subst}
use sylar_demo.Mutex.{
  MutexCall, acquire, unlock, ScopedLock, new_lock, scoped_lock, scoped_unlock, end_lock,
}

-- The uses of a scoped lock: a call of `lock` is true, one of `unlock` false.
abbrev pub use_lock : List Bool → ScopedLock → ScopedLock
use_lock [] l = l
use_lock (true ∷ rest) l = use_lock rest (scoped_lock l)
use_lock (false ∷ rest) l = use_lock rest (scoped_unlock l)

-- Pairs of a call that takes the mutex and one that gives it back.
abbrev pub pairs : ℕ → List MutexCall
pairs zero = []
pairs (suc n) = acquire ∷ unlock ∷ pairs n

-- The mutex is held just if the lock says so, and otherwise has been taken and given back in turn.
abbrev IsBalanced : ScopedLock → Type 0
IsBalanced l =
    ((l.locked ≡ true) × ((n : ℕ) × (l.calls ≡ pairs n ++ (acquire ∷ []))))
    ⊎ ((l.locked ≡ false) × ((n : ℕ) × (l.calls ≡ pairs n)))

pairs-suc : (n : ℕ) → pairs n ++ (acquire ∷ unlock ∷ []) ≡ pairs (suc n)
pairs-suc zero = refl
pairs-suc (suc n) = ap (λ l. acquire ∷ unlock ∷ l) (pairs-suc n)

lock-IsBalanced : (l : ScopedLock) → IsBalanced l → IsBalanced (scoped_lock l)
unfolding scoped_lock
lock-IsBalanced l h = elim h [
  | inl (b, held) ↦ subst IsBalanced (sym (branch b)) (inl (b, held))
  | inr (b, (n, c)) ↦
      subst IsBalanced (sym (branch b)) (inl (refl, (n, ap (λ x. x ++ (acquire ∷ [])) c)))
]
  where
    taken : ScopedLock
    taken = record { locked = true; calls = l.calls ++ (acquire ∷ []) }

    branch : {b : Bool} → l.locked ≡ b → scoped_lock l ≡ (if b then l else taken)
    branch e = ap (λ t. if t then l else taken) e

unlock-IsBalanced : (l : ScopedLock) → IsBalanced l → IsBalanced (scoped_unlock l)
unfolding scoped_unlock
unlock-IsBalanced l h = elim h [
  | inr (b, free) ↦ subst IsBalanced (sym (branch b)) (inr (b, free))
  | inl (b, (n, c)) ↦ subst IsBalanced (sym (branch b)) (
      inr (
        refl,
        (
          suc n,
          ap (λ x. x ++ (unlock ∷ [])) c
              ∙ append_assoc (pairs n) (acquire ∷ []) (unlock ∷ [])
              ∙ pairs-suc n,
        ),
      ))
]
  where
    given : ScopedLock
    given = record { locked = false; calls = l.calls ++ (unlock ∷ []) }

    branch : {b : Bool} → l.locked ≡ b → scoped_unlock l ≡ (if b then given else l)
    branch e = ap (λ t. if t then given else l) e

use_lock-IsBalanced :
    (uses : List Bool) (l : ScopedLock) → IsBalanced l → IsBalanced (use_lock uses l)
use_lock-IsBalanced [] l h = h
use_lock-IsBalanced (true ∷ rest) l h =
    use_lock-IsBalanced rest (scoped_lock l) (lock-IsBalanced l h)
use_lock-IsBalanced (false ∷ rest) l h =
    use_lock-IsBalanced rest (scoped_unlock l) (unlock-IsBalanced l h)

two_answers : true ≢ false
two_answers e = ground (arith, e)

freed : (l : ScopedLock) → (scoped_unlock l).locked ≡ false
unfolding scoped_unlock
freed l = elim (Bool-cases l.locked) [
  | inl b ↦ ap (λ t. (if t then given else l).locked) b
  | inr b ↦ ap (λ t. (if t then given else l).locked) b ∙ b
]
  where
    given : ScopedLock
    given = record { locked = false; calls = l.calls ++ (unlock ∷ []) }

end_at : (l : ScopedLock) → IsBalanced l → (n : ℕ) × ((end_lock l).calls ≡ pairs n)
unfolding end_lock scoped_unlock
end_at l h = elim (unlock-IsBalanced l h) [
  | inr (b, free) ↦ free
  | inl (b, held) ↦ absurd (two_answers (sym b ∙ freed l))
]

-- Whatever calls of `lock` and `unlock` are made of a scoped lock between its construction and its
-- destruction, its mutex has then been taken and given back in turn, and is not held.
pub use_lock-end_lock :
    (uses : List Bool) → (n : ℕ) × ((end_lock (use_lock uses new_lock)).calls ≡ pairs n)
unfolding new_lock
use_lock-end_lock uses =
    end_at (use_lock uses new_lock) (use_lock-IsBalanced uses new_lock (inl (refl, (0, refl))))
