-- ===== src/Timer/Order.antt =====
-- The order of `Timer::Comparator` (sylar/timer.cpp), and the set that is kept in it.
use mathlib.Core.Option
use sylar_demo.Common.{
  ℕ, ◌<◌, ◌≤◌, ◌≡◌, ◌≢◌, refl, sym, ap, ◌∙◌, ◌⊎◌, inl, inr, Bool, true, false, not, ◌&&◌, ◌||◌,
  List, [], ◌∷◌, none, some, arith, All, All-map, ◌==◌, if◌then◌else◌, Bool-cases,
}
use sylar_demo.Timer.{Timer, comparator, before, insert, find_erase, update}

-- By time, and at the same time by address.
abbrev pub Earlier : (ℕ → Timer) → ℕ → ℕ → Type 0
Earlier heap a b = ((heap a).next < (heap b).next) ⊎ (((heap a).next ≡ (heap b).next) × (a < b))

pub before-Earlier : (heap : ℕ → Timer) (a b : ℕ) → before heap a b ≡ true → Earlier heap a b
unfolding comparator
before-Earlier heap a b h = ground arith

pub Earlier-before : (heap : ℕ → Timer) (a b : ℕ) → Earlier heap a b → before heap a b ≡ true
unfolding comparator
Earlier-before heap a b h = ground arith

pub not_before_le :
    (heap : ℕ → Timer) (a b : ℕ) → before heap a b ≡ false → (heap b).next ≤ (heap a).next
unfolding comparator
not_before_le heap a b h = ground arith

pub neither :
    (heap : ℕ → Timer) (a b : ℕ) → before heap a b ≡ false → before heap b a ≡ false → a ≡ b
unfolding comparator
neither heap a b h k = ground arith

pub not_both : (heap : ℕ → Timer) (a b : ℕ) → Earlier heap a b → before heap b a ≡ false
unfolding comparator
not_both heap a b h = ground arith

pub not_equal : (heap : ℕ → Timer) (a b : ℕ) → Earlier heap a b → a ≢ b
not_equal heap a b h = ground arith

pub Earlier-trans :
    (heap : ℕ → Timer) (a b c : ℕ) → Earlier heap a b → Earlier heap b c → Earlier heap a c
Earlier-trans heap a b c h k = ground arith

-- What the set keeps true of its list.
abbrev pub Sorted : (ℕ → Timer) → List ℕ → Type 0
Sorted heap [] = Unit {0}
Sorted heap (x ∷ xs) = All (λ y. Earlier heap x y) xs × Sorted heap xs

abbrev pub holds : ℕ → List ℕ → Bool
holds x [] = false
holds x (y ∷ ys) = (y == x) || holds x ys

abbrev pub without : ℕ → List ℕ → List ℕ
without x [] = []
without x (y ∷ ys) = if y == x then without x ys else y ∷ without x ys

module _ (heap : ℕ → Timer) where
  insert-All : (P : ℕ → Type 0) (x : ℕ) (l : List ℕ) → All P l → P x → All P (insert heap x l)
  unfolding insert
  insert-All P x [] h p = (p, tt)
  insert-All P x (y ∷ ys) h p = elim (Bool-cases (before heap y x)) [
    | inl e ↦ rw e (h.0, insert-All P x ys h.1 p)
    | inr e ↦ rw e (elim (Bool-cases (before heap x y)) [ inl f ↦ rw f (p, h) | inr f ↦ rw f h ])
  ]

  pub insert-Sorted : (x : ℕ) (l : List ℕ) → Sorted heap l → Sorted heap (insert heap x l)
  unfolding insert
  insert-Sorted x [] s = (tt, tt)
  insert-Sorted x (y ∷ ys) s = elim (Bool-cases (before heap y x)) [
    | inl e ↦
        rw e
          (insert-All (Earlier heap y) x ys s.0 (before-Earlier heap y x e), insert-Sorted x ys s.1)
    | inr e ↦ rw e (elim (Bool-cases (before heap x y)) [
      | inl f ↦
          let first = before-Earlier heap x y f in
          rw f ((first, All-map _ _ ys (λ z. Earlier-trans heap x y z first) s.0), s)
      | inr f ↦ rw f s
    ])
  ]

  pub holds-insert : (a x : ℕ) (l : List ℕ) → holds a (insert heap x l) ≡ (x == a) || holds a l
  unfolding insert
  holds-insert a x [] = refl
  holds-insert a x (y ∷ ys) = elim (Bool-cases (before heap y x)) [
    | inl e ↦ rw (e, holds-insert a x ys) (swap_or (y == a) (x == a) (holds a ys))
    | inr e ↦ rw e (elim (Bool-cases (before heap x y)) [
      | inl f ↦ rw f refl
      | inr f ↦ rw (f, neither heap x y f e) (same_or (y == a) (holds a ys))
    ])
  ]
    where
      swap_or : (p q r : Bool) → (p || (q || r)) ≡ (q || (p || r))
      swap_or true true r = refl
      swap_or true false r = refl
      swap_or false q r = refl

      same_or : (p r : Bool) → (p || r) ≡ (p || (p || r))
      same_or true r = refl
      same_or false r = refl

  -- What is earlier than a whole list is not in it.
  pub first_not_held :
      (x : ℕ) (l : List ℕ) → All (λ y. Earlier heap x y) l → (holds x l ≡ false) × (without x l ≡ l)
  first_not_held x [] h = (refl, refl)
  first_not_held x (y ∷ ys) h =
      let e : (y == x) ≡ false = ground (arith, h.0) in
      let later = first_not_held x ys h.1 in rw (e, later.0, later.1) (refl, refl)

  -- In a sorted set, `find` finds what the set holds, and `erase` takes out that alone.
  pub find_erase_lem :
      (x : ℕ) (l : List ℕ)
      → Sorted heap l
      → find_erase heap x l ≡ (if holds x l then some (without x l) else none)
  unfolding find_erase
  find_erase_lem x [] s = refl
  find_erase_lem x (y ∷ ys) s = elim (Bool-cases (before heap y x)) [
    | inl e ↦
        let other : (y == x) ≡ false = ground (arith, before-Earlier heap y x e) in
        rw (e, other, find_erase_lem x ys s.1) (under (holds x ys) y (without x ys))
    | inr e ↦ rw e (elim (Bool-cases (before heap x y)) [
      | inl f ↦
          let first = before-Earlier heap x y f in
          let later =
            first_not_held x ys (All-map _ _ ys (λ z. Earlier-trans heap x y z first) s.0) in
          let other : (y == x) ≡ false = ground (arith, first) in rw (f, other, later.0) refl
      | inr f ↦
          let it : (y == x) ≡ true = ground (arith, neither heap x y f e) in
          let later = first_not_held y ys s.0 in
          rw (f, it) (ap some (sym (ap (λ k. without k ys) (neither heap x y f e) ∙ later.1)))
    ])
  ]
    where
      under :
          (b : Bool) (y : ℕ) (l : List ℕ)
          → Option.map (λ k. y ∷ k) (if b then some l else none)
            ≡ (if b then some (y ∷ l) else none)
      under true y l = refl
      under false y l = refl

  pub without-All : (P : ℕ → Type 0) (x : ℕ) (l : List ℕ) → All P l → All P (without x l)
  without-All P x [] h = tt
  without-All P x (y ∷ ys) h = elim (Bool-cases (y == x)) [
    | inl e ↦ rw e (without-All P x ys h.1)
    | inr e ↦ rw e (h.0, without-All P x ys h.1)
  ]

  pub without-Sorted : (x : ℕ) (l : List ℕ) → Sorted heap l → Sorted heap (without x l)
  without-Sorted x [] s = tt
  without-Sorted x (y ∷ ys) s = elim (Bool-cases (y == x)) [
    | inl e ↦ rw e (without-Sorted x ys s.1)
    | inr e ↦ rw e (without-All _ x ys s.0, without-Sorted x ys s.1)
  ]

pub holds-without : (a x : ℕ) (l : List ℕ) → holds a (without x l) ≡ not (x == a) && holds a l
holds-without a x [] = elim (x == a) as (λ b. false ≡ not b && false) [ true ↦ refl | false ↦ refl ]
holds-without a x (y ∷ ys) =
    let later = holds-without a x ys in
    elim (Bool-cases (x == a)) [
      | inl f ↦ elim (Bool-cases (y == x)) [
        | inl e ↦ rw (e, later, f) refl
        | inr e ↦ let g : (y == a) ≡ false = ground (arith, e, f) in rw (e, g, later, f) refl
      ]
      | inr f ↦ elim (Bool-cases (y == x)) [
        | inl e ↦ let g : (y == a) ≡ false = ground (arith, e, f) in rw (e, g, later, f) refl
        | inr e ↦ rw (e, later, f) refl
      ]
    ]

-- A store to an object that is not in the set leaves the order alone.
pub Sorted-same :
    (heap heap' : ℕ → Timer) (l : List ℕ)
    → All (λ a. (heap' a).next ≡ (heap a).next) l
    → Sorted heap l
    → Sorted heap' l
Sorted-same heap heap' [] h s = tt
Sorted-same heap heap' (x ∷ xs) h s = (All-earlier xs h.1 s.0, Sorted-same heap heap' xs h.1 s.1)
  where
    All-earlier :
        (ys : List ℕ)
        → All (λ a. (heap' a).next ≡ (heap a).next) ys
        → All (λ y. Earlier heap x y) ys
        → All (λ y. Earlier heap' x y) ys
    All-earlier [] k p = tt
    All-earlier (y ∷ ys) k p = (ground (arith, k.0, p.0, h.0), All-earlier ys k.1 p.1)

pub update_other :
    (x : ℕ) (t : Timer) (heap : ℕ → Timer) (l : List ℕ)
    → holds x l ≡ false
    → All (λ a. update x t heap a ≡ heap a) l
unfolding update
update_other x t heap [] h = tt
update_other x t heap (y ∷ ys) h = elim (Bool-cases (y == x)) [
  | inl e ↦ absurd (ground (arith, rw e at h))
  | inr e ↦ (rw e refl, update_other x t heap ys (rw e at h))
]
