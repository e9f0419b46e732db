-- ===== src/Address/Compare.antt =====
-- The order of addresses (sylar/address.cpp): it is the lexicographic one.
use sylar_demo.Common.{
  ℕ, zero, suc, min, ◌≡◌, ◌↔◌, ◌⊎◌, inl, inr, refl, sym, ap, ap₂, ◌∙◌, Bool, true, false, ◌&&◌,
  List, [], ◌∷◌, arith, length, ltb, ◌==◌, if◌then◌else◌, Bool-cases, ltb_false→le, eq→==, lt→ltb,
  le→ltb_false,
}
use sylar_demo.Address.{compare_bytes, is_below, is_same, less, equal}

-- The first byte that differs decides; a list is below the longer ones that begin with it.
abbrev pub lexicographic : List ℕ → List ℕ → Bool
lexicographic a [] = false
lexicographic [] (y ∷ ys) = true
lexicographic (x ∷ xs) (y ∷ ys) =
    let rest = lexicographic xs ys in if ltb x y then true else if ltb y x then false else rest

ltb-suc : (a b : ℕ) → ltb (suc a) (suc b) ≡ ltb a b
ltb-suc a b = ground arith

compare_bytes-lexicographic :
    (n : ℕ) (a b : List ℕ)
    → n ≡ min (length a) (length b)
    → is_below (compare_bytes n a b) (ltb (length a) (length b)) ≡ lexicographic a b
unfolding compare_bytes
compare_bytes-lexicographic zero [] [] e = refl
compare_bytes-lexicographic zero [] (y ∷ ys) e = lt→ltb _ _ (omega arith)
compare_bytes-lexicographic zero (x ∷ xs) [] e = le→ltb_false _ _ (omega arith)
compare_bytes-lexicographic zero (x ∷ xs) (y ∷ ys) e = absurd (omega (arith, e))
compare_bytes-lexicographic (suc n) [] b e = absurd (omega (arith, e))
compare_bytes-lexicographic (suc n) (x ∷ xs) [] e = absurd (omega (arith, e))
compare_bytes-lexicographic (suc n) (x ∷ xs) (y ∷ ys) e = elim (Bool-cases (ltb x y)) [
  | inl h ↦ rw h refl
  | inr h ↦ elim (Bool-cases (ltb y x)) [
    | inl k ↦ rw (h, k) refl
    | inr k ↦
        rw (h, k)
          (ap (is_below (compare_bytes n xs ys)) (ltb-suc (length xs) (length ys))
            ∙ compare_bytes-lexicographic n xs ys (omega (arith, e)))
  ]
]

-- `operator<` is the lexicographic order of the bytes.
pub less-lexicographic : (a b : List ℕ) → less a b ≡ lexicographic a b
unfolding less
less-lexicographic a b = compare_bytes-lexicographic (min (length a) (length b)) a b refl

same_bytes :
    (a b : List ℕ) → length a ≡ length b → is_same (compare_bytes (length a) a b) ≡ true → a ≡ b
unfolding compare_bytes
same_bytes [] [] e h = refl
same_bytes [] (y ∷ ys) e h = absurd (omega (arith, e))
same_bytes (x ∷ xs) [] e h = absurd (omega (arith, e))
same_bytes (x ∷ xs) (y ∷ ys) e h = elim (Bool-cases (ltb x y)) [
  | inl k ↦ absurd (false_true (sym (rw k refl) ∙ h))
  | inr k ↦ elim (Bool-cases (ltb y x)) [
    | inl j ↦ absurd (false_true (sym (rw (k, j) refl) ∙ h))
    | inr j ↦
        ap₂ (λ z zs. z ∷ zs) (omega (arith, ltb_false→le x y k, ltb_false→le y x j))
          (same_bytes xs ys (omega (arith, e)) (sym (rw (k, j) refl) ∙ h))
  ]
]
  where
    false_true : Path Bool false true → ⊥
    false_true p = absurd (ground (arith, p))

same_refl : (a : List ℕ) → is_same (compare_bytes (length a) a a) ≡ true
unfolding compare_bytes
same_refl [] = refl
same_refl (x ∷ xs) = let n : ltb x x ≡ false = le→ltb_false x x (omega arith) in rw n (same_refl xs)

-- `operator==` holds of addresses with the same bytes, and of no others.
pub equal_iff : (a b : List ℕ) → (equal a b ≡ true) ↔ (a ≡ b)
unfolding equal
equal_iff a b = (
  λ h.
      let both = both_true (length a == length b) (is_same (compare_bytes (length a) a b)) h in
      same_bytes a b (==_eq _ _ both.0) both.1,
  λ e.
      ap (λ c. (length a == length c) && is_same (compare_bytes (length a) a c)) (sym e)
      ∙ ap₂ (λ p q. p && q) (eq→== (length a) (length a) refl) (same_refl a),
)
  where
    both_true : (p q : Bool) → (p && q) ≡ true → (p ≡ true) × (q ≡ true)
    both_true true true h = (refl, refl)
    both_true true false h = absurd (ground (arith, h))
    both_true false q h = absurd (ground (arith, h))

    ==_eq : (m n : ℕ) → (m == n) ≡ true → m ≡ n
    ==_eq m n h = ground (arith, h)

-- Of two addresses, one is below the other, or they are equal.
pub less_total : (a b : List ℕ) → (less a b ≡ true) ⊎ ((a ≡ b) ⊎ (less b a ≡ true))
less_total a b = from (total a b)
  where
    total : (a b : List ℕ) → (lexicographic a b ≡ true) ⊎ ((a ≡ b) ⊎ (lexicographic b a ≡ true))
    total [] [] = inr (inl refl)
    total [] (y ∷ ys) = inl refl
    total (x ∷ xs) [] = inr (inr refl)
    total (x ∷ xs) (y ∷ ys) = elim (Bool-cases (ltb x y)) [
      | inl h ↦ inl (rw h refl)
      | inr h ↦ elim (Bool-cases (ltb y x)) [
        | inl k ↦ inr (inr (rw k refl))
        | inr k ↦ elim (total xs ys) [
          | inl e ↦ inl (rw (h, k) e)
          | inr (inl e) ↦
              inr (
                inl
                  (ap₂ (λ z zs. z ∷ zs) (omega (arith, ltb_false→le x y h, ltb_false→le y x k)) e))
          | inr (inr e) ↦ inr (inr (rw (k, h) e))
        ]
      ]
    ]

    from :
        (lexicographic a b ≡ true) ⊎ ((a ≡ b) ⊎ (lexicographic b a ≡ true))
        → (less a b ≡ true) ⊎ ((a ≡ b) ⊎ (less b a ≡ true))
    from (inl e) = inl (less-lexicographic a b ∙ e)
    from (inr (inl e)) = inr (inl e)
    from (inr (inr e)) = inr (inr (less-lexicographic b a ∙ e))
