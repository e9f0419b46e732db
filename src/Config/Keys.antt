-- ===== src/Config/Keys.antt =====
-- The letters that a name of sylar/config.h is made of.
use sylar_demo.Common.{
  ℕ, ◌≡◌, refl, sym, ap, ap₂, ◌∙◌, inl, inr, Bool, true, false, ◌&&◌, ◌||◌, List, [], ◌∷◌, ◌++◌,
  map, arith, ◌==◌, Bool-cases, ==_iff,
}
use sylar_demo.Config.{tolower, valid_letters, occurs, is_name}

and_left : (a b : Bool) → (a && b) ≡ true → a ≡ true
and_left true b h = refl
and_left false b h = h

and_right : (a b : Bool) → (a && b) ≡ true → b ≡ true
and_right true b h = h
and_right false b h = absurd (ground (arith, h))

abbrev every : (ℕ → Bool) → List ℕ → Bool
every p [] = true
every p (x ∷ xs) = p x && every p xs

occurs-every :
    (p : ℕ → Bool) (c : ℕ) (l : List ℕ) → occurs c l ≡ true → every p l ≡ true → p c ≡ true
occurs-every p c [] h a = absurd (ground (arith, h))
occurs-every p c (x ∷ xs) h a = elim (Bool-cases (c == x)) [
  | inl e ↦ ap p ((==_iff c x).0 e) ∙ and_left (p x) _ a
  | inr e ↦ occurs-every p c xs (sym (ap (λ t. t || occurs c xs) e) ∙ h) (and_right (p x) _ a)
]

lower_letter : (c : ℕ) → occurs c valid_letters ≡ true → tolower c ≡ c
lower_letter c h =
    (==_iff (tolower c) c).0 (occurs-every (λ x. tolower x == x) c valid_letters h refl)

-- A name has no capital letter.
pub map-tolower : (name : List ℕ) → is_name name ≡ true → map tolower name ≡ name
unfolding is_name
map-tolower [] h = refl
map-tolower (c ∷ cs) h =
    ap₂ ◌∷◌ (lower_letter c (and_left _ _ h))
      (map-tolower cs (and_right (occurs c valid_letters) _ h))

-- A name has no letter that is not one of the valid.
pub is_name_invalid :
    (a b : List ℕ) (c : ℕ) → occurs c valid_letters ≡ false → is_name (a ++ (c ∷ b)) ≡ false
unfolding is_name
is_name_invalid [] b c h = ap (λ t. t && is_name b) h
is_name_invalid (x ∷ xs) b c h =
    ap (λ t. occurs x valid_letters && t) (is_name_invalid xs b c h)
    ∙ and_false (occurs x valid_letters)
  where
    and_false : (t : Bool) → (t && false) ≡ false
    and_false true = refl
    and_false false = refl
