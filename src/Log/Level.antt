-- ===== src/Log/Level.antt =====
-- `LogLevel::ToString` and `LogLevel::FromString` (sylar/log.cpp).
use sylar_demo.Common.{
  ℕ, ◌≡◌, ◌≢◌, ◌↔◌, refl, sym, ap, ◌∙◌, ◌⊎◌, inl, inr, List, map, Bool-cases, same, same_lem,
}
use sylar_demo.Log.{
  LogLevel, unknown, debug, info, warn, error, fatal, to_string, toupper, c_str, level_of,
  from_string,
}

level_of_cases : (s : List ℕ) → (level_of s ≡ unknown) ⊎ (s ≡ to_string (level_of s))
unfolding level_of
level_of_cases s = elim (Bool-cases (same s (to_string debug))) [
  | inl e ↦ rw e (inr (same_lem s (to_string debug) e))
  | inr e ↦ rw e (elim (Bool-cases (same s (to_string info))) [
    | inl f ↦ rw f (inr (same_lem s (to_string info) f))
    | inr f ↦ rw f (elim (Bool-cases (same s (to_string warn))) [
      | inl g ↦ rw g (inr (same_lem s (to_string warn) g))
      | inr g ↦ rw g (elim (Bool-cases (same s (to_string error))) [
        | inl h ↦ rw h (inr (same_lem s (to_string error) h))
        | inr h ↦ rw h (elim (Bool-cases (same s (to_string fatal))) [
          | inl k ↦ rw k (inr (same_lem s (to_string fatal) k))
          | inr k ↦ rw k (inl refl)
        ])
      ])
    ])
  ])
]

level_of-to_string : (l : LogLevel) → level_of (to_string l) ≡ l
unfolding level_of to_string
level_of-to_string unknown = refl
level_of-to_string debug = refl
level_of-to_string info = refl
level_of-to_string warn = refl
level_of-to_string error = refl
level_of-to_string fatal = refl

-- `FromString` gives a level other than UNKNOWN just for the strings that, in capitals and up to the
-- first NUL, are what `ToString` makes of that level.
pub from_string_lem :
    (str : List ℕ) (l : LogLevel)
    → l ≢ unknown
    → (from_string str ≡ l) ↔ (c_str (map toupper str) ≡ to_string l)
unfolding from_string
from_string_lem str l known = (
  λ e. elim (level_of_cases (c_str (map toupper str))) [
    | inl u ↦ absurd (known (sym e ∙ u))
    | inr s ↦ s ∙ ap to_string e
  ],
  λ e. ap level_of e ∙ level_of-to_string l,
)
