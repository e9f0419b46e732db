-- ===== src/Config/Lookup.antt =====
-- The table of sylar/config.h, and what `Lookup` finds in it.
use sylar_demo.Common.{
  ℕ, ◌<◌, ◌≡◌, ◌≢◌, refl, sym, ap, ◌∙◌, inl, inr, true, false, List, [], ◌∷◌, ◌++◌, none, some, map,
  All, All-map, arith, ◌==◌, eq→==, Bool-cases, Option-cases, if◌then◌else◌, update_same,
  update_other, same, same_lem, same_refl, find,
}
use mathlib.Core.Path.{subst}
use sylar_demo.Config.{
  ConfigVar, Config, tolower, is_name, Found, pointer, null, invalid_argument, cast_found, make,
  look, lookup_or_make, lookup,
}
use sylar_demo.Config.Keys.{map-tolower, is_name_invalid}

-- What the table has is a name.
pub find-is_name :
    (l : List (List ℕ × ℕ)) (n : List ℕ) (a : ℕ)
    → All (λ (e : List ℕ × ℕ). is_name e.0 ≡ true) l
    → find n l ≡ some a
    → is_name n ≡ true
find-is_name [] n a h f = absurd (ground (arith, f))
find-is_name ((k, b) ∷ rest) n a h f = elim (Bool-cases (same k n)) [
  | inl e ↦ ap is_name (sym (same_lem k n e)) ∙ h.0
  | inr e ↦ find-is_name rest n a h.1 (sym (ap (λ t. if t then some b else find n rest) e) ∙ f)
]

no_pointer : (a : ℕ) → invalid_argument ≢ pointer a
no_pointer a e = ground (arith, e)

module _ {V : Type 0} where
  -- Each entry of the table is a name of valid letters, with a variable of that name.
  abbrev pub IsEntry : Config V → List ℕ × ℕ → Type 0
  IsEntry c e = (is_name e.0 ≡ true) × (e.1 < c.next) × ((c.vars e.1).name ≡ e.0)

  abbrev pub IsTable : Config V → Type 0
  IsTable c = All (IsEntry c) c.datas

  pub IsTable-is_name :
      (c : Config V) → IsTable c → All (λ (e : List ℕ × ℕ). is_name e.0 ≡ true) c.datas
  IsTable-is_name c t = All-map (IsEntry c) _ c.datas (λ e h. h.0) t

  module _ (tag : ℕ) (name : List ℕ) (default_value : V) (description : List ℕ) (c : Config V) where
    made : Config V
    made = (make tag name default_value description c).1

    made-IsEntry : (e : List ℕ × ℕ) → IsEntry c e → IsEntry made e
    unfolding made
    made-IsEntry e (n, l, s) = (
      n,
      omega arith,
      ap (λ (v : ConfigVar V). v.name)
            (update_other c.next e.1 _ c.vars (λ k. absurd (omega (arith, k, l))))
          ∙ s,
    )

    -- `Lookup` keeps the table well formed.
    pub lookup_or_make-IsTable :
        IsTable c → IsTable (lookup_or_make tag name default_value description c).1
    unfolding lookup_or_make made
    lookup_or_make-IsTable t = elim (Option-cases (find (map tolower name) c.datas)) [
      | inr (a, f) ↦ rw f t
      | inl f ↦ elim (Bool-cases (is_name name)) [
        | inl b ↦
            rw (f, b)
              (
                (
                  b,
                  omega arith,
                  ap (λ (v : ConfigVar V). v.name) (update_same c.next _ c.vars)
                      ∙ map-tolower name b,
                ),
                All-map (IsEntry c) (IsEntry made) c.datas made-IsEntry t,
              )
        | inr b ↦ rw (f, b) t
      ]
    ]

    looks-made :
        find (map tolower name) c.datas ≡ none
        → is_name name ≡ true
        → lookup_or_make tag name default_value description c ≡ (pointer c.next, made)
    unfolding lookup_or_make made
    looks-made f b =
        ap (λ o. look o tag name default_value description c) f
        ∙ ap (λ t. if t then make tag name default_value description c else (invalid_argument, c)) b

    looks-invalid :
        find (map tolower name) c.datas ≡ none
        → is_name name ≡ false
        → lookup_or_make tag name default_value description c ≡ (invalid_argument, c)
    unfolding lookup_or_make
    looks-invalid f b =
        ap (λ o. look o tag name default_value description c) f
        ∙ ap (λ t. if t then make tag name default_value description c else (invalid_argument, c)) b

    lookup-made :
        (other : List ℕ)
        → is_name name ≡ true
        → map tolower other ≡ map tolower name
        → lookup tag other made ≡ pointer c.next
    unfolding lookup made
    lookup-made other b e =
        ap (λ n. cast_found (find n made.datas) tag made) (e ∙ map-tolower name b)
        ∙ ap (λ t. cast_found (if t then some c.next else find name c.datas) tag made)
            (same_refl name)
        ∙ ap (λ (v : ConfigVar V). if v.tag == tag then pointer c.next else null)
            (update_same c.next _ c.vars)
        ∙ ap (λ t. if t then pointer c.next else null) (eq→== tag tag refl)

    -- The variable that `Lookup` gives is found again under the name, in whatever case its letters
    -- are.
    pub lookup-lookup_or_make :
        (a : ℕ) (other : List ℕ)
        → (lookup_or_make tag name default_value description c).0 ≡ pointer a
        → map tolower other ≡ map tolower name
        → lookup tag other (lookup_or_make tag name default_value description c).1 ≡ pointer a
    unfolding lookup lookup_or_make
    lookup-lookup_or_make a other p e = elim (Option-cases (find (map tolower name) c.datas)) [
      | inr (b, f) ↦
          let found = ap (λ o. (look o tag name default_value description c).0) (sym f) ∙ p in
          ap
            (λ o.
              cast_found
                (find (map tolower other) (look o tag name default_value description c).1.datas) tag
                (look o tag name default_value description c).1)
            f
          ∙ ap (λ n. cast_found (find n c.datas) tag c) e
          ∙ ap (λ o. cast_found o tag c) f
          ∙ found
      | inl f ↦ elim (Bool-cases (is_name name)) [
        | inl b ↦
            let q = looks-made f b in
            subst (λ (r : Found × Config V). lookup tag other r.1 ≡ pointer a) (sym q)
              (lookup-made other b e ∙ sym (ap (λ r. r.0) q) ∙ p)
        | inr b ↦ absurd (no_pointer a (sym (ap (λ r. r.0) (looks-invalid f b)) ∙ p))
      ]
    ]

-- No variable has a name with a `q`: `Lookup` of such a name, in a table that is well formed, throws.
pub lookup_or_make-q :
    {V : Type 0} (before after : List ℕ) (tag : ℕ) (default_value : V) (description : List ℕ)
    (c : Config V)
    → IsTable c
    → lookup_or_make tag (before ++ (b'q' ∷ after)) default_value description c
      ≡ (invalid_argument, c)
lookup_or_make-q before after tag default_value description c t =
    let name = before ++ (b'q' ∷ after) in
    elim (Option-cases (find (map tolower name) c.datas)) [
      | inl f ↦
          looks-invalid tag name default_value description c f
            (is_name_invalid before after b'q' refl)
      | inr (a, f) ↦ absurd (
          two_answers (
            sym (find-is_name c.datas (map tolower name) a (IsTable-is_name c t) f)
            ∙ ap is_name (map-append tolower before (b'q' ∷ after))
            ∙ is_name_invalid (map tolower before) (map tolower after) b'q' refl))
    ]
  where
    two_answers : true ≢ false
    two_answers e = ground (arith, e)

    map-append : (f : ℕ → ℕ) (xs ys : List ℕ) → map f (xs ++ ys) ≡ map f xs ++ map f ys
    map-append f [] ys = refl
    map-append f (x ∷ xs) ys = ap (λ l. f x ∷ l) (map-append f xs ys)
