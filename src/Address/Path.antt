-- ===== src/Address/Path.antt =====
-- The paths of UnixAddress (sylar/address.cpp).
use sylar_demo.Common.{
  ℕ, suc, ◌+◌, ◌-◌, ◌≤◌, ◌≡◌, refl, ap, ◌∙◌, Bool, true, false, List, [], ◌∷◌, ◌++◌, Option, none,
  some, arith, All, length, length-append, take, take_all, drop, replicate, ltb, ◌==◌, ◌&&◌,
  if◌then◌else◌, le→ltb_false, lt→ltb,
}
use sylar_demo.Address.{UnixAddress, new_unix, c_string, get_path}

c_string-append :
    (path rest : List ℕ)
    → All (λ x. (x == 0) ≡ false) path
    → c_string ((path ++ (0 ∷ [])) ++ rest) ≡ path
unfolding c_string
c_string-append [] rest f = refl
c_string-append (x ∷ xs) rest f = rw (f.0) (ap (λ l. x ∷ l) (c_string-append xs rest f.1))

-- The address of a path of 1 to 107 bytes, none of them 0, has that path.
pub get_path-new_unix :
    (x : ℕ) (xs : List ℕ)
    → All (λ y. (y == 0) ≡ false) (x ∷ xs)
    → length (x ∷ xs) ≤ 107
    → (a : UnixAddress) × (new_unix (x ∷ xs) ≡ some a) × (get_path a ≡ x ∷ xs)
unfolding new_unix get_path
get_path-new_unix x xs f small = (
  address,
  ap (λ b. made b) f.0
      ∙ ap (λ b. if b then none else some (stored (length path + 1)))
          (le→ltb_false 108 (length path + 1) (omega (arith, small)))
      ∙ ap some (ap (λ l. record { sun_path = l ++ zeros; size = length path + 1 + 2 }) all_copied),
  ap (λ b. shown b (x == 0)) (lt→ltb 2 (length path + 1 + 2) (omega arith))
      ∙ ap (λ b. shown true b) f.0
      ∙ c_string-append path zeros f,
)
  where
    path : List ℕ
    path = x ∷ xs

    zeros : List ℕ
    zeros = replicate (108 - (length path + 1)) 0

    address : UnixAddress
    address = record { sun_path = (path ++ (0 ∷ [])) ++ zeros; size = length path + 1 + 2 }

    stored : ℕ → UnixAddress
    stored copied = record {
      sun_path = take copied (path ++ (0 ∷ [])) ++ replicate (108 - copied) 0;
      size = copied + 2;
    }

    made : Bool → Option UnixAddress
    made b =
        let copied = if b then length path else length path + 1 in
        if ltb 108 copied then none else some (stored copied)

    all_copied : take (length path + 1) (path ++ (0 ∷ [])) ≡ path ++ (0 ∷ [])
    all_copied =
        take_all (length path + 1) (path ++ (0 ∷ [])) (omega (arith, length-append path (0 ∷ [])))

    shown : Bool → Bool → List ℕ
    shown long zero_first =
        if long && zero_first
        then 92 ∷ 48 ∷ take (address.size - 2 - 1) (drop 1 address.sun_path)
        else c_string address.sun_path

take_front : (xs ys : List ℕ) → take (length xs) (xs ++ ys) ≡ xs
take_front [] ys = refl
take_front (x ∷ xs) ys = ap (λ l. x ∷ l) (take_front xs ys)

-- An abstract path, which begins with a 0 and has up to 108 bytes, is shown with a backslash and a 0
-- in its place.
pub get_path-abstract :
    (xs : List ℕ)
    → length xs ≤ 107
    → (a : UnixAddress) × (new_unix (0 ∷ xs) ≡ some a) × (get_path a ≡ 92 ∷ 48 ∷ xs)
unfolding new_unix get_path
get_path-abstract xs small = (
  address,
  ap (λ b. if b then none else some (stored (0 ∷ take n (xs ++ (0 ∷ [])))))
        (le→ltb_false 108 (suc n) (omega (arith, small)))
      ∙ ap (λ l. some (stored (0 ∷ l))) (take_front xs (0 ∷ [])),
  ap
        (λ b.
          if b then 92 ∷ 48 ∷ take (suc n + 2 - 2 - 1) (xs ++ zeros) else c_string address.sun_path)
        (ap (λ b. b && true) (lt→ltb 2 (suc n + 2) (omega arith)))
      ∙ ap (λ k. 92 ∷ 48 ∷ take k (xs ++ zeros)) (omega arith)
      ∙ ap (λ l. 92 ∷ 48 ∷ l) (take_front xs zeros),
)
  where
    n : ℕ
    n = length xs

    zeros : List ℕ
    zeros = replicate (108 - suc n) 0

    stored : List ℕ → UnixAddress
    stored l = record { sun_path = l ++ zeros; size = suc n + 2 }

    address : UnixAddress
    address = stored (0 ∷ xs)
