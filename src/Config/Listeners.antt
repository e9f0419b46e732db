-- ===== src/Config/Listeners.antt =====
-- The listeners of a ConfigVar (sylar/config.h) as a map from their numbers.
use sylar_demo.Common.{
  ℕ, ◌+◌, ◌^◌, ◌<◌, ◌≡◌, ◌≢◌, refl, sym, inl, inr, List, [], ◌∷◌, Option, none, some, All, All-map,
  arith, ◌==◌, ltb, ltb→lt, ltb_false→le, ==_iff, Bool-cases, if◌then◌else◌,
}
use mathlib.Core.Path.{subst}
use sylar_demo.Config.{
  ConfigVar, put_listener, erase_listener, find_listener, add_listener, del_listener, get_listener,
}

-- The listener that is put under a number is found there, and all others where they were.
find_listener-put_listener :
    (id cb k : ℕ) (m : List (ℕ × ℕ))
    → find_listener k (put_listener id cb m) ≡ (if k == id then some cb else find_listener k m)
unfolding put_listener find_listener
find_listener-put_listener id cb k [] = refl
find_listener-put_listener id cb k ((n, a) ∷ rest) =
    ground (arith, find_listener-put_listener id cb k rest)

-- The numbers rise.
abbrev pub IsAbove : ℕ → List (ℕ × ℕ) → Type 0
IsAbove n m = All (λ (e : ℕ × ℕ). n < e.0) m

abbrev pub IsSorted : List (ℕ × ℕ) → Type 0
IsSorted [] = Unit
IsSorted ((n, a) ∷ rest) = IsAbove n rest × IsSorted rest

find_listener-none : (k : ℕ) (m : List (ℕ × ℕ)) → IsAbove k m → find_listener k m ≡ none
unfolding find_listener
find_listener-none k [] h = refl
find_listener-none k ((n, a) ∷ rest) (h, hs) = ground (arith, h, find_listener-none k rest hs)

IsAbove-IsAbove : (n k : ℕ) (m : List (ℕ × ℕ)) → n < k → IsAbove k m → IsAbove n m
IsAbove-IsAbove n k m h a =
    All-map (λ (e : ℕ × ℕ). k < e.0) (λ (e : ℕ × ℕ). n < e.0) m (λ e j. omega arith) a

find_listener-erase_listener :
    (id k : ℕ) (m : List (ℕ × ℕ))
    → IsSorted m
    → find_listener k (erase_listener id m) ≡ (if k == id then none else find_listener k m)
unfolding erase_listener find_listener
find_listener-erase_listener id k [] s = ground arith
find_listener-erase_listener id k ((n, a) ∷ rest) (h, s) = elim (Bool-cases (id == n)) [
  | inl e ↦ ground (
    arith,
    e,
    find_listener-none id rest (subst (λ j. IsAbove j rest) (sym ((==_iff id n).0 e)) h),
  )
  | inr e ↦ ground (arith, find_listener-erase_listener id k rest s, e)
]

put-IsAbove :
    (n id cb : ℕ) (m : List (ℕ × ℕ)) → n < id → IsAbove n m → IsAbove n (put_listener id cb m)
unfolding put_listener
put-IsAbove n id cb [] h a = (h, tt)
put-IsAbove n id cb ((k, b) ∷ rest) h (a, hs) = elim (Bool-cases (ltb id k)) [
  | inl l ↦ rw l (h, (a, hs))
  | inr l ↦ elim (Bool-cases (id == k)) [
    | inl e ↦ rw (l, e) (h, hs)
    | inr e ↦ rw (l, e) (a, put-IsAbove n id cb rest h hs)
  ]
]

put_listener-IsSorted :
    (id cb : ℕ) (m : List (ℕ × ℕ)) → IsSorted m → IsSorted (put_listener id cb m)
unfolding put_listener
put_listener-IsSorted id cb [] s = (tt, tt)
put_listener-IsSorted id cb ((k, b) ∷ rest) (h, s) = elim (Bool-cases (ltb id k)) [
  | inl l ↦ rw l ((ltb→lt id k l, IsAbove-IsAbove id k rest (ltb→lt id k l) h), (h, s))
  | inr l ↦ elim (Bool-cases (id == k)) [
    | inl e ↦ rw (l, e) (subst (λ j. IsAbove j rest) (sym ((==_iff id k).0 e)) h, s)
    | inr e ↦
        let apart : id ≢ k = λ is. ground (arith, is, e) in
        rw (l, e)
          (
            put-IsAbove k id cb rest (ground (arith, apart, ltb_false→le id k l)) h,
            put_listener-IsSorted id cb rest s,
          )
  ]
]

erase-IsAbove : (n id : ℕ) (m : List (ℕ × ℕ)) → IsAbove n m → IsAbove n (erase_listener id m)
unfolding erase_listener
erase-IsAbove n id [] a = tt
erase-IsAbove n id ((k, b) ∷ rest) (a, hs) = elim (Bool-cases (id == k)) [
  | inl e ↦ rw e hs
  | inr e ↦ rw e (a, erase-IsAbove n id rest hs)
]

erase_listener-IsSorted : (id : ℕ) (m : List (ℕ × ℕ)) → IsSorted m → IsSorted (erase_listener id m)
unfolding erase_listener
erase_listener-IsSorted id [] s = tt
erase_listener-IsSorted id ((k, b) ∷ rest) (h, s) = elim (Bool-cases (id == k)) [
  | inl e ↦ rw e s
  | inr e ↦ rw e (erase-IsAbove k id rest h, erase_listener-IsSorted id rest s)
]

module _ {V : Type 0} where
  -- What a listener's number stands for once the number `id` stands for `o` alone.
  abbrev pub IsMapped : ℕ → Option ℕ → ConfigVar V → ConfigVar V → Type 0
  IsMapped id o var new =
      ((k : ℕ) → get_listener k new ≡ (if k == id then o else get_listener k var))
      × IsSorted new.cbs

  -- The listeners of a variable are a map from their numbers, whose order is kept. `addListener` gives
  -- the number behind the counter, and under it the new listener is found; under the number that
  -- `delListener` takes there is then none. All others are found as before.
  pub add_listener-del_listener :
      (var : ConfigVar V) (cb counter key : ℕ)
      → IsSorted var.cbs
      → counter + 1 < 2 ^ 64
      → (let (id, next, new) = add_listener cb counter var in
          (id ≡ counter + 1)
          × (next ≡ id)
          × IsMapped id (some cb) var new
          × IsMapped key none var (del_listener key var))
  unfolding add_listener del_listener get_listener
  add_listener-del_listener var cb counter key s h = (
    omega arith,
    refl,
    ((λ k. find_listener-put_listener _ cb k var.cbs), put_listener-IsSorted _ cb var.cbs s),
    ((λ k. find_listener-erase_listener key k var.cbs s), erase_listener-IsSorted key var.cbs s),
  )
