-- ===== src/FdManager/Table.antt =====
-- `FdManager::get` and `del` (sylar/fd_manager.cpp): the table from descriptors to contexts.
use sylar_demo.Common.{
  ℕ, zero, suc, ◌*◌, ◌/◌, ◌^◌, ◌<◌, ◌≤◌, ◌≡◌, ◌≢◌, refl, ap, ◌∙◌, ◌⊎◌, inl, inr, Bool, true, false,
  List, [], ◌∷◌, Option, none, some, arith, length, get_elem?, set, ltb, ◌==◌, if◌then◌else◌,
  Bool-cases, Option-cases, eq→==, ltb→lt, ltb_false→le, lt→ltb, le→leb, lt→leb_false, Step, done,
}
use sylar_demo.FdManager.{FdCtx, FdManager, resize, size_le, index, create, get_slot, get, del}

-- What the table has for a descriptor.
abbrev pub entry : List (Option ℕ) → ℕ → Option ℕ
entry [] i = none
entry (x ∷ xs) zero = x
entry (x ∷ xs) (suc i) = entry xs i

length-resize : (n : ℕ) (l : List (Option ℕ)) → length (resize n l) ≡ n
unfolding resize
length-resize zero l = refl
length-resize (suc n) [] = ap suc (length-resize n [])
length-resize (suc n) (x ∷ xs) = ap suc (length-resize n xs)

entry-resize_nil : (n i : ℕ) → entry (resize n []) i ≡ none
unfolding resize
entry-resize_nil zero i = refl
entry-resize_nil (suc n) zero = refl
entry-resize_nil (suc n) (suc i) = entry-resize_nil n i

entry-resize : (n i : ℕ) (l : List (Option ℕ)) → length l ≤ n → entry (resize n l) i ≡ entry l i
unfolding resize
entry-resize n i [] h = entry-resize_nil n i
entry-resize zero i (x ∷ xs) h = absurd (omega arith)
entry-resize (suc n) zero (x ∷ xs) h = refl
entry-resize (suc n) (suc i) (x ∷ xs) h = entry-resize n i xs (omega arith)

length-set : (l : List (Option ℕ)) (i : ℕ) (v : Option ℕ) → length (set l i v) ≡ length l
length-set [] i v = refl
length-set (x ∷ xs) zero v = refl
length-set (x ∷ xs) (suc i) v = ap suc (length-set xs i v)

entry-set : (l : List (Option ℕ)) (i : ℕ) (v : Option ℕ) → i < length l → entry (set l i v) i ≡ v
entry-set [] i v h = absurd (omega arith)
entry-set (x ∷ xs) zero v h = refl
entry-set (x ∷ xs) (suc i) v h = entry-set xs i v (omega arith)

entry-set_other :
    (l : List (Option ℕ)) (i j : ℕ) (v : Option ℕ) → j ≢ i → entry (set l i v) j ≡ entry l j
entry-set_other [] i j v h = refl
entry-set_other (x ∷ xs) zero zero v h = absurd (h refl)
entry-set_other (x ∷ xs) zero (suc j) v h = refl
entry-set_other (x ∷ xs) (suc i) zero v h = refl
entry-set_other (x ∷ xs) (suc i) (suc j) v h = entry-set_other xs i j v (λ e. h (ap suc e))

get_elem?-entry : (l : List (Option ℕ)) (i : ℕ) → i < length l → get_elem? l i ≡ some (entry l i)
get_elem?-entry [] i h = absurd (omega arith)
get_elem?-entry (x ∷ xs) zero h = refl
get_elem?-entry (x ∷ xs) (suc i) h = get_elem?-entry xs i (omega arith)

-- The sizes that the vector can have: never below the first one, and an `int`.
pub record IsSized (s : FdManager) : Type 0 where
  pub least : 64 ≤ length s.datas
  pub int_size : length s.datas < 2 ^ 31

module _ (s : FdManager) (v : IsSized s) (fd : ℕ) (small : fd < 2 ^ 30) where
  size_past : length s.datas ≤ fd → size_le s.datas fd ≡ true
  size_past h = le→leb _ _ (omega (arith, v.int_size))

  size_within : fd < length s.datas → size_le s.datas fd ≡ false
  size_within h = lt→leb_false _ _ (omega (arith, v.int_size))

  index_same : index fd ≡ fd
  index_same = rw (lt→ltb fd (2 ^ 31) (omega arith)) refl

entry_past : (l : List (Option ℕ)) (i : ℕ) → length l ≤ i → entry l i ≡ none
entry_past [] i h = refl
entry_past (x ∷ xs) zero h = absurd (omega arith)
entry_past (x ∷ xs) (suc i) h = entry_past xs i (omega arith)

-- A new context for a descriptor: it is in the table, and all else in the table is as it was.
pub record Created (x : ℕ) (ctx : FdCtx) (fd : ℕ) (s : FdManager)
    (result : Step FdManager (Option ℕ)) : Type 0 where
  pub after : FdManager
  pub returns : result ≡ done (some x) after
  pub sized : IsSized after
  pub stored : entry after.datas fd ≡ some x
  pub others : (j : ℕ) → j ≢ fd → entry after.datas j ≡ entry s.datas j
  pub object : after.heap x ≡ ctx

module _ (x : ℕ) (ctx : FdCtx) (fd : ℕ) (small : fd < 2 ^ 30) where
  create-Created :
      (s t : FdManager)
      → IsSized t
      → fd < length t.datas
      → ((j : ℕ) → entry t.datas j ≡ entry s.datas j)
      → Created x ctx fd s (create x ctx fd t)
  unfolding create
  create-Created s t v h same = record {
    after = record t {
      heap = λ a. if a == x then ctx else t.heap a;
      datas = set t.datas fd (some x);
    };
    returns = rw (index_same t v fd small, lt→ltb fd (length t.datas) h) refl;
    sized = record {
      least = omega (arith, length-set t.datas fd (some x), v.least);
      int_size = omega (arith, length-set t.datas fd (some x), v.int_size);
    };
    stored = entry-set t.datas fd (some x) h;
    others = λ j e. entry-set_other t.datas fd j (some x) e ∙ same j;
    object = rw (eq→== x x refl) refl;
  }

  get_within :
      (auto_create : Bool) (s : FdManager)
      → IsSized s
      → fd < length s.datas
      → get x ctx fd auto_create s ≡ get_slot (some (entry s.datas fd)) x ctx fd auto_create s
  unfolding get
  get_within auto_create s v h =
      ap
        (λ b.
          if b
          then (if auto_create
              then create x ctx fd (record s { datas = resize (fd * 3 / 2) s.datas })
              else done none s)
          else get_slot (get_elem? s.datas (index fd)) x ctx fd auto_create s)
        (size_within s v fd small h)
      ∙ ap (λ o. get_slot o x ctx fd auto_create s)
          (ap (get_elem? s.datas) (index_same s v fd small) ∙ get_elem?-entry s.datas fd h)

  get_past :
      (auto_create : Bool) (s : FdManager)
      → IsSized s
      → length s.datas ≤ fd
      → get x ctx fd auto_create s ≡ (
          if auto_create
          then create x ctx fd (record s { datas = resize (fd * 3 / 2) s.datas })
          else done none s)
  unfolding get
  get_past auto_create s v h =
      ap
        (λ b.
          if b
          then (if auto_create
              then create x ctx fd (record s { datas = resize (fd * 3 / 2) s.datas })
              else done none s)
          else get_slot (get_elem? s.datas (index fd)) x ctx fd auto_create s)
        (size_past s v fd small h)

  past-Created :
      (s : FdManager)
      → IsSized s
      → length s.datas ≤ fd
      → Created x ctx fd s (create x ctx fd (record s { datas = resize (fd * 3 / 2) s.datas }))
  past-Created s v h =
      let size = length-resize (fd * 3 / 2) s.datas in
      create-Created s (record s { datas = resize (fd * 3 / 2) s.datas })
        (record { least = omega (arith, size, v.least); int_size = omega (arith, size) })
        (omega (arith, size, v.least))
        (λ j. entry-resize (fd * 3 / 2) j s.datas (omega (arith, v.least)))

  -- `get` of a descriptor below 2 ^ 30: one that the table has is returned, and nothing changes;
  -- without `auto_create` a missing one is a null pointer; with it a new context is put into the
  -- table, which grows if it must and keeps all else.
  pub get_cases :
      (auto_create : Bool) (s : FdManager)
      → IsSized s
      → ((old : ℕ) × (entry s.datas fd ≡ some old)
          × (get x ctx fd auto_create s ≡ done (some old) s))
        ⊎ (((entry s.datas fd ≡ none)
              × (auto_create ≡ false)
              × (get x ctx fd auto_create s ≡ done none s))
            ⊎ ((entry s.datas fd ≡ none)
                × (auto_create ≡ true)
                × Created x ctx fd s (get x ctx fd auto_create s)))
  unfolding get_slot
  get_cases auto_create s v = elim (Bool-cases (ltb fd (length s.datas))) [
    | inl e ↦ within (ltb→lt _ _ e) (Option-cases (entry s.datas fd)) auto_create
    | inr e ↦ past (ltb_false→le _ _ e) auto_create
  ]
    where
      Outcome : Bool → Type 0
      Outcome auto =
          ((old : ℕ) × (entry s.datas fd ≡ some old) × (get x ctx fd auto s ≡ done (some old) s))
          ⊎ (((entry s.datas fd ≡ none) × (auto ≡ false) × (get x ctx fd auto s ≡ done none s))
              ⊎ ((entry s.datas fd ≡ none)
                  × (auto ≡ true)
                  × Created x ctx fd s (get x ctx fd auto s)))

      within :
          fd < length s.datas
          → (entry s.datas fd ≡ none) ⊎ ((old : ℕ) × (entry s.datas fd ≡ some old))
          → (auto : Bool) → Outcome auto
      within h (inr (old, e)) auto =
          inl (old, e, get_within auto s v h ∙ ap (λ k. get_slot (some k) x ctx fd auto s) e)
      within h (inl e) false =
          inr
            (inl (e, refl, get_within false s v h ∙ ap (λ k. get_slot (some k) x ctx fd false s) e))
      within h (inl e) true =
          inr (inr (e, refl, rw (get_within true s v h, e) (create-Created s s v h (λ j. refl))))

      past : length s.datas ≤ fd → (auto : Bool) → Outcome auto
      past h false = inr (inl (entry_past s.datas fd h, refl, get_past false s v h))
      past h true =
          inr (inr (entry_past s.datas fd h, refl, rw (get_past true s v h) (past-Created s v h)))

-- `del` of a descriptor below 2 ^ 30 does not fault: the table then has nothing for it, and for the
-- others what it had.
pub del_lem :
    (fd : ℕ) (s : FdManager)
    → fd < 2 ^ 30
    → IsSized s
    → (after : FdManager) × (del fd s ≡ done tt after)
      × IsSized after
      × (entry after.datas fd ≡ none)
      × ((j : ℕ) → j ≢ fd → entry after.datas j ≡ entry s.datas j)
unfolding del
del_lem fd s small v = elim (Bool-cases (ltb fd (length s.datas))) [
  | inl e ↦
      let h : fd < length s.datas = ltb→lt _ _ e in
      (
        record s { datas = set s.datas fd none },
        rw (size_within s v fd small h, index_same s v fd small, e) refl,
        record {
          least = omega (arith, length-set s.datas fd none, v.least);
          int_size = omega (arith, length-set s.datas fd none, v.int_size);
        },
        entry-set s.datas fd none h,
        λ j k. entry-set_other s.datas fd j none k,
      )
  | inr e ↦
      let h : length s.datas ≤ fd = ltb_false→le _ _ e in
      (s, rw (size_past s v fd small h) refl, v, entry_past s.datas fd h, λ j k. refl)
]
