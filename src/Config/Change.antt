-- ===== src/Config/Change.antt =====
-- A new value for a ConfigVar (sylar/config.h), and the listeners that are told of it.
use sylar_demo.Common.{
  ℕ, ◌≡◌, refl, sym, ap, ◌⊎◌, inl, inr, true, false, List, [], ◌∷◌, ◌++◌, none, some, map, All,
  arith, Bool-cases, Option-cases,
}
use mathlib.Core.Path.{subst}
use sylar_demo.Config.{
  ConfigVar, Values, Call, call_all, set_value, parsed, from_string, caught, Leaving, normally,
  standard, foreign, is_normal, Outcome, returned, escaped,
}

is_normal_lem : (how : Leaving) → is_normal how ≡ true → how ≡ normally
is_normal_lem normally h = refl
is_normal_lem standard h = absurd (ground (arith, h))
is_normal_lem foreign h = absurd (ground (arith, h))

module _ {V : Type 0} (lib : Values V) where
  -- The call of one listener, and of several in order.
  abbrev pub call_of : V → V → ℕ × ℕ → Call V
  call_of old new e = record { listener = e.1; old_value = old; new_value = new }

  -- No listener leaves with an exception, or one is the first that does.
  abbrev pub IsQuiet : V → V → ℕ × ℕ → Type 0
  IsQuiet old new e = lib.throws e.1 old new ≡ normally

  pub record Throws (old new : V) (how : Leaving) (cbs : List (ℕ × ℕ)) (calls : List (Call V))
      : Type 0 where
    pub before : List (ℕ × ℕ)
    pub thrower : ℕ × ℕ
    pub after : List (ℕ × ℕ)
    pub parts : cbs ≡ before ++ (thrower ∷ after)
    pub quiet : All (IsQuiet old new) before
    pub throwing : lib.throws thrower.1 old new ≡ how
    pub abnormal : is_normal how ≡ false
    pub called : calls ≡ map (call_of old new) (before ++ (thrower ∷ []))

  call_all-cases :
      (old new : V) (cbs : List (ℕ × ℕ))
      → (All (IsQuiet old new) cbs
          × (call_all lib cbs old new ≡ (map (call_of old new) cbs, normally)))
        ⊎ ((how : Leaving) × (calls : List (Call V)) × (call_all lib cbs old new ≡ (calls, how))
            × Throws old new how cbs calls)
  unfolding call_all
  call_all-cases old new [] = inl (tt, refl)
  call_all-cases old new (e ∷ rest) = elim (Bool-cases (is_normal (lib.throws e.1 old new))) [
    | inr t ↦ inr (
      lib.throws e.1 old new,
      call_of old new e ∷ [],
      rw t refl,
      record {
        before = [];
        thrower = e;
        after = rest;
        parts = refl;
        quiet = tt;
        throwing = refl;
        abnormal = t;
        called = refl;
      },
    )
    | inl q ↦ elim (call_all-cases old new rest) [
      | inl (a, u) ↦ inl ((is_normal_lem _ q, a), rw (q, u) refl)
      | inr (how, calls, u, t) ↦ inr (
        how,
        call_of old new e ∷ calls,
        rw (q, u) refl,
        record {
          before = e ∷ t.before;
          thrower = t.thrower;
          after = t.after;
          parts = ap (λ l. e ∷ l) t.parts;
          quiet = (is_normal_lem _ q, t.quiet);
          throwing = t.throwing;
          abnormal = t.abnormal;
          called = ap (λ l. call_of old new e ∷ l) t.called;
        },
      )
    ]
  ]

  -- What becomes of a variable when it is read from a string.
  -- The string is no value: nothing happens.
  abbrev pub IsRefused : List ℕ → ConfigVar V → List (Call V) × Outcome × ConfigVar V → Type 0
  IsRefused s var r = (lib.from_str var.tag s ≡ none) × (r ≡ ([], returned false, var))

  -- The value is the one it has: no listener is called.
  abbrev pub IsKept : V → ConfigVar V → List (Call V) × Outcome × ConfigVar V → Type 0
  IsKept v var r = (lib.equal v var.val ≡ true) × (r ≡ ([], returned true, var))

  -- The value is another: all listeners are called, and then it is the value.
  abbrev pub IsChanged : V → ConfigVar V → List (Call V) × Outcome × ConfigVar V → Type 0
  IsChanged v var r =
      (lib.equal v var.val ≡ false)
      × All (IsQuiet var.val v) var.cbs
      × (r ≡ (map (call_of var.val v) var.cbs, returned true, record var { val = v }))

  -- A listener throws a std::exception, which is caught: the variable keeps its value.
  abbrev pub IsStopped : V → ConfigVar V → List (Call V) × Outcome × ConfigVar V → Type 0
  IsStopped v var r =
      (lib.equal v var.val ≡ false)
      × ((calls : List (Call V)) × Throws var.val v standard var.cbs calls
          × (r ≡ (calls, returned false, var)))

  -- A listener throws something else, which is not caught: the variable keeps its value.
  abbrev pub IsEscaped : V → ConfigVar V → List (Call V) × Outcome × ConfigVar V → Type 0
  IsEscaped v var r =
      (lib.equal v var.val ≡ false)
      × ((calls : List (Call V)) × Throws var.val v foreign var.cbs calls
          × (r ≡ (calls, escaped, var)))

  -- What becomes of it with the value `v`.
  abbrev pub IsAssigned : V → ConfigVar V → List (Call V) × Outcome × ConfigVar V → Type 0
  IsAssigned v var r =
      IsKept v var r ⊎ (IsChanged v var r ⊎ (IsStopped v var r ⊎ IsEscaped v var r))

  stop_or_escape :
      (v : V) (var : ConfigVar V) (how : Leaving) (calls : List (Call V))
      → lib.equal v var.val ≡ false
      → Throws var.val v how var.cbs calls
      → IsStopped v var (calls, caught lib how, var) ⊎ IsEscaped v var (calls, caught lib how, var)
  stop_or_escape v var normally calls e t = absurd (ground (arith, t.abnormal))
  stop_or_escape v var standard calls e t = inl (e, (calls, t, refl))
  stop_or_escape v var foreign calls e t = inr (e, (calls, t, refl))

  set_value-cases : (v : V) (var : ConfigVar V) → IsAssigned v var (parsed lib (some v) var)
  unfolding set_value
  set_value-cases v var = elim (Bool-cases (lib.equal v var.val)) [
    | inl e ↦ inl (e, rw e refl)
    | inr e ↦ inr (elim (call_all-cases var.val v var.cbs) [
      | inl (a, u) ↦ inl (e, a, rw (e, u) refl)
      | inr (how, calls, u, t) ↦
          subst (λ r. IsChanged v var r ⊎ (IsStopped v var r ⊎ IsEscaped v var r))
            (sym (stopped how calls e u t)) (inr (stop_or_escape v var how calls e t))
    ])
  ]
    where
      stopped :
          (how : Leaving) (calls : List (Call V))
          → lib.equal v var.val ≡ false
          → call_all lib var.cbs var.val v ≡ (calls, how)
          → Throws var.val v how var.cbs calls
          → parsed lib (some v) var ≡ (calls, caught lib how, var)
      stopped how calls e u t = rw (e, u, t.abnormal) refl

  -- `fromString`, where what a conversion throws is a std::exception. It returns false and changes
  -- nothing where the string is no value. It returns true and calls no listener where the value is the
  -- one there is. Otherwise it calls the listeners, in the order in which they stand in the map, with
  -- the old value and the new, and then the new value is stored and true returned, unless a listener
  -- throws: those behind it are not called and the value stays, and false is returned if that is a
  -- std::exception, while any other exception leaves `fromString`.
  pub from_string_cases :
      (s : List ℕ) (var : ConfigVar V)
      → (let r = from_string lib s var in
          IsRefused s var r ⊎ ((v : V) × (lib.from_str var.tag s ≡ some v) × IsAssigned v var r))
  unfolding from_string
  from_string_cases s var = elim (Option-cases (lib.from_str var.tag s)) [
    | inl n ↦ inl (n, ap (λ o. parsed lib o var) n)
    | inr (v, e) ↦
        inr (v, e, subst (λ o. IsAssigned v var (parsed lib o var)) (sym e) (set_value-cases v var))
  ]
