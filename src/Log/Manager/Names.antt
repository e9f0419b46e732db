-- ===== src/Log/Manager/Names.antt =====
-- The names of the loggers that LoggerManager (sylar/log.cpp) has made.
use sylar_demo.Common.{
  ℕ, suc, ◌<◌, ◌≡◌, ◌≢◌, refl, sym, ap, ◌∙◌, ◌⊎◌, inl, inr, false, List, [], ◌∷◌, Option, none,
  some, arith, Bool-cases, Option-cases, if◌then◌else◌, same, same_lem, same_refl, find,
}
use mathlib.Core.Path.{subst}
use sylar_demo.Log.Format.{is_empty}
use sylar_demo.Log.Output.{Objects, new_appender, stdout}
use sylar_demo.Log.Manager.{
  LoggerManager, root_name, bare_logger, new_manager, new_logger, get_or_create, get_logger,
}

next_logger_up :
    (name : List ℕ) (root : Option ℕ) (w : Objects)
    → (new_logger name root w).next_logger ≡ suc w.next_logger
unfolding new_logger
next_logger_up name root w = elim (Bool-cases (same name root_name)) [
  | inl b ↦ rw b refl
  | inr b ↦ rw b refl
]

-- A name stands for a logger that has been made, and for another logger than every other name.
pub record IsNamed (m : LoggerManager) : Type 0 where
  pub made : (n : List ℕ) (l : ℕ) → find n m.names ≡ some l → l < m.objects.next_logger
  pub alone : (n k : List ℕ) (l : ℕ) → find n m.names ≡ some l → find k m.names ≡ some l → n ≡ k

-- What `getLogger` has found or made: the name stands for it, every other name for what it stood for,
-- and the same call again finds it and makes nothing.
pub record Named (name : List ℕ) (m : LoggerManager) (r : ℕ × LoggerManager) : Type 0 where
  pub found : find name r.1.names ≡ some r.0
  pub others : (n : List ℕ) → n ≢ name → find n r.1.names ≡ find n m.names
  pub again : get_logger name r.1 ≡ r
  pub named : IsNamed r.1

some_same : {A : Type 0} {a b : A} → some a ≡ some b → a ≡ b
some_same e = cc

module _ (name : List ℕ) (m : LoggerManager) (v : IsNamed m) where
  next : ℕ
  next = m.objects.next_logger

  created : LoggerManager
  created = (get_or_create name none m).1

  find_first : find name created.names ≡ some next
  unfolding created next
  find_first = rw (same_refl name) refl

  find_later : (n : List ℕ) → n ≢ name → find n created.names ≡ find n m.names
  unfolding created next
  find_later n other = elim (Bool-cases (same name n)) [
    | inl b ↦ absurd (other (sym (same_lem name n b)))
    | inr b ↦ rw b refl
  ]

  -- A name of the new map: the new one, or one of the old map.
  find-cases :
      (n : List ℕ) (l : ℕ)
      → find n created.names ≡ some l
      → ((n ≡ name) × (l ≡ next)) ⊎ (find n m.names ≡ some l)
  find-cases n l e = elim (Bool-cases (same name n)) [
    | inl b ↦
        let is = same_lem name n b in
        inl (sym is, some_same (sym e ∙ ap (λ k. find k created.names) (sym is) ∙ find_first))
    | inr b ↦ inr (
        sym (find_later n (λ is. ground (arith, b, ap (λ k. same name k) is ∙ same_refl name))) ∙ e)
  ]

  created-IsNamed : IsNamed created
  unfolding created next
  created-IsNamed = record {
    made = λ n l e.
        subst (λ k. l < k) (sym (next_logger_up name (some m.root) m.objects))
          (elim (find-cases n l e) [
            | inl (a, b) ↦ omega arith
            | inr f ↦ omega (arith, v.made n l f)
          ]);
    alone = λ n k l e f. elim (find-cases n l e) [
      | inl (a, b) ↦ elim (find-cases k l f) [
        | inl (c, d) ↦ a ∙ sym c
        | inr d ↦ absurd (omega (arith, v.made k l d))
      ]
      | inr b ↦ elim (find-cases k l f) [
        | inl (c, d) ↦ absurd (omega (arith, v.made n l b))
        | inr d ↦ v.alone n k l b d
      ]
    ];
  }

  -- `getLogger` of a name that is not empty gives the logger that the name stands for, or a new one
  -- that it then stands for. All other names stand for what they stood for, the same call again gives
  -- the same logger and makes nothing, and no two names stand for one logger if none did before.
  pub get_logger-Named : is_empty name ≡ false → Named name m (get_logger name m)
  unfolding get_logger created next
  get_logger-Named b = elim (Option-cases (find name m.names)) [
    | inl e ↦
        rw (b, e)
          (record {
            found = find_first;
            others = find_later;
            again = rw (b, find_first) refl;
            named = created-IsNamed;
          })
    | inr (l, e) ↦
        rw (b, e)
          (record { found = e; others = λ n other. refl; again = rw (b, e) refl; named = v })
  ]

-- The loggers of a new manager.
pub new_manager-IsNamed : IsNamed new_manager
unfolding new_manager
new_manager-IsNamed = record {
  made = λ n l e. elim (Bool-cases (same root_name n)) [
    | inl b ↦
        let is = some_same (sym (ap (λ t. if t then some 0 else none) b) ∙ e) in
        let up = next_logger_up root_name none blank in omega (arith, is, up)
    | inr b ↦ absurd (nothing l (sym (ap (λ t. if t then some 0 else none) b) ∙ e))
  ];
  alone = λ n k l e f. sym (only n l e) ∙ only k l f;
}
  where
    blank : Objects
    blank = record {
      loggers = λ l. bare_logger [] none;
      appenders = λ a. new_appender stdout;
      next_logger = 0;
      next_appender = 0;
    }

    nothing : (l : ℕ) → none ≢ some l
    nothing l e = ground (arith, e)

    only : (n : List ℕ) (l : ℕ) → find n ((root_name, 0) ∷ []) ≡ some l → root_name ≡ n
    only n l e = elim (Bool-cases (same root_name n)) [
      | inl b ↦ same_lem root_name n b
      | inr b ↦ absurd (nothing l (sym (ap (λ t. if t then some 0 else none) b) ∙ e))
    ]
