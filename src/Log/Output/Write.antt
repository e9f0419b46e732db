-- ===== src/Log/Output/Write.antt =====
-- What Logger::log of sylar/log.cpp writes, and through which appenders.
use sylar_demo.Common.{
  ℕ, suc, ◌≡◌, refl, sym, ap, ap₂, ◌∙◌, ◌⊎◌, inl, inr, Bool, true, false, List, [], ◌∷◌, ◌++◌,
  Option, none, some, All, All-map, arith, Bool-cases, ltb, ◌==◌, if◌then◌else◌, update,
  update_same, update_other, address-cases, Checked, ok,
}
use mathlib.Core.Path.{subst}
use sylar_demo.Log.{LogLevel}
use sylar_demo.Log.Format.{LogFormatter, LogEvent, Library, format}
use sylar_demo.Log.Output.{
  number, Sink, stdout, file, LogAppender, Objects, Output, reopened, wrote, is_some, appender_log,
  log_each, log_deep, log,
}

-- The texts written among the outputs, and where each goes.
abbrev pub texts : List Output → List (Sink × List ℕ)
texts [] = []
texts (reopened name ∷ out) = texts out
texts (wrote s t ∷ out) = (s, t) ∷ texts out

texts-append : (xs ys : List Output) → texts (xs ++ ys) ≡ texts xs ++ texts ys
texts-append [] ys = refl
texts-append (reopened name ∷ xs) ys = texts-append xs ys
texts-append (wrote s t ∷ xs) ys = ap (λ l. (s, t) ∷ l) (texts-append xs ys)

-- An appender that has a formatter.
abbrev pub HasFormatter : LogAppender → Type 0
HasFormatter a = is_some a.formatter ≡ true

-- An appender but for the second at which it wrote.
abbrev pub forget : LogAppender → LogAppender
forget a = record a { last_time = 0 }

abbrev pub IsAlike : (ℕ → LogAppender) → (ℕ → LogAppender) → Type 0
IsAlike heap later = (a : ℕ) → forget (later a) ≡ forget (heap a)

module _ (lib : Library) (level : LogLevel) (e : LogEvent) where
  -- What an appender writes: nothing below its level, and otherwise what its formatter makes of the
  -- event.
  abbrev pub line_of : LogAppender → List (Sink × List ℕ)
  line_of a = elim a.formatter [
    | none ↦ []
    | some f ↦ if ltb (number level) a.level then [] else (a.sink, format lib f level e) ∷ []
  ]

  abbrev pub lines : (ℕ → LogAppender) → List ℕ → List (Sink × List ℕ)
  lines heap [] = []
  lines heap (a ∷ rest) = line_of (heap a) ++ lines heap rest

  lines-IsAlike :
      (heap later : ℕ → LogAppender) (those : List ℕ)
      → IsAlike heap later
      → lines later those ≡ lines heap those
  lines-IsAlike heap later [] h = refl
  lines-IsAlike heap later (a ∷ rest) h =
      ap₂ ◌++◌ (ap line_of (h a)) (lines-IsAlike heap later rest h)

  module _ (now : ℕ) where
    abbrev Logs : LogAppender → Checked (LogAppender × List Output) → Type 0
    Logs a c =
        (r : LogAppender × List Output) × (c ≡ ok r)
        × (forget r.0 ≡ forget a)
        × (texts r.1 ≡ line_of a)

    fields-Logs :
        (s : Sink) (own : ℕ) (has : Bool) (f : Option LogFormatter) (t : ℕ)
        → is_some f ≡ true
        → (let a : LogAppender = record {
          sink = s;
          level = own;
          has_formatter = has;
          formatter = f;
          last_time = t;
        } in
            Logs a (appender_log lib now level e a))
    unfolding appender_log
    fields-Logs s own has none t h = absurd (ground (arith, h))
    fields-Logs stdout own has (some f) t h = elim (Bool-cases (ltb (number level) own)) [
      | inl b ↦ rw b (_, refl, refl, refl)
      | inr b ↦ rw b (_, refl, refl, refl)
    ]
    fields-Logs (file name) own has (some f) t h = elim (Bool-cases (ltb (number level) own)) [
      | inl b ↦ rw b (_, refl, refl, refl)
      | inr b ↦ elim (Bool-cases (now == t)) [
        | inl c ↦ rw (b, c) (_, refl, refl, refl)
        | inr c ↦ rw (b, c) (_, refl, refl, refl)
      ]
    ]

    appender_log-Logs : (a : LogAppender) → HasFormatter a → Logs a (appender_log lib now level e a)
    appender_log-Logs a h = fields-Logs a.sink a.level a.has_formatter a.formatter a.last_time h

    update-IsAlike :
        (heap : ℕ → LogAppender) (a : ℕ) (b : LogAppender)
        → forget b ≡ forget (heap a)
        → IsAlike heap (update a b heap)
    update-IsAlike heap a b h c = elim (address-cases c a) [
      | inl is ↦
          ap (λ d. forget (update a b heap d)) is
          ∙ ap forget (update_same a b heap)
          ∙ h
          ∙ ap (λ d. forget (heap d)) (sym is)
      | inr other ↦ ap forget (update_other a c b heap other)
    ]

    IsAlike-HasFormatter :
        (heap later : ℕ → LogAppender) (those : List ℕ)
        → IsAlike heap later
        → All (λ a. HasFormatter (heap a)) those
        → All (λ a. HasFormatter (later a)) those
    IsAlike-HasFormatter heap later those k =
        All-map (λ a. HasFormatter (heap a)) (λ a. HasFormatter (later a)) those
          (λ a h. subst (λ (b : LogAppender). HasFormatter b) (sym (k a)) h)

    -- The loop of `log` over appenders that have a formatter.
    abbrev pub Writes :
        (ℕ → LogAppender)
        → List (Sink × List ℕ)
        → Checked ((ℕ → LogAppender) × List Output)
        → Type 0
    Writes heap those c =
        (r : (ℕ → LogAppender) × List Output) × (c ≡ ok r) × IsAlike heap r.0 × (texts r.1 ≡ those)

    log_each-Writes :
        (those : List ℕ) (heap : ℕ → LogAppender)
        → All (λ a. HasFormatter (heap a)) those
        → Writes heap (lines heap those) (log_each lib now level e those heap)
    unfolding log_each
    log_each-Writes [] heap h = ((heap, []), refl, (λ a. refl), refl)
    log_each-Writes (a ∷ rest) heap (h, hs) =
        let ((b, out), u, f, t) = appender_log-Logs (heap a) h in
        let k = update-IsAlike heap a b f in
        let ((heap', later), v, m, t') =
          log_each-Writes rest (update a b heap)
            (IsAlike-HasFormatter heap (update a b heap) rest k hs) in
        (
          (heap', out ++ later),
          rw (u, v) refl,
          (λ c. m c ∙ k c),
          texts-append out later ∙ ap₂ ◌++◌ t (t' ∙ lines-IsAlike heap (update a b heap) rest k),
        )

  -- What a logger writes through its own appenders; and what it writes, with those of its root where
  -- it has none.
  abbrev pub own_lines : Objects → ℕ → List (Sink × List ℕ)
  own_lines w l =
      if ltb (number level) (w.loggers l).level
      then []
      else lines w.appenders (w.loggers l).appenders

  abbrev pub root_lines : Objects → Option ℕ → List (Sink × List ℕ)
  root_lines w none = []
  root_lines w (some r) = own_lines w r

  abbrev pub all_lines : Objects → ℕ → List (Sink × List ℕ)
  all_lines w l =
      if ltb (number level) (w.loggers l).level then [] else elim (w.loggers l).appenders [
        | [] ↦ root_lines w (w.loggers l).root
        | a ∷ rest ↦ lines w.appenders (a ∷ rest)
      ]

  -- The appenders of a logger have formatters.
  abbrev pub IsReady : Objects → ℕ → Type 0
  IsReady w l = All (λ a. HasFormatter (w.appenders a)) (w.loggers l).appenders

  -- The call returns, and changes nothing but the seconds of its appenders.
  abbrev pub Answers : Objects → List (Sink × List ℕ) → Checked (Objects × List Output) → Type 0
  Answers w those c =
      (heap : ℕ → LogAppender) × (out : List Output) × (c ≡ ok (record w { appenders = heap }, out))
      × IsAlike w.appenders heap
      × (texts out ≡ those)

  List-cases : (l : List ℕ) → (l ≡ []) ⊎ ((a : ℕ) × (rest : List ℕ) × (l ≡ a ∷ rest))
  List-cases [] = inl refl
  List-cases (a ∷ rest) = inr (a, rest, refl)

  module _ (now : ℕ) where
    through_own :
        (n l a : ℕ) (rest : List ℕ) (w : Objects)
        → (w.loggers l).appenders ≡ a ∷ rest
        → ltb (number level) (w.loggers l).level ≡ false
        → IsReady w l
        → Answers w
            (lines w.appenders (w.loggers l).appenders)
            (log_deep lib now level e (suc n) l w)
    unfolding log_deep
    through_own n l a rest w is b h =
        let h' = subst (λ those. All (λ c. HasFormatter (w.appenders c)) those) is h in
        let ((heap, out), u, k, t) = log_each-Writes now (a ∷ rest) w.appenders h' in
        rw (b, is, u) (heap, out, refl, k, t)

    -- Below its level a logger writes nothing.
    pub log_below :
        (l : ℕ) (w : Objects)
        → ltb (number level) (w.loggers l).level ≡ true
        → log lib now level e l w ≡ ok (w, [])
    unfolding log log_deep
    log_below l w b = rw b refl

    log_deep-own :
        (n l : ℕ) (w : Objects)
        → (w.loggers l).root ≡ none
        → IsReady w l
        → Answers w (own_lines w l) (log_deep lib now level e (suc n) l w)
    unfolding log_deep
    log_deep-own n l w r h = elim (Bool-cases (ltb (number level) (w.loggers l).level)) [
      | inl b ↦ rw b (w.appenders, [], refl, (λ a. refl), refl)
      | inr b ↦ elim (List-cases (w.loggers l).appenders) [
        | inl is ↦ rw (b, is, r) (w.appenders, [], refl, (λ a. refl), refl)
        | inr (a, rest, is) ↦
            subst (λ those. Answers w those (log_deep lib now level e (suc n) l w))
              (ap (λ t. if t then [] else lines w.appenders (w.loggers l).appenders) (sym b))
              (through_own n l a rest w is b h)
      ]
    ]

    -- `Logger::log` returns. It writes nothing below the level of the logger; otherwise it writes
    -- through each appender of the logger in order, each as its own level lets it. A logger with no
    -- appender writes what the root writes, as the root's level lets it. Only the seconds of the
    -- appenders change. The appenders of the logger and of its root have formatters, and the root has
    -- no root.
    pub log-all_lines :
        (l : ℕ) (w : Objects)
        → IsReady w l
        → ((w.loggers l).root ≡ none)
          ⊎ ((r : ℕ) × ((w.loggers l).root ≡ some r) × ((w.loggers r).root ≡ none) × IsReady w r)
        → Answers w (all_lines w l) (log lib now level e l w)
    unfolding log log_deep
    log-all_lines l w h roots = elim (Bool-cases (ltb (number level) (w.loggers l).level)) [
      | inl b ↦ rw b (w.appenders, [], refl, (λ a. refl), refl)
      | inr b ↦ elim (List-cases (w.loggers l).appenders) [
        | inl is ↦ elim roots [
          | inl r ↦ rw (b, is, r) (w.appenders, [], refl, (λ a. refl), refl)
          | inr (r, at, top, k) ↦
              let (heap, out, u, m, t) = log_deep-own 0 r w top k in
              rw (b, is, at, u) (heap, out, refl, m, t)
        ]
        | inr (a, rest, is) ↦
            let (heap, out, u, m, t) = through_own 1 l a rest w is b h in
            (heap, out, u, m, t ∙ rw (b, is) refl)
      ]
    ]
