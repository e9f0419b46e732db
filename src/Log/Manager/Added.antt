-- ===== src/Log/Manager/Added.antt =====
-- The appenders that a definition of a logger asks for, in the listener of sylar/log.cpp.
use sylar_demo.Common.{
  ℕ, suc, ◌<◌, ◌≡◌, refl, sym, ap, ap₂, ◌∙◌, inl, inr, Bool, true, false, not, ◌&&◌, List, [], ◌∷◌,
  ◌++◌, Option, none, some, map, All, All-map, All-append, arith, ◌==◌, if◌then◌else◌, update,
  update_same, update_other, ok, Bool-cases,
}
use mathlib.Core.Path.{subst}
use mathlib.Core.List.{append_assoc, append-nil}
use sylar_demo.Log.Format.{is_empty, LogFormatter, new_formatter}
use sylar_demo.Log.Output.{
  number, stdout, file, LogAppender, Logger, Objects, is_some, new_appender, appender_set_pattern,
  appender_set_formatter, given, add_appender,
}
use sylar_demo.Log.Manager.{LogAppenderDefine, sink_of, prepared, make_appender, add_defined}

-- The types that a definition can have.
abbrev pub IsKnown : LogAppenderDefine → Type 0
IsKnown d = is_some (sink_of d) ≡ true

-- Whether a pattern is given, and is right.
abbrev pub is_right : List ℕ → Bool
is_right pattern = not (is_empty pattern) && not (new_formatter pattern).error

-- The appender that a definition asks for, of a logger with the formatter `f`: with the formatter of
-- its own pattern where one is given and right, and otherwise with that of the logger.
abbrev pub asked : Option LogFormatter → LogAppenderDefine → LogAppender
asked f d = record {
  sink = if d.type == 1 then file d.file else stdout;
  level = number d.level;
  has_formatter = is_right d.formatter;
  formatter = if is_right d.formatter then some (new_formatter d.formatter) else f;
  last_time = 0;
}

sink_known :
    (d : LogAppenderDefine)
    → IsKnown d
    → sink_of d ≡ some (if d.type == 1 then file d.file else stdout)
sink_known d h = elim (Bool-cases (d.type == 1)) [
  | inl b ↦ rw b refl
  | inr b ↦ elim (Bool-cases (d.type == 2)) [
    | inl c ↦ rw (b, c) refl
    | inr c ↦ absurd (ground (arith, h, b, c))
  ]
]

given-prepared :
    (f : Option LogFormatter) (d : LogAppenderDefine)
    → given f (prepared d (if d.type == 1 then file d.file else stdout)) ≡ asked f d
unfolding prepared new_appender appender_set_pattern appender_set_formatter
given-prepared f d =
    by_pattern (is_empty d.formatter) (new_formatter d.formatter).error (new_formatter d.formatter)
  where
    by_pattern :
        (e bad : Bool) (val : LogFormatter)
        → (let s = if d.type == 1 then file d.file else stdout in
            let a : LogAppender = record {
              sink = s;
              level = number d.level;
              has_formatter = false;
              formatter = none;
              last_time = 0;
            } in
            given f (
              if e
              then a
              else if bad
              then record a { has_formatter = false }
              else record a { formatter = some val; has_formatter = true })
            ≡ record {
              sink = s;
              level = number d.level;
              has_formatter = not e && not bad;
              formatter = if not e && not bad then some val else f;
              last_time = 0;
            })
    by_pattern true bad val = refl
    by_pattern false true val = refl
    by_pattern false false val = refl

map-update :
    (a : ℕ) (x : LogAppender) (heap : ℕ → LogAppender) (those : List ℕ)
    → All (λ b. b < a) those
    → map (update a x heap) those ≡ map heap those
map-update a x heap [] h = refl
map-update a x heap (b ∷ bs) (h, hs) =
    ap₂ ◌∷◌ (update_other a b x heap (λ e. absurd (omega (arith, e, h))))
      (map-update a x heap bs hs)

map-append :
    (f : ℕ → LogAppender) (xs : List ℕ) (b : ℕ) → map f (xs ++ (b ∷ [])) ≡ map f xs ++ (f b ∷ [])
map-append f [] b = refl
map-append f (x ∷ xs) b = ap (λ l. f x ∷ l) (map-append f xs b)

-- After the appenders of a definition are added to the logger `l`.
pub record Added (l : ℕ) (ds : List LogAppenderDefine) (w v : Objects) : Type 0 where
  pub level : (v.loggers l).level ≡ (w.loggers l).level
  pub formatter : (v.loggers l).formatter ≡ (w.loggers l).formatter
  pub appenders :
      map v.appenders (v.loggers l).appenders
      ≡ map w.appenders (w.loggers l).appenders ++ map (asked (w.loggers l).formatter) ds

module _ (l : ℕ) where
  one_added : LogAppenderDefine → Objects → Objects
  one_added d w =
      add_appender w.next_appender l
        (make_appender (prepared d (if d.type == 1 then file d.file else stdout)) w)

  abbrev pub AllMade : Objects → Type 0
  AllMade w = All (λ a. a < w.next_appender) (w.loggers l).appenders

  one-logger :
      (d : LogAppenderDefine) (w : Objects)
      → (one_added d w).loggers l
        ≡ record (w.loggers l) { appenders = (w.loggers l).appenders ++ (w.next_appender ∷ []) }
  unfolding one_added add_appender make_appender
  one-logger d w = update_same l _ w.loggers

  one-new :
      (d : LogAppenderDefine) (w : Objects)
      → (one_added d w).appenders w.next_appender ≡ asked (w.loggers l).formatter d
  unfolding one_added add_appender make_appender
  one-new d w =
      update_same w.next_appender _ _
      ∙ ap (given (w.loggers l).formatter) (update_same w.next_appender _ w.appenders)
      ∙ given-prepared (w.loggers l).formatter d

  one-old :
      (d : LogAppenderDefine) (w : Objects) (those : List ℕ)
      → All (λ a. a < w.next_appender) those
      → map (one_added d w).appenders those ≡ map w.appenders those
  unfolding one_added add_appender make_appender
  one-old d w those h =
      map-update w.next_appender _ _ those h ∙ map-update w.next_appender _ w.appenders those h

  one-Made : (d : LogAppenderDefine) (w : Objects) → AllMade w → AllMade (one_added d w)
  unfolding one_added add_appender make_appender
  one-Made d w h =
      subst (λ g. All (λ a. a < suc w.next_appender) g.appenders) (sym (one-logger d w))
        (All-append (λ a. a < suc w.next_appender) (w.loggers l).appenders _
          (All-map _ (λ a. a < suc w.next_appender) (w.loggers l).appenders (λ a k. omega arith) h)
          (omega arith, tt))

  add_defined-step :
      (d : LogAppenderDefine) (ds : List LogAppenderDefine) (w : Objects)
      → IsKnown d
      → add_defined l (d ∷ ds) w ≡ add_defined l ds (one_added d w)
  unfolding add_defined one_added
  add_defined-step d ds w h = rw (add_defined, sink_known d h) refl

  pub add_defined-Added :
      (ds : List LogAppenderDefine) (w : Objects)
      → All IsKnown ds
      → AllMade w
      → (v : Objects) × (add_defined l ds w ≡ ok v) × Added l ds w v
  unfolding add_defined
  add_defined-Added [] w h m =
      (w, refl, record { level = refl; formatter = refl; appenders = sym (append-nil _) })
  add_defined-Added (d ∷ ds) w (h, hs) m =
      let (v, u, r) = add_defined-Added ds (one_added d w) hs (one-Made d w m) in
      let g = one-logger d w in
      let f : ((one_added d w).loggers l).formatter ≡ (w.loggers l).formatter =
        ap (λ (x : Logger). x.formatter) g in
      let old = (w.loggers l).appenders in
      (
        v,
        add_defined-step d ds w h ∙ u,
        record {
          level = r.level ∙ ap (λ (x : Logger). x.level) g;
          formatter = r.formatter ∙ f;
          appenders =
              r.appenders
              ∙ ap₂ (λ x y. map (one_added d w).appenders x ++ map (asked y) ds)
                  (ap (λ (x : Logger). x.appenders) g) f
              ∙ ap (λ x. x ++ map (asked (w.loggers l).formatter) ds)
                  (map-append (one_added d w).appenders old w.next_appender
                    ∙ ap₂ (λ x y. x ++ (y ∷ [])) (one-old d w old m) (one-new d w))
              ∙ append_assoc (map w.appenders old) (asked (w.loggers l).formatter d ∷ [])
                  (map (asked (w.loggers l).formatter) ds);
        },
      )
