-- ===== src/Log/Output/Formatters.antt =====
-- Which appenders a new formatter of a Logger (sylar/log.cpp) reaches.
use mathlib.Core.Path.{subst}
use sylar_demo.Common.{
  ℕ, ◌≡◌, ◌≢◌, refl, sym, ap, ◌∙◌, ◌⊎◌, inl, inr, Bool, true, false, not, ◌&&◌, List, [], ◌∷◌,
  Option, some, Bool-cases, ◌||◌, ◌==◌, eq→==, ne→==_false, if◌then◌else◌, update, update_same,
  update_other, address-cases,
}
use sylar_demo.Log.Format.{LogFormatter, new_formatter}
use sylar_demo.Log.Output.{
  Sink, LogAppender, Objects, inherit, inherit_all, set_formatter, set_pattern,
}

abbrev pub is_listed : ℕ → List ℕ → Bool
is_listed a [] = false
is_listed a (b ∷ bs) = (b == a) || is_listed a bs

module _ (val : Option LogFormatter) where
  inherit_same : (a : LogAppender) → inherit val (inherit val a) ≡ inherit val a
  inherit_same a = again a.sink a.level a.has_formatter a.formatter a.last_time
    where
      again :
          (s : Sink) (l : ℕ) (b : Bool) (f : Option LogFormatter) (t : ℕ)
          → (let x : LogAppender = record {
            sink = s;
            level = l;
            has_formatter = b;
            formatter = f;
            last_time = t;
          } in
              inherit val (inherit val x) ≡ inherit val x)
      again s l true f t = refl
      again s l false f t = refl

  listed_twice :
      (b : Bool) (x y : LogAppender)
      → y ≡ inherit val x
      → (if b then inherit val y else y) ≡ inherit val x
  listed_twice true x y e = ap (inherit val) e ∙ inherit_same x
  listed_twice false x y e = e

  pub inherit_all_lem :
      (those : List ℕ) (heap : ℕ → LogAppender) (a : ℕ)
      → inherit_all val those heap a ≡ (if is_listed a those then inherit val (heap a) else heap a)
  unfolding inherit_all
  inherit_all_lem [] heap a = refl
  inherit_all_lem (b ∷ bs) heap a =
      let later = inherit_all_lem bs (update b (inherit val (heap b)) heap) a in
      elim (address-cases a b) [
        | inl is ↦
            later
            ∙ listed_twice (is_listed a bs) (heap a) _ (
                ap (λ c. update b (inherit val (heap b)) heap c) is
                ∙ update_same b (inherit val (heap b)) heap
                ∙ ap (λ c. inherit val (heap c)) (sym is))
            ∙ rw (eq→== b a (sym is)) refl
        | inr other ↦
            later
            ∙ rw
                (
                  update_other b a (inherit val (heap b)) heap other,
                  ne→==_false b a (λ e. other (sym e)),
                )
                refl
      ]

-- A new formatter: it is the logger's, and that of the appenders of the logger that have none of
-- their own.
abbrev pub new_of : Option LogFormatter → Bool → LogAppender → LogAppender
new_of val listed a = if listed && not a.has_formatter then record a { formatter = val } else a

abbrev pub Inherits : Option LogFormatter → ℕ → Objects → Objects → Type 0
Inherits val l w v =
    (v.loggers l ≡ record (w.loggers l) { formatter = val })
    × ((k : ℕ) → k ≢ l → v.loggers k ≡ w.loggers k)
    × ((a : ℕ) → v.appenders a ≡ new_of val (is_listed a (w.loggers l).appenders) (w.appenders a))

inherit-new_of :
    (val : Option LogFormatter) (listed : Bool) (a : LogAppender)
    → (if listed then inherit val a else a) ≡ new_of val listed a
inherit-new_of val listed a = both listed a.has_formatter
  where
    both :
        (listed own : Bool)
        → (let x = record a { formatter = val } in
            (if listed then (if own then a else x) else a) ≡ (if listed && not own then x else a))
    both true true = refl
    both true false = refl
    both false own = refl

-- `Logger::setFormatter` of a pattern. Where the pattern has an error, nothing changes. Otherwise the
-- new formatter is the logger's, and just the appenders of the logger that have no formatter of
-- their own take it; all other loggers and appenders are as before.
pub set_pattern_cases :
    (pattern : List ℕ) (l : ℕ) (w : Objects)
    → (let val = new_formatter pattern in
        ((val.error ≡ true) × (set_pattern pattern l w ≡ w))
        ⊎ ((val.error ≡ false) × Inherits (some val) l w (set_pattern pattern l w)))
unfolding set_pattern set_formatter
set_pattern_cases pattern l w =
    let val = new_formatter pattern in
    elim (Bool-cases (new_formatter pattern).error) [
      | inl b ↦ inl (b, ap (λ t. if t then w else set_formatter (some val) l w) b)
      | inr b ↦ inr (
        b,
        subst (λ t. Inherits (some val) l w (if t then w else set_formatter (some val) l w)) (sym b)
            (
              update_same l _ w.loggers,
              (λ k other. update_other l k _ w.loggers other),
              (λ a.
                  inherit_all_lem (some val) (w.loggers l).appenders w.appenders a
                  ∙ inherit-new_of (some val) (is_listed a (w.loggers l).appenders)
                      (w.appenders a)),
            ),
      )
    ]
