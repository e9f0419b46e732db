-- ===== src/Log/Manager/Configure.antt =====
-- What the listener of sylar/log.cpp makes of a definition of a logger.
use sylar_demo.Common.{
  ℕ, ◌<◌, ◌≡◌, ◌≢◌, refl, sym, ap, ap₂, ◌∙◌, Bool, true, false, not, ◌&&◌, List, [], ◌∷◌, ◌++◌,
  Option, none, some, map, All, and_then, ne→==_false, ltb, if◌then◌else◌, update_same, ok,
  undefined,
}
use mathlib.Core.Path.{subst}
use sylar_demo.Log.{LogLevel, unknown, debug, info, warn, error, fatal}
use sylar_demo.Log.Format.{is_empty, LogFormatter, new_formatter, LogEvent, Library}
use sylar_demo.Log.Output.{
  number, Logger, Objects, set_pattern, set_formatter, set_level, clear_appenders, log,
}
use sylar_demo.Log.Output.Write.{log_below}
use sylar_demo.Log.Manager.{
  LoggerManager, LogAppenderDefine, LogDefine, get_logger, sink_of, add_defined, cleared, define,
  retire,
}
use sylar_demo.Log.Manager.Added.{IsKnown, is_right, asked, AllMade, add_defined-Added}

-- The formatter of a logger that is defined.
abbrev pub new_default : Option LogFormatter → List ℕ → Option LogFormatter
new_default f pattern = if is_right pattern then some (new_formatter pattern) else f

cleared-logger :
    (d : LogDefine) (l : ℕ) (w : Objects)
    → (cleared d l w).loggers l ≡ record (w.loggers l) {
      level = number d.level;
      appenders = [];
      formatter = new_default (w.loggers l).formatter d.formatter;
    }
unfolding set_level set_pattern set_formatter clear_appenders
cleared-logger d l w =
    update_same l _ _
    ∙ ap emptied (
        by_pattern (is_empty d.formatter) (new_formatter d.formatter).error
          (new_formatter d.formatter))
  where
    emptied : Logger → Logger
    emptied g = record g { appenders = [] }

    v : Objects
    v = set_level (number d.level) l w

    by_pattern :
        (e bad : Bool) (val : LogFormatter)
        → (if e then v else if bad then v else set_formatter (some val) l v).loggers l
          ≡ record (w.loggers l) {
            level = number d.level;
            formatter = if not e && not bad then some val else (w.loggers l).formatter;
          }
    by_pattern true bad val = update_same l _ w.loggers
    by_pattern false true val = update_same l _ w.loggers
    by_pattern false false val =
        update_same l _ v.loggers
        ∙ ap (λ (g : Logger). record g { formatter = some val }) (update_same l _ w.loggers)

-- What a definition asks of the logger `l`: its level, the appenders that it lists, in order, and the
-- formatter of its pattern, if that is right.
pub record Defined (d : LogDefine) (l : ℕ) (w v : Objects) : Type 0 where
  pub level : (v.loggers l).level ≡ number d.level
  pub formatter : (v.loggers l).formatter ≡ new_default (w.loggers l).formatter d.formatter
  pub appenders :
      map v.appenders (v.loggers l).appenders ≡ map (asked (v.loggers l).formatter) d.appenders

cleared-Made : (d : LogDefine) (l : ℕ) (w : Objects) → AllMade l (cleared d l w)
cleared-Made d l w =
    subst (λ (g : Logger). All (λ a. a < (cleared d l w).next_appender) g.appenders)
      (sym (cleared-logger d l w)) tt

add_defined-Defined :
    (d : LogDefine) (l : ℕ) (w : Objects)
    → All IsKnown d.appenders
    → (v : Objects) × (add_defined l d.appenders (cleared d l w) ≡ ok v) × Defined d l w v
add_defined-Defined d l w h =
    let (v, u, r) = add_defined-Added l d.appenders (cleared d l w) h (cleared-Made d l w) in
    let c = cleared-logger d l w in
    (
      v,
      u,
      record {
        level = r.level ∙ ap (λ (g : Logger). g.level) c;
        formatter = r.formatter ∙ ap (λ (g : Logger). g.formatter) c;
        appenders =
            r.appenders
            ∙ ap₂ (λ x f. map (cleared d l w).appenders x ++ map (asked f) d.appenders)
                (ap (λ (g : Logger). g.appenders) c) (sym r.formatter);
      },
    )

-- The listener on one definition whose appenders are of the known types: it does not fail, and the
-- logger that `getLogger` gives for the name has then the level of the definition and the appenders
-- that it lists, in order. Where the pattern of the logger is empty or wrong the logger keeps its
-- formatter, and where that of an appender is, the appender has the formatter of the logger.
pub define-Defined :
    (d : LogDefine) (m : LoggerManager)
    → All IsKnown d.appenders
    → (let (l, k) = get_logger d.name m in
        (v : Objects) × (define d m ≡ ok (record k { objects = v })) × Defined d l k.objects v)
unfolding define
define-Defined d m h =
    let (l, k) = get_logger d.name m in
    let (v, u, r) = add_defined-Defined d l k.objects h in
    (v, ap (λ c. and_then c (λ w. ok (record k { objects = w }))) u, r)

add_defined-undefined :
    (a : LogAppenderDefine) (rest : List LogAppenderDefine) (l : ℕ) (w : Objects)
    → a.type ≢ 1
    → a.type ≢ 2
    → add_defined l (a ∷ rest) w ≡ undefined
unfolding add_defined
add_defined-undefined a rest l w one two =
    let no_sink : sink_of a ≡ none = rw (ne→==_false a.type 1 one, ne→==_false a.type 2 two) refl in
    rw (add_defined, no_sink) refl

-- Where the first appender of a definition has another type, it is a null pointer, which the listener
-- follows.
pub define-undefined :
    (d : LogDefine) (m : LoggerManager) (a : LogAppenderDefine) (rest : List LogAppenderDefine)
    → d.appenders ≡ a ∷ rest
    → a.type ≢ 1
    → a.type ≢ 2
    → define d m ≡ undefined
unfolding define
define-undefined d m a rest is one two =
    let (l, k) = get_logger d.name m in
    ap (λ c. and_then c (λ w. ok (record k { objects = w })))
      (ap (λ ds. add_defined l ds (cleared d l k.objects)) is
        ∙ add_defined-undefined a rest l (cleared d l k.objects) one two)

below_hundred : (level : LogLevel) → ltb (number level) 100 ≡ true
below_hundred unknown = refl
below_hundred debug = refl
below_hundred info = refl
below_hundred warn = refl
below_hundred error = refl
below_hundred fatal = refl

retire-level :
    (d : LogDefine) (m : LoggerManager)
    → ((retire d m).objects.loggers (get_logger d.name m).0).level ≡ 100
unfolding retire set_level clear_appenders
retire-level d m =
    ap (λ (g : Logger). g.level) (update_same _ _ _)
    ∙ ap (λ (g : Logger). g.level) (update_same _ _ _)

-- A logger that is no longer defined writes nothing of any level, through its root neither.
pub log-retire :
    (lib : Library) (now : ℕ) (level : LogLevel) (e : LogEvent) (d : LogDefine) (m : LoggerManager)
    → log lib now level e (get_logger d.name m).0 (retire d m).objects
      ≡ ok ((retire d m).objects, [])
log-retire lib now level e d m =
    log_below lib level e now _ _
      (ap (λ n. ltb (number level) n) (retire-level d m) ∙ below_hundred level)
