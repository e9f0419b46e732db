-- ===== src/Log/Output.antt =====
-- Logger and the appenders of sylar/log.h and sylar/log.cpp: what is written, and where.
--
-- Loggers and appenders are objects at addresses, which a shared pointer holds. A level is its number,
-- since the listener in Manager.antt makes one that is not of the enumeration. What the code prints
-- about a wrong pattern is left out, and `time(0)` is the same throughout a call.
pub mod Formatters
pub mod Write
mod Runs
use sylar_demo.Common.{
  ℕ, zero, suc, ◌+◌, Bool, true, false, List, [], ◌∷◌, ◌++◌, Option, none, some, ltb, ◌==◌,
  if◌then◌else◌, update, Checked, ok, undefined, and_then,
}
use sylar_demo.Log.{LogLevel, unknown, debug, info, warn, error, fatal}
use sylar_demo.Log.Format.{LogFormatter, new_formatter, LogEvent, Library, format}

abbrev pub number : LogLevel → ℕ
number unknown = 0
number debug = 1
number info = 2
number warn = 3
number error = 4
number fatal = 5

-- StdoutLogAppender, or FileLogAppender with its `m_filename`.
pub data Sink : Type 0 where
  stdout : Sink
  file : List ℕ → Sink

pub record LogAppender : Type 0 where
  pub sink : Sink
  pub level : ℕ
  pub has_formatter : Bool
  pub formatter : Option LogFormatter
  pub last_time : ℕ

pub record Logger : Type 0 where
  pub name : List ℕ
  pub level : ℕ
  pub appenders : List ℕ
  pub formatter : Option LogFormatter
  pub root : Option ℕ

-- The objects, and the addresses from which new ones are made.
pub record Objects : Type 0 where
  pub loggers : ℕ → Logger
  pub appenders : ℕ → LogAppender
  pub next_logger : ℕ
  pub next_appender : ℕ

-- What a call does to the world: a file opened again, or a text written.
pub data Output : Type 0 where
  reopened : List ℕ → Output
  wrote : Sink → List ℕ → Output

-- `LogAppender::LogAppender`. The file that the file appender's opens besides is left out.
unfoldable pub new_appender : Sink → LogAppender
new_appender s = record {
  sink = s;
  level = 1;
  has_formatter = false;
  formatter = none;
  last_time = 0;
}

abbrev pub is_some {ℓ} : {A : Type ℓ} → Option A → Bool
is_some none = false
is_some (some a) = true

-- `LogAppender::setFormatter`, of a pointer and of a pattern.
unfoldable pub appender_set_formatter : Option LogFormatter → LogAppender → LogAppender
appender_set_formatter val a = record a { formatter = val; has_formatter = is_some val }

unfoldable pub appender_set_pattern : List ℕ → LogAppender → LogAppender
unfolding appender_set_formatter
appender_set_pattern pattern a =
    let val = new_formatter pattern in
    if val.error then record a { has_formatter = false } else appender_set_formatter (some val) a

-- The loop of `Logger::setFormatter`.
abbrev pub inherit : Option LogFormatter → LogAppender → LogAppender
inherit val a = if a.has_formatter then a else record a { formatter = val }

pub inherit_all : Option LogFormatter → List ℕ → (ℕ → LogAppender) → ℕ → LogAppender
inherit_all val [] heap = heap
inherit_all val (a ∷ rest) heap = inherit_all val rest (update a (inherit val (heap a)) heap)

-- `Logger::setFormatter`, of a pointer and of a pattern.
unfoldable pub set_formatter : Option LogFormatter → ℕ → Objects → Objects
unfolding inherit_all
set_formatter val l w = record w {
  loggers = update l (record (w.loggers l) { formatter = val }) w.loggers;
  appenders = inherit_all val (w.loggers l).appenders w.appenders;
}

unfoldable pub set_pattern : List ℕ → ℕ → Objects → Objects
unfolding set_formatter
set_pattern pattern l w =
    let val = new_formatter pattern in if val.error then w else set_formatter (some val) l w

-- `Logger::setLevel`
unfoldable pub set_level : ℕ → ℕ → Objects → Objects
set_level level l w = record w {
  loggers = update l (record (w.loggers l) { level = level }) w.loggers;
}

-- `Logger::addAppender`
abbrev pub given : Option LogFormatter → LogAppender → LogAppender
given f a = if is_some a.formatter then a else record a { formatter = f }

unfoldable pub add_appender : ℕ → ℕ → Objects → Objects
add_appender a l w =
    let g = w.loggers l in
    record w {
      loggers = update l (record g { appenders = g.appenders ++ (a ∷ []) }) w.loggers;
      appenders = update a (given g.formatter (w.appenders a)) w.appenders;
    }

-- `Logger::delAppender` erases the first that is the same.
abbrev pub erase : ℕ → List ℕ → List ℕ
erase a [] = []
erase a (b ∷ bs) = if b == a then bs else b ∷ erase a bs

pub del_appender : ℕ → ℕ → Objects → Objects
del_appender a l w =
    let g = w.loggers l in
    record w { loggers = update l (record g { appenders = erase a g.appenders }) w.loggers }

-- `Logger::clearAppenders`
unfoldable pub clear_appenders : ℕ → Objects → Objects
clear_appenders l w = record w {
  loggers = update l (record (w.loggers l) { appenders = [] }) w.loggers;
}

-- `log` of an appender: of the file appender, the file is opened again where the second is another.
abbrev pub reopen_at : ℕ → Sink → LogAppender → LogAppender × List Output
reopen_at now stdout a = (a, [])
reopen_at now (file name) a =
    if now == a.last_time then (a, []) else (record a { last_time = now }, reopened name ∷ [])

abbrev pub write : Library → LogLevel → LogEvent → LogAppender → Checked Output
write lib level e a = elim a.formatter [
  | none ↦ undefined
  | some f ↦ ok (wrote a.sink (format lib f level e))
]

pub appender_log :
    Library → ℕ → LogLevel → LogEvent → LogAppender → Checked (LogAppender × List Output)
appender_log lib now level e a =
    if ltb (number level) a.level
    then ok (a, [])
    else (let (b, out) = reopen_at now a.sink a in
        and_then (write lib level e a) (λ text. ok (b, out ++ (text ∷ []))))

-- The loop of `Logger::log`.
pub log_each :
    Library
    → ℕ
    → LogLevel
    → LogEvent
    → List ℕ
    → (ℕ → LogAppender)
    → Checked ((ℕ → LogAppender) × List Output)
unfolding appender_log
log_each lib now level e [] heap = ok (heap, [])
log_each lib now level e (a ∷ rest) heap =
    and_then (appender_log lib now level e (heap a)) (λ (b, out).
      and_then (log_each lib now level e rest (update a b heap))
        (λ (heap', later). ok (heap', out ++ later)))

-- `Logger::log`, with fuel for the loggers that it passes an event on to.
pub log_deep : Library → ℕ → LogLevel → LogEvent → ℕ → ℕ → Objects → Checked (Objects × List Output)
unfolding log_each
log_deep lib now level e zero l w = undefined
log_deep lib now level e (suc n) l w =
    let later : Checked (Objects × List Output) = elim (w.loggers l).root [
      | none ↦ ok (w, [])
      | some r ↦ log_deep lib now level e n r w
    ] in
    if ltb (number level) (w.loggers l).level then ok (w, []) else elim (w.loggers l).appenders [
      | [] ↦ later
      | a ∷ rest ↦
          and_then (log_each lib now level e (a ∷ rest) w.appenders)
            (λ (heap, out). ok (record w { appenders = heap }, out))
    ]

-- A logger passes an event on to the root, and that to none.
pub log : Library → ℕ → LogLevel → LogEvent → ℕ → Objects → Checked (Objects × List Output)
log lib now level e l w = log_deep lib now level e 2 l w
