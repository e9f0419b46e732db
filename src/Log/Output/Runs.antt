-- ===== src/Log/Output/Runs.antt =====
-- Runs of Logger (sylar/log.cpp): the theorems applied.
use sylar_demo.Common.{ℕ, ◌≡◌, ◌⊎◌, inr, refl, false, true, List, [], ◌∷◌, none, some, zero, suc}
use sylar_demo.Log.{info}
use sylar_demo.Log.Format.Sample.{lib, event}
use sylar_demo.Log.Format.{new_formatter}
use sylar_demo.Log.Output.{stdout, Objects, set_pattern, log}
use sylar_demo.Log.Output.Formatters.{Inherits, set_pattern_cases}
use sylar_demo.Log.Output.Write.{Answers, all_lines, log-all_lines}

abbrev pattern : List ℕ
pattern = b'%' ∷ b'm' ∷ []

-- The root at 0 writes to the standard output; the logger at 1 has no appender.
abbrev objects : Objects
objects = record {
  loggers = λ l. record {
    name = l ∷ [];
    level = 1;
    appenders = elim l [ zero ↦ 0 ∷ [] | suc k ↦ [] ];
    formatter = some (new_formatter pattern);
    root = elim l [ zero ↦ none | suc k ↦ some 0 ];
  };
  appenders = λ a. record {
    sink = stdout;
    level = 1;
    has_formatter = false;
    formatter = some (new_formatter pattern);
    last_time = 0;
  };
  next_logger = 2;
  next_appender = 1;
}

log-all_lines_example :
    Answers lib info event objects
      (all_lines lib info event objects 1)
      (log lib 7 info event 1 objects)
log-all_lines_example =
    log-all_lines lib info event 7 1 objects tt (inr (0, refl, refl, (refl, tt)))

set_pattern_cases_example :
    ((new_formatter pattern).error ≡ true) × (set_pattern pattern 0 objects ≡ objects)
    ⊎ ((new_formatter pattern).error ≡ false)
      × Inherits (some (new_formatter pattern)) 0 objects (set_pattern pattern 0 objects)
set_pattern_cases_example = set_pattern_cases pattern 0 objects
