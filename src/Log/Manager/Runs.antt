-- ===== src/Log/Manager/Runs.antt =====
-- Runs of LoggerManager (sylar/log.cpp): the theorems applied.
use sylar_demo.Common.{ℕ, ◌≡◌, refl, List, [], ◌∷◌, ok}
use sylar_demo.Log.{info, warn}
use sylar_demo.Log.Format.Sample.{lib, event}
use sylar_demo.Log.Output.{Objects, log}
use sylar_demo.Log.Manager.{LogDefine, new_manager, get_logger, define, retire}
use sylar_demo.Log.Manager.Names.{Named, get_logger-Named, new_manager-IsNamed}
use sylar_demo.Log.Manager.Configure.{Defined, define-Defined, log-retire}

abbrev system : List ℕ
system = b's' ∷ b'y' ∷ b's' ∷ []

abbrev definition : LogDefine
definition = record {
  name = system;
  level = warn;
  formatter = b'%' ∷ b'm' ∷ [];
  appenders =
      record { type = 2; level = info; formatter = []; file = [] }
      ∷ record { type = 1; level = warn; formatter = b'%' ∷ b'p' ∷ []; file = b'f' ∷ [] }
      ∷ [];
}

get_logger-Named_example : Named system new_manager (get_logger system new_manager)
get_logger-Named_example = get_logger-Named system new_manager new_manager-IsNamed refl

define-Defined_example :
    (v : Objects) × (define definition new_manager
      ≡ ok (record (get_logger system new_manager).1 { objects = v }))
    × Defined definition
        (get_logger system new_manager).0
        (get_logger system new_manager).1.objects
        v
define-Defined_example = define-Defined definition new_manager (refl, (refl, tt))

log-retire_example :
    log lib 7 warn event (get_logger system new_manager).0 (retire definition new_manager).objects
    ≡ ok ((retire definition new_manager).objects, [])
log-retire_example = log-retire lib 7 warn event definition new_manager
