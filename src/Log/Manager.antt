-- ===== src/Log/Manager.antt =====
-- LoggerManager of sylar/log.cpp, and the listener there that makes the loggers follow the
-- configuration.
--
-- A map from names is an association list. The file that a new file appender opens is left out.
pub mod Names
pub mod Added
pub mod Configure
mod Runs
use sylar_demo.Common.{
  ℕ, suc, Bool, true, false, not, List, [], ◌∷◌, Option, none, some, ◌==◌, if◌then◌else◌, update,
  Checked, ok, undefined, and_then, same, find,
}
use sylar_demo.Log.{LogLevel}
use sylar_demo.Log.Format.{is_empty, LogFormatter, new_formatter}
use sylar_demo.Log.Output.{
  number, Sink, stdout, file, LogAppender, Logger, Objects, new_appender, appender_set_pattern,
  set_pattern, set_level, add_appender, clear_appenders,
}

pub record LoggerManager : Type 0 where
  pub objects : Objects
  pub names : List (List ℕ × ℕ)
  pub root : ℕ

-- `root`, and the pattern of a new logger:
-- `%d{%Y-%m-%d %H:%M:%S}%T%t%T%N%T%F%T[%p]%T[%c]%T%f:%l%T%m%n`
abbrev pub root_name : List ℕ
root_name = b'r' ∷ b'o' ∷ b'o' ∷ b't' ∷ []

abbrev pub default_pattern : List ℕ
default_pattern =
    b'%' ∷ b'd' ∷ b'{' ∷ b'%' ∷ b'Y' ∷ b'-' ∷ b'%' ∷ b'm' ∷ b'-' ∷ b'%' ∷ b'd' ∷ b' ' ∷ b'%' ∷ b'H'
    ∷ b':' ∷ b'%' ∷ b'M' ∷ b':' ∷ b'%' ∷ b'S' ∷ b'}' ∷ b'%' ∷ b'T' ∷ b'%' ∷ b't' ∷ b'%' ∷ b'T'
    ∷ b'%' ∷ b'N' ∷ b'%' ∷ b'T' ∷ b'%' ∷ b'F' ∷ b'%' ∷ b'T' ∷ b'[' ∷ b'%' ∷ b'p' ∷ b']' ∷ b'%'
    ∷ b'T' ∷ b'[' ∷ b'%' ∷ b'c' ∷ b']' ∷ b'%' ∷ b'T' ∷ b'%' ∷ b'f' ∷ b':' ∷ b'%' ∷ b'l' ∷ b'%'
    ∷ b'T' ∷ b'%' ∷ b'm' ∷ b'%' ∷ b'n' ∷ []

-- A new appender, at the next address.
pub make_appender : LogAppender → Objects → Objects
make_appender a w = record w {
  appenders = update w.next_appender a w.appenders;
  next_appender = suc w.next_appender;
}

-- `Logger::Logger`, at the next address; `root` is what `getLogger` sets behind it.
abbrev pub bare_logger : List ℕ → Option ℕ → Logger
bare_logger name root = record {
  name = name;
  level = 1;
  appenders = [];
  formatter = some (new_formatter default_pattern);
  root = root;
}

pub new_logger : List ℕ → Option ℕ → Objects → Objects
unfolding make_appender add_appender new_appender
new_logger name root w =
    let l = w.next_logger in
    let v = record w {
      loggers = update l (bare_logger name root) w.loggers;
      next_logger = suc l;
    } in
    if same name root_name
    then add_appender v.next_appender l (make_appender (new_appender stdout) v)
    else v

-- The constructor: nothing is there before the root.
pub new_manager : LoggerManager
unfolding new_logger
new_manager = record {
  objects = new_logger root_name none (record {
    loggers = λ l. bare_logger [] none;
    appenders = λ a. new_appender stdout;
    next_logger = 0;
    next_appender = 0;
  });
  names = (root_name, 0) ∷ [];
  root = 0;
}

-- `getLogger`
abbrev pub get_or_create : List ℕ → Option ℕ → LoggerManager → ℕ × LoggerManager
get_or_create name (some l) m = (l, m)
get_or_create name none m = (
  m.objects.next_logger,
  record m {
    objects = new_logger name (some m.root) m.objects;
    names = (name, m.objects.next_logger) ∷ m.names;
  },
)

pub get_logger : List ℕ → LoggerManager → ℕ × LoggerManager
unfolding new_logger
get_logger name m = if is_empty name then (m.root, m) else get_or_create name (find name m.names) m

-- LogAppenderDefine and LogDefine. `type` is 1 for a file and 2 for the standard output.
pub record LogAppenderDefine : Type 0 where
  pub type : ℕ
  pub level : LogLevel
  pub formatter : List ℕ
  pub file : List ℕ

pub record LogDefine : Type 0 where
  pub name : List ℕ
  pub level : LogLevel
  pub formatter : List ℕ
  pub appenders : List LogAppenderDefine

-- The loop over the appenders: of another type there is none, and `setLevel` follows a null pointer.
abbrev pub sink_of : LogAppenderDefine → Option Sink
sink_of d = if d.type == 1 then some (file d.file) else if d.type == 2 then some stdout else none

pub prepared : LogAppenderDefine → Sink → LogAppender
unfolding appender_set_pattern new_appender
prepared d s =
    let a = record (new_appender s) { level = number d.level } in
    if is_empty d.formatter then a else appender_set_pattern d.formatter a

pub add_defined : ℕ → List LogAppenderDefine → Objects → Checked Objects
unfolding prepared make_appender add_appender
add_defined l [] w = ok w
add_defined l (d ∷ ds) w = elim (sink_of d) [
  | none ↦ undefined
  | some s ↦ add_defined l ds (add_appender w.next_appender l (make_appender (prepared d s) w))
]

-- The listener: for a logger that is defined, and for one that is so no longer.
abbrev pub cleared : LogDefine → ℕ → Objects → Objects
cleared d l w =
    let v = set_level (number d.level) l w in
    clear_appenders l (if is_empty d.formatter then v else set_pattern d.formatter l v)

pub define : LogDefine → LoggerManager → Checked LoggerManager
unfolding get_logger add_defined set_level set_pattern clear_appenders
define d m =
    let (l, k) = get_logger d.name m in
    and_then (add_defined l d.appenders (cleared d l k.objects))
      (λ w. ok (record k { objects = w }))

pub define_all : List LogDefine → LoggerManager → Checked LoggerManager
unfolding define
define_all [] m = ok m
define_all (d ∷ ds) m = and_then (define d m) (λ k. define_all ds k)

pub retire : LogDefine → LoggerManager → LoggerManager
unfolding get_logger set_level clear_appenders
retire d m =
    let (l, k) = get_logger d.name m in
    record k { objects = clear_appenders l (set_level 100 l k.objects) }

abbrev pub is_defined : List ℕ → List LogDefine → Bool
is_defined name [] = false
is_defined name (d ∷ ds) = if same d.name name then true else is_defined name ds

pub retire_all : List LogDefine → List LogDefine → LoggerManager → LoggerManager
unfolding retire
retire_all [] new m = m
retire_all (d ∷ ds) new m = retire_all ds new (if is_defined d.name new then m else retire d m)

pub on_change : List LogDefine → List LogDefine → LoggerManager → Checked LoggerManager
unfolding define_all retire_all
on_change old new m = and_then (define_all new m) (λ k. ok (retire_all old new k))
