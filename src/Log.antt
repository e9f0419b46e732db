-- ===== src/Log.antt =====
-- sylar/log.h and sylar/log.cpp: the levels of the logger and their names. A string is the list of
-- its bytes.
pub mod Level
pub mod Format
pub mod Output
pub mod Manager
mod Runs
use sylar_demo.Common.{
  ℕ, zero, suc, ◌-◌, Bool, true, false, ◌&&◌, List, [], ◌∷◌, map, leb, ◌==◌, if◌then◌else◌, same,
}

-- LogLevel::Level
pub data LogLevel : Type 0 where
  unknown debug info warn error fatal : LogLevel

pub to_string : LogLevel → List ℕ
to_string debug = 68 ∷ 69 ∷ 66 ∷ 85 ∷ 71 ∷ []
to_string info = 73 ∷ 78 ∷ 70 ∷ 79 ∷ []
to_string warn = 87 ∷ 65 ∷ 82 ∷ 78 ∷ []
to_string error = 69 ∷ 82 ∷ 82 ∷ 79 ∷ 82 ∷ []
to_string fatal = 70 ∷ 65 ∷ 84 ∷ 65 ∷ 76 ∷ []
to_string unknown = 85 ∷ 78 ∷ 75 ∷ 78 ∷ 79 ∷ 87 ∷ 78 ∷ []

-- `toupper` in the C locale, and what `strcmp` sees of `c_str()`: the bytes before the first NUL.
abbrev pub toupper : ℕ → ℕ
toupper c = if leb 97 c && leb c 122 then c - 32 else c

abbrev pub c_str : List ℕ → List ℕ
c_str [] = []
c_str (x ∷ xs) = if x == 0 then [] else x ∷ c_str xs

-- The tests of `FromString` in their order, on the string in capitals.
pub level_of : List ℕ → LogLevel
unfolding to_string
level_of s =
    if same s (to_string debug)
    then debug
    else if same s (to_string info)
    then info
    else if same s (to_string warn)
    then warn
    else if same s (to_string error)
    then error
    else if same s (to_string fatal)
    then fatal
    else unknown

pub from_string : List ℕ → LogLevel
from_string str = level_of (c_str (map toupper str))
