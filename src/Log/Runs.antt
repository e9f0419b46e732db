-- ===== src/Log/Runs.antt =====
-- Runs of the level names (sylar/log.cpp): tests.
use sylar_demo.Common.{ℕ, ◌≡◌, refl, List, [], ◌∷◌}
use sylar_demo.Log.{warn, to_string, level_of, from_string}

-- "Warn"
abbrev mixed : List ℕ
mixed = 87 ∷ 97 ∷ 114 ∷ 110 ∷ []

from_string_run : from_string mixed ≡ warn
unfolding from_string level_of to_string
from_string_run = refl
