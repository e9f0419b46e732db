-- ===== src/Config/Runs.antt =====
-- Runs of the configuration (sylar/config.h, sylar/config.cpp): tests, and the theorems applied.
use sylar_demo.Common.{
  if◌then◌else◌, ℕ, ◌+◌, ◌≡◌, ◌≢◌, ◌⊎◌, refl, List, [], ◌∷◌, ◌++◌, Option, none, some, map, arith,
  ◌==◌,
}
use sylar_demo.Config.{
  ConfigVar, Values, Config, tolower, is_name, pointer, invalid_argument, lookup_or_make, lookup,
  lookup_base, standard, foreign, normally, from_string, add_listener, del_listener,
}
use sylar_demo.Config.Lookup.{IsTable, lookup-lookup_or_make, lookup_or_make-q}
use sylar_demo.Config.Change.{IsRefused, IsAssigned, from_string_cases}
use sylar_demo.Config.Listeners.{IsMapped, add_listener-del_listener}
use sylar_demo.Config.Load.{
  Node, scalar, branch, pair, no_pair, list_all_member, load_one, load_all, load_from_yaml,
  load_from_yaml-from_string,
}

-- Values are numbers of one digit; listener 9 throws a
-- std::exception, and listener 8 something else.
abbrev digit : List ℕ → Option ℕ
digit (c ∷ []) = some c
digit _ = none

abbrev lib : Values ℕ
lib = record {
  equal = λ a b. a == b;
  from_str = λ tag s. digit s;
  to_str = λ tag v. some (v ∷ []);
  throws = λ cb old new. if cb == 9 then standard else if cb == 8 then foreign else normally;
}

abbrev port : ConfigVar ℕ
port = record {
  name = b'p' ∷ [];
  description = [];
  tag = 0;
  val = 1;
  cbs = (1, 4) ∷ (2, 9) ∷ (3, 5) ∷ [];
}

abbrev config : Config ℕ
config = record { vars = λ a. port; next = 1; datas = (b'p' ∷ [], 0) ∷ [] }

abbrev empty : Config ℕ
empty = record { vars = λ a. port; next = 0; datas = [] }

made_run : (lookup_or_make 0 (b'a' ∷ []) 5 [] empty).0 ≡ pointer 0
unfolding lookup_or_make is_name
made_run = refl

valid_run : IsTable config
unfolding is_name
valid_run = ((refl, omega arith, refl), tt)

found_run : lookup_base (map tolower (b'p' ∷ [])) config ≡ some 0
unfolding lookup_base
found_run = refl

lookup-lookup_or_make_example :
    lookup 0 (b'A' ∷ []) (lookup_or_make 0 (b'a' ∷ []) 5 [] empty).1 ≡ pointer 0
lookup-lookup_or_make_example =
    lookup-lookup_or_make 0 (b'a' ∷ []) 5 [] empty 0 (b'A' ∷ []) made_run refl

lookup_or_make-q_example :
    lookup_or_make 0 ([] ++ (b'q' ∷ b'p' ∷ [])) 5 [] config ≡ (invalid_argument, config)
lookup_or_make-q_example = lookup_or_make-q [] (b'p' ∷ []) 0 5 [] config valid_run

from_string_cases_example :
    (let r = from_string lib (2 ∷ []) port in
      IsRefused lib (2 ∷ []) port r
      ⊎ ((v : ℕ) × (lib.from_str port.tag (2 ∷ []) ≡ some v) × IsAssigned lib v port r))
from_string_cases_example = from_string_cases lib (2 ∷ []) port

add_listener-del_listener_example :
    (let (id, next, new) = add_listener 6 3 port in
      (id ≡ 3 + 1)
      × (next ≡ id)
      × IsMapped id (some 6) port new
      × IsMapped 2 none port (del_listener 2 port))
add_listener-del_listener_example =
    add_listener-del_listener port 6 3 2
      ((omega arith, (omega arith, tt)), ((omega arith, tt), (tt, tt))) (omega arith)

-- `{p: 7}`
abbrev root : Node
root = branch (pair (b'p' ∷ []) (scalar (7 ∷ [])) no_pair)

listed_run : list_all_member [] root ≡ ([], root) ∷ (b'p' ∷ [], scalar (7 ∷ [])) ∷ []
unfolding list_all_member is_name
listed_run = refl

no_name : lookup_base (map tolower []) config ≢ some 0
unfolding lookup_base
no_name e = ground (arith, e)

load_from_yaml-from_string_example :
    ((load_from_yaml lib (λ n. []) root config).2.datas ≡ config.datas)
    × ((load_from_yaml lib (λ n. []) root config).2.vars 0
        ≡ (from_string lib (7 ∷ []) (config.vars 0)).2)
unfolding load_all load_one
load_from_yaml-from_string_example =
    load_from_yaml-from_string lib (λ n. []) root 0 config (([], root) ∷ []) []
      (b'p' ∷ [], scalar (7 ∷ [])) listed_run refl found_run (no_name, tt) tt refl
