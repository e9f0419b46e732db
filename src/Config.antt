-- ===== src/Config.antt =====
-- sylar/config.h and sylar/config.cpp: the variables of the configuration, and a file read into them.
--
-- A ConfigVar is an object at an address, with the type that it was made for as a `tag`; values of
-- all types are one type `V`. Of the types it is a parameter (`Values`) when two values are the
-- same, and how a value is read and written: `none` is an exception that is a std::exception, as
-- the YAML and the boost ones are. A listener is a number, and `throws` says how it leaves. What is
-- logged, and the locks, are left out.
pub mod Keys
pub mod Lookup
pub mod Change
pub mod Listeners
pub mod Load
mod Runs
use sylar_demo.Common.{
  ℕ, suc, ◌+◌, ◌%◌, ◌^◌, Bool, true, false, not, ◌&&◌, ◌||◌, List, [], ◌∷◌, ◌++◌, Option, none,
  some, map, leb, ltb, ◌==◌, if◌then◌else◌, update, same, find,
}

pub record ConfigVar (V : Type 0) : Type 0 where
  pub name : List ℕ
  pub description : List ℕ
  pub tag : ℕ
  pub val : V
  pub cbs : List (ℕ × ℕ)

-- How a call leaves: it returns, or with an exception that is a std::exception, or with another one.
pub data Leaving : Type 0 where
  normally standard foreign : Leaving

abbrev pub is_normal : Leaving → Bool
is_normal normally = true
is_normal _ = false

pub record Values (V : Type 0) : Type 0 where
  pub equal : V → V → Bool
  pub from_str : ℕ → List ℕ → Option V
  pub to_str : ℕ → V → Option (List ℕ)
  pub throws : ℕ → V → V → Leaving

-- The objects, `GetDatas()`, and the counter of listeners, which each type has of its own.
pub record Config (V : Type 0) : Type 0 where
  pub vars : ℕ → ConfigVar V
  pub next : ℕ
  pub datas : List (List ℕ × ℕ)

-- What `fromString` returns, or that an exception leaves it.
pub data Outcome : Type 0 where
  returned : Bool → Outcome
  escaped : Outcome

-- A call of a listener, with the value before and the new one.
pub record Call (V : Type 0) : Type 0 where
  pub listener : ℕ
  pub old_value : V
  pub new_value : V

-- `tolower` in the C locale.
abbrev pub tolower : ℕ → ℕ
tolower c = if leb 65 c && leb c 90 then c + 32 else c

-- `abcdefghijkmlnopkrstuvwxyz._0123456789`
abbrev pub valid_letters : List ℕ
valid_letters =
    b'a' ∷ b'b' ∷ b'c' ∷ b'd' ∷ b'e' ∷ b'f' ∷ b'g' ∷ b'h' ∷ b'i' ∷ b'j' ∷ b'k' ∷ b'm' ∷ b'l' ∷ b'n'
    ∷ b'o' ∷ b'p' ∷ b'k' ∷ b'r' ∷ b's' ∷ b't' ∷ b'u' ∷ b'v' ∷ b'w' ∷ b'x' ∷ b'y' ∷ b'z' ∷ b'.'
    ∷ b'_' ∷ b'0' ∷ b'1' ∷ b'2' ∷ b'3' ∷ b'4' ∷ b'5' ∷ b'6' ∷ b'7' ∷ b'8' ∷ b'9' ∷ []

abbrev pub occurs : ℕ → List ℕ → Bool
occurs c [] = false
occurs c (x ∷ xs) = (c == x) || occurs c xs

-- `find_first_not_of` finds nothing.
pub is_name : List ℕ → Bool
is_name [] = true
is_name (c ∷ cs) = occurs c valid_letters && is_name cs

module _ {V : Type 0} (lib : Values V) where
  -- `toString`
  abbrev pub or_empty : Option (List ℕ) → List ℕ
  or_empty none = []
  or_empty (some s) = s

  pub to_string : ConfigVar V → List ℕ
  to_string v = or_empty (lib.to_str v.tag v.val)

  -- The loop of `setValue`: the calls, and how it leaves, at the first call that does not return.
  pub call_all : List (ℕ × ℕ) → V → V → List (Call V) × Leaving
  call_all [] old new = ([], normally)
  call_all ((id, cb) ∷ rest) old new =
      let call : Call V = record { listener = cb; old_value = old; new_value = new } in
      let (calls, thrown) = call_all rest old new in
      let how = lib.throws cb old new in
      if is_normal how then (call ∷ calls, thrown) else (call ∷ [], how)

  -- `setValue`: the calls, how it leaves, and the variable.
  pub set_value : V → ConfigVar V → List (Call V) × Leaving × ConfigVar V
  unfolding call_all
  set_value v var =
      let (calls, thrown) = call_all var.cbs var.val v in
      if lib.equal v var.val
      then ([], normally, var)
      else (calls, thrown, if is_normal thrown then record var { val = v } else var)

  -- `fromString`: the calls, what it returns or that an exception leaves it, and the variable. Only a
  -- std::exception is caught.
  abbrev pub caught : Leaving → Outcome
  caught normally = returned true
  caught standard = returned false
  caught foreign = escaped

  abbrev pub parsed : Option V → ConfigVar V → List (Call V) × Outcome × ConfigVar V
  unfolding set_value
  parsed none var = ([], returned false, var)
  parsed (some v) var = let (calls, thrown, new) = set_value v var in (calls, caught thrown, new)

  pub from_string : List ℕ → ConfigVar V → List (Call V) × Outcome × ConfigVar V
  unfolding parsed
  from_string s var = parsed (lib.from_str var.tag s) var

-- The listeners are in the order of their numbers: `m_cbs[id] = cb`, `erase`, `find` and `clear`.
pub put_listener {ℓ} : {A : Type ℓ} → ℕ → A → List (ℕ × A) → List (ℕ × A)
put_listener id cb [] = (id, cb) ∷ []
put_listener id cb ((k, a) ∷ rest) =
    let later = put_listener id cb rest in
    if ltb id k
    then (id, cb) ∷ (k, a) ∷ rest
    else if id == k
    then (id, cb) ∷ rest
    else (k, a) ∷ later

pub erase_listener {ℓ} : {A : Type ℓ} → ℕ → List (ℕ × A) → List (ℕ × A)
erase_listener id [] = []
erase_listener id ((k, a) ∷ rest) =
    let later = erase_listener id rest in if id == k then rest else (k, a) ∷ later

pub find_listener {ℓ} : {A : Type ℓ} → ℕ → List (ℕ × A) → Option A
find_listener id [] = none
find_listener id ((k, a) ∷ rest) =
    let later = find_listener id rest in if id == k then some a else later

-- `addListener` with the counter of the type, `delListener`, `getListener` and `clearListener`.
module _ {V : Type 0} where
  pub add_listener : ℕ → ℕ → ConfigVar V → ℕ × ℕ × ConfigVar V
  unfolding put_listener
  add_listener cb counter var =
      let id = (counter + 1) % 2 ^ 64 in (id, id, record var { cbs = put_listener id cb var.cbs })

  pub del_listener : ℕ → ConfigVar V → ConfigVar V
  unfolding erase_listener
  del_listener key var = record var { cbs = erase_listener key var.cbs }

  pub get_listener : ℕ → ConfigVar V → Option ℕ
  unfolding find_listener
  get_listener key var = find_listener key var.cbs

  pub clear_listener : ConfigVar V → ConfigVar V
  clear_listener var = record var { cbs = [] }

-- What `Lookup` gives: a variable, a null pointer, or an exception.
pub data Found : Type 0 where
  pointer : ℕ → Found
  null : Found
  invalid_argument : Found

module _ {V : Type 0} where
  -- `dynamic_pointer_cast`
  abbrev pub cast : ℕ → ℕ → Config V → Found
  cast tag a c = if (c.vars a).tag == tag then pointer a else null

  abbrev pub make : ℕ → List ℕ → V → List ℕ → Config V → Found × Config V
  make tag name default_value description c = (
    pointer c.next,
    record c {
      vars =
          update c.next
            (record {
              name = map tolower name;
              description = description;
              tag = tag;
              val = default_value;
              cbs = [];
            })
            c.vars;
      next = suc c.next;
      datas = (name, c.next) ∷ c.datas;
    },
  )

  abbrev pub look : Option ℕ → ℕ → List ℕ → V → List ℕ → Config V → Found × Config V
  unfolding is_name
  look (some a) tag name default_value description c = (cast tag a c, c)
  look none tag name default_value description c =
      if is_name name then make tag name default_value description c else (invalid_argument, c)

  -- `Lookup`, that makes what it does not find, and that which does not.
  pub lookup_or_make : ℕ → List ℕ → V → List ℕ → Config V → Found × Config V
  unfolding look
  lookup_or_make tag name default_value description c =
      look (find (map tolower name) c.datas) tag name default_value description c

  abbrev pub cast_found : Option ℕ → ℕ → Config V → Found
  cast_found none tag c = null
  cast_found (some a) tag c = cast tag a c

  pub lookup : ℕ → List ℕ → Config V → Found
  lookup tag name c = cast_found (find (map tolower name) c.datas) tag c

  pub lookup_base : List ℕ → Config V → Option ℕ
  lookup_base name c = find name c.datas
