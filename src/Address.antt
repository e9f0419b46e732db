-- ===== src/Address.antt =====
-- sylar/address.cpp: the order of addresses, the two parts of a host for Address::Lookup, and the
-- paths of UnixAddress.
--
-- A string and a sockaddr are lists of bytes. getaddrinfo gets what `split_host` returns: the node and
-- the service, where a pointer into the host is the rest of the host from there.
pub mod Compare
pub mod Host
pub mod Path
mod Runs
use sylar_demo.Common.{
  ℕ, zero, suc, ◌+◌, ◌-◌, min, Bool, true, false, not, ◌&&◌, List, [], ◌∷◌, ◌++◌, Option, none,
  some, length, take, drop, replicate, ltb, ◌==◌, if◌then◌else◌,
}

-- `memcmp` of the first `n` bytes.
pub data Compared : Type 0 where
  below same above : Compared

pub compare_bytes : ℕ → List ℕ → List ℕ → Compared
compare_bytes zero a b = same
compare_bytes (suc n) (x ∷ xs) (y ∷ ys) =
    let rest = compare_bytes n xs ys in if ltb x y then below else if ltb y x then above else rest
compare_bytes (suc n) [] b = same
compare_bytes (suc n) (x ∷ xs) [] = same

-- `operator<`, `operator==` and `operator!=`
abbrev pub is_below : Compared → Bool → Bool
is_below below shorter = true
is_below above shorter = false
is_below same shorter = shorter

pub less : List ℕ → List ℕ → Bool
unfolding compare_bytes
less a b = is_below (compare_bytes (min (length a) (length b)) a b) (ltb (length a) (length b))

abbrev pub is_same : Compared → Bool
is_same same = true
is_same _ = false

pub equal : List ℕ → List ℕ → Bool
unfolding compare_bytes
equal a b = (length a == length b) && is_same (compare_bytes (length a) a b)

pub unequal : List ℕ → List ℕ → Bool
unfolding equal
unequal a b = not (equal a b)

abbrev pub open_bracket : ℕ
open_bracket = 91

abbrev pub close_bracket : ℕ
close_bracket = 93

abbrev pub colon : ℕ
colon = 58

-- `memchr`: what is in front of the first such byte, and what is behind it.
abbrev pub found_on : ℕ → Option (List ℕ × List ℕ) → Option (List ℕ × List ℕ)
found_on x none = none
found_on x (some r) = some (x ∷ r.0, r.1)

pub find_byte : ℕ → List ℕ → Option (List ℕ × List ℕ)
find_byte c [] = none
find_byte c (x ∷ xs) =
    let rest = find_byte c xs in if x == c then some ([], xs) else found_on x rest

-- The node and the service.
abbrev pub Split : Type 0
Split = List ℕ × Option (List ℕ)

-- The check for `[address]:service`.
abbrev pub after_bracket : List ℕ → Option (List ℕ)
after_bracket [] = none
after_bracket (x ∷ xs) = if x == colon then some xs else none

abbrev pub in_brackets : Option (List ℕ × List ℕ) → Split
in_brackets none = ([], none)
in_brackets (some r) = (r.0, after_bracket r.1)

pub split_brackets : List ℕ → Split
unfolding find_byte
split_brackets [] = ([], none)
split_brackets (x ∷ xs) =
    if x == open_bracket then in_brackets (find_byte close_bracket xs) else ([], none)

-- The check for `node:service`. With a second colon, the service still points to the first.
abbrev pub is_none : {A : Type 0} → Option A → Bool
is_none none = true
is_none (some a) = false

abbrev pub at_colon : Option (List ℕ × List ℕ) → Split
unfolding find_byte
at_colon none = ([], none)
at_colon (some r) =
    if is_none (find_byte colon r.1) then (r.0, some r.1) else ([], some (colon ∷ r.1))

abbrev pub is_empty : List ℕ → Bool
is_empty [] = true
is_empty (x ∷ xs) = false

pub split_host : List ℕ → Split
unfolding split_brackets find_byte
split_host host =
    let first = split_brackets host in
    let second = if is_empty first.0 then at_colon (find_byte colon host) else first in
    if is_empty second.0 then (host, second.1) else second

-- `UnixAddress`: the 108 bytes of sun_path, and m_length.
pub record UnixAddress : Type 0 where
  pub sun_path : List ℕ
  pub size : ℕ

abbrev pub starts_with_zero : List ℕ → Bool
starts_with_zero [] = false
starts_with_zero (x ∷ xs) = x == 0

-- `UnixAddress(path)`: `none` where it throws. sun_path starts at byte 2 of the sockaddr.
pub new_unix : List ℕ → Option UnixAddress
new_unix path =
    let copied = if starts_with_zero path then length path else length path + 1 in
    if ltb 108 copied
    then none
    else some (record {
      sun_path = take copied (path ++ (0 ∷ [])) ++ replicate (108 - copied) 0;
      size = copied + 2;
    })

-- A C string: the bytes in front of the first that is 0.
pub c_string : List ℕ → List ℕ
c_string [] = []
c_string (x ∷ xs) = let rest = c_string xs in if x == 0 then [] else x ∷ rest

-- `getPath`: a backslash and a 0, where the path starts with a zero byte.
pub get_path : UnixAddress → List ℕ
unfolding c_string
get_path a =
    if ltb 2 a.size && starts_with_zero a.sun_path
    then 92 ∷ 48 ∷ take (a.size - 2 - 1) (drop 1 a.sun_path)
    else c_string a.sun_path
