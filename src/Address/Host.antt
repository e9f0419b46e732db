-- ===== src/Address/Host.antt =====
-- The node and the service of a host, for Address::Lookup (sylar/address.cpp).
use sylar_demo.Common.{ℕ, ◌≡◌, refl, false, List, [], ◌∷◌, ◌++◌, none, some, All, ◌==◌, eq→==}
use sylar_demo.Address.{open_bracket, close_bracket, colon, find_byte, split_brackets, split_host}

-- None of the bytes is `c`.
abbrev pub IsFreeOf : ℕ → List ℕ → Type 0
IsFreeOf c l = All (λ x. (x == c) ≡ false) l

find_byte_first : (c : ℕ) (a s : List ℕ) → IsFreeOf c a → find_byte c (a ++ (c ∷ s)) ≡ some (a, s)
unfolding find_byte
find_byte_first c [] s f = rw (eq→== c c refl) refl
find_byte_first c (x ∷ xs) s f = rw (f.0, find_byte_first c xs s f.1) refl

find_byte-none : (c : ℕ) (a : List ℕ) → IsFreeOf c a → find_byte c a ≡ none
unfolding find_byte
find_byte-none c [] f = refl
find_byte-none c (x ∷ xs) f = rw (f.0, find_byte-none c xs f.1) refl

-- A host `[address]:service` is split at the bracket, whatever colons the address has.
pub split_host-brackets :
    (x : ℕ) (a service : List ℕ)
    → IsFreeOf close_bracket (x ∷ a)
    → split_host (open_bracket ∷ x ∷ (a ++ (close_bracket ∷ colon ∷ service)))
      ≡ (x ∷ a, some service)
unfolding split_host split_brackets
split_host-brackets x a service f =
    rw (find_byte_first close_bracket (x ∷ a) (colon ∷ service) f) refl

-- A host `node:service` with one colon, and no bracket in front, is split at the colon.
pub split_host-port :
    (x : ℕ) (a service : List ℕ)
    → (x == open_bracket) ≡ false
    → IsFreeOf colon (x ∷ a)
    → IsFreeOf colon service
    → split_host (x ∷ (a ++ (colon ∷ service))) ≡ (x ∷ a, some service)
unfolding split_host split_brackets
split_host-port x a service o f g =
    rw (o, find_byte_first colon (x ∷ a) service f, find_byte-none colon service g) refl

-- There is no bracket in front.
abbrev pub IsUnbracketed : List ℕ → Type 0
IsUnbracketed [] = Unit
IsUnbracketed (x ∷ a) = (x == open_bracket) ≡ false

-- A host with at least two colons and no bracket in front, as an IPv6 address has: `a` stands in front
-- of the first colon, and may be empty, and `b` between it and the second. The node is the whole host,
-- and the service is what begins with the first colon.
pub split_host-colons :
    (a b c : List ℕ)
    → IsUnbracketed a
    → IsFreeOf colon a
    → IsFreeOf colon b
    → (let rest = b ++ (colon ∷ c) in
        split_host (a ++ (colon ∷ rest)) ≡ (a ++ (colon ∷ rest), some (colon ∷ rest)))
unfolding split_host split_brackets find_byte
split_host-colons [] b c o f g = rw (find_byte_first colon b c g) refl
split_host-colons (x ∷ a) b c o f g =
    rw (o, find_byte_first colon (x ∷ a) (b ++ (colon ∷ c)) f, find_byte_first colon b c g) refl

-- A host with no colon and no bracket in front is the node, and there is no service.
pub split_host-plain :
    (x : ℕ) (a : List ℕ)
    → (x == open_bracket) ≡ false
    → IsFreeOf colon (x ∷ a)
    → split_host (x ∷ a) ≡ (x ∷ a, none)
unfolding split_host split_brackets
split_host-plain x a o f = rw (o, find_byte-none colon (x ∷ a) f) refl
