-- ===== src/Address/Runs.antt =====
-- Runs of addresses (sylar/address.cpp): tests, and the theorems applied.
use sylar_demo.Common.{ℕ, ◌≡◌, refl, true, false, List, [], ◌∷◌, Option, none, some}
use sylar_demo.Address.{compare_bytes, less, colon, split_host, UnixAddress, new_unix, get_path}
use sylar_demo.Address.Host.{split_host-colons}

-- A shorter address is below one that begins with it.
less_run :
    (less (1 ∷ 2 ∷ []) (1 ∷ 2 ∷ 0 ∷ []) ≡ true) × (less (1 ∷ 3 ∷ []) (1 ∷ 2 ∷ 0 ∷ []) ≡ false)
unfolding less compare_bytes
less_run = (refl, refl)

-- The address of the empty path is shown as the abstract one with no name.
abbrev shown : Option UnixAddress → List ℕ
shown none = []
shown (some a) = get_path a

get_path_empty : shown (new_unix []) ≡ 92 ∷ 48 ∷ []
unfolding get_path new_unix
get_path_empty = refl

-- `f::1`: the service is `::1`.
split_host-colons_example :
    split_host (102 ∷ colon ∷ colon ∷ 49 ∷ [])
    ≡ (102 ∷ colon ∷ colon ∷ 49 ∷ [], some (colon ∷ colon ∷ 49 ∷ []))
split_host-colons_example = split_host-colons (102 ∷ []) [] (49 ∷ []) refl (refl, tt) tt
