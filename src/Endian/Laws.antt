-- ===== src/Endian/Laws.antt =====
-- Laws of the byte orders and of the conversion between them.
use mathlib.Core.List.{reverse-reverse, reverse-cons}
use native.Mathlib.Nat.{pow-suc}
use sylar_demo.Common.{
  ℕ, zero, suc, ◌+◌, ◌*◌, ◌/◌, ◌%◌, ◌^◌, ◌<◌, ◌≡◌, refl, ap, ap₂, ◌∙◌, List, [], ◌∷◌, reverse,
  arith, length, length-append, All, All-append,
}
use sylar_demo.Endian.{
  Endian, little, big, to_le, from_le, to_memory, from_memory, byteswap, byteswap_on_little_endian,
  byteswap_on_big_endian,
}

abbrev pub IsByte : ℕ → Type 0
IsByte b = b < 256

pub length-to_le : (n v : ℕ) → length (to_le n v) ≡ n
length-to_le zero v = refl
length-to_le (suc n) v = ap suc (length-to_le n (v / 256))

pub to_le-IsByte : (n v : ℕ) → All IsByte (to_le n v)
to_le-IsByte zero v = tt
to_le-IsByte (suc n) v = (omega arith, to_le-IsByte n (v / 256))

pub from_le-to_le : (n v : ℕ) → v < 256 ^ n → from_le (to_le n v) ≡ v
from_le-to_le zero v h = omega arith
from_le-to_le (suc n) v h = omega (arith, from_le-to_le n (v / 256) (omega (arith, pow-suc 256 n)))

pub to_le-from_le : (bs : List ℕ) → All IsByte bs → to_le (length bs) (from_le bs) ≡ bs
to_le-from_le [] h = refl
to_le-from_le (b ∷ bs) h =
    let low : (b + 256 * from_le bs) % 256 ≡ b = omega (arith, h.0) in
    let high : (b + 256 * from_le bs) / 256 ≡ from_le bs = omega (arith, h.0) in
    ap₂ ◌∷◌ low (rw high (to_le-from_le bs h.1))

pub from_le-lt : (bs : List ℕ) → All IsByte bs → from_le bs < 256 ^ length bs
from_le-lt [] h = omega arith
from_le-lt (b ∷ bs) h = omega (arith, h.0, from_le-lt bs h.1, pow-suc 256 (length bs))

pub length-reverse {ℓ} : {A : Type ℓ} (xs : List A) → length (reverse xs) ≡ length xs
length-reverse [] = refl
length-reverse (x ∷ xs) =
    omega
      (arith, ap length (reverse-cons x xs), length-append (reverse xs) (x ∷ []), length-reverse xs)

All-reverse : (P : ℕ → Type 0) (xs : List ℕ) → All P xs → All P (reverse xs)
All-reverse P [] h = tt
All-reverse P (x ∷ xs) h =
    rw reverse-cons (All-append P (reverse xs) (x ∷ []) (All-reverse P xs h.1) (h.0, tt))

pub length-to_memory : (e : Endian) (n v : ℕ) → length (to_memory e n v) ≡ n
unfolding to_memory
length-to_memory little n v = length-to_le n v
length-to_memory big n v = length-reverse (to_le n v) ∙ length-to_le n v

pub from_memory-to_memory :
    (e : Endian) (n v : ℕ) → v < 256 ^ n → from_memory e (to_memory e n v) ≡ v
unfolding to_memory from_memory
from_memory-to_memory little n v h = from_le-to_le n v h
from_memory-to_memory big n v h = rw reverse-reverse (from_le-to_le n v h)

-- The bytes of the swapped integer are the bytes in the other order.
pub to_le-byteswap : (n v : ℕ) → to_le n (byteswap n v) ≡ reverse (to_le n v)
unfolding byteswap
to_le-byteswap n v =
    let bs = reverse (to_le n v) in
    let e : length bs ≡ n = length-reverse (to_le n v) ∙ length-to_le n v in
    rw e at (to_le-from_le bs (All-reverse IsByte (to_le n v) (to_le-IsByte n v)))

pub byteswap-lt : (n v : ℕ) → byteswap n v < 256 ^ n
unfolding byteswap
byteswap-lt n v =
    let bs = reverse (to_le n v) in
    let e : length bs ≡ n = length-reverse (to_le n v) ∙ length-to_le n v in
    rw e at (from_le-lt bs (All-reverse IsByte (to_le n v) (to_le-IsByte n v)))

-- Swapping the bytes of an integer that fits n bytes twice gives it back, and the swapped integer
-- fits n bytes too.
pub byteswap-byteswap :
    (n v : ℕ) → v < 256 ^ n → (byteswap n (byteswap n v) ≡ v) × (byteswap n v < 256 ^ n)
byteswap-byteswap n v h = (twice, byteswap-lt n v)
  where
    twice : byteswap n (byteswap n v) ≡ v
    twice =
        unfold byteswap in
        (ap (λ l. from_le (reverse l)) (to_le-byteswap n v)
          ∙ ap from_le (reverse-reverse (to_le n v))
          ∙ from_le-to_le n v h)

-- On a machine of either order `byteswapOnLittleEndian` makes an integer's memory hold its bytes
-- highest first (network order), and `byteswapOnBigEndian` lowest first.
pub network_order :
    (e : Endian) (n v : ℕ)
    → (to_memory e n (byteswap_on_little_endian e n v) ≡ reverse (to_le n v))
      × (to_memory e n (byteswap_on_big_endian e n v) ≡ to_le n v)
unfolding to_memory byteswap_on_little_endian byteswap_on_big_endian
network_order little n v = (to_le-byteswap n v, refl)
network_order big n v = (refl, ap reverse (to_le-byteswap n v) ∙ reverse-reverse (to_le n v))
