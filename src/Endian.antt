-- ===== src/Endian.antt =====
-- sylar/endian.h: byte orders, and the conversion between them. An unsigned or signed integer of n
-- bytes is the number below 256 ^ n that its bits stand for.
pub mod Laws
mod Runs
use sylar_demo.Common.{ℕ, zero, suc, ◌+◌, ◌*◌, ◌/◌, ◌%◌, List, [], ◌∷◌, reverse}

-- SYLAR_LITTLE_ENDIAN and SYLAR_BIG_ENDIAN.
pub data Endian : Type 0 where
  little big : Endian

-- The n bytes of an integer, lowest first, and the integer that such bytes make up.
abbrev pub to_le : ℕ → ℕ → List ℕ
to_le zero v = []
to_le (suc n) v = (v % 256) ∷ to_le n (v / 256)

abbrev pub from_le : List ℕ → ℕ
from_le [] = 0
from_le (b ∷ bs) = b + 256 * from_le bs

-- The bytes that an integer has in the memory of a machine, lowest address first, and back.
unfoldable pub to_memory : Endian → ℕ → ℕ → List ℕ
to_memory little n v = to_le n v
to_memory big n v = reverse (to_le n v)

unfoldable pub from_memory : Endian → List ℕ → ℕ
from_memory little bs = from_le bs
from_memory big bs = from_le (reverse bs)

-- `bswap_16`, `bswap_32` and `bswap_64` for n = 2, 4, 8: the bytes in the other order.
unfoldable pub byteswap : ℕ → ℕ → ℕ
byteswap n v = from_le (reverse (to_le n v))

-- SYLAR_BYTE_ORDER is the machine's order, here an argument.
pub byteswap_on_little_endian : Endian → ℕ → ℕ → ℕ
byteswap_on_little_endian big n t = t
byteswap_on_little_endian little n t = byteswap n t

pub byteswap_on_big_endian : Endian → ℕ → ℕ → ℕ
byteswap_on_big_endian big n t = byteswap n t
byteswap_on_big_endian little n t = t
