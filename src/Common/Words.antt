-- ===== src/Common/Words.antt =====
-- Unsigned machine words are numbers below 2 ^ w; the operations cut off at the width as C does.
use Prim.Native.Nat.{ℕ, ◌+◌, ◌-◌, ◌%◌, ◌^◌}
use mathlib.Core.Bool.{Bool}
use sylar_demo.Common.Tests.{ltb, leb, if◌then◌else◌}

-- The addition and the subtraction of `size_t` and `uint64_t`; `-` on ℕ stops at 0.
abbrev pub add64 : ℕ → ℕ → ℕ
add64 a b = (a + b) % 2 ^ 64

abbrev pub sub64 : ℕ → ℕ → ℕ
sub64 a b = (a + 2 ^ 64 - b) % 2 ^ 64

-- The conversions to narrower unsigned types.
abbrev pub u8 : ℕ → ℕ
u8 a = a % 2 ^ 8

abbrev pub u16 : ℕ → ℕ
u16 a = a % 2 ^ 16

abbrev pub u32 : ℕ → ℕ
u32 a = a % 2 ^ 32

abbrev pub u64 : ℕ → ℕ
u64 a = a % 2 ^ 64

-- `a <= b` on 32-bit patterns as `int`, and an `int` as an index, where a negative one wraps.
abbrev pub int_leb : ℕ → ℕ → Bool
int_leb a b = leb ((a + 2 ^ 31) % 2 ^ 32) ((b + 2 ^ 31) % 2 ^ 32)

abbrev pub int_index : ℕ → ℕ
int_index i = if ltb i (2 ^ 31) then i else i + (2 ^ 64 - 2 ^ 32)
