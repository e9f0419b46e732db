-- ===== src/Common/Bits.antt =====
-- `&`, `|` and `^` as arithmetic, at every width. The native operations stand for a recursion on
-- the binary digits with the first argument as its fuel; one digit is split off at a time.
use Prim.Native.Nat.{
  ℕ, zero, suc, ◌+◌, ◌-◌, ◌*◌, ◌/◌, ◌%◌, ◌^◌, ◌≤◌, ◌<◌, min, max, bit_and, bit_or, bit_xor, digits,
  differ, bit_and-bitwise, bit_or-bitwise, bit_xor-bitwise,
}
use mathlib.Core.Path.{◌≡◌, refl, ap, ◌∙◌}
use mathlib.Core.WellFounded.{Acc, WellFounded}
use mathlib.Core.WellFounded.{induction}
use native.Mathlib.Nat.{pow-suc, one-le-pow}
use native.Mathlib.Omega.{arith}

Acc-below : (k n : ℕ) → n < k → Acc ◌<◌ n
Acc-below zero n h = elim h [ ]
Acc-below (suc k) n h = Acc.intro n (λ m hm. Acc-below k m (omega arith))

unfoldable pub lt_wf : WellFounded ◌<◌
unfolding Acc-below
lt_wf = record { apply = λ n. Acc-below (suc n) n (omega arith) }

-- Any fuel that covers the first argument gives the same digits.
digits-enough :
    (tail : ℕ → ℕ) (digit : ℕ → ℕ → ℕ) (f g x y : ℕ)
    → x ≤ f
    → x ≤ g
    → digits tail digit f x y ≡ digits tail digit g x y
digits-enough tail digit f g zero y p q = at_zero f ∙ back g
  where
    at_zero : (k : ℕ) → digits tail digit k zero y ≡ tail y
    at_zero zero = refl
    at_zero (suc k) = refl

    back : (k : ℕ) → tail y ≡ digits tail digit k zero y
    back zero = refl
    back (suc k) = refl
digits-enough tail digit zero g (suc x) y p q = absurd (omega arith)
digits-enough tail digit (suc f) zero (suc x) y p q = absurd (omega arith)
digits-enough tail digit (suc f) (suc g) (suc x) y p q =
    rw (digits-enough tail digit f g (suc x / 2) (y / 2) (omega arith) (omega arith))

or_digit : (a b : ℕ) → bit_or a b ≡ bit_or (a / 2) (b / 2) * 2 + max (a % 2) (b % 2)
or_digit zero b = simp bit_or-bitwise (omega arith)
or_digit (suc a) b = simp bit_or-bitwise (
    omega (
      arith,
      digits-enough (λ y. y) max a (suc a / 2) (suc a / 2) (b / 2) (omega arith) (omega arith),
    ))

and_digit : (a b : ℕ) → bit_and a b ≡ bit_and (a / 2) (b / 2) * 2 + min (a % 2) (b % 2)
and_digit zero b = simp bit_and-bitwise (omega arith)
and_digit (suc a) b = simp bit_and-bitwise (
    omega (
      arith,
      digits-enough (λ y. 0) min a (suc a / 2) (suc a / 2) (b / 2) (omega arith) (omega arith),
    ))

xor_digit : (a b : ℕ) → bit_xor a b ≡ bit_xor (a / 2) (b / 2) * 2 + differ (a % 2) (b % 2)
xor_digit zero b = simp bit_xor-bitwise (omega arith)
xor_digit (suc a) b = simp bit_xor-bitwise (
    omega (
      arith,
      digits-enough (λ y. y) differ a (suc a / 2) (suc a / 2) (b / 2) (omega arith) (omega arith),
    ))

-- Halving brings both down to 0, hence the strong induction.
pub or_zero : (a : ℕ) → bit_or a 0 ≡ a
or_zero a = induction lt_wf {C = λ n. bit_or n 0 ≡ n} a halve
  where
    halve : (n : ℕ) → ((m : ℕ) → m < n → bit_or m 0 ≡ m) → bit_or n 0 ≡ n
    halve zero ih = refl
    halve (suc n) ih = omega (arith, or_digit (suc n) 0, ih (suc n / 2) (omega arith))

pub and_zero : (a : ℕ) → bit_and a 0 ≡ 0
and_zero a = induction lt_wf {C = λ n. bit_and n 0 ≡ 0} a halve
  where
    halve : (n : ℕ) → ((m : ℕ) → m < n → bit_and m 0 ≡ 0) → bit_and n 0 ≡ 0
    halve zero ih = refl
    halve (suc n) ih = omega (arith, and_digit (suc n) 0, ih (suc n / 2) (omega arith))

pub xor_zero : (a : ℕ) → bit_xor a 0 ≡ a
xor_zero a = induction lt_wf {C = λ n. bit_xor n 0 ≡ n} a halve
  where
    differ_zero : (d : ℕ) → differ d 0 ≡ d
    differ_zero zero = refl
    differ_zero (suc d) = refl

    halve : (n : ℕ) → ((m : ℕ) → m < n → bit_xor m 0 ≡ m) → bit_xor n 0 ≡ n
    halve zero ih = refl
    halve (suc n) ih =
        omega (arith, xor_digit (suc n) 0, ih (suc n / 2) (omega arith), differ_zero (suc n % 2))

-- `b << suc k` is twice `b << k`.
shift_suc : (b k : ℕ) → b * 2 ^ suc k ≡ 2 * (b * 2 ^ k)
shift_suc b k = omega (arith, ap (λ (t : ℕ). b * t) (pow-suc 2 k))

-- `a | (b << k)` is a sum when `a` has no more than `k` bits.
pub or_shifted : (k a b : ℕ) → a < 2 ^ k → bit_or a (b * 2 ^ k) ≡ a + b * 2 ^ k
or_shifted zero zero b h = simp bit_or-bitwise (omega arith)
or_shifted zero (suc a) b h = absurd (omega arith)
or_shifted (suc k) a b h =
    ground (arith, or_digit a (b * 2 ^ suc k), shift_suc b k, pow-suc 2 k, or_shifted k (a / 2) b)

-- `a & (2 ^ k - 1)` keeps the low `k` bits.
pub and_low : (k q r : ℕ) → r < 2 ^ k → bit_and (q * 2 ^ k + r) (2 ^ k - 1) ≡ r
and_low zero q r h = rw and_zero (omega arith)
and_low (suc k) q r h = ground (
  arith,
  and_digit (q * 2 ^ suc k + r) (2 ^ suc k - 1),
  shift_suc q k,
  pow-suc 2 k,
  and_low k q (r / 2),
)

pub and_mask : (k a : ℕ) → bit_and a (2 ^ k - 1) ≡ a % 2 ^ k
and_mask k a = ground (arith, one-le-pow k 2, and_low k (a / 2 ^ k) (a % 2 ^ k))

differ_one : (d : ℕ) → d < 2 → differ d 1 ≡ 1 - d
differ_one zero h = refl
differ_one (suc zero) h = refl
differ_one (suc (suc d)) h = absurd (omega arith)

-- `a ^ (2 ^ k - 1)` inverts the low `k` bits.
pub xor_ones : (k a : ℕ) → a < 2 ^ k → bit_xor a (2 ^ k - 1) ≡ 2 ^ k - 1 - a
xor_ones zero a h = rw xor_zero (omega arith)
xor_ones (suc k) a h = ground (
  arith,
  xor_digit a (2 ^ suc k - 1),
  pow-suc 2 k,
  one-le-pow k 2,
  differ_one (a % 2),
  xor_ones k (a / 2),
)

-- The bit `k` of `q * 2 ^ k + r`, which is the lowest of `q`: tested, set and cleared.
pub and_bit : (k q r : ℕ) → r < 2 ^ k → bit_and (q * 2 ^ k + r) (2 ^ k) ≡ q % 2 * 2 ^ k
and_bit zero q r h = ground (arith, and_mask 1 (q * 2 ^ 0 + r))
and_bit (suc k) q r h = ground (
  arith,
  and_digit (q * 2 ^ suc k + r) (2 ^ suc k),
  shift_suc q k,
  shift_suc (q % 2) k,
  pow-suc 2 k,
  and_bit k q (r / 2),
)

pub or_bit :
    (k q r : ℕ) → r < 2 ^ k → bit_or (q * 2 ^ k + r) (2 ^ k) ≡ (q + (1 - q % 2)) * 2 ^ k + r
or_bit zero q r h = ground (arith, or_digit (q * 2 ^ 0 + r) 1, or_zero ((q * 2 ^ 0 + r) / 2))
or_bit (suc k) q r h = ground (
  arith,
  or_digit (q * 2 ^ suc k + r) (2 ^ suc k),
  shift_suc q k,
  shift_suc (q + (1 - q % 2)) k,
  pow-suc 2 k,
  or_bit k q (r / 2),
)

same_power : (m n : ℕ) → m ≡ n → 2 ^ m ≡ 2 ^ n
same_power m n e = ap (λ (k : ℕ). 2 ^ k) e

next_power : (n k : ℕ) → 2 ^ (n + suc k) ≡ 2 * 2 ^ (n + k)
next_power n k =
    omega (arith, same_power (n + suc k) (suc (n + k)) (omega arith), pow-suc 2 (n + k))

-- The bit is below the top.
below_power : (n k : ℕ) → 2 ^ k + 1 ≤ 2 ^ (n + suc k)
below_power zero k =
    omega (arith, same_power (0 + suc k) (suc k) (omega arith), pow-suc 2 k, one-le-pow k 2)
below_power (suc n) k = omega (
  arith,
  below_power n k,
  same_power (suc n + suc k) (suc (n + suc k)) (omega arith),
  pow-suc 2 (n + suc k),
)

pub and_not_bit :
    (k n q r : ℕ)
    → r < 2 ^ k
    → q * 2 ^ k + r < 2 ^ (n + suc k)
    → bit_and (q * 2 ^ k + r) (2 ^ (n + suc k) - 1 - 2 ^ k) ≡ (q - q % 2) * 2 ^ k + r
and_not_bit zero n q r h f = ground (
  arith,
  and_digit (q * 2 ^ 0 + r) (2 ^ (n + 1) - 1 - 2 ^ 0),
  next_power n 0,
  one-le-pow n 2,
  and_low n 0 ((q * 2 ^ 0 + r) / 2),
)
and_not_bit (suc k) n q r h f = ground (
  arith,
  and_digit (q * 2 ^ suc k + r) (2 ^ (n + suc (suc k)) - 1 - 2 ^ suc k),
  next_power n (suc k),
  below_power n k,
  shift_suc q k,
  shift_suc (q - q % 2) k,
  pow-suc 2 k,
  and_not_bit k n q (r / 2),
)
