-- ===== src/Hook/Fcntl/Flags.antt =====
-- The flag O_NONBLOCK through the hooks of sylar/hook.cpp.
use sylar_demo.Common.{
  ℕ, zero, suc, ◌+◌, ◌-◌, ◌*◌, ◌/◌, ◌%◌, ◌^◌, ◌<◌, ◌≡◌, sym, ap, ◌∙◌, Bool, true, false, not,
  Option, some, arith, ◌==◌, if◌then◌else◌, bit_and,
}
use mathlib.Core.Path.{subst}
use sylar_demo.Common.Bits.{and_bit, or_bit, and_not_bit}
use sylar_demo.FdManager.{FdCtx, o_nonblock}
use sylar_demo.Hook.Fcntl.{is_managed, with_nonblock, set_flags, get_flags}

-- The flag, and all the others.
abbrev pub flag_of : ℕ → ℕ
flag_of x = bit_and x o_nonblock

abbrev pub others_of : ℕ → ℕ
others_of x = bit_and x (2 ^ 32 - 1 - o_nonblock)

abbrev pub flag : Bool → ℕ
flag true = o_nonblock
flag false = 0

parts : (x : ℕ) → x ≡ x / 2048 * 2048 + x % 2048
parts x = omega arith

flag_parts : (q r : ℕ) → r < 2048 → flag_of (q * 2048 + r) ≡ q % 2 * 2048
flag_parts q r h = and_bit 11 q r h

others_parts :
    (q r : ℕ) → r < 2048 → q * 2048 + r < 2 ^ 32 → others_of (q * 2048 + r) ≡ (q - q % 2) * 2048 + r
others_parts q r h f = and_not_bit 11 20 q r h f

set_parts : (q r : ℕ) → r < 2048 → with_nonblock true (q * 2048 + r) ≡ (q + (1 - q % 2)) * 2048 + r
set_parts q r h = or_bit 11 q r h

-- The flag is as it is set, and the others stay.
abbrev pub IsWith : Bool → ℕ → ℕ → Type 0
IsWith b x y = (flag_of y ≡ flag b) × (others_of y ≡ others_of x)

parts-IsWith :
    (b : Bool) (q r : ℕ)
    → r < 2048
    → q * 2048 + r < 2 ^ 32
    → IsWith b (q * 2048 + r) (with_nonblock b (q * 2048 + r))
parts-IsWith true q r h f =
    let p = q + (1 - q % 2) in
    (
      ap flag_of (set_parts q r h) ∙ flag_parts p r h ∙ omega arith,
      ap others_of (set_parts q r h)
          ∙ others_parts p r h (omega arith)
          ∙ ap (λ k. k * 2048 + r) (omega arith)
          ∙ sym (others_parts q r h f),
    )
parts-IsWith false q r h f =
    let p = q - q % 2 in
    (
      ap flag_of (others_parts q r h f) ∙ flag_parts p r h ∙ omega arith,
      ap others_of (others_parts q r h f)
          ∙ others_parts p r h (omega arith)
          ∙ ap (λ k. k * 2048 + r) (omega arith)
          ∙ sym (others_parts q r h f),
    )

with_nonblock-IsWith : (b : Bool) (x : ℕ) → x < 2 ^ 32 → IsWith b x (with_nonblock b x)
with_nonblock-IsWith b x h =
    subst (λ y. IsWith b y (with_nonblock b y)) (sym (parts x))
      (parts-IsWith b (x / 2048) (x % 2048) (omega arith) (omega arith))

-- The flag as a test, and back.
flag_test : (x : ℕ) → x < 2 ^ 32 → flag (not (flag_of x == 0)) ≡ flag_of x
flag_test x h =
    two (x / 2048 % 2) (omega arith)
      (ap flag_of (parts x) ∙ flag_parts (x / 2048) (x % 2048) (omega arith))
  where
    two : (d : ℕ) → d < 2 → flag_of x ≡ d * 2048 → flag (not (flag_of x == 0)) ≡ flag_of x
    two zero l e = ap (λ k. flag (not (k == 0))) e ∙ sym e
    two (suc zero) l e = ap (λ k. flag (not (k == 0))) e ∙ sym e
    two (suc (suc d)) l e = absurd (omega arith)

-- F_SETFL of a socket that is remembered hands the system the user's flags, with O_NONBLOCK just if
-- sylar has set it itself. F_GETFL then gives back the user's O_NONBLOCK, whatever that of the system
-- is, and all other flags as the system returns them.
pub get_flags-set_flags :
    (c : FdCtx) (arg now : ℕ)
    → is_managed c ≡ true
    → arg < 2 ^ 32
    → now < 2 ^ 32
    → (let (handed, ctx) = set_flags (some c) arg in
        IsWith c.sys_nonblock arg handed
        × (flag_of (get_flags ctx now) ≡ flag_of arg)
        × (others_of (get_flags ctx now) ≡ others_of now))
unfolding set_flags get_flags
get_flags-set_flags c arg now m a n =
    let t = not (flag_of arg == 0) in
    let d : FdCtx = record c { user_nonblock = t } in
    let handed : set_flags (some c) arg ≡ (with_nonblock c.sys_nonblock arg, some d) =
      ap (λ b. if b then (with_nonblock c.sys_nonblock arg, some d) else (arg, some c)) m in
    let given : get_flags (some d) now ≡ with_nonblock t now =
      ap (λ b. if b then with_nonblock t now else now) m in
    let (u, v) = with_nonblock-IsWith t now n in
    subst
      (λ (p : ℕ × Option FdCtx).
        IsWith c.sys_nonblock arg p.0
        × (flag_of (get_flags p.1 now) ≡ flag_of arg)
        × (others_of (get_flags p.1 now) ≡ others_of now))
      (sym handed)
      (
        with_nonblock-IsWith c.sys_nonblock arg a,
        ap flag_of given ∙ u ∙ flag_test arg a,
        ap others_of given ∙ v,
      )
