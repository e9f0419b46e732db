-- ===== src/Hook/Sleep.antt =====
-- The times that `sleep`, `usleep` and `nanosleep` wait (sylar/hook.cpp).
use sylar_demo.Common.{
  ℕ, ◌*◌, ◌^◌, ◌≤◌, ◌<◌, ◌≡◌, ◌⊎◌, inl, inr, arith, Bool-cases, leb, leb→le, leb_false→lt,
}
use sylar_demo.Hook.{sleep_ms}

-- `sleep` waits for the seconds it is given, as long as that is less than 2 ^ 32 ms, which is 49 days;
-- for more it waits for less.
pub sleep_ms_cases :
    (seconds : ℕ)
    → seconds < 2 ^ 32
    → ((seconds ≤ 4294967) × (sleep_ms seconds ≡ seconds * 1000))
      ⊎ ((4294967 < seconds) × (sleep_ms seconds < seconds * 1000))
unfolding sleep_ms
sleep_ms_cases seconds h = elim (Bool-cases (leb seconds 4294967)) [
  | inl e ↦ inl (leb→le _ _ e, omega (arith, leb→le _ _ e))
  | inr e ↦ inr (leb_false→lt _ _ e, omega (arith, leb_false→lt _ _ e))
]
