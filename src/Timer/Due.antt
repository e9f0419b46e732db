-- ===== src/Timer/Due.antt =====
-- `getNextTimer`, and how `listExpiredCb` takes the timers that are due out of the set
-- (sylar/timer.cpp).
use mathlib.Core.List.{append_assoc}
use sylar_demo.Common.{
  ℕ, ◌+◌, ◌-◌, ◌^◌, ◌<◌, ◌≤◌, ◌≡◌, ◌↔◌, refl, ap, ◌∙◌, ◌⊎◌, inl, inr, true, false, List, [], ◌∷◌,
  ◌++◌, arith, All, All-map, All-append, ◌==◌, Bool-cases, eq→==,
}
use sylar_demo.Timer.{
  Timer, TimerManager, before, update, timer_at, lower_bound, skip_now, split_due, get_next_timer,
  until_first, detect_clock_rollover,
}
use sylar_demo.Timer.Order.{Earlier, before-Earlier, not_before_le, Sorted, holds}
use sylar_demo.Timer.Change.{IsOrdered}

-- The timers in the set that are due, and those that are not.
pub record Due (heap : ℕ → Timer) (now : ℕ) (l : List ℕ) (result : List ℕ × List ℕ) : Type 0 where
  pub parts : result.0 ++ result.1 ≡ l
  pub due : All (λ a. (heap a).next ≤ now) result.0
  pub waiting : All (λ a. now < (heap a).next) result.1

later_too :
    (heap : ℕ → Timer) (n x : ℕ) (l : List ℕ)
    → n ≤ (heap x).next
    → All (λ y. Earlier heap x y) l
    → All (λ a. n ≤ (heap a).next) l
later_too heap n x l h p = All-map _ _ l (λ y e. ground (arith, e, h)) p

-- Where `lower_bound` of a timer that is due now stops.
record Bound (heap : ℕ → Timer) (now : ℕ) (l : List ℕ) (result : List ℕ × List ℕ) : Type 0 where
  parts : result.0 ++ result.1 ≡ l
  due : All (λ a. (heap a).next ≤ now) result.0
  ordered : Sorted heap result.1
  not_before : All (λ a. now ≤ (heap a).next) result.1

lower_bound-Bound :
    (heap : ℕ → Timer) (now probe : ℕ) (l : List ℕ)
    → Sorted heap l
    → holds probe l ≡ false
    → Bound heap now l (lower_bound (update probe (timer_at now) heap) probe l)
unfolding lower_bound
lower_bound-Bound heap now probe [] s h = record {
  parts = refl;
  due = tt;
  ordered = tt;
  not_before = tt;
}
lower_bound-Bound heap now probe (y ∷ ys) s h =
    let other : (y == probe) ≡ false = ground (arith, h) in
    let later : holds probe ys ≡ false = ground (arith, h) in
    let heap' = update probe (timer_at now) heap in
    let at_y : (heap' y).next ≡ (heap y).next = unfold update in rw other refl in
    let at_probe : (heap' probe).next ≡ now = unfold update in rw (eq→== probe probe refl) refl in
    elim (Bool-cases (before heap' y probe)) [
      | inl e ↦
          let rest = lower_bound-Bound heap now probe ys s.1 later in
          rw e (record {
            parts = ap (λ l. y ∷ l) rest.parts;
            due = (ground (arith, before-Earlier heap' y probe e, at_y, at_probe), rest.due);
            ordered = rest.ordered;
            not_before = rest.not_before;
          })
      | inr e ↦
          let fits : now ≤ (heap y).next =
            omega (arith, not_before_le heap' y probe e, at_y, at_probe) in
          rw e (record {
            parts = refl;
            due = tt;
            ordered = s;
            not_before = (fits, later_too heap now y ys fits s.0);
          })
    ]

skip_now-Due :
    (heap : ℕ → Timer) (now : ℕ) (l : List ℕ)
    → Sorted heap l
    → All (λ a. now ≤ (heap a).next) l
    → Due heap now l (skip_now heap now l)
unfolding skip_now
skip_now-Due heap now [] s h = record { parts = refl; due = tt; waiting = tt }
skip_now-Due heap now (y ∷ ys) s h = elim (Bool-cases ((heap y).next == now)) [
  | inl e ↦
      let rest = skip_now-Due heap now ys s.1 h.1 in
      rw e (record {
        parts = ap (λ l. y ∷ l) rest.parts;
        due = (ground (arith, e), rest.due);
        waiting = rest.waiting;
      })
  | inr e ↦
      let over : now < (heap y).next = ground (arith, e, h.0) in
      rw e (record {
        parts = refl;
        due = tt;
        waiting = (over, All-map _ _ ys (λ z k. ground (arith, k, over)) s.0);
      })
]

-- The timers that are taken out, when the clock is not found to have gone back: those whose time has
-- come. The new timer that is searched for is at an address of its own.
pub split_due-Due :
    (now probe : ℕ) (s : TimerManager)
    → IsOrdered s
    → holds probe s.timers ≡ false
    → Due s.heap now s.timers (split_due false now probe s)
unfolding split_due
split_due-Due now probe s o h =
    let low = lower_bound (update probe (timer_at now) s.heap) probe s.timers in
    let b = lower_bound-Bound s.heap now probe s.timers o h in
    let k = skip_now-Due s.heap now low.1 b.ordered b.not_before in
    record {
      parts =
          append_assoc low.0 (skip_now s.heap now low.1).0 (skip_now s.heap now low.1).1
          ∙ ap (λ l. low.0 ++ l) k.parts
          ∙ b.parts;
      due = All-append _ low.0 (skip_now s.heap now low.1).0 b.due k.due;
      waiting = k.waiting;
    }

-- `getNextTimer`: no timer is due before the time it returns has passed, and one is due then (at
-- once, where it returns 0); with no timers it returns ~0.
pub get_next_timer_lem :
    (now : ℕ) (s : TimerManager)
    → IsOrdered s
    → All (λ a. (s.heap a).next < 2 ^ 64) s.timers
    → ((s.timers ≡ []) × ((get_next_timer now s).0 ≡ 2 ^ 64 - 1))
      ⊎ (All (λ a. (get_next_timer now s).0 ≤ (s.heap a).next - now) s.timers
          × ((a : ℕ) × (holds a s.timers ≡ true)
              × ((get_next_timer now s).0 ≡ (s.heap a).next - now)))
unfolding get_next_timer
get_next_timer_lem now s o small = go s.timers o small
  where
    go :
        (l : List ℕ)
        → Sorted s.heap l
        → All (λ a. (s.heap a).next < 2 ^ 64) l
        → ((l ≡ []) × (until_first now s.heap l ≡ 2 ^ 64 - 1))
          ⊎ (All (λ a. until_first now s.heap l ≤ (s.heap a).next - now) l
              × ((a : ℕ) × (holds a l ≡ true) × (until_first now s.heap l ≡ (s.heap a).next - now)))
    go [] o small = inl (refl, refl)
    go (x ∷ xs) o small =
        let e : until_first now s.heap (x ∷ xs) ≡ (s.heap x).next - now = ground (arith, small.0) in
        inr (
          (omega (arith, e), All-map _ _ xs (λ z k. ground (arith, e, k)) o.0),
          (x, rw (eq→== x x refl) refl, e),
        )

-- `detectClockRollover`: true where the clock is more than an hour behind the time of the last call.
-- In the first hour of the clock's time it is true for any time before the last call.
pub detect_clock_rollover_lem :
    (now : ℕ) (s : TimerManager)
    → s.previous_time < 2 ^ 64
    → (((detect_clock_rollover now s).0 ≡ true) ↔ (
        (now + 3600000 < s.previous_time)
        ⊎ ((now < s.previous_time) × (s.previous_time < 3600000))))
      × ((detect_clock_rollover now s).1.previous_time ≡ now)
unfolding detect_clock_rollover
detect_clock_rollover_lem now s small = (ground arith, refl)
