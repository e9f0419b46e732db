-- ===== src/IoManager/Idle/Stopping.antt =====
-- When `idle` ends, and how long it waits (sylar/iomanager.cpp).
use sylar_demo.Common.{
  List, [], ◌∷◌, All, All-map, ◌↔◌, ℕ, ◌+◌, ◌-◌, ◌^◌, ◌≤◌, ◌<◌, ◌≡◌, ◌⊎◌, inl, inr, refl, sym, ap,
  ◌∙◌, Bool, true, false, ◌&&◌, arith, u32, int_leb, leb, ◌==◌, Bool-cases, eq→==, ne→==_false,
  le→leb, lt→leb_false, leb→le, leb_false→lt,
}
use sylar_demo.Timer.{Timer, TimerManager, get_next_timer}
use sylar_demo.Timer.Change.{IsOrdered}
use sylar_demo.Timer.Due.{get_next_timer_lem}
use sylar_demo.Timer.Order.{holds}
use sylar_demo.IoManager.{IoManager, FdContext, Events, no_events}
use sylar_demo.IoManager.Counting.{total, count, bit}
use sylar_demo.IoManager.Valid.{IsValid}
use sylar_demo.IoManager.Idle.{wait_time, stopping}

low_half : (n : ℕ) → n < 2 ^ 31 → u32 n ≡ n
low_half n h = omega (arith, h)

-- The timeout of epoll_wait for a next timer within 2 ^ 31 ms: the time until then, or 3000.
wait_time_near :
    (next : ℕ)
    → next < 2 ^ 31
    → (wait_time next ≤ 3000)
      × (wait_time next ≤ next)
      × ((wait_time next ≡ 3000) ⊎ (wait_time next ≡ next))
unfolding wait_time
wait_time_near next h =
    let other : (next == 2 ^ 64 - 1) ≡ false = ne→==_false _ _ (λ e. omega (arith, e)) in
    elim (Bool-cases (leb next 3000)) [
      | inl e ↦
          let test : int_leb (u32 next) 3000 ≡ true = le→leb _ _ (omega (arith, leb→le _ _ e)) in
          let value = low_half next h in
          rw (other, test) (omega (arith, value, leb→le _ _ e), omega (arith, value), inr value)
      | inr e ↦
          let test : int_leb (u32 next) 3000 ≡ false =
            lt→leb_false _ _ (omega (arith, leb_false→lt _ _ e)) in
          rw (other, test) (omega arith, omega (arith, leb_false→lt _ _ e), inl refl)
    ]

wait_time_last : wait_time (2 ^ 64 - 1) ≡ 3000
unfolding wait_time
wait_time_last = refl

-- The timeout that `idle` gives to epoll_wait, where the set of timers is in order, its timers are all
-- due within 2 ^ 31 ms from now, and the clock is so far from its end: it is at most 3000 ms and at
-- most the time until any timer of the set is due (0 if that is past), and it is one of these.
pub wait_time-get_next_timer :
    (now : ℕ) (s : TimerManager)
    → IsOrdered s
    → All (λ a. (s.heap a).next < now + 2 ^ 31) s.timers
    → now + 2 ^ 31 < 2 ^ 64
    → (let wait = wait_time (get_next_timer now s).0 in
        (wait ≤ 3000)
        × All (λ a. wait ≤ (s.heap a).next - now) s.timers
        × ((wait ≡ 3000) ⊎ ((a : ℕ) × (holds a s.timers ≡ true) × (wait ≡ (s.heap a).next - now))))
wait_time-get_next_timer now s o near small =
    go s.timers (get_next_timer now s).0 near
      (get_next_timer_lem now s o (All-map _ _ s.timers (λ a h. omega (arith, h, small)) near))
  where
    go :
        (l : List ℕ) (next : ℕ)
        → All (λ a. (s.heap a).next < now + 2 ^ 31) l
        → ((l ≡ []) × (next ≡ 2 ^ 64 - 1))
          ⊎ (All (λ a. next ≤ (s.heap a).next - now) l
              × ((a : ℕ) × (holds a l ≡ true) × (next ≡ (s.heap a).next - now)))
        → (wait_time next ≤ 3000)
          × All (λ a. wait_time next ≤ (s.heap a).next - now) l
          × ((wait_time next ≡ 3000)
              ⊎ ((a : ℕ) × (holds a l ≡ true) × (wait_time next ≡ (s.heap a).next - now)))
    go [] next n (inl (e, k)) =
        (rw (k, wait_time_last) (omega arith), tt, inl (ap wait_time k ∙ wait_time_last))
    go [] next n (inr (w, (a, h, k))) = absurd (ground (arith, h))
    go (x ∷ xs) next n (inl (e, k)) = absurd (cc)
    go (x ∷ xs) next n (inr (w, k)) =
        let t = wait_time_near next (omega (arith, w.0, n.0)) in
        let (a, h, e) = k in
        (
          t.0,
          (omega (arith, t.1, w.0), All-map _ _ xs (λ a h. omega (arith, h, t.1)) w.1),
          elim t.2 [ inl m ↦ inl m | inr m ↦ inr (a, h, m ∙ e) ],
        )

total_none : (l : List FdContext) → (total l ≡ 0) ↔ All (λ (c : FdContext). c.events ≡ no_events) l
total_none [] = (λ e. tt, λ a. refl)
total_none (c ∷ cs) = (
  λ e. (
    none_left c.events.reading c.events.writing (omega (arith, e)),
    (total_none cs).0 (omega (arith, e)),
  ),
  λ a. omega (arith, ap count a.0, (total_none cs).1 a.1),
)
  where
    none_left :
        (r w : Bool)
        → bit r + bit w ≡ 0
        → Path Events (record { reading = r; writing = w }) no_events
    none_left true w e = absurd (omega (arith, e))
    none_left false true e = absurd (omega (arith, e))
    none_left false false e = refl

-- The time until the first of some timers, as getNextTimer has it.
abbrev Next : (ℕ → Timer) → ℕ → List ℕ → ℕ → Type 0
Next heap now l next =
    ((l ≡ []) × (next ≡ 2 ^ 64 - 1))
    ⊎ (All (λ a. next ≤ (heap a).next - now) l
        × ((a : ℕ) × (holds a l ≡ true) × (next ≡ (heap a).next - now)))

last_none :
    (heap : ℕ → Timer) (now : ℕ) (l : List ℕ) (next : ℕ)
    → All (λ a. (heap a).next < 2 ^ 64 - 1) l
    → Next heap now l next
    → next ≡ 2 ^ 64 - 1
    → l ≡ []
last_none heap now l next small (inl (e, k)) last = e
last_none heap now [] next small (inr (w, k)) last = refl
last_none heap now (x ∷ xs) next small (inr (w, k)) last =
    absurd (omega (arith, w.0, small.0, last))

last_value :
    (heap : ℕ → Timer) (now : ℕ) (l : List ℕ) (next : ℕ)
    → Next heap now l next
    → l ≡ []
    → next ≡ 2 ^ 64 - 1
last_value heap now l next (inl (e, k)) none_left = k
last_value heap now [] next (inr (w, (a, h, k))) none_left = absurd (ground (arith, h))
last_value heap now (x ∷ xs) next (inr (w, k)) none_left = absurd (cc)

-- `idle` ends just where no timer is left, no context has an event, and the scheduler is stopping.
pub stopping_iff :
    (now : ℕ) (scheduler_stopping : Bool) (s : IoManager)
    → IsValid s
    → IsOrdered s.timers
    → All (λ a. (s.timers.heap a).next < 2 ^ 64 - 1) s.timers.timers
    → ((stopping now scheduler_stopping s).1 ≡ true) ↔ (
        (s.timers.timers ≡ [])
        × All (λ (c : FdContext). c.events ≡ no_events) s.contexts
        × (scheduler_stopping ≡ true))
unfolding stopping
stopping_iff now scheduler_stopping s v o small = (
  λ h.
      let (first, pending, stops) = all_three _ _ scheduler_stopping h in
      (
        no_timer (==_eq _ _ first),
        (total_none s.contexts).0 (sym v.counted ∙ ==_eq _ _ pending),
        stops,
      ),
  λ (e, a, stops). back e a stops,
)
  where
    all_three : (a b c : Bool) → (a && b && c) ≡ true → (a ≡ true) × (b ≡ true) × (c ≡ true)
    all_three true true true h = (refl, refl, refl)
    all_three true true false h = absurd (ground (arith, h))
    all_three true false c h = absurd (ground (arith, h))
    all_three false b c h = absurd (ground (arith, h))

    ==_eq : (a b : ℕ) → (a == b) ≡ true → a ≡ b
    ==_eq a b h = ground (arith, h)

    next : Next (s.timers.heap) now s.timers.timers (get_next_timer now s.timers).0
    next =
        get_next_timer_lem now s.timers o
          (All-map _ _ s.timers.timers (λ a h. omega (arith, h)) small)

    no_timer : (get_next_timer now s.timers).0 ≡ 2 ^ 64 - 1 → s.timers.timers ≡ []
    no_timer e = last_none s.timers.heap now s.timers.timers _ small next e

    back :
        s.timers.timers ≡ []
        → All (λ (c : FdContext). c.events ≡ no_events) s.contexts
        → scheduler_stopping ≡ true
        → (stopping now scheduler_stopping s).1 ≡ true
    back e a stops =
        rw
          (
            eq→== _ _ (last_value s.timers.heap now s.timers.timers _ next e),
            eq→== _ _ (v.counted ∙ (total_none s.contexts).1 a),
            stops,
          )
          refl
