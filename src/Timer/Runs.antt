-- ===== src/Timer/Runs.antt =====
-- Runs of the timers (sylar/timer.cpp): tests, and the theorems applied.
use sylar_demo.Common.{
  ℕ, ◌≡◌, refl, inl, inr, true, false, ◌==◌, List, [], ◌∷◌, Option, none, some, arith,
  if◌then◌else◌, Step, done, fault,
}
use sylar_demo.Timer.{
  Callback, plain, on_timer, run_callback, ran, skipped, Timer, TimerManager, comparator, insert,
  find_erase, update, add_timer, cancel, cancel_held, has_timer, detect_clock_rollover,
  list_expired_cb, expire, end_expire, nothing_due, split_due, lower_bound, skip_now, collect,
  put_back, rearm,
}
use sylar_demo.Timer.Change.{IsOrdered, Added, add_timer-Added}
use sylar_demo.Timer.Expire.{Expired, list_expired_cb-Expired, list_expired_cb_race}

-- Timer 2 is due at 50 and every 50, and 1 and 3 once, at 100; the other objects have no callback.
abbrev three : ℕ → Timer
three a =
    if a == 1
    then record { recurring = false; ms = 100; next = 100; cb = some (plain 11) }
    else if a == 2
    then record { recurring = true; ms = 50; next = 50; cb = some (plain 12) }
    else if a == 3
    then record { recurring = false; ms = 90; next = 100; cb = some (plain 13) }
    else record { recurring = false; ms = 0; next = 0; cb = none }

abbrev waiting : TimerManager
waiting = record { heap = three; timers = 2 ∷ 1 ∷ 3 ∷ []; tickled = false; previous_time = 10 }

waiting-IsOrdered : IsOrdered waiting
waiting-IsOrdered =
    ((inl (omega arith), (inl (omega arith), tt)), ((inr (refl, omega arith), tt), (tt, tt)))

-- A manager with one timer.
abbrev lone : TimerManager
lone = record { heap = three; timers = 1 ∷ []; tickled = false; previous_time = 10 }

abbrev callbacks_of : Step TimerManager (List (Option Callback)) → List (Option Callback)
callbacks_of (done cbs s) = cbs
callbacks_of _ = []

abbrev timers_of : Step TimerManager (List (Option Callback)) → List ℕ
timers_of (done cbs s) = s.timers
timers_of _ = []

-- At 70, timer 2 fires and goes behind the two at 100.
list_expired_cb_run :
    (callbacks_of (list_expired_cb (λ s. s) 70 9 waiting) ≡ some (plain 12) ∷ [])
    × (timers_of (list_expired_cb (λ s. s) 70 9 waiting) ≡ 1 ∷ 3 ∷ 2 ∷ [])
unfolding list_expired_cb has_timer expire end_expire nothing_due detect_clock_rollover split_due
    lower_bound skip_now comparator update collect put_back rearm insert
list_expired_cb_run = (refl, refl)

on_timer_run :
    (run_callback (λ _. true) (some (on_timer 5 (some 7))) ≡ ran 7)
    × (run_callback (λ _. false) (some (on_timer 5 (some 7))) ≡ skipped)
unfolding run_callback
on_timer_run = (refl, refl)

add_timer-Added_example :
    Added 4
      (record waiting {
        heap =
            update 4 (record { recurring = false; ms = 10; next = 30; cb = some (plain 14) }) three;
      })
      (add_timer 4 20 10 (some (plain 14)) false waiting)
add_timer-Added_example =
    add_timer-Added 4 20 10 (some (plain 14)) false waiting waiting-IsOrdered refl

-- Another thread cancels timer 1 in between.
list_expired_cb-Expired_example :
    Expired
      (detect_clock_rollover 70 (cancel 1 waiting).1).0
      70
      (cancel 1 waiting).1
      (list_expired_cb (λ s. (cancel 1 s).1) 70 9 waiting)
unfolding has_timer cancel cancel_held find_erase comparator update
list_expired_cb-Expired_example =
    list_expired_cb-Expired (λ s. (cancel 1 s).1) 70 9 waiting refl
      ((inl (omega arith), tt), (tt, tt)) refl refl

list_expired_cb_race_example : list_expired_cb (λ t. (cancel 1 t).1) 70 9 lone ≡ fault
unfolding detect_clock_rollover
list_expired_cb_race_example = list_expired_cb_race 1 70 9 (plain 11) lone refl refl refl
