-- ===== src/IoManager/Runs.antt =====
-- Runs of IOManager (sylar/iomanager.cpp): tests, and the theorems applied.
use sylar_demo.Common.{
  ℕ, ◌+◌, ◌-◌, ◌≤◌, All, ◌≡◌, ◌⊎◌, inl, inr, refl, Bool, true, false, List, [], ◌∷◌, none, some,
  arith, length, get_elem?, Checked, ok, assert_failed,
}
use sylar_demo.Timer.{TimerManager, get_next_timer}
use sylar_demo.Timer.Order.{holds}
use sylar_demo.IoManager.Idle.Stopping.{wait_time-get_next_timer}
use sylar_demo.IoManager.{
  read, write, FdContext, new_context, Work, Ctl, IoManager, Caller, add_event, cancel_event,
  context_resize, new_manager, put, callback, trigger_on, trigger_with, trigger_event, add_here,
  register, new_wait, table_for, cancel_here, store_triggered,
}
use sylar_demo.IoManager.Counting.{registered}
use sylar_demo.IoManager.Valid.{IsValid, put-IsValid}
use sylar_demo.IoManager.Cancel.{Refused, Removed, its_work, cancel_event_cases}
use sylar_demo.IoManager.Change.{Outcomes, armed, waiter, add_event_cases}
use sylar_demo.IoManager.Idle.{Revents, report, real_events, on_report, wait_time}
use sylar_demo.IoManager.Idle.Ready.{IsPassed, Answered, on_report_cases, on_report-assert}
use sylar_demo.IoManager.Reach.{Tally, Run, adds, starts, goes_on, Run-balance, new_manager-IsValid}

abbrev no_timers : TimerManager
no_timers = record {
  heap = λ a. record { recurring = false; ms = 0; next = 7; cb = none };
  timers = [];
  tickled = false;
  previous_time = 0;
}

-- Timer 1 is due at 7.
abbrev one_timer : TimerManager
one_timer = record no_timers { timers = 1 ∷ [] }

-- A caller in fiber 4 of scheduler 1, and a kernel that accepts all that it is asked.
abbrev worker : Caller
worker = record { scheduler = some 1; fiber = 4; executing = true }

abbrev accepts : Ctl
accepts op fd e = true

-- Callback 42 waits for descriptor 5 to be readable.
abbrev ready_5 : FdContext
ready_5 = armed read (waiter worker (some 42)) (new_context 5)

abbrev one : IoManager
one = put 5 ready_5 1 (new_manager no_timers)

fifth : get_elem? (new_manager no_timers).contexts 5 ≡ some (new_context 5)
unfolding new_manager context_resize
fifth = refl

fifth_one : get_elem? one.contexts 5 ≡ some ready_5
unfolding new_manager context_resize
fifth_one = refl

one-IsValid : IsValid one
unfolding new_manager
one-IsValid =
    put-IsValid (new_manager no_timers) 5 (new_context 5) ready_5 1 []
      (new_manager-IsValid no_timers) fifth (((1, refl), inl (42, refl, refl)), refl) refl
      (omega arith)

work_after : Checked (Bool × IoManager) → List (ℕ × Work)
work_after (ok r) = r.1.scheduled
work_after _ = []

-- The callback runs on scheduler 1 when the event is cancelled.
cancel_event_run : work_after (cancel_event accepts 5 read one) ≡ (1, callback 42) ∷ []
unfolding work_after cancel_event cancel_here store_triggered trigger_event trigger_with trigger_on
    new_manager context_resize
cancel_event_run = refl

-- A second registration of the same event fails an assertion.
add_event_twice : add_event accepts worker 5 read none one ≡ assert_failed
unfolding add_event add_here table_for new_manager context_resize
add_event_twice = refl

adds_one : add_event accepts worker 5 read (some 42) (new_manager no_timers) ≡ ok (true, one)
unfolding add_event add_here table_for register new_wait new_manager context_resize
adds_one = refl

-- The tally of that registration.
abbrev first_added : Tally
first_added = record { added = 1; deleted = 0; timed = 0 }

Run-one : Run first_added one
Run-one =
    goes_on (record { added = 0; deleted = 0; timed = 0 }) first_added (new_manager no_timers) one
      (starts no_timers)
      (adds accepts worker 5 read (some 42) true one (omega arith) (λ e. cc)
        ((1, refl), inl (42, refl)) adds_one)

Run-balance_example :
    IsValid one
    × (first_added.added + first_added.timed
        ≡ one.pending + first_added.deleted + length one.scheduled)
unfolding new_manager
Run-balance_example = Run-balance first_added one Run-one

add_event_cases_example :
    Outcomes accepts worker 5 write none one
      (registered one.contexts 5)
      (add_event accepts worker 5 write none one)
add_event_cases_example =
    add_event_cases accepts worker 5 write none one one-IsValid (omega arith) (λ e. cc)
      ((1, refl), inr refl)

cancel_event_cases_example :
    (Refused accepts 5 read one × (cancel_event accepts 5 read one ≡ ok (false, one)))
    ⊎ Removed accepts 5 read one (its_work read) (cancel_event accepts 5 read one)
cancel_event_cases_example = cancel_event_cases accepts 5 read one one-IsValid (omega arith)

-- Descriptor 5 is readable.
abbrev readable : Revents
readable = record { bits = record { reading = true; writing = false }; failing = false }

on_report_cases_example :
    (IsPassed accepts (real_events readable) ready_5
      × (on_report accepts (report 5 readable) one ≡ ok one))
    ⊎ Answered 5 (real_events readable) ready_5 one (on_report accepts (report 5 readable) one)
on_report_cases_example =
    on_report_cases accepts 5 readable one ready_5 one-IsValid fifth_one (inl refl, inr refl)

-- The peer of descriptor 5 has hung up.
abbrev hung_up : Revents
hung_up = record { bits = record { reading = true; writing = false }; failing = true }

on_report-assert_example : on_report accepts (report 5 hung_up) one ≡ assert_failed
on_report-assert_example =
    on_report-assert accepts 5 hung_up one ready_5 one-IsValid fifth_one refl refl
      (inr (refl, refl))

wait_time-get_next_timer_example :
    (let wait = wait_time (get_next_timer 5 one_timer).0 in
      (wait ≤ 3000)
      × All (λ a. wait ≤ (one_timer.heap a).next - 5) one_timer.timers
      × ((wait ≡ 3000)
          ⊎ ((a : ℕ) × (holds a one_timer.timers ≡ true) × (wait ≡ (one_timer.heap a).next - 5))))
wait_time-get_next_timer_example =
    wait_time-get_next_timer 5 one_timer (tt, tt) (omega arith, tt) (omega arith)
