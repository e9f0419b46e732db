-- ===== src/IoManager/Idle.antt =====
-- `idle`, `stopping` and `tickle` of IOManager (sylar/iomanager.cpp).
pub mod Ready
pub mod Stopping
use sylar_demo.Common.{
  ℕ, ◌+◌, ◌-◌, ◌*◌, ◌%◌, ◌^◌, Bool, true, false, not, ◌&&◌, ◌||◌, List, [], ◌∷◌, ◌++◌, Option, none,
  some, map, get_elem?, u32, int_leb, ltb, ◌==◌, if◌then◌else◌, Checked, ok, assert_failed,
  undefined, and_then, Step, done, thrown, fault,
}
use sylar_demo.Timer.{Callback, TimerManager, get_next_timer, list_expired_cb}
use sylar_demo.IoManager.{
  Events, read, write, any, FdContext, Ctl, IoManager, Work, expired, at_context, op_for,
  trigger_if, progress, put_progress,
}

-- What epoll_wait reports: the pipe of `tickle`, or a context with its EPOLLIN and EPOLLOUT, and
-- whether EPOLLERR or EPOLLHUP is set.
pub record Revents : Type 0 where
  pub bits : Events
  pub failing : Bool

pub data Report : Type 0 where
  tickled : Report
  report : (i : ℕ) → Revents → Report

abbrev pub real_events : Revents → Events
real_events r = record {
  reading = r.bits.reading || r.failing;
  writing = r.bits.writing || r.failing;
}

abbrev pub both : Events → Events → Events
both a b = record { reading = a.reading && b.reading; writing = a.writing && b.writing }

abbrev pub left_events : Events → Events → Events
left_events a b = record {
  reading = a.reading && not b.reading;
  writing = a.writing && not b.writing;
}

-- The body of the loop of `idle` over the reports, for a context at place `i`.
pub report_here : Ctl → ℕ → Events → IoManager → FdContext → Checked IoManager
unfolding trigger_if
report_here ctl i real s c =
    let left = left_events c.events real in
    if not (any (both c.events real))
    then ok s
    else if ctl (op_for left) c.fd left
    then and_then (trigger_if real.reading read (progress c s))
        (λ p. and_then (trigger_if real.writing write p) (λ q. ok (put_progress i s q)))
    else ok s

pub on_report : Ctl → Report → IoManager → Checked IoManager
unfolding report_here
on_report ctl tickled s = ok s
on_report ctl (report i r) s =
    at_context (get_elem? s.contexts i) (report_here ctl i (real_events r) s)

-- The loop. Each report has the answer that epoll_ctl gives in its round.
pub on_reports : List (Ctl × Report) → IoManager → Checked IoManager
on_reports [] s = ok s
on_reports (r ∷ rs) s = and_then (on_report r.0 r.1 s) (on_reports rs)

-- The timeout of epoll_wait, as the 32-bit pattern of an `int`: MAX_TIMEOUT is 3000.
pub wait_time : ℕ → ℕ
wait_time next_timeout =
    if next_timeout == 2 ^ 64 - 1
    then 3000
    else if int_leb (u32 next_timeout) 3000
    then u32 next_timeout
    else 3000

-- `schedule(cbs.begin(), cbs.end())` on the manager itself, which is the scheduler `self`.
abbrev pub expired_work : ℕ → List (Option Callback) → List (ℕ × Work)
expired_work self cbs = map (λ cb. (self, expired cb)) cbs

pub after_timers : ℕ → IoManager → Step TimerManager (List (Option Callback)) → Checked IoManager
after_timers self s (done cbs timers) =
    ok (record s { timers = timers; scheduled = s.scheduled ++ expired_work self cbs })
after_timers self s (thrown timers) = undefined
after_timers self s fault = undefined

-- A round of the loop of `idle`, after epoll_wait has returned `reports`, at the time `now`;
-- `meanwhile` and `probe` are those of listExpiredCb.
pub idle_round :
    ℕ → (TimerManager → TimerManager) → ℕ → ℕ → List (Ctl × Report) → IoManager → Checked IoManager
unfolding after_timers
idle_round self meanwhile now probe reports s =
    and_then (after_timers self s (list_expired_cb meanwhile now probe s.timers))
      (on_reports reports)

-- `stopping(timeout)`: the time, what it returns, and the state; `scheduler_stopping` is what
-- Scheduler::stopping() returns.
pub stopping : ℕ → Bool → IoManager → ℕ × Bool × IoManager
stopping now scheduler_stopping s =
    let next = get_next_timer now s.timers in
    (
      next.0,
      (next.0 == 2 ^ 64 - 1) && (s.pending == 0) && scheduler_stopping,
      record s { timers = next.1 },
    )
