-- ===== src/Timer.antt =====
-- sylar/timer.h and sylar/timer.cpp: timers, and the manager that keeps them in order.
--
-- A `Timer` is an object at an address; `heap` gives the object at each. `m_timers` is the list of
-- the addresses in it, in the order of the set. A call holds the manager's lock from its first access
-- to its last, except where the definition says so, and `now` is what GetCurrentMS() returns to it.
pub mod Order
pub mod Change
pub mod Due
pub mod Expire
mod Runs
use mathlib.Core.Option
use sylar_demo.Common.{
  ℕ, ◌+◌, ◌*◌, ◌-◌, ◌^◌, Bool, true, false, not, ◌&&◌, List, [], ◌∷◌, ◌++◌, Option, none, some,
  add64, sub64, ltb, leb, ◌==◌, if◌then◌else◌, Step, done, fault, then_run,
}

-- A `std::function`: one that the user passed, or `std::bind(&OnTimer, weak_cond, cb)`.
pub data Callback : Type 0 where
  plain : ℕ → Callback
  on_timer : ℕ → Option ℕ → Callback

pub record Timer : Type 0 where
  pub recurring : Bool
  pub ms : ℕ
  pub next : ℕ
  pub cb : Option Callback

pub record TimerManager : Type 0 where
  pub heap : ℕ → Timer
  pub timers : List ℕ
  pub tickled : Bool
  pub previous_time : ℕ

-- What a call of a `std::function` comes to: an empty one throws.
pub data Call : Type 0 where
  ran : ℕ → Call
  skipped bad_function_call : Call

abbrev pub call_user : Option ℕ → Call
call_user none = bad_function_call
call_user (some f) = ran f

-- A call of a timer's callback, `OnTimer` included; `alive` says which weak pointers lock.
pub run_callback : (ℕ → Bool) → Option Callback → Call
run_callback alive none = bad_function_call
run_callback alive (some (plain f)) = ran f
run_callback alive (some (on_timer weak_cond cb)) =
    if alive weak_cond then call_user cb else skipped

-- `Timer::Comparator`, `none` for a null pointer.
pub comparator : (ℕ → Timer) → Option ℕ → Option ℕ → Bool
comparator heap none none = false
comparator heap none (some rhs) = true
comparator heap (some lhs) none = false
comparator heap (some lhs) (some rhs) =
    if ltb (heap lhs).next (heap rhs).next
    then true
    else if ltb (heap rhs).next (heap lhs).next
    then false
    else ltb lhs rhs

abbrev pub before : (ℕ → Timer) → ℕ → ℕ → Bool
before heap a b = comparator heap (some a) (some b)

-- The set's `insert`, and its `find` with `erase` of what is found (`none` is end()).
pub insert : (ℕ → Timer) → ℕ → List ℕ → List ℕ
insert heap x [] = x ∷ []
insert heap x (y ∷ ys) =
    let rest = insert heap x ys in
    if before heap y x then y ∷ rest else if before heap x y then x ∷ y ∷ ys else y ∷ ys

pub find_erase : (ℕ → Timer) → ℕ → List ℕ → Option (List ℕ)
find_erase heap x [] = none
find_erase heap x (y ∷ ys) =
    let rest = find_erase heap x ys in
    if before heap y x
    then Option.map (λ l. y ∷ l) rest
    else if before heap x y
    then none
    else some ys

-- A store to the object at an address.
pub update : ℕ → Timer → (ℕ → Timer) → ℕ → Timer
update x t heap a = if a == x then t else heap a

-- The constructors `Timer(ms, cb, recurring, manager)` and `Timer(next)`.
abbrev pub new_timer : ℕ → ℕ → Option Callback → Bool → Timer
new_timer now ms cb recurring = record {
  recurring = recurring;
  ms = ms;
  next = add64 now ms;
  cb = cb;
}

abbrev pub timer_at : ℕ → Timer
timer_at next = record { recurring = false; ms = 0; next = next; cb = none }

abbrev pub starts_with : ℕ → List ℕ → Bool
starts_with x [] = false
starts_with x (y ∷ ys) = y == x

-- `addTimer(val, lock)`: whether it calls onTimerInsertedAtFront().
pub add_timer_locked : ℕ → TimerManager → Bool × TimerManager
add_timer_locked x s =
    let timers = insert s.heap x s.timers in
    let at_front = starts_with x timers && not s.tickled in
    (at_front, record s { timers = timers; tickled = if at_front then true else s.tickled })

-- `addTimer(ms, cb, recurring)`, with the address of the new object.
pub add_timer : ℕ → ℕ → ℕ → Option Callback → Bool → TimerManager → Bool × TimerManager
add_timer x now ms cb recurring s =
    add_timer_locked x (record s { heap = update x (new_timer now ms cb recurring) s.heap })

pub add_condition_timer : ℕ → ℕ → ℕ → Option ℕ → ℕ → Bool → TimerManager → Bool × TimerManager
add_condition_timer x now ms cb weak_cond recurring =
    add_timer x now ms (some (on_timer weak_cond cb)) recurring

abbrev pub or_else : Option (List ℕ) → List ℕ → List ℕ
or_else none l = l
or_else (some l') l = l'

-- `Timer::cancel`, for the callback that the timer has.
pub cancel_held : ℕ → Option Callback → TimerManager → Bool × TimerManager
cancel_held x none s = (false, s)
cancel_held x (some cb) s =
    let heap = update x (record (s.heap x) { cb = none }) s.heap in
    (true, record s { heap = heap; timers = or_else (find_erase heap x s.timers) s.timers })

pub cancel : ℕ → TimerManager → Bool × TimerManager
unfolding cancel_held
cancel x s = cancel_held x (s.heap x).cb s

-- The rest of `refresh` and `reset` from `find` on: the result, whether the front is notified, and
-- the state. `t` is the object with its new `m_ms` and `m_next`.
pub move : ℕ → Timer → Option (List ℕ) → TimerManager → Bool × Bool × TimerManager
move x t none s = (false, false, s)
move x t (some timers) s =
    let added = add_timer_locked x (record s { heap = update x t s.heap; timers = timers }) in
    (true, added.0, added.1)

-- `refresh` and `reset` for the callback that the timer has: without one they return false.
pub move_held : ℕ → Timer → Option Callback → TimerManager → Bool × Bool × TimerManager
unfolding move
move_held x t none s = (false, false, s)
move_held x t (some cb) s = move x t (find_erase s.heap x s.timers) s

-- `Timer::refresh`
pub refresh : ℕ → ℕ → TimerManager → Bool × Bool × TimerManager
unfolding move_held
refresh x now s = let t = s.heap x in move_held x (record t { next = add64 now t.ms }) t.cb s

-- `Timer::reset`
pub reset : ℕ → ℕ → Bool → ℕ → TimerManager → Bool × Bool × TimerManager
unfolding move_held
reset x ms from_now now s =
    let t = s.heap x in
    let start = if from_now then now else sub64 t.next t.ms in
    if (ms == t.ms) && not from_now
    then (true, false, s)
    else move_held x (record t { ms = ms; next = add64 start ms }) t.cb s

abbrev pub is_empty : List ℕ → Bool
is_empty [] = true
is_empty (x ∷ xs) = false

pub has_timer : TimerManager → Bool
has_timer s = not (is_empty s.timers)

-- What `getNextTimer` returns for the timers in order.
abbrev pub until_first : ℕ → (ℕ → Timer) → List ℕ → ℕ
until_first now heap [] = 2 ^ 64 - 1
until_first now heap (first ∷ rest) =
    if leb (heap first).next now then 0 else sub64 (heap first).next now

pub get_next_timer : ℕ → TimerManager → ℕ × TimerManager
get_next_timer now s = (until_first now s.heap s.timers, record s { tickled = false })

-- `detectClockRollover`
pub detect_clock_rollover : ℕ → TimerManager → Bool × TimerManager
detect_clock_rollover now s = (
  ltb now s.previous_time && ltb now (sub64 s.previous_time (60 * 60 * 1000)),
  record s { previous_time = now },
)

-- `lower_bound`, and the loop behind it: what is before the iterator, and what is from it on.
pub lower_bound : (ℕ → Timer) → ℕ → List ℕ → List ℕ × List ℕ
lower_bound heap probe [] = ([], [])
lower_bound heap probe (y ∷ ys) =
    let rest = lower_bound heap probe ys in
    if before heap y probe then (y ∷ rest.0, rest.1) else ([], y ∷ ys)

pub skip_now : (ℕ → Timer) → ℕ → List ℕ → List ℕ × List ℕ
skip_now heap now [] = ([], [])
skip_now heap now (y ∷ ys) =
    let rest = skip_now heap now ys in
    if (heap y).next == now then (y ∷ rest.0, rest.1) else ([], y ∷ ys)

-- The timers that `listExpiredCb` takes out, and those that stay; `probe` is the address of
-- `now_timer`.
pub split_due : Bool → ℕ → ℕ → TimerManager → List ℕ × List ℕ
split_due true now probe s = (s.timers, [])
split_due false now probe s =
    let low = lower_bound (update probe (timer_at now) s.heap) probe s.timers in
    let skipped_now = skip_now s.heap now low.1 in (low.0 ++ skipped_now.0, skipped_now.1)

-- One round of the loop over the timers that were taken out, and the loop.
pub rearm : ℕ → Timer → Timer
rearm now t = if t.recurring then record t { next = add64 now t.ms } else record t { cb = none }

pub put_back : ℕ → ℕ → TimerManager → TimerManager
put_back now x s =
    let heap = update x (rearm now (s.heap x)) s.heap in
    record s {
      heap = heap;
      timers = if (s.heap x).recurring then insert heap x s.timers else s.timers;
    }

pub collect : ℕ → List ℕ → TimerManager → List (Option Callback) × TimerManager
collect now [] s = ([], s)
collect now (x ∷ xs) s =
    let rest = collect now xs (put_back now x s) in ((s.heap x).cb ∷ rest.0, rest.1)

-- `!rollover && (*m_timers.begin())->m_next > now_ms`, `none` where begin() is end().
abbrev pub first_after : ℕ → (ℕ → Timer) → List ℕ → Option Bool
first_after now heap [] = none
first_after now heap (first ∷ rest) = some (ltb now (heap first).next)

pub nothing_due : Bool → ℕ → TimerManager → Option Bool
nothing_due true now s = some false
nothing_due false now s = first_after now s.heap s.timers

-- What `listExpiredCb` does with that test: `s` is the state after the clock test, `fired` what the
-- loop makes of it.
pub end_expire :
    Option Bool
    → TimerManager
    → List (Option Callback) × TimerManager
    → Step TimerManager (List (Option Callback))
end_expire none s fired = fault
end_expire (some true) s fired = done [] s
end_expire (some false) s fired = done fired.0 fired.1

-- `listExpiredCb` from the write lock on. It returns the callbacks.
pub expire : ℕ → ℕ → TimerManager → Step TimerManager (List (Option Callback))
unfolding end_expire
expire now probe s =
    let clock = detect_clock_rollover now s in
    let due = split_due clock.0 now probe clock.1 in
    end_expire (nothing_due clock.0 now clock.1) clock.1
      (collect now due.0 (record clock.1 { timers = due.1 }))

-- `listExpiredCb`. The read lock is released before the write lock is taken: `meanwhile` is what
-- other threads do to the manager in between.
pub list_expired_cb :
    (TimerManager → TimerManager)
    → ℕ
    → ℕ
    → TimerManager
    → Step TimerManager (List (Option Callback))
list_expired_cb meanwhile now probe s =
    if has_timer s then expire now probe (meanwhile s) else done [] s
