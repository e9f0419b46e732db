-- ===== src/Scheduler.antt =====
-- sylar/scheduler.h and sylar/scheduler.cpp: the queue of tasks, and a round of the loop of `run`.
--
-- Thread id -1, for any thread, is `none`. A fiber and a function are as in Fiber. The calls of the
-- virtual `tickle` are counted. What the function of a task does before it gives up the thread is the
-- `Job` of the round. The log messages, the threads and the names are left out.
pub mod Queue
pub mod Pick
pub mod Round
pub mod Callback
mod Runs
use sylar_demo.Common.{
  ℕ, ◌+◌, ◌-◌, Bool, true, false, not, ◌&&◌, ◌||◌, List, [], ◌∷◌, ◌++◌, Option, none, some, add64,
  sub64, ◌==◌, if◌then◌else◌, Checked, ok, assert_failed, undefined, and_then,
}
use sylar_demo.Fiber.{
  State, init, hold, exec, term, ready, except, is_exec, is_over, Fiber, Thread, set_fiber,
  new_fiber, reset, swap_in,
}
use sylar_demo.Fiber.Turn.{Exit, exits}

-- `Scheduler::FiberAndThread`
pub record Task : Type 0 where
  pub fiber : Option ℕ
  pub cb : Option ℕ
  pub thread : Option ℕ

pub record Scheduler : Type 0 where
  pub tasks : List Task
  pub active : ℕ
  pub idle_threads : ℕ
  pub is_stopping : Bool
  pub auto_stop : Bool
  pub tickles : ℕ

abbrev pub is_some : {A : Type 0} → Option A → Bool
is_some none = false
is_some (some a) = true

abbrev pub is_empty : List Task → Bool
is_empty [] = true
is_empty (t ∷ ts) = false

-- `it->fiber || it->cb`
abbrev pub is_task : Task → Bool
is_task t = is_some t.fiber || is_some t.cb

-- `scheduleNoLock`
pub schedule_no_lock : Task → Scheduler → Bool × Scheduler
schedule_no_lock t s =
    (is_empty s.tasks, if is_task t then record s { tasks = s.tasks ++ (t ∷ []) } else s)

abbrev pub tickle_if : Bool → Scheduler → Scheduler
tickle_if test s = if test then record s { tickles = s.tickles + 1 } else s

-- `schedule` of one task, and of a range.
pub schedule : Task → Scheduler → Scheduler
unfolding schedule_no_lock
schedule t s = let (need_tickle, s') = schedule_no_lock t s in tickle_if need_tickle s'

pub schedule_loop : List Task → Bool → Scheduler → Bool × Scheduler
unfolding schedule_no_lock
schedule_loop [] need_tickle s = (need_tickle, s)
schedule_loop (t ∷ ts) need_tickle s =
    let (first, s') = schedule_no_lock t s in schedule_loop ts (first || need_tickle) s'

pub schedule_range : List Task → Scheduler → Scheduler
unfolding schedule_loop
schedule_range ts s = let (need_tickle, s') = schedule_loop ts false s in tickle_if need_tickle s'

-- The loop of `run` over the queue: the task that it takes, the queue without it, and `tickle_me`.
pub record Picked : Type 0 where
  pub task : Option Task
  pub left : List Task
  pub tickle_me : Bool

-- `it->thread != -1 && it->thread != GetThreadId()`
abbrev pub is_elsewhere : ℕ → Option ℕ → Bool
is_elsewhere here none = false
is_elsewhere here (some thread) = not (thread == here)

-- `it->fiber && it->fiber->getState() == Fiber::EXEC`
abbrev pub is_running : (ℕ → Fiber) → Option ℕ → Bool
is_running heap none = false
is_running heap (some a) = is_exec (heap a).state

abbrev pub keep : Task → Bool → Picked → Picked
keep t test p = record p { left = t ∷ p.left; tickle_me = test || p.tickle_me }

pub pick : (ℕ → Fiber) → ℕ → List Task → Checked Picked
pick heap here [] = ok (record { task = none; left = []; tickle_me = false })
pick heap here (t ∷ ts) =
    let rest = pick heap here ts in
    if is_elsewhere here t.thread
    then and_then rest (λ p. ok (keep t true p))
    else if not (is_task t)
    then assert_failed
    else if is_running heap t.fiber
    then and_then rest (λ p. ok (keep t false p))
    else ok (record { task = some t; left = ts; tickle_me = not (is_empty ts) })

-- What the function of a task does: what it changes of the scheduler, and how it ends.
pub record Job : Type 0 where
  pub does : Scheduler → Scheduler
  pub exit : Exit

-- A thread in `run`, with its cb_fiber and its idle_fiber.
pub record World : Type 0 where
  pub thread : Thread
  pub scheduler : Scheduler
  pub cb_fiber : Option ℕ
  pub idle_fiber : ℕ

abbrev pub resting : ℕ → Thread → Thread
resting a t = set_fiber a (record (t.heap a) { state = hold }) t

pub is_ready : State → Bool
is_ready ready = true
is_ready _ = false

abbrev pub fiber_task : ℕ → Task
fiber_task a = record { fiber = some a; cb = none; thread = none }

abbrev pub less_active : Scheduler → Scheduler
less_active s = record s { active = sub64 s.active 1 }

-- The turn of a fiber; `fresh` is an address for GetThis.
abbrev pub turn : ℕ → ℕ → Job → World → Checked World
turn fresh a job w =
    and_then (and_then (swap_in a w.thread) (exits job.exit fresh))
      (λ t. ok (record w { thread = t; scheduler = job.does w.scheduler }))

-- `run` with a fiber that is not over.
pub after_fiber : ℕ → World → World
unfolding schedule
after_fiber a w =
    let s = less_active w.scheduler in
    let state = (w.thread.heap a).state in
    if is_ready state
    then record w { scheduler = schedule (fiber_task a) s }
    else if is_over state
    then record w { scheduler = s }
    else record w { scheduler = s; thread = resting a w.thread }

pub run_fiber : ℕ → ℕ → Job → World → Checked World
unfolding after_fiber
run_fiber fresh a job w = and_then (turn fresh a job w) (λ w'. ok (after_fiber a w'))

-- `run` with a function: the fiber for it, which is at the address `made` if there is none yet.
abbrev pub load_in : ℕ → ℕ → World → Option ℕ → Checked (ℕ × World)
load_in made cb w none =
    ok (made, record w { thread = new_fiber made (some cb) false w.thread; cb_fiber = some made })
load_in made cb w (some a) =
    and_then (reset a (some cb) false w.thread) (λ t. ok (a, record w { thread = t }))

pub load : ℕ → ℕ → World → Checked (ℕ × World)
load made cb w = load_in made cb w w.cb_fiber

pub after_cb : ℕ → World → Checked World
unfolding schedule
after_cb a w =
    let s = less_active w.scheduler in
    let state = (w.thread.heap a).state in
    if is_ready state
    then ok (record w { scheduler = schedule (fiber_task a) s; cb_fiber = none })
    else if is_over state
    then and_then (reset a none false w.thread) (λ t. ok (record w { scheduler = s; thread = t }))
    else ok (record w { scheduler = s; thread = resting a w.thread; cb_fiber = none })

pub run_cb : ℕ → ℕ → ℕ → Job → World → Checked World
unfolding load after_cb
run_cb fresh made cb job w =
    and_then (load made cb w) (λ r. and_then (turn fresh r.0 job r.1) (after_cb r.0))

-- `run` with nothing to do: true where the loop ends, as the idle fiber's state is TERM.
pub is_term : State → Bool
is_term term = true
is_term _ = false

pub run_idle : ℕ → Job → World → Checked (Bool × World)
run_idle fresh job w =
    let a = w.idle_fiber in
    let idler = record w.scheduler { idle_threads = add64 w.scheduler.idle_threads 1 } in
    if is_term (w.thread.heap a).state
    then ok (true, w)
    else and_then (turn fresh a job (record w { scheduler = idler })) (λ w'.
      let s = record w'.scheduler { idle_threads = sub64 w'.scheduler.idle_threads 1 } in
      if is_over (w'.thread.heap a).state
      then ok (false, record w' { scheduler = s })
      else ok (false, record w' { scheduler = s; thread = resting a w'.thread }))

-- `run` with the task that it has taken, if any.
abbrev pub going_on : Checked World → Checked (Bool × World)
going_on r = and_then r (λ w. ok (false, w))

pub with_cb : ℕ → ℕ → Option ℕ → Job → World → Checked (Bool × World)
unfolding run_cb
with_cb fresh made none job w = ok (false, record w { scheduler = less_active w.scheduler })
with_cb fresh made (some cb) job w = going_on (run_cb fresh made cb job w)

pub with_fiber : ℕ → ℕ → Option ℕ → Option ℕ → Job → World → Checked (Bool × World)
unfolding run_fiber with_cb
with_fiber fresh made none cb job w = with_cb fresh made cb job w
with_fiber fresh made (some a) cb job w =
    if is_over (w.thread.heap a).state
    then with_cb fresh made cb job w
    else going_on (run_fiber fresh a job w)

pub with_task : ℕ → ℕ → Option Task → Job → World → Checked (Bool × World)
unfolding with_fiber run_idle
with_task fresh made none job w = run_idle fresh job w
with_task fresh made (some t) job w = with_fiber fresh made t.fiber t.cb job w

-- The scheduler when the task has been taken.
abbrev pub taken : Picked → Scheduler → Scheduler
taken p s =
    tickle_if p.tickle_me
      (record s { tasks = p.left; active = if is_some p.task then add64 s.active 1 else s.active })

-- A round of the loop of `run` on the thread `here`: true where the loop ends.
pub round : ℕ → ℕ → ℕ → Job → World → Checked (Bool × World)
unfolding with_task
round here fresh made job w =
    and_then (pick w.thread.heap here w.scheduler.tasks)
      (λ p. with_task fresh made p.task job (record w { scheduler = taken p w.scheduler }))

-- `Scheduler::stopping`
pub stopping : Scheduler → Bool
stopping s = s.auto_stop && s.is_stopping && is_empty s.tasks && (s.active == 0)
