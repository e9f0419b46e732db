-- ===== src/Scheduler/Round.antt =====
-- What `run` does with a task (sylar/scheduler.cpp), together with the switches of Fiber.
use mathlib.Core.Path.{fun_ext}
use sylar_demo.Common.{
  ℕ, ◌^◌, ◌<◌, add64, ◌≡◌, ◌≢◌, inl, inr, refl, sym, ap, ◌∙◌, Bool, true, false, List, [], ◌∷◌,
  ◌++◌, some, arith, if◌then◌else◌, Checked, ok, assert_failed, and_then,
}
use sylar_demo.Fiber.{State, hold, term, ready, except, is_exec, is_over, Fiber, Thread, store}
use sylar_demo.Fiber.Cells.{IsConsistent, store_same, store_other, same_or_not}
use sylar_demo.Fiber.Turn.{
  Exit, to_ready, to_hold, returns, throws, exited, turn-Left, swap_in_over,
}
use sylar_demo.Scheduler.{
  Task, Scheduler, Job, World, is_ready, fiber_task, less_active, resting, schedule, after_fiber,
  run_fiber, is_term, run_idle, Picked, pick, taken, round, with_task, with_fiber, with_cb,
  going_on, is_some, tickle_if,
}
use sylar_demo.Scheduler.Queue.{schedule_lem}

-- The state of a fiber after its turn, as `run` leaves it.
abbrev pub state_after : Exit → State
state_after to_ready = ready
state_after to_hold = hold
state_after returns = term
state_after throws = except

-- The queue after its turn: a fiber that has yielded to READY is at the end.
abbrev pub queued : Exit → ℕ → List Task → List Task
queued to_ready a l = l ++ (fiber_task a ∷ [])
queued _ a l = l

-- A fiber is one that `run` resumes and that comes back to it: it is neither running nor over, and was
-- not made with use_caller, so that it goes back to the scheduler's fiber.
pub record IsResumable (a : ℕ) (t : Thread) : Type 0 where
  pub not_running : is_exec (t.heap a).state ≡ false
  pub not_over : is_over (t.heap a).state ≡ false
  pub own : (t.heap a).use_caller ≡ false

-- What `run` does with a fiber: its turn is over, its state says how it ended, the thread is in the
-- scheduler's fiber, no other fiber but that has changed, and the counter of active threads is down
-- by one.
pub record TookTurn (main a : ℕ) (job : Job) (w : World) (result : Checked World) : Type 0 where
  pub after : World
  pub its : result ≡ ok after
  pub valid : IsConsistent main main after.thread
  pub state : (after.thread.heap a).state ≡ state_after job.exit
  pub others : (b : ℕ) → b ≢ a → b ≢ main → after.thread.heap b ≡ w.thread.heap b
  pub tasks : after.scheduler.tasks ≡ queued job.exit a (job.does w.scheduler).tasks
  pub active : after.scheduler.active ≡ (less_active (job.does w.scheduler)).active

-- The store of HOLD where the state is HOLD.
pub resting_same : (a : ℕ) (t : Thread) → (t.heap a).state ≡ hold → resting a t ≡ t
resting_same a t h = ap (λ heap. record t { heap = heap }) (fun_ext each)
  where
    each : (b : ℕ) → store a (record (t.heap a) { state = hold }) t.heap b ≡ t.heap b
    each b = elim (same_or_not b a) [
      | inl e ↦
          ap (store a (record (t.heap a) { state = hold }) t.heap) e
          ∙ store_same a _ t.heap
          ∙ ap (λ s. record (t.heap a) { state = s }) (sym h)
          ∙ ap t.heap (sym e)
      | inr n ↦ store_other a b _ t.heap n
    ]

-- What is scheduled after the turn.
abbrev pub rescheduled : Exit → ℕ → Scheduler → Scheduler
rescheduled to_ready a s = schedule (fiber_task a) s
rescheduled _ a s = s

after_fiber_lem :
    (x : Exit) (a : ℕ) (w : World)
    → (w.thread.heap a).state ≡ state_after x
    → after_fiber a w ≡ record w { scheduler = rescheduled x a (less_active w.scheduler) }
unfolding after_fiber is_ready is_over
after_fiber_lem to_ready a w h = rw h refl
after_fiber_lem to_hold a w h = rw h (
    ap (λ t. record w { scheduler = less_active w.scheduler; thread = t })
      (resting_same a w.thread h))
after_fiber_lem returns a w h = rw h refl
after_fiber_lem throws a w h = rw h refl

pub tasks-rescheduled :
    (x : Exit) (a : ℕ) (s : Scheduler) → (rescheduled x a s).tasks ≡ queued x a s.tasks
tasks-rescheduled to_ready a s =
    ap (λ (k : Scheduler). k.tasks) (schedule_lem (fiber_task a) s refl)
tasks-rescheduled to_hold a s = refl
tasks-rescheduled returns a s = refl
tasks-rescheduled throws a s = refl

pub active-rescheduled : (x : Exit) (a : ℕ) (s : Scheduler) → (rescheduled x a s).active ≡ s.active
active-rescheduled to_ready a s =
    ap (λ (k : Scheduler). k.active) (schedule_lem (fiber_task a) s refl)
active-rescheduled to_hold a s = refl
active-rescheduled returns a s = refl
active-rescheduled throws a s = refl

pub state-exited : (x : Exit) (f : Fiber) → (exited x f).state ≡ state_after x
state-exited to_ready f = refl
state-exited to_hold f = refl
state-exited returns f = refl
state-exited throws f = refl

run_fiber-TookTurn :
    (main fresh a : ℕ) (job : Job) (w : World)
    → IsConsistent main main w.thread
    → IsResumable a w.thread
    → TookTurn main a job w (run_fiber fresh a job w)
unfolding run_fiber
run_fiber-TookTurn main fresh a job w v r =
    let (t, e, valid, its, others) =
      turn-Left main a fresh job.exit w.thread v r.not_running r.not_over r.own in
    let turned = record w { thread = t; scheduler = job.does w.scheduler } in
    let state = ap (λ (f : Fiber). f.state) its ∙ state-exited job.exit (w.thread.heap a) in
    let s = less_active (job.does w.scheduler) in
    record {
      after = record turned { scheduler = rescheduled job.exit a s };
      its =
          ap
            (λ r.
              and_then
                (and_then r (λ u. ok (record w { thread = u; scheduler = job.does w.scheduler })))
                (λ k. ok (after_fiber a k)))
            e
          ∙ ap ok (after_fiber_lem job.exit a turned state);
      valid = valid;
      state = state;
      others = others;
      tasks = tasks-rescheduled job.exit a s;
      active = active-rescheduled job.exit a s;
    }

active-tickle_if : (b : Bool) (s : Scheduler) → (tickle_if b s).active ≡ s.active
active-tickle_if true s = refl
active-tickle_if false s = refl

-- A round of `run` that takes a task with a fiber, from the scheduler's fiber and with the
-- invariant of the fibers, where the fiber was not made with use_caller and is neither running nor
-- over, the number of active threads fits a uint64_t, and what the fiber does keeps that number:
-- the loop goes on and no assertion fails, the fiber has had its turn and its state says how it
-- ended, no other fiber but the scheduler's has changed, a fiber that yields to READY is at the end
-- of the queue, and the number of active threads is the one before the round. The invariant holds
-- again.
pub round-fiber :
    (main here fresh made a : ℕ) (job : Job) (w : World) (p : Picked) (t : Task)
    → IsConsistent main main w.thread
    → pick w.thread.heap here w.scheduler.tasks ≡ ok p
    → p.task ≡ some t
    → t.fiber ≡ some a
    → IsResumable a w.thread
    → w.scheduler.active < 2 ^ 64
    → (job.does (taken p w.scheduler)).active ≡ (taken p w.scheduler).active
    → (after : World) × (round here fresh made job w ≡ ok (false, after))
      × IsConsistent main main after.thread
      × ((after.thread.heap a).state ≡ state_after job.exit)
      × (after.scheduler.tasks ≡ queued job.exit a (job.does (taken p w.scheduler)).tasks)
      × (after.scheduler.active ≡ w.scheduler.active)
      × ((b : ℕ) → b ≢ a → b ≢ main → after.thread.heap b ≡ w.thread.heap b)
unfolding round with_task with_fiber
round-fiber main here fresh made a job w p t v e k f r small keeps =
    let run = run_fiber-TookTurn main fresh a job start v r in
    (
      run.after,
      ap
            (λ q.
              and_then q (λ p.
                with_task fresh made p.task job (record w { scheduler = taken p w.scheduler })))
            e
          ∙ ap (λ o. with_task fresh made o job start) k
          ∙ ap (λ o. with_fiber fresh made o t.cb job start) f
          ∙ ap
              (λ b.
                if b
                then with_cb fresh made t.cb job start
                else going_on (run_fiber fresh a job start))
              r.not_over
          ∙ ap going_on run.its,
      run.valid,
      run.state,
      run.tasks,
      omega (arith, run.active, keeps, counted, small),
      run.others,
    )
  where
    start : World
    start = record w { scheduler = taken p w.scheduler }

    counted : (taken p w.scheduler).active ≡ add64 w.scheduler.active 1
    counted =
        active-tickle_if p.tickle_me _
        ∙ ap (λ o. if is_some o then add64 w.scheduler.active 1 else w.scheduler.active) k

-- An idle fiber that has ended with an exception is resumed, and an assertion fails.
pub run_idle-except :
    (main fresh : ℕ) (job : Job) (w : World)
    → IsConsistent main main w.thread
    → (w.thread.heap w.idle_fiber).state ≡ except
    → run_idle fresh job w ≡ assert_failed
unfolding run_idle is_term is_over
run_idle-except main fresh job w v e =
    rw (e, swap_in_over main w.idle_fiber w.thread v (ap is_over e)) refl
