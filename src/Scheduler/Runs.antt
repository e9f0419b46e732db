-- ===== src/Scheduler/Runs.antt =====
-- Runs of the scheduler (sylar/scheduler.cpp): tests, and the theorems applied.
use sylar_demo.Common.{
  ℕ, zero, suc, ◌≡◌, ◌≢◌, ◌⊎◌, inl, refl, true, false, List, [], ◌∷◌, none, some, arith, ok,
  assert_failed,
}
use sylar_demo.Fiber.{
  init, except, exec, is_exec, is_over, at_entry, at_end, Fiber, main_fiber, Thread,
}
use sylar_demo.Fiber.Cells.{expected, IsConsistent}
use sylar_demo.Fiber.Turn.{to_ready}
use sylar_demo.Scheduler.{run_cb, Task, pick, Picked, Job, World, fiber_task, taken, round}
use sylar_demo.Scheduler.Pick.{NonePicked, FirstPicked, pick_cases}
use sylar_demo.Scheduler.Callback.{RanCallback, run_cb-RanCallback}
use sylar_demo.Scheduler.Round.{state_after, queued, IsResumable, round-fiber}

-- The scheduler's fiber at 0, and a new fiber at 1; the idle fiber at 2 has thrown.
abbrev cells : ℕ → Fiber
cells zero = main_fiber
cells (suc zero) = record {
  id = 1;
  has_stack = true;
  state = init;
  cb = some 42;
  use_caller = false;
  place = at_entry;
}
cells (suc (suc a)) = record {
  id = 2;
  has_stack = true;
  state = except;
  cb = none;
  use_caller = false;
  place = at_end;
}

abbrev thread : Thread
thread = record {
  heap = cells;
  current = some 0;
  thread_fiber = some 0;
  scheduler_fiber = some 0;
  last_id = 2;
  fibers = 3;
}

thread-IsConsistent : IsConsistent 0 0 thread
unfolding is_exec
thread-IsConsistent = record {
  scheduling = refl;
  running = refl;
  main_runs = refl;
  now_runs = refl;
  alone = alone;
  saved = saved;
}
  where
    alone : (a : ℕ) → (cells a).state ≡ exec → (a ≡ 0) ⊎ (a ≡ 0)
    alone zero e = inl refl
    alone (suc zero) e = absurd (cc)
    alone (suc (suc a)) e = absurd (cc)

    saved : (a : ℕ) → a ≢ 0 → (cells a).place ≡ expected (cells a).state
    saved zero n = absurd (n refl)
    saved (suc zero) n = refl
    saved (suc (suc a)) n = refl

-- A function for thread 8, then the fiber at 1 for any.
abbrev for_8 : Task
for_8 = record { fiber = none; cb = some 5; thread = some 8 }

abbrev queue : List Task
queue = for_8 ∷ fiber_task 1 ∷ []

abbrev world : World
world = record {
  thread = thread;
  scheduler = record {
    tasks = queue;
    active = 3;
    idle_threads = 0;
    is_stopping = false;
    auto_stop = false;
    tickles = 0;
  };
  cb_fiber = none;
  idle_fiber = 2;
}

-- Thread 7 takes the second task, and tickles for the first.
abbrev second : Picked
second = record { task = some (fiber_task 1); left = for_8 ∷ []; tickle_me = true }

pick_run : pick cells 7 queue ≡ ok second
unfolding pick is_exec
pick_run = refl

abbrev no_task : Task
no_task = record { fiber = none; cb = none; thread = none }

-- A task with neither a fiber nor a function fails an assertion.
pick_empty : pick cells 7 (no_task ∷ []) ≡ assert_failed
unfolding pick
pick_empty = refl

abbrev yields : Job
yields = record { does = λ s. s; exit = to_ready }

pick_cases_example :
    (p : Picked) × (pick cells 7 queue ≡ ok p)
    × (NonePicked cells 7 queue p ⊎ FirstPicked cells 7 queue p)
pick_cases_example = pick_cases cells 7 queue (refl, (refl, tt))

one-IsResumable : IsResumable 1 thread
unfolding is_exec is_over
one-IsResumable = record { not_running = refl; not_over = refl; own = refl }

round-fiber_example :
    (after : World) × (round 7 9 10 yields world ≡ ok (false, after))
    × IsConsistent 0 0 after.thread
    × ((after.thread.heap 1).state ≡ state_after to_ready)
    × (after.scheduler.tasks ≡ queued to_ready 1 (taken second world.scheduler).tasks)
    × (after.scheduler.active ≡ 3)
    × ((b : ℕ) → b ≢ 1 → b ≢ 0 → after.thread.heap b ≡ world.thread.heap b)
round-fiber_example =
    round-fiber 0 7 9 10 1 yields world second (fiber_task 1) thread-IsConsistent pick_run refl refl
      one-IsResumable (omega arith) refl

run_cb-RanCallback_example : RanCallback 0 9 10 5 yields world (run_cb 9 10 5 yields world)
run_cb-RanCallback_example =
    run_cb-RanCallback 0 9 10 5 yields world thread-IsConsistent (λ e. cc) tt
