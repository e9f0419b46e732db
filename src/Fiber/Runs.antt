-- ===== src/Fiber/Runs.antt =====
-- Runs of fibers (sylar/fiber.cpp): tests, and the theorems applied.
use sylar_demo.Common.{
  ℕ, zero, suc, ◌≡◌, ◌≢◌, ◌⊎◌, inl, refl, true, false, Option, none, some, Checked, ok,
  assert_failed, and_then,
}
use sylar_demo.Fiber.{
  State, init, hold, exec, term, is_exec, at_entry, at_end, Fiber, main_fiber, Thread, swap_in,
  yield_to, get_this, leave, swap_out, switch, resumed, store, destroy, reset, is_over, is_init,
}
use sylar_demo.Fiber.Cells.{expected, IsConsistent}
use sylar_demo.Fiber.Turn.{to_hold, exits, exited, turn-Left, swap_in_over}

-- The scheduler's fiber at 0, a new fiber at 1, one that has ended at 2, and none else.
abbrev cells : ℕ → Fiber
cells zero = main_fiber
cells (suc zero) = record {
  id = 1;
  has_stack = true;
  state = init;
  cb = some 42;
  use_caller = false;
  place = at_entry;
}
cells (suc (suc zero)) = record {
  id = 2;
  has_stack = true;
  state = term;
  cb = none;
  use_caller = false;
  place = at_end;
}
cells (suc (suc (suc a))) = record {
  id = 0;
  has_stack = true;
  state = init;
  cb = none;
  use_caller = false;
  place = at_entry;
}

abbrev thread : Thread
thread = record {
  heap = cells;
  current = some 0;
  thread_fiber = some 0;
  scheduler_fiber = some 0;
  last_id = 2;
  fibers = 3;
}

not_exec : (s : State) → is_exec s ≡ false → s ≢ exec
unfolding is_exec
not_exec exec h e = absurd (cc)
not_exec init h e = cc
not_exec hold h e = cc
not_exec term h e = cc
not_exec State.ready h e = cc
not_exec State.except h e = cc

thread-IsConsistent : IsConsistent 0 0 thread
unfolding is_exec
thread-IsConsistent = record {
  scheduling = refl;
  running = refl;
  main_runs = refl;
  now_runs = refl;
  alone = alone;
  saved = saved;
}
  where
    alone : (a : ℕ) → (cells a).state ≡ exec → (a ≡ 0) ⊎ (a ≡ 0)
    alone zero e = inl refl
    alone (suc zero) e = absurd (not_exec init refl e)
    alone (suc (suc zero)) e = absurd (not_exec term refl e)
    alone (suc (suc (suc a))) e = absurd (not_exec init refl e)

    saved : (a : ℕ) → a ≢ 0 → (cells a).place ≡ expected (cells a).state
    saved zero n = absurd (n refl)
    saved (suc zero) n = refl
    saved (suc (suc zero)) n = refl
    saved (suc (suc (suc a))) n = refl

abbrev state_of : ℕ → Checked Thread → Option State
state_of a (ok t) = some (t.heap a).state
state_of a _ = none

-- The new fiber runs and yields.
yield_to_hold_run : state_of 1 (and_then (swap_in 1 thread) (yield_to hold 9)) ≡ some hold
unfolding swap_in switch resumed store yield_to get_this leave swap_out is_exec
yield_to_hold_run = refl

-- A fiber in HOLD is not reset, and its destructor fails an assertion.
reset_early :
    (and_then (and_then (swap_in 1 thread) (yield_to hold 9)) (reset 1 none false) ≡ assert_failed)
    × (and_then (and_then (swap_in 1 thread) (yield_to hold 9)) (destroy 1) ≡ assert_failed)
unfolding swap_in switch resumed store yield_to get_this leave swap_out is_exec reset destroy
    is_over is_init
reset_early = (refl, refl)

turn-Left_example :
    (after : Thread) × (and_then (swap_in 1 thread) (exits to_hold 9) ≡ ok after)
    × IsConsistent 0 0 after
    × (after.heap 1 ≡ exited to_hold (cells 1))
    × ((b : ℕ) → b ≢ 1 → b ≢ 0 → after.heap b ≡ cells b)
unfolding is_exec is_over
turn-Left_example = turn-Left 0 1 9 to_hold thread thread-IsConsistent refl refl refl

swap_in_over_example : swap_in 2 thread ≡ assert_failed
unfolding is_over
swap_in_over_example = swap_in_over 0 2 thread thread-IsConsistent refl
