-- ===== src/Scheduler/Callback.antt =====
-- What `run` does with a function (sylar/scheduler.cpp): it loads a fiber of its own for it.
use sylar_demo.Common.{
  ℕ, ◌≡◌, ◌≢◌, ◌⊎◌, inl, inr, refl, sym, ap, ◌∙◌, Bool, true, false, not, ◌||◌, Option, none, some,
  arith, if◌then◌else◌, Checked, ok, assert_failed, and_then,
}
use sylar_demo.Fiber.{
  init, exec, is_exec, is_over, is_init, at_entry, Fiber, Thread, set_fiber, store, new_fiber,
  reset,
}
use sylar_demo.Fiber.Cells.{IsConsistent, store_same, store_other, same_or_not, expected}
use sylar_demo.Fiber.Turn.{Exit, to_ready, to_hold, returns, throws, exited, turn-Left}
use sylar_demo.Scheduler.{
  Scheduler, Job, World, is_ready, fiber_task, less_active, turn, schedule, load_in, load, after_cb,
  run_cb,
}
use sylar_demo.Scheduler.Round.{
  state_after, queued, resting_same, rescheduled, tasks-rescheduled, active-rescheduled,
  state-exited,
}

-- A store to a fiber that does not run keeps the invariant.
set_fiber-IsConsistent :
    (main a last_id fibers : ℕ) (f : Fiber) (t : Thread)
    → IsConsistent main main t
    → a ≢ main
    → is_exec f.state ≡ false
    → f.place ≡ expected f.state
    → IsConsistent main main
        (record t { heap = store a f t.heap; last_id = last_id; fibers = fibers })
unfolding is_exec
set_fiber-IsConsistent main a last_id fibers f t v apart h k = record {
  scheduling = v.scheduling;
  running = v.running;
  main_runs = main_runs;
  now_runs = main_runs;
  alone = λ b e. inl (alone b e);
  saved = saved;
}
  where
    main_runs : (store a f t.heap main).state ≡ exec
    main_runs =
        ap (λ (g : Fiber). g.state) (store_other a main f t.heap (λ e. apart (sym e))) ∙ v.main_runs

    alone : (b : ℕ) → (store a f t.heap b).state ≡ exec → b ≡ main
    alone b e = elim (same_or_not b a) [
      | inl i ↦ absurd (
          not_exec (
            sym (ap (λ (g : Fiber). g.state) (ap (store a f t.heap) i ∙ store_same a f t.heap))
            ∙ e))
      | inr n ↦
          either (v.alone b (ap (λ (g : Fiber). g.state) (sym (store_other a b f t.heap n)) ∙ e))
    ]
      where
        either : (b ≡ main) ⊎ (b ≡ main) → b ≡ main
        either (inl x) = x
        either (inr x) = x

        false_true : Path Bool false true → ⊥
        false_true p = absurd (ground (arith, p))

        not_exec : f.state ≡ exec → ⊥
        not_exec s = false_true (sym h ∙ ap is_exec s)

    saved : (b : ℕ) → b ≢ main → (store a f t.heap b).place ≡ expected (store a f t.heap b).state
    saved b m = elim (same_or_not b a) [
      | inl i ↦
          let at_b = ap (store a f t.heap) i ∙ store_same a f t.heap in
          ap (λ (g : Fiber). g.place) at_b ∙ k ∙ sym (ap (λ (g : Fiber). expected g.state) at_b)
      | inr n ↦
          let at_b = store_other a b f t.heap n in
          ap (λ (g : Fiber). g.place) at_b
          ∙ v.saved b m
          ∙ sym (ap (λ (g : Fiber). expected g.state) at_b)
    ]

-- The fiber that `run` keeps for functions, if it has one.
abbrev pub IsSpare : ℕ → Option ℕ → Thread → Type 0
IsSpare main none t = Unit {0}
IsSpare main (some a) t = (a ≢ main) × ((t.heap a).has_stack ≡ true) × ((t.heap a).state ≡ init)

-- The fiber for a function: the one that is kept, or a new one.
abbrev pub chosen : ℕ → Option ℕ → ℕ
chosen made none = made
chosen made (some a) = a

-- A fiber for the function `cb`, ready to start.
record Loaded (main made cb : ℕ) (w : World) (result : Checked (ℕ × World)) : Type 0 where
  at : ℕ
  thread : Thread
  its : result ≡ ok (at, record w { thread = thread; cb_fiber = some at })
  apart : at ≢ main
  valid : IsConsistent main main thread
  stack : (thread.heap at).has_stack ≡ true
  fresh : (thread.heap at).state ≡ init
  own : (thread.heap at).use_caller ≡ false
  which : at ≡ chosen made w.cb_fiber
  function : (thread.heap at).cb ≡ some cb
  start : (thread.heap at).place ≡ at_entry
  others : (b : ℕ) → b ≢ at → thread.heap b ≡ w.thread.heap b

reset_ok :
    (a : ℕ) (cb : Option ℕ) (use_caller : Bool) (t : Thread)
    → (t.heap a).has_stack ≡ true
    → (is_over (t.heap a).state || is_init (t.heap a).state) ≡ true
    → reset a cb use_caller t
      ≡ ok (
          set_fiber a
            (record (t.heap a) { cb = cb; use_caller = use_caller; place = at_entry; state = init })
            t)
unfolding reset
reset_ok a cb use_caller t h k =
    ap
      (λ b.
        if not b
        then assert_failed
        else if is_over (t.heap a).state || is_init (t.heap a).state
        then ok started
        else assert_failed)
      h
    ∙ ap (λ b. if b then ok started else assert_failed) k
  where
    started : Thread
    started =
        set_fiber a
          (record (t.heap a) { cb = cb; use_caller = use_caller; place = at_entry; state = init }) t

load-Loaded :
    (main made cb : ℕ) (w : World)
    → IsConsistent main main w.thread
    → made ≢ main
    → IsSpare main w.cb_fiber w.thread
    → Loaded main made cb w (load made cb w)
unfolding load new_fiber is_exec is_over is_init
load-Loaded main made cb w v apart spare = go w.cb_fiber refl spare
  where
    go :
        (o : Option ℕ)
        → w.cb_fiber ≡ o
        → IsSpare main o w.thread
        → Loaded main made cb w (load_in made cb w o)
    go none e s = record {
      at = made;
      thread = new_fiber made (some cb) false w.thread;
      its = refl;
      apart = apart;
      valid = set_fiber-IsConsistent main made _ _ _ w.thread v apart refl refl;
      stack = ap (λ (f : Fiber). f.has_stack) (store_same made _ w.thread.heap);
      fresh = ap (λ (f : Fiber). f.state) (store_same made _ w.thread.heap);
      own = ap (λ (f : Fiber). f.use_caller) (store_same made _ w.thread.heap);
      which = ap (chosen made) (sym e);
      function = ap (λ (f : Fiber). f.cb) (store_same made _ w.thread.heap);
      start = ap (λ (f : Fiber). f.place) (store_same made _ w.thread.heap);
      others = λ b m. store_other made b _ w.thread.heap m;
    }
    go (some a) e (n, stack, st) = record {
      at = a;
      thread = started a;
      its =
          ap (λ r. and_then r (λ t. ok (a, record w { thread = t })))
            (reset_ok a (some cb) false w.thread stack (ap (λ q. is_over q || is_init q) st))
          ∙ ap (λ o. ok (a, record w { thread = started a; cb_fiber = o })) e;
      apart = n;
      valid =
          set_fiber-IsConsistent main a w.thread.last_id w.thread.fibers _ w.thread v n refl refl;
      stack = ap (λ (f : Fiber). f.has_stack) (store_same a _ w.thread.heap) ∙ stack;
      fresh = ap (λ (f : Fiber). f.state) (store_same a _ w.thread.heap);
      own = ap (λ (f : Fiber). f.use_caller) (store_same a _ w.thread.heap);
      which = ap (chosen made) (sym e);
      function = ap (λ (f : Fiber). f.cb) (store_same a _ w.thread.heap);
      start = ap (λ (f : Fiber). f.place) (store_same a _ w.thread.heap);
      others = λ b m. store_other a b _ w.thread.heap m;
    }
      where
        started : ℕ → Thread
        started a =
            set_fiber a
              (record (w.thread.heap a) {
                cb = some cb;
                use_caller = false;
                place = at_entry;
                state = init;
              })
              w.thread

-- The fiber that is kept after the turn: none if it has yielded.
abbrev pub kept : Exit → ℕ → Option ℕ
kept returns a = some a
kept throws a = some a
kept _ a = none

-- What `run` does with the function `cb`. `at` is the fiber that is kept, or the new one. `loaded` is
-- the thread in which that fiber is about to start, with `cb`, and no other has changed; from there it
-- has its turn, which ends in `turned`, in the state that says how it ended. Afterwards the thread is
-- in the scheduler's fiber, and no other fiber but that has changed. A fiber that has yielded is as it
-- left the thread, with `cb` to go on with, and is queued if that was to READY; one that is over has
-- no function and is kept for the next one. The counter of active threads is down by one.
pub record RanCallback (main fresh made cb : ℕ) (job : Job) (w : World) (result : Checked World)
    : Type 0 where
  pub at : ℕ
  pub loaded : Thread
  pub turned : Thread
  pub after : World
  pub its : result ≡ ok after
  pub which : at ≡ chosen made w.cb_fiber
  pub function : (loaded.heap at).cb ≡ some cb
  pub start : ((loaded.heap at).state ≡ init) × ((loaded.heap at).place ≡ at_entry)
  pub none_else : (b : ℕ) → b ≢ at → loaded.heap b ≡ w.thread.heap b
  pub had_turn :
      turn fresh at job (record w { thread = loaded; cb_fiber = some at })
      ≡ ok (record w { thread = turned; scheduler = job.does w.scheduler; cb_fiber = some at })
  pub left : turned.heap at ≡ exited job.exit (loaded.heap at)
  pub yielded :
      kept job.exit at ≡ none
      → (after.thread.heap at ≡ turned.heap at) × ((after.thread.heap at).cb ≡ some cb)
  pub over : kept job.exit at ≡ some at → (after.thread.heap at).cb ≡ none
  pub others : (b : ℕ) → b ≢ at → b ≢ main → after.thread.heap b ≡ w.thread.heap b
  pub valid : IsConsistent main main after.thread
  pub spare : after.cb_fiber ≡ kept job.exit at
  pub clean : IsSpare main after.cb_fiber after.thread
  pub tasks : after.scheduler.tasks ≡ queued job.exit at (job.does w.scheduler).tasks
  pub active : after.scheduler.active ≡ (less_active (job.does w.scheduler)).active

-- The end of that, for the world `w` after the turn.
record Ended (main : ℕ) (x : Exit) (a : ℕ) (w : World) (result : Checked World) : Type 0 where
  after : World
  its : result ≡ ok after
  valid : IsConsistent main main after.thread
  spare : after.cb_fiber ≡ kept x a
  clean : IsSpare main after.cb_fiber after.thread
  scheduler : after.scheduler ≡ rescheduled x a (less_active w.scheduler)
  yielded : kept x a ≡ none → after.thread.heap a ≡ w.thread.heap a
  over : kept x a ≡ some a → (after.thread.heap a).cb ≡ none
  others : (b : ℕ) → b ≢ a → after.thread.heap b ≡ w.thread.heap b

over-Ended :
    (main : ℕ) (x : Exit) (a : ℕ) (w : World)
    → IsConsistent main main w.thread
    → a ≢ main
    → w.cb_fiber ≡ some a
    → (w.thread.heap a).has_stack ≡ true
    → (is_over (w.thread.heap a).state || is_init (w.thread.heap a).state) ≡ true
    → kept x a ≡ some a
    → rescheduled x a (less_active w.scheduler) ≡ less_active w.scheduler
    → Ended main x a w (
        and_then
          (reset a none false w.thread)
          (λ t. ok (record w { scheduler = less_active w.scheduler; thread = t })))
unfolding is_exec
over-Ended main x a w v n c h k e r = record {
  after = record w { scheduler = less_active w.scheduler; thread = cleared; cb_fiber = some a };
  its =
      ap (λ t. and_then t (λ t. ok (record w { scheduler = less_active w.scheduler; thread = t })))
        (reset_ok a none false w.thread h k)
      ∙ ap
          (λ o.
            ok (record w { scheduler = less_active w.scheduler; thread = cleared; cb_fiber = o }))
          c;
  valid = set_fiber-IsConsistent main a w.thread.last_id w.thread.fibers _ w.thread v n refl refl;
  spare = sym e;
  clean = (
    n,
    ap (λ (f : Fiber). f.has_stack) (store_same a _ w.thread.heap) ∙ h,
    ap (λ (f : Fiber). f.state) (store_same a _ w.thread.heap),
  );
  scheduler = sym r;
  yielded = λ q. absurd (cc);
  over = λ q. ap (λ (f : Fiber). f.cb) (store_same a _ w.thread.heap);
  others = λ b m. store_other a b _ w.thread.heap m;
}
  where
    cleared : Thread
    cleared =
        set_fiber a
          (record (w.thread.heap a) {
            cb = none;
            use_caller = false;
            place = at_entry;
            state = init;
          })
          w.thread

Ended-as :
    (main : ℕ) (x : Exit) (a : ℕ) (w : World) (r s : Checked World)
    → r ≡ s
    → Ended main x a w s
    → Ended main x a w r
Ended-as main x a w r s e d = record {
  after = d.after;
  its = e ∙ d.its;
  valid = d.valid;
  spare = d.spare;
  clean = d.clean;
  scheduler = d.scheduler;
  yielded = d.yielded;
  over = d.over;
  others = d.others;
}

after_cb-Ended :
    (main : ℕ) (x : Exit) (a : ℕ) (w : World)
    → IsConsistent main main w.thread
    → a ≢ main
    → w.cb_fiber ≡ some a
    → (w.thread.heap a).has_stack ≡ true
    → (w.thread.heap a).state ≡ state_after x
    → Ended main x a w (after_cb a w)
unfolding after_cb is_ready is_over is_init
after_cb-Ended main to_ready a w v n c h k = record {
  yielded = λ q. refl;
  over = λ q. absurd (cc);
  others = λ b m. refl;
  after = record w {
    scheduler = schedule (fiber_task a) (less_active w.scheduler);
    cb_fiber = none;
  };
  its = rw k refl;
  valid = v;
  spare = refl;
  clean = tt;
  scheduler = refl;
}
after_cb-Ended main to_hold a w v n c h k = record {
  yielded = λ q. refl;
  over = λ q. absurd (cc);
  others = λ b m. refl;
  after = record w { scheduler = less_active w.scheduler; cb_fiber = none };
  its = rw k (
      ap (λ t. ok (record w { scheduler = less_active w.scheduler; thread = t; cb_fiber = none }))
        (resting_same a w.thread k));
  valid = v;
  spare = refl;
  clean = tt;
  scheduler = refl;
}
after_cb-Ended main returns a w v n c h k =
    Ended-as main returns a w _ _ (rw k refl)
      (over-Ended main returns a w v n c h (ap (λ q. is_over q || is_init q) k) refl refl)
after_cb-Ended main throws a w v n c h k =
    Ended-as main throws a w _ _ (rw k refl)
      (over-Ended main throws a w v n c h (ap (λ q. is_over q || is_init q) k) refl refl)

stack-exited : (x : Exit) (f : Fiber) → (exited x f).has_stack ≡ f.has_stack
stack-exited to_ready f = refl
stack-exited to_hold f = refl
stack-exited returns f = refl
stack-exited throws f = refl

-- A fiber that yields keeps its function.
cb-exited : (x : Exit) (a : ℕ) (f : Fiber) → kept x a ≡ none → (exited x f).cb ≡ f.cb
cb-exited to_ready a f h = refl
cb-exited to_hold a f h = refl
cb-exited returns a f h = absurd (cc)
cb-exited throws a f h = absurd (cc)

-- `run` with a function, from the scheduler's fiber and with the invariant of the fibers, where the
-- fiber that is kept for functions, if there is one, has a stack and is in the state INIT, and a
-- new one would not be the scheduler's: no assertion fails; the function is put into the kept
-- fiber, or into a new one if there is none, and has its turn there from its beginning; a fiber
-- that yields goes on with it later, and one that is over has no function and is kept, in the state
-- INIT; no other fiber but the scheduler's changes; the fiber is at the end of the queue if it has
-- yielded to READY, and is not put there otherwise; the counter of active threads is down by one;
-- and the invariant holds again.
pub run_cb-RanCallback :
    (main fresh made cb : ℕ) (job : Job) (w : World)
    → IsConsistent main main w.thread
    → made ≢ main
    → IsSpare main w.cb_fiber w.thread
    → RanCallback main fresh made cb job w (run_cb fresh made cb job w)
unfolding run_cb is_exec is_over
run_cb-RanCallback main fresh made cb job w v apart spare =
    let l = load-Loaded main made cb w v apart spare in
    let (t, e, valid, its, others) =
      turn-Left main l.at fresh job.exit l.thread l.valid (ap is_exec l.fresh) (ap is_over l.fresh)
        l.own in
    let loaded = record w { thread = l.thread; cb_fiber = some l.at } in
    let turned = record loaded { thread = t; scheduler = job.does w.scheduler } in
    let stack =
      ap (λ (f : Fiber). f.has_stack) its ∙ stack-exited job.exit (l.thread.heap l.at) ∙ l.stack in
    let state = ap (λ (f : Fiber). f.state) its ∙ state-exited job.exit (l.thread.heap l.at) in
    let d = after_cb-Ended main job.exit l.at turned valid l.apart refl stack state in
    let yields_on = λ (q : kept job.exit l.at ≡ none). d.yielded q in
    record {
      at = l.at;
      loaded = l.thread;
      turned = t;
      after = d.after;
      which = l.which;
      function = l.function;
      start = (l.fresh, l.start);
      none_else = l.others;
      had_turn =
          ap
            (λ r.
              and_then r (λ u. ok (record loaded { thread = u; scheduler = job.does w.scheduler })))
            e;
      left = its;
      yielded = λ q. (
        yields_on q,
        ap (λ (f : Fiber). f.cb) (yields_on q ∙ its)
            ∙ cb-exited job.exit l.at (l.thread.heap l.at) q
            ∙ l.function,
      );
      over = d.over;
      others = λ b n m. d.others b n ∙ others b n m ∙ l.others b n;
      its =
          ap (λ r. and_then r (λ r. and_then (turn fresh r.0 job r.1) (after_cb r.0))) l.its
          ∙ ap
              (λ r.
                and_then
                  (and_then r
                    (λ u. ok (record loaded { thread = u; scheduler = job.does w.scheduler })))
                  (after_cb l.at))
              e
          ∙ d.its;
      valid = d.valid;
      spare = d.spare;
      clean = d.clean;
      tasks =
          ap (λ (s : Scheduler). s.tasks) d.scheduler
          ∙ tasks-rescheduled job.exit l.at (less_active (job.does w.scheduler));
      active =
          ap (λ (s : Scheduler). s.active) d.scheduler
          ∙ active-rescheduled job.exit l.at (less_active (job.does w.scheduler));
    }
