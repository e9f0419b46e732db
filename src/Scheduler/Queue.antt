-- ===== src/Scheduler/Queue.antt =====
-- `schedule` and `stopping` of Scheduler (sylar/scheduler.h, sylar/scheduler.cpp).
use mathlib.Core.List.{append-nil, append_assoc}
use sylar_demo.Common.{
  ◌+◌, ◌≡◌, inl, inr, refl, sym, ap, ap₂, ◌∙◌, Bool, true, false, not, ◌&&◌, ◌||◌, List, [], ◌∷◌,
  ◌++◌, if◌then◌else◌, Bool-cases,
}
use sylar_demo.Scheduler.{
  Task, Scheduler, is_empty, is_task, schedule_no_lock, schedule, schedule_loop, schedule_range,
  tickle_if,
}

-- The tasks that have a fiber or a function.
abbrev pub real_tasks : List Task → List Task
real_tasks [] = []
real_tasks (t ∷ ts) = if is_task t then t ∷ real_tasks ts else real_tasks ts

still_full : (l : List Task) (t : Task) (ts : List Task) → is_empty (l ++ (t ∷ ts)) ≡ false
still_full [] t ts = refl
still_full (x ∷ xs) t ts = refl

schedule_loop_lem :
    (ts : List Task) (need_tickle : Bool) (s : Scheduler)
    → schedule_loop ts need_tickle s ≡ (
      (is_empty s.tasks && not (is_empty ts)) || need_tickle,
      record s { tasks = s.tasks ++ real_tasks ts },
    )
unfolding schedule_loop schedule_no_lock
schedule_loop_lem [] need_tickle s =
    ap₂ (λ b l. (b, record s { tasks = l })) (no_more (is_empty s.tasks) need_tickle)
      (sym (append-nil s.tasks))
  where
    no_more : (e n : Bool) → n ≡ ((e && false) || n)
    no_more true n = refl
    no_more false n = refl
schedule_loop_lem (t ∷ ts) need_tickle s = elim (Bool-cases (is_task t)) [
  | inl e ↦ rw e (
      schedule_loop_lem ts (is_empty s.tasks || need_tickle)
        (record s { tasks = s.tasks ++ (t ∷ []) })
      ∙ ap₂ (λ b l. (b, record s { tasks = l }))
          (ap (λ f. (f && not (is_empty ts)) || (is_empty s.tasks || need_tickle))
              (still_full s.tasks t [])
            ∙ first (is_empty s.tasks) need_tickle)
          (append_assoc s.tasks (t ∷ []) (real_tasks ts)))
  | inr e ↦ rw e (
      schedule_loop_lem ts (is_empty s.tasks || need_tickle) s
      ∙ ap (λ b. (b, record s { tasks = s.tasks ++ real_tasks ts }))
          (absorbed (is_empty s.tasks) (not (is_empty ts)) need_tickle))
]
  where
    first : (e n : Bool) → (e || n) ≡ ((e && true) || n)
    first true n = refl
    first false n = refl

    absorbed : (e x n : Bool) → ((e && x) || (e || n)) ≡ ((e && true) || n)
    absorbed true true n = refl
    absorbed true false n = refl
    absorbed false x n = refl

-- `schedule` of a range: the tasks that have a fiber or a function are put at the end of the queue,
-- in order, and there is one tickle just if the queue was empty and the range is not.
pub schedule_range_lem :
    (ts : List Task) (s : Scheduler)
    → schedule_range ts s ≡ record s {
      tasks = s.tasks ++ real_tasks ts;
      tickles = if is_empty s.tasks && not (is_empty ts) then s.tickles + 1 else s.tickles;
    }
unfolding schedule_range
schedule_range_lem ts s =
    ap (λ (r : Bool × Scheduler). tickle_if r.0 r.1) (schedule_loop_lem ts false s)
    ∙ by_test (is_empty s.tasks && not (is_empty ts))
  where
    by_test :
        (b : Bool)
        → tickle_if (b || false) (record s { tasks = s.tasks ++ real_tasks ts }) ≡ record s {
          tasks = s.tasks ++ real_tasks ts;
          tickles = if b then s.tickles + 1 else s.tickles;
        }
    by_test true = refl
    by_test false = refl

-- `schedule` of one task is that of a range of one.
schedule_one : (t : Task) (s : Scheduler) → schedule t s ≡ schedule_range (t ∷ []) s
unfolding schedule schedule_range schedule_loop schedule_no_lock
schedule_one t s = elim (Bool-cases (is_empty s.tasks)) [ inl e ↦ rw e refl | inr e ↦ rw e refl ]

-- `schedule` of a fiber, at the end of the queue.
pub schedule_lem :
    (t : Task) (s : Scheduler)
    → is_task t ≡ true
    → schedule t s ≡ record s {
      tasks = s.tasks ++ (t ∷ []);
      tickles = if is_empty s.tasks then s.tickles + 1 else s.tickles;
    }
unfolding schedule schedule_no_lock
schedule_lem t s h =
    rw h (elim (Bool-cases (is_empty s.tasks)) [ inl e ↦ rw e refl | inr e ↦ rw e refl ])
