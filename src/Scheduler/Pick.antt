-- ===== src/Scheduler/Pick.antt =====
-- The task that `run` takes (sylar/scheduler.cpp).
use sylar_demo.Common.{
  ℕ, ◌≡◌, ◌⊎◌, inl, inr, refl, ap, ◌∙◌, Bool, true, false, not, ◌||◌, List, [], ◌∷◌, ◌++◌, none,
  some, All, Bool-cases, ok,
}
use sylar_demo.Fiber.{Fiber}
use sylar_demo.Scheduler.{Task, is_empty, is_task, is_elsewhere, is_running, Picked, keep, pick}

-- A task that the thread `here` passes over, and one that it can run.
abbrev pub IsPassed : (ℕ → Fiber) → ℕ → Task → Type 0
IsPassed heap here t = (is_elsewhere here t.thread ≡ true) ⊎ (is_running heap t.fiber ≡ true)

abbrev pub IsRunnable : (ℕ → Fiber) → ℕ → Task → Type 0
IsRunnable heap here t = (is_elsewhere here t.thread ≡ false) × (is_running heap t.fiber ≡ false)

-- Whether a task is for another thread.
abbrev pub any_elsewhere : ℕ → List Task → Bool
any_elsewhere here [] = false
any_elsewhere here (t ∷ ts) = is_elsewhere here t.thread || any_elsewhere here ts

-- No task is taken, or `task` is, which is the first that can run.
abbrev pub NonePicked : (ℕ → Fiber) → ℕ → List Task → Picked → Type 0
NonePicked heap here l p =
    (p.task ≡ none)
    × (p.left ≡ l)
    × All (IsPassed heap here) l
    × (p.tickle_me ≡ any_elsewhere here l)

pub record FirstPicked (heap : ℕ → Fiber) (here : ℕ) (l : List Task) (p : Picked) : Type 0 where
  pub skipped : List Task
  pub task : Task
  pub rest : List Task
  pub parts : l ≡ skipped ++ (task ∷ rest)
  pub passed : All (IsPassed heap here) skipped
  pub runnable : IsRunnable heap here task
  pub its : p.task ≡ some task
  pub left : p.left ≡ skipped ++ rest
  pub tickles : p.tickle_me ≡ any_elsewhere here skipped || not (is_empty rest)

passed_on :
    (heap : ℕ → Fiber) (here : ℕ) (t : Task) (ts : List Task) (p : Picked)
    → IsPassed heap here t
    → NonePicked heap here ts p ⊎ FirstPicked heap here ts p
    → NonePicked heap here (t ∷ ts) (keep t (is_elsewhere here t.thread) p)
      ⊎ FirstPicked heap here (t ∷ ts) (keep t (is_elsewhere here t.thread) p)
passed_on heap here t ts p h (inl (n, l, a, e)) =
    inl (n, ap (λ k. t ∷ k) l, (h, a), ap (λ b. is_elsewhere here t.thread || b) e)
passed_on heap here t ts p h (inr f) = inr (record {
  skipped = t ∷ f.skipped;
  task = f.task;
  rest = f.rest;
  parts = ap (λ k. t ∷ k) f.parts;
  passed = (h, f.passed);
  runnable = f.runnable;
  its = f.its;
  left = ap (λ k. t ∷ k) f.left;
  tickles =
      ap (λ b. is_elsewhere here t.thread || b) f.tickles
      ∙ or_assoc (is_elsewhere here t.thread) (any_elsewhere here f.skipped)
          (not (is_empty f.rest));
})
  where
    or_assoc : (a b c : Bool) → (a || (b || c)) ≡ ((a || b) || c)
    or_assoc true b c = refl
    or_assoc false b c = refl

-- The loop of `run` over a queue of real tasks: no assertion fails. It takes the first task that is for
-- this thread or for any and whose fiber does not run, and leaves the others in order; it takes none
-- only where there is no such task. It tickles just if it has passed over a task for another thread
-- or there are tasks behind the one that it takes.
pub pick_cases :
    (heap : ℕ → Fiber) (here : ℕ) (l : List Task)
    → All (λ t. is_task t ≡ true) l
    → (p : Picked) × (pick heap here l ≡ ok p)
      × (NonePicked heap here l p ⊎ FirstPicked heap here l p)
unfolding pick
pick_cases heap here [] a =
    (record { task = none; left = []; tickle_me = false }, refl, inl (refl, refl, tt, refl))
pick_cases heap here (t ∷ ts) a =
    let (p, e, c) = pick_cases heap here ts a.1 in
    elim (Bool-cases (is_elsewhere here t.thread)) [
      | inl h ↦ (
        keep t (is_elsewhere here t.thread) p,
        rw (h, e) refl,
        passed_on heap here t ts p (inl h) c,
      )
      | inr h ↦ elim (Bool-cases (is_running heap t.fiber)) [
        | inl k ↦ (
          keep t (is_elsewhere here t.thread) p,
          rw (h, a.0, k, e) refl,
          passed_on heap here t ts p (inr k) c,
        )
        | inr k ↦ (
          record { task = some t; left = ts; tickle_me = not (is_empty ts) },
          rw (h, a.0, k) refl,
          inr (record {
            skipped = [];
            task = t;
            rest = ts;
            parts = refl;
            passed = tt;
            runnable = (h, k);
            its = refl;
            left = refl;
            tickles = refl;
          }),
        )
      ]
    ]
