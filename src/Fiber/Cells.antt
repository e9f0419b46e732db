-- ===== src/Fiber/Cells.antt =====
-- The heap of fibers (sylar/fiber.cpp), and the invariant of a thread that schedules.
use sylar_demo.Common.{
  ℕ, ◌≡◌, ◌≢◌, ◌⊎◌, inl, inr, refl, sym, some, arith, ◌==◌, eq→==, ne→==_false, Bool-cases,
}
use sylar_demo.Fiber.{
  State, init, hold, exec, term, ready, except, Place, at_entry, inside, at_end, Fiber, Thread,
  store,
}

pub store_same : (a : ℕ) (f : Fiber) (heap : ℕ → Fiber) → store a f heap a ≡ f
unfolding store
store_same a f heap = rw (eq→== a a refl) refl

pub store_other : (a b : ℕ) (f : Fiber) (heap : ℕ → Fiber) → b ≢ a → store a f heap b ≡ heap b
unfolding store
store_other a b f heap n = rw (ne→==_false a b (λ e. n (sym e))) refl

pub same_or_not : (a b : ℕ) → (a ≡ b) ⊎ (a ≢ b)
same_or_not a b = elim (Bool-cases (a == b)) [
  | inl e ↦ inl (ground (arith, e))
  | inr e ↦ inr (λ k. ground (arith, e, k))
]

-- Where a fiber that does not run goes on, by its state.
abbrev pub expected : State → Place
expected init = at_entry
expected hold = inside
expected exec = inside
expected term = at_end
expected ready = inside
expected except = at_end

-- A thread whose scheduler's fiber is `main`, and whose running fiber is `now`.
pub record IsConsistent (main now : ℕ) (t : Thread) : Type 0 where
  pub scheduling : t.scheduler_fiber ≡ some main
  pub running : t.current ≡ some now
  pub main_runs : (t.heap main).state ≡ exec
  pub now_runs : (t.heap now).state ≡ exec
  pub alone : (a : ℕ) → (t.heap a).state ≡ exec → (a ≡ now) ⊎ (a ≡ main)
  pub saved : (a : ℕ) → a ≢ now → (t.heap a).place ≡ expected (t.heap a).state
