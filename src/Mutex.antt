-- ===== src/Mutex.antt =====
-- sylar/mutex.h and sylar/mutex.cpp: the scoped locks, and the semaphore of fibers.
--
-- What a scoped lock does is the calls that it makes of its mutex. A call of FiberSemaphore is one step
-- under its spinlock; a scheduler and a fiber are numbers. What a call hands to `schedule` and to
-- `YieldToHold` is part of its result.
pub mod Scoped
pub mod Waiters
mod Runs
use sylar_demo.Common.{
  ℕ, ◌+◌, ◌-◌, ◌%◌, ◌^◌, Bool, true, false, List, [], ◌∷◌, ◌++◌, Option, none, some, ltb,
  if◌then◌else◌, Checked, ok, assert_failed,
}

-- ScopedLockImpl, ReadScopedLockImpl and WriteScopedLockImpl: `acquire` is `lock`, `rdlock` or `wrlock`.
pub data MutexCall : Type 0 where
  acquire unlock : MutexCall

pub record ScopedLock : Type 0 where
  pub locked : Bool
  pub calls : List MutexCall

pub new_lock : ScopedLock
new_lock = record { locked = true; calls = acquire ∷ [] }

pub scoped_lock : ScopedLock → ScopedLock
scoped_lock l = if l.locked then l else record { locked = true; calls = l.calls ++ (acquire ∷ []) }

pub scoped_unlock : ScopedLock → ScopedLock
scoped_unlock l =
    if l.locked then record { locked = false; calls = l.calls ++ (unlock ∷ []) } else l

-- The destructor.
pub end_lock : ScopedLock → ScopedLock
unfolding scoped_unlock
end_lock l = scoped_unlock l

pub record FiberSemaphore : Type 0 where
  pub waiters : List (ℕ × ℕ)
  pub concurrency : ℕ

pub new_semaphore : ℕ → FiberSemaphore
new_semaphore initial_concurrency = record { waiters = []; concurrency = initial_concurrency }

abbrev pub take_one : FiberSemaphore → FiberSemaphore
take_one s = record s { concurrency = s.concurrency - 1 }

-- `tryWait`, of a thread whose scheduler is given, if it has one.
pub try_wait : Option ℕ → FiberSemaphore → Checked (Bool × FiberSemaphore)
try_wait none s = assert_failed
try_wait (some scheduler) s = if ltb 0 s.concurrency then ok (true, take_one s) else ok (false, s)

-- `wait`, of a fiber: whether it yields, with the semaphore.
pub wait : Option ℕ → ℕ → FiberSemaphore → Checked (Bool × FiberSemaphore)
wait none fiber s = assert_failed
wait (some scheduler) fiber s =
    if ltb 0 s.concurrency
    then ok (false, take_one s)
    else ok (true, record s { waiters = s.waiters ++ ((scheduler, fiber) ∷ []) })

-- `notify`: what it schedules, with the semaphore. A `size_t` wraps.
abbrev pub next_waiter : List (ℕ × ℕ) → FiberSemaphore → Option (ℕ × ℕ) × FiberSemaphore
next_waiter [] s = (none, record s { concurrency = (s.concurrency + 1) % 2 ^ 64 })
next_waiter (w ∷ rest) s = (some w, record s { waiters = rest })

pub notify : FiberSemaphore → Option (ℕ × ℕ) × FiberSemaphore
notify s = next_waiter s.waiters s

pub reset : FiberSemaphore → FiberSemaphore
reset s = record s { concurrency = 0 }

-- The destructor asserts that nobody waits.
abbrev pub no_waiter : List (ℕ × ℕ) → Checked Unit
no_waiter [] = ok tt
no_waiter (w ∷ rest) = assert_failed

pub end_semaphore : FiberSemaphore → Checked Unit
end_semaphore s = no_waiter s.waiters
