-- ===== src/Mutex/Runs.antt =====
-- Runs of FiberSemaphore (sylar/mutex.cpp): tests, and the theorems applied.
use sylar_demo.Common.{◌≡◌, refl, true, [], ◌∷◌, some, ok, arith}
use sylar_demo.Mutex.{FiberSemaphore, new_semaphore, wait, notify, reset}
use sylar_demo.Mutex.Waiters.{History, Run, start, waits, notifies, resets, Balance, Run-Balance}

-- The permit of a semaphore is reset, a fiber waits, and is woken.
abbrev waiting : FiberSemaphore
waiting = record { waiters = (1, 5) ∷ []; concurrency = 0 }

wait_run : wait (some 1) 5 (new_semaphore 0) ≡ ok (true, waiting)
unfolding wait new_semaphore
wait_run = refl

reset_run : wait (some 1) 5 (reset (new_semaphore 1)) ≡ ok (true, waiting)
unfolding wait new_semaphore reset
reset_run = refl

notify_run : notify waiting ≡ (some (1, 5), record { waiters = []; concurrency = 0 })
unfolding notify
notify_run = refl

abbrev history : History
history = record {
  semaphore = record { waiters = []; concurrency = 0 };
  notified = 1;
  passed = 0;
  dropped = 1;
  queued = (1, 5) ∷ [];
  woken = (1, 5) ∷ [];
}

woken_run : Run 1 history
unfolding new_semaphore
woken_run = notifies (waits 1 5 (resets start) reset_run) notify_run

Run-Balance_example : Balance 1 history
Run-Balance_example = Run-Balance 1 history woken_run (omega arith)
