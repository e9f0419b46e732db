-- ===== src/Mutex/Waiters.antt =====
-- The fibers that wait for a FiberSemaphore (sylar/mutex.cpp), and its permits.
use sylar_demo.Common.{
  ℕ, ◌+◌, ◌^◌, ◌<◌, ◌≡◌, refl, sym, ap, ◌∙◌, ◌⊎◌, inl, inr, Bool, true, false, List, [], ◌∷◌, ◌++◌,
  Option, none, some, length, length-append, arith, ltb, ltb→lt, ltb_false→le, Bool-cases,
  if◌then◌else◌, ok, Checked, ◌≢◌,
}
use mathlib.Core.List.{append_assoc, append-nil}
use mathlib.Core.Path.{subst}
use sylar_demo.Mutex.{
  FiberSemaphore, new_semaphore, take_one, try_wait, wait, next_waiter, notify, reset,
}

-- A semaphore and what has become of it: how often `notify` was called, how many permits `tryWait` and
-- `wait` took at once, how many `reset` took away, who had to wait, and who was scheduled for it, each
-- in order.
pub record History : Type 0 where
  pub semaphore : FiberSemaphore
  pub notified : ℕ
  pub passed : ℕ
  pub dropped : ℕ
  pub queued : List (ℕ × ℕ)
  pub woken : List (ℕ × ℕ)

abbrev pub as_list : Option (ℕ × ℕ) → List (ℕ × ℕ)
as_list none = []
as_list (some w) = w ∷ []

abbrev pub count : Bool → ℕ
count true = 1
count false = 0

-- Calls of a semaphore made with `n` permits, one behind the other.
pub data Run (n : ℕ) : History → Type 0 where
  start : Run n (record {
    semaphore = new_semaphore n;
    notified = 0;
    passed = 0;
    dropped = 0;
    queued = [];
    woken = [];
  })
  tries :
      {h : History} {s : FiberSemaphore} (scheduler : ℕ) (taken : Bool)
      → Run n h
      → try_wait (some scheduler) h.semaphore ≡ ok (taken, s)
      → Run n (record h { semaphore = s; passed = h.passed + count taken })
  passes :
      {h : History} {s : FiberSemaphore} (scheduler fiber : ℕ)
      → Run n h
      → wait (some scheduler) fiber h.semaphore ≡ ok (false, s)
      → Run n (record h { semaphore = s; passed = h.passed + 1 })
  waits :
      {h : History} {s : FiberSemaphore} (scheduler fiber : ℕ)
      → Run n h
      → wait (some scheduler) fiber h.semaphore ≡ ok (true, s)
      → Run n (record h { semaphore = s; queued = h.queued ++ ((scheduler, fiber) ∷ []) })
  notifies :
      {h : History} {s : FiberSemaphore} {w : Option (ℕ × ℕ)}
      → Run n h
      → notify h.semaphore ≡ (w, s)
      → Run n (record h { semaphore = s; notified = h.notified + 1; woken = h.woken ++ as_list w })
  resets :
      {h : History}
      → Run n h
      → Run n (record h {
        semaphore = reset h.semaphore;
        dropped = h.dropped + h.semaphore.concurrency;
      })

-- Those who waited are woken in order, each permit is left or was taken, handed on or reset, and nobody
-- waits while there is a permit.
pub record Balance (n : ℕ) (h : History) : Type 0 where
  pub in_order : h.woken ++ h.semaphore.waiters ≡ h.queued
  pub permits : h.semaphore.concurrency + h.passed + length h.woken + h.dropped ≡ n + h.notified
  pub none_lost : (h.semaphore.waiters ≡ []) ⊎ (h.semaphore.concurrency ≡ 0)

same_ok : {A : Type 0} {a b : A} → ok a ≡ ok b → a ≡ b
same_ok e = cc

abbrev answer : Bool → FiberSemaphore → Checked (Bool × FiberSemaphore)
answer b s = ok (b, s)

other_answer : (a b : FiberSemaphore) → answer true a ≢ answer false b
other_answer a b e = two_answers (ap (λ (r : Bool × FiberSemaphore). r.0) (same_ok e))
  where
    two_answers : true ≢ false
    two_answers e = ground (arith, e)

module _ (n : ℕ) (h : History) (b : Balance n h) where
  -- A permit that is taken, and a fiber that waits.
  take_one-Balance :
      ltb 0 h.semaphore.concurrency ≡ true
      → Balance n (record h { semaphore = take_one h.semaphore; passed = h.passed + 1 })
  take_one-Balance p =
      let left = ltb→lt 0 h.semaphore.concurrency p in
      record {
        in_order = b.in_order;
        permits = omega (arith, b.permits, left);
        none_lost = elim b.none_lost [ inl e ↦ inl e | inr e ↦ absurd (omega (arith, e, left)) ];
      }

  wait-Balance :
      (w : ℕ × ℕ)
      → ltb 0 h.semaphore.concurrency ≡ false
      → Balance n (record h {
        semaphore = record h.semaphore { waiters = h.semaphore.waiters ++ (w ∷ []) };
        queued = h.queued ++ (w ∷ []);
      })
  wait-Balance w p = record {
    in_order =
        sym (append_assoc h.woken h.semaphore.waiters (w ∷ []))
        ∙ ap (λ l. l ++ (w ∷ [])) b.in_order;
    permits = b.permits;
    none_lost = inr (omega (arith, ltb_false→le 0 h.semaphore.concurrency p));
  }

  try_wait-Balance :
      (scheduler : ℕ) (taken : Bool) (s : FiberSemaphore)
      → try_wait (some scheduler) h.semaphore ≡ ok (taken, s)
      → Balance n (record h { semaphore = s; passed = h.passed + count taken })
  unfolding try_wait
  try_wait-Balance scheduler taken s e = elim (Bool-cases (ltb 0 h.semaphore.concurrency)) [
    | inl p ↦ subst Answered (same_ok (sym (ap tested p) ∙ e)) (take_one-Balance p)
    | inr p ↦ subst Answered (same_ok (sym (ap tested p) ∙ e)) none_taken
  ]
    where
      tested : Bool → Checked (Bool × FiberSemaphore)
      tested t = if t then ok (true, take_one h.semaphore) else ok (false, h.semaphore)

      Answered : Bool × FiberSemaphore → Type 0
      Answered r = Balance n (record h { semaphore = r.1; passed = h.passed + count r.0 })

      none_taken : Balance n (record h { passed = h.passed + 0 })
      none_taken = record {
        in_order = b.in_order;
        permits = omega (arith, b.permits);
        none_lost = b.none_lost;
      }

  queue_up : ℕ × ℕ → FiberSemaphore
  queue_up w = record h.semaphore { waiters = h.semaphore.waiters ++ (w ∷ []) }

  waited : ℕ × ℕ → Bool → Checked (Bool × FiberSemaphore)
  waited w t = if t then ok (false, take_one h.semaphore) else ok (true, queue_up w)

  wait-passes :
      (scheduler fiber : ℕ) (s : FiberSemaphore)
      → wait (some scheduler) fiber h.semaphore ≡ ok (false, s)
      → Balance n (record h { semaphore = s; passed = h.passed + 1 })
  unfolding wait waited queue_up
  wait-passes scheduler fiber s e = elim (Bool-cases (ltb 0 h.semaphore.concurrency)) [
    | inl p ↦
        subst (λ t. Balance n (record h { semaphore = t; passed = h.passed + 1 }))
          (ap (λ r. r.1) (same_ok (sym (ap (waited (scheduler, fiber)) p) ∙ e)))
          (take_one-Balance p)
    | inr p ↦ absurd (other_answer _ s (sym (ap (waited (scheduler, fiber)) p) ∙ e))
  ]

  wait-waits :
      (scheduler fiber : ℕ) (s : FiberSemaphore)
      → wait (some scheduler) fiber h.semaphore ≡ ok (true, s)
      → Balance n (record h { semaphore = s; queued = h.queued ++ ((scheduler, fiber) ∷ []) })
  unfolding wait waited queue_up
  wait-waits scheduler fiber s e = elim (Bool-cases (ltb 0 h.semaphore.concurrency)) [
    | inl p ↦ absurd (other_answer s _ (sym (sym (ap (waited (scheduler, fiber)) p) ∙ e)))
    | inr p ↦
        subst
          (λ t.
            Balance n (record h { semaphore = t; queued = h.queued ++ ((scheduler, fiber) ∷ []) }))
          (ap (λ r. r.1) (same_ok (sym (ap (waited (scheduler, fiber)) p) ∙ e)))
          (wait-Balance (scheduler, fiber) p)
  ]

  notified : Option (ℕ × ℕ) × FiberSemaphore → History
  notified r = record h {
    semaphore = r.1;
    notified = h.notified + 1;
    woken = h.woken ++ as_list r.0;
  }

  next_waiter-Balance :
      (those : List (ℕ × ℕ))
      → h.semaphore.waiters ≡ those
      → n + h.notified + 1 < 2 ^ 64
      → Balance n (notified (next_waiter those h.semaphore))
  unfolding notified
  next_waiter-Balance [] e small = record {
    in_order = ap (λ l. l ++ h.semaphore.waiters) (append-nil h.woken) ∙ b.in_order;
    permits = let l = ap length (append-nil h.woken) in omega (arith, b.permits, l, small);
    none_lost = inl e;
  }
  next_waiter-Balance (w ∷ rest) e small = record {
    in_order = append_assoc h.woken (w ∷ []) rest ∙ ap (λ l. h.woken ++ l) (sym e) ∙ b.in_order;
    permits = let l = length-append h.woken (w ∷ []) in omega (arith, b.permits, l);
    none_lost = elim b.none_lost [
      | inl e' ↦ absurd (omega (arith, ap length (sym e ∙ e')))
      | inr none_left ↦ inr none_left
    ];
  }

-- However tryWait, wait, notify and reset of a semaphore made with `n` permits are called, one behind
-- the other, tryWait and wait in a scheduler, as long as its permits fit a `size_t`: those who had to
-- wait are scheduled in the order in which they came, each permit is still there, was taken at once,
-- was handed on to one who waited or was taken away by reset, and while there is a permit nobody
-- waits.
pub Run-Balance : (n : ℕ) (h : History) → Run n h → n + h.notified < 2 ^ 64 → Balance n h
unfolding new_semaphore notify notified reset
Run-Balance n _ start small = record {
  in_order = refl;
  permits = omega arith;
  none_lost = inl refl;
}
Run-Balance n _ (tries {h} {s} scheduler taken r e) small =
    try_wait-Balance n h (Run-Balance n h r small) scheduler taken s e
Run-Balance n _ (passes {h} {s} scheduler fiber r e) small =
    wait-passes n h (Run-Balance n h r small) scheduler fiber s e
Run-Balance n _ (waits {h} {s} scheduler fiber r e) small =
    wait-waits n h (Run-Balance n h r small) scheduler fiber s e
Run-Balance n _ (notifies {h} {s} {w} r e) small =
    let b = Run-Balance n h r (omega arith) in
    subst (λ x. Balance n (notified n h b x)) e
      (next_waiter-Balance n h b h.semaphore.waiters refl (omega arith))
Run-Balance n _ (resets {h} r) small =
    let b = Run-Balance n h r small in
    record { in_order = b.in_order; permits = omega (arith, b.permits); none_lost = inr refl }
