-- ===== src/IoManager/Fire.antt =====
-- The two conditional calls of `triggerEvent` in `cancelAll` and `idle` (sylar/iomanager.cpp).
use mathlib.Core.List.{append-nil, append_assoc}
use sylar_demo.Common.{
  ℕ, ◌+◌, ◌^◌, ◌≤◌, ◌<◌, ◌≡◌, ◌⊎◌, inl, inr, refl, sym, ap, ◌∙◌, Bool, true, false, List, [], ◌++◌,
  arith, sub64, if◌then◌else◌, Checked, ok, and_then,
}
use sylar_demo.IoManager.{Event, read, write, has, FdContext, Work, Progress, trigger_if}
use sylar_demo.IoManager.Counting.{count}
use sylar_demo.IoManager.Valid.{IsContext, triggered, triggered-IsContext, count-triggered}
use sylar_demo.IoManager.Cancel.{its_work, triggers_work}

-- A context after the conditional call, and what it schedules.
abbrev pub fired_context : Bool → Event → FdContext → FdContext
fired_context test event c = if test then triggered event c else c

abbrev pub fired_work : Bool → Event → FdContext → List (ℕ × Work)
fired_work test event c = if test then its_work event c else []

-- The counter covers the events of the context.
abbrev pub IsCovered : Progress → Type 0
IsCovered p = IsContext p.context × (count p.context.events ≤ p.pending) × (p.pending < 2 ^ 64)

pub record Fires (context : FdContext) (work : List (ℕ × Work)) (p : Progress)
    (result : Checked Progress) : Type 0 where
  pub pending : ℕ
  pub returns :
      result ≡ ok (record { context = context; pending = pending; scheduled = p.scheduled ++ work })
  pub fits : IsContext context
  pub less : pending ≤ p.pending
  pub counted : pending + count p.context.events ≡ p.pending + count context.events

pub trigger_if-Fires :
    (test : Bool) (event : Event) (p : Progress)
    → IsCovered p
    → (has event p.context.events ≡ true) ⊎ (test ≡ false)
    → Fires
        (fired_context test event p.context)
        (fired_work test event p.context)
        p
        (trigger_if test event p)
unfolding trigger_if
trigger_if-Fires false event p v h = record {
  pending = p.pending;
  returns = ap (λ l. ok (record p { scheduled = l })) (sym (append-nil p.scheduled));
  fits = v.0;
  less = omega arith;
  counted = refl;
}
trigger_if-Fires true event p v (inr e) = absurd (ground (arith, e))
trigger_if-Fires true event p v (inl h) = record {
  pending = sub64 p.pending 1;
  returns =
      ap
        (λ t.
          and_then t
            (λ r. ok (record { context = r.0; pending = sub64 p.pending 1; scheduled = r.1 })))
        (triggers_work event p.context p.scheduled v.0 h);
  fits = triggered-IsContext event p.context v.0;
  less = omega (arith, count-triggered event p.context h, v.1, v.2);
  counted = omega (arith, count-triggered event p.context h, v.1, v.2);
}

-- Both calls, the first for READ and the second for WRITE.
abbrev pub fired_both : Bool → Bool → FdContext → FdContext
fired_both reads writes c = fired_context writes write (fired_context reads read c)

abbrev pub both_work : Bool → Bool → FdContext → List (ℕ × Work)
both_work reads writes c = fired_work reads read c ++ fired_work writes write c

same_work :
    (reads writes : Bool) (c : FdContext)
    → fired_work writes write (fired_context reads read c) ≡ fired_work writes write c
same_work true writes c = refl
same_work false writes c = refl

pub same_bit :
    (reads : Bool) (c : FdContext) → (fired_context reads read c).events.writing ≡ c.events.writing
same_bit true c = refl
same_bit false c = refl

pub fired_fd : (reads writes : Bool) (c : FdContext) → (fired_both reads writes c).fd ≡ c.fd
fired_fd true true c = refl
fired_fd true false c = refl
fired_fd false true c = refl
fired_fd false false c = refl

pub both-Fires :
    (reads writes : Bool) (p : Progress)
    → IsCovered p
    → (p.context.events.reading ≡ true) ⊎ (reads ≡ false)
    → (p.context.events.writing ≡ true) ⊎ (writes ≡ false)
    → Fires
        (fired_both reads writes p.context)
        (both_work reads writes p.context)
        p
        (and_then (trigger_if reads read p) (trigger_if writes write))
both-Fires reads writes p v r w = record {
  pending = second.pending;
  returns =
      ap (λ t. and_then t (trigger_if writes write)) first.returns
      ∙ second.returns
      ∙ ap
          (λ l. ok (record {
            context = fired_both reads writes p.context;
            pending = second.pending;
            scheduled = l;
          }))
          (append_assoc p.scheduled (fired_work reads read p.context)
              (fired_work writes write (fired_context reads read p.context))
            ∙ ap (λ l. p.scheduled ++ (fired_work reads read p.context ++ l))
                (same_work reads writes p.context));
  fits = second.fits;
  less = omega (arith, first.less, second.less);
  counted = omega (arith, first.counted, second.counted);
}
  where
    first :
        Fires
          (fired_context reads read p.context)
          (fired_work reads read p.context)
          p
          (trigger_if reads read p)
    first = trigger_if-Fires reads read p v r

    q : Progress
    q = record {
      context = fired_context reads read p.context;
      pending = first.pending;
      scheduled = p.scheduled ++ fired_work reads read p.context;
    }

    still : (q.context.events.writing ≡ true) ⊎ (writes ≡ false)
    still = elim w [ inl e ↦ inl (same_bit reads p.context ∙ e) | inr e ↦ inr e ]

    second :
        Fires
          (fired_context writes write q.context)
          (fired_work writes write q.context)
          q
          (trigger_if writes write q)
    second =
        trigger_if-Fires writes write q
          (first.fits, omega (arith, first.counted, v.1), omega (arith, first.less, v.2)) still

-- `cancelAll` tests WRITE on the context that the first call leaves, with the same outcome.
pub later_test :
    {A : Type 0} (reads : Bool) (p : Progress) (k : Progress → Checked A)
    → IsCovered p
    → (p.context.events.reading ≡ true) ⊎ (reads ≡ false)
    → and_then
        (trigger_if reads read p)
        (λ q. and_then (trigger_if q.context.events.writing write q) k)
      ≡ and_then (and_then (trigger_if reads read p) (trigger_if p.context.events.writing write)) k
later_test reads p k v r =
    ap (λ t. and_then t (λ q. and_then (trigger_if q.context.events.writing write q) k))
      first.returns
    ∙ ap (λ b. and_then (trigger_if b write q) k) (same_bit reads p.context)
    ∙ ap (λ t. and_then (and_then t (trigger_if p.context.events.writing write)) k)
        (sym first.returns)
  where
    first :
        Fires
          (fired_context reads read p.context)
          (fired_work reads read p.context)
          p
          (trigger_if reads read p)
    first = trigger_if-Fires reads read p v r

    q : Progress
    q = record {
      context = fired_context reads read p.context;
      pending = first.pending;
      scheduled = p.scheduled ++ fired_work reads read p.context;
    }
