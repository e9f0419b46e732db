-- ===== src/IoManager/CancelAll.antt =====
-- `cancelAll` of IOManager (sylar/iomanager.cpp).
use sylar_demo.Common.{
  ℕ, ◌+◌, ◌^◌, ◌≤◌, ◌<◌, ◌≡◌, ◌≢◌, ◌⊎◌, inl, inr, refl, ap, ap₂, ◌∙◌, Bool, true, false, ◌++◌, some,
  arith, length, get_elem?, int_index, if◌then◌else◌, Bool-cases, lt→ltb, Checked, ok,
  assert_failed, and_then,
}
use sylar_demo.IoManager.{
  read, write, no_events, any, FdContext, Ctl, ctl_del, IoManager, Progress, trigger_if, progress,
  put_progress, cancel_all_here, cancel_all,
}
use sylar_demo.IoManager.Counting.{count, get-All, get-set, get-set_other, total-le, count-le-total}
use sylar_demo.IoManager.Valid.{IsContext, IsValid, put-IsValid}
use sylar_demo.IoManager.Cancel.{known_cases}
use sylar_demo.IoManager.Fire.{
  fired_both, both_work, IsCovered, Fires, both-Fires, later_test, fired_fd,
}

-- Under the invariant the counter covers each context.
pub progress-IsCovered :
    (s : IoManager) (i : ℕ) (c : FdContext)
    → IsValid s
    → get_elem? s.contexts i ≡ some c
    → IsCovered (progress c s)
progress-IsCovered s i c v g = (
  get-All IsContext s.contexts i c g v.fitting,
  omega (arith, v.counted, count-le-total s.contexts i c g),
  omega (arith, v.counted, total-le s.contexts, v.int_size),
)

-- What `cancelAll` does to a descriptor with events: it has none any more, and no other context
-- changes; the counter goes down by their number; and what waits for them is scheduled, in order.
pub record Cleared (fd : ℕ) (s : IoManager) (result : Checked (Bool × IoManager)) : Type 0 where
  pub context : FdContext
  pub its_context : get_elem? s.contexts fd ≡ some context
  pub had : any context.events ≡ true
  pub after : IoManager
  pub returns : result ≡ ok (true, after)
  pub valid : IsValid after
  pub pending : after.pending + count context.events ≡ s.pending
  pub context' : FdContext
  pub stored : get_elem? after.contexts fd ≡ some context'
  pub cleared : context'.events ≡ no_events
  pub others : (j : ℕ) → j ≢ fd → get_elem? after.contexts j ≡ get_elem? s.contexts j
  pub scheduled :
      after.scheduled
      ≡ s.scheduled ++ both_work context.events.reading context.events.writing context

all_gone :
    (reads writes : Bool) (c : FdContext)
    → c.events.reading ≡ reads
    → c.events.writing ≡ writes
    → (fired_both reads writes c).events ≡ no_events
all_gone true true c r w = refl
all_gone true false c r w = ap (λ b. record { reading = false; writing = b }) w
all_gone false true c r w = ap (λ b. record { reading = b; writing = false }) r
all_gone false false c r w = ap₂ (λ b d. record { reading = b; writing = d }) r w

-- The end of `cancelAll`, with its assertion.
abbrev finish : IoManager → ℕ → Progress → Checked (Bool × IoManager)
finish s i q = if any q.context.events then assert_failed else ok (true, put_progress i s q)

finish-Cleared :
    (ctl : Ctl) (fd : ℕ) (s : IoManager) (c : FdContext) (result : Checked (Bool × IoManager))
    → IsValid s
    → fd < 2 ^ 31
    → get_elem? s.contexts fd ≡ some c
    → any c.events ≡ true
    → result
      ≡ and_then (trigger_if c.events.reading read (progress c s)) (λ p.
        and_then (trigger_if p.context.events.writing write p) (λ q.
          if any q.context.events
          then assert_failed
          else ok (true, put_progress (int_index fd) s q)))
    → Cleared fd s result
finish-Cleared ctl fd s c result v small g h e = record {
  context = c;
  its_context = g;
  had = h;
  after = after fd;
  returns =
      e
      ∙ later_test c.events.reading (progress c s) (finish s (int_index fd)) covered
          (Bool-cases c.events.reading)
      ∙ ap (λ t. and_then t (finish s (int_index fd))) both.returns
      ∙ ap (λ k. if any k then assert_failed else ok (true, after (int_index fd))) gone
      ∙ ap (λ i. ok (true, after i)) (rw (lt→ltb fd (2 ^ 31) small) refl);
  valid =
      put-IsValid s fd c cleared both.pending _ v g both.fits
        (fired_fd c.events.reading c.events.writing c) both.counted;
  pending = omega (arith, both.counted, ap count gone);
  context' = cleared;
  stored = get-set s.contexts fd c cleared g;
  cleared = gone;
  others = λ j n. get-set_other s.contexts fd j cleared n;
  scheduled = refl;
}
  where
    covered : IsCovered (progress c s)
    covered = progress-IsCovered s fd c v g

    cleared : FdContext
    cleared = fired_both c.events.reading c.events.writing c

    gone : cleared.events ≡ no_events
    gone = all_gone c.events.reading c.events.writing c refl refl

    both : Fires cleared (both_work c.events.reading c.events.writing c) (progress c s) (
        and_then
          (trigger_if c.events.reading read (progress c s))
          (trigger_if c.events.writing write))
    both =
        both-Fires c.events.reading c.events.writing (progress c s) covered
          (Bool-cases c.events.reading) (Bool-cases c.events.writing)

    after : ℕ → IoManager
    after i = put_progress i s (record {
      context = cleared;
      pending = both.pending;
      scheduled = s.scheduled ++ both_work c.events.reading c.events.writing c;
    })

-- Why `cancelAll` does nothing and returns false.
abbrev pub NoneCleared : Ctl → ℕ → IoManager → Type 0
NoneCleared ctl fd s =
    (length s.contexts ≤ fd)
    ⊎ ((ctl ctl_del fd no_events ≡ false)
        ⊎ ((c : FdContext) × (get_elem? s.contexts fd ≡ some c) × (any c.events ≡ false)))

-- `cancelAll` of a descriptor that is no negative `int`, on a valid manager: it returns false and
-- changes nothing, where the descriptor has no events or the kernel refuses, or it takes all of them
-- away. No assertion fails.
pub cancel_all_cases :
    (ctl : Ctl) (fd : ℕ) (s : IoManager)
    → IsValid s
    → fd < 2 ^ 31
    → (NoneCleared ctl fd s × (cancel_all ctl fd s ≡ ok (false, s)))
      ⊎ Cleared fd s (cancel_all ctl fd s)
unfolding cancel_all cancel_all_here
cancel_all_cases ctl fd s v small = elim (known_cases fd (cancel_all_here ctl fd s) s v small) [
  | inl (past, e) ↦ inl (inl past, e)
  | inr (c, g, e) ↦ elim (Bool-cases (any c.events)) [
    | inr h ↦ inl (inr (inr (c, g, h)), e ∙ rw h refl)
    | inl h ↦ elim (Bool-cases (ctl ctl_del fd no_events)) [
      | inr k ↦ inl (inr (inl k), e ∙ rw (h, k) refl)
      | inl k ↦ inr (finish-Cleared ctl fd s c _ v small g h (e ∙ rw (h, k) refl))
    ]
  ]
]
