-- ===== src/IoManager/Idle/Ready.antt =====
-- The reports that `idle` answers (sylar/iomanager.cpp).
use sylar_demo.Common.{
  ℕ, ◌+◌, ◌≡◌, ◌≢◌, ◌⊎◌, inl, inr, refl, ap, ◌∙◌, Bool, true, false, not, ◌&&◌, ◌++◌, some,
  get_elem?, if◌then◌else◌, Bool-cases, Checked, ok, assert_failed, undefined, and_then,
}
use sylar_demo.IoManager.{
  Event, read, write, Events, any, has, FdContext, Ctl, IoManager, op_for, Progress, trigger_event,
  trigger_if, progress, put_progress, at_context,
}
use sylar_demo.IoManager.Counting.{count, get-set, get-set_other}
use sylar_demo.IoManager.Valid.{IsValid, put-IsValid}
use sylar_demo.IoManager.Fire.{
  fired_both, both_work, Fires, trigger_if-Fires, fired_context, fired_work, both-Fires, fired_fd,
  same_bit,
}
use sylar_demo.IoManager.CancelAll.{progress-IsCovered}
use sylar_demo.IoManager.Idle.{
  Revents, report, real_events, both, left_events, report_here, on_report,
}

-- Each event that a report says has happened is one that the context has.
abbrev pub IsWanted : Events → Events → Type 0
IsWanted real had =
    ((had.reading ≡ true) ⊎ (real.reading ≡ false))
    × ((had.writing ≡ true) ⊎ (real.writing ≡ false))

-- What a report does: its events are gone, and no other context changes; the counter goes down by
-- their number; and what waits for them is scheduled, in order.
pub record Answered (i : ℕ) (real : Events) (c : FdContext) (s : IoManager)
    (result : Checked IoManager) : Type 0 where
  pub after : IoManager
  pub returns : result ≡ ok after
  pub valid : IsValid after
  pub context : FdContext
  pub stored : get_elem? after.contexts i ≡ some context
  pub left : context.events ≡ left_events c.events real
  pub pending : after.pending + count c.events ≡ s.pending + count context.events
  pub others : (j : ℕ) → j ≢ i → get_elem? after.contexts j ≡ get_elem? s.contexts j
  pub scheduled : after.scheduled ≡ s.scheduled ++ both_work real.reading real.writing c

fired_left :
    (real : Events) (c : FdContext)
    → (fired_both real.reading real.writing c).events ≡ left_events c.events real
fired_left real c = by_bits real.reading real.writing c.events.reading c.events.writing
  where
    by_bits :
        (r w x y : Bool)
        → (fired_both r w (record c { events = record { reading = x; writing = y } })).events
          ≡ record { reading = x && not r; writing = y && not w }
    by_bits true true true true = refl
    by_bits true true true false = refl
    by_bits true true false true = refl
    by_bits true true false false = refl
    by_bits true false true true = refl
    by_bits true false true false = refl
    by_bits true false false true = refl
    by_bits true false false false = refl
    by_bits false true true true = refl
    by_bits false true true false = refl
    by_bits false true false true = refl
    by_bits false true false false = refl
    by_bits false false true true = refl
    by_bits false false true false = refl
    by_bits false false false true = refl
    by_bits false false false false = refl

-- The end of the body of the loop.
abbrev run_both : ℕ → Events → IoManager → FdContext → Checked IoManager
run_both i real s c =
    and_then (trigger_if real.reading read (progress c s))
      (λ p. and_then (trigger_if real.writing write p) (λ q. ok (put_progress i s q)))

run_both_assoc :
    (i : ℕ) (real : Events) (s : IoManager) (first : Checked Progress)
    → and_then first
        (λ p. and_then (trigger_if real.writing write p) (λ q. ok (put_progress i s q)))
      ≡ and_then (and_then first (trigger_if real.writing write)) (λ q. ok (put_progress i s q))
run_both_assoc i real s (ok p) = refl
run_both_assoc i real s assert_failed = refl
run_both_assoc i real s undefined = refl

run_both-Answered :
    (i : ℕ) (real : Events) (s : IoManager) (c : FdContext) (result : Checked IoManager)
    → IsValid s
    → get_elem? s.contexts i ≡ some c
    → IsWanted real c.events
    → result ≡ run_both i real s c
    → Answered i real c s result
run_both-Answered i real s c result v g w e = record {
  after = after;
  returns =
      e
      ∙ run_both_assoc i real s (trigger_if real.reading read (progress c s))
      ∙ ap (λ t. and_then t (λ q. ok (put_progress i s q))) fires.returns;
  valid =
      put-IsValid s i c c' fires.pending _ v g fires.fits (fired_fd real.reading real.writing c)
        fires.counted;
  context = c';
  stored = get-set s.contexts i c c' g;
  left = fired_left real c;
  pending = fires.counted;
  others = λ j n. get-set_other s.contexts i j c' n;
  scheduled = refl;
}
  where
    c' : FdContext
    c' = fired_both real.reading real.writing c

    fires :
        Fires c'
          (both_work real.reading real.writing c)
          (progress c s)
          (and_then (trigger_if real.reading read (progress c s)) (trigger_if real.writing write))
    fires =
        both-Fires real.reading real.writing (progress c s) (progress-IsCovered s i c v g) w.0 w.1

    after : IoManager
    after = put_progress i s (record {
      context = c';
      pending = fires.pending;
      scheduled = s.scheduled ++ both_work real.reading real.writing c;
    })

-- Why a report is passed over: the context has none of its events, or the kernel refuses.
abbrev pub IsPassed : Ctl → Events → FdContext → Type 0
IsPassed ctl real c =
    (any (both c.events real) ≡ false)
    ⊎ (ctl (op_for (left_events c.events real)) c.fd (left_events c.events real) ≡ false)

at_here :
    (ctl : Ctl) (i : ℕ) (r : Revents) (s : IoManager) (c : FdContext)
    → get_elem? s.contexts i ≡ some c
    → on_report ctl (report i r) s ≡ report_here ctl i (real_events r) s c
unfolding on_report
at_here ctl i r s c g = ap (λ o. at_context o (report_here ctl i (real_events r) s)) g

-- `idle` at a report for a context, on a valid manager, where each event that the report stands for
-- is one that the context has: the report is passed over, and nothing changes, or those events are
-- taken away and what waits for them is scheduled. No assertion fails.
pub on_report_cases :
    (ctl : Ctl) (i : ℕ) (r : Revents) (s : IoManager) (c : FdContext)
    → IsValid s
    → get_elem? s.contexts i ≡ some c
    → IsWanted (real_events r) c.events
    → (IsPassed ctl (real_events r) c × (on_report ctl (report i r) s ≡ ok s))
      ⊎ Answered i (real_events r) c s (on_report ctl (report i r) s)
unfolding report_here
on_report_cases ctl i r s c v g w = elim (Bool-cases (any (both c.events real))) [
  | inr h ↦ inl (inl h, here ∙ ap (λ b. if not b then ok s else asked) h)
  | inl h ↦
      let asks = here ∙ ap (λ b. if not b then ok s else asked) h in
      elim (Bool-cases (ctl (op_for left) c.fd left)) [
        | inr k ↦ inl (inr k, asks ∙ ap answered k)
        | inl k ↦ inr (run_both-Answered i real s c _ v g w (asks ∙ ap answered k))
      ]
]
  where
    real : Events
    real = real_events r

    left : Events
    left = left_events c.events real

    answered : Bool → Checked IoManager
    answered b = if b then run_both i real s c else ok s

    asked : Checked IoManager
    asked = answered (ctl (op_for left) c.fd left)

    here : on_report ctl (report i r) s ≡ report_here ctl i real s c
    here = at_here ctl i r s c g

-- A report stands for an event that the context does not have.
abbrev pub IsExtra : Events → Events → Type 0
IsExtra real had =
    ((real.reading ≡ true) × (had.reading ≡ false))
    ⊎ ((real.writing ≡ true) × (had.writing ≡ false))

trigger_if-extra :
    (test : Bool) (event : Event) (p : Progress)
    → test ≡ true
    → has event p.context.events ≡ false
    → trigger_if test event p ≡ assert_failed
unfolding trigger_if trigger_event
trigger_if-extra test event p h k = rw (h, k) refl

run_both-extra :
    (i : ℕ) (real : Events) (s : IoManager) (c : FdContext)
    → IsValid s
    → get_elem? s.contexts i ≡ some c
    → IsExtra real c.events
    → run_both i real s c ≡ assert_failed
run_both-extra i real s c v g (inl (h, k)) =
    ap (λ t. and_then t (λ p. and_then (trigger_if real.writing write p) store))
      (trigger_if-extra real.reading read (progress c s) h k)
  where
    store : Progress → Checked IoManager
    store q = ok (put_progress i s q)
run_both-extra i real s c v g (inr (h, k)) = elim (read_extra) [
  | inl e ↦ ap (λ t. and_then t (λ p. and_then (trigger_if real.writing write p) store)) e
  | inr f ↦
      ap (λ t. and_then t (λ p. and_then (trigger_if real.writing write p) store)) f.returns
      ∙ ap (λ t. and_then t store)
          (trigger_if-extra real.writing write _ h (same_bit real.reading c ∙ k))
]
  where
    store : Progress → Checked IoManager
    store q = ok (put_progress i s q)

    start : Progress
    start = progress c s

    read_extra :
        (trigger_if real.reading read start ≡ assert_failed)
        ⊎ Fires
            (fired_context real.reading read c)
            (fired_work real.reading read c)
            start
            (trigger_if real.reading read start)
    read_extra = elim (Bool-cases real.reading) [
      | inr r ↦
          inr (trigger_if-Fires real.reading read start (progress-IsCovered s i c v g) (inr r))
      | inl r ↦ elim (Bool-cases c.events.reading) [
        | inl y ↦
            inr (trigger_if-Fires real.reading read start (progress-IsCovered s i c v g) (inl y))
        | inr n ↦ inl (trigger_if-extra real.reading read start r n)
      ]
    ]

-- `idle` at a report that stands for one event that the context has and for another that it does not
-- have, as EPOLLHUP and EPOLLERR do where only one event is waited for: if the kernel accepts the
-- call of epoll_ctl, the assertion of triggerEvent fails.
pub on_report-assert :
    (ctl : Ctl) (i : ℕ) (r : Revents) (s : IoManager) (c : FdContext)
    → IsValid s
    → get_elem? s.contexts i ≡ some c
    → any (both c.events (real_events r)) ≡ true
    → ctl
        (op_for (left_events c.events (real_events r)))
        c.fd
        (left_events c.events (real_events r))
      ≡ true
    → IsExtra (real_events r) c.events
    → on_report ctl (report i r) s ≡ assert_failed
unfolding report_here
on_report-assert ctl i r s c v g common accepted extra =
    at_here ctl i r s c g
    ∙ ap (λ b. if not b then ok s else answered (ctl (op_for left) c.fd left)) common
    ∙ ap answered accepted
    ∙ run_both-extra i (real_events r) s c v g extra
  where
    left : Events
    left = left_events c.events (real_events r)

    answered : Bool → Checked IoManager
    answered b = if b then run_both i (real_events r) s c else ok s
