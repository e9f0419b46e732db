-- ===== src/IoManager/Reach.antt =====
-- Runs of IOManager (sylar/iomanager.cpp): what holds after any sequence of its operations.
use sylar_demo.Common.{
  ℕ, suc, ◌+◌, ◌^◌, ◌<◌, ◌≡◌, ◌≢◌, ◌⊎◌, inl, inr, refl, sym, ap, ◌∙◌, Bool, true, false, List, [],
  ◌∷◌, ◌++◌, Option, some, arith, length, length-append, get_elem?, Checked, ok, assert_failed, not,
  ◌&&◌, Bool-cases,
}
use sylar_demo.Timer.{Callback, TimerManager}
use sylar_demo.IoManager.{
  Event, nothing, read, write, Events, has, FdContext, Work, Ctl, IoManager, Caller, new_manager,
  add_event, del_event, cancel_event, cancel_all, work_of,
}
use sylar_demo.IoManager.Counting.{
  bit, count, total-resize, resize-All, resize-Numbered, length-resize, get-All,
}
use sylar_demo.IoManager.Valid.{Fits-true, IsContext, IsValid}
use sylar_demo.IoManager.Cancel.{its_work, del_event_cases, cancel_event_cases, on_scheduler}
use sylar_demo.IoManager.Fire.{both_work, fired_work}
use sylar_demo.IoManager.CancelAll.{cancel_all_cases}
use sylar_demo.IoManager.Change.{CanWait, add_event_cases}
use sylar_demo.IoManager.Idle.{Revents, report, real_events, on_report, expired_work, left_events}
use sylar_demo.IoManager.Idle.Ready.{IsWanted, on_report_cases}

-- The events that were registered, those that delEvent took away, and the callbacks of timers.
pub record Tally : Type 0 where
  pub added : ℕ
  pub deleted : ℕ
  pub timed : ℕ

-- The steps of a manager, each with its tally: the calls that return, the reports that `idle`
-- answers, and the callbacks of timers that it schedules.
pub data Happens (s : IoManager) : Tally → IoManager → Type 0 where
  adds :
      (ctl : Ctl) (me : Caller) (fd : ℕ) (event : Event) (cb : Option ℕ) (b : Bool) (s' : IoManager)
      → fd < 2 ^ 30
      → event ≢ nothing
      → CanWait me cb
      → add_event ctl me fd event cb s ≡ ok (b, s')
      → Happens s (record { added = bit b; deleted = 0; timed = 0 }) s'
  deletes :
      (ctl : Ctl) (fd : ℕ) (event : Event) (b : Bool) (s' : IoManager)
      → fd < 2 ^ 31
      → del_event ctl fd event s ≡ ok (b, s')
      → Happens s (record { added = 0; deleted = bit b; timed = 0 }) s'
  cancels :
      (ctl : Ctl) (fd : ℕ) (event : Event) (b : Bool) (s' : IoManager)
      → fd < 2 ^ 31
      → cancel_event ctl fd event s ≡ ok (b, s')
      → Happens s (record { added = 0; deleted = 0; timed = 0 }) s'
  clears :
      (ctl : Ctl) (fd : ℕ) (b : Bool) (s' : IoManager)
      → fd < 2 ^ 31
      → cancel_all ctl fd s ≡ ok (b, s')
      → Happens s (record { added = 0; deleted = 0; timed = 0 }) s'
  answers :
      (ctl : Ctl) (i : ℕ) (r : Revents) (c : FdContext) (s' : IoManager)
      → get_elem? s.contexts i ≡ some c
      → IsWanted (real_events r) c.events
      → on_report ctl (report i r) s ≡ ok s'
      → Happens s (record { added = 0; deleted = 0; timed = 0 }) s'
  expires :
      (self : ℕ) (cbs : List (Option Callback)) (timers : TimerManager)
      → Happens s
          (record { added = 0; deleted = 0; timed = length cbs })
          (record s { timers = timers; scheduled = s.scheduled ++ expired_work self cbs })

abbrev tally_sum : Tally → Tally → Tally
tally_sum a b = record {
  added = a.added + b.added;
  deleted = a.deleted + b.deleted;
  timed = a.timed + b.timed;
}

-- What a new manager comes to.
pub data Run : Tally → IoManager → Type 0 where
  starts :
      (timers : TimerManager)
      → Run (record { added = 0; deleted = 0; timed = 0 }) (new_manager timers)
  goes_on : (a b : Tally) (s s' : IoManager) → Run a s → Happens s b s' → Run (tally_sum a b) s'

-- What a step does to the invariant and to the counts.
record Effect (s : IoManager) (t : Tally) (s' : IoManager) : Type 0 where
  valid : IsValid s'
  balance :
      s.pending + length s.scheduled + t.added + t.timed
      ≡ s'.pending + length s'.scheduled + t.deleted

ok_value : {A : Type 0} (a b : A) → ok a ≡ ok b → a ≡ b
ok_value {A} a b e = ap value e
  where
    value : Checked A → A
    value (ok x) = x
    value r = a

carry : {A : Type 0} (P : A → Type 0) (a b : A) → a ≡ b → P b → P a
carry P a b e p = rw e p

-- An event that waits is one piece of work.
length-its_work :
    (event : Event) (c : FdContext)
    → IsContext c
    → has event c.events ≡ true
    → length (its_work event c) ≡ 1
length-its_work nothing c v h = absurd (ground (arith, h))
length-its_work read c v h =
    let w = Fits-true c.events.reading c.read h v.0 in
    ap (λ k. length (on_scheduler k (work_of c.read))) w.0.1
length-its_work write c v h =
    let w = Fits-true c.events.writing c.write h v.1 in
    ap (λ k. length (on_scheduler k (work_of c.write))) w.0.1

length-fired_work :
    (test : Bool) (event : Event) (c : FdContext)
    → IsContext c
    → (has event c.events ≡ true) ⊎ (test ≡ false)
    → length (fired_work test event c) ≡ bit test
length-fired_work false event c v h = refl
length-fired_work true event c v (inl h) = length-its_work event c v h
length-fired_work true event c v (inr h) = absurd (ground (arith, h))

length-both_work :
    (real : Events) (c : FdContext) (l : List (ℕ × Work))
    → IsContext c
    → IsWanted real c.events
    → length (l ++ both_work real.reading real.writing c) ≡ length l + count real
length-both_work real c l v w = omega (
  arith,
  length-append l (both_work real.reading real.writing c),
  length-append (fired_work real.reading read c) (fired_work real.writing write c),
  length-fired_work real.reading read c v w.0,
  length-fired_work real.writing write c v w.1,
)

bit-left :
    (had real : Bool) → (had ≡ true) ⊎ (real ≡ false) → bit (had && not real) + bit real ≡ bit had
bit-left true true h = refl
bit-left true false h = refl
bit-left false false h = refl
bit-left false true (inl e) = absurd (ground (arith, e))
bit-left false true (inr e) = absurd (ground (arith, e))

count-left :
    (real had : Events) → IsWanted real had → count (left_events had real) + count real ≡ count had
count-left real had w =
    omega (arith, bit-left had.reading real.reading w.0, bit-left had.writing real.writing w.1)

-- Neither the events nor the work change.
same-Effect :
    (s s' : IoManager)
    → IsValid s'
    → s'.pending ≡ s.pending
    → s'.scheduled ≡ s.scheduled
    → Effect s (record { added = 0; deleted = 0; timed = 0 }) s'
same-Effect s s' v p q = record { valid = v; balance = omega (arith, p, ap length q) }

-- What the tally says of a result, for the functions that return a Boolean.
abbrev Adding : IoManager → Bool × IoManager → Type 0
Adding s p = Effect s (record { added = bit p.0; deleted = 0; timed = 0 }) p.1

abbrev Deleting : IoManager → Bool × IoManager → Type 0
Deleting s p = Effect s (record { added = 0; deleted = bit p.0; timed = 0 }) p.1

abbrev Keeping : IoManager → Bool × IoManager → Type 0
Keeping s p = Effect s (record { added = 0; deleted = 0; timed = 0 }) p.1

result_is :
    {A : Type 0} (P : A → Type 0) (a b : A) (result : Checked A)
    → result ≡ ok a
    → result ≡ ok b
    → P b
    → P a
result_is P a b result e k p = carry P a b (ok_value a b (sym e ∙ k)) p

add-Effect :
    (ctl : Ctl) (me : Caller) (fd : ℕ) (event : Event) (cb : Option ℕ) (s : IoManager) (b : Bool)
    (s' : IoManager)
    → IsValid s
    → fd < 2 ^ 30
    → event ≢ nothing
    → CanWait me cb
    → add_event ctl me fd event cb s ≡ ok (b, s')
    → Adding s (b, s')
add-Effect ctl me fd event cb s b s' v small real can e =
    elim (add_event_cases ctl me fd event cb s v small real can) [
      | inl (h, k) ↦ absurd (not_ok _ (sym e ∙ k))
      | inr (inl (h, k, u)) ↦
          result_is (Adding s) (b, s') (false, u.after) _ e u.returns
            (same-Effect s u.after u.valid u.pending u.scheduled)
      | inr (inr (h, k, r)) ↦
          result_is (Adding s) (b, s') (true, r.after) _ e r.returns
            (record { valid = r.valid; balance = omega (arith, r.pending, ap length r.scheduled) })
    ]
  where
    not_ok : (p : Bool × IoManager) → ok p ≡ assert_failed → ⊥
    not_ok p q = cc

delete-Effect :
    (ctl : Ctl) (fd : ℕ) (event : Event) (s : IoManager) (b : Bool) (s' : IoManager)
    → IsValid s
    → fd < 2 ^ 31
    → del_event ctl fd event s ≡ ok (b, s')
    → Deleting s (b, s')
delete-Effect ctl fd event s b s' v small e = elim (del_event_cases ctl fd event s v small) [
  | inl (h, k) ↦ result_is (Deleting s) (b, s') (false, s) _ e k (same-Effect s s v refl refl)
  | inr r ↦
      result_is (Deleting s) (b, s') (true, r.after) _ e r.returns
        (record {
          valid = r.valid;
          balance = omega (arith, r.pending, ap length r.scheduled, length-append s.scheduled []);
        })
]

cancel-Effect :
    (ctl : Ctl) (fd : ℕ) (event : Event) (s : IoManager) (b : Bool) (s' : IoManager)
    → IsValid s
    → fd < 2 ^ 31
    → cancel_event ctl fd event s ≡ ok (b, s')
    → Keeping s (b, s')
cancel-Effect ctl fd event s b s' v small e = elim (cancel_event_cases ctl fd event s v small) [
  | inl (h, k) ↦ result_is (Keeping s) (b, s') (false, s) _ e k (same-Effect s s v refl refl)
  | inr r ↦
      let fits = get-All IsContext s.contexts fd r.context r.its_context v.fitting in
      result_is (Keeping s) (b, s') (true, r.after) _ e r.returns
        (record {
          valid = r.valid;
          balance = omega (
            arith,
            r.pending,
            ap length r.scheduled,
            length-append s.scheduled (its_work event r.context),
            length-its_work event r.context fits r.had,
          );
        })
]

clear-Effect :
    (ctl : Ctl) (fd : ℕ) (s : IoManager) (b : Bool) (s' : IoManager)
    → IsValid s
    → fd < 2 ^ 31
    → cancel_all ctl fd s ≡ ok (b, s')
    → Keeping s (b, s')
clear-Effect ctl fd s b s' v small e = elim (cancel_all_cases ctl fd s v small) [
  | inl (h, k) ↦ result_is (Keeping s) (b, s') (false, s) _ e k (same-Effect s s v refl refl)
  | inr r ↦
      let fits = get-All IsContext s.contexts fd r.context r.its_context v.fitting in
      result_is (Keeping s) (b, s') (true, r.after) _ e r.returns
        (record {
          valid = r.valid;
          balance = omega (
            arith,
            r.pending,
            ap length r.scheduled,
            length-both_work r.context.events r.context s.scheduled fits
                (Bool-cases _, Bool-cases _),
          );
        })
]

answer-Effect :
    (ctl : Ctl) (i : ℕ) (r : Revents) (c : FdContext) (s s' : IoManager)
    → IsValid s
    → get_elem? s.contexts i ≡ some c
    → IsWanted (real_events r) c.events
    → on_report ctl (report i r) s ≡ ok s'
    → Effect s (record { added = 0; deleted = 0; timed = 0 }) s'
answer-Effect ctl i r c s s' v g w e = elim (on_report_cases ctl i r s c v g w) [
  | inl (h, k) ↦ result_is kept s' s _ e k (same-Effect s s v refl refl)
  | inr a ↦
      let fits = get-All IsContext s.contexts i c g v.fitting in
      result_is kept s' a.after _ e a.returns (record {
        valid = a.valid;
        balance = omega (
          arith,
          a.pending,
          ap length a.scheduled,
          length-both_work (real_events r) c s.scheduled fits w,
          ap count a.left,
          count-left (real_events r) c.events w,
        );
      })
]
  where
    kept : IoManager → Type 0
    kept t = Effect s (record { added = 0; deleted = 0; timed = 0 }) t

length-expired_work :
    (self : ℕ) (cbs : List (Option Callback)) → length (expired_work self cbs) ≡ length cbs
length-expired_work self [] = refl
length-expired_work self (cb ∷ cbs) = ap suc (length-expired_work self cbs)

expire-Effect :
    (self : ℕ) (cbs : List (Option Callback)) (timers : TimerManager) (s : IoManager)
    → IsValid s
    → Effect s
        (record { added = 0; deleted = 0; timed = length cbs })
        (record s { timers = timers; scheduled = s.scheduled ++ expired_work self cbs })
expire-Effect self cbs timers s v = record {
  valid = record {
    fitting = v.fitting;
    numbered = v.numbered;
    counted = v.counted;
    least = v.least;
    int_size = v.int_size;
  };
  balance =
      omega
        (arith, length-append s.scheduled (expired_work self cbs), length-expired_work self cbs);
}

Happens-Effect :
    (s : IoManager) (t : Tally) (s' : IoManager) → IsValid s → Happens s t s' → Effect s t s'
Happens-Effect s t _ v (adds ctl me fd event cb b s' small real can e) =
    add-Effect ctl me fd event cb s b s' v small real can e
Happens-Effect s t _ v (deletes ctl fd event b s' small e) =
    delete-Effect ctl fd event s b s' v small e
Happens-Effect s t _ v (cancels ctl fd event b s' small e) =
    cancel-Effect ctl fd event s b s' v small e
Happens-Effect s t _ v (clears ctl fd b s' small e) = clear-Effect ctl fd s b s' v small e
Happens-Effect s t _ v (answers ctl i r c s' g w e) = answer-Effect ctl i r c s s' v g w e
Happens-Effect s t _ v (expires self cbs timers) = expire-Effect self cbs timers s v

pub new_manager-IsValid : (timers : TimerManager) → IsValid (new_manager timers)
unfolding new_manager
new_manager-IsValid timers = record {
  fitting = resize-All IsContext 32 0 [] (λ k. (refl, refl)) tt;
  numbered = resize-Numbered 32 0 [] tt;
  counted = omega (arith, total-resize 32 0 [] (omega arith));
  least = omega (arith, length-resize 32 0 []);
  int_size = omega (arith, length-resize 32 0 []);
}

-- After any of these steps (calls by callers that can wait, for descriptors in range, and reports of
-- events that the context has) the invariant holds, and the counts balance: the events that were
-- registered and the callbacks of timers are together as many as the events that are still pending,
-- those that delEvent took away, and the pieces of work that have been scheduled.
pub Run-balance :
    (t : Tally) (s : IoManager)
    → Run t s
    → IsValid s × (t.added + t.timed ≡ s.pending + t.deleted + length s.scheduled)
unfolding new_manager
Run-balance t _ (starts timers) = (new_manager-IsValid timers, refl)
Run-balance t _ (goes_on a b r s run h) =
    let before = Run-balance a r run in
    let effect = Happens-Effect r b s before.0 h in
    (effect.valid, omega (arith, before.1, effect.balance))
