-- ===== src/IoManager/Cancel.antt =====
-- `delEvent`, `cancelEvent` and `cancelAll` of IOManager (sylar/iomanager.cpp).
use mathlib.Core.List.{append-nil}
use sylar_demo.Common.{
  ℕ, ◌+◌, ◌^◌, ◌≤◌, ◌<◌, ◌≡◌, ◌≢◌, ◌⊎◌, inl, inr, refl, sym, ap, ◌∙◌, Bool, true, false, List, [],
  ◌∷◌, ◌++◌, Option, none, some, arith, length, get_elem?, set, sub64, u32, int_leb, int_index, ltb,
  if◌then◌else◌, Bool-cases, le→leb, lt→leb_false, lt→ltb, ltb→lt, ltb_false→le, Checked, ok,
}
use sylar_demo.IoManager.{
  Event, nothing, read, write, has, without_event, EventContext, FdContext, Work, Ctl, IoManager,
  work_of, trigger_event, at_context, known, op_for, del_here, del_event, store_triggered,
  cancel_here, cancel_event, get_context,
}
use sylar_demo.IoManager.Counting.{total-set, get-All, get_some, get-set, get-set_other, total-le}
use sylar_demo.IoManager.Valid.{
  IsContext, IsValid, put-IsValid, triggered, triggered-IsContext, count-triggered,
  trigger_event-Triggers,
}

-- A descriptor has a context, or the three functions return false.
pub known_cases :
    (fd : ℕ) (f : FdContext → Checked (Bool × IoManager)) (s : IoManager)
    → IsValid s
    → fd < 2 ^ 31
    → ((length s.contexts ≤ fd) × (known fd f s ≡ ok (false, s)))
      ⊎ ((c : FdContext) × (get_elem? s.contexts fd ≡ some c) × (known fd f s ≡ f c))
known_cases fd f s v small = elim (Bool-cases (ltb fd (length s.contexts))) [
  | inl e ↦
      let (c, g) = get_some s.contexts fd (ltb→lt _ _ e) in
      let within : int_leb (u32 (length s.contexts)) fd ≡ false =
        lt→leb_false _ _ (omega (arith, ltb→lt _ _ e, v.int_size)) in
      let same : int_index fd ≡ fd = rw (lt→ltb fd (2 ^ 31) small) refl in
      inr (
        c,
        g,
        ap (λ b. if b then ok (false, s) else at_context (get_elem? s.contexts (int_index fd)) f)
              within
            ∙ ap (λ k. at_context (get_elem? s.contexts k) f) same
            ∙ ap (λ o. at_context o f) g,
      )
  | inr e ↦
      let past : int_leb (u32 (length s.contexts)) fd ≡ true =
        le→leb _ _ (omega (arith, ltb_false→le _ _ e, v.int_size)) in
      inl (
        ltb_false→le _ _ e,
        ap (λ b. if b then ok (false, s) else at_context (get_elem? s.contexts (int_index fd)) f)
            past,
      )
]

-- Why `delEvent` and `cancelEvent` do nothing and return false.
abbrev pub Refused : Ctl → ℕ → Event → IoManager → Type 0
Refused ctl fd event s =
    (length s.contexts ≤ fd)
    ⊎ ((c : FdContext) × (get_elem? s.contexts fd ≡ some c)
        × ((has event c.events ≡ false)
            ⊎ (ctl (op_for (without_event event c.events)) fd (without_event event c.events)
                ≡ false)))

-- What they do otherwise: the descriptor loses the event, and no other context changes; the counter
-- goes down by one; and `work` is scheduled for it.
pub record Removed (ctl : Ctl) (fd : ℕ) (event : Event) (s : IoManager)
    (work : FdContext → List (ℕ × Work)) (result : Checked (Bool × IoManager)) : Type 0 where
  pub context : FdContext
  pub its_context : get_elem? s.contexts fd ≡ some context
  pub had : has event context.events ≡ true
  pub accepted :
      ctl (op_for (without_event event context.events)) fd (without_event event context.events)
      ≡ true
  pub after : IoManager
  pub returns : result ≡ ok (true, after)
  pub valid : IsValid after
  pub pending : after.pending + 1 ≡ s.pending
  pub stored : get_elem? after.contexts fd ≡ some (triggered event context)
  pub others : (j : ℕ) → j ≢ fd → get_elem? after.contexts j ≡ get_elem? s.contexts j
  pub scheduled : after.scheduled ≡ s.scheduled ++ work context

-- One event less in one context is one less in all.
one_less :
    (s : IoManager) (fd : ℕ) (event : Event) (c : FdContext)
    → IsValid s
    → get_elem? s.contexts fd ≡ some c
    → has event c.events ≡ true
    → sub64 s.pending 1 + 1 ≡ s.pending
one_less s fd event c v g h = omega (
  arith,
  v.counted,
  v.int_size,
  count-triggered event c h,
  total-set s.contexts fd c (triggered event c) g,
  total-le s.contexts,
)

-- The manager after that.
abbrev removed : IoManager → ℕ → Event → FdContext → List (ℕ × Work) → IoManager
removed s fd event c scheduled = record s {
  contexts = set s.contexts fd (triggered event c);
  pending = sub64 s.pending 1;
  scheduled = scheduled;
}

pub same_fd : (e : Event) (c : FdContext) → (triggered e c).fd ≡ c.fd
same_fd nothing c = refl
same_fd read c = refl
same_fd write c = refl

removed-Removed :
    (ctl : Ctl) (fd : ℕ) (event : Event) (s : IoManager) (work : FdContext → List (ℕ × Work))
    (c : FdContext) (result : Checked (Bool × IoManager))
    → IsValid s
    → fd < 2 ^ 31
    → get_elem? s.contexts fd ≡ some c
    → has event c.events ≡ true
    → ctl (op_for (without_event event c.events)) fd (without_event event c.events) ≡ true
    → result ≡ ok (true, removed s (int_index fd) event c (s.scheduled ++ work c))
    → Removed ctl fd event s work result
removed-Removed ctl fd event s work c result v small g h k e = record {
  context = c;
  its_context = g;
  had = h;
  accepted = k;
  after = removed s fd event c (s.scheduled ++ work c);
  returns = e ∙ ap (λ i. ok (true, removed s i event c (s.scheduled ++ work c))) same;
  valid =
      put-IsValid s fd c (triggered event c) (sub64 s.pending 1) (s.scheduled ++ work c) v g
        (triggered-IsContext event c (get-All IsContext s.contexts fd c g v.fitting))
        (same_fd event c) (omega (arith, less, count-triggered event c h));
  pending = less;
  stored = get-set s.contexts fd c (triggered event c) g;
  others = λ j n. get-set_other s.contexts fd j (triggered event c) n;
  scheduled = refl;
}
  where
    same : int_index fd ≡ fd
    same = rw (lt→ltb fd (2 ^ 31) small) refl

    less : sub64 s.pending 1 + 1 ≡ s.pending
    less = one_less s fd event c v g h

abbrev pub on_scheduler : Option ℕ → Work → List (ℕ × Work)
on_scheduler none work = []
on_scheduler (some scheduler) work = (scheduler, work) ∷ []

abbrev pub work_in : Option EventContext → List (ℕ × Work)
work_in none = []
work_in (some ec) = on_scheduler ec.scheduler (work_of ec)

-- What is scheduled for an event: the callback or the fiber that waits, on its own scheduler.
abbrev pub its_work : Event → FdContext → List (ℕ × Work)
its_work event c = work_in (get_context event c)

-- `delEvent` of a descriptor that is no negative `int`, on a valid manager: it refuses, and nothing
-- changes, or it takes the event away without running what waits for it.
pub del_event_cases :
    (ctl : Ctl) (fd : ℕ) (event : Event) (s : IoManager)
    → IsValid s
    → fd < 2 ^ 31
    → (Refused ctl fd event s × (del_event ctl fd event s ≡ ok (false, s)))
      ⊎ Removed ctl fd event s (λ c. []) (del_event ctl fd event s)
unfolding del_event del_here
del_event_cases ctl fd event s v small = elim (known_cases fd (del_here ctl fd event s) s v small) [
  | inl (past, e) ↦ inl (inl past, e)
  | inr (c, g, e) ↦ elim (Bool-cases (has event c.events)) [
    | inr h ↦ inl (inr (c, g, inl h), e ∙ rw h refl)
    | inl h ↦
        elim (Bool-cases
          (ctl (op_for (without_event event c.events)) fd (without_event event c.events))) [
            | inr k ↦ inl (inr (c, g, inr k), e ∙ rw (h, k) refl)
            | inl k ↦ inr (
                removed-Removed ctl fd event s (λ c. []) c _ v small g h k
                  (e
                    ∙ rw (h, k) refl
                    ∙ ap (λ l. ok (true, removed s (int_index fd) event c l))
                        (sym (append-nil s.scheduled))))
          ]
  ]
]

pub triggers_work :
    (event : Event) (c : FdContext) (scheduled : List (ℕ × Work))
    → IsContext c
    → has event c.events ≡ true
    → trigger_event event c scheduled ≡ ok (triggered event c, scheduled ++ its_work event c)
triggers_work event c scheduled v h =
    let t = trigger_event-Triggers event c scheduled v h in
    t.returns
    ∙ ap (λ l. ok (triggered event c, scheduled ++ l))
        (sym
          (ap work_in t.its_context ∙ ap (λ k. on_scheduler k (work_of t.waiting)) t.its_scheduler))

-- `cancelEvent` of a descriptor that is no negative `int`, on a valid manager: it refuses, and nothing
-- changes, or it takes the event away and schedules what waits for it, once, where it belongs. No
-- assertion fails.
pub cancel_event_cases :
    (ctl : Ctl) (fd : ℕ) (event : Event) (s : IoManager)
    → IsValid s
    → fd < 2 ^ 31
    → (Refused ctl fd event s × (cancel_event ctl fd event s ≡ ok (false, s)))
      ⊎ Removed ctl fd event s (its_work event) (cancel_event ctl fd event s)
unfolding cancel_event cancel_here store_triggered
cancel_event_cases ctl fd event s v small =
    elim (known_cases fd (cancel_here ctl fd event s) s v small) [
      | inl (past, e) ↦ inl (inl past, e)
      | inr (c, g, e) ↦ elim (Bool-cases (has event c.events)) [
        | inr h ↦ inl (inr (c, g, inl h), e ∙ rw h refl)
        | inl h ↦
            elim (Bool-cases
              (ctl (op_for (without_event event c.events)) fd (without_event event c.events))) [
                | inr k ↦ inl (inr (c, g, inr k), e ∙ rw (h, k) refl)
                | inl k ↦ inr (
                    removed-Removed ctl fd event s (its_work event) c _ v small g h k (
                      e
                      ∙ rw (h, k) refl
                      ∙ ap (store_triggered (int_index fd) s) (
                          triggers_work event c s.scheduled
                            (get-All IsContext s.contexts fd c g v.fitting) h)))
              ]
      ]
    ]
