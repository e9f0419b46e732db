-- ===== src/IoManager/Change.antt =====
-- `addEvent` of IOManager (sylar/iomanager.cpp).
use sylar_demo.Common.{
  ℕ, ◌+◌, ◌*◌, ◌/◌, ◌^◌, ◌≤◌, ◌<◌, ◌≡◌, ◌≢◌, ◌⊎◌, inl, inr, refl, sym, ap, ◌∙◌, Bool, true, false,
  List, Option, none, some, arith, length, get_elem?, add64, u32, int_leb, int_index, ltb,
  if◌then◌else◌, Bool-cases, le→leb, lt→leb_false, lt→ltb, ltb→lt, ltb_false→le, Checked, ok,
  assert_failed, and_then,
}
use sylar_demo.IoManager.{
  Event, nothing, read, write, Events, has, any, with_event, EventContext, FdContext, Ctl, EpollOp,
  ctl_add, ctl_mod, IoManager, Caller, new_wait, is_blank, register, add_here, table_for, add_event,
  at_context, put, get_context, set_context,
}
use sylar_demo.IoManager.Counting.{
  count, bit, get-All, get_some, get-set, registered, registered_at, registered-set_other,
  registered-resize, total-le, total-resize, length-resize, resize-Numbered, resize-All,
}
use sylar_demo.IoManager.Valid.{IsWaiting, IsContext, IsValid, put-IsValid, Fits-false}

-- The vector that `addEvent` works on.
record Grown (fd : ℕ) (s : IoManager) (l : List FdContext) : Type 0 where
  valid : IsValid (record s { contexts = l })
  inside : fd < length l
  same : (j : ℕ) → registered l j ≡ registered s.contexts j

table_for-Grown :
    (fd : ℕ) (s : IoManager) → IsValid s → fd < 2 ^ 30 → Grown fd s (table_for fd s.contexts)
unfolding table_for
table_for-Grown fd s v small = elim (Bool-cases (ltb fd (length s.contexts))) [
  | inl e ↦
      let within : int_leb (u32 (length s.contexts)) fd ≡ false =
        lt→leb_false _ _ (omega (arith, ltb→lt _ _ e, v.int_size)) in
      rw within (record { valid = v; inside = ltb→lt _ _ e; same = λ j. refl })
  | inr e ↦
      let past : int_leb (u32 (length s.contexts)) fd ≡ true =
        le→leb _ _ (omega (arith, ltb_false→le _ _ e, v.int_size)) in
      let n = fd * 3 / 2 in
      let fits : length s.contexts ≤ n = omega (arith, ltb_false→le _ _ e) in
      let size = length-resize n 0 s.contexts in
      rw past (record {
        valid = record {
          fitting = resize-All IsContext n 0 s.contexts (λ k. (refl, refl)) v.fitting;
          numbered = resize-Numbered n 0 s.contexts v.numbered;
          counted = omega (arith, v.counted, total-resize n 0 s.contexts fits);
          least = omega (arith, size, v.least, fits);
          int_size = omega (arith, size);
        };
        inside = omega (arith, size, ltb_false→le _ _ e, v.least);
        same = λ j. registered-resize n 0 j s.contexts fits;
      })
]

-- Who waits: a callback, or else the calling fiber, on the caller's scheduler.
abbrev pub waiter : Caller → Option ℕ → EventContext
waiter me (some cb) = record { scheduler = me.scheduler; fiber = none; cb = some cb }
waiter me none = record { scheduler = me.scheduler; fiber = some me.fiber; cb = none }

-- The caller is on a scheduler, and in a fiber that runs if it passes no callback.
abbrev pub CanWait : Caller → Option ℕ → Type 0
CanWait me cb =
    ((scheduler : ℕ) × (me.scheduler ≡ some scheduler))
    × (((f : ℕ) × (cb ≡ some f)) ⊎ (me.executing ≡ true))

new_wait_lem :
    (me : Caller) (cb : Option ℕ)
    → CanWait me cb
    → (new_wait me cb ≡ ok (waiter me cb)) × IsWaiting (waiter me cb)
unfolding new_wait
new_wait_lem me (some f) w = (refl, (w.0, inl (f, refl, refl)))
new_wait_lem me none (scheduler, inl (f, e)) = absurd (cc)
new_wait_lem me none (scheduler, inr e) = (
  ap (λ b. if b then ok (waiter me none) else assert_failed) e,
  (scheduler, inr (me.fiber, refl, refl)),
)

-- What a context is with a new event.
abbrev pub armed : Event → EventContext → FdContext → FdContext
armed event ec c = set_context event ec (record c { events = with_event event c.events })

record Arms (event : Event) (ec : EventContext) (c : FdContext) : Type 0 where
  old : EventContext
  its_context : get_context event c ≡ some old
  free : is_blank old ≡ true
  fits : IsContext (armed event ec c)
  more : count (armed event ec c).events ≡ count c.events + 1
  same_fd : (armed event ec c).fd ≡ c.fd
  stored : get_context event (armed event ec c) ≡ some ec
  bits : (armed event ec c).events ≡ with_event event c.events

armed-Arms :
    (event : Event) (ec : EventContext) (c : FdContext)
    → event ≢ nothing
    → IsContext c
    → IsWaiting ec
    → has event c.events ≡ false
    → Arms event ec c
armed-Arms nothing ec c real v w h = absurd (real refl)
armed-Arms read ec c real v w h = record {
  old = c.read;
  its_context = refl;
  free = ap is_blank (Fits-false c.events.reading c.read h v.0);
  fits = (w, v.1);
  more = omega (arith, ap bit h);
  same_fd = refl;
  stored = refl;
  bits = refl;
}
armed-Arms write ec c real v w h = record {
  old = c.write;
  its_context = refl;
  free = ap is_blank (Fits-false c.events.writing c.write h v.1);
  fits = (v.0, w);
  more = omega (arith, ap bit h);
  same_fd = refl;
  stored = refl;
  bits = refl;
}

-- What `addEvent` does where it returns 0: the descriptor has the event too, and the caller waits for
-- it; no other descriptor has more or less; the counter goes up by one, and nothing is scheduled.
pub record Registered (me : Caller) (fd : ℕ) (event : Event) (cb : Option ℕ) (s : IoManager)
    (result : Checked (Bool × IoManager)) : Type 0 where
  pub after : IoManager
  pub returns : result ≡ ok (true, after)
  pub valid : IsValid after
  pub pending : after.pending ≡ s.pending + 1
  pub context : FdContext
  pub stored : get_elem? after.contexts fd ≡ some context
  pub waits : get_context event context ≡ some (waiter me cb)
  pub events : context.events ≡ with_event event (registered s.contexts fd)
  pub others : (j : ℕ) → j ≢ fd → registered after.contexts j ≡ registered s.contexts j
  pub scheduled : after.scheduled ≡ s.scheduled

-- The operation that `addEvent` asks of the kernel, and its outcome.
abbrev pub add_op : Events → EpollOp
add_op e = if any e then ctl_mod else ctl_add

-- What `addEvent` does where the kernel refuses: the vector may have grown, and nothing else changes.
pub record Unchanged (s : IoManager) (result : Checked (Bool × IoManager)) : Type 0 where
  pub after : IoManager
  pub returns : result ≡ ok (false, after)
  pub valid : IsValid after
  pub pending : after.pending ≡ s.pending
  pub events : (j : ℕ) → registered after.contexts j ≡ registered s.contexts j
  pub scheduled : after.scheduled ≡ s.scheduled

-- What `addEvent` comes to, by the events that the descriptor has.
abbrev pub Outcomes :
    Ctl → Caller → ℕ → Event → Option ℕ → IoManager → Events → Checked (Bool × IoManager) → Type 0
Outcomes ctl me fd event cb s e result =
    ((has event e ≡ true) × (result ≡ assert_failed))
    ⊎ (((has event e ≡ false)
          × (ctl (add_op e) fd (with_event event e) ≡ false)
          × Unchanged s result)
        ⊎ ((has event e ≡ false)
            × (ctl (add_op e) fd (with_event event e) ≡ true)
            × Registered me fd event cb s result))

register-Registered :
    (me : Caller) (fd : ℕ) (event : Event) (cb : Option ℕ) (s : IoManager) (l : List FdContext)
    (c : FdContext) (result : Checked (Bool × IoManager))
    → Grown fd s l
    → get_elem? l fd ≡ some c
    → event ≢ nothing
    → CanWait me cb
    → has event c.events ≡ false
    → result ≡ register me cb event fd c (get_context event c) (record s { contexts = l })
    → Registered me fd event cb s result
unfolding register
register-Registered me fd event cb s l c result t g real can h e = record {
  after = after;
  returns =
      e
      ∙ ap (λ o. register me cb event fd c o (record s { contexts = l })) a.its_context
      ∙ ap
          (λ b.
            if b
            then and_then (new_wait me cb) (λ ec. ok (true, put fd (armed event ec c) more grown))
            else assert_failed)
          a.free
      ∙ ap (λ r. and_then r (λ ec. ok (true, put fd (armed event ec c) more grown))) w.0
      ∙ ap (λ k. ok (true, put fd c' k grown)) no_wrap;
  valid =
      put-IsValid grown fd c c' (s.pending + 1) s.scheduled t.valid g a.fits a.same_fd
        (omega (arith, a.more));
  pending = refl;
  context = c';
  stored = get-set l fd c c' g;
  waits = a.stored;
  events = a.bits ∙ ap (with_event event) (sym (registered_at l fd c g) ∙ t.same fd);
  others = λ j n. registered-set_other l fd j c' n ∙ t.same j;
  scheduled = refl;
}
  where
    grown : IoManager
    grown = record s { contexts = l }

    more : ℕ
    more = add64 s.pending 1

    no_wrap : more ≡ s.pending + 1
    no_wrap = omega (arith, t.valid.counted, total-le l, t.valid.int_size)

    w : (new_wait me cb ≡ ok (waiter me cb)) × IsWaiting (waiter me cb)
    w = new_wait_lem me cb can

    a : Arms event (waiter me cb) c
    a = armed-Arms event (waiter me cb) c real (get-All IsContext l fd c g t.valid.fitting) w.1 h

    c' : FdContext
    c' = armed event (waiter me cb) c

    after : IoManager
    after = put fd c' (s.pending + 1) grown

-- `addEvent` of READ or WRITE for a descriptor below 2 ^ 30, on a valid manager, by a caller that is
-- on a scheduler and in a fiber that runs: an event that the descriptor has fails an assertion, and
-- only that; where the kernel refuses it returns -1; otherwise it returns 0, and the event is there.
pub add_event_cases :
    (ctl : Ctl) (me : Caller) (fd : ℕ) (event : Event) (cb : Option ℕ) (s : IoManager)
    → IsValid s
    → fd < 2 ^ 30
    → event ≢ nothing
    → CanWait me cb
    → Outcomes ctl me fd event cb s (registered s.contexts fd) (add_event ctl me fd event cb s)
unfolding add_event add_here
add_event_cases ctl me fd event cb s v small real can =
    go (add_event ctl me fd event cb s) (registered s.contexts fd) (bits ∙ t.same fd) (
      ap (λ i. at_context (get_elem? l i) (add_here ctl me fd event cb i grown)) index
      ∙ ap (λ o. at_context o (add_here ctl me fd event cb fd grown)) found.1)
  where
    l : List FdContext
    l = table_for fd s.contexts

    grown : IoManager
    grown = record s { contexts = l }

    t : Grown fd s l
    t = table_for-Grown fd s v small

    found : (c : FdContext) × (get_elem? l fd ≡ some c)
    found = get_some l fd t.inside

    c : FdContext
    c = found.0

    bits : c.events ≡ registered l fd
    bits = sym (registered_at l fd c found.1)

    index : int_index fd ≡ fd
    index = rw (lt→ltb fd (2 ^ 31) (omega arith)) refl

    answer : Events → Bool
    answer k = ctl (add_op k) fd (with_event event k)

    answered : Bool → Checked (Bool × IoManager)
    answered b =
        if b then register me cb event fd c (get_context event c) grown else ok (false, grown)

    asked : Checked (Bool × IoManager)
    asked = answered (answer c.events)

    go :
        (result : Checked (Bool × IoManager)) (e : Events)
        → c.events ≡ e
        → result ≡ add_here ctl me fd event cb fd grown c
        → Outcomes ctl me fd event cb s e result
    go result e same r = elim (Bool-cases (has event e)) [
      | inl h ↦ inl (h, r ∙ ap (λ b. if b then assert_failed else asked) (ap (has event) same ∙ h))
      | inr h ↦
          let at_c : has event c.events ≡ false = ap (has event) same ∙ h in
          let asks : result ≡ asked = r ∙ ap (λ b. if b then assert_failed else asked) at_c in
          elim (Bool-cases (ctl (add_op e) fd (with_event event e))) [
            | inr k ↦ inr (
                inl (
                  h,
                  k,
                  record {
                    after = grown;
                    returns = asks ∙ ap answered (ap answer same ∙ k);
                    valid = t.valid;
                    pending = refl;
                    events = t.same;
                    scheduled = refl;
                  },
                ))
            | inl k ↦ inr (
                inr (
                  h,
                  k,
                  register-Registered me fd event cb s l c result t found.1 real can at_c
                      (asks ∙ ap answered (ap answer same ∙ k)),
                ))
          ]
    ]
