-- ===== src/Timer/Expire.antt =====
-- `listExpiredCb` (sylar/timer.cpp): the callbacks that it returns, and what it leaves in the set.
use mathlib.Core.List.{append-nil}
use sylar_demo.Common.{
  ℕ, ◌<◌, ◌≤◌, ◌≡◌, refl, sym, ap, ap₂, ◌∙◌, ◌⊎◌, inl, inr, Bool, true, false, not, ◌&&◌, ◌||◌,
  List, [], ◌∷◌, ◌++◌, map, Option, none, some, arith, All, All-map, ltb, ◌==◌, eq→==, ltb→lt,
  add64, sub64, ◌*◌, if◌then◌else◌, Bool-cases, Step, done, fault,
}
use sylar_demo.Timer.{
  Callback, Timer, TimerManager, insert, update, rearm, put_back, collect, split_due, nothing_due,
  is_empty, first_after, end_expire, expire, has_timer, detect_clock_rollover, list_expired_cb,
  cancel, cancel_held,
}
use sylar_demo.Timer.Order.{
  Earlier, Sorted, holds, first_not_held, insert-Sorted, holds-insert, update_other,
}
use sylar_demo.Timer.Change.{IsOrdered, store-IsOrdered, cancel_lem}
use sylar_demo.Timer.Due.{split_due-Due}

-- No timer stands twice.
abbrev Distinct : List ℕ → Type 0
Distinct [] = Unit {0}
Distinct (x ∷ xs) = (holds x xs ≡ false) × Distinct xs

-- The two parts of an ordered set.
record Parts (heap : ℕ → Timer) (xs ys : List ℕ) : Type 0 where
  distinct : Distinct xs
  apart : All (λ a. holds a ys ≡ false) xs
  ordered : Sorted heap ys

All-front : (P : ℕ → Type 0) (xs ys : List ℕ) → All P (xs ++ ys) → All P xs × All P ys
All-front P [] ys h = (tt, h)
All-front P (x ∷ xs) ys h = ((h.0, (All-front P xs ys h.1).0), (All-front P xs ys h.1).1)

append-Parts : (heap : ℕ → Timer) (xs ys : List ℕ) → Sorted heap (xs ++ ys) → Parts heap xs ys
append-Parts heap [] ys s = record { distinct = tt; apart = tt; ordered = s }
append-Parts heap (x ∷ xs) ys s =
    let p = append-Parts heap xs ys s.1 in
    let later = All-front (Earlier heap x) xs ys s.0 in
    record {
      distinct = ((first_not_held heap x xs later.0).0, p.distinct);
      apart = ((first_not_held heap x ys later.1).0, p.apart);
      ordered = p.ordered;
    }

-- What the loop makes of a manager from which the timers `xs` were taken: their callbacks in order;
-- a recurring timer is in the set again, its period from now; the others have lost their callbacks.
pub record Collected (now : ℕ) (xs : List ℕ) (s : TimerManager)
    (result : List (Option Callback) × TimerManager) : Type 0 where
  pub callbacks : result.0 ≡ map (λ a. (s.heap a).cb) xs
  pub ordered : IsOrdered result.1
  pub objects : (a : ℕ) → result.1.heap a ≡ (if holds a xs then rearm now (s.heap a) else s.heap a)
  pub members :
      (a : ℕ) → holds a result.1.timers ≡ (holds a xs && (s.heap a).recurring) || holds a s.timers
  pub same_flag : result.1.tickled ≡ s.tickled
  pub same_time : result.1.previous_time ≡ s.previous_time

put_back-IsOrdered :
    (now x : ℕ) (s : TimerManager)
    → IsOrdered s
    → holds x s.timers ≡ false
    → IsOrdered (put_back now x s)
unfolding put_back
put_back-IsOrdered now x s o h =
    go (s.heap x).recurring (update x (rearm now (s.heap x)) s.heap)
      (store-IsOrdered x (rearm now (s.heap x)) s.heap s.timers h o)
  where
    go :
        (r : Bool) (heap : ℕ → Timer)
        → Sorted heap s.timers
        → Sorted heap (if r then insert heap x s.timers else s.timers)
    go true heap k = insert-Sorted heap x s.timers k
    go false heap k = k

put_back_members :
    (now x a : ℕ) (s : TimerManager)
    → holds a (put_back now x s).timers ≡ ((x == a) && (s.heap x).recurring) || holds a s.timers
unfolding put_back
put_back_members now x a s = go (s.heap x).recurring (update x (rearm now (s.heap x)) s.heap)
  where
    with_true : (p r : Bool) → (p || r) ≡ ((p && true) || r)
    with_true true r = refl
    with_true false r = refl

    with_false : (p r : Bool) → r ≡ ((p && false) || r)
    with_false true r = refl
    with_false false r = refl

    go :
        (r : Bool) (heap : ℕ → Timer)
        → holds a (if r then insert heap x s.timers else s.timers)
          ≡ ((x == a) && r) || holds a s.timers
    go true heap = holds-insert heap a x s.timers ∙ with_true (x == a) (holds a s.timers)
    go false heap = with_false (x == a) (holds a s.timers)

map-same : (f g : ℕ → Option Callback) (xs : List ℕ) → All (λ a. f a ≡ g a) xs → map f xs ≡ map g xs
map-same f g [] h = refl
map-same f g (x ∷ xs) h = ap₂ ◌∷◌ h.0 (map-same f g xs h.1)

still_out :
    (now x : ℕ) (s : TimerManager) (ys : List ℕ)
    → holds x ys ≡ false
    → All (λ a. holds a s.timers ≡ false) ys
    → All (λ a. holds a (put_back now x s).timers ≡ false) ys
still_out now x s [] e k = tt
still_out now x s (y ∷ ys) e k =
    let other : (x == y) ≡ false = ground (arith, e) in
    (
      put_back_members now x y s ∙ rw (other, k.0) refl,
      still_out now x s ys (ground (arith, e)) k.1,
    )

next-Collected :
    (now x : ℕ) (xs : List ℕ) (s : TimerManager) (result : List (Option Callback) × TimerManager)
    → holds x xs ≡ false
    → Collected now xs (put_back now x s) result
    → Collected now (x ∷ xs) s ((s.heap x).cb ∷ result.0, result.1)
next-Collected now x xs s result d rest = record {
  callbacks = ap₂ ◌∷◌ refl (
      rest.callbacks ∙ map-same _ _ xs (All-map _ _ xs (λ a e. ap (λ (t : Timer). t.cb) e) others));
  ordered = rest.ordered;
  objects = λ a. rest.objects a ∙ object a;
  members = λ a. rest.members a ∙ member a;
  same_flag = rest.same_flag ∙ (unfold put_back in refl);
  same_time = rest.same_time ∙ (unfold put_back in refl);
}
  where
    s' : TimerManager
    s' = put_back now x s

    others : All (λ a. s'.heap a ≡ s.heap a) xs
    others = unfold put_back in update_other x (rearm now (s.heap x)) s.heap xs d

    at_x : (a : ℕ) → (x == a) ≡ true → s'.heap a ≡ rearm now (s.heap a)
    at_x a e =
        let q : a ≡ x = ground (arith, e) in
        unfold put_back update in rw (eq→== a x q) (ap (λ k. rearm now (s.heap k)) (sym q))

    not_x : (a : ℕ) → (x == a) ≡ false → s'.heap a ≡ s.heap a
    not_x a e = let g : (a == x) ≡ false = ground (arith, e) in unfold put_back update in rw g refl

    absent : (a : ℕ) → (x == a) ≡ true → holds a xs ≡ false
    absent a e = let q : a ≡ x = ground (arith, e) in ap (λ k. holds k xs) q ∙ d

    object :
        (a : ℕ)
        → (if holds a xs then rearm now (s'.heap a) else s'.heap a)
          ≡ (if (x == a) || holds a xs then rearm now (s.heap a) else s.heap a)
    object a = elim (Bool-cases (x == a)) [
      | inl e ↦ rw (e, absent a e) (at_x a e)
      | inr e ↦ rw (e, not_x a e) refl
    ]

    member :
        (a : ℕ)
        → (holds a xs && (s'.heap a).recurring) || holds a s'.timers
          ≡ (((x == a) || holds a xs) && (s.heap a).recurring) || holds a s.timers
    member a = elim (Bool-cases (x == a)) [
      | inl e ↦
          let q : x ≡ a = ground (arith, e) in
          rw (absent a e) (
            put_back_members now x a s
            ∙ rw e (ap (λ k. (s.heap k).recurring || holds a s.timers) q))
      | inr e ↦ rw e (
          ap₂ (λ r h. (holds a xs && r) || h) (ap (λ (t : Timer). t.recurring) (not_x a e))
            (put_back_members now x a s ∙ rw e refl))
    ]

collect-Collected :
    (now : ℕ) (xs : List ℕ) (s : TimerManager)
    → IsOrdered s
    → Distinct xs
    → All (λ a. holds a s.timers ≡ false) xs
    → Collected now xs s (collect now xs s)
unfolding collect
collect-Collected now [] s o d h = record {
  callbacks = refl;
  ordered = o;
  objects = λ a. refl;
  members = λ a. refl;
  same_flag = refl;
  same_time = refl;
}
collect-Collected now (x ∷ xs) s o d h =
    next-Collected now x xs s (collect now xs (put_back now x s)) d.0 (
      collect-Collected now xs (put_back now x s) (put_back-IsOrdered now x s o h.0) d.1
        (still_out now x s xs d.0 h.1))

-- What `listExpiredCb` comes to: it does not fault, `fired` are the timers whose time has come (all of
-- them, if `back` says that the clock has gone back), and `kept` the others; it returns the callbacks of
-- `fired` in order, and the set is in order and holds `kept` and those of `fired` that recur. Of those
-- in `fired` the recurring ones are due their period from `now`, the others have no callback, and no
-- other timer has changed.
pub record Expired (back : Bool) (now : ℕ) (s : TimerManager)
    (result : Step TimerManager (List (Option Callback))) : Type 0 where
  pub fired : List ℕ
  pub kept : List ℕ
  pub after : TimerManager
  pub returns : result ≡ done (map (λ a. (s.heap a).cb) fired) after
  pub parts : fired ++ kept ≡ s.timers
  pub due :
      ((back ≡ true) × (kept ≡ []))
      ⊎ ((back ≡ false)
          × All (λ a. (s.heap a).next ≤ now) fired
          × All (λ a. now < (s.heap a).next) kept)
  pub ordered : IsOrdered after
  pub again :
      (a : ℕ)
      → holds a fired ≡ true
      → (s.heap a).recurring ≡ true
      → after.heap a ≡ record (s.heap a) { next = add64 now (s.heap a).ms }
  pub finished :
      (a : ℕ)
      → holds a fired ≡ true
      → (s.heap a).recurring ≡ false
      → after.heap a ≡ record (s.heap a) { cb = none }
  pub others : (a : ℕ) → holds a fired ≡ false → after.heap a ≡ s.heap a
  pub members :
      (a : ℕ) → holds a after.timers ≡ (holds a fired && (s.heap a).recurring) || holds a kept
  pub same_flag : after.tickled ≡ s.tickled
  pub time : after.previous_time ≡ now

abbrev stamp : ℕ → TimerManager → TimerManager
stamp now s = record s { previous_time = now }

collect_parts :
    (now : ℕ) (s : TimerManager) (fired kept : List ℕ)
    → IsOrdered s
    → fired ++ kept ≡ s.timers
    → Collected now fired
        (record s { timers = kept })
        (collect now fired (record s { timers = kept }))
collect_parts now s fired kept o e =
    let p = append-Parts s.heap fired kept (rw e o) in
    collect-Collected now fired (record s { timers = kept }) p.ordered p.distinct p.apart

rearm-recurring :
    (now : ℕ) (t : Timer) → t.recurring ≡ true → rearm now t ≡ record t { next = add64 now t.ms }
unfolding rearm
rearm-recurring now t r = ap (λ b. if b then again else record t { cb = none }) r
  where
    again : Timer
    again = record t { next = add64 now t.ms }

rearm-once : (now : ℕ) (t : Timer) → t.recurring ≡ false → rearm now t ≡ record t { cb = none }
unfolding rearm
rearm-once now t r = ap (λ b. if b then record t { next = add64 now t.ms } else gone) r
  where
    gone : Timer
    gone = record t { cb = none }

-- The timers `fired` are taken out and go through the loop.
fire-Expired :
    (back : Bool) (now : ℕ) (s : TimerManager) (fired kept : List ℕ)
    → IsOrdered s
    → fired ++ kept ≡ s.timers
    → ((back ≡ true) × (kept ≡ []))
      ⊎ ((back ≡ false)
          × All (λ a. (s.heap a).next ≤ now) fired
          × All (λ a. now < (s.heap a).next) kept)
    → Expired back now s (
        end_expire
          (some false)
          (stamp now s)
          (collect now fired (record (stamp now s) { timers = kept })))
unfolding end_expire
fire-Expired back now s fired kept o e d =
    let c = collect_parts now (stamp now s) fired kept o e in
    record {
      fired = fired;
      kept = kept;
      after = (collect now fired (record (stamp now s) { timers = kept })).1;
      returns =
          ap (λ l. done l (collect now fired (record (stamp now s) { timers = kept })).1)
            c.callbacks;
      parts = e;
      due = d;
      ordered = c.ordered;
      again = λ a h r. c.objects a ∙ rw h (rearm-recurring now (s.heap a) r);
      finished = λ a h r. c.objects a ∙ rw h (rearm-once now (s.heap a) r);
      others = λ a h. c.objects a ∙ rw h refl;
      members = c.members;
      same_flag = c.same_flag;
      time = c.same_time;
    }

-- No timer is due.
wait-Expired :
    (now : ℕ) (s : TimerManager) (fired : List (Option Callback) × TimerManager)
    → IsOrdered s
    → All (λ a. now < (s.heap a).next) s.timers
    → Expired false now s (end_expire (some true) (stamp now s) fired)
unfolding end_expire
wait-Expired now s fired o w = record {
  fired = [];
  kept = s.timers;
  after = stamp now s;
  returns = refl;
  parts = refl;
  due = inr (refl, tt, w);
  ordered = o;
  again = λ a h r. absurd (ground (arith, h));
  finished = λ a h r. absurd (ground (arith, h));
  others = λ a h. refl;
  members = λ a. refl;
  same_flag = refl;
  time = refl;
}

first_cases :
    (heap : ℕ → Timer) (now : ℕ) (l : List ℕ)
    → Sorted heap l
    → not (is_empty l) ≡ true
    → ((first_after now heap l ≡ some true) × All (λ a. now < (heap a).next) l)
      ⊎ (first_after now heap l ≡ some false)
first_cases heap now [] o h = absurd (ground (arith, h))
first_cases heap now (x ∷ xs) o h = elim (Bool-cases (ltb now (heap x).next)) [
  | inl e ↦
      let w : now < (heap x).next = ltb→lt _ _ e in
      inl (ap some e, (w, All-map _ _ xs (λ z k. ground (arith, k, w)) o.0))
  | inr e ↦ inr (ap some e)
]

flag-Expired :
    (back : Bool) (now probe : ℕ) (s : TimerManager)
    → IsOrdered s
    → holds probe s.timers ≡ false
    → has_timer s ≡ true
    → Expired back now s (
        end_expire (nothing_due back now (stamp now s)) (stamp now s) (
          collect now
            (split_due back now probe (stamp now s)).0
            (record (stamp now s) { timers = (split_due back now probe (stamp now s)).1 })))
unfolding nothing_due has_timer
flag-Expired true now probe s o p h =
    unfold split_due in
    fire-Expired true now s s.timers [] o (append-nil s.timers) (inl (refl, refl))
flag-Expired false now probe s o p h = elim (first_cases s.heap now s.timers o h) [
  | inl (e, w) ↦ rw e (wait-Expired now s _ o w)
  | inr e ↦
      let d = split_due-Due now probe (stamp now s) o p in
      rw e (fire-Expired false now s _ _ o d.parts (inr (refl, d.due, d.waiting)))
]

-- `listExpiredCb`, where the set is not empty when it looks, and where what other threads do before
-- it has the write lock leaves the set in order and not empty, without `now_timer`: it does not
-- fault, and returns, in order, the callbacks of the timers whose time has come (of all, if the
-- clock test says that it has gone back); the others stay, a recurring one is back in the set, its
-- period from now, and the rest have lost their callbacks.
pub list_expired_cb-Expired :
    (meanwhile : TimerManager → TimerManager) (now probe : ℕ) (s : TimerManager)
    → has_timer s ≡ true
    → IsOrdered (meanwhile s)
    → holds probe (meanwhile s).timers ≡ false
    → has_timer (meanwhile s) ≡ true
    → Expired
        (detect_clock_rollover now (meanwhile s)).0
        now
        (meanwhile s)
        (list_expired_cb meanwhile now probe s)
unfolding list_expired_cb
list_expired_cb-Expired meanwhile now probe s h o p k = rw h (
    unfold expire detect_clock_rollover in
    flag-Expired (detect_clock_rollover now (meanwhile s)).0 now probe (meanwhile s) o p k)

cancel_time : (x : ℕ) (s : TimerManager) → (cancel x s).1.previous_time ≡ s.previous_time
unfolding cancel cancel_held
cancel_time x s = go (s.heap x).cb
  where
    go : (c : Option Callback) → (cancel_held x c s).1.previous_time ≡ s.previous_time
    go none = refl
    go (some cb) = refl

expire_nothing :
    (now probe : ℕ) (s : TimerManager)
    → s.timers ≡ []
    → (ltb now s.previous_time && ltb now (sub64 s.previous_time (60 * 60 * 1000))) ≡ false
    → expire now probe s ≡ fault
unfolding expire detect_clock_rollover nothing_due end_expire
expire_nothing now probe s none_left flag =
    go (ltb now s.previous_time && ltb now (sub64 s.previous_time (60 * 60 * 1000))) _ flag
  where
    go :
        (back : Bool) (fired : List (Option Callback) × TimerManager)
        → back ≡ false
        → end_expire (nothing_due back now (stamp now s)) (stamp now s) fired ≡ fault
    go back fired e = rw (e, none_left) refl

-- The lock is let go between the two: where another thread cancels the one timer in the set in
-- between, and the clock has not gone back, the begin() of an empty set is followed.
pub list_expired_cb_race :
    (x now probe : ℕ) (cb : Callback) (s : TimerManager)
    → s.timers ≡ x ∷ []
    → (s.heap x).cb ≡ some cb
    → (detect_clock_rollover now s).0 ≡ false
    → list_expired_cb (λ t. (cancel x t).1) now probe s ≡ fault
unfolding list_expired_cb has_timer
list_expired_cb_race x now probe cb s one h flag =
    let c = cancel_lem x cb s (rw one (tt, tt)) h in
    let gone : (cancel x s).1.timers ≡ [] =
      ap (λ (r : Bool × TimerManager). r.1.timers) c.1 ∙ c.3 ∙ rw one (rw (eq→== x x refl) refl) in
    ap (λ l. if not (is_empty l) then expire now probe (cancel x s).1 else done [] s) one
    ∙ expire_nothing now probe (cancel x s).1 gone (
        ap (λ k. ltb now k && ltb now (sub64 k (60 * 60 * 1000))) (cancel_time x s)
        ∙ (unfold detect_clock_rollover in flag))
