-- ===== src/Fiber/Turn.antt =====
-- A turn of a fiber (sylar/fiber.cpp): `swapIn`, and the switch back.
use sylar_demo.Common.{
  ℕ, ◌≡◌, ◌≢◌, ◌⊎◌, inl, inr, refl, sym, ap, ◌∙◌, Bool, true, false, not, none, some, arith,
  if◌then◌else◌, Checked, ok, assert_failed, and_then,
}
use sylar_demo.Fiber.{
  State, init, hold, exec, term, ready, except, is_exec, is_over, Place, at_entry, inside, at_end,
  Fiber, Thread, store, set_fiber, resumed, switch, swap_in, swap_out, back, leave, get_this,
  this_of, yield_to, over, main_func,
}
use sylar_demo.Fiber.Cells.{store_same, store_other, same_or_not, expected, IsConsistent}

-- The fiber `a` runs now, and no other fiber but the scheduler's has changed.
pub record Entered (main a : ℕ) (t : Thread) (result : Checked Thread) : Type 0 where
  pub after : Thread
  pub returns : result ≡ ok after
  pub valid : IsConsistent main a after
  pub its : after.heap a ≡ record (t.heap a) { state = exec }
  pub others : (b : ℕ) → b ≢ a → b ≢ main → after.heap b ≡ t.heap b
  pub main_is : after.heap main ≡ record (t.heap main) { place = inside }

resumed_inside : (p : Place) (t : Thread) → p ≢ at_end → resumed p t ≡ ok t
unfolding resumed
resumed_inside at_entry t n = refl
resumed_inside inside t n = refl
resumed_inside at_end t n = absurd (n refl)

is_exec_not : (s : State) → s ≡ exec → is_exec s ≢ false
unfolding is_exec
is_exec_not s e h = absurd (ground (arith, ap is_exec (sym e) ∙ h))

either : {A : Type 0} → A ⊎ A → A
either (inl x) = x
either (inr x) = x

-- A fiber that is neither running nor over does not go on at the end.
not_at_end : (s : State) → is_exec s ≡ false → is_over s ≡ false → expected s ≢ at_end
unfolding is_exec is_over
not_at_end init h k e = cc
not_at_end hold h k e = cc
not_at_end exec h k e = cc
not_at_end term h k e = absurd (ground (arith, k))
not_at_end ready h k e = cc
not_at_end except h k e = absurd (ground (arith, k))

-- `swapIn` of a fiber that is neither running nor over, from the scheduler's fiber.
pub swap_in-Entered :
    (main a : ℕ) (t : Thread)
    → IsConsistent main main t
    → is_exec (t.heap a).state ≡ false
    → is_over (t.heap a).state ≡ false
    → Entered main a t (swap_in a t)
unfolding swap_in switch
swap_in-Entered main a t v h k = record {
  after = after;
  returns =
      ap (λ b. if b then assert_failed else switch inside t.scheduler_fiber (some a) entering) h
      ∙ ap (λ o. switch inside o (some a) entering) v.scheduling
      ∙ resumed_inside (after.heap a).place after
          (λ e. not_at_end (t.heap a).state h k (sym place_is ∙ e));
  valid = record {
    scheduling = v.scheduling;
    running = refl;
    main_runs = ap (λ (f : Fiber). f.state) main_is ∙ v.main_runs;
    now_runs = ap (λ (f : Fiber). f.state) its;
    alone = alone;
    saved = saved;
  };
  its = its;
  others = others;
  main_is = main_is;
}
  where
    apart : a ≢ main
    apart e = is_exec_not _ v.main_runs (ap (λ b. is_exec (t.heap b).state) (sym e) ∙ h)

    running : Fiber
    running = record (t.heap a) { state = exec }

    entering : Thread
    entering = record t { heap = store a running t.heap; current = some a }

    after : Thread
    after = set_fiber main (record (entering.heap main) { place = inside }) entering

    its : after.heap a ≡ running
    its = store_other main a _ entering.heap apart ∙ store_same a running t.heap

    others : (b : ℕ) → b ≢ a → b ≢ main → after.heap b ≡ t.heap b
    others b n m = store_other main b _ entering.heap m ∙ store_other a b running t.heap n

    main_is : after.heap main ≡ record (t.heap main) { place = inside }
    main_is =
        store_same main _ entering.heap
        ∙ ap (λ (f : Fiber). record f { place = inside })
            (store_other a main running t.heap (λ e. apart (sym e)))

    place_is : (after.heap a).place ≡ expected (t.heap a).state
    place_is = ap (λ (f : Fiber). f.place) its ∙ v.saved a apart

    alone : (b : ℕ) → (after.heap b).state ≡ exec → (b ≡ a) ⊎ (b ≡ main)
    alone b e = elim (same_or_not b a) [
      | inl i ↦ inl i
      | inr n ↦ elim (same_or_not b main) [
        | inl i ↦ inr i
        | inr m ↦ inr (either (v.alone b (ap (λ (f : Fiber). f.state) (sym (others b n m)) ∙ e)))
      ]
    ]

    saved : (b : ℕ) → b ≢ a → (after.heap b).place ≡ expected (after.heap b).state
    saved b n = elim (same_or_not b main) [
      | inl i ↦
          let at_b : after.heap b ≡ record (t.heap main) { place = inside } =
            ap after.heap i ∙ main_is in
          ap (λ (f : Fiber). f.place) at_b
          ∙ sym (ap expected (ap (λ (f : Fiber). f.state) at_b ∙ v.main_runs))
      | inr m ↦
          ap (λ (f : Fiber). f.place) (others b n m)
          ∙ v.saved b m
          ∙ sym (ap (λ (f : Fiber). expected f.state) (others b n m))
    ]

-- The fiber `a` has left for the scheduler's fiber, as `f`, and no other has changed.
pub record Left (main a : ℕ) (f : Fiber) (t : Thread) (result : Checked Thread) : Type 0 where
  pub after : Thread
  pub returns : result ≡ ok after
  pub valid : IsConsistent main main after
  pub its : after.heap a ≡ f
  pub others : (b : ℕ) → b ≢ a → after.heap b ≡ t.heap b

-- `swapOut` of the running fiber, which has become `f`.
swap_out-Left :
    (main a : ℕ) (place : Place) (f : Fiber) (t : Thread)
    → IsConsistent main a t
    → a ≢ main
    → is_exec f.state ≡ false
    → place ≡ expected f.state
    → Left main a (record f { place = place }) t (swap_out place a (set_fiber a f t))
unfolding swap_out switch
swap_out-Left main a place f t v apart h k = record {
  after = after;
  returns =
      ap (λ o. switch place (some a) o (record leaving { current = o })) v.scheduling
      ∙ resumed_inside (after.heap main).place after (λ e. inside_not_end (sym place_is ∙ e));
  valid = record {
    scheduling = v.scheduling;
    running = refl;
    main_runs = main_runs;
    now_runs = main_runs;
    alone = λ b e. inl (alone b e);
    saved = saved;
  };
  its = its;
  others = others;
}
  where
    leaving : Thread
    leaving = set_fiber a f t

    left : Fiber
    left = record (leaving.heap a) { place = place }

    after : Thread
    after = record leaving { heap = store a left leaving.heap; current = some main }

    its : after.heap a ≡ record f { place = place }
    its =
        store_same a left leaving.heap
        ∙ ap (λ (g : Fiber). record g { place = place }) (store_same a f t.heap)

    others : (b : ℕ) → b ≢ a → after.heap b ≡ t.heap b
    others b n = store_other a b left leaving.heap n ∙ store_other a b f t.heap n

    at_main : after.heap main ≡ t.heap main
    at_main = others main (λ e. apart (sym e))

    main_runs : (after.heap main).state ≡ exec
    main_runs = ap (λ (g : Fiber). g.state) at_main ∙ v.main_runs

    place_is : (after.heap main).place ≡ inside
    place_is =
        ap (λ (g : Fiber). g.place) at_main
        ∙ v.saved main (λ e. apart (sym e))
        ∙ ap expected v.main_runs

    inside_not_end : inside ≢ at_end
    inside_not_end e = cc

    not_exec : (after.heap a).state ≢ exec
    not_exec e = is_exec_not f.state (sym (ap (λ (g : Fiber). g.state) its) ∙ e) h

    alone : (b : ℕ) → (after.heap b).state ≡ exec → b ≡ main
    alone b e = elim (same_or_not b a) [
      | inl i ↦ absurd (not_exec (ap (λ c. (after.heap c).state) (sym i) ∙ e))
      | inr n ↦ elim (v.alone b (ap (λ (g : Fiber). g.state) (sym (others b n)) ∙ e)) [
        | inl i ↦ absurd (n i)
        | inr m ↦ m
      ]
    ]

    saved : (b : ℕ) → b ≢ main → (after.heap b).place ≡ expected (after.heap b).state
    saved b m = elim (same_or_not b a) [
      | inl i ↦
          let at_b : after.heap b ≡ record f { place = place } = ap after.heap i ∙ its in
          ap (λ (g : Fiber). g.place) at_b ∙ k ∙ sym (ap (λ (g : Fiber). expected g.state) at_b)
      | inr n ↦
          ap (λ (g : Fiber). g.place) (others b n)
          ∙ v.saved b n
          ∙ sym (ap (λ (g : Fiber). expected g.state) (others b n))
    ]

-- How the function of a fiber gives up the thread.
pub data Exit : Type 0 where
  to_ready to_hold returns throws : Exit

-- The function's part of a turn, for a fiber that is not the caller's.
abbrev pub exits : Exit → ℕ → Thread → Checked Thread
exits to_ready fresh t = yield_to ready fresh t
exits to_hold fresh t = yield_to hold fresh t
exits returns fresh t = main_func true fresh t
exits throws fresh t = main_func false fresh t

-- The fiber after it.
abbrev pub exited : Exit → Fiber → Fiber
exited to_ready f = record f { state = ready; place = inside }
exited to_hold f = record f { state = hold; place = inside }
exited returns f = record f { cb = none; state = term; place = at_end }
exited throws f = record f { state = except; place = at_end }

Left-as :
    (main a : ℕ) (f : Fiber) (t : Thread) (r s : Checked Thread)
    → r ≡ s
    → Left main a f t s
    → Left main a f t r
Left-as main a f t r s e l = record {
  after = l.after;
  returns = e ∙ l.returns;
  valid = l.valid;
  its = l.its;
  others = l.others;
}

leave_out :
    (place : Place) (a : ℕ) (f : Fiber) (t : Thread)
    → f.use_caller ≡ false
    → leave place a (set_fiber a f t) ≡ swap_out place a (set_fiber a f t)
unfolding leave
leave_out place a f t own =
    ap (λ b. if not b then swap_out place a (set_fiber a f t) else back place a (set_fiber a f t))
      (ap (λ (g : Fiber). g.use_caller) (store_same a f t.heap) ∙ own)

yield_to-Left :
    (main a fresh : ℕ) (state : State) (t : Thread)
    → IsConsistent main a t
    → a ≢ main
    → (t.heap a).use_caller ≡ false
    → is_exec state ≡ false
    → inside ≡ expected state
    → Left main a (record (t.heap a) { state = state; place = inside }) t (yield_to state fresh t)
unfolding yield_to get_this is_exec
yield_to-Left main a fresh state t v apart own h k =
    Left-as main a _ t _ _
      (ap (λ o. go_on (this_of fresh t o)) v.running
        ∙ ap (λ s. if is_exec s then leave inside a (set_fiber a yielding t) else assert_failed)
            v.now_runs
        ∙ leave_out inside a yielding t own)
      (swap_out-Left main a inside yielding t v apart h k)
  where
    yielding : Fiber
    yielding = record (t.heap a) { state = state }

    go_on : ℕ × Thread → Checked Thread
    go_on (b, u) =
        if is_exec (u.heap b).state
        then leave inside b (set_fiber b (record (u.heap b) { state = state }) u)
        else assert_failed

main_func-Left :
    (main a fresh : ℕ) (returned : Bool) (t : Thread)
    → IsConsistent main a t
    → a ≢ main
    → Left main a
        (record (over returned (t.heap a)) { place = at_end })
        t
        (main_func returned fresh t)
unfolding main_func get_this over is_exec
main_func-Left main a fresh returned t v apart =
    Left-as main a _ t _ _ (ap (λ o. go_on (this_of fresh t o)) v.running) (by_end returned)
  where
    go_on : ℕ × Thread → Checked Thread
    go_on (b, u) = swap_out at_end b (set_fiber b (over returned (u.heap b)) u)

    by_end :
        (r : Bool)
        → Left main a
            (record (over r (t.heap a)) { place = at_end })
            t
            (swap_out at_end a (set_fiber a (over r (t.heap a)) t))
    by_end true = swap_out-Left main a at_end (over true (t.heap a)) t v apart refl refl
    by_end false = swap_out-Left main a at_end (over false (t.heap a)) t v apart refl refl

exits-Left :
    (main a fresh : ℕ) (exit : Exit) (t : Thread)
    → IsConsistent main a t
    → a ≢ main
    → (t.heap a).use_caller ≡ false
    → Left main a (exited exit (t.heap a)) t (exits exit fresh t)
unfolding is_exec over
exits-Left main a fresh to_ready t v n own = yield_to-Left main a fresh ready t v n own refl refl
exits-Left main a fresh to_hold t v n own = yield_to-Left main a fresh hold t v n own refl refl
exits-Left main a fresh returns t v n own = main_func-Left main a fresh true t v n
exits-Left main a fresh throws t v n own = main_func-Left main a fresh false t v n

-- A turn of a fiber of its own that is neither running nor over, from the scheduler's fiber: no
-- assertion fails, the thread is in the scheduler's fiber again, the fiber's state says how it gave
-- up the thread, and no other fiber but the scheduler's has changed. The invariant holds again.
pub turn-Left :
    (main a fresh : ℕ) (exit : Exit) (t : Thread)
    → IsConsistent main main t
    → is_exec (t.heap a).state ≡ false
    → is_over (t.heap a).state ≡ false
    → (t.heap a).use_caller ≡ false
    → (after : Thread) × (and_then (swap_in a t) (exits exit fresh) ≡ ok after)
      × IsConsistent main main after
      × (after.heap a ≡ exited exit (t.heap a))
      × ((b : ℕ) → b ≢ a → b ≢ main → after.heap b ≡ t.heap b)
turn-Left main a fresh exit t v h k own =
    let e = swap_in-Entered main a t v h k in
    let caller : (e.after.heap a).use_caller ≡ false =
      ap (λ (f : Fiber). f.use_caller) e.its ∙ own in
    let l = exits-Left main a fresh exit e.after e.valid (apart v h) caller in
    (
      l.after,
      ap (λ r. and_then r (exits exit fresh)) e.returns ∙ l.returns,
      l.valid,
      l.its ∙ ap (exited exit) e.its ∙ same exit,
      λ b n m. l.others b n ∙ e.others b n m,
    )
  where
    apart : IsConsistent main main t → is_exec (t.heap a).state ≡ false → a ≢ main
    apart v h e = is_exec_not _ v.main_runs (ap (λ b. is_exec (t.heap b).state) (sym e) ∙ h)

    same : (x : Exit) → exited x (record (t.heap a) { state = exec }) ≡ exited x (t.heap a)
    same to_ready = refl
    same to_hold = refl
    same returns = refl
    same throws = refl

over_lem : (s : State) → is_over s ≡ true → (is_exec s ≡ false) × (expected s ≡ at_end)
unfolding is_over is_exec
over_lem init h = absurd (ground (arith, h))
over_lem hold h = absurd (ground (arith, h))
over_lem exec h = absurd (ground (arith, h))
over_lem term h = (refl, refl)
over_lem ready h = absurd (ground (arith, h))
over_lem except h = (refl, refl)

-- A fiber that is over is not resumed: `swapIn` of it fails the assertion at the end of MainFunc.
pub swap_in_over :
    (main a : ℕ) (t : Thread)
    → IsConsistent main main t
    → is_over (t.heap a).state ≡ true
    → swap_in a t ≡ assert_failed
unfolding swap_in switch resumed is_exec is_over
swap_in_over main a t v h =
    ap (λ b. if b then assert_failed else switch inside t.scheduler_fiber (some a) entering) idle
    ∙ ap (λ o. switch inside o (some a) entering) v.scheduling
    ∙ ap (λ p. resumed p after) place_is
  where
    idle : is_exec (t.heap a).state ≡ false
    idle = (over_lem (t.heap a).state h).0

    apart : a ≢ main
    apart e = is_exec_not _ v.main_runs (ap (λ b. is_exec (t.heap b).state) (sym e) ∙ idle)

    entering : Thread
    entering = record t {
      heap = store a (record (t.heap a) { state = exec }) t.heap;
      current = some a;
    }

    after : Thread
    after = set_fiber main (record (entering.heap main) { place = inside }) entering

    place_is : (after.heap a).place ≡ at_end
    place_is =
        ap (λ (f : Fiber). f.place)
          (store_other main a _ entering.heap apart ∙ store_same a _ t.heap)
        ∙ v.saved a apart
        ∙ (over_lem (t.heap a).state h).1
