-- ===== src/Timer/Change.antt =====
-- `addTimer`, `Timer::cancel`, `Timer::refresh` and `Timer::reset` (sylar/timer.cpp).
use sylar_demo.Common.{
  ℕ, ◌≡◌, refl, sym, ap, ◌∙◌, ◌⊎◌, inl, inr, Bool, true, false, not, ◌&&◌, ◌||◌, List, [], ◌∷◌,
  Option, none, some, arith, All, All-map, ◌==◌, eq→==, add64, sub64, if◌then◌else◌, Bool-cases,
  Option-cases,
}
use sylar_demo.Timer.{
  Callback, Timer, TimerManager, before, insert, find_erase, update, new_timer, starts_with,
  add_timer_locked, add_timer, or_else, cancel_held, cancel, move, move_held, refresh, reset,
}
use sylar_demo.Timer.Order.{
  Earlier, before-Earlier, neither, Earlier-trans, Sorted, holds, without, insert-Sorted,
  holds-insert, find_erase_lem, without-Sorted, holds-without, Sorted-same, update_other,
}

-- The manager's invariant: the set is in order, whatever is stored to the timers in it.
abbrev pub IsOrdered : TimerManager → Type 0
IsOrdered s = Sorted s.heap s.timers

-- Whether the new timer is the first one.
front-insert :
    (heap : ℕ → Timer) (x : ℕ) (l : List ℕ)
    → Sorted heap l
    → holds x l ≡ false
    → ((starts_with x (insert heap x l) ≡ true) × All (λ y. Earlier heap x y) l)
      ⊎ ((starts_with x (insert heap x l) ≡ false)
          × ((y : ℕ) × (holds y l ≡ true) × Earlier heap y x))
unfolding insert
front-insert heap x [] o h = inl (eq→== x x refl, tt)
front-insert heap x (y ∷ ys) o h = elim (Bool-cases (before heap y x)) [
  | inl e ↦
      let earlier = before-Earlier heap y x e in
      let other : (y == x) ≡ false = ground (arith, earlier) in
      rw e (inr (other, (y, rw (eq→== y y refl) refl, earlier)))
  | inr e ↦ rw e (elim (Bool-cases (before heap x y)) [
    | inl f ↦
        let first = before-Earlier heap x y f in
        rw f
          (inl (eq→== x x refl, (first, All-map _ _ ys (λ z. Earlier-trans heap x y z first) o.0)))
    | inr f ↦ absurd (ground (arith, rw (eq→== y x (sym (neither heap x y f e))) at h))
  ])
]

-- What adding the timer at `x` to a manager `s` comes to: it is in the set, which is in order, and
-- the front is notified just if the timer is earlier than all others and the flag was not set.
pub record Added (x : ℕ) (s : TimerManager) (result : Bool × TimerManager) : Type 0 where
  pub ordered : IsOrdered result.1
  pub members : (a : ℕ) → holds a result.1.timers ≡ (x == a) || holds a s.timers
  pub notified :
      ((result.0 ≡ true) × (s.tickled ≡ false) × All (λ y. Earlier s.heap x y) s.timers)
      ⊎ ((result.0 ≡ false)
          × ((s.tickled ≡ true) ⊎ ((y : ℕ) × (holds y s.timers ≡ true) × Earlier s.heap y x)))
  pub flag : result.1.tickled ≡ s.tickled || result.0
  pub same_heap : result.1.heap ≡ s.heap
  pub same_time : result.1.previous_time ≡ s.previous_time

add_timer_locked-Added :
    (x : ℕ) (s : TimerManager)
    → IsOrdered s
    → holds x s.timers ≡ false
    → Added x s (add_timer_locked x s)
unfolding add_timer_locked
add_timer_locked-Added x s o h = record {
  ordered = insert-Sorted s.heap x s.timers o;
  members = λ a. holds-insert s.heap a x s.timers;
  notified = told (front-insert s.heap x s.timers o h);
  flag = flag_or (starts_with x (insert s.heap x s.timers)) s.tickled;
  same_heap = refl;
  same_time = refl;
}
  where
    first : Bool
    first = starts_with x (insert s.heap x s.timers)

    flag_or :
        (front flag : Bool)
        → (if front && not flag then true else flag) ≡ flag || (front && not flag)
    flag_or true true = refl
    flag_or true false = refl
    flag_or false true = refl
    flag_or false false = refl

    told :
        ((first ≡ true) × All (λ y. Earlier s.heap x y) s.timers)
          ⊎ ((first ≡ false) × ((y : ℕ) × (holds y s.timers ≡ true) × Earlier s.heap y x))
        → (((first && not s.tickled) ≡ true)
            × (s.tickled ≡ false)
            × All (λ y. Earlier s.heap x y) s.timers)
          ⊎ (((first && not s.tickled) ≡ false)
              × ((s.tickled ≡ true) ⊎ ((y : ℕ) × (holds y s.timers ≡ true) × Earlier s.heap y x)))
    told (inl (e, p)) = elim (Bool-cases s.tickled) [
      | inl set ↦ rw (e, set) (inr (refl, inl refl))
      | inr unset ↦ rw (e, unset) (inl (refl, refl, p))
    ]
    told (inr (e, p)) = rw e (inr (refl, inr p))

-- A store to an object outside the set.
pub store-IsOrdered :
    (x : ℕ) (t : Timer) (heap : ℕ → Timer) (l : List ℕ)
    → holds x l ≡ false
    → Sorted heap l
    → Sorted (update x t heap) l
store-IsOrdered x t heap l h o =
    Sorted-same heap (update x t heap) l
      (All-map _ _ l (λ a e. ap (λ (u : Timer). u.next) e) (update_other x t heap l h)) o

-- `addTimer` to a set that is in order, with a new object that is not in the set: the set keeps its
-- order and its timers and has the new one, due `ms` from now, with that period and callback; no
-- other object changes; onTimerInsertedAtFront() is called just if it is earlier than all others
-- and the flag was not set, and then the flag is set.
pub add_timer-Added :
    (x now ms : ℕ) (cb : Option Callback) (recurring : Bool) (s : TimerManager)
    → IsOrdered s
    → holds x s.timers ≡ false
    → Added x
        (record s {
          heap =
              update x
                (record { recurring = recurring; ms = ms; next = add64 now ms; cb = cb })
                s.heap;
        })
        (add_timer x now ms cb recurring s)
unfolding add_timer
add_timer-Added x now ms cb recurring s o h =
    add_timer_locked-Added x (record s { heap = update x (new_timer now ms cb recurring) s.heap })
      (store-IsOrdered x (new_timer now ms cb recurring) s.heap s.timers h o) h

holds_not_without : (x : ℕ) (l : List ℕ) → holds x (without x l) ≡ false
holds_not_without x l = holds-without x x l ∙ rw (eq→== x x refl) refl

without_absent : (x : ℕ) (l : List ℕ) → holds x l ≡ false → without x l ≡ l
without_absent x [] h = refl
without_absent x (y ∷ ys) h = elim (Bool-cases (y == x)) [
  | inl e ↦ absurd (ground (arith, rw e at h))
  | inr e ↦ rw e (ap (λ l. y ∷ l) (without_absent x ys (rw e at h)))
]

-- What `cancel` does to a timer that has its callback: it is taken out of the set, which keeps the
-- others in order, it loses the callback, and to cancel it again changes nothing and returns false.
pub cancel_lem :
    (x : ℕ) (cb : Callback) (s : TimerManager)
    → IsOrdered s
    → (s.heap x).cb ≡ some cb
    → (after : TimerManager) × (cancel x s ≡ (true, after))
      × IsOrdered after
      × (after.timers ≡ without x s.timers)
      × (after.heap ≡ update x (record (s.heap x) { cb = none }) s.heap)
      × (cancel x after ≡ (false, after))
unfolding cancel
cancel_lem x cb s o h = (
  record s { heap = heap; timers = without x s.timers },
  ap (λ c. cancel_held x c s) h ∙ (unfold cancel_held in rw taken refl),
  Sorted-same s.heap heap (without x s.timers) (All-same (without x s.timers))
      (without-Sorted s.heap x s.timers o),
  refl,
  refl,
  ap (λ c. cancel_held x c (record s { heap = heap; timers = without x s.timers })) none_left,
)
  where
    heap : ℕ → Timer
    heap = update x (record (s.heap x) { cb = none }) s.heap

    same_next : (a : ℕ) → (heap a).next ≡ (s.heap a).next
    same_next a =
        unfold update in
        elim (Bool-cases (a == x)) [
          | inl e ↦ let q : a ≡ x = ground (arith, e) in rw e (ap (λ k. (s.heap k).next) (sym q))
          | inr e ↦ rw e refl
        ]

    All-same : (l : List ℕ) → All (λ a. (heap a).next ≡ (s.heap a).next) l
    All-same [] = tt
    All-same (a ∷ l) = (same_next a, All-same l)

    taken : or_else (find_erase heap x s.timers) s.timers ≡ without x s.timers
    taken =
        rw (find_erase_lem heap x s.timers (Sorted-same s.heap heap s.timers (All-same s.timers) o))
          (elim (Bool-cases (holds x s.timers)) [
            | inl e ↦ rw e refl
            | inr e ↦ rw e (sym (without_absent x s.timers e))
          ])

    none_left : (heap x).cb ≡ none
    none_left = unfold update in rw (eq→== x x refl) refl

-- A timer of the set that is moved in it: the object is `t` now, the set has the members it had and
-- is in order, and the front is notified just if the timer is earlier than all others and the flag
-- was not set.
pub record Rearmed (x : ℕ) (t : Timer) (s : TimerManager) (result : Bool × Bool × TimerManager)
    : Type 0 where
  pub returns : result.0 ≡ true
  pub ordered : IsOrdered result.2
  pub members : (a : ℕ) → holds a result.2.timers ≡ holds a s.timers
  pub same_heap : result.2.heap ≡ update x t s.heap
  pub notified :
      ((result.1 ≡ true)
        × (s.tickled ≡ false)
        × All (λ y. Earlier (update x t s.heap) x y) (without x s.timers))
      ⊎ ((result.1 ≡ false)
          × ((s.tickled ≡ true)
              ⊎ ((y : ℕ) × (holds y (without x s.timers) ≡ true)
                  × Earlier (update x t s.heap) y x)))

move-Rearmed :
    (x : ℕ) (t : Timer) (s : TimerManager)
    → IsOrdered s
    → holds x s.timers ≡ true
    → Rearmed x t s (move x t (find_erase s.heap x s.timers) s)
move-Rearmed x t s o h =
    rw (find_erase_lem s.heap x s.timers o, h)
      (unfold move in
        record {
          returns = refl;
          ordered = added.ordered;
          members = λ a. added.members a ∙ back a;
          same_heap = added.same_heap;
          notified = added.notified;
        })
  where
    out : TimerManager
    out = record s { heap = update x t s.heap; timers = without x s.timers }

    gone : holds x (without x s.timers) ≡ false
    gone = holds_not_without x s.timers

    added : Added x out (add_timer_locked x out)
    added =
        add_timer_locked-Added x out
          (store-IsOrdered x t s.heap (without x s.timers) gone
            (without-Sorted s.heap x s.timers o))
          gone

    back : (a : ℕ) → (x == a) || holds a (without x s.timers) ≡ holds a s.timers
    back a = elim (Bool-cases (x == a)) [
      | inl e ↦ let q : a ≡ x = ground (arith, e) in rw e (sym (ap (λ k. holds k s.timers) q ∙ h))
      | inr e ↦ rw (holds-without a x s.timers, e) refl
    ]

move_cases :
    (x : ℕ) (t : Timer) (s : TimerManager)
    → IsOrdered s
    → ((((s.heap x).cb ≡ none) ⊎ (holds x s.timers ≡ false))
        × (move_held x t (s.heap x).cb s ≡ (false, false, s)))
      ⊎ (((cb : Callback) × ((s.heap x).cb ≡ some cb))
          × (holds x s.timers ≡ true)
          × Rearmed x t s (move_held x t (s.heap x).cb s))
unfolding move_held
move_cases x t s o = elim (Option-cases (s.heap x).cb) [
  | inl empty ↦ inl (inl empty, ap (λ c. move_held x t c s) empty)
  | inr (cb, e) ↦ elim (Bool-cases (holds x s.timers)) [
    | inl h ↦ inr ((cb, e), h, rw e (unfold move_held in move-Rearmed x t s o h))
    | inr h ↦ inl (
      inr h,
      ap (λ c. move_held x t c s) e
          ∙ (unfold move_held move in rw (find_erase_lem s.heap x s.timers o, h) refl),
    )
  ]
]

-- `refresh`: without a callback or outside the set it returns false and changes nothing; otherwise
-- it returns true, the timer is due its period from now, and the set keeps its order and its timers.
pub refresh_cases :
    (x now : ℕ) (s : TimerManager)
    → IsOrdered s
    → ((((s.heap x).cb ≡ none) ⊎ (holds x s.timers ≡ false))
        × (refresh x now s ≡ (false, false, s)))
      ⊎ (((cb : Callback) × ((s.heap x).cb ≡ some cb))
          × (holds x s.timers ≡ true)
          × Rearmed x (record (s.heap x) { next = add64 now (s.heap x).ms }) s (refresh x now s))
unfolding refresh
refresh_cases x now s o = move_cases x (record (s.heap x) { next = add64 now (s.heap x).ms }) s o

-- `reset`: with the period the timer has, and not from now, it returns true and changes nothing;
-- otherwise it is as `refresh`, with the new period, from now or from the start of the old period.
pub reset_cases :
    (x ms : ℕ) (from_now : Bool) (now : ℕ) (s : TimerManager)
    → IsOrdered s
    → ((ms ≡ (s.heap x).ms) × (from_now ≡ false) × (reset x ms from_now now s ≡ (true, false, s)))
      ⊎ (((((s.heap x).cb ≡ none) ⊎ (holds x s.timers ≡ false))
            × (reset x ms from_now now s ≡ (false, false, s)))
          ⊎ (((cb : Callback) × ((s.heap x).cb ≡ some cb))
              × (holds x s.timers ≡ true)
              × Rearmed x
                  (record (s.heap x) {
                    ms = ms;
                    next = add64 (if from_now then now else sub64 (s.heap x).next (s.heap x).ms) ms;
                  })
                  s
                  (reset x ms from_now now s)))
unfolding reset
reset_cases x ms from_now now s o =
    let start = if from_now then now else sub64 (s.heap x).next (s.heap x).ms in
    elim (Bool-cases (ms == (s.heap x).ms && not from_now)) [
      | inl e ↦ inl (ground (arith, e), ground (arith, e), rw e refl)
      | inr e ↦ rw e (inr (move_cases x (record (s.heap x) { ms = ms; next = add64 start ms }) s o))
    ]
