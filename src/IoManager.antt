-- ===== src/IoManager.antt =====
-- sylar/iomanager.h and sylar/iomanager.cpp: the events that fibers and callbacks wait for.
--
-- A fiber, a callback and a scheduler are numbers, and a null pointer is `none`. An `FdContext` is
-- known by its place in the vector, and the vector never loses one; the calls of
-- Scheduler::schedule are the list `scheduled`, in order. What the kernel answers to epoll_ctl is the
-- argument `ctl`, true where it returns 0. A function is one step: it holds the context's lock.
pub mod Valid
pub mod Counting
pub mod Change
pub mod Cancel
pub mod Fire
pub mod CancelAll
pub mod Idle
pub mod Reach
mod Runs
use sylar_demo.Common.{
  ℕ, zero, suc, ◌+◌, ◌*◌, ◌/◌, ◌%◌, ◌^◌, Bool, true, false, not, ◌&&◌, ◌||◌, List, [], ◌∷◌, ◌++◌,
  Option, none, some, map, length, get_elem?, set, add64, sub64, u32, int_leb, int_index, ltb, ◌==◌,
  if◌then◌else◌, Checked, ok, assert_failed, undefined, and_then, Step, done, thrown, fault,
}
use sylar_demo.Timer.{Callback, TimerManager, get_next_timer, list_expired_cb}

-- IOManager::Event, and the two bits that an `events` field can have.
pub data Event : Type 0 where
  nothing read write : Event

pub record Events : Type 0 where
  pub reading : Bool
  pub writing : Bool

abbrev pub no_events : Events
no_events = record { reading = false; writing = false }

abbrev pub has : Event → Events → Bool
has nothing e = false
has read e = e.reading
has write e = e.writing

abbrev pub with_event : Event → Events → Events
with_event nothing e = e
with_event read e = record e { reading = true }
with_event write e = record e { writing = true }

abbrev pub without_event : Event → Events → Events
without_event nothing e = e
without_event read e = record e { reading = false }
without_event write e = record e { writing = false }

abbrev pub any : Events → Bool
any e = e.reading || e.writing

pub record EventContext : Type 0 where
  pub scheduler : Option ℕ
  pub fiber : Option ℕ
  pub cb : Option ℕ

abbrev pub blank : EventContext
blank = record { scheduler = none; fiber = none; cb = none }

pub record FdContext : Type 0 where
  pub read : EventContext
  pub write : EventContext
  pub fd : ℕ
  pub events : Events

abbrev pub new_context : ℕ → FdContext
new_context fd = record { read = blank; write = blank; fd = fd; events = no_events }

-- What is handed to Scheduler::schedule: a callback, a fiber (which may be null), or a timer's
-- callback.
pub data Work : Type 0 where
  callback : ℕ → Work
  fiber : Option ℕ → Work
  expired : Option Callback → Work

pub data EpollOp : Type 0 where
  ctl_add ctl_mod ctl_del : EpollOp

abbrev pub Ctl : Type 0
Ctl = EpollOp → ℕ → Events → Bool

-- `scheduled` has the scheduler that each piece of work was given to.
pub record IoManager : Type 0 where
  pub contexts : List FdContext
  pub pending : ℕ
  pub scheduled : List (ℕ × Work)
  pub timers : TimerManager

-- `getContext`, and a store to what it returns: `none` where its assertion fails.
abbrev pub get_context : Event → FdContext → Option EventContext
get_context nothing c = none
get_context read c = some c.read
get_context write c = some c.write

abbrev pub set_context : Event → EventContext → FdContext → FdContext
set_context nothing ec c = c
set_context read ec c = record c { read = ec }
set_context write ec c = record c { write = ec }

-- `resetContext`
abbrev pub reset_context : Event → FdContext → FdContext
reset_context event c = set_context event blank c

-- What `triggerEvent` schedules: the callback if there is one, else the fiber.
abbrev pub work_of : EventContext → Work
work_of ec = elim ec.cb [ some cb ↦ callback cb | none ↦ fiber ec.fiber ]

-- `triggerEvent` behind its assertion, by the scheduler that the event has.
pub trigger_on :
    Option ℕ → Work → Event → FdContext → List (ℕ × Work) → Checked (FdContext × List (ℕ × Work))
trigger_on none work event c scheduled = undefined
trigger_on (some scheduler) work event c scheduled = ok (
  reset_context event (record c { events = without_event event c.events }),
  scheduled ++ ((scheduler, work) ∷ []),
)

pub trigger_with :
    Option EventContext
    → Event
    → FdContext
    → List (ℕ × Work)
    → Checked (FdContext × List (ℕ × Work))
unfolding trigger_on
trigger_with none event c scheduled = assert_failed
trigger_with (some ec) event c scheduled = trigger_on ec.scheduler (work_of ec) event c scheduled

-- `triggerEvent`
pub trigger_event : Event → FdContext → List (ℕ × Work) → Checked (FdContext × List (ℕ × Work))
unfolding trigger_with
trigger_event event c scheduled =
    if has event c.events
    then trigger_with (get_context event c) event c scheduled
    else assert_failed

-- `contextResize`, on the contexts from place `i` on: null pointers become new contexts.
pub context_resize : ℕ → ℕ → List FdContext → List FdContext
context_resize zero i l = []
context_resize (suc n) i [] = new_context i ∷ context_resize n (i + 1) []
context_resize (suc n) i (c ∷ cs) = c ∷ context_resize n (i + 1) cs

-- The constructor, and a manager that nothing has been added to but timers.
pub new_manager : TimerManager → IoManager
unfolding context_resize
new_manager timers = record {
  contexts = context_resize 32 0 [];
  pending = 0;
  scheduled = [];
  timers = timers;
}

-- The context at place `i` is stored, and the counter moved.
abbrev pub put : ℕ → FdContext → ℕ → IoManager → IoManager
put i c pending s = record s { contexts = set s.contexts i c; pending = pending }

-- Who calls: Scheduler::GetThis(), Fiber::GetThis(), and whether that fiber's state is EXEC.
pub record Caller : Type 0 where
  pub scheduler : Option ℕ
  pub fiber : ℕ
  pub executing : Bool

-- The event context that `addEvent` fills in.
pub new_wait : Caller → Option ℕ → Checked EventContext
new_wait me (some cb) = ok (record { scheduler = me.scheduler; fiber = none; cb = some cb })
new_wait me none =
    if me.executing
    then ok (record { scheduler = me.scheduler; fiber = some me.fiber; cb = none })
    else assert_failed

abbrev pub is_null : {A : Type 0} → Option A → Bool
is_null none = true
is_null (some a) = false

abbrev pub is_blank : EventContext → Bool
is_blank ec = is_null ec.scheduler && is_null ec.fiber && is_null ec.cb

-- `m_fdContexts[fd]`, which is undefined outside the vector.
abbrev pub at_context : {A : Type 0} → Option FdContext → (FdContext → Checked A) → Checked A
at_context none f = undefined
at_context (some c) f = f c

-- `addEvent` from the update of the context on.
pub register :
    Caller
    → Option ℕ
    → Event
    → ℕ
    → FdContext
    → Option EventContext
    → IoManager
    → Checked (Bool × IoManager)
register me cb event i c none s = assert_failed
register me cb event i c (some old) s =
    if is_blank old
    then and_then (new_wait me cb) (λ ec.
      let c' = record c { events = with_event event c.events } in
      ok (true, put i (set_context event ec c') (add64 s.pending 1) s))
    else assert_failed

-- `addEvent` with the context locked; true where it returns 0, false where it returns -1.
pub add_here :
    Ctl → Caller → ℕ → Event → Option ℕ → ℕ → IoManager → FdContext → Checked (Bool × IoManager)
unfolding register new_wait
add_here ctl me fd event cb i s c =
    if has event c.events
    then assert_failed
    else if ctl (if any c.events then ctl_mod else ctl_add) fd (with_event event c.events)
    then register me cb event i c (get_context event c) s
    else ok (false, s)

-- The table that `addEvent` works on.
pub table_for : ℕ → List FdContext → List FdContext
table_for fd contexts =
    if int_leb (u32 (length contexts)) fd then context_resize (fd * 3 / 2) 0 contexts else contexts

pub add_event : Ctl → Caller → ℕ → Event → Option ℕ → IoManager → Checked (Bool × IoManager)
unfolding add_here table_for
add_event ctl me fd event cb s =
    let s' = record s { contexts = table_for fd s.contexts } in
    at_context (get_elem? s'.contexts (int_index fd))
      (add_here ctl me fd event cb (int_index fd) s')

-- `(int)m_fdContexts.size() <= fd`, for the three functions that return false then.
abbrev pub known :
    ℕ → (FdContext → Checked (Bool × IoManager)) → IoManager → Checked (Bool × IoManager)
known fd f s =
    if int_leb (u32 (length s.contexts)) fd
    then ok (false, s)
    else at_context (get_elem? s.contexts (int_index fd)) f

abbrev pub op_for : Events → EpollOp
op_for left = if any left then ctl_mod else ctl_del

-- `delEvent`
pub del_here : Ctl → ℕ → Event → IoManager → FdContext → Checked (Bool × IoManager)
del_here ctl fd event s c =
    let left = without_event event c.events in
    let c' = record c { events = left } in
    if not (has event c.events)
    then ok (false, s)
    else if ctl (op_for left) fd left
    then ok (true, put (int_index fd) (reset_context event c') (sub64 s.pending 1) s)
    else ok (false, s)

pub del_event : Ctl → ℕ → Event → IoManager → Checked (Bool × IoManager)
unfolding del_here
del_event ctl fd event s = known fd (del_here ctl fd event s) s

-- A context after a call of `triggerEvent`, and `--m_pendingEventCount`.
pub store_triggered :
    ℕ → IoManager → Checked (FdContext × List (ℕ × Work)) → Checked (Bool × IoManager)
store_triggered i s t =
    and_then t (λ r. ok (true, record (put i r.0 (sub64 s.pending 1) s) { scheduled = r.1 }))

-- `cancelEvent`
pub cancel_here : Ctl → ℕ → Event → IoManager → FdContext → Checked (Bool × IoManager)
unfolding store_triggered trigger_event
cancel_here ctl fd event s c =
    let left = without_event event c.events in
    if not (has event c.events)
    then ok (false, s)
    else if ctl (op_for left) fd left
    then store_triggered (int_index fd) s (trigger_event event c s.scheduled)
    else ok (false, s)

pub cancel_event : Ctl → ℕ → Event → IoManager → Checked (Bool × IoManager)
unfolding cancel_here
cancel_event ctl fd event s = known fd (cancel_here ctl fd event s) s

-- What `cancelAll` and `idle` work on: the context, the counter, the calls of schedule.
pub record Progress : Type 0 where
  pub context : FdContext
  pub pending : ℕ
  pub scheduled : List (ℕ × Work)

-- `if(test) { fd_ctx->triggerEvent(event); --m_pendingEventCount; }`
pub trigger_if : Bool → Event → Progress → Checked Progress
unfolding trigger_event
trigger_if test event p =
    if test
    then and_then (trigger_event event p.context p.scheduled)
        (λ r. ok (record { context = r.0; pending = sub64 p.pending 1; scheduled = r.1 }))
    else ok p

abbrev pub progress : FdContext → IoManager → Progress
progress c s = record { context = c; pending = s.pending; scheduled = s.scheduled }

abbrev pub put_progress : ℕ → IoManager → Progress → IoManager
put_progress i s p = record (put i p.context p.pending s) { scheduled = p.scheduled }

-- `cancelAll`
pub cancel_all_here : Ctl → ℕ → IoManager → FdContext → Checked (Bool × IoManager)
unfolding trigger_if
cancel_all_here ctl fd s c =
    if not (any c.events)
    then ok (false, s)
    else if ctl ctl_del fd no_events
    then and_then (trigger_if c.events.reading read (progress c s)) (λ p.
      and_then (trigger_if p.context.events.writing write p) (λ q.
        if any q.context.events then assert_failed else ok (true, put_progress (int_index fd) s q)))
    else ok (false, s)

pub cancel_all : Ctl → ℕ → IoManager → Checked (Bool × IoManager)
unfolding cancel_all_here
cancel_all ctl fd s = known fd (cancel_all_here ctl fd s) s
