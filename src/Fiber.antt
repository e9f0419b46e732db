-- ===== src/Fiber.antt =====
-- sylar/fiber.h and sylar/fiber.cpp: coroutines, and the switches between them on one thread.
--
-- A fiber is an address into the heap, a function a number, and a null pointer `none`. The saved
-- context of a fiber is the place where it goes on. getcontext and swapcontext succeed. A function
-- that switches away ends with the thread in the other fiber. The log messages are left out.
pub mod Cells
pub mod Turn
mod Runs
use sylar_demo.Common.{
  ℕ, ◌+◌, ◌-◌, Bool, true, false, not, ◌||◌, Option, none, some, add64, sub64, ◌==◌, if◌then◌else◌,
  Checked, ok, assert_failed, undefined, and_then,
}

pub data State : Type 0 where
  init hold exec term ready except : State

-- Where a context goes on: at the start of MainFunc or CallerMainFunc, at a switch inside of the
-- fiber's function, or behind the last switch of MainFunc, where an assertion fails.
pub data Place : Type 0 where
  at_entry inside at_end : Place

pub record Fiber : Type 0 where
  pub id : ℕ
  pub has_stack : Bool
  pub state : State
  pub cb : Option ℕ
  pub use_caller : Bool
  pub place : Place

-- t_fiber, t_threadFiber, t_scheduler_fiber, s_fiber_id and s_fiber_count.
pub record Thread : Type 0 where
  pub heap : ℕ → Fiber
  pub current : Option ℕ
  pub thread_fiber : Option ℕ
  pub scheduler_fiber : Option ℕ
  pub last_id : ℕ
  pub fibers : ℕ

unfoldable pub is_exec : State → Bool
is_exec exec = true
is_exec _ = false

-- TERM and EXCEPT
unfoldable pub is_over : State → Bool
is_over term = true
is_over except = true
is_over _ = false

unfoldable pub is_init : State → Bool
is_init init = true
is_init _ = false

-- A store to the heap.
pub store : ℕ → Fiber → (ℕ → Fiber) → ℕ → Fiber
store a f heap b = if a == b then f else heap b

abbrev pub set_fiber : ℕ → Fiber → Thread → Thread
set_fiber a f t = record t { heap = store a f t.heap }

-- `Fiber::Fiber()`, at the address `a`: the fiber that the thread itself is.
abbrev pub main_fiber : Fiber
main_fiber = record {
  id = 0;
  has_stack = false;
  state = exec;
  cb = none;
  use_caller = false;
  place = inside;
}

pub new_main : ℕ → Thread → Thread
new_main a t = record t {
  heap = store a main_fiber t.heap;
  current = some a;
  fibers = add64 t.fibers 1;
}

-- `Fiber::Fiber(cb, stacksize, use_caller)`
unfoldable pub new_fiber : ℕ → Option ℕ → Bool → Thread → Thread
new_fiber a cb use_caller t = record t {
  heap =
      store a
        (record {
          id = add64 t.last_id 1;
          has_stack = true;
          state = init;
          cb = cb;
          use_caller = use_caller;
          place = at_entry;
        })
        t.heap;
  last_id = add64 t.last_id 1;
  fibers = add64 t.fibers 1;
}

abbrev is_some : {A : Type 0} → Option A → Bool
is_some none = false
is_some (some a) = true

abbrev is_here : ℕ → Option ℕ → Bool
is_here a none = false
is_here a (some b) = a == b

-- `Fiber::~Fiber`
pub destroy : ℕ → Thread → Checked Thread
destroy a t =
    let f = t.heap a in
    let t' = record t { fibers = sub64 t.fibers 1 } in
    if f.has_stack
    then (if is_over f.state || is_init f.state then ok t' else assert_failed)
    else if is_some f.cb
    then assert_failed
    else if is_exec f.state
    then ok (if is_here a t'.current then record t' { current = none } else t')
    else assert_failed

-- `reset`
unfoldable pub reset : ℕ → Option ℕ → Bool → Thread → Checked Thread
reset a cb use_caller t =
    let f = t.heap a in
    if not f.has_stack
    then assert_failed
    else if is_over f.state || is_init f.state
    then ok (
        set_fiber a (record f { cb = cb; use_caller = use_caller; place = at_entry; state = init })
          t)
    else assert_failed

-- The thread where `swapcontext` lands.
pub resumed : Place → Thread → Checked Thread
resumed at_entry t = ok t
resumed inside t = ok t
resumed at_end t = assert_failed

-- `swapcontext(&from->m_ctx, &to->m_ctx)`: `place` is where it is called.
pub switch : Place → Option ℕ → Option ℕ → Thread → Checked Thread
switch place none to t = undefined
switch place (some a) none t = undefined
switch place (some a) (some b) t =
    let t' = set_fiber a (record (t.heap a) { place = place }) t in resumed (t'.heap b).place t'

-- `call`
pub call : ℕ → Thread → Checked Thread
call a t =
    let t' = record (set_fiber a (record (t.heap a) { state = exec }) t) { current = some a } in
    switch inside t'.thread_fiber (some a) t'

-- `back`
pub back : Place → ℕ → Thread → Checked Thread
back place a t = switch place (some a) t.thread_fiber (record t { current = t.thread_fiber })

-- `swapIn`
pub swap_in : ℕ → Thread → Checked Thread
swap_in a t =
    let t' = record t { current = some a } in
    if is_exec (t'.heap a).state
    then assert_failed
    else switch inside t'.scheduler_fiber (some a)
        (set_fiber a (record (t'.heap a) { state = exec }) t')

-- `swapOut`
pub swap_out : Place → ℕ → Thread → Checked Thread
swap_out place a t =
    switch place (some a) t.scheduler_fiber (record t { current = t.scheduler_fiber })

-- `GetThis`; `fresh` is the address of the fiber that it makes on a thread with none.
abbrev pub this_of : ℕ → Thread → Option ℕ → ℕ × Thread
this_of fresh t none = (fresh, record (new_main fresh t) { thread_fiber = some fresh })
this_of fresh t (some a) = (a, t)

pub get_this : ℕ → Thread → ℕ × Thread
get_this fresh t = this_of fresh t t.current

-- The switch away that a fiber makes, by its m_use_caller.
pub leave : Place → ℕ → Thread → Checked Thread
leave place a t = if not (t.heap a).use_caller then swap_out place a t else back place a t

-- `YieldToReady` and `YieldToHold`, by the state that they set.
pub yield_to : State → ℕ → Thread → Checked Thread
yield_to state fresh t =
    let (a, t') = get_this fresh t in
    if is_exec (t'.heap a).state
    then leave inside a (set_fiber a (record (t'.heap a) { state = state }) t')
    else assert_failed

abbrev pub yield_to_ready : ℕ → Thread → Checked Thread
yield_to_ready = yield_to ready

abbrev pub yield_to_hold : ℕ → Thread → Checked Thread
yield_to_hold = yield_to hold

-- A fiber when its function has returned, or thrown.
pub over : Bool → Fiber → Fiber
over returned f =
    if returned then record f { cb = none; state = term } else record f { state = except }

-- `MainFunc` and `CallerMainFunc` from the end of the fiber's function on.
pub main_func : Bool → ℕ → Thread → Checked Thread
main_func returned fresh t =
    let (a, t') = get_this fresh t in swap_out at_end a (set_fiber a (over returned (t'.heap a)) t')

pub caller_main_func : Bool → ℕ → Thread → Checked Thread
caller_main_func returned fresh t =
    let (a, t') = get_this fresh t in back at_end a (set_fiber a (over returned (t'.heap a)) t')
