-- ===== src/Hook.antt =====
-- sylar/hook.cpp: the system calls that a fiber makes in place of those of the C library.
--
-- The original functions, the kernel and the I/O manager are arguments: an `Attempt` is what they
-- answer in one pass from the label `retry`. What the hook asks of them is a list of effects, in
-- order. A list of attempts that is used up leaves the fiber waiting.
pub mod Io
pub mod Sleep
pub mod Fcntl
mod Runs
use sylar_demo.Common.{
  ℕ, zero, suc, ◌+◌, ◌-◌, ◌*◌, ◌/◌, ◌%◌, ◌^◌, Bool, true, false, not, ◌&&◌, ◌||◌, List, [], ◌∷◌,
  ◌++◌, Option, none, some, replicate, u32, ltb, ◌==◌, if◌then◌else◌,
}
use sylar_demo.FdManager.{FdCtx, get_timeout}

-- The errno values that the hook sets or tests.
pub data Errno : Type 0 where
  eagain ebadf etimedout : Errno
  other : ℕ → Errno

-- What a call returns: a number that is not -1, or -1 with errno. EINTR is counted apart.
pub data Answer : Type 0 where
  value : ℕ → Answer
  failed : Errno → Answer

pub data Effect : Type 0 where
  calls : Effect
  adds_timer : ℕ → Effect
  adds_event : Effect
  yields : Effect
  cancels_timer : Effect

-- One pass: how often the call is interrupted, its answer then, whether addEvent returns 0 and what
-- errno is if it does not, and whether the timer's callback has set `cancelled` at the wake-up.
pub record Attempt : Type 0 where
  pub interrupts : ℕ
  pub answer : Answer
  pub added : Bool
  pub add_errno : Errno
  pub expired : Bool

-- What `do_io` has returned, if it has, and its effects.
abbrev pub Result : Type 0
Result = Option Answer × List Effect

abbrev pub prepend : List Effect → Result → Result
prepend l r = (r.0, l ++ r.1)

-- The timeout is -1 for none.
abbrev pub has_limit : ℕ → Bool
has_limit limit = not (limit == 2 ^ 64 - 1)

abbrev pub if_limit : ℕ → Effect → List Effect
if_limit limit effect = if has_limit limit then effect ∷ [] else []

abbrev pub is_eagain : Answer → Bool
is_eagain (failed eagain) = true
is_eagain _ = false

-- The wait in a pass where the call has failed with EAGAIN; `rest` is what comes of `goto retry`.
pub wait : ℕ → Attempt → Result → Result
wait limit a rest = prepend (if_limit limit (adds_timer limit) ++ (adds_event ∷ [])) (
    if not a.added
    then (some (failed a.add_errno), if_limit limit cancels_timer)
    else prepend (yields ∷ if_limit limit cancels_timer)
        (if a.expired && has_limit limit then (some (failed etimedout), []) else rest))

pub retry : ℕ → List Attempt → Result
unfolding wait
retry limit [] = (none, [])
retry limit (a ∷ rest) =
    let later = retry limit rest in
    prepend (replicate (suc a.interrupts) calls)
      (if is_eagain a.answer then wait limit a later else (some a.answer, []))

-- The call handed on as it is.
abbrev pub handed_on : Answer → Result
handed_on answer = (some answer, calls ∷ [])

-- `do_io` with a context, by what it tests; `tried` is what comes of the code from `retry` on.
abbrev pub choose : Bool → Bool → Bool → Answer → Result → Result
choose enabled is_closed passes direct tried =
    if not enabled
    then handed_on direct
    else if is_closed
    then (some (failed ebadf), [])
    else if passes
    then handed_on direct
    else tried

-- `do_io`: `direct` is what the original function answers where the call is handed on.
pub do_io : Bool → Option FdCtx → ℕ → Answer → List Attempt → Result
unfolding retry
do_io enabled none timeout_so direct attempts = handed_on direct
do_io enabled (some ctx) timeout_so direct attempts =
    choose enabled ctx.is_closed (not ctx.is_socket || ctx.user_nonblock) direct
      (retry (get_timeout timeout_so ctx) attempts)

-- `connect_with_timeout`: `direct` is what connect answers, with its errno, `attempt` what the wait
-- comes to, and `so_error` what getsockopt returns, or its errno.
pub data Connected : Type 0 where
  connected : Connected
  refused : Errno → Connected

abbrev pub einprogress : ℕ
einprogress = 115

abbrev pub is_einprogress : Answer → Bool
is_einprogress (failed (other e)) = e == einprogress
is_einprogress _ = false

abbrev pub as_answer : Connected → Answer
as_answer connected = value 0
as_answer (refused e) = failed e

pub connect_wait : ℕ → Attempt → Connected → Result
connect_wait limit a so_error = prepend (if_limit limit (adds_timer limit) ++ (adds_event ∷ [])) (
    if not a.added
    then (some (as_answer so_error), if_limit limit cancels_timer)
    else prepend (yields ∷ if_limit limit cancels_timer) (
        if a.expired && has_limit limit
        then (some (failed etimedout), [])
        else (some (as_answer so_error), [])))

abbrev pub connect_tried : ℕ → Answer → Attempt → Connected → Result
unfolding connect_wait
connect_tried limit direct a so_error =
    prepend (calls ∷ [])
      (if is_einprogress direct then connect_wait limit a so_error else (some direct, []))

pub connect_with_timeout : Bool → Option FdCtx → ℕ → Answer → Attempt → Connected → Result
unfolding connect_wait
connect_with_timeout enabled none limit direct a so_error =
    if not enabled then handed_on direct else (some (failed ebadf), [])
connect_with_timeout enabled (some ctx) limit direct a so_error =
    choose enabled ctx.is_closed (not ctx.is_socket || ctx.user_nonblock) direct
      (connect_tried limit direct a so_error)

-- `sleep`, `usleep` and `nanosleep` with the hook on: the timeout of the timer that schedules the
-- fiber again, in ms. The arguments are an unsigned int, a useconds_t, and a time_t with a long.
pub sleep_ms : ℕ → ℕ
sleep_ms seconds = u32 (seconds * 1000)

pub usleep_ms : ℕ → ℕ
usleep_ms usec = usec / 1000

-- An `int` as a uint64_t.
abbrev pub widened : ℕ → ℕ
widened i = if ltb i (2 ^ 31) then i else i + (2 ^ 64 - 2 ^ 32)

pub nanosleep_ms : ℕ → ℕ → ℕ
nanosleep_ms sec nsec = widened (u32 (sec * 1000 + nsec / 1000 / 1000))
