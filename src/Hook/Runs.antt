-- ===== src/Hook/Runs.antt =====
-- Runs of the hooks (sylar/hook.cpp): tests, and the theorems applied.
use sylar_demo.Common.{◌+◌, ◌-◌, ◌^◌, ◌≡◌, inl, refl, true, false, [], ◌∷◌, ◌++◌, some}
use sylar_demo.FdManager.{FdCtx, get_timeout}
use sylar_demo.Hook.{
  other, value, failed, eagain, etimedout, calls, adds_timer, adds_event, yields, cancels_timer,
  Attempt, retry, wait, do_io, nanosleep_ms,
}
use sylar_demo.Hook.Io.{added, cancelled, outcome, do_io_timers, do_io_returns}

-- A socket with a timeout of 50 ms for what it sends.
abbrev socket : FdCtx
socket = record {
  is_init = true;
  is_socket = true;
  sys_nonblock = true;
  user_nonblock = false;
  is_closed = false;
  fd = 5;
  recv_timeout = 2 ^ 64 - 1;
  send_timeout = 50;
}

-- A call that is interrupted once, would block, and waits; one that returns 9; one whose time is up.
abbrev waits : Attempt
waits = record {
  interrupts = 1;
  answer = failed eagain;
  added = true;
  add_errno = other 0;
  expired = false;
}

abbrev nine : Attempt
nine = record waits { interrupts = 0; answer = value 9 }

abbrev late : Attempt
late = record waits { expired = true }

do_io_run :
    (do_io true (some socket) 21 (value 0) (waits ∷ nine ∷ []) ≡ (
      some (value 9),
      calls ∷ calls ∷ adds_timer 50 ∷ adds_event ∷ yields ∷ cancels_timer ∷ calls ∷ [],
    ))
    × ((do_io true (some socket) 21 (value 0) (late ∷ nine ∷ [])).0 ≡ some (failed etimedout))
unfolding do_io retry wait get_timeout
do_io_run = (refl, refl)

-- A time of a month is negative as an `int`.
nanosleep_ms_run : nanosleep_ms 2592000 0 ≡ 2592000000 + (2 ^ 64 - 2 ^ 32)
unfolding nanosleep_ms
nanosleep_ms_run = refl

do_io_timers_example :
    added (do_io true (some socket) 21 (value 0) (waits ∷ late ∷ [])).1
    ≡ cancelled (do_io true (some socket) 21 (value 0) (waits ∷ late ∷ [])).1
do_io_timers_example = do_io_timers true (some socket) 21 (value 0) (waits ∷ late ∷ [])

do_io_returns_example :
    (do_io true (some socket) 21 (value 0) ((waits ∷ []) ++ (nine ∷ []))).0 ≡ some (outcome nine)
do_io_returns_example =
    do_io_returns socket 21 (value 0) (waits ∷ []) nine [] (refl, refl, refl)
      ((refl, refl, refl), tt) (inl refl)
