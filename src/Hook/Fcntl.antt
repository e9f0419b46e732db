-- ===== src/Hook/Fcntl.antt =====
-- The hooks of sylar/hook.cpp that change what is remembered of a descriptor: fcntl, ioctl,
-- setsockopt, socket, accept and close.
--
-- A `FdCtx` is what `FdMgr::get` gives, `none` for a null pointer. An `int` of flags is its 32-bit
-- pattern, and what the system is handed is part of the result.
pub mod Flags
mod Runs
use sylar_demo.Common.{
  ℕ, ◌+◌, ◌-◌, ◌*◌, ◌/◌, ◌%◌, ◌^◌, Bool, true, false, not, ◌&&◌, ◌||◌, List, [], ◌∷◌, Option, none,
  some, ◌==◌, if◌then◌else◌, bit_and, bit_or,
}
use sylar_demo.FdManager.{FdCtx, o_nonblock, so_rcvtimeo, set_timeout}

-- `!ctx || ctx->isClose() || !ctx->isSocket()` is false.
abbrev pub is_managed : FdCtx → Bool
is_managed c = not c.is_closed && c.is_socket

-- `arg | O_NONBLOCK` and `arg & ~O_NONBLOCK`
abbrev pub with_nonblock : Bool → ℕ → ℕ
with_nonblock true arg = bit_or arg o_nonblock
with_nonblock false arg = bit_and arg (2 ^ 32 - 1 - o_nonblock)

-- `fcntl` with F_SETFL: what the system is handed, and the context.
pub set_flags : Option FdCtx → ℕ → ℕ × Option FdCtx
set_flags none arg = (arg, none)
set_flags (some c) arg =
    if is_managed c
    then (
      with_nonblock c.sys_nonblock arg,
      some (record c { user_nonblock = not (bit_and arg o_nonblock == 0) }),
    )
    else (arg, some c)

-- `fcntl` with F_GETFL, where the system returns `arg`.
pub get_flags : Option FdCtx → ℕ → ℕ
get_flags none arg = arg
get_flags (some c) arg = if is_managed c then with_nonblock c.user_nonblock arg else arg

-- `ioctl` with FIONBIO and the number `arg`; the system is handed the call as it is.
pub set_nonblock : Option FdCtx → ℕ → Option FdCtx
set_nonblock none arg = none
set_nonblock (some c) arg =
    if is_managed c then some (record c { user_nonblock = not (arg == 0) }) else some c

-- SOL_SOCKET and SO_SNDTIMEO of the system's headers.
abbrev pub sol_socket : ℕ
sol_socket = 1

abbrev pub so_sndtimeo : ℕ
so_sndtimeo = 21

-- `setsockopt`, of a `timeval` that is not negative; the system is handed the call as it is.
abbrev pub limited : ℕ → ℕ → ℕ → Option FdCtx → Option FdCtx
limited optname sec usec none = none
limited optname sec usec (some c) =
    some (set_timeout optname ((sec * 1000 + usec / 1000) % 2 ^ 64) c)

unfoldable pub set_option : Bool → ℕ → ℕ → ℕ → ℕ → Option FdCtx → Option FdCtx
set_option enabled level optname sec usec ctx =
    if enabled && (level == sol_socket) && ((optname == so_rcvtimeo) || (optname == so_sndtimeo))
    then limited optname sec usec ctx
    else ctx

-- What `close` does, in order: it cancels the events, forgets the descriptor, and closes it.
pub data Closing : Type 0 where
  cancels_all forgets closes : Closing

pub close : Bool → Bool → Bool → List Closing
close false known iom = closes ∷ []
close true false iom = closes ∷ []
close true true false = forgets ∷ closes ∷ []
close true true true = cancels_all ∷ forgets ∷ closes ∷ []

-- Whether `socket` and `accept` make a context for the descriptor that they return, -1 as `none`.
pub registers_socket : Bool → Option ℕ → Option ℕ
registers_socket false fd = none
registers_socket true fd = fd

pub registers_accept : Option ℕ → Option ℕ
registers_accept fd = fd
