-- ===== src/Socket/Timeout.antt =====
-- The timeouts of a Socket (sylar/socket.cpp), through the hook of setsockopt (sylar/hook.cpp) and the
-- context of the descriptor (sylar/fd_manager.cpp).
use sylar_demo.Common.{ℕ, ◌+◌, ◌*◌, ◌/◌, ◌%◌, ◌^◌, ◌<◌, ◌≡◌, ap, true, some, arith}
use sylar_demo.FdManager.{FdCtx, set_timeout, get_timeout}
use sylar_demo.Hook.Fcntl.{set_option}
use sylar_demo.Socket.{set_send_timeout, set_recv_timeout, get_send_timeout, get_recv_timeout}

-- A timeout comes through the seconds and microseconds of a `timeval`.
through :
    (v : ℕ) → v < 2 ^ 31 * 1000 → (v / 1000 % 2 ^ 32 * 1000 + v % 1000 * 1000 / 1000) % 2 ^ 64 ≡ v
through v h = omega arith

-- With the hooks on, the timeouts of less than 2^31 seconds that are set for a descriptor that is
-- remembered are those that it has afterwards; the two are independent.
pub get_send_timeout-set_send_timeout :
    (c : FdCtx) (v w : ℕ)
    → v < 2 ^ 31 * 1000
    → w < 2 ^ 31 * 1000
    → (let ctx = set_recv_timeout true w (set_send_timeout true v (some c)) in
        (get_send_timeout ctx ≡ some v) × (get_recv_timeout ctx ≡ some w))
unfolding set_send_timeout set_recv_timeout get_send_timeout get_recv_timeout set_option get_timeout
    set_timeout
get_send_timeout-set_send_timeout c v w h k =
    (ap (λ t. some t) (through v h), ap (λ t. some t) (through w k))
