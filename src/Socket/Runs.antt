-- ===== src/Socket/Runs.antt =====
-- Runs of Socket (sylar/socket.cpp): the theorems applied.
use sylar_demo.Common.{ℕ, ◌≡◌, true, false, [], ◌++◌, none, some, arith}
use sylar_demo.FdManager.{FdCtx}
use sylar_demo.Socket.{
  Socket, new_socket, bind, close, connect, set_send_timeout, set_recv_timeout, get_send_timeout,
  get_recv_timeout,
}
use sylar_demo.Socket.Own.{made, binds, closes_it, held, Use-held}
use sylar_demo.Socket.Connect.{Ends, connect_cases}
use sylar_demo.Socket.Timeout.{get_send_timeout-set_send_timeout}

-- Addresses are numbers, of the family 2.
abbrev family_of : ℕ → ℕ
family_of a = 2

abbrev socket : Socket ℕ
socket = new_socket 2 1 0

abbrev bound : Socket ℕ
bound = (bind 2 (some 7) false true (some 80) socket).2

Use-held_example :
    held none ([] ++ (bind 2 (some 7) false true (some 80) socket).0 ++ (close bound).0)
    ≡ some (close bound).2.sock
Use-held_example =
    Use-held family_of ([] ++ (bind 2 (some 7) false true (some 80) socket).0 ++ (close bound).0)
      (close bound).2 (closes_it (binds 2 (some 7) false true (some 80) (made 2 1 0)))

connect_cases_example : Ends 80 2 (some 7) true socket (connect 80 2 (some 7) true none none socket)
connect_cases_example = connect_cases 80 2 (some 7) true none none socket

abbrev context : FdCtx
context = record {
  is_init = true;
  is_socket = true;
  sys_nonblock = true;
  user_nonblock = false;
  is_closed = false;
  fd = 7;
  recv_timeout = 0;
  send_timeout = 0;
}

get_send_timeout-set_send_timeout_example :
    (let ctx = set_recv_timeout true 70 (set_send_timeout true 1500 (some context)) in
      (get_send_timeout ctx ≡ some 1500) × (get_recv_timeout ctx ≡ some 70))
get_send_timeout-set_send_timeout_example =
    get_send_timeout-set_send_timeout context 1500 70 (omega arith) (omega arith)
