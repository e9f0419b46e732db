-- ===== src/Hook/Fcntl/Runs.antt =====
-- Runs of the hooks of flags (sylar/hook.cpp): the theorem applied.
use sylar_demo.Common.{◌+◌, ◌≡◌, refl, true, false, some, arith}
use sylar_demo.FdManager.{FdCtx}
use sylar_demo.Hook.Fcntl.{set_flags, get_flags}
use sylar_demo.Hook.Fcntl.Flags.{IsWith, flag_of, others_of, get_flags-set_flags}

-- A socket that sylar has made non-blocking.
abbrev context : FdCtx
context = record {
  is_init = true;
  is_socket = true;
  sys_nonblock = true;
  user_nonblock = true;
  is_closed = false;
  fd = 5;
  recv_timeout = 0;
  send_timeout = 0;
}

get_flags-set_flags_example :
    (let (handed, ctx) = set_flags (some context) 2 in
      IsWith true 2 handed
      × (flag_of (get_flags ctx (2048 + 2)) ≡ flag_of 2)
      × (others_of (get_flags ctx (2048 + 2)) ≡ others_of (2048 + 2)))
get_flags-set_flags_example =
    get_flags-set_flags context 2 (2048 + 2) refl (omega arith) (omega arith)
