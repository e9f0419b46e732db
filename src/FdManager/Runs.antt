-- ===== src/FdManager/Runs.antt =====
-- Runs of `FdManager` (sylar/fd_manager.cpp): tests.
use sylar_demo.Common.{◌≡◌, refl, false, [], ◌∷◌, none, some, fault}
use sylar_demo.FdManager.{FdCtx, FdManager, resize, get, get_slot}

abbrev blank : FdCtx
blank = record {
  is_init = false;
  is_socket = false;
  sys_nonblock = false;
  user_nonblock = false;
  is_closed = false;
  fd = 0;
  recv_timeout = 0;
  send_timeout = 0;
}

-- 64 slots, with a context for descriptor 1.
abbrev table : FdManager
table = record { heap = λ a. blank; datas = none ∷ some 7 ∷ resize 62 [] }

-- Descriptor -1 is in front of the vector.
get_negative : get 9 blank 4294967295 false table ≡ fault
unfolding get get_slot resize
get_negative = refl
