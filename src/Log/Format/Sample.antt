-- ===== src/Log/Format/Sample.antt =====
-- An event and a library for the tests of the logger (sylar/log.cpp).
use sylar_demo.Common.{[], ◌∷◌}
use sylar_demo.Log.Format.{LogEvent, Library}

abbrev pub lib : Library
lib = record { decimal = λ n. n ∷ []; date = λ fmt t. fmt }

abbrev pub event : LogEvent
event = record {
  content = b'h' ∷ b'i' ∷ [];
  elapse = 0;
  logger = b'x' ∷ [];
  thread_id = 1;
  fiber_id = 2;
  thread_name = [];
  time = 9;
  file = [];
  line = 3;
}
