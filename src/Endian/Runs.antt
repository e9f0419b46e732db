-- ===== src/Endian/Runs.antt =====
-- Runs of the conversions of sylar/endian.h: tests.
use sylar_demo.Common.{◌≡◌, refl}
use sylar_demo.Endian.{byteswap}

-- bswap_32(0x01020304) = 0x04030201
byteswap_run : byteswap 4 16909060 ≡ 67305985
unfolding byteswap
byteswap_run = refl
