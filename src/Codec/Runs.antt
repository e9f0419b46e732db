-- ===== src/Codec/Runs.antt =====
-- Runs of the integers and strings of `ByteArray` (sylar/bytearray.cpp): tests, and the theorems
-- applied.
use sylar_demo.Common.{ℕ, ◌≤◌, ◌≡◌, refl, List, [], ◌∷◌, arith, ◌>>◌, length, some}
use sylar_demo.Endian.{big, little, to_memory}
use sylar_demo.ByteArray.{ByteArray, set_position}
use sylar_demo.ByteArray.Valid.{IsValid}
use sylar_demo.Codec.{
  encode_zigzag32, decode_zigzag32, fill_tmp, write_uint64, read_uint64, write_fixed, read_fixed,
}
use sylar_demo.Codec.RoundTrip.{ReadsBack, fixed_round_trip}
use sylar_demo.Codec.Integers.{uint64_round_trip}

abbrev zeros : ℕ → ℕ
zeros n = 0

-- An object of nodes of 3 bytes, so that most values lie in two nodes.
abbrev narrow : ByteArray
narrow = record {
  base_size = 3;
  position = 1;
  capacity = 3;
  size = 2;
  endian = big;
  nodes = (9 ∷ 9 ∷ 0 ∷ []) ∷ [];
  cur = 0;
  fresh = zeros;
}

narrow-IsValid : IsValid narrow
narrow-IsValid = record {
  base_pos = omega arith;
  sized = (refl, tt);
  rooted = omega arith;
  counted = refl;
  small = omega arith;
  within = omega arith;
  held = omega arith;
  aligned = refl;
  cur_in = omega arith;
}

abbrev hello : List ℕ
hello = 104 ∷ 101 ∷ 108 ∷ 108 ∷ 111 ∷ []

-- -1, 1 and -2 have the codes 1, 2 and 3.
zigzag_run :
    (encode_zigzag32 4294967295 ≡ 1)
    × (encode_zigzag32 1 ≡ 2)
    × (encode_zigzag32 4294967294 ≡ 3)
    × (decode_zigzag32 3 ≡ 4294967294)
unfolding encode_zigzag32 decode_zigzag32
zigzag_run = (refl, refl, refl, refl)

-- 300 is written as 0xAC 0x02, and five slots hold the greatest number of 32 bits.
fill_tmp_run :
    (fill_tmp 5 300 ≡ some (172 ∷ 2 ∷ []))
    × (fill_tmp 5 4294967295 ≡ some (255 ∷ 255 ∷ 255 ∷ 255 ∷ 15 ∷ []))
unfolding fill_tmp
fill_tmp_run = (refl, refl)

uint64_round_trip_example :
    (bytes : List ℕ) × (length bytes ≤ 10)
    × ReadsBack 70000 bytes narrow
        ((write_uint64 70000 >> set_position narrow.position >> read_uint64) narrow)
uint64_round_trip_example =
    uint64_round_trip 70000 narrow narrow-IsValid (omega arith) (omega arith)

-- A four-byte integer of a big-endian object on a little-endian machine.
fixed_round_trip_example :
    ReadsBack 305419896 (to_memory narrow.endian 4 305419896) narrow (
      (write_fixed little 4 305419896 >> set_position narrow.position >> read_fixed little 4)
        narrow)
fixed_round_trip_example =
    fixed_round_trip little 4 305419896 narrow narrow-IsValid (omega arith) (omega arith)
      (omega arith)
