-- ===== src/ByteArray/Runs.antt =====
-- Runs of `ByteArray` (sylar/bytearray.cpp) on concrete objects: tests, and the theorems applied.
use sylar_demo.Common.{ℕ, ◌≡◌, refl, List, [], ◌∷◌, arith, done, thrown, ◌⊎◌, ◌>>◌, none, some}
use sylar_demo.Endian.{big}
use sylar_demo.ByteArray.{
  ByteArray, init, new_node, grow_by, append_nodes, get_capacity, get_read_size, store, load, seek,
  write_loop, read_chain, write, read, read_at, set_position, to_string, add_capacity,
}
use sylar_demo.ByteArray.Valid.{IsValid, view, read_stream}
use sylar_demo.ByteArray.Grow.{Roomy, add_capacity-Roomy}
use sylar_demo.ByteArray.Write.{Wrote, write-Wrote}
use sylar_demo.ByteArray.Read.{read_refines}

abbrev zeros : ℕ → ℕ
zeros n = 0

-- Two nodes of 4 bytes, 6 bytes written, 3 of them read.
abbrev two_nodes : ByteArray
two_nodes = record {
  base_size = 4;
  position = 3;
  capacity = 8;
  size = 6;
  endian = big;
  nodes = (1 ∷ 2 ∷ 3 ∷ 4 ∷ []) ∷ (5 ∷ 6 ∷ 0 ∷ 0 ∷ []) ∷ [];
  cur = 0;
  fresh = zeros;
}

two_nodes-IsValid : IsValid two_nodes
two_nodes-IsValid = record {
  base_pos = omega arith;
  sized = (refl, (refl, tt));
  rooted = omega arith;
  counted = refl;
  small = omega arith;
  within = omega arith;
  held = omega arith;
  aligned = refl;
  cur_in = omega arith;
}

-- A write of 6 bytes into a new object of nodes of 4 bytes.
write_run :
    write (1 ∷ 2 ∷ 3 ∷ 4 ∷ 5 ∷ 6 ∷ []) (init 4 zeros)
    ≡ done tt (record two_nodes { position = 6; cur = 1 })
unfolding write init new_node add_capacity get_capacity grow_by append_nodes write_loop store
write_run = refl

set_position_run :
    (write (1 ∷ 2 ∷ 3 ∷ 4 ∷ 5 ∷ 6 ∷ []) >> set_position 3) (init 4 zeros) ≡ done tt two_nodes
unfolding write init new_node add_capacity get_capacity grow_by append_nodes write_loop store
    set_position seek
set_position_run = refl

read_run : read 3 two_nodes ≡ done (4 ∷ 5 ∷ 6 ∷ []) (record two_nodes { position = 6; cur = 1 })
unfolding read get_read_size read_chain load
read_run = refl

read_too_much : read 4 two_nodes ≡ thrown two_nodes
unfolding read get_read_size
read_too_much = refl

to_string_run : to_string two_nodes ≡ done (4 ∷ 5 ∷ 6 ∷ []) two_nodes
unfolding to_string get_read_size read_at read_chain load
to_string_run = refl

write-Wrote_example :
    Wrote
      (7 ∷ 8 ∷ 9 ∷ 10 ∷ 11 ∷ 12 ∷ [])
      two_nodes
      (write (7 ∷ 8 ∷ 9 ∷ 10 ∷ 11 ∷ 12 ∷ []) two_nodes)
write-Wrote_example =
    write-Wrote (7 ∷ 8 ∷ 9 ∷ 10 ∷ 11 ∷ 12 ∷ []) two_nodes two_nodes-IsValid (omega arith)

read_refines_example :
    ((read_stream 3 (view two_nodes) ≡ none) × (read 3 two_nodes ≡ thrown two_nodes))
    ⊎ ((bytes : List ℕ) × (after : ByteArray) × (read_stream 3 (view two_nodes)
          ≡ some (bytes, view after))
        × (read 3 two_nodes ≡ done bytes after)
        × IsValid after)
read_refines_example = read_refines 3 two_nodes two_nodes-IsValid (omega arith)

add_capacity-Roomy_example : Roomy 20 two_nodes (add_capacity 20 two_nodes)
add_capacity-Roomy_example = add_capacity-Roomy 20 two_nodes two_nodes-IsValid (omega arith)
