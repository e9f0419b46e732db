-- ===== src/ByteArray/Buffers.antt =====
-- `getReadBuffers` and `getWriteBuffers` of `ByteArray` (sylar/bytearray.cpp).
use sylar_demo.Common.{
  ℕ, ◌+◌, ◌-◌, ◌/◌, ◌%◌, ◌^◌, ◌≤◌, ◌<◌, ◌≡◌, sym, ap, ◌∙◌, List, [], inl, inr, arith, length, take,
  drop, sub64, ltb, ◌==◌, if◌then◌else◌, Bool-cases, ne→==_false, le→ltb_false, done, min,
}
use sylar_demo.ByteArray.{
  ByteArray, IoVec, buffers_from, end_buffers, get_read_buffers, get_read_buffers_at,
  write_buffers_here, get_write_buffers, add_capacity,
}
use sylar_demo.ByteArray.Chain.{flat}
use sylar_demo.ByteArray.Walk.{walked}
use sylar_demo.ByteArray.Read.{within_size}
use sylar_demo.ByteArray.Write.{Roomy-view}
use sylar_demo.ByteArray.Grow.{Roomy, add_capacity-Roomy}
use sylar_demo.ByteArray.Vectors.{gather, claimed, Covers, buffers_from-Covers}
use sylar_demo.ByteArray.Valid.{IsValid, view, unread, get_read_size_lem}

-- `getReadBuffers(buffers, asked)` on a valid object: as many bytes as are asked for and left to
-- read, in vectors whose ranges hold just the next bytes of the stream, and nothing moved.
pub get_read_buffers_lem :
    (asked : ℕ) (b : ByteArray)
    → IsValid b
    → (vectors : List IoVec) × (get_read_buffers asked b
        ≡ done (min asked (b.size - b.position), vectors) b)
      × (gather b.nodes vectors ≡ take (min asked (b.size - b.position)) (unread (view b)))
      × (claimed vectors ≡ min asked (b.size - b.position))
unfolding get_read_buffers
get_read_buffers_lem asked b v =
    rw (get_read_size_lem b v, same)
      (elim (Bool-cases (len == 0)) [
        | inl none ↦
            let zero_len : len ≡ 0 = ground (arith, none) in
            (
              [],
              rw none (ap (λ k. done (k, []) b) (sym zero_len)),
              ap (λ k. take k (unread (view b))) (sym zero_len),
              sym zero_len,
            )
        | inr some_left ↦
            let c =
              buffers_from-Covers b b.cur b.position len v v.aligned (ground (arith, some_left))
                (omega (arith, v.within, v.held)) in
            (
              c.0.vectors,
              rw some_left (ap (end_buffers len b) c.0.returns),
              c.1 ∙ within_size len b.position b.size (flat b.nodes) (omega (arith, v.within)),
              c.0.total,
            )
      ])
  where
    len : ℕ
    len = min asked (b.size - b.position)

    same : (if ltb (b.size - b.position) asked then b.size - b.position else asked) ≡ len
    same = ground arith

-- `getReadBuffers(buffers, asked, position)`: it throws past the size, and otherwise covers the
-- stream's bytes from the position on, as many as are asked for and there.
pub get_read_buffers_at_lem :
    (asked position : ℕ) (b : ByteArray)
    → IsValid b
    → 0 < asked
    → position < b.size
    → (vectors : List IoVec) × (get_read_buffers_at asked position b
        ≡ done (min asked (b.size - position), vectors) b)
      × (gather b.nodes vectors
          ≡ take (min asked (b.size - position)) (drop position (view b).content))
unfolding get_read_buffers_at
get_read_buffers_at_lem asked position b v pos inside = (
  c.0.vectors,
  rw (le→ltb_false b.size position (omega arith), ne→==_false asked 0 (omega arith), left, same)
      (ap (end_buffers len b) c.0.returns),
  c.1 ∙ within_size len position b.size (flat b.nodes) (omega arith),
)
  where
    len : ℕ
    len = min asked (b.size - position)

    left : sub64 b.size position ≡ b.size - position
    left = omega (arith, v.held, v.small)

    same : (if ltb (b.size - position) asked then b.size - position else asked) ≡ len
    same = ground arith

    place :
        (position / b.base_size < length b.nodes)
        × (position
            ≡ length (flat (take (position / b.base_size) b.nodes)) + position % b.base_size)
    place = walked b position v (omega (arith, v.held))

    c :
        (c : Covers b.nodes (position % b.base_size) len (drop (position / b.base_size) b.nodes) (
          buffers_from
            (drop (position / b.base_size) b.nodes)
            (position / b.base_size)
            (position % b.base_size)
            len))
        × (gather b.nodes c.vectors ≡ take len (drop position (flat b.nodes)))
    c =
        buffers_from-Covers b (position / b.base_size) position len v place.1 (omega arith)
          (omega (arith, v.held))

-- `getWriteBuffers(buffers, len)` on a valid object makes room first. The object stays valid and
-- its stream the same, and the ranges are the `len` bytes of memory behind the position.
-- Position, `len` and a node more stay within 64 bits, and `len` is not 0.
pub get_write_buffers_lem :
    (len : ℕ) (b : ByteArray)
    → IsValid b
    → 0 < len
    → b.position + len + b.base_size ≤ 2 ^ 64
    → (vectors : List IoVec) × (after : ByteArray) × (get_write_buffers len b
        ≡ done (len, vectors) after)
      × IsValid after
      × (view after ≡ view b)
      × (gather after.nodes vectors ≡ take len (drop b.position (flat after.nodes)))
      × (claimed vectors ≡ len)
unfolding get_write_buffers write_buffers_here
get_write_buffers_lem len b v pos small = (
  c.0.vectors,
  grown,
  rw (ne→==_false len 0 (omega arith)) (ap (end_buffers len grown) c.0.returns),
  r.valid,
  Roomy-view len b grown v r,
  c.1 ∙ ap (λ k. take len (drop k (flat grown.nodes))) r.same_position,
  c.0.total,
)
  where
    grown : ByteArray
    grown = add_capacity len b

    r : Roomy len b grown
    r = add_capacity-Roomy len b v small

    c :
        (c : Covers grown.nodes
          (grown.position % grown.base_size)
          len
          (drop grown.cur grown.nodes)
          (buffers_from
            (drop grown.cur grown.nodes)
            grown.cur
            (grown.position % grown.base_size)
            len))
        × (gather grown.nodes c.vectors ≡ take len (drop grown.position (flat grown.nodes)))
    c =
        buffers_from-Covers grown grown.cur grown.position len r.valid r.valid.aligned pos
          (omega (arith, r.room, r.same_position))
