-- ===== src/ByteArray/ReadAt.antt =====
-- `ByteArray::read(buf, size, position)` and `toString` (sylar/bytearray.cpp).
use native.Mathlib.Nat.{mod-lt}
use sylar_demo.Common.{
  ℕ, ◌+◌, ◌-◌, ◌/◌, ◌%◌, ◌≤◌, ◌<◌, ◌≡◌, refl, sym, ap, ◌∙◌, List, inl, inr, false, arith, length,
  take, drop, sub64, ltb, ◌==◌, length-take, All-drop, take_all, drop_all, take-append-drop,
  Bool-cases, le→ltb_false, ltb→lt, ltb_false→le, ◌⊎◌, done, thrown,
}
use sylar_demo.ByteArray.{Node, ByteArray, read_loop, end_read_at, read_at, to_string}
use sylar_demo.ByteArray.Chain.{flat, flat-append, Sized}
use sylar_demo.ByteArray.Chain.ReadLoop.{Taken, read_loop-Taken}
use sylar_demo.ByteArray.Walk.{walked}
use sylar_demo.ByteArray.Read.{chain_bytes, within_size, read_chain_start}
use sylar_demo.ByteArray.Valid.{
  IsValid, view, unread, length-flat_split, base-le-capacity, get_read_size_lem, length-unread,
}

-- Wherever the test lets it, `read(buf, n, position)` returns the bytes of the chain.
read_at_chain :
    (n position : ℕ) (b : ByteArray)
    → IsValid b
    → 0 < n
    → position + n ≤ b.capacity
    → ltb (sub64 b.size position) n ≡ false
    → read_at n position b ≡ done (take n (drop position (flat b.nodes))) b
unfolding read_at
read_at_chain n position b v pos fits enough = rw enough (
    ap (end_read_at b) (
      read_chain_start b.base_size npos position n chain chain_sized npos_lt
        (omega (arith, base-le-capacity b v, v.small)) (omega (arith, room))
      ∙ t.returns)
    ∙ ap (λ l. done l b) bytes)
  where
    npos : ℕ
    npos = position % b.base_size

    count : ℕ
    count = position / b.base_size

    chain : List Node
    chain = drop count b.nodes

    place : (count < length b.nodes) × (position ≡ length (flat (take count b.nodes)) + npos)
    place = walked b position v (omega arith)

    npos_lt : npos < b.base_size
    npos_lt = mod-lt position v.base_pos

    chain_sized : Sized b.base_size chain
    chain_sized = All-drop _ count b.nodes v.sized

    room : length (flat chain) + position ≡ b.capacity + npos
    room = omega (arith, length-flat_split count b.nodes, place.1, v.counted)

    t :
        Taken b.base_size npos n position chain
          (read_loop chain npos (b.base_size - npos) position n)
    t =
        read_loop-Taken b.base_size npos position n chain chain_sized npos_lt pos
          (omega (arith, room)) (omega (arith, v.small))

    bytes : take n (drop npos (flat chain)) ≡ take n (drop position (flat b.nodes))
    bytes =
        chain_bytes n position npos (flat (take count b.nodes)) (flat chain) (flat b.nodes)
          (sym (
            sym (flat-append (take count b.nodes) chain)
            ∙ ap flat (take-append-drop count b.nodes)))
          place.1

-- `read(buf, n, position)` for a position of the stream and at least one byte: it leaves the object
-- as it is, throws where the stream is too short, and else returns the stream's bytes from there.
pub read_at_refines :
    (n position : ℕ) (b : ByteArray)
    → IsValid b
    → 0 < n
    → position ≤ b.size
    → ((b.size < position + n) × (read_at n position b ≡ thrown b))
      ⊎ ((position + n ≤ b.size)
          × (read_at n position b ≡ done (take n (drop position (view b).content)) b))
read_at_refines n position b v pos inside =
    let left : sub64 b.size position ≡ b.size - position = omega (arith, v.held, v.small) in
    elim (Bool-cases (ltb (b.size - position) n)) [
      | inl short ↦ inl (omega (arith, ltb→lt _ _ short), unfold read_at in rw (left, short) refl)
      | inr enough ↦
          let fits : position + n ≤ b.size = omega (arith, ltb_false→le _ _ enough) in
          inr (
            fits,
            read_at_chain n position b v pos (omega (arith, v.held)) (rw left enough)
                ∙ ap (λ l. done l b) (within_size n position b.size (flat b.nodes) fits),
          )
    ]

-- Past the size the subtraction wraps and the test never fails: for a position between the size and
-- the capacity the read throws nothing, and returns bytes of the chain that were never written.
pub read_at_past_size :
    (n position : ℕ) (b : ByteArray)
    → IsValid b
    → 0 < n
    → b.size < position
    → position + n ≤ b.capacity
    → read_at n position b ≡ done (take n (drop position (flat b.nodes))) b
read_at_past_size n position b v pos past fits =
    read_at_chain n position b v pos fits
      (le→ltb_false (sub64 b.size position) n (omega (arith, v.small, v.held)))

-- `toString` returns all that is left to read, and moves nothing, on every valid object.
pub to_string_refines : (b : ByteArray) → IsValid b → to_string b ≡ done (unread (view b)) b
unfolding to_string
to_string_refines b v = elim (Bool-cases (b.size - b.position == 0)) [
  | inl empty ↦
      let nothing : b.size ≤ b.position = ground (arith, empty) in
      rw (get_read_size_lem b v, empty)
        (ap (λ l. done l b)
          (sym (
            drop_all b.position (take b.size (flat b.nodes))
              (omega (arith, nothing, length-take b.size (flat b.nodes))))))
  | inr some_left ↦
      rw (get_read_size_lem b v, some_left)
        (whole (
          read_at_refines (b.size - b.position) b.position b v (ground (arith, some_left))
            v.within))
]
  where
    whole :
        ((b.size < b.position + (b.size - b.position))
            × (read_at (b.size - b.position) b.position b ≡ thrown b))
          ⊎ ((b.position + (b.size - b.position) ≤ b.size)
              × (read_at (b.size - b.position) b.position b
                  ≡ done (take (b.size - b.position) (unread (view b))) b))
        → read_at (b.size - b.position) b.position b ≡ done (unread (view b)) b
    whole (inl (short, e)) = absurd (omega (arith, v.within))
    whole (inr (fits, e)) =
        e
        ∙ ap (λ l. done l b)
            (take_all (b.size - b.position) (unread (view b)) (omega (arith, length-unread b v)))
