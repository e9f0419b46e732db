-- ===== src/ByteArray/Write.antt =====
-- `ByteArray::write` (sylar/bytearray.cpp): it writes the stream.
use sylar_demo.Common.{
  ℕ, ◌+◌, ◌-◌, ◌%◌, ◌^◌, ◌≤◌, ◌<◌, ◌≡◌, refl, sym, ap, ap₂, ◌∙◌, List, [], ◌∷◌, ◌++◌, inl, inr,
  arith, length, take, drop, sub64, ltb, if◌then◌else◌, length-append, length-take, length-drop,
  All-append, All-take, All-drop, drop_all, take-take, drop-take, take-append-drop, take-append_le,
  take-append_add, Bool-cases, ne→==_false, Step, done,
}
use sylar_demo.ByteArray.{
  Node, ByteArray, next_size, write_loop, end_write, write_here, write, add_capacity,
}
use sylar_demo.ByteArray.Chain.{
  flat, flat-append, Sized, splice, length-splice, splice-append_add, next_size_lem,
}
use sylar_demo.ByteArray.Chain.WriteLoop.{Written, write_loop-Written}
use sylar_demo.ByteArray.Valid.{
  IsValid, view, write_stream, aligned_by, same_prefix, npos-lt, rest_room, base-le-capacity,
}
use sylar_demo.ByteArray.Grow.{Roomy, add_capacity-Roomy}

-- What is kept of the old bytes behind a write, when only the first `m` bytes count.
take-drop_past :
    (at n m : ℕ) (xs : List ℕ)
    → m ≡ (if ltb n at then at else n)
    → take (m - at) (drop at xs) ≡ drop at (take n xs)
take-drop_past at n m xs e = elim (Bool-cases (ltb n at)) [
  | inl past ↦
      let none_left : m - at ≡ 0 = ground (arith, e, past) in
      ap (λ k. take k (drop at xs)) none_left
      ∙ sym (drop_all at (take n xs) (ground (arith, past, length-take n xs)))
  | inr inside ↦ sym (drop-take at (m - at) n xs (ground (arith, e, inside)))
]

-- A write keeps to the stream: it is the splice there too.
take-splice :
    (at n m : ℕ) (bytes xs : List ℕ)
    → at ≤ n
    → at + length bytes ≤ length xs
    → m ≡ (if ltb n (at + length bytes) then at + length bytes else n)
    → take m (splice at bytes xs) ≡ splice at bytes (take n xs)
take-splice at n m bytes xs h fits e =
    take-append_add (take at xs) (bytes ++ drop (at + length bytes) xs) (m - at) m
      (ground (arith, e, length-take at xs))
    ∙ ap₂ ◌++◌ (sym (take-take at n xs h)) (
        take-append_add bytes (drop (at + length bytes) xs) (m - (at + length bytes)) (m - at)
          (ground (arith, e))
        ∙ ap (λ l. bytes ++ l) (take-drop_past (at + length bytes) n m xs e))

-- What `write` does on a valid object with room, as the stream sees it.
pub record Wrote (bytes : List ℕ) (b : ByteArray) (result : Step ByteArray (Unit {0}))
    : Type 0 where
  pub after : ByteArray
  pub returns : result ≡ done tt after
  pub valid : IsValid after
  pub viewed : view after ≡ write_stream bytes (view b)
  pub same_base : after.base_size ≡ b.base_size
  pub same_endian : after.endian ≡ b.endian

-- The object after the loop.
abbrev written : ByteArray → List ℕ → List Node → ℕ → ByteArray
written b bytes chain' passed = record b {
  nodes = take b.cur b.nodes ++ chain';
  cur = b.cur + passed;
  position = b.position + length bytes;
  size = if ltb b.size (b.position + length bytes) then b.position + length bytes else b.size;
}

module _ (bytes : List ℕ) (b : ByteArray) (v : IsValid b)
    (w : Written b.base_size (b.position % b.base_size) bytes b.position (drop b.cur b.nodes) (
      write_loop
        (drop b.cur b.nodes)
        (b.position % b.base_size)
        (b.base_size - b.position % b.base_size)
        b.position
        bytes))
    (fits : b.position + length bytes ≤ b.capacity) where
  abbrev after : ByteArray
  after = written b bytes w.chain' w.passed

  front-Sized : Sized b.base_size (take b.cur b.nodes)
  front-Sized = All-take _ b.cur b.nodes v.sized

  back-Sized : Sized b.base_size (drop b.cur b.nodes)
  back-Sized = All-drop _ b.cur b.nodes v.sized

  front_count : length (take b.cur b.nodes) ≡ b.cur
  front_count = omega (arith, length-take b.cur b.nodes, v.cur_in)

  written-flat : flat after.nodes ≡ splice b.position bytes (flat b.nodes)
  written-flat =
      flat-append (take b.cur b.nodes) w.chain'
      ∙ ap (λ l. flat (take b.cur b.nodes) ++ l) w.spliced
      ∙ sym (
          splice-append_add (flat (take b.cur b.nodes)) (flat (drop b.cur b.nodes)) bytes
            (b.position % b.base_size) b.position v.aligned)
      ∙ ap (splice b.position bytes) (
          sym (flat-append (take b.cur b.nodes) (drop b.cur b.nodes))
          ∙ ap flat (take-append-drop b.cur b.nodes))

  -- The pointer stands where the new position says.
  written-pointer : after.position ≡ length (flat (take after.cur after.nodes)) + w.offset
  written-pointer =
      let cut : take after.cur after.nodes ≡ take b.cur b.nodes ++ take w.passed w.chain' =
        take-append_add (take b.cur b.nodes) w.chain' w.passed after.cur
          (omega (arith, front_count)) in
      omega (
        arith,
        ap (λ l. length (flat l)) cut,
        ap length (flat-append (take b.cur b.nodes) (take w.passed w.chain')),
        length-append (flat (take b.cur b.nodes)) (flat (take w.passed w.chain')),
        same_prefix b.base_size w.passed w.chain' (drop b.cur b.nodes) w.sized back-Sized
            w.same_count,
        w.pointer,
        v.aligned,
      )

  new-Sized : Sized b.base_size after.nodes
  new-Sized = All-append _ (take b.cur b.nodes) w.chain' front-Sized w.sized

  new_count : length after.nodes ≡ length b.nodes
  new_count = omega (
    arith,
    length-append (take b.cur b.nodes) w.chain',
    w.same_count,
    front_count,
    length-drop b.cur b.nodes,
    v.cur_in,
  )

  written-IsValid : IsValid after
  written-IsValid = record {
    base_pos = v.base_pos;
    sized = new-Sized;
    rooted = omega (arith, new_count, v.rooted);
    counted = sym (
        ap length written-flat
        ∙ length-splice b.position bytes (flat b.nodes) (omega (arith, v.counted))
        ∙ sym v.counted);
    small = v.small;
    within = ground arith;
    held = ground (arith, v.held);
    aligned =
        aligned_by b.base_size after.position w.offset (take after.cur after.nodes)
          (All-take _ after.cur after.nodes new-Sized) w.in_node written-pointer;
    cur_in = omega (arith, new_count, w.in_chain, length-drop b.cur b.nodes, v.cur_in);
  }

  written-view : view after ≡ write_stream bytes (view b)
  unfolding write_stream
  written-view =
      ap (λ l. record { content = l; at = b.position + length bytes })
        (ap (take after.size) written-flat
          ∙ take-splice b.position b.size after.size bytes (flat b.nodes) v.within
              (omega (arith, v.counted)) refl)

write_here-Wrote :
    (bytes : List ℕ) (b : ByteArray)
    → IsValid b
    → 0 < length bytes
    → b.position + length bytes ≤ b.capacity
    → Wrote bytes b (write_here bytes b)
unfolding write_here
write_here-Wrote bytes b v pos fits = record {
  after = written b bytes w.chain' w.passed;
  returns =
      ap (λ k. end_write b (write_loop chain npos k b.position bytes)) size
      ∙ ap (end_write b) w.returns;
  valid = written-IsValid bytes b v w fits;
  viewed = written-view bytes b v w fits;
  same_base = refl;
  same_endian = refl;
}
  where
    chain : List Node
    chain = drop b.cur b.nodes

    npos : ℕ
    npos = b.position % b.base_size

    w :
        Written b.base_size npos bytes b.position chain
          (write_loop chain npos (b.base_size - npos) b.position bytes)
    w =
        write_loop-Written b.base_size npos b.position chain bytes
          (All-drop _ b.cur b.nodes v.sized) (npos-lt b v) pos (omega (arith, rest_room b v))
          (omega (arith, v.small))

    size : sub64 (next_size chain) npos ≡ b.base_size - npos
    size = omega (
      arith,
      next_size_lem b.base_size chain (All-drop _ b.cur b.nodes v.sized)
          (omega (arith, rest_room b v)),
      npos-lt b v,
      base-le-capacity b v,
      v.small,
    )

splice_nothing : (at : ℕ) (xs : List ℕ) → splice at [] xs ≡ xs
splice_nothing at xs = ap (λ k. take at xs ++ drop k xs) (omega arith) ∙ take-append-drop at xs

-- Making room changes nothing of the stream.
pub Roomy-view : (n : ℕ) (b b' : ByteArray) → IsValid b → Roomy n b b' → view b' ≡ view b
Roomy-view n b b' v r =
    ap₂ (λ l k. record { content = l; at = k })
      (ap₂ take r.same_size r.content
        ∙ take-append_le b.size (flat b.nodes) r.extra (omega (arith, v.held, v.counted)))
      r.same_position

-- `write` on a valid object, where position, length and a node more stay within 64 bits, writes the
-- bytes into the stream at its position, wherever the nodes end, and does not fault.
pub write-Wrote :
    (bytes : List ℕ) (b : ByteArray)
    → IsValid b
    → b.position + length bytes + b.base_size ≤ 2 ^ 64
    → Wrote bytes b (write bytes b)
unfolding write write_stream
write-Wrote [] b v small = record {
  after = b;
  returns = refl;
  valid = v;
  viewed =
      ap₂ (λ l k. record { content = l; at = k })
        (sym (splice_nothing b.position (take b.size (flat b.nodes)))) (omega arith);
  same_base = refl;
  same_endian = refl;
}
write-Wrote (x ∷ xs) b v small = record {
  after = w.after;
  returns = rw (ne→==_false (length (x ∷ xs)) 0 (omega arith)) w.returns;
  valid = w.valid;
  viewed = w.viewed ∙ ap (write_stream (x ∷ xs)) (Roomy-view n b grown v r);
  same_base = w.same_base ∙ r.same_base;
  same_endian = w.same_endian ∙ r.same_endian;
}
  where
    n : ℕ
    n = length (x ∷ xs)

    grown : ByteArray
    grown = add_capacity n b

    r : Roomy n b grown
    r = add_capacity-Roomy n b v small

    w : Wrote (x ∷ xs) grown (write_here (x ∷ xs) grown)
    w =
        write_here-Wrote (x ∷ xs) grown r.valid (omega arith)
          (omega (arith, r.room, r.same_position))
