-- ===== src/ByteArray/Position.antt =====
-- The constructor, `setPosition`, `clear` and the byte order of `ByteArray` (sylar/bytearray.cpp).
use native.Mathlib.Nat.{zero-mod}
use sylar_demo.Common.{
  ℕ, ◌+◌, ◌-◌, ◌^◌, ◌≤◌, ◌<◌, ◌≡◌, refl, sym, ap, ap₂, ◌∙◌, ◌⊎◌, List, [], ◌∷◌, inl, inr, false,
  arith, length, take, ltb, leb, if◌then◌else◌, length-append, All-take, Bool-cases, le→ltb_false,
  ltb→lt, ltb_false→le, le→leb, leb→le, leb_false→lt, Step, done, thrown, fault, none, some,
}
use sylar_demo.ByteArray.{
  Node, ByteArray, new_node, init, seek, end_seek, set_position, clear, is_little_endian,
}
use sylar_demo.ByteArray.Chain.{flat, Sized, length-flat_next}
use sylar_demo.ByteArray.Grow.{length-new_node}
use sylar_demo.ByteArray.Valid.{IsValid, view, aligned_by, base-le-capacity}

-- A new object is valid, empty and in network order.
pub init-IsValid :
    (base : ℕ) (fresh : ℕ → ℕ)
    → 0 < base
    → base < 2 ^ 64
    → IsValid (init base fresh)
      × (view (init base fresh) ≡ record { content = []; at = 0 })
      × (is_little_endian (init base fresh) ≡ false)
unfolding init is_little_endian
init-IsValid base fresh pos small = (
  record {
    base_pos = pos;
    sized = (length-new_node fresh 0 base, tt);
    rooted = omega arith;
    counted = omega (arith, length-append (new_node fresh 0 base) [], length-new_node fresh 0 base);
    small = small;
    within = omega arith;
    held = omega arith;
    aligned = omega (arith, zero-mod base);
    cur_in = omega arith;
  },
  refl,
  refl,
)

-- Where the loop of `setPosition` ends, if it does.
record Sought (base v : ℕ) (chain : List Node) : Type 0 where
  passed : ℕ
  offset : ℕ
  returns : seek chain v ≡ some passed
  pointer : v ≡ length (flat (take passed chain)) + offset
  in_node : offset < base
  in_chain : passed ≤ length chain

next-Sought :
    (base v : ℕ) (node : Node) (rest : List Node)
    → Sized base (node ∷ rest)
    → length node ≤ v
    → Sought base (v - length node) rest
    → Sought base v (node ∷ rest)
next-Sought base v node rest s over later = record {
  passed = later.passed + 1;
  offset = later.offset;
  returns = unfold seek in rw (le→leb (length node) v over, later.returns) refl;
  pointer = omega (arith, later.pointer, length-flat_next node rest later.passed);
  in_node = later.in_node;
  in_chain = omega (arith, later.in_chain);
}

seek-Sought :
    (base v : ℕ) (chain : List Node)
    → Sized base chain
    → v < length (flat chain)
    → Sought base v chain
seek-Sought base v [] s h = absurd (omega arith)
seek-Sought base v (node ∷ rest) s h = elim (Bool-cases (leb (length node) v)) [
  | inl further ↦
      let over : length node ≤ v = leb→le _ _ further in
      next-Sought base v node rest s over (
        seek-Sought base (v - length node) rest s.1 (omega (arith, length-append node (flat rest))))
  | inr here ↦ record {
    passed = 0;
    offset = v;
    returns = unfold seek in rw here refl;
    pointer = omega arith;
    in_node = omega (arith, leb_false→lt _ _ here, s.0);
    in_chain = omega arith;
  }
]

seek_past : (v : ℕ) (chain : List Node) → length (flat chain) ≤ v → seek chain v ≡ none
unfolding seek
seek_past v [] h = refl
seek_past v (node ∷ rest) h =
    rw
      (
        le→leb (length node) v (omega (arith, length-append node (flat rest))),
        seek_past (v - length node) rest (omega (arith, length-append node (flat rest))),
      )
      refl

-- What `setPosition(v)` does inside the capacity: the stream's position is `v`, and past the size
-- the stream is extended up to it.
pub record Moved (v : ℕ) (b : ByteArray) (result : Step ByteArray (Unit {0})) : Type 0 where
  pub after : ByteArray
  pub returns : result ≡ done tt after
  pub valid : IsValid after
  pub at_v : after.position ≡ v
  pub same_bytes : after.nodes ≡ b.nodes
  pub new_size : after.size ≡ (if ltb b.size v then v else b.size)
  pub same_base : after.base_size ≡ b.base_size
  pub same_endian : after.endian ≡ b.endian

set_position-Moved :
    (v : ℕ) (b : ByteArray) → IsValid b → v < b.capacity → Moved v b (set_position v b)
unfolding set_position
set_position-Moved v b val h = record {
  after = after;
  returns = rw (le→ltb_false b.capacity v (omega arith)) (ap (end_seek v b) found.returns);
  valid = record {
    base_pos = val.base_pos;
    sized = val.sized;
    rooted = val.rooted;
    counted = val.counted;
    small = val.small;
    within = ground arith;
    held = ground (arith, val.held);
    aligned =
        aligned_by b.base_size v found.offset (take found.passed b.nodes)
          (All-take _ found.passed b.nodes val.sized) found.in_node found.pointer;
    cur_in = found.in_chain;
  };
  at_v = refl;
  same_bytes = refl;
  new_size = refl;
  same_base = refl;
  same_endian = refl;
}
  where
    found : Sought b.base_size v b.nodes
    found = seek-Sought b.base_size v b.nodes val.sized (omega (arith, val.counted))

    after : ByteArray
    after = record b { position = v; size = if ltb b.size v then v else b.size; cur = found.passed }

-- `setPosition(v)` on a valid object: inside the capacity it moves; past the capacity it throws and
-- changes nothing; but at the capacity itself its loop follows the NULL behind the last node.
pub set_position_cases :
    (v : ℕ) (b : ByteArray)
    → IsValid b
    → ((v < b.capacity) × Moved v b (set_position v b))
      ⊎ (((v ≡ b.capacity) × (set_position v b ≡ fault))
          ⊎ ((b.capacity < v) × (set_position v b ≡ thrown b)))
set_position_cases v b val = elim (Bool-cases (ltb v b.capacity)) [
  | inl inside ↦ inl (ltb→lt _ _ inside, set_position-Moved v b val (ltb→lt _ _ inside))
  | inr not_inside ↦ inr (elim (Bool-cases (ltb b.capacity v)) [
    | inl past ↦ inr (ltb→lt _ _ past, unfold set_position in rw past refl)
    | inr at_end ↦ inl (
      omega (arith, ltb_false→le _ _ not_inside, ltb_false→le _ _ at_end),
      unfold set_position in
          rw at_end (
            ap (end_seek v b)
              (seek_past v b.nodes (omega (arith, ltb_false→le _ _ not_inside, val.counted)))),
    )
  ])
]

-- Moving within the stream changes nothing but the position.
pub set_position_inside :
    (v : ℕ) (b : ByteArray)
    → IsValid b
    → v ≤ b.size
    → v < b.capacity
    → (m : Moved v b (set_position v b)) × (view m.after
        ≡ record { content = (view b).content; at = v })
set_position_inside v b val inside h =
    let m = set_position-Moved v b val h in
    (
      m,
      ap₂ (λ l k. record { content = l; at = k })
          (ap₂ take (m.new_size ∙ rw (le→ltb_false b.size v inside) refl) (ap flat m.same_bytes))
          m.at_v,
    )

-- `clear` leaves a valid, empty object of one node, with the base size and byte order it had.
pub clear_lem :
    (b : ByteArray)
    → IsValid b
    → IsValid (clear b)
      × (view (clear b) ≡ record { content = []; at = 0 })
      × ((clear b).capacity ≡ b.base_size)
      × ((clear b).base_size ≡ b.base_size)
      × ((clear b).endian ≡ b.endian)
unfolding clear
clear_lem b v = (
  record {
    base_pos = v.base_pos;
    sized = All-take _ 1 b.nodes v.sized;
    rooted = root b.nodes v.rooted;
    counted = sym (root_size b.nodes v.sized v.rooted);
    small = omega (arith, base-le-capacity b v, v.small);
    within = omega arith;
    held = omega arith;
    aligned = omega (arith, zero-mod b.base_size);
    cur_in = omega arith;
  },
  refl,
  refl,
  refl,
  refl,
)
  where
    root : (nodes : List Node) → 0 < length nodes → 0 < length (take 1 nodes)
    root [] h = h
    root (node ∷ rest) h = omega arith

    root_size :
        (nodes : List Node)
        → Sized b.base_size nodes
        → 0 < length nodes
        → length (flat (take 1 nodes)) ≡ b.base_size
    root_size [] s h = absurd (omega arith)
    root_size (node ∷ rest) s h = omega (arith, length-append node [], s.0)
