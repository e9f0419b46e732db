-- ===== src/ByteArray/Chain/ReadLoop.antt =====
-- The loop of `ByteArray::read` (sylar/bytearray.cpp) over a chain of nodes of one size.
use sylar_demo.Common.{
  ℕ, ◌+◌, ◌-◌, ◌^◌, ◌≤◌, ◌<◌, ◌≡◌, refl, sym, ap, ap₂, ◌∙◌, inl, inr, List, [], ◌∷◌, ◌++◌, Option,
  some, arith, length, take, drop, add64, leb, ◌==◌, if◌then◌else◌, Bool-cases, ==_iff, ne→==_false,
  le→leb, leb→le, lt→leb_false, leb_false→lt, length-append, length-drop, take-append_le,
  drop-append_le, take-append_add, take_all,
}
use sylar_demo.ByteArray.{Node, load, next_size, read_loop}
use sylar_demo.ByteArray.Chain.{flat, Sized, next_size_lem, length-node_first, length-flat_next}

-- One round of the loop of `read`, on the last node and on one that it reads to the end.
read_loop_last :
    (base npos position size : ℕ) (node : Node) (rest : List Node)
    → length node ≡ base
    → 0 < size
    → npos + size ≤ base
    → position + size < 2 ^ 64
    → read_loop (node ∷ rest) npos (base - npos) position size
      ≡ some (take size (drop npos node), if base == npos + size then 1 else 0, position + size)
unfolding read_loop load
read_loop_last base npos position size node rest s pos fits small =
    let e : add64 position size ≡ position + size = omega arith in
    rw
      (
        ne→==_false size 0 (omega arith),
        le→leb size (base - npos) (omega arith),
        s,
        le→leb (npos + size) base fits,
        e,
      )
      refl

read_loop_over :
    (base npos position size : ℕ) (node : Node) (rest : List Node)
    → length node ≡ base
    → npos < base
    → base - npos < size
    → position + size < 2 ^ 64
    → (back : List ℕ) (passed position' : ℕ)
    → read_loop rest 0 (next_size rest) (position + (base - npos)) (size - (base - npos))
      ≡ some (back, passed, position')
    → read_loop (node ∷ rest) npos (base - npos) position size
      ≡ some (take (base - npos) (drop npos node) ++ back, passed + 1, position')
unfolding read_loop load
read_loop_over base npos position size node rest s n over small back passed position' e =
    let sum : add64 position (base - npos) ≡ position + (base - npos) = omega arith in
    rw
      (
        ne→==_false size 0 (omega arith),
        lt→leb_false size (base - npos) over,
        s,
        le→leb (npos + (base - npos)) base (omega arith),
        sum,
        e,
      )
      refl

-- What the loop of `read` returns: the bytes from offset `npos` on, the number of nodes passed and
-- the new position, with the offset in the node where the pointer then stands.
pub record Taken (base npos size position : ℕ) (chain : List Node)
    (result : Option (List ℕ × ℕ × ℕ)) : Type 0 where
  pub passed : ℕ
  pub offset : ℕ
  pub returns : result ≡ some (take size (drop npos (flat chain)), passed, position + size)
  pub pointer : npos + size ≡ length (flat (take passed chain)) + offset
  pub in_node : offset < base
  pub in_chain : passed ≤ length chain

read_last-Taken :
    (base npos position size : ℕ) (node : Node) (rest : List Node)
    → Sized base (node ∷ rest)
    → npos < base
    → 0 < size
    → npos + size ≤ base
    → position + size < 2 ^ 64
    → Taken base npos size position
        (node ∷ rest)
        (read_loop (node ∷ rest) npos (base - npos) position size)
read_last-Taken base npos position size node rest s n pos fits small =
    elim (Bool-cases (base == npos + size)) [
      | inl full ↦ record {
        passed = 1;
        offset = 0;
        returns =
            read_loop_last base npos position size node rest s.0 pos fits small ∙ rw (full, whole);
        pointer =
            omega (arith, length-node_first node rest, (==_iff base (npos + size)).0 full, s.0);
        in_node = omega arith;
        in_chain = omega arith;
      }
      | inr room ↦ record {
        passed = 0;
        offset = npos + size;
        returns =
            read_loop_last base npos position size node rest s.0 pos fits small ∙ rw (room, whole);
        pointer = omega arith;
        in_node = ground (arith, room);
        in_chain = omega arith;
      }
    ]
  where
    whole : take size (drop npos node) ≡ take size (drop npos (node ++ flat rest))
    whole = sym (
        ap (take size) (drop-append_le npos node (flat rest) (omega (arith, s.0)))
        ∙ take-append_le size (drop npos node) (flat rest)
            (omega (arith, s.0, length-drop npos node)))

read_over-Taken :
    (base npos position size : ℕ) (node : Node) (rest : List Node)
    → Sized base (node ∷ rest)
    → npos < base
    → base - npos < size
    → position + size < 2 ^ 64
    → Taken base 0
        (size - (base - npos))
        (position + (base - npos))
        rest
        (read_loop rest 0 (next_size rest) (position + (base - npos)) (size - (base - npos)))
    → Taken base npos size position
        (node ∷ rest)
        (read_loop (node ∷ rest) npos (base - npos) position size)
read_over-Taken base npos position size node rest s n over small later = record {
  passed = later.passed + 1;
  offset = later.offset;
  returns =
      read_loop_over base npos position size node rest s.0 n over small _ _ _ later.returns
      ∙ ap₂ (λ bytes p. some (bytes, later.passed + 1, p)) whole (omega arith);
  pointer = omega (arith, later.pointer, length-flat_next node rest later.passed, s.0);
  in_node = later.in_node;
  in_chain = omega (arith, later.in_chain);
}
  where
    room : ℕ
    room = base - npos

    whole :
        take room (drop npos node) ++ take (size - room) (flat rest)
        ≡ take size (drop npos (node ++ flat rest))
    whole =
        ap (λ l. l ++ take (size - room) (flat rest))
          (take_all room (drop npos node) (omega (arith, length-drop npos node, s.0)))
        ∙ sym (
            ap (take size) (drop-append_le npos node (flat rest) (omega (arith, s.0)))
            ∙ take-append_add (drop npos node) (flat rest) (size - room) size
                (omega (arith, length-drop npos node, s.0)))

pub read_loop-Taken :
    (base npos position size : ℕ) (chain : List Node)
    → Sized base chain
    → npos < base
    → 0 < size
    → npos + size ≤ length (flat chain)
    → position + size < 2 ^ 64
    → Taken base npos size position chain (read_loop chain npos (base - npos) position size)
read_loop-Taken base npos position size [] s n l fits small = absurd (omega arith)
read_loop-Taken base npos position size (node ∷ rest) s n l fits small =
    elim (Bool-cases (leb size (base - npos))) [
      | inl here ↦
          read_last-Taken base npos position size node rest s n l (omega (arith, leb→le _ _ here))
            small
      | inr over ↦
          let more : base - npos < size = leb_false→lt _ _ over in
          let later_fits : 0 + (size - (base - npos)) ≤ length (flat rest) =
            omega (arith, length-append node (flat rest), s.0) in
          let first : next_size rest ≡ base - 0 =
            next_size_lem base rest s.1 (omega arith) ∙ omega arith in
          read_over-Taken base npos position size node rest s n more small (
            rw first (
              read_loop-Taken base 0 (position + (base - npos)) (size - (base - npos)) rest s.1
                (omega arith) (omega arith) later_fits (omega arith)))
    ]
