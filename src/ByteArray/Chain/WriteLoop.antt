-- ===== src/ByteArray/Chain/WriteLoop.antt =====
-- The loop of `ByteArray::write` (sylar/bytearray.cpp) over a chain of nodes of one size.
use sylar_demo.Common.{
  ℕ, suc, ◌+◌, ◌-◌, ◌^◌, ◌≤◌, ◌<◌, ◌≡◌, refl, sym, ap, ◌∙◌, inl, inr, List, [], ◌∷◌, ◌++◌, Option,
  some, arith, length, take, drop, add64, leb, ◌==◌, if◌then◌else◌, Bool-cases, ==_iff, le→leb,
  leb→le, lt→leb_false, leb_false→lt, length-append, length-take, length-drop,
}
use sylar_demo.ByteArray.{Node, store, next_size, write_loop}
use sylar_demo.ByteArray.Chain.{
  flat, Sized, splice, length-splice, splice-append_le, splice-append_across, next_size_lem,
  length-node_first, length-flat_next,
}

-- What the loop of `write` leaves: the chain with the bytes spliced in, the number of nodes that
-- the current pointer has passed, and the offset `offset` in the node where it stands.
pub record Written (base npos : ℕ) (bytes : List ℕ) (position : ℕ) (chain : List Node)
    (result : Option (List Node × ℕ × ℕ)) : Type 0 where
  pub chain' : List Node
  pub passed : ℕ
  pub offset : ℕ
  pub returns : result ≡ some (chain', passed, position + length bytes)
  pub sized : Sized base chain'
  pub same_count : length chain' ≡ length chain
  pub spliced : flat chain' ≡ splice npos bytes (flat chain)
  pub pointer : npos + length bytes ≡ length (flat (take passed chain)) + offset
  pub in_node : offset < base
  pub in_chain : passed ≤ length chain

-- One round of the loop: the last one, and one that fills the node.
write_loop_last :
    (base npos position : ℕ) (node : Node) (rest : List Node) (bytes : List ℕ)
    → length node ≡ base
    → npos + length bytes ≤ base
    → position + length bytes < 2 ^ 64
    → write_loop (node ∷ rest) npos (base - npos) position bytes
      ≡ some (
        splice npos bytes node ∷ rest,
        if base == npos + length bytes then 1 else 0,
        position + length bytes,
      )
unfolding write_loop store
write_loop_last base npos position node rest bytes s fits small =
    let e : add64 position (length bytes) ≡ position + length bytes = omega arith in
    rw
      (
        le→leb (length bytes) (base - npos) (omega arith),
        s,
        le→leb (npos + length bytes) base fits,
        e,
      )
      refl

write_loop_over :
    (base npos position : ℕ) (node : Node) (rest : List Node) (bytes : List ℕ)
    → length node ≡ base
    → npos < base
    → base - npos < length bytes
    → position + length bytes < 2 ^ 64
    → (rest' : List Node) (passed position' : ℕ)
    → write_loop rest 0 (next_size rest) (position + (base - npos)) (drop (base - npos) bytes)
      ≡ some (rest', passed, position')
    → write_loop (node ∷ rest) npos (base - npos) position bytes
      ≡ some (splice npos (take (base - npos) bytes) node ∷ rest', passed + 1, position')
unfolding write_loop store
write_loop_over base npos position node rest bytes s n over small rest' passed position' e =
    let sum : add64 position (base - npos) ≡ position + (base - npos) = omega arith in
    let room : npos + length (take (base - npos) bytes) ≤ base =
      omega (arith, length-take (base - npos) bytes) in
    rw
      (
        lt→leb_false (length bytes) (base - npos) over,
        s,
        le→leb (npos + length (take (base - npos) bytes)) base room,
        sum,
        e,
      )
      refl

write_last-Written :
    (base npos position : ℕ) (node : Node) (rest : List Node) (bytes : List ℕ)
    → Sized base (node ∷ rest)
    → npos < base
    → npos + length bytes ≤ base
    → position + length bytes < 2 ^ 64
    → Written base npos bytes position
        (node ∷ rest)
        (write_loop (node ∷ rest) npos (base - npos) position bytes)
write_last-Written base npos position node rest bytes s n fits small =
    elim (Bool-cases (base == npos + length bytes)) [
      | inl full ↦ record {
        chain' = splice npos bytes node ∷ rest;
        passed = 1;
        offset = 0;
        returns = write_loop_last base npos position node rest bytes s.0 fits small ∙ rw full;
        sized = (new_size, s.1);
        same_count = refl;
        spliced = spliced_here;
        pointer =
            omega
              (arith, length-node_first node rest, (==_iff base (npos + length bytes)).0 full, s.0);
        in_node = omega arith;
        in_chain = omega arith;
      }
      | inr room ↦ record {
        chain' = splice npos bytes node ∷ rest;
        passed = 0;
        offset = npos + length bytes;
        returns = write_loop_last base npos position node rest bytes s.0 fits small ∙ rw room;
        sized = (new_size, s.1);
        same_count = refl;
        spliced = spliced_here;
        pointer = omega arith;
        in_node = ground (arith, room);
        in_chain = omega arith;
      }
    ]
  where
    new_size : length (splice npos bytes node) ≡ base
    new_size = length-splice npos bytes node (omega (arith, s.0)) ∙ s.0

    spliced_here : splice npos bytes node ++ flat rest ≡ splice npos bytes (node ++ flat rest)
    spliced_here = sym (splice-append_le npos bytes node (flat rest) (omega (arith, s.0)))

write_over-Written :
    (base npos position : ℕ) (node : Node) (rest : List Node) (bytes : List ℕ)
    → Sized base (node ∷ rest)
    → npos < base
    → base - npos < length bytes
    → position + length bytes < 2 ^ 64
    → Written base 0
        (drop (base - npos) bytes)
        (position + (base - npos))
        rest
        (write_loop rest 0 (next_size rest) (position + (base - npos)) (drop (base - npos) bytes))
    → Written base npos bytes position
        (node ∷ rest)
        (write_loop (node ∷ rest) npos (base - npos) position bytes)
write_over-Written base npos position node rest bytes s n over small later = record {
  chain' = splice npos (take room bytes) node ∷ later.chain';
  passed = later.passed + 1;
  offset = later.offset;
  returns =
      write_loop_over base npos position node rest bytes s.0 n over small _ _ _ later.returns
      ∙ rw (rest_length) (
          ap (λ p. some (splice npos (take room bytes) node ∷ later.chain', later.passed + 1, p))
            (omega arith));
  sized = (
    length-splice npos (take room bytes) node (omega (arith, s.0, length-take room bytes)) ∙ s.0,
    later.sized,
  );
  same_count = ap suc later.same_count;
  spliced =
      ap (λ l. splice npos (take room bytes) node ++ l) later.spliced
      ∙ sym (
          splice-append_across npos room bytes node (flat rest) (omega (arith, s.0)) (omega arith));
  pointer = omega (arith, later.pointer, rest_length, length-flat_next node rest later.passed, s.0);
  in_node = later.in_node;
  in_chain = omega (arith, later.in_chain);
}
  where
    room : ℕ
    room = base - npos

    rest_length : length (drop room bytes) ≡ length bytes - room
    rest_length = length-drop room bytes

pub write_loop-Written :
    (base npos position : ℕ) (chain : List Node) (bytes : List ℕ)
    → Sized base chain
    → npos < base
    → 0 < length bytes
    → npos + length bytes ≤ length (flat chain)
    → position + length bytes < 2 ^ 64
    → Written base npos bytes position chain (write_loop chain npos (base - npos) position bytes)
write_loop-Written base npos position [] bytes s n l fits small = absurd (omega arith)
write_loop-Written base npos position (node ∷ rest) bytes s n l fits small =
    elim (Bool-cases (leb (length bytes) (base - npos))) [
      | inl here ↦
          write_last-Written base npos position node rest bytes s n (omega (arith, leb→le _ _ here))
            small
      | inr over ↦
          let more : base - npos < length bytes = leb_false→lt _ _ over in
          let later_fits : 0 + length (drop (base - npos) bytes) ≤ length (flat rest) =
            omega (arith, length-drop (base - npos) bytes, length-append node (flat rest), s.0) in
          let something : 0 < length (drop (base - npos) bytes) =
            omega (arith, length-drop (base - npos) bytes) in
          let first : next_size rest ≡ base - 0 =
            next_size_lem base rest s.1 (omega arith) ∙ omega arith in
          write_over-Written base npos position node rest bytes s n more small (
            rw first (
              write_loop-Written base 0 (position + (base - npos)) rest (drop (base - npos) bytes)
                s.1 (omega arith) something later_fits
                (omega (arith, length-drop (base - npos) bytes))))
    ]
