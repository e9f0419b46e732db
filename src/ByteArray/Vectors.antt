-- ===== src/ByteArray/Vectors.antt =====
-- The loop of the buffer functions of `ByteArray` (sylar/bytearray.cpp), and the memory that their
-- vectors point to.
use mathlib.Core.List.{append-nil}
use native.Mathlib.Nat.{mod-lt}
use sylar_demo.Common.{
  ℕ, ◌+◌, ◌-◌, ◌%◌, ◌≤◌, ◌<◌, ◌≡◌, refl, sym, ap, ap₂, ◌∙◌, List, [], ◌∷◌, ◌++◌, inl, inr, arith,
  length, take, drop, sub64, leb, length-append, length-drop, All-drop, take_all, take-append_le,
  drop-append_le, take-append_add, drop-drop, take-append-drop, Bool-cases, ne→==_false, le→leb,
  leb→le, leb_false→lt, lt→leb_false, Option, some,
}
use sylar_demo.ByteArray.{Node, ByteArray, IoVec, next_size, buffers_loop, buffers_from}
use sylar_demo.ByteArray.Chain.{flat, flat-append, Sized, next_size_lem}
use sylar_demo.ByteArray.Read.{chain_bytes}
use sylar_demo.ByteArray.Valid.{IsValid, length-flat_split, base-le-capacity}

-- The node that a vector points into, and the bytes of its range.
abbrev first : List Node → Node
first [] = []
first (node ∷ rest) = node

abbrev pub range : List Node → IoVec → List ℕ
range nodes v = take v.len (drop v.offset (first (drop v.node nodes)))

-- The bytes of all the ranges in order, and the lengths that the vectors claim, added up.
abbrev pub gather : List Node → List IoVec → List ℕ
gather nodes [] = []
gather nodes (v ∷ vs) = range nodes v ++ gather nodes vs

abbrev pub claimed : List IoVec → ℕ
claimed [] = 0
claimed (v ∷ vs) = v.len + claimed vs

drop_next :
    (index : ℕ) (nodes : List Node) (node : Node) (rest : List Node)
    → drop index nodes ≡ node ∷ rest
    → drop (index + 1) nodes ≡ rest
drop_next index nodes node rest e = sym (drop-drop index 1 (index + 1) nodes refl) ∙ ap (drop 1) e

-- What the loop of the buffer functions pushes, from a node of the chain on.
pub record Covers (nodes : List Node) (npos len : ℕ) (chain : List Node)
    (result : Option (List IoVec)) : Type 0 where
  pub vectors : List IoVec
  pub returns : result ≡ some vectors
  pub gathered : gather nodes vectors ≡ take len (drop npos (flat chain))
  pub total : claimed vectors ≡ len

last-Covers :
    (base index npos len : ℕ) (nodes : List Node) (node : Node) (rest : List Node)
    → drop index nodes ≡ node ∷ rest
    → Sized base (node ∷ rest)
    → npos < base
    → 0 < len
    → len ≤ base - npos
    → Covers nodes npos len (node ∷ rest) (buffers_loop (node ∷ rest) index npos (base - npos) len)
last-Covers base index npos len nodes node rest e s n pos fits = record {
  vectors = record { node = index; offset = npos; len = len } ∷ [];
  returns =
      unfold buffers_loop in
      rw (ne→==_false len 0 (omega arith), le→leb len (base - npos) fits) refl;
  gathered =
      append-nil (take len (drop npos (first (drop index nodes))))
      ∙ ap (λ l. take len (drop npos (first l))) e
      ∙ sym (
          ap (take len) (drop-append_le npos node (flat rest) (omega (arith, s.0)))
          ∙ take-append_le len (drop npos node) (flat rest)
              (omega (arith, s.0, length-drop npos node)));
  total = omega arith;
}

over-Covers :
    (base index npos len : ℕ) (nodes : List Node) (node : Node) (rest : List Node)
    → drop index nodes ≡ node ∷ rest
    → Sized base (node ∷ rest)
    → npos < base
    → base - npos < len
    → Covers nodes 0
        (len - (base - npos))
        rest
        (buffers_loop rest (index + 1) 0 (next_size rest) (len - (base - npos)))
    → Covers nodes npos len (node ∷ rest) (buffers_loop (node ∷ rest) index npos (base - npos) len)
over-Covers base index npos len nodes node rest e s n over later = record {
  vectors = record { node = index; offset = npos; len = base - npos } ∷ later.vectors;
  returns =
      unfold buffers_loop in
      rw (ne→==_false len 0 (omega arith), lt→leb_false len (base - npos) over, later.returns) refl;
  gathered =
      ap₂ ◌++◌
        (ap (λ l. take (base - npos) (drop npos (first l))) e
          ∙ take_all (base - npos) (drop npos node) (omega (arith, length-drop npos node, s.0)))
        later.gathered
      ∙ sym (
          ap (take len) (drop-append_le npos node (flat rest) (omega (arith, s.0)))
          ∙ take-append_add (drop npos node) (flat rest) (len - (base - npos)) len
              (omega (arith, length-drop npos node, s.0)));
  total = omega (arith, later.total);
}

buffers_loop-Covers :
    (base index npos len : ℕ) (nodes chain : List Node)
    → drop index nodes ≡ chain
    → Sized base chain
    → npos < base
    → 0 < len
    → npos + len ≤ length (flat chain)
    → Covers nodes npos len chain (buffers_loop chain index npos (base - npos) len)
buffers_loop-Covers base index npos len nodes [] e s n pos fits = absurd (omega arith)
buffers_loop-Covers base index npos len nodes (node ∷ rest) e s n pos fits =
    elim (Bool-cases (leb len (base - npos))) [
      | inl here ↦ last-Covers base index npos len nodes node rest e s n pos (leb→le _ _ here)
      | inr over ↦
          let more : base - npos < len = leb_false→lt _ _ over in
          let fits' : 0 + (len - (base - npos)) ≤ length (flat rest) =
            omega (arith, length-append node (flat rest), s.0) in
          let first_size : next_size rest ≡ base - 0 =
            next_size_lem base rest s.1 (omega arith) ∙ omega arith in
          over-Covers base index npos len nodes node rest e s n more (
            rw first_size (
              buffers_loop-Covers base (index + 1) 0 (len - (base - npos)) nodes rest
                (drop_next index nodes node rest e) s.1 (omega arith) (omega arith) fits'))
    ]

-- The same from where the functions start, with the offset in the whole chain.
pub buffers_from-Covers :
    (b : ByteArray) (index position len : ℕ)
    → IsValid b
    → position ≡ length (flat (take index b.nodes)) + position % b.base_size
    → 0 < len
    → position + len ≤ b.capacity
    → (c : Covers b.nodes
        (position % b.base_size)
        len
        (drop index b.nodes)
        (buffers_from (drop index b.nodes) index (position % b.base_size) len))
      × (gather b.nodes c.vectors ≡ take len (drop position (flat b.nodes)))
buffers_from-Covers b index position len v place pos fits = (at_start, same_bytes)
  where
    npos : ℕ
    npos = position % b.base_size

    chain : List Node
    chain = drop index b.nodes

    npos_lt : npos < b.base_size
    npos_lt = mod-lt position v.base_pos

    sized : Sized b.base_size chain
    sized = All-drop _ index b.nodes v.sized

    room : npos + len ≤ length (flat chain)
    room = omega (arith, length-flat_split index b.nodes, v.counted)

    c : Covers b.nodes npos len chain (buffers_loop chain index npos (b.base_size - npos) len)
    c = buffers_loop-Covers b.base_size index npos len b.nodes chain refl sized npos_lt pos room

    start :
        (l : List Node)
        → Sized b.base_size l
        → 0 < length (flat l)
        → buffers_from l index npos len ≡ buffers_loop l index npos (b.base_size - npos) len
    start [] s h = absurd (omega arith)
    start (node ∷ rest) s h =
        let size : sub64 (length node) npos ≡ b.base_size - npos =
          omega (arith, s.0, base-le-capacity b v, v.small) in
        unfold buffers_from in ap (λ k. buffers_loop (node ∷ rest) index npos k len) size

    at_start : Covers b.nodes npos len chain (buffers_from chain index npos len)
    at_start = record {
      vectors = c.vectors;
      returns = start chain sized (omega (arith, room)) ∙ c.returns;
      gathered = c.gathered;
      total = c.total;
    }

    same_bytes : gather b.nodes c.vectors ≡ take len (drop position (flat b.nodes))
    same_bytes =
        c.gathered
        ∙ chain_bytes len position npos (flat (take index b.nodes)) (flat chain) (flat b.nodes)
            (sym (
              sym (flat-append (take index b.nodes) chain)
              ∙ ap flat (take-append-drop index b.nodes)))
            place
