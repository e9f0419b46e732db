-- ===== src/ByteArray/Walk.antt =====
-- Where a position lies in the chain of a valid `ByteArray` (sylar/bytearray.cpp).
use native.Mathlib.Nat.{div-add-mod, div-lt_iff_lt-mul}
use sylar_demo.Common.{
  ℕ, zero, suc, ◌+◌, ◌*◌, ◌/◌, ◌%◌, ◌≤◌, ◌<◌, ◌≡◌, refl, sym, ap, ◌∙◌, List, [], ◌∷◌, arith, length,
  take, drop, length-append, All-drop, take_all,
}
use sylar_demo.ByteArray.{Node, ByteArray}
use sylar_demo.ByteArray.Chain.{flat, Sized}
use sylar_demo.ByteArray.Valid.{IsValid, npos-lt, rest_room}

-- At the very end the current pointer is NULL, and only there.
pub at_end : (b : ByteArray) → IsValid b → b.position ≡ b.capacity → drop b.cur b.nodes ≡ []
at_end b v h =
    short (drop b.cur b.nodes) (All-drop _ b.cur b.nodes v.sized)
      (omega (arith, rest_room b v, npos-lt b v))
  where
    short :
        (chain : List Node)
        → Sized b.base_size chain
        → length (flat chain) < b.base_size
        → chain ≡ []
    short [] s l = refl
    short (node ∷ rest) s l = absurd (omega (arith, length-append node (flat rest), s.0))

-- A whole number of nodes into the chain.
pub length-flat-take :
    (base k : ℕ) (chain : List Node)
    → Sized base chain
    → k ≤ length chain
    → length (flat (take k chain)) ≡ k * base
length-flat-take base zero chain s h = omega arith
length-flat-take base (suc k) [] s h = absurd (omega arith)
length-flat-take base (suc k) (node ∷ rest) s h = omega (
  arith,
  length-append node (flat (take k rest)),
  length-flat-take base k rest s.1 (omega arith),
  s.0,
)

-- The node that `position / m_baseSize` steps from the root lead to.
pub walked :
    (b : ByteArray) (position : ℕ)
    → IsValid b
    → position < b.capacity
    → (position / b.base_size < length b.nodes)
      × (position ≡ length (flat (take (position / b.base_size) b.nodes)) + position % b.base_size)
walked b position v h = (below, parts)
  where
    total : b.capacity ≡ length b.nodes * b.base_size
    total =
        v.counted
        ∙ ap (λ l. length (flat l)) (sym (take_all (length b.nodes) b.nodes (omega arith)))
        ∙ length-flat-take b.base_size (length b.nodes) b.nodes v.sized (omega arith)

    below : position / b.base_size < length b.nodes
    below = (div-lt_iff_lt-mul v.base_pos).1 (omega (arith, total))

    parts :
        position ≡ length (flat (take (position / b.base_size) b.nodes)) + position % b.base_size
    parts = omega (
      arith,
      length-flat-take b.base_size (position / b.base_size) b.nodes v.sized (omega (arith, below)),
      div-add-mod position b.base_size,
    )
