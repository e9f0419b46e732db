-- ===== src/ByteArray/Valid.antt =====
-- The representation invariant of `ByteArray` (sylar/bytearray.h), and the flat stream of bytes that
-- a valid object stands for.
use native.Mathlib.Nat.{mod-eq_of_lt, mod-lt, add-mod_left}
use sylar_demo.Common.{
  ℕ, zero, suc, ◌+◌, ◌-◌, ◌%◌, ◌^◌, ◌≤◌, ◌<◌, ◌≡◌, refl, sym, ap, ◌∙◌, List, [], ◌∷◌, Option, none,
  some, arith, length, take, drop, length-append, length-take, length-drop, take-append-drop, ltb,
  if◌then◌else◌,
}
use sylar_demo.ByteArray.{Node, ByteArray, get_read_size, get_capacity}
use sylar_demo.ByteArray.Chain.{flat, flat-append, Sized, splice}

-- The nodes are of the base size and make up the capacity; position, size and capacity are in
-- order; and the current pointer is at the node that holds the position, NULL at the very end.
pub record IsValid (b : ByteArray) : Type 0 where
  pub base_pos : 0 < b.base_size
  pub sized : Sized b.base_size b.nodes
  pub rooted : 0 < length b.nodes
  pub counted : b.capacity ≡ length (flat b.nodes)
  pub small : b.capacity < 2 ^ 64
  pub within : b.position ≤ b.size
  pub held : b.size ≤ b.capacity
  pub aligned : b.position ≡ length (flat (take b.cur b.nodes)) + b.position % b.base_size
  pub cur_in : b.cur ≤ length b.nodes

-- The stream of bytes that a user of the class sees, with no nodes in it.
pub record Stream : Type 0 where
  pub content : List ℕ
  pub at : ℕ

abbrev pub view : ByteArray → Stream
view b = record { content = take b.size (flat b.nodes); at = b.position }

-- The bytes that are left to read.
abbrev pub unread : Stream → List ℕ
unread s = drop s.at s.content

unfoldable pub write_stream : List ℕ → Stream → Stream
write_stream bytes s = record { content = splice s.at bytes s.content; at = s.at + length bytes }

-- `none` where the class throws `std::out_of_range`.
unfoldable pub read_stream : ℕ → Stream → Option (List ℕ × Stream)
read_stream n s =
    if ltb (length (unread s)) n then none else some (take n (unread s), record s { at = s.at + n })

-- An offset in a chain of whole nodes is taken apart by the base size.
pub offset-mod :
    (base r : ℕ) (chain : List Node)
    → Sized base chain
    → r < base
    → (length (flat chain) + r) % base ≡ r
offset-mod base r [] s h =
    ap {B = ℕ} (λ x. x % base) {x = 0 + r} {y = r} (omega arith) ∙ mod-eq_of_lt h
offset-mod base r (node ∷ rest) s h =
    ap (λ x. x % base) (omega (arith, length-append node (flat rest), s.0))
    ∙ add-mod_left base (length (flat rest) + r)
    ∙ offset-mod base r rest s.1 h

pub aligned_by :
    (base position offset : ℕ) (chain : List Node)
    → Sized base chain
    → offset < base
    → position ≡ length (flat chain) + offset
    → position ≡ length (flat chain) + position % base
aligned_by base position offset chain s h e =
    omega (arith, e, ap (λ x. x % base) e ∙ offset-mod base offset chain s h)

base-le-flat :
    (base : ℕ) (chain : List Node)
    → Sized base chain
    → 0 < length chain
    → base ≤ length (flat chain)
base-le-flat base [] s h = absurd (omega arith)
base-le-flat base (node ∷ rest) s h = omega (arith, length-append node (flat rest), s.0)

-- Chains of as many nodes have prefixes of the same length.
pub same_prefix :
    (base k : ℕ) (xs ys : List Node)
    → Sized base xs
    → Sized base ys
    → length xs ≡ length ys
    → length (flat (take k xs)) ≡ length (flat (take k ys))
same_prefix base zero xs ys p q e = refl
same_prefix base (suc k) [] [] p q e = refl
same_prefix base (suc k) [] (y ∷ ys) p q e = absurd (omega arith)
same_prefix base (suc k) (x ∷ xs) [] p q e = absurd (omega arith)
same_prefix base (suc k) (x ∷ xs) (y ∷ ys) p q e = omega (
  arith,
  length-append x (flat (take k xs)),
  length-append y (flat (take k ys)),
  same_prefix base k xs ys p.1 q.1 (omega arith),
  p.0,
  q.0,
)

pub length-flat_split :
    (k : ℕ) (chain : List Node)
    → length (flat (take k chain)) + length (flat (drop k chain)) ≡ length (flat chain)
length-flat_split k chain = omega (
  arith,
  length-append (flat (take k chain)) (flat (drop k chain)),
  ap length (sym (flat-append (take k chain) (drop k chain)) ∙ ap flat (take-append-drop k chain)),
)

module _ (b : ByteArray) (v : IsValid b) where
  pub npos-lt : b.position % b.base_size < b.base_size
  npos-lt = mod-lt b.position v.base_pos

  pub get_read_size_lem : get_read_size b ≡ b.size - b.position
  unfolding get_read_size
  get_read_size_lem = omega (arith, v.within, v.held, v.small)

  pub get_capacity_lem : get_capacity b ≡ b.capacity - b.position
  unfolding get_capacity
  get_capacity_lem = omega (arith, v.within, v.held, v.small)

  pub base-le-capacity : b.base_size ≤ b.capacity
  base-le-capacity = omega (arith, base-le-flat b.base_size b.nodes v.sized v.rooted, v.counted)

  -- What is left of the chain from the current node on.
  pub rest_room :
      length (flat (drop b.cur b.nodes)) + b.position ≡ b.capacity + b.position % b.base_size
  rest_room = omega (arith, length-flat_split b.cur b.nodes, v.aligned, v.counted)

  pub length-unread : length (unread (view b)) ≡ b.size - b.position
  length-unread = omega (
    arith,
    length-drop b.position (take b.size (flat b.nodes)),
    length-take b.size (flat b.nodes),
    v.held,
    v.counted,
  )
