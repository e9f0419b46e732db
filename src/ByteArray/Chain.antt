-- ===== src/ByteArray/Chain.antt =====
-- Chains of nodes of one size (sylar/bytearray.cpp), and the flat list of their bytes.
pub mod WriteLoop
pub mod ReadLoop
use sylar_demo.Common.{
  ℕ, zero, suc, ◌+◌, ◌-◌, ◌%◌, ◌^◌, ◌≤◌, ◌<◌, ◌≡◌, refl, sym, ap, ap₂, ◌∙◌, ◌⊎◌, inl, inr, List, [],
  ◌∷◌, ◌++◌, Option, none, some, arith, length, take, drop, All, add64, leb, ltb, ◌==◌,
  if◌then◌else◌, Bool-cases, ==_iff, ne→==_false, le→leb, leb→le, lt→leb_false, leb_false→lt,
  length-append, length-take, length-drop, take-append_le, drop-append_le, take-append_add,
  drop-append_add, drop-drop, take_all, drop_all, take-append-drop,
}
use sylar_demo.ByteArray.{Node, store, load, next_size, write_loop, read_loop}
use mathlib.Core.List.{append_assoc, append-nil}
use native.Mathlib.Numerals.{add-one}

-- The bytes of a chain, in order.
abbrev pub flat : List Node → List ℕ
flat [] = []
flat (node ∷ rest) = node ++ flat rest

abbrev pub Sized : ℕ → List Node → Type 0
Sized base = All (λ (node : Node). length node ≡ base)

-- The list with `bytes` written over it from offset `at` on.
abbrev pub splice : ℕ → List ℕ → List ℕ → List ℕ
splice at bytes xs = take at xs ++ (bytes ++ drop (at + length bytes) xs)

pub flat-append : (xs ys : List Node) → flat (xs ++ ys) ≡ flat xs ++ flat ys
flat-append [] ys = refl
flat-append (x ∷ xs) ys = rw (flat-append xs ys) (sym (append_assoc x (flat xs) (flat ys)))

pub length-splice :
    (at : ℕ) (bytes xs : List ℕ)
    → at + length bytes ≤ length xs
    → length (splice at bytes xs) ≡ length xs
length-splice at bytes xs h = omega (
  arith,
  length-append (take at xs) (bytes ++ drop (at + length bytes) xs),
  length-append bytes (drop (at + length bytes) xs),
  length-take at xs,
  length-drop (at + length bytes) xs,
)

-- A splice inside the first part, past it, and across the border.
pub splice-append_le :
    (at : ℕ) (bytes xs ys : List ℕ)
    → at + length bytes ≤ length xs
    → splice at bytes (xs ++ ys) ≡ splice at bytes xs ++ ys
splice-append_le at bytes xs ys h =
    rw
      (
        take-append_le at xs ys (omega arith),
        drop-append_le (at + length bytes) xs ys h,
        append_assoc (take at xs) (bytes ++ drop (at + length bytes) xs) ys,
        append_assoc bytes (drop (at + length bytes) xs) ys,
      )
      refl

pub splice-append_add :
    (xs ys bytes : List ℕ) (at at' : ℕ)
    → at' ≡ length xs + at
    → splice at' bytes (xs ++ ys) ≡ xs ++ splice at bytes ys
splice-append_add xs ys bytes at at' e =
    rw
      (
        take-append_add xs ys at at' e,
        drop-append_add xs ys (at + length bytes) (at' + length bytes) (omega arith),
        append_assoc xs (take at ys) (bytes ++ drop (at + length bytes) ys),
      )
      refl

pub splice-append_across :
    (at n : ℕ) (bytes xs ys : List ℕ)
    → at + n ≡ length xs
    → n ≤ length bytes
    → splice at bytes (xs ++ ys) ≡ splice at (take n bytes) xs ++ splice 0 (drop n bytes) ys
splice-append_across at n bytes xs ys e h =
    let gone : drop (at + length (take n bytes)) xs ≡ [] =
      drop_all _ xs (omega (arith, length-take n bytes)) in
    let left : drop (at + length bytes) (xs ++ ys) ≡ drop (0 + length (drop n bytes)) ys =
      drop-append_add xs ys _ _ (omega (arith, length-drop n bytes)) in
    rw (left, take-append_le at xs ys (omega arith), gone, append-nil)
      (ap (λ (l : List ℕ). take at xs ++ (l ++ drop (0 + length (drop n bytes)) ys))
          (sym (take-append-drop n bytes))
        ∙ simp append_assoc)

pub next_size_lem :
    (base : ℕ) (chain : List Node)
    → Sized base chain
    → 0 < length (flat chain)
    → next_size chain ≡ base
next_size_lem base [] s h = absurd (omega arith)
next_size_lem base (node ∷ rest) s h = s.0

pub length-node_first :
    (node : Node) (rest : List Node) → length (flat (take 1 (node ∷ rest))) ≡ length node
length-node_first node rest = omega (arith, length-append node [])

pub length-flat_next :
    (node : Node) (rest : List Node) (k : ℕ)
    → length (flat (take (k + 1) (node ∷ rest))) ≡ length node + length (flat (take k rest))
length-flat_next node rest k = rw add-one (length-append node (flat (take k rest)))
