-- ===== src/Codec/Varint.antt =====
-- `writeUint32/64` and the loop of `readUint32/64` (sylar/bytearray.cpp): seven bits a byte, lowest
-- first, the top bit set on every byte but the last.
use native.Mathlib.Nat.{pow-suc, div-add-mod, mod-eq_of_lt}
use native.Mathlib.Numerals.{towards_suc}
use sylar_demo.Common.{
  ℕ, zero, suc, ◌+◌, ◌*◌, ◌/◌, ◌%◌, ◌^◌, ◌≤◌, ◌<◌, ◌≡◌, ap, ◌∙◌, inl, inr, List, [], ◌∷◌, arith,
  length, All, ltb, bit_and, bit_or, Bool-cases, le→leb, lt→leb_false, lt→ltb, ltb→lt, ltb_false→le,
  le→ltb_false, some, done,
}
use sylar_demo.Common.Bits.{and_mask, or_shifted}
use sylar_demo.ByteArray.{ByteArray}
use sylar_demo.ByteArray.Valid.{IsValid, view, unread}
use sylar_demo.Endian.Laws.{IsByte}
use sylar_demo.Codec.{fill_tmp, read_fuint8, read_groups}
use sylar_demo.Codec.Readers.{Gets, Gets-byte}

-- One slot that is not the last, and the last one.
pub fill_more :
    (slots v : ℕ) (rest : List ℕ)
    → 128 ≤ v
    → fill_tmp slots (v / 2 ^ 7) ≡ some rest
    → fill_tmp (suc slots) v ≡ some ((v % 128 + 128) ∷ rest)
unfolding fill_tmp
fill_more slots v rest h e =
    let low : bit_and v 0x7f ≡ v % 128 = and_mask 7 v in
    let high : bit_or (v % 128) 0x80 ≡ v % 128 + 128 = or_shifted 7 (v % 128) 1 (omega arith) in
    rw (le→leb 0x80 v h, e, low, high) (ap (λ x. some (x ∷ rest)) (omega arith))

pub fill_last : (slots v : ℕ) → v < 128 → fill_tmp (suc slots) v ≡ some (v ∷ [])
unfolding fill_tmp
fill_last slots v h = rw (lt→leb_false 0x80 v h) (ap (λ x. some (x ∷ [])) (omega arith))

-- The array has a slot for every byte: k of them are enough for a number of 7 * k bits.
pub record Filled (slots v : ℕ) : Type 0 where
  pub bytes : List ℕ
  pub returns : fill_tmp slots v ≡ some bytes
  pub some_bytes : 0 < length bytes
  pub in_slots : length bytes ≤ slots
  pub are_bytes : All IsByte bytes

more-Filled : (k v : ℕ) → 128 ≤ v → Filled k (v / 2 ^ 7) → Filled (suc k) v
more-Filled k v h later = record {
  bytes = (v % 128 + 128) ∷ later.bytes;
  returns = fill_more k v later.bytes h later.returns;
  some_bytes = omega arith;
  in_slots = omega (arith, later.in_slots);
  are_bytes = (omega arith, later.are_bytes);
}

last-Filled : (slots v : ℕ) → v < 128 → Filled (suc slots) v
last-Filled slots v h = record {
  bytes = v ∷ [];
  returns = fill_last slots v h;
  some_bytes = omega arith;
  in_slots = omega arith;
  are_bytes = (omega arith, tt);
}

pub fill_tmp-Filled : (k v : ℕ) → v < 128 ^ suc k → Filled (suc k) v
fill_tmp-Filled zero v h = last-Filled 0 v (omega arith)
fill_tmp-Filled (suc k) v h = elim (Bool-cases (ltb v 128)) [
  | inl last ↦ last-Filled (suc k) v (ltb→lt _ _ last)
  | inr more ↦
      more-Filled (suc k) v (ltb_false→le _ _ more)
        (fill_tmp-Filled k (v / 2 ^ 7) (omega (arith, pow-suc 128 (suc k))))
]

-- One round of the reading loop, on the last byte of a number and on one before it.
pub shift_seven : (i : ℕ) → 2 ^ (i + 7) ≡ 128 * 2 ^ i
shift_seven i = simp towards_suc (omega arith)

-- The lowest group of `v` and the rest of it, both shifted by `i`.
pub split_group : (v i : ℕ) → v * 2 ^ i ≡ v % 128 * 2 ^ i + v / 128 * 2 ^ (i + 7)
split_group v i = omega (
  arith,
  ap (λ (t : ℕ). t * 2 ^ i) (div-add-mod v 128),
  ap (λ (t : ℕ). v / 128 * t) (shift_seven i),
)

or_group :
    (w i result x : ℕ)
    → result < 2 ^ i
    → x * 2 ^ i < 2 ^ w
    → bit_or result (x * 2 ^ i % 2 ^ w) ≡ result + x * 2 ^ i
or_group w i result x h fits = ap (bit_or result) (mod-eq_of_lt fits) ∙ or_shifted i result x h

pub read_last :
    (fuel w i result v : ℕ) (b : ByteArray) (rest : List ℕ)
    → IsValid b
    → unread (view b) ≡ v ∷ rest
    → i < w
    → v < 128
    → result < 2 ^ i
    → result + v * 2 ^ i < 2 ^ w
    → Gets (result + v * 2 ^ i) 1 b (read_groups (suc fuel) w i result b)
unfolding read_groups
read_last fuel w i result v b rest val e hi hv hr fits =
    let g = Gets-byte v b rest val e in
    record {
      after = g.after;
      returns =
          rw (lt→ltb i w hi, g.returns, lt→ltb v 0x80 hv)
            (ap (λ x. done x g.after) (or_group w i result v hr (omega arith)));
      valid = g.valid;
      content = g.content;
      moved = g.moved;
      same_base = g.same_base;
      same_endian = g.same_endian;
    }

pub read_more :
    (fuel w i result d n a : ℕ) (b : ByteArray) (rest : List ℕ)
    → IsValid b
    → (e : unread (view b) ≡ (d + 128) ∷ rest) → i < w
    → d < 128
    → result < 2 ^ i
    → d * 2 ^ i < 2 ^ w
    → (g : Gets (d + 128) 1 b (read_fuint8 b))
    → Gets a n g.after (read_groups fuel w (i + 7) (result + d * 2 ^ i) g.after)
    → Gets a (suc n) b (read_groups (suc fuel) w i result b)
unfolding read_groups
read_more fuel w i result d n a b rest val e hi hd hr fits g later =
    let low : bit_and (d + 128) 0x7f ≡ d = and_mask 7 (d + 128) ∙ omega arith in
    record {
      after = later.after;
      returns =
          rw
            (
              lt→ltb i w hi,
              g.returns,
              le→ltb_false (d + 128) 0x80 (omega arith),
              low,
              or_group w i result d hr fits,
            )
            later.returns;
      valid = later.valid;
      content = later.content ∙ g.content;
      moved = omega (arith, later.moved, g.moved);
      same_base = later.same_base ∙ g.same_base;
      same_endian = later.same_endian ∙ g.same_endian;
    }
