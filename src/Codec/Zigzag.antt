-- ===== src/Codec/Zigzag.antt =====
-- `EncodeZigzag32/64` and `DecodeZigzag32/64` (sylar/bytearray.cpp) are inverse bijections.
use sylar_demo.Common.{
  ℕ, ◌-◌, ◌*◌, ◌/◌, ◌%◌, ◌^◌, ◌≤◌, ◌<◌, ◌≡◌, ap, ◌∙◌, ◌⊎◌, inl, inr, arith, bit_xor, leb, leb→le,
  leb_false→lt, Bool-cases,
}
use sylar_demo.Common.Bits.{and_mask, xor_zero, xor_ones}
use sylar_demo.Codec.{
  neg32, neg64, encode_zigzag32, encode_zigzag64, decode_zigzag32, decode_zigzag64,
}

-- The low bit picks one of two masks: nothing, or all ones.
parity : (v : ℕ) → (v % 2 ≡ 0) ⊎ (v % 2 ≡ 1)
parity v = ground arith

decode32_even : (v : ℕ) → v % 2 ≡ 0 → decode_zigzag32 v ≡ v / 2
unfolding decode_zigzag32
decode32_even v e = ap (λ m. bit_xor (v / 2) (neg32 m)) (and_mask 1 v ∙ e) ∙ xor_zero (v / 2)

decode32_odd : (v : ℕ) → v < 2 ^ 32 → v % 2 ≡ 1 → decode_zigzag32 v ≡ 2 ^ 32 - 1 - v / 2
unfolding decode_zigzag32
decode32_odd v h e =
    ap (λ m. bit_xor (v / 2) (neg32 m)) (and_mask 1 v ∙ e) ∙ xor_ones 32 (v / 2) (omega arith)

decode64_even : (v : ℕ) → v % 2 ≡ 0 → decode_zigzag64 v ≡ v / 2
unfolding decode_zigzag64
decode64_even v e = ap (λ m. bit_xor (v / 2) (neg64 m)) (and_mask 1 v ∙ e) ∙ xor_zero (v / 2)

decode64_odd : (v : ℕ) → v < 2 ^ 64 → v % 2 ≡ 1 → decode_zigzag64 v ≡ 2 ^ 64 - 1 - v / 2
unfolding decode_zigzag64
decode64_odd v h e =
    ap (λ m. bit_xor (v / 2) (neg64 m)) (and_mask 1 v ∙ e) ∙ xor_ones 64 (v / 2) (omega arith)

encode32_cases :
    (v : ℕ)
    → v < 2 ^ 32
    → ((v < 2 ^ 31) × (encode_zigzag32 v ≡ 2 * v))
      ⊎ ((2 ^ 31 ≤ v) × (encode_zigzag32 v ≡ 2 * (2 ^ 32 - v) - 1))
unfolding encode_zigzag32
encode32_cases v h = elim (Bool-cases (leb (2 ^ 31) v)) [
  | inl minus ↦ inr (leb→le _ _ minus, rw minus (omega (arith, leb→le _ _ minus)))
  | inr plus ↦ inl (leb_false→lt _ _ plus, rw plus (omega (arith, leb_false→lt _ _ plus)))
]

decode-encode32 :
    (v : ℕ) → v < 2 ^ 32 → (encode_zigzag32 v < 2 ^ 32) × (decode_zigzag32 (encode_zigzag32 v) ≡ v)
decode-encode32 v h = elim (encode32_cases v h) [
  | inl (plus, e) ↦
      (omega (arith, e), decode32_even (encode_zigzag32 v) (omega (arith, e)) ∙ omega (arith, e))
  | inr (minus, e) ↦ (
    omega (arith, e),
    decode32_odd (encode_zigzag32 v) (omega (arith, e)) (omega (arith, e)) ∙ omega (arith, e),
  )
]

encode-decode32 :
    (v : ℕ) → v < 2 ^ 32 → (decode_zigzag32 v < 2 ^ 32) × (encode_zigzag32 (decode_zigzag32 v) ≡ v)
encode-decode32 v h = elim (parity v) [
  | inl even ↦
      let e : decode_zigzag32 v ≡ v / 2 = decode32_even v even in
      let small : decode_zigzag32 v < 2 ^ 32 = omega (arith, e) in
      (
        small,
        elim (encode32_cases (decode_zigzag32 v) small) [
          | inl (plus, f) ↦ omega (arith, e, f, plus, even)
          | inr (minus, f) ↦ absurd (omega (arith, e, minus))
        ],
      )
  | inr odd ↦
      let e : decode_zigzag32 v ≡ 2 ^ 32 - 1 - v / 2 = decode32_odd v h odd in
      let small : decode_zigzag32 v < 2 ^ 32 = omega (arith, e) in
      (
        small,
        elim (encode32_cases (decode_zigzag32 v) small) [
          | inl (plus, f) ↦ absurd (omega (arith, e, plus))
          | inr (minus, f) ↦ omega (arith, e, f, minus, odd)
        ],
      )
]

-- The code of a 32-bit pattern fits 32 bits and decodes to it, and every code is the code of what it
-- decodes to. The code of n is 2 * n, and that of -n is 2 * n - 1 (the pattern of -n is 2 ^ 32 - n).
pub zigzag32 :
    (v : ℕ)
    → v < 2 ^ 32
    → (encode_zigzag32 v < 2 ^ 32)
      × (decode_zigzag32 v < 2 ^ 32)
      × (decode_zigzag32 (encode_zigzag32 v) ≡ v)
      × (encode_zigzag32 (decode_zigzag32 v) ≡ v)
      × (((v < 2 ^ 31) × (encode_zigzag32 v ≡ 2 * v))
          ⊎ ((2 ^ 31 ≤ v) × (encode_zigzag32 v ≡ 2 * (2 ^ 32 - v) - 1)))
zigzag32 v h =
    let there = decode-encode32 v h in
    let back = encode-decode32 v h in (there.0, back.0, there.1, back.1, encode32_cases v h)

encode64_cases :
    (v : ℕ)
    → v < 2 ^ 64
    → ((v < 2 ^ 63) × (encode_zigzag64 v ≡ 2 * v))
      ⊎ ((2 ^ 63 ≤ v) × (encode_zigzag64 v ≡ 2 * (2 ^ 64 - v) - 1))
unfolding encode_zigzag64
encode64_cases v h = elim (Bool-cases (leb (2 ^ 63) v)) [
  | inl minus ↦ inr (leb→le _ _ minus, rw minus (omega (arith, leb→le _ _ minus)))
  | inr plus ↦ inl (leb_false→lt _ _ plus, rw plus (omega (arith, leb_false→lt _ _ plus)))
]

decode-encode64 :
    (v : ℕ) → v < 2 ^ 64 → (encode_zigzag64 v < 2 ^ 64) × (decode_zigzag64 (encode_zigzag64 v) ≡ v)
decode-encode64 v h = elim (encode64_cases v h) [
  | inl (plus, e) ↦
      (omega (arith, e), decode64_even (encode_zigzag64 v) (omega (arith, e)) ∙ omega (arith, e))
  | inr (minus, e) ↦ (
    omega (arith, e),
    decode64_odd (encode_zigzag64 v) (omega (arith, e)) (omega (arith, e)) ∙ omega (arith, e),
  )
]

encode-decode64 :
    (v : ℕ) → v < 2 ^ 64 → (decode_zigzag64 v < 2 ^ 64) × (encode_zigzag64 (decode_zigzag64 v) ≡ v)
encode-decode64 v h = elim (parity v) [
  | inl even ↦
      let e : decode_zigzag64 v ≡ v / 2 = decode64_even v even in
      let small : decode_zigzag64 v < 2 ^ 64 = omega (arith, e) in
      (
        small,
        elim (encode64_cases (decode_zigzag64 v) small) [
          | inl (plus, f) ↦ omega (arith, e, f, plus, even)
          | inr (minus, f) ↦ absurd (omega (arith, e, minus))
        ],
      )
  | inr odd ↦
      let e : decode_zigzag64 v ≡ 2 ^ 64 - 1 - v / 2 = decode64_odd v h odd in
      let small : decode_zigzag64 v < 2 ^ 64 = omega (arith, e) in
      (
        small,
        elim (encode64_cases (decode_zigzag64 v) small) [
          | inl (plus, f) ↦ absurd (omega (arith, e, plus))
          | inr (minus, f) ↦ omega (arith, e, f, minus, odd)
        ],
      )
]

-- The code of a 64-bit pattern fits 64 bits and decodes to it, and every code is the code of what it
-- decodes to. The code of n is 2 * n, and that of -n is 2 * n - 1 (the pattern of -n is 2 ^ 64 - n).
pub zigzag64 :
    (v : ℕ)
    → v < 2 ^ 64
    → (encode_zigzag64 v < 2 ^ 64)
      × (decode_zigzag64 v < 2 ^ 64)
      × (decode_zigzag64 (encode_zigzag64 v) ≡ v)
      × (encode_zigzag64 (decode_zigzag64 v) ≡ v)
      × (((v < 2 ^ 63) × (encode_zigzag64 v ≡ 2 * v))
          ⊎ ((2 ^ 63 ≤ v) × (encode_zigzag64 v ≡ 2 * (2 ^ 64 - v) - 1)))
zigzag64 v h =
    let there = decode-encode64 v h in
    let back = encode-decode64 v h in (there.0, back.0, there.1, back.1, encode64_cases v h)
