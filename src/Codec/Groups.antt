-- ===== src/Codec/Groups.antt =====
-- The loop of `readUint32` and `readUint64` (sylar/bytearray.cpp) on what `writeUint32` and
-- `writeUint64` wrote.
use mathlib.Core.Path.{subst, subst₂}
use sylar_demo.Common.{
  ℕ, zero, suc, ◌+◌, ◌*◌, ◌/◌, ◌%◌, ◌^◌, ◌≤◌, ◌<◌, ◌≡◌, refl, sym, ap, ◌∙◌, ◌⊎◌, inl, inr, List, [],
  ◌∷◌, ◌++◌, arith, length, ltb, Bool-cases, le→leb, ltb→lt, ltb_false→le, Option-cases, none, some,
}
use sylar_demo.ByteArray.{ByteArray}
use sylar_demo.ByteArray.Valid.{IsValid, view, unread}
use sylar_demo.Codec.{fill_tmp, read_fuint8, read_groups}
use sylar_demo.Codec.Readers.{Gets, Gets-unread, Gets-byte}
use sylar_demo.Codec.Varint.{fill_more, fill_last, shift_seven, split_group, read_last, read_more}

-- The bytes of a number, taken apart: a last one, or one and the bytes of the rest.
fill_none : (k v : ℕ) → 128 ≤ v → fill_tmp k (v / 2 ^ 7) ≡ none → fill_tmp (suc k) v ≡ none
unfolding fill_tmp
fill_none k v h e = rw (le→leb 0x80 v h, e) refl

fill_parts :
    (k v : ℕ) (bytes : List ℕ)
    → fill_tmp (suc k) v ≡ some bytes
    → ((v < 128) × (v ∷ [] ≡ bytes))
      ⊎ ((128 ≤ v)
          × ((later : List ℕ) × (fill_tmp k (v / 2 ^ 7) ≡ some later)
              × ((v % 128 + 128) ∷ later ≡ bytes)))
fill_parts k v bytes e = elim (Bool-cases (ltb v 128)) [
  | inl last ↦ inl (ltb→lt _ _ last, cc (fill_last k v (ltb→lt _ _ last)))
  | inr more ↦ inr (
    ltb_false→le _ _ more,
    elim (Option-cases (fill_tmp k (v / 2 ^ 7))) [
      | inl nothing ↦ cc (fill_none k v (ltb_false→le _ _ more) nothing)
      | inr (later, f) ↦ (later, f, cc (fill_more k v later (ltb_false→le _ _ more) f))
    ],
  )
]

below_group :
    (unit d result top : ℕ) → d < 128 → result < unit → top ≡ 128 * unit → result + d * unit < top
below_group unit d result top hd hr e = grind arith

-- The loop reads `bytes`, the encoding of `v`, as `v` shifted to bit `i` on top of `result`.
pub read_groups-Gets :
    (k fuel w i result v : ℕ) (b : ByteArray) (bytes rest : List ℕ)
    → fill_tmp k v ≡ some bytes
    → IsValid b
    → unread (view b) ≡ bytes ++ rest
    → i + 7 * k < w + 7
    → k ≤ fuel
    → result < 2 ^ i
    → result + v * 2 ^ i < 2 ^ w
    → Gets (result + v * 2 ^ i) (length bytes) b (read_groups fuel w i result b)
read_groups-Gets zero fuel w i result v b bytes rest e val u rounds f hr fits =
    unfold fill_tmp in cc
read_groups-Gets (suc k) zero w i result v b bytes rest e val u rounds f hr fits =
    absurd (omega arith)
read_groups-Gets (suc k) (suc fuel) w i result v b bytes rest e val u rounds f hr fits =
    elim (fill_parts k v bytes e) [
      | inl (last, is) ↦
          subst (λ l. Gets (result + v * 2 ^ i) (length l) b (read_groups (suc fuel) w i result b))
            is
            (read_last fuel w i result v b rest val (u ∙ ap (λ l. l ++ rest) (sym is)) (omega arith)
              last hr fits)
      | inr (more, (later, e', is)) ↦
          let d = v % 128 in
          let here : unread (view b) ≡ (d + 128) ∷ (later ++ rest) =
            u ∙ ap (λ l. l ++ rest) (sym is) in
          let g = Gets-byte (d + 128) b (later ++ rest) val here in
          let next_fits : result + d * 2 ^ i + v / 2 ^ 7 * 2 ^ (i + 7) < 2 ^ w =
            omega (arith, split_group v i) in
          let small : result + d * 2 ^ i < 2 ^ (i + 7) =
            below_group (2 ^ i) d result (2 ^ (i + 7)) (omega arith) hr (shift_seven i) in
          let whole : result + d * 2 ^ i + v / 2 ^ 7 * 2 ^ (i + 7) ≡ result + v * 2 ^ i =
            omega (arith, split_group v i) in
          subst₂ (λ a l. Gets a (length l) b (read_groups (suc fuel) w i result b)) whole is
            (read_more fuel w i result d (length later) _ b (later ++ rest) val here (omega arith)
              (omega arith) hr (omega arith) g
              (read_groups-Gets k fuel w (i + 7) (result + d * 2 ^ i) (v / 2 ^ 7) g.after later rest
                e' g.valid
                (Gets-unread (d + 128) b (read_fuint8 b) ((d + 128) ∷ []) (later ++ rest) g here)
                (omega arith) (omega arith) small next_fits))
    ]
