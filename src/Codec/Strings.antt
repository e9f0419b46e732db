-- ===== src/Codec/Strings.antt =====
-- The strings of `ByteArray` (sylar/bytearray.cpp): a length, then the bytes.
use mathlib.Core.List.{append_assoc}
use mathlib.Core.Path.{subst}
use sylar_demo.Common.{
  ℕ, ◌+◌, ◌^◌, ◌≤◌, ◌<◌, ◌≡◌, refl, sym, ap, ap₂, ◌∙◌, List, ◌++◌, arith, length, take, drop,
  length-append, length-take, drop-drop, Step, ◌>>=◌, ◌>>◌, u16, u32, u64, then_run,
}
use sylar_demo.Endian.{Endian, to_memory}
use sylar_demo.Endian.Laws.{length-to_memory}
use sylar_demo.ByteArray.{ByteArray, read, write, set_position}
use sylar_demo.ByteArray.Chain.{flat, splice, splice-append_add}
use sylar_demo.ByteArray.Valid.{IsValid, Stream, view, unread, write_stream}
use sylar_demo.ByteArray.Write.{Wrote, write-Wrote}
use sylar_demo.Codec.{
  write_uint64, read_uint64, write_string_vint, read_string_vint, write_fixed, read_fixed,
  write_string_f16, read_string_f16, write_string_f32, read_string_f32, write_string_f64,
  read_string_f64, write_fuint16, read_fuint16, write_fuint32, read_fuint32, write_fuint64,
  read_fuint64,
}
use sylar_demo.Codec.Varint.{fill_tmp-Filled}
use sylar_demo.Codec.Readers.{Gets, Gets-bind, Gets-bytes, Gets-unread}
use sylar_demo.Codec.Writers.{write_fixed_bytes}
use sylar_demo.Codec.RoundTrip.{ReadsBack, read_back, as-Wrote, fixed-Gets}
use sylar_demo.Codec.Integers.{uint64-Gets}

-- Writing twice is writing the two lists as one.
write_stream-append :
    (xs ys : List ℕ) (s : Stream)
    → s.at ≤ length s.content
    → write_stream ys (write_stream xs s) ≡ write_stream (xs ++ ys) s
unfolding write_stream
write_stream-append xs ys s h =
    ap₂ (λ l k. record { content = l; at = k }) spliced (omega (arith, length-append xs ys))
  where
    old : List ℕ
    old = s.content

    front : List ℕ
    front = take s.at old ++ xs

    spliced : splice (s.at + length xs) ys (splice s.at xs old) ≡ splice s.at (xs ++ ys) old
    spliced =
        ap (splice (s.at + length xs) ys)
          (sym (append_assoc (take s.at old) xs (drop (s.at + length xs) old)))
        ∙ splice-append_add front (drop (s.at + length xs) old) ys 0 (s.at + length xs)
            (omega (arith, length-append (take s.at old) xs, length-take s.at old))
        ∙ ap (λ l. front ++ (ys ++ l))
            (drop-drop (s.at + length xs) (0 + length ys) (s.at + length (xs ++ ys)) old
              (omega (arith, length-append xs ys)))
        ∙ append_assoc (take s.at old) xs _
        ∙ ap (λ l. take s.at old ++ l) (sym (append_assoc xs ys _))

Wrote-append :
    (xs ys : List ℕ) (b : ByteArray) (result : Step ByteArray (Unit {0}))
    → IsValid b
    → (w : Wrote xs b result) → Wrote ys w.after (write ys w.after)
    → Wrote (xs ++ ys) b (then_run result (λ _. write ys))
Wrote-append xs ys b result v w later = record {
  after = later.after;
  returns = rw (w.returns) later.returns;
  valid = later.valid;
  viewed =
      later.viewed
      ∙ ap (write_stream ys) w.viewed
      ∙ write_stream-append xs ys (view b)
          (omega (arith, length-take b.size (flat b.nodes), v.within, v.held, v.counted));
  same_base = later.same_base ∙ w.same_base;
  same_endian = later.same_endian ∙ w.same_endian;
}

-- A string behind its length: the length's writer and reader, then the bytes.
string_back :
    (prefix value : List ℕ) (b : ByteArray) (writer : ByteArray → Step ByteArray (Unit {0}))
    (reader : ByteArray → Step ByteArray ℕ)
    → IsValid b
    → 0 < length value
    → b.position + (length prefix + length value) + b.base_size ≤ 2 ^ 64
    → writer b ≡ write prefix b
    → ((c : ByteArray) (rest : List ℕ)
        → IsValid c
        → c.endian ≡ b.endian
        → unread (view c) ≡ prefix ++ rest
        → Gets (length value) (length prefix) c (reader c))
    → ReadsBack value
        (prefix ++ value)
        b
        (((writer >> write value) >> set_position b.position >> (reader >>= read)) b)
unfolding write_stream
string_back prefix value b writer reader v pos room writes reads =
    let w = as-Wrote prefix b (writer b) writes (write-Wrote prefix b v (omega arith)) in
    let wp : w.after.position ≡ b.position + length prefix = ap (λ s. s.at) w.viewed in
    read_back value (prefix ++ value) b (writer >> write value) (reader >>= read) v
      (omega (arith, length-append prefix value))
      (Wrote-append prefix value b (writer b) v w
        (write-Wrote value w.after w.valid (omega (arith, wp, w.same_base))))
      (λ c rest val e u.
        let g = reads c (value ++ rest) val e (u ∙ append_assoc prefix value rest) in
        subst (λ n. Gets value n c ((reader >>= read) c)) (sym (length-append prefix value))
          (Gets-bind reader read (length value) value (length prefix) (length value) c g (
            Gets-bytes (length value) g.after value rest g.valid
              (Gets-unread (length value) c (reader c) prefix (value ++ rest) g
                (u ∙ append_assoc prefix value rest))
              refl pos)))

-- `writeStringVint` of a string that is not empty takes a length of 1 to 10 bytes and the string;
-- back at the position, `readStringVint` returns the string.
-- The object is valid, and has room within 64 bits.
pub string_vint_round_trip :
    (value : List ℕ) (b : ByteArray)
    → IsValid b
    → 0 < length value
    → b.position + (10 + length value) + b.base_size ≤ 2 ^ 64
    → (prefix : List ℕ) × (length prefix ≤ 10)
      × ReadsBack value
          (prefix ++ value)
          b
          ((write_string_vint value >> set_position b.position >> read_string_vint) b)
unfolding write_string_vint read_string_vint
string_vint_round_trip value b v pos room =
    let f = fill_tmp-Filled 9 (length value) (omega arith) in
    let whole : u64 (length value) ≡ length value = omega arith in
    (
      f.bytes,
      f.in_slots,
      string_back f.bytes value b (write_uint64 (u64 (length value))) read_uint64 v pos
          (omega (arith, f.in_slots))
          (ap (λ n. write_uint64 n b) whole ∙ unfold write_uint64 in rw (f.returns) refl)
          (λ c rest val e u. uint64-Gets (length value) c rest (omega arith) f val u),
    )

-- `writeStringF16` and `readStringF16`: a string that is not empty, and whose length fits 16 bits, is
-- put on the stream behind its length in the object's byte order, and is read back.
-- The object is valid, and has room within 64 bits.
pub string_f16_round_trip :
    (host : Endian) (value : List ℕ) (b : ByteArray)
    → IsValid b
    → 0 < length value
    → length value < 2 ^ 16
    → b.position + (2 + length value) + b.base_size ≤ 2 ^ 64
    → ReadsBack value
        (to_memory b.endian 2 (length value) ++ value)
        b
        ((write_string_f16 host value >> set_position b.position >> read_string_f16 host) b)
unfolding write_string_f16 read_string_f16 write_fuint16 read_fuint16
string_f16_round_trip host value b v pos short room =
    let whole : u16 (length value) ≡ length value = omega arith in
    string_back (to_memory b.endian 2 (length value)) value b
      (write_fixed host 2 (u16 (length value))) (read_fixed host 2) v pos
      (omega (arith, length-to_memory b.endian 2 (length value)))
      (ap (λ n. write_fixed host 2 n b) whole ∙ write_fixed_bytes host 2 (length value) b)
      (λ c rest val e u.
        fixed-Gets host 2 (length value) b c rest val e (omega arith) (omega arith) u)

-- `writeStringF32` and `readStringF32`: a string that is not empty, and whose length fits 32 bits, is
-- put on the stream behind its length in the object's byte order, and is read back.
-- The object is valid, and has room within 64 bits.
pub string_f32_round_trip :
    (host : Endian) (value : List ℕ) (b : ByteArray)
    → IsValid b
    → 0 < length value
    → length value < 2 ^ 32
    → b.position + (4 + length value) + b.base_size ≤ 2 ^ 64
    → ReadsBack value
        (to_memory b.endian 4 (length value) ++ value)
        b
        ((write_string_f32 host value >> set_position b.position >> read_string_f32 host) b)
unfolding write_string_f32 read_string_f32 write_fuint32 read_fuint32
string_f32_round_trip host value b v pos short room =
    let whole : u32 (length value) ≡ length value = omega arith in
    string_back (to_memory b.endian 4 (length value)) value b
      (write_fixed host 4 (u32 (length value))) (read_fixed host 4) v pos
      (omega (arith, length-to_memory b.endian 4 (length value)))
      (ap (λ n. write_fixed host 4 n b) whole ∙ write_fixed_bytes host 4 (length value) b)
      (λ c rest val e u.
        fixed-Gets host 4 (length value) b c rest val e (omega arith) (omega arith) u)

-- `writeStringF64` and `readStringF64`: a string that is not empty is put on the stream behind its
-- length in 8 bytes of the object's byte order, and is read back.
-- The object is valid, and has room within 64 bits.
pub string_f64_round_trip :
    (host : Endian) (value : List ℕ) (b : ByteArray)
    → IsValid b
    → 0 < length value
    → b.position + (8 + length value) + b.base_size ≤ 2 ^ 64
    → ReadsBack value
        (to_memory b.endian 8 (length value) ++ value)
        b
        ((write_string_f64 host value >> set_position b.position >> read_string_f64 host) b)
unfolding write_string_f64 read_string_f64 write_fuint64 read_fuint64
string_f64_round_trip host value b v pos room =
    let whole : u64 (length value) ≡ length value = omega arith in
    string_back (to_memory b.endian 8 (length value)) value b
      (write_fixed host 8 (u64 (length value))) (read_fixed host 8) v pos
      (omega (arith, length-to_memory b.endian 8 (length value)))
      (ap (λ n. write_fixed host 8 n b) whole ∙ write_fixed_bytes host 8 (length value) b)
      (λ c rest val e u.
        fixed-Gets host 8 (length value) b c rest val e (omega arith) (omega arith) u)
