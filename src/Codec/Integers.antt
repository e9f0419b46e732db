-- ===== src/Codec/Integers.antt =====
-- `writeUint32/64`, `writeInt32/64` of `ByteArray` (sylar/bytearray.cpp) and their readers.
use mathlib.Core.Path.{subst}
use sylar_demo.Common.{
  ℕ, ◌+◌, ◌*◌, ◌^◌, ◌≤◌, ◌<◌, ◌≡◌, refl, ap, List, ◌++◌, arith, length, Step, done, ◌>>◌, then_run,
}
use sylar_demo.ByteArray.{ByteArray, set_position}
use sylar_demo.ByteArray.Valid.{IsValid, view, unread}
use sylar_demo.ByteArray.Write.{write-Wrote}
use sylar_demo.Codec.{
  write_uint32, write_uint64, write_int32, write_int64, read_uint32, read_uint64, read_int32,
  read_int64, encode_zigzag32, encode_zigzag64, decode_zigzag32, decode_zigzag64, read_groups,
}
use sylar_demo.Codec.Zigzag.{zigzag32, zigzag64}
use sylar_demo.Codec.Varint.{Filled, fill_tmp-Filled}
use sylar_demo.Codec.Groups.{read_groups-Gets}
use sylar_demo.Codec.Readers.{Gets}
use sylar_demo.Codec.RoundTrip.{ReadsBack, read_back, as-Wrote}

Gets-map :
    {A B : Type 0} (f : A → B) (a : A) (a' : B) (n : ℕ) (b : ByteArray) (result : Step ByteArray A)
    → f a ≡ a'
    → Gets a n b result
    → Gets a' n b (then_run result (λ x s. done (f x) s))
Gets-map f a a' n b result e g = record {
  after = g.after;
  returns = rw (g.returns) (ap (λ x. done x g.after) e);
  valid = g.valid;
  content = g.content;
  moved = g.moved;
  same_base = g.same_base;
  same_endian = g.same_endian;
}

pub uint32-Gets :
    (v : ℕ) (c : ByteArray) (rest : List ℕ)
    → v < 2 ^ 32
    → (f : Filled 5 v) → IsValid c
    → unread (view c) ≡ f.bytes ++ rest
    → Gets v (length f.bytes) c (read_uint32 c)
unfolding read_uint32
uint32-Gets v c rest h f val u =
    let same : 0 + v * 2 ^ 0 ≡ v = omega arith in
    subst (λ a. Gets a (length f.bytes) c (read_groups 32 32 0 0 c)) same
      (read_groups-Gets 5 32 32 0 0 v c f.bytes rest f.returns val u (omega arith) (omega arith)
        (omega arith) (omega arith))

-- `writeUint32` of any 32-bit number takes at most 5 bytes, so it stays in `tmp`; back at the
-- position, `readUint32` returns the number, with the position behind those bytes and the stream
-- changed nowhere else.
-- The object is valid, and has room within 64 bits.
pub uint32_round_trip :
    (value : ℕ) (b : ByteArray)
    → IsValid b
    → value < 2 ^ 32
    → b.position + 5 + b.base_size ≤ 2 ^ 64
    → (bytes : List ℕ) × (length bytes ≤ 5)
      × ReadsBack value bytes b ((write_uint32 value >> set_position b.position >> read_uint32) b)
uint32_round_trip value b v h room =
    let f = fill_tmp-Filled 4 value (omega arith) in
    (
      f.bytes,
      f.in_slots,
      read_back value f.bytes b (write_uint32 value) read_uint32 v f.some_bytes
          (as-Wrote f.bytes b _ (unfold write_uint32 in rw (f.returns) refl)
            (write-Wrote f.bytes b v (omega (arith, f.in_slots))))
          (λ c rest val e u. uint32-Gets value c rest h f val u),
    )

-- `writeInt32` of any 32-bit pattern takes at most 5 bytes, so it stays in `tmp`; back at the
-- position, `readInt32` returns the pattern, with the position behind those bytes and the stream
-- changed nowhere else.
-- The object is valid, and has room within 64 bits.
pub int32_round_trip :
    (value : ℕ) (b : ByteArray)
    → IsValid b
    → value < 2 ^ 32
    → b.position + 5 + b.base_size ≤ 2 ^ 64
    → (bytes : List ℕ) × (length bytes ≤ 5)
      × ReadsBack value bytes b ((write_int32 value >> set_position b.position >> read_int32) b)
unfolding read_int32 write_int32
int32_round_trip value b v h room =
    let code = encode_zigzag32 value in
    let z = zigzag32 value h in
    let f = fill_tmp-Filled 4 code (omega (arith, z.0)) in
    (
      f.bytes,
      f.in_slots,
      read_back value f.bytes b (write_int32 value) read_int32 v f.some_bytes
          (as-Wrote f.bytes b _ (unfold write_uint32 in rw (f.returns) refl)
            (write-Wrote f.bytes b v (omega (arith, f.in_slots))))
          (λ c rest val e u.
            Gets-map decode_zigzag32 code value (length f.bytes) c (read_uint32 c) z.2
              (uint32-Gets code c rest z.0 f val u)),
    )

pub uint64-Gets :
    (v : ℕ) (c : ByteArray) (rest : List ℕ)
    → v < 2 ^ 64
    → (f : Filled 10 v) → IsValid c
    → unread (view c) ≡ f.bytes ++ rest
    → Gets v (length f.bytes) c (read_uint64 c)
unfolding read_uint64
uint64-Gets v c rest h f val u =
    let same : 0 + v * 2 ^ 0 ≡ v = omega arith in
    subst (λ a. Gets a (length f.bytes) c (read_groups 64 64 0 0 c)) same
      (read_groups-Gets 10 64 64 0 0 v c f.bytes rest f.returns val u (omega arith) (omega arith)
        (omega arith) (omega arith))

-- `writeUint64` of any 64-bit number takes at most 10 bytes, so it stays in `tmp`; back at the
-- position, `readUint64` returns the number, with the position behind those bytes and the stream
-- changed nowhere else.
-- The object is valid, and has room within 64 bits.
pub uint64_round_trip :
    (value : ℕ) (b : ByteArray)
    → IsValid b
    → value < 2 ^ 64
    → b.position + 10 + b.base_size ≤ 2 ^ 64
    → (bytes : List ℕ) × (length bytes ≤ 10)
      × ReadsBack value bytes b ((write_uint64 value >> set_position b.position >> read_uint64) b)
uint64_round_trip value b v h room =
    let f = fill_tmp-Filled 9 value (omega arith) in
    (
      f.bytes,
      f.in_slots,
      read_back value f.bytes b (write_uint64 value) read_uint64 v f.some_bytes
          (as-Wrote f.bytes b _ (unfold write_uint64 in rw (f.returns) refl)
            (write-Wrote f.bytes b v (omega (arith, f.in_slots))))
          (λ c rest val e u. uint64-Gets value c rest h f val u),
    )

-- `writeInt64` of any 64-bit pattern takes at most 10 bytes, so it stays in `tmp`; back at the
-- position, `readInt64` returns the pattern, with the position behind those bytes and the stream
-- changed nowhere else.
-- The object is valid, and has room within 64 bits.
pub int64_round_trip :
    (value : ℕ) (b : ByteArray)
    → IsValid b
    → value < 2 ^ 64
    → b.position + 10 + b.base_size ≤ 2 ^ 64
    → (bytes : List ℕ) × (length bytes ≤ 10)
      × ReadsBack value bytes b ((write_int64 value >> set_position b.position >> read_int64) b)
unfolding read_int64 write_int64
int64_round_trip value b v h room =
    let code = encode_zigzag64 value in
    let z = zigzag64 value h in
    let f = fill_tmp-Filled 9 code (omega (arith, z.0)) in
    (
      f.bytes,
      f.in_slots,
      read_back value f.bytes b (write_int64 value) read_int64 v f.some_bytes
          (as-Wrote f.bytes b _ (unfold write_uint64 in rw (f.returns) refl)
            (write-Wrote f.bytes b v (omega (arith, f.in_slots))))
          (λ c rest val e u.
            Gets-map decode_zigzag64 code value (length f.bytes) c (read_uint64 c) z.2
              (uint64-Gets code c rest z.0 f val u)),
    )
