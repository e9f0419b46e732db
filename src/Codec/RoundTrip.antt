-- ===== src/Codec/RoundTrip.antt =====
-- What is written to a `ByteArray` (sylar/bytearray.cpp) is read back from the same position.
use sylar_demo.Common.{
  ℕ, ◌+◌, ◌^◌, ◌≤◌, ◌<◌, ◌≡◌, sym, ap, ap₂, ◌∙◌, List, ◌++◌, arith, length, take, drop, length-take,
  drop-append_add, Step, done, ◌>>◌,
}
use sylar_demo.Endian.{Endian, to_memory}
use sylar_demo.Endian.Laws.{length-to_memory}
use sylar_demo.ByteArray.{ByteArray, write, set_position}
use sylar_demo.ByteArray.Chain.{flat, splice}
use sylar_demo.ByteArray.Valid.{IsValid, view, unread, write_stream}
use sylar_demo.ByteArray.Write.{Wrote, write-Wrote}
use sylar_demo.ByteArray.Position.{set_position_inside}
use sylar_demo.Codec.{write_fixed, read_fixed}
use sylar_demo.Codec.Readers.{Gets, Gets-bytes}
use sylar_demo.Codec.Writers.{write_fixed_bytes, wire_value}

-- A writer followed by `setPosition` to where it began and a reader: the reader returns `a` and ends
-- behind the `bytes` that were written, and the stream holds them.
pub record ReadsBack {A : Type 0} (a : A) (bytes : List ℕ) (b : ByteArray)
    (result : Step ByteArray A) : Type 0 where
  pub after : ByteArray
  pub returns : result ≡ done a after
  pub valid : IsValid after
  pub content : (view after).content ≡ splice b.position bytes (view b).content
  pub moved : after.position ≡ b.position + length bytes

-- After a write of some bytes and a step back, they are what is to be read next.
splice-unread :
    (at : ℕ) (bytes xs : List ℕ)
    → at ≤ length xs
    → drop at (splice at bytes xs) ≡ bytes ++ drop (at + length bytes) xs
splice-unread at bytes xs h =
    drop-append_add (take at xs) (bytes ++ drop (at + length bytes) xs) 0 at
      (omega (arith, length-take at xs))

pub as-Wrote :
    (bytes : List ℕ) (b : ByteArray) (result : Step ByteArray (Unit {0}))
    → result ≡ write bytes b
    → Wrote bytes b (write bytes b)
    → Wrote bytes b result
as-Wrote bytes b result e w = rw e w

pub read_back :
    {A : Type 0} (a : A) (bytes : List ℕ) (b : ByteArray)
    (writer : ByteArray → Step ByteArray (Unit {0})) (reader : ByteArray → Step ByteArray A)
    → IsValid b
    → 0 < length bytes
    → Wrote bytes b (writer b)
    → ((c : ByteArray) (rest : List ℕ)
        → IsValid c
        → c.endian ≡ b.endian
        → unread (view c) ≡ bytes ++ rest
        → Gets a (length bytes) c (reader c))
    → ReadsBack a bytes b ((writer >> set_position b.position >> reader) b)
unfolding write_stream
read_back a bytes b writer reader v pos w reads =
    let wp : w.after.position ≡ b.position + length bytes = ap (λ s. s.at) w.viewed in
    let (m, moved) =
      set_position_inside b.position w.after w.valid (omega (arith, w.valid.within, wp))
        (omega (arith, w.valid.within, w.valid.held, wp)) in
    let content : (view m.after).content ≡ splice b.position bytes (view b).content =
      ap (λ s. s.content) moved ∙ ap (λ s. s.content) w.viewed in
    let old_size : length (view b).content ≡ b.size =
      omega (arith, length-take b.size (flat b.nodes), v.held, v.counted) in
    let next : unread (view m.after) ≡ bytes ++ drop (b.position + length bytes) (view b).content =
      ap₂ drop m.at_v content
      ∙ splice-unread b.position bytes (view b).content (omega (arith, old_size, v.within)) in
    let g = reads m.after _ m.valid (m.same_endian ∙ w.same_endian) next in
    record {
      after = g.after;
      returns = rw (w.returns, m.returns) g.returns;
      valid = g.valid;
      content = g.content ∙ content;
      moved = omega (arith, g.moved, m.at_v);
    }

pub fixed-Gets :
    (host : Endian) (n value : ℕ) (b c : ByteArray) (rest : List ℕ)
    → IsValid c
    → c.endian ≡ b.endian
    → value < 256 ^ n
    → 0 < n
    → unread (view c) ≡ to_memory b.endian n value ++ rest
    → Gets value (length (to_memory b.endian n value)) c (read_fixed host n c)
unfolding read_fixed
fixed-Gets host n value b c rest val e h pos u =
    let bytes = to_memory b.endian n value in
    let size : n ≡ length bytes = sym (length-to_memory b.endian n value) in
    let g = Gets-bytes n c bytes rest val u size pos in
    record {
      after = g.after;
      returns =
          rw (g.returns, g.same_endian ∙ e)
            (ap (λ x. done x g.after) (wire_value host b.endian n value h));
      valid = g.valid;
      content = g.content;
      moved = omega (arith, g.moved, size);
      same_base = g.same_base;
      same_endian = g.same_endian;
    }

-- `writeFint16/32/64`, `writeFuint16/32/64` and the float functions, for n = 2, 4, 8: on a machine of
-- either order and an object of either order, a value below 256 ^ n is put on the stream as its n
-- bytes in the object's order, and the reader of the same size returns the value.
-- The object is valid, and has room within 64 bits.
pub fixed_round_trip :
    (host : Endian) (n value : ℕ) (b : ByteArray)
    → IsValid b
    → 0 < n
    → value < 256 ^ n
    → b.position + n + b.base_size ≤ 2 ^ 64
    → ReadsBack value
        (to_memory b.endian n value)
        b
        ((write_fixed host n value >> set_position b.position >> read_fixed host n) b)
unfolding read_fixed
fixed_round_trip host n value b v pos h room =
    let size : length (to_memory b.endian n value) ≡ n = length-to_memory b.endian n value in
    read_back value (to_memory b.endian n value) b (write_fixed host n value) (read_fixed host n) v
      (omega (arith, size))
      (as-Wrote (to_memory b.endian n value) b _ (write_fixed_bytes host n value b)
        (write-Wrote (to_memory b.endian n value) b v (omega (arith, size))))
      (λ c rest val e u. fixed-Gets host n value b c rest val e h pos u)
