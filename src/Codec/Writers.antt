-- ===== src/Codec/Writers.antt =====
-- The bytes that `writeF…` of `ByteArray` (sylar/bytearray.cpp) puts on the stream.
use mathlib.Core.List.{reverse-reverse}
use sylar_demo.Common.{ℕ, ◌<◌, ◌^◌, ◌≡◌, refl, sym, ap, ◌∙◌, reverse, if◌then◌else◌}
use sylar_demo.Endian.{Endian, little, big, to_le, to_memory, from_memory, byteswap}
use sylar_demo.Endian.Laws.{from_memory-to_memory, to_le-byteswap, byteswap-byteswap, byteswap-lt}
use sylar_demo.ByteArray.{ByteArray, write}
use sylar_demo.Codec.{same_order, write_fixed}

-- Whatever the order of the machine, the value or its swap has the bytes of the wanted order.
wire_bytes :
    (host e : Endian) (n v : ℕ)
    → to_memory host n (if same_order e host then v else byteswap n v) ≡ to_memory e n v
unfolding to_memory
wire_bytes little little n v = refl
wire_bytes big big n v = refl
wire_bytes big little n v = ap reverse (to_le-byteswap n v) ∙ reverse-reverse (to_le n v)
wire_bytes little big n v = to_le-byteswap n v

-- So what is written does not depend on the machine, only on the object's byte order.
pub write_fixed_bytes :
    (host : Endian) (n v : ℕ) (b : ByteArray)
    → write_fixed host n v b ≡ write (to_memory b.endian n v) b
unfolding write_fixed
write_fixed_bytes host n v b = ap (λ l. write l b) (wire_bytes host b.endian n v)

-- And those bytes are read back as the value.
pub wire_value :
    (host e : Endian) (n v : ℕ)
    → v < 256 ^ n
    → (if same_order e host
        then from_memory host (to_memory e n v)
        else byteswap n (from_memory host (to_memory e n v)))
      ≡ v
wire_value little little n v h = from_memory-to_memory little n v h
wire_value big big n v h = from_memory-to_memory big n v h
wire_value big little n v h =
    ap (λ l. byteswap n (from_memory big l)) (sym (wire_bytes big little n v))
    ∙ ap (byteswap n) (from_memory-to_memory big n (byteswap n v) (byteswap-lt n v))
    ∙ (byteswap-byteswap n v h).0
wire_value little big n v h =
    ap (λ l. byteswap n (from_memory little l)) (sym (wire_bytes little big n v))
    ∙ ap (byteswap n) (from_memory-to_memory little n (byteswap n v) (byteswap-lt n v))
    ∙ (byteswap-byteswap n v h).0
