-- ===== src/Codec.antt =====
-- sylar/bytearray.cpp: the integers and strings that `ByteArray` writes and reads. A signed integer
-- is its bit pattern, the number below 2 ^ w that two's complement gives it; a float or a double is
-- the pattern that `memcpy` takes from it; a string is the list of its bytes.
pub mod Zigzag
pub mod Varint
pub mod Groups
pub mod Readers
pub mod Writers
pub mod RoundTrip
pub mod Integers
pub mod Strings
mod Runs
use mathlib.Core.Option
use sylar_demo.Common.{
  ℕ, zero, suc, ◌+◌, ◌-◌, ◌*◌, ◌/◌, ◌%◌, ◌^◌, Bool, true, false, List, [], ◌∷◌, ◌++◌, Option, none,
  some, length, u8, u16, u32, u64, ltb, leb, ◌==◌, if◌then◌else◌, bit_and, bit_or, bit_xor, Step,
  done, thrown, fault, then_run, ◌>>=◌, ◌>>◌, return,
}
use sylar_demo.Endian.{Endian, little, big, to_memory, from_memory, byteswap}
use sylar_demo.ByteArray.{ByteArray, read, write}

-- `m_endian == SYLAR_BYTE_ORDER`
abbrev pub same_order : Endian → Endian → Bool
same_order little little = true
same_order big big = true
same_order little big = false
same_order big little = false

-- `-x` on `uint32_t` and `uint64_t`, and on the bit patterns of the signed types.
abbrev pub neg32 : ℕ → ℕ
neg32 x = (2 ^ 32 - x) % 2 ^ 32

abbrev pub neg64 : ℕ → ℕ
neg64 x = (2 ^ 64 - x) % 2 ^ 64

-- `v < 0` is the top bit. `v * 2` and `-v` are computed as the machine does where the signed
-- operation overflows.
pub encode_zigzag32 : ℕ → ℕ
encode_zigzag32 v = if leb (2 ^ 31) v then u32 (u32 (neg32 v * 2) + 2 ^ 32 - 1) else u32 (v * 2)

pub encode_zigzag64 : ℕ → ℕ
encode_zigzag64 v = if leb (2 ^ 63) v then u64 (u64 (neg64 v * 2) + 2 ^ 64 - 1) else u64 (v * 2)

pub decode_zigzag32 : ℕ → ℕ
decode_zigzag32 v = bit_xor (v / 2) (neg32 (bit_and v 1))

pub decode_zigzag64 : ℕ → ℕ
decode_zigzag64 v = bit_xor (v / 2) (neg64 (bit_and v 1))

-- The loop of `writeUint32` and `writeUint64` that fills `tmp`, with the slots of `tmp` that are
-- left: `none` is a write behind the array.
pub fill_tmp : ℕ → ℕ → Option (List ℕ)
fill_tmp zero value = none
fill_tmp (suc slots) value =
    let rest = fill_tmp slots (value / 2 ^ 7) in
    if leb 0x80 value
    then Option.map (λ l. u8 (bit_or (bit_and value 0x7f) 0x80) ∷ l) rest
    else some (u8 value ∷ [])

pub write_tmp : Option (List ℕ) → ByteArray → Step ByteArray (Unit {0})
write_tmp none b = fault
write_tmp (some bytes) b = write bytes b

pub write_uint32 : ℕ → ByteArray → Step ByteArray (Unit {0})
unfolding write_tmp
write_uint32 value = write_tmp (fill_tmp 5 value)

pub write_uint64 : ℕ → ByteArray → Step ByteArray (Unit {0})
unfolding write_tmp
write_uint64 value = write_tmp (fill_tmp 10 value)

pub write_int32 : ℕ → ByteArray → Step ByteArray (Unit {0})
write_int32 value = write_uint32 (encode_zigzag32 value)

pub write_int64 : ℕ → ByteArray → Step ByteArray (Unit {0})
write_int64 value = write_uint64 (encode_zigzag64 value)

pub write_string_without_length : List ℕ → ByteArray → Step ByteArray (Unit {0})
write_string_without_length value = write value

pub write_string_vint : List ℕ → ByteArray → Step ByteArray (Unit {0})
write_string_vint value = do write_uint64 (u64 (length value)); write value

-- The bytes of one object of type `int8_t` or `uint8_t`.
abbrev pub head_or_zero : List ℕ → ℕ
head_or_zero [] = 0
head_or_zero (x ∷ xs) = x

pub read_fuint8 : ByteArray → Step ByteArray ℕ
read_fuint8 = do bytes ← read 1; return (head_or_zero bytes)

pub read_fint8 : ByteArray → Step ByteArray ℕ
read_fint8 = do bytes ← read 1; return (head_or_zero bytes)

-- The loop `for(int i = 0; i < w; i += 7)` of `readUint32` and `readUint64`, with fuel: w rounds are
-- more than it makes. `return` is both the `break` and the end of the loop.
pub read_groups : ℕ → ℕ → ℕ → ℕ → ByteArray → Step ByteArray ℕ
read_groups zero w i result = return result
read_groups (suc fuel) w i result =
    if ltb i w
    then (do
      b ← read_fuint8
      if ltb b 0x80
          then return (bit_or result (b * 2 ^ i % 2 ^ w))
          else read_groups fuel w (i + 7) (bit_or result (bit_and b 0x7f * 2 ^ i % 2 ^ w)))
    else return result

pub read_uint32 : ByteArray → Step ByteArray ℕ
read_uint32 = read_groups 32 32 0 0

pub read_uint64 : ByteArray → Step ByteArray ℕ
read_uint64 = read_groups 64 64 0 0

pub read_int32 : ByteArray → Step ByteArray ℕ
read_int32 = do v ← read_uint32; return (decode_zigzag32 v)

pub read_int64 : ByteArray → Step ByteArray ℕ
read_int64 = do v ← read_uint64; return (decode_zigzag64 v)

pub read_string_vint : ByteArray → Step ByteArray (List ℕ)
read_string_vint = do len ← read_uint64; read len

-- SYLAR_BYTE_ORDER, the order of the machine that runs the code.
module _ (host : Endian) where
  pub write_fint8 : ℕ → ByteArray → Step ByteArray (Unit {0})
  write_fint8 value = write (to_memory host 1 value)

  pub write_fuint8 : ℕ → ByteArray → Step ByteArray (Unit {0})
  write_fuint8 value = write (to_memory host 1 value)

  -- The common body of the functions for 2, 4 and 8 bytes.
  pub write_fixed : ℕ → ℕ → ByteArray → Step ByteArray (Unit {0})
  write_fixed n value b =
      write (to_memory host n (if same_order b.endian host then value else byteswap n value)) b

  pub write_fint16 : ℕ → ByteArray → Step ByteArray (Unit {0})
  write_fint16 = write_fixed 2

  pub write_fuint16 : ℕ → ByteArray → Step ByteArray (Unit {0})
  write_fuint16 = write_fixed 2

  pub write_fint32 : ℕ → ByteArray → Step ByteArray (Unit {0})
  write_fint32 = write_fixed 4

  pub write_fuint32 : ℕ → ByteArray → Step ByteArray (Unit {0})
  write_fuint32 = write_fixed 4

  pub write_fint64 : ℕ → ByteArray → Step ByteArray (Unit {0})
  write_fint64 = write_fixed 8

  pub write_fuint64 : ℕ → ByteArray → Step ByteArray (Unit {0})
  write_fuint64 = write_fixed 8

  pub write_float : ℕ → ByteArray → Step ByteArray (Unit {0})
  write_float = write_fuint32

  pub write_double : ℕ → ByteArray → Step ByteArray (Unit {0})
  write_double = write_fuint64

  pub write_string_f16 : List ℕ → ByteArray → Step ByteArray (Unit {0})
  write_string_f16 value = do write_fuint16 (u16 (length value)); write value

  pub write_string_f32 : List ℕ → ByteArray → Step ByteArray (Unit {0})
  write_string_f32 value = do write_fuint32 (u32 (length value)); write value

  pub write_string_f64 : List ℕ → ByteArray → Step ByteArray (Unit {0})
  write_string_f64 value = do write_fuint64 (u64 (length value)); write value

  -- The macro `XX(type)`, with the size of the type.
  pub ordered : ℕ → List ℕ → ByteArray → Step ByteArray ℕ
  ordered n bytes b =
      done
        (if same_order b.endian host
          then from_memory host bytes
          else byteswap n (from_memory host bytes))
        b

  pub read_fixed : ℕ → ByteArray → Step ByteArray ℕ
  unfolding ordered
  read_fixed n = do bytes ← read n; ordered n bytes

  pub read_fint16 : ByteArray → Step ByteArray ℕ
  read_fint16 = read_fixed 2

  pub read_fuint16 : ByteArray → Step ByteArray ℕ
  read_fuint16 = read_fixed 2

  pub read_fint32 : ByteArray → Step ByteArray ℕ
  read_fint32 = read_fixed 4

  pub read_fuint32 : ByteArray → Step ByteArray ℕ
  read_fuint32 = read_fixed 4

  pub read_fint64 : ByteArray → Step ByteArray ℕ
  read_fint64 = read_fixed 8

  pub read_fuint64 : ByteArray → Step ByteArray ℕ
  read_fuint64 = read_fixed 8

  pub read_float : ByteArray → Step ByteArray ℕ
  read_float = read_fuint32

  pub read_double : ByteArray → Step ByteArray ℕ
  read_double = read_fuint64

  pub read_string_f16 : ByteArray → Step ByteArray (List ℕ)
  read_string_f16 = do len ← read_fuint16; read len

  pub read_string_f32 : ByteArray → Step ByteArray (List ℕ)
  read_string_f32 = do len ← read_fuint32; read len

  pub read_string_f64 : ByteArray → Step ByteArray (List ℕ)
  read_string_f64 = do len ← read_fuint64; read len
