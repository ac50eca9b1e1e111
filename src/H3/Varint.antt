-- ===== src/H3/Varint.antt =====
-- lib/h3/varint.js: the QUIC variable-length integers, and the fixed-width ones of packet numbers.
pub mod Codec
pub mod RoundTrip
pub mod Bounds
pub mod FixedWidth
pub mod Prefix
mod Runs
use Prim.Native.Nat.{bit_and, bit_or}
use hellojs.Common.{
  ℕ, zero, suc, ◌+◌, ◌*◌, ◌/◌, ◌%◌, ◌^◌, ◌<◌, Bool, List, [], ◌∷◌, ◌++◌, Result, ok, err,
  if◌then◌else◌, ltb, leb, ◌==◌, length,
}
use hellojs.Common.Bytes.{Bytes, byte_at, write_be}

-- A BigInt argument: `negsuc n` is -(n + 1).
pub data ℤ : Type 0 where
  pos : ℕ → ℤ
  negsuc : ℕ → ℤ

pub data Error : Type 0 where
  negative too_large short_buffer truncated : Error

-- The value of `decode`: a Number up to 2^53 - 1, a BigInt above.
pub data Value : Type 0 where
  number : ℕ → Value
  bigint : ℕ → Value

pub record Decoded : Type 0 where
  pub value : Value
  pub length : ℕ

abbrev pub max_safe_integer : ℕ
max_safe_integer = 0x1fffffffffffff

unfoldable pub encode : ℤ → Result Error Bytes
encode (negsuc n) = err negative
encode (pos v) =
    if ltb v 64
    then ok (v ∷ [])
    else if ltb v 16384
    then ok (write_be 2 (bit_or v 0x4000))
    else if ltb v (2 ^ 30)
    then ok (write_be 4 (bit_or v 0x80000000 % 2 ^ 32))
    else if ltb v (2 ^ 62)
    then ok (write_be 8 (bit_or v 0xc000000000000000))
    else err too_large

-- The four ways in which `decode` puts the bytes together.
pub value_1 : Bytes → ℕ → ℕ
value_1 buf offset = bit_and (byte_at buf offset) 0x3f

pub value_2 : Bytes → ℕ → ℕ
value_2 buf offset = bit_or (bit_and (byte_at buf offset) 0x3f * 2 ^ 8) (byte_at buf (offset + 1))

pub value_4 : Bytes → ℕ → ℕ
value_4 buf offset =
    bit_or
      (bit_or
        (bit_or (bit_and (byte_at buf offset) 0x3f * 2 ^ 24) (byte_at buf (offset + 1) * 2 ^ 16))
        (byte_at buf (offset + 2) * 2 ^ 8))
      (byte_at buf (offset + 3))

pub value_8 : Bytes → ℕ → ℕ
value_8 buf offset =
    bit_or
      (bit_or
        (bit_or
          (bit_or
            (bit_or
              (bit_or
                (bit_or (bit_and (byte_at buf offset) 0x3f * 2 ^ 56)
                  (byte_at buf (offset + 1) * 2 ^ 48))
                (byte_at buf (offset + 2) * 2 ^ 40))
              (byte_at buf (offset + 3) * 2 ^ 32))
            (byte_at buf (offset + 4) * 2 ^ 24))
          (byte_at buf (offset + 5) * 2 ^ 16))
        (byte_at buf (offset + 6) * 2 ^ 8))
      (byte_at buf (offset + 7))

pub narrow : ℕ → Value
narrow big = if leb big max_safe_integer then number big else bigint big

pub decode : Bytes → ℕ → Result Error Decoded
decode buf offset =
    if leb (length buf) offset
    then err short_buffer
    else let len = 2 ^ (byte_at buf offset / 64) in
      if ltb (length buf) (offset + len)
      then err truncated
      else if len == 1
      then ok (record { value = number (value_1 buf offset); length = 1 })
      else if len == 2
      then ok (record { value = number (value_2 buf offset); length = 2 })
      else if len == 4
      then ok (record { value = number (value_4 buf offset); length = 4 })
      else ok (record { value = narrow (value_8 buf offset); length = len })

-- `value & 0xff` and `value >>>= 8` see the value modulo 2^32.
encode_uint_bytes : ℕ → ℕ → Bytes → Bytes
encode_uint_bytes value zero done = done
encode_uint_bytes value (suc i) done =
    encode_uint_bytes (value % 2 ^ 32 / 2 ^ 8) i (bit_and (value % 2 ^ 32) 0xff ∷ done)

pub encode_uint : ℕ → ℕ → Bytes
unfolding encode_uint_bytes
encode_uint value byte_len = encode_uint_bytes value byte_len []

-- The 32-bit accumulator as its unsigned reading, which `>>> 0` returns.
decode_uint_from : Bytes → ℕ → ℕ → ℕ → ℕ
decode_uint_from buf offset zero v = v
decode_uint_from buf offset (suc n) v =
    decode_uint_from buf (offset + 1) n (bit_or (v * 2 ^ 8 % 2 ^ 32) (byte_at buf offset))

pub decode_uint : Bytes → ℕ → ℕ → ℕ
unfolding decode_uint_from
decode_uint buf offset byte_len = decode_uint_from buf offset byte_len 0
