-- ===== src/H2/Hpack/Integers.antt =====
-- The prefixed integers of lib/h2/hpack.js (RFC 7541 section 5.1). A buffer stands for what is left
-- of it from the offset on.
pub mod RoundTrip
use Prim.Native.Nat.{bit_and, bit_or}
use hellojs.Common.{
  ℕ, zero, suc, ◌+◌, ◌-◌, ◌*◌, ◌/◌, ◌^◌, List, [], ◌∷◌, ◌++◌, if◌then◌else◌, ltb, ◌==◌, drop,
}
use hellojs.Common.Bytes.{Bytes, byte_at}

-- `while (value >= 128)` and the push behind it. A round divides by 128, so `value` rounds are
-- enough.
more_bytes : ℕ → ℕ → Bytes
more_bytes zero value = value ∷ []
more_bytes (suc fuel) value =
    let rest = more_bytes fuel (value / 128) in
    if ltb value 128 then value ∷ [] else bit_or (bit_and value 0x7f) 0x80 ∷ rest

pub encode_int : ℕ → ℕ → ℕ → Bytes
unfolding more_bytes
encode_int value prefix_bits first_byte_base =
    let max = 2 ^ prefix_bits - 1 in
    if ltb value max
    then bit_or first_byte_base value ∷ []
    else bit_or first_byte_base max ∷ more_bytes (value - max) (value - max)

-- The loop behind a full prefix: the value, and the number of bytes taken. Past the end
-- `undefined & 0x80` is 0, which ends it with one byte more counted.
read_more : Bytes → ℕ → ℕ → ℕ × ℕ
read_more [] m v = (v, 1)
read_more (b ∷ rest) m v =
    let v' = v + bit_and b 0x7f * 2 ^ m in
    let (w, n) = read_more rest (m + 7) v' in if bit_and b 0x80 == 0 then (v', 1) else (w, n + 1)

-- The value and the length. The source's sum is a double: it is this number up to 2^53, and above, as
-- long as fewer than 147 bytes with the top bit set follow each other, another one above 2^53, or the
-- infinite one, which compare with what fits in a buffer as this number does. Behind more of them a
-- zero times `Math.pow(2, 1029)` makes it NaN: such a block is outside of what is modelled.
pub decode_int : Bytes → ℕ → ℕ × ℕ
unfolding read_more
decode_int buf prefix_bits =
    let max = 2 ^ prefix_bits - 1 in
    let v = bit_and (byte_at buf 0) max in
    let (w, n) = read_more (drop 1 buf) 0 v in if ltb v max then (v, 1) else (w, n + 1)
