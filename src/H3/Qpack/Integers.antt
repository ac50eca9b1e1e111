-- ===== src/H3/Qpack/Integers.antt =====
-- The prefixed integers of lib/h3/qpack.js (RFC 9204 section 4.1.1), with the 32-bit shifts that the
-- code makes them with.
pub mod RoundTrip
pub mod Cut
use Prim.Native.Nat.{bit_and, bit_or}
use hellojs.Common.{
  ℕ, zero, suc, ◌+◌, ◌-◌, ◌*◌, ◌/◌, ◌%◌, ◌^◌, [], ◌∷◌, if◌then◌else◌, ltb, ◌==◌, drop,
}
use hellojs.Common.Bytes.{Bytes, byte_at}
use hellojs.Common.Signed.{ℤ, pos, ◌+ℤ◌, to_int32}

-- `while (value >= 128)` and the push behind it; `>>>` reads its operand as 32 bits. A round divides
-- by 128 at least, so `value` rounds are enough.
unfoldable more_bytes : ℕ → ℕ → Bytes
more_bytes zero value = value ∷ []
more_bytes (suc fuel) value =
    let rest = more_bytes fuel (value % 2 ^ 32 / 2 ^ 7) in
    if ltb value 128 then value ∷ [] else bit_or (bit_and value 0x7f) 0x80 ∷ rest

unfoldable pub encode_int : ℕ → ℕ → ℕ → Bytes
unfolding more_bytes
encode_int value prefix_bits first_byte_prefix =
    let max = 2 ^ prefix_bits - 1 in
    if ltb value max
    then bit_or first_byte_prefix value ∷ []
    else bit_or first_byte_prefix max ∷ more_bytes (value - max) (value - max)

-- The loop behind a full prefix: the value, and the number of bytes taken. `<<` shifts by `m` modulo
-- 32 and gives a signed 32-bit number. Past the end `undefined & 0x80` is 0, which ends the loop with
-- one byte more counted.
unfoldable read_more : Bytes → ℕ → ℤ → ℤ × ℕ
read_more [] m v = (v, 1)
read_more (b ∷ rest) m v =
    let v' = v +ℤ to_int32 (bit_and b 0x7f * 2 ^ (m % 32)) in
    let (w, n) = read_more rest (m + 7) v' in if bit_and b 0x80 == 0 then (v', 1) else (w, n + 1)

-- The value and the length, of the bytes from the offset on.
unfoldable pub decode_int : Bytes → ℕ → ℤ × ℕ
unfolding read_more
decode_int buf prefix_bits =
    let max = 2 ^ prefix_bits - 1 in
    let v = bit_and (byte_at buf 0) max in
    let (w, n) = read_more (drop 1 buf) 0 (pos v) in if ltb v max then (pos v, 1) else (w, n + 1)
