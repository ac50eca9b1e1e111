-- ===== src/H2/Hpack/Integers/RoundTrip.antt =====
-- `decodeInt` reads back what `encodeInt` wrote, for every prefix and value.
use Prim.Native.Nat.{bit_and}
use hellojs.Common.{
  ℕ, zero, suc, ◌+◌, ◌-◌, ◌*◌, ◌/◌, ◌%◌, ◌^◌, ◌≤◌, ◌<◌, ◌≡◌, refl, ap, ◌∙◌, [], ◌∷◌, ◌++◌, length,
  arith, dec_lt, le→ltb, lt→ltb,
}
use hellojs.Common.Bytes.{Bytes}
use hellojs.Common.Bits.{
  bit_and_mask, bit_or_field, bit_or_field_comm, agree_bytes, all_below, pow_two_pos,
}
use hellojs.H2.Hpack.Integers.{more_bytes, encode_int, read_more, decode_int}
use native.Mathlib.Nat.{div-add-mod, mul-add-mod_self_right, mod-eq_of_lt}
use native.Mathlib.Numerals.{towards_suc, add-one}

pub low_7 : (b : ℕ) → bit_and b 0x7f ≡ b % 128
low_7 = bit_and_mask 7

pub top_bit : (b : ℕ) → b < 256 → bit_and b 0x80 ≡ b / 128 * 128
unfolding all_below
top_bit b h = agree_bytes (λ b. bit_and b 0x80) (λ b. b / 128 * 128) b refl h

shift_seven : (m : ℕ) → 2 ^ (m + 7) ≡ 128 * 2 ^ m
shift_seven m = simp towards_suc (omega arith)

-- A value split at its lowest seven bits, both parts shifted.
pub split_seven : (v m : ℕ) → v * 2 ^ m ≡ v % 128 * 2 ^ m + v / 128 * 2 ^ (m + 7)
split_seven v m = omega (
  arith,
  ap (λ (t : ℕ). t * 2 ^ m) (div-add-mod v 128),
  ap (λ (t : ℕ). v / 128 * t) (shift_seven m),
)

read_more-more_bytes :
    (fuel v m acc : ℕ) (rest : Bytes)
    → v ≤ fuel
    → read_more (more_bytes fuel v ++ rest) m acc ≡ (acc + v * 2 ^ m, length (more_bytes fuel v))
unfolding read_more more_bytes
read_more-more_bytes zero v m acc rest h = ground (arith, low_7 v, top_bit v)
read_more-more_bytes (suc fuel) v m acc rest h = elim (dec_lt v 128) [
  | yes small ↦ rw (lt→ltb v 128 small) (ground (arith, low_7 v, top_bit v))
  | no large ↦ rw (le→ltb v 128 (omega arith)) (
      ground (
        arith,
        low_7 v,
        bit_or_field_comm 7 1 (v % 128),
        low_7 (v % 128 + 128),
        top_bit (v % 128 + 128),
        split_seven v m,
        read_more-more_bytes fuel (v / 128) (m + 7) (acc + v % 128 * 2 ^ m) rest,
      ))
]

pub field_mod : (p hi r : ℕ) → r < 2 ^ p → (hi * 2 ^ p + r) % 2 ^ p ≡ r
field_mod p hi r h = mul-add-mod_self_right hi (2 ^ p) r ∙ mod-eq_of_lt h

-- The first byte: the flag bits above the prefix, and in the prefix the value or all ones.
pub encode_int_first :
    (value p hi : ℕ)
    → (r : ℕ) × (tail : Bytes) × (encode_int value p (hi * 2 ^ p) ≡ (hi * 2 ^ p + r) ∷ tail)
      × (r < 2 ^ p)
unfolding encode_int
encode_int_first value p hi =
    let pos = pow_two_pos p in
    elim (dec_lt value (2 ^ p - 1)) [
      | yes small ↦ (
        value,
        [],
        rw (lt→ltb value (2 ^ p - 1) small, bit_or_field p hi value (omega arith)),
        omega arith,
      )
      | no large ↦ (
        2 ^ p - 1,
        more_bytes (value - (2 ^ p - 1)) (value - (2 ^ p - 1)),
        rw (le→ltb value (2 ^ p - 1) (omega arith), bit_or_field p hi (2 ^ p - 1) (omega arith)),
        omega arith,
      )
    ]

-- `decodeInt` gives the value back and the number of bytes that `encodeInt` wrote, whatever the
-- value, the width of the prefix, the flag bits above it and the bytes that follow.
pub decode_int-encode_int :
    (value p hi : ℕ) (rest : Bytes)
    → decode_int (encode_int value p (hi * 2 ^ p) ++ rest) p
      ≡ (value, length (encode_int value p (hi * 2 ^ p)))
unfolding decode_int encode_int
decode_int-encode_int value p hi rest =
    let pos = pow_two_pos p in
    elim (dec_lt value (2 ^ p - 1)) [
      | yes small ↦
          let back = bit_and_mask p (hi * 2 ^ p + value) ∙ field_mod p hi value (omega arith) in
          rw (
            lt→ltb value (2 ^ p - 1) small,
            bit_or_field p hi value (omega arith),
            back,
            lt→ltb value (2 ^ p - 1) small,
          )
      | no large ↦
          let top = 2 ^ p - 1 in
          let back = bit_and_mask p (hi * 2 ^ p + top) ∙ field_mod p hi top (omega arith) in
          let more = read_more-more_bytes (value - top) (value - top) 0 top rest (omega arith) in
          rw
            (
              le→ltb value top (omega arith),
              bit_or_field p hi top (omega arith),
              back,
              le→ltb top top (omega arith),
              more,
            )
            (cc
              (whole top (omega arith), add-one (length (more_bytes (value - top) (value - top)))))
    ]
  where
    whole : (top : ℕ) → top ≤ value → top + (value - top) * 2 ^ 0 ≡ value
    whole top h = omega arith

-- `decodeInt` takes a byte at least.
pub decode_int_pos : (buf : Bytes) (p : ℕ) → 1 ≤ (decode_int buf p).1
unfolding decode_int
decode_int_pos buf p = ground arith

-- A zero behind a four-bit prefix is one byte.
pub decode_int-zero : (rest : Bytes) → decode_int (0x00 ∷ rest) 4 ≡ (0, 1)
unfolding decode_int
decode_int-zero rest = refl
