-- ===== src/H3/Qpack/Integers/RoundTrip.antt =====
-- `decodeInt` reads back what `encodeInt` wrote, as long as the shifts stay within 32 bits.
use Prim.Native.Nat.{bit_and, bit_or}
use hellojs.Common.{
  ℕ, zero, suc, ◌+◌, ◌-◌, ◌*◌, ◌/◌, ◌%◌, ◌^◌, ◌≤◌, ◌<◌, ◌≡◌, refl, ap, ◌∙◌, true, [], ◌∷◌, ◌++◌,
  length, arith, dec_lt, le→ltb, lt→ltb, ltb, ltb→lt,
}
use hellojs.Common.Bytes.{Bytes}
use hellojs.Common.Bits.{
  bit_and_mask, bit_or_field, bit_or_field_comm, all_below, all_below_sound, pow_two_pos,
}
use hellojs.Common.Signed.{pos, to_int32, to_int32_small}
use hellojs.H2.Hpack.Integers.RoundTrip.{low_7, top_bit, split_seven, field_mod}
use hellojs.H3.Qpack.Integers.{more_bytes, encode_int, read_more, decode_int}
use native.Mathlib.Nat.{mod-eq_of_lt, pow-suc}
use native.Mathlib.Numerals.{add-one}

shifts : all_below 22 (λ m. ltb (128 * 2 ^ m) (2 ^ 31)) ≡ true
unfolding all_below
shifts = refl

-- Seven bits shifted by no more than 21 stay positive.
pub shift_small : (m x : ℕ) → m < 22 → x < 128 → to_int32 (x * 2 ^ (m % 32)) ≡ pos (x * 2 ^ m)
shift_small m x h small =
    let room = ltb→lt (128 * 2 ^ m) (2 ^ 31) (all_below_sound 22 _ shifts m h) in
    let whole : m % 32 ≡ m = mod-eq_of_lt (omega arith) in
    let fits : (x + 1) * 2 ^ m ≤ 128 * 2 ^ m = grind arith in
    let one = pow_two_pos m in rw whole (to_int32_small (x * 2 ^ m) (omega arith))

pub shift_right : (v : ℕ) → v < 2 ^ 28 → v % 2 ^ 32 / 2 ^ 7 ≡ v / 128
shift_right v h = ap (λ (t : ℕ). t / 128) (mod-eq_of_lt (omega arith))

-- A byte that is not the last: its seven low bits, and its top bit.
pub continued : (v : ℕ) → bit_or (bit_and v 127) 128 ≡ v % 128 + 128
continued v =
    let low : v % 128 < 128 = omega arith in
    omega (arith, ap (λ (t : ℕ). bit_or t 128) (low_7 v), bit_or_field_comm 7 1 (v % 128) low)

pub top_of : (v : ℕ) → bit_and (v % 128 + 128) 128 ≡ 128
top_of v = omega (arith, top_bit (v % 128 + 128) (omega arith))

pub field_of : (v : ℕ) → bit_and (v % 128 + 128) 127 ≡ v % 128
field_of v = omega (arith, low_7 (v % 128 + 128))

-- `d` bounds the digits to the base 128.
read_more-more_bytes :
    (d fuel v m acc : ℕ) (rest : Bytes)
    → v ≤ fuel
    → v < 128 ^ suc d
    → v < 2 ^ 28
    → m + 7 * d ≤ 21
    → read_more (more_bytes fuel v ++ rest) m (pos acc)
      ≡ (pos (acc + v * 2 ^ m), length (more_bytes fuel v))
unfolding read_more more_bytes
read_more-more_bytes d zero v m acc rest h lt big room =
    ground (arith, low_7 v, top_bit v, shift_small m v)
read_more-more_bytes zero (suc fuel) v m acc rest h lt big room =
    rw (lt→ltb v 128 lt) (ground (arith, low_7 v, top_bit v, shift_small m v))
read_more-more_bytes (suc d) (suc fuel) v m acc rest h lt big room = elim (dec_lt v 128) [
  | yes small ↦ rw (lt→ltb v 128 small) (ground (arith, low_7 v, top_bit v, shift_small m v))
  | no large ↦
      let next : v / 128 < 128 ^ suc d = omega (arith, pow-suc 128 (suc d)) in
      let low : v % 128 < 128 = omega arith in
      let again =
        read_more-more_bytes d fuel (v / 128) (m + 7) (acc + v % 128 * 2 ^ m) rest (omega arith)
          next (omega arith) (omega arith) in
      rw
        (
          le→ltb v 128 (omega arith),
          shift_right v big,
          continued v,
          top_of v,
          field_of v,
          shift_small m (v % 128) (omega arith) low,
          again,
        )
        (cc (sum_of, add-one (length (more_bytes fuel (v / 128)))))
]
  where
    sum_of : acc + v % 128 * 2 ^ m + v / 128 * 2 ^ (m + 7) ≡ acc + v * 2 ^ m
    sum_of = omega (arith, split_seven v m)

-- The first byte: the flag bits above the prefix, and in the prefix the value or all ones.
pub encode_int_first :
    (value p hi : ℕ)
    → (r : ℕ) × (tail : Bytes) × (encode_int value p (hi * 2 ^ p) ≡ (hi * 2 ^ p + r) ∷ tail)
      × (r < 2 ^ p)
unfolding encode_int
encode_int_first value p hi =
    let one = pow_two_pos p in
    elim (dec_lt value (2 ^ p - 1)) [
      | yes small ↦ (
        value,
        [],
        rw (lt→ltb value (2 ^ p - 1) small, bit_or_field p hi value (omega arith)),
        omega arith,
      )
      | no large ↦ (
        2 ^ p - 1,
        more_bytes (value - (2 ^ p - 1)) (value - (2 ^ p - 1)),
        rw (le→ltb value (2 ^ p - 1) (omega arith), bit_or_field p hi (2 ^ p - 1) (omega arith)),
        omega arith,
      )
    ]

pub decode_int-encode_int :
    (value p hi : ℕ) (rest : Bytes)
    → value < 2 ^ 28
    → decode_int (encode_int value p (hi * 2 ^ p) ++ rest) p
      ≡ (pos value, length (encode_int value p (hi * 2 ^ p)))
unfolding decode_int encode_int
decode_int-encode_int value p hi rest bound =
    let one = pow_two_pos p in
    elim (dec_lt value (2 ^ p - 1)) [
      | yes small ↦
          let back = bit_and_mask p (hi * 2 ^ p + value) ∙ field_mod p hi value (omega arith) in
          rw (
            lt→ltb value (2 ^ p - 1) small,
            bit_or_field p hi value (omega arith),
            back,
            lt→ltb value (2 ^ p - 1) small,
          )
      | no large ↦
          let top = 2 ^ p - 1 in
          let left = value - top in
          let back = bit_and_mask p (hi * 2 ^ p + top) ∙ field_mod p hi top (omega arith) in
          let more =
            read_more-more_bytes 3 left left 0 top rest (omega arith) (omega arith) (omega arith)
              (omega arith) in
          rw
            (
              le→ltb value top (omega arith),
              bit_or_field p hi top (omega arith),
              back,
              le→ltb top top (omega arith),
              more,
            )
            (cc (whole top (omega arith), add-one (length (more_bytes left left))))
    ]
  where
    whole : (top : ℕ) → top ≤ value → top + (value - top) * 2 ^ 0 ≡ value
    whole top h = omega arith

-- A zero behind a prefix of 7 or 8 bits is one byte.
pub encode_int-zero : (encode_int 0 8 0x00 ≡ 0 ∷ []) × (encode_int 0 7 0x00 ≡ 0 ∷ [])
unfolding encode_int
encode_int-zero = (refl, refl)

pub decode_int-zero :
    (rest : Bytes) → (decode_int (0 ∷ rest) 8 ≡ (pos 0, 1)) × (decode_int (0 ∷ rest) 7 ≡ (pos 0, 1))
unfolding decode_int
decode_int-zero rest = (refl, refl)
