-- ===== src/H3/Qpack/Integers/Cut.antt =====
-- `decodeInt` on an integer of which the last bytes are missing: it does not throw.
use hellojs.Common.{
  ℕ, zero, suc, ◌+◌, ◌-◌, ◌*◌, ◌/◌, ◌%◌, ◌^◌, ◌≤◌, ◌<◌, ◌≡◌, refl, ◌∙◌, length, take, arith, dec_lt,
  le→ltb, lt→ltb,
}
use hellojs.Common.Bits.{bit_and_mask, bit_or_field, pow_two_pos}
use hellojs.Common.Signed.{ℤ, pos, negsuc}
use hellojs.H2.Hpack.Integers.RoundTrip.{field_mod}
use hellojs.H3.Qpack.Integers.{more_bytes, encode_int, read_more, decode_int}
use native.Mathlib.Nat.{pow-suc}
use hellojs.H3.Qpack.Integers.RoundTrip.{continued, top_of, field_of, shift_small, shift_right}

-- What `decodeInt` gives for an integer cut off behind `j` bytes: one byte more than there is, and
-- a number that is not negative.
abbrev pub Cut : ℕ → ℤ × ℕ → Type 0
Cut j (pos w, n) = n ≡ suc j
Cut j (negsuc w, n) = ⊥

suc-Cut : (j : ℕ) (r : ℤ × ℕ) → Cut j r → Cut (suc j) (r.0, r.1 + 1)
suc-Cut j (pos w, n) e = omega (arith, e)
suc-Cut j (negsuc w, n) e = e

read_more-Cut :
    (d fuel v m acc j : ℕ)
    → v ≤ fuel
    → v < 128 ^ suc d
    → v < 2 ^ 28
    → m + 7 * d ≤ 21
    → j < length (more_bytes fuel v)
    → Cut j (read_more (take j (more_bytes fuel v)) m (pos acc))
unfolding read_more more_bytes
read_more-Cut d zero v m acc zero h lt big room cut = refl
read_more-Cut d zero v m acc (suc j) h lt big room cut = absurd (omega arith)
read_more-Cut d (suc fuel) v m acc zero h lt big room cut = refl
read_more-Cut zero (suc fuel) v m acc (suc j) h lt big room cut =
    absurd (omega (arith, rw (lt→ltb v 128 lt) at cut))
read_more-Cut (suc d) (suc fuel) v m acc (suc j) h lt big room cut = elim (dec_lt v 128) [
  | yes small ↦ absurd (omega (arith, rw (lt→ltb v 128 small) at cut))
  | no large ↦
      let next : v / 128 < 128 ^ suc d = omega (arith, pow-suc 128 (suc d)) in
      let low : v % 128 < 128 = omega arith in
      let cut' : suc j < suc (length (more_bytes fuel (v / 128))) =
        rw (le→ltb v 128 (omega arith), shift_right v big) at cut in
      let again =
        read_more-Cut d fuel (v / 128) (m + 7) (acc + v % 128 * 2 ^ m) j (omega arith) next
          (omega arith) (omega arith) (omega arith) in
      rw
        (
          le→ltb v 128 (omega arith),
          shift_right v big,
          continued v,
          top_of v,
          field_of v,
          shift_small m (v % 128) (omega arith) low,
        )
        (suc-Cut j _ again)
]

pub decode_int-Cut :
    (value p hi k : ℕ)
    → value < 2 ^ 28
    → k < length (encode_int value p (hi * 2 ^ p))
    → 1 ≤ k
    → Cut k (decode_int (take k (encode_int value p (hi * 2 ^ p))) p)
unfolding decode_int encode_int
decode_int-Cut value p hi zero bound cut one = absurd (omega arith)
decode_int-Cut value p hi (suc k) bound cut one' =
    let one = pow_two_pos p in
    elim (dec_lt value (2 ^ p - 1)) [
      | yes small ↦ absurd (omega (arith, rw (lt→ltb value (2 ^ p - 1) small) at cut))
      | no large ↦
          let top = 2 ^ p - 1 in
          let left = value - top in
          let back = bit_and_mask p (hi * 2 ^ p + top) ∙ field_mod p hi top (omega arith) in
          let cut' : suc k < suc (length (more_bytes left left)) =
            rw (le→ltb value top (omega arith)) at cut in
          let more =
            read_more-Cut 3 left left 0 top k (omega arith) (omega arith) (omega arith)
              (omega arith) (omega arith) in
          rw
            (
              le→ltb value top (omega arith),
              bit_or_field p hi top (omega arith),
              back,
              le→ltb top top (omega arith),
            )
            (suc-Cut k _ more)
    ]
