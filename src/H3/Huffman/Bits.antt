-- ===== src/H3/Huffman/Bits.antt =====
-- The bits of a number in groups.
use hellojs.Common.{
  ℕ, zero, suc, ◌+◌, ◌*◌, ◌/◌, ◌%◌, ◌^◌, ◌<◌, ◌≡◌, refl, sym, ap, ◌∙◌, [], ◌∷◌, ◌++◌, arith,
  append_assoc,
}
use hellojs.Common.Bytes.{Bytes}
use hellojs.Common.Bits.{pow_two_pos}
use hellojs.H3.Huffman.{bits_of, buffer_bits}
use native.Mathlib.Nat.{pow-suc, div-div-eq-div-mul, div-add-mod, mul-add-div_right, div-eq_of_lt}

pub pow_two_add : (a b : ℕ) → 2 ^ (a + b) ≡ 2 ^ a * 2 ^ b
pow_two_add zero b = let e : 0 + b ≡ b = omega arith in rw e (omega arith)
pow_two_add (suc a) b =
    let e : suc a + b ≡ suc (a + b) = omega arith in
    rw e (
      omega (
        arith,
        pow-suc 2 (a + b),
        pow-suc 2 a,
        pow_two_add a b,
        ap (λ (t : ℕ). t * 2 ^ b) (pow-suc 2 a),
      ))

-- What stands above the bits read does not matter.
pub bits_of-high : (k hi x : ℕ) → bits_of k (hi * 2 ^ k + x) ≡ bits_of k x
unfolding bits_of
bits_of-high zero hi x = refl
bits_of-high (suc k) hi x =
    let split : hi * 2 ^ suc k + x ≡ 2 * hi * 2 ^ k + x =
      omega (arith, ap (λ (t : ℕ). hi * t) (pow-suc 2 k)) in
    let quotient = mul-add-div_right (pow_two_pos k) (2 * hi) x in
    let first : (2 * hi * 2 ^ k + x) / 2 ^ k % 2 ≡ x / 2 ^ k % 2 = omega arith in
    rw (split, first, bits_of-high k (2 * hi) x)

pub bits_of-append : (a b x : ℕ) → bits_of (a + b) x ≡ bits_of a (x / 2 ^ b) ++ bits_of b x
unfolding bits_of
bits_of-append zero b x = let e : 0 + b ≡ b = omega arith in rw e
bits_of-append (suc a) b x =
    let e : suc a + b ≡ suc (a + b) = omega arith in
    let first : x / 2 ^ (a + b) ≡ x / 2 ^ b / 2 ^ a =
      ap (λ (t : ℕ). x / t) (pow_two_add a b ∙ omega arith)
      ∙ sym (div-div-eq-div-mul x (2 ^ b) (2 ^ a)) in
    rw (e, bits_of, first, bits_of-append a b x)

-- Two groups joined.
pub bits_of_join :
    (a b hi lo : ℕ) → lo < 2 ^ b → bits_of (a + b) (hi * 2 ^ b + lo) ≡ bits_of a hi ++ bits_of b lo
bits_of_join a b hi lo h =
    let top : (hi * 2 ^ b + lo) / 2 ^ b ≡ hi =
      omega (arith, mul-add-div_right (pow_two_pos b) hi lo, div-eq_of_lt h) in
    rw (bits_of-append a b (hi * 2 ^ b + lo), top, bits_of-high b hi lo)

-- A number cut to its low `b` bits has the same low bits.
pub bits_of-mod : (b x : ℕ) → bits_of b (x % 2 ^ b) ≡ bits_of b x
bits_of-mod b x =
    let whole : x ≡ x / 2 ^ b * 2 ^ b + x % 2 ^ b = omega (arith, div-add-mod x (2 ^ b)) in
    sym (ap (bits_of b) whole ∙ bits_of-high b (x / 2 ^ b) (x % 2 ^ b))

pub buffer_bits-append : (xs ys : Bytes) → buffer_bits (xs ++ ys) ≡ buffer_bits xs ++ buffer_bits ys
unfolding buffer_bits
buffer_bits-append [] ys = refl
buffer_bits-append (x ∷ xs) ys = rw (buffer_bits-append xs ys, append_assoc)
