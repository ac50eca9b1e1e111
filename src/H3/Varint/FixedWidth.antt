-- ===== src/H3/Varint/FixedWidth.antt =====
-- The fixed-width integers of packet numbers: `encodeUint` writes the big-endian bytes and
-- `decodeUint` reads them back, up to the four bytes that QUIC uses.
use Prim.Native.Nat.{bit_and}
use hellojs.Common.{
  ℕ, zero, suc, ◌+◌, ◌-◌, ◌*◌, ◌/◌, ◌%◌, ◌^◌, ◌≤◌, ◌<◌, ◌≡◌, refl, sym, ap, ◌∙◌, [], ◌∷◌, ◌++◌,
  some, append_assoc, append-nil, arith, subst, take, take-append_length, drop, drop-append_length,
  get_or_of_drop, drop_of_drop, length, All,
}
use hellojs.Common.Bits.{bit_or_field, bit_and_mask}
use hellojs.Common.Bytes.{
  Bytes, IsByte, write_be, write_be-IsByte, length-write_be, pow_256_pos, read_be_from,
  read_be-write_be,
}
use hellojs.H3.Varint.{encode_uint, encode_uint_bytes, decode_uint, decode_uint_from}
use native.Mathlib.Nat.{div-div-eq-div-mul, pow-suc}
use native.Mathlib.Numerals.{add-one}

div_256_pow : (x n : ℕ) → x / 256 / 256 ^ n ≡ x / 256 ^ suc n
div_256_pow x n =
    div-div-eq-div-mul x 256 (256 ^ n) ∙ ap (λ (t : ℕ). x / t) (omega (arith, pow-suc 256 n))

-- The last byte apart.
write_be-snoc : (n x : ℕ) → write_be (suc n) x ≡ write_be n (x / 256) ++ (x % 256 ∷ [])
unfolding write_be
write_be-snoc zero x = ap (λ t. t ∷ []) (omega arith)
write_be-snoc (suc n) x =
    ap (λ t. t % 256 ∷ write_be (suc n) x) (sym (div_256_pow x n))
    ∙ ap (λ l. x / 256 / 256 ^ n % 256 ∷ l) (write_be-snoc n x)

encode_uint_bytes-write_be :
    (n v : ℕ) (done : Bytes) → v < 2 ^ 32 → encode_uint_bytes v n done ≡ write_be n v ++ done
unfolding encode_uint_bytes
encode_uint_bytes-write_be zero v done h = unfold write_be in refl
encode_uint_bytes-write_be (suc n) v done h =
    let m = bit_and_mask 8 (v % 2 ^ 32) in
    let low : bit_and (v % 2 ^ 32) 0xff ≡ v % 256 = omega arith in
    let high : v % 2 ^ 32 / 2 ^ 8 ≡ v / 256 = omega arith in
    rw (low, high)
      (encode_uint_bytes-write_be n (v / 256) (v % 256 ∷ done) (omega arith)
        ∙ sym
            (ap (λ l. l ++ done) (write_be-snoc n v) ∙ append_assoc (write_be n (v / 256)) _ done))

pub encode_uint-write_be : (v n : ℕ) → v < 2 ^ 32 → encode_uint v n ≡ write_be n v
unfolding encode_uint
encode_uint-write_be v n h = encode_uint_bytes-write_be n v [] h ∙ append-nil (write_be n v)

pow_256_le : (k : ℕ) → k ≤ 3 → 256 ^ k ≤ 2 ^ 24
pow_256_le zero h = omega arith
pow_256_le (suc zero) h = omega arith
pow_256_le (suc (suc zero)) h = omega arith
pow_256_le (suc (suc (suc zero))) h = omega arith
pow_256_le (suc (suc (suc (suc k)))) h = absurd (omega arith)

pow_256_le_32 : (n : ℕ) → n ≤ 4 → 256 ^ n ≤ 2 ^ 32
pow_256_le_32 zero h = omega arith
pow_256_le_32 (suc n) h = omega (arith, pow-suc 256 n, pow_256_le n (omega arith))

decode_uint_from-read_be :
    (n v k : ℕ) (buf bs : Bytes) (o : ℕ) {x : ℕ}
    → n + k ≡ 4
    → v < 256 ^ k
    → All IsByte (take n bs)
    → drop o buf ≡ bs
    → read_be_from v n bs ≡ some x
    → decode_uint_from buf o n v ≡ x
unfolding read_be_from decode_uint_from
decode_uint_from-read_be zero v k buf bs o e lt all d r = cc
decode_uint_from-read_be (suc n) v k buf [] o e lt all d r = cc
decode_uint_from-read_be (suc n) v k buf (b ∷ bs) o {x} e lt all d r =
    let first = get_or_of_drop o buf b bs 0 d in
    let small = pow_256_le k (omega arith) in
    let shifted : v * 2 ^ 8 % 2 ^ 32 ≡ v * 2 ^ 8 = omega arith in
    let next =
      decode_uint_from-read_be n (v * 256 + b) (suc k) buf bs (suc o) (omega arith) below all.1
        (drop_of_drop o buf b bs d) r in
    rw (first, shifted, bit_or_field 8 v b all.0, add-one o) next
  where
    below : v * 256 + b < 256 ^ suc k
    below = omega (arith, pow-suc 256 k, all.0)

-- `decodeUint` reads back what `encodeUint` wrote in up to four bytes, wherever it stands.
pub decode_uint-encode_uint :
    (v n : ℕ) (front rest : Bytes)
    → n ≤ 4
    → v < 256 ^ n
    → decode_uint (front ++ (encode_uint v n ++ rest)) (length front) n ≡ v
unfolding decode_uint
decode_uint-encode_uint v n front rest h lt =
    let w = write_be n v in
    let own : take n (w ++ rest) ≡ w = rw (length-write_be n v) at (take-append_length w rest) in
    rw (encode_uint-write_be v n (omega (arith, pow_256_le_32 n h))) (
      decode_uint_from-read_be n 0 (4 - n) (front ++ (w ++ rest)) (w ++ rest) (length front)
        (omega arith) (pow_256_pos (4 - n)) (subst (All IsByte) (sym own) (write_be-IsByte n v))
        (drop-append_length front (w ++ rest)) (read_be-write_be n v rest lt))
