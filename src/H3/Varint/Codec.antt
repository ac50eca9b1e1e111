-- ===== src/H3/Varint/Codec.antt =====
-- What the two codecs write and read, as arithmetic.
use Prim.Native.Nat.{bit_and, bit_or}
use hellojs.Common.{
  ℕ, ◌+◌, ◌*◌, ◌%◌, ◌^◌, ◌<◌, ◌≡◌, refl, ap, [], ◌∷◌, some, arith, drop, get_or-drop, length-drop,
  All,
}
use hellojs.Common.Bits.{bit_or_field, bit_and_mask}
use hellojs.Common.Bytes.{Bytes, IsByte, read_be_from}
use hellojs.H3.Varint.{decode, value_1, value_2, value_4, value_8}

-- `|` of a multiple of 2^k and a number below 2^k is their sum.
pub bit_or_sum : (k hi x lo : ℕ) → x ≡ hi * 2 ^ k → lo < 2 ^ k → bit_or x lo ≡ x + lo
bit_or_sum k hi x lo e h = rw e (bit_or_field k hi lo h)

pub low_six : (b : ℕ) → bit_and b 0x3f ≡ b % 64
low_six = bit_and_mask 6

pub value_1-arith : (b : ℕ) (rest : Bytes) → value_1 (b ∷ rest) 0 ≡ b % 64
unfolding value_1
value_1-arith b rest = low_six b

pub value_2-arith :
    (a b : ℕ) (rest : Bytes) → IsByte b → value_2 (a ∷ b ∷ rest) 0 ≡ a % 64 * 256 + b
unfolding value_2
value_2-arith a b rest h =
    omega (arith, low_six a, bit_or_sum 8 (bit_and a 0x3f) (bit_and a 0x3f * 2 ^ 8) b refl h)

pub value_4-arith :
    (a b c d : ℕ) (rest : Bytes)
    → IsByte b
    → IsByte c
    → IsByte d
    → value_4 (a ∷ b ∷ c ∷ d ∷ rest) 0 ≡ ((a % 64 * 256 + b) * 256 + c) * 256 + d
unfolding value_4
value_4-arith a b c d rest hb hc hd =
    let f = low_six a in
    let x₁ =
      bit_or_sum 24 (bit_and a 0x3f) (bit_and a 0x3f * 2 ^ 24) (b * 2 ^ 16) refl (omega arith) in
    let y₁ = bit_or (bit_and a 0x3f * 2 ^ 24) (b * 2 ^ 16) in
    let x₂ = bit_or_sum 16 (a % 64 * 256 + b) y₁ (c * 2 ^ 8) (omega arith) (omega arith) in
    let y₂ = bit_or y₁ (c * 2 ^ 8) in
    let x₃ = bit_or_sum 8 ((a % 64 * 256 + b) * 256 + c) y₂ d (omega arith) (omega arith) in
    omega arith

value_1-drop : (buf : Bytes) (o : ℕ) → value_1 buf o ≡ value_1 (drop o buf) 0
unfolding value_1
value_1-drop buf o = ground (arith, get_or-drop o 0 buf 0)

value_2-drop : (buf : Bytes) (o : ℕ) → value_2 buf o ≡ value_2 (drop o buf) 0
unfolding value_2
value_2-drop buf o = ground (arith, get_or-drop o 0 buf 0, get_or-drop o 1 buf 0)

value_4-drop : (buf : Bytes) (o : ℕ) → value_4 buf o ≡ value_4 (drop o buf) 0
unfolding value_4
value_4-drop buf o = ground (
  arith,
  get_or-drop o 0 buf 0,
  get_or-drop o 1 buf 0,
  get_or-drop o 2 buf 0,
  get_or-drop o 3 buf 0,
)

value_8-drop : (buf : Bytes) (o : ℕ) → value_8 buf o ≡ value_8 (drop o buf) 0
unfolding value_8
value_8-drop buf o = ground (
  arith,
  get_or-drop o 0 buf 0,
  get_or-drop o 1 buf 0,
  get_or-drop o 2 buf 0,
  get_or-drop o 3 buf 0,
  get_or-drop o 4 buf 0,
  get_or-drop o 5 buf 0,
  get_or-drop o 6 buf 0,
  get_or-drop o 7 buf 0,
)

-- `decode` at an offset reads what `decode` reads at the front of the rest.
pub decode-drop : (buf : Bytes) (offset : ℕ) → decode buf offset ≡ decode (drop offset buf) 0
unfolding decode
decode-drop buf o = ground (
  arith,
  length-drop o buf,
  get_or-drop o 0 buf 0,
  value_1-drop buf o,
  value_2-drop buf o,
  value_4-drop buf o,
  value_8-drop buf o,
)

pub value_8-arith :
    (a b c d e f g h : ℕ) (rest : Bytes)
    → All IsByte (b ∷ c ∷ d ∷ e ∷ f ∷ g ∷ h ∷ [])
    → some (value_8 (a ∷ b ∷ c ∷ d ∷ e ∷ f ∷ g ∷ h ∷ rest) 0)
      ≡ read_be_from (a % 64) 7 (b ∷ c ∷ d ∷ e ∷ f ∷ g ∷ h ∷ rest)
unfolding value_8 read_be_from
value_8-arith a b c d e f g h rest k =
    let z = low_six a in
    let y₀ = bit_and a 0x3f * 2 ^ 56 in
    let v₁ = a % 64 * 256 + b in
    let v₂ = v₁ * 256 + c in
    let v₃ = v₂ * 256 + d in
    let v₄ = v₃ * 256 + e in
    let v₅ = v₄ * 256 + f in
    let v₆ = v₅ * 256 + g in
    let s₁ = bit_or_sum 56 (bit_and a 0x3f) y₀ (b * 2 ^ 48) refl (omega arith) in
    let y₁ = bit_or y₀ (b * 2 ^ 48) in
    let s₂ = bit_or_sum 48 v₁ y₁ (c * 2 ^ 40) (omega arith) (omega arith) in
    let y₂ = bit_or y₁ (c * 2 ^ 40) in
    let s₃ = bit_or_sum 40 v₂ y₂ (d * 2 ^ 32) (omega arith) (omega arith) in
    let y₃ = bit_or y₂ (d * 2 ^ 32) in
    let s₄ = bit_or_sum 32 v₃ y₃ (e * 2 ^ 24) (omega arith) (omega arith) in
    let y₄ = bit_or y₃ (e * 2 ^ 24) in
    let s₅ = bit_or_sum 24 v₄ y₄ (f * 2 ^ 16) (omega arith) (omega arith) in
    let y₅ = bit_or y₄ (f * 2 ^ 16) in
    let s₆ = bit_or_sum 16 v₅ y₅ (g * 2 ^ 8) (omega arith) (omega arith) in
    let y₆ = bit_or y₅ (g * 2 ^ 8) in
    let s₇ = bit_or_sum 8 v₆ y₆ h (omega arith) (omega arith) in ap some (omega arith)
