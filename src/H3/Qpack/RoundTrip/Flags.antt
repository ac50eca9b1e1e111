-- ===== src/H3/Qpack/RoundTrip/Flags.antt =====
-- The flag bits of the field lines that the encoder writes, by evaluation.
use Prim.Native.Nat.{bit_and}
use hellojs.Common.{ℕ, ◌+◌, ◌<◌, ◌≡◌, refl, Bool, true, not, ◌&&◌, ◌==◌, arith}
use hellojs.Common.Bits.{all_below, all_below_sound}
use hellojs.H3.Qpack.Decode.Steps.{Clear}

indexed_bits : ℕ → Bool
indexed_bits r =
    bit_and (192 + r) 0xc0 == 0xc0
    && (bit_and (192 + r) 0x80 == 0x80 && not (bit_and (192 + r) 0x40 == 0))

named_bits : ℕ → Bool
named_bits r =
    bit_and (80 + r) 0xc0 == 0x40
    && (bit_and (80 + r) 0xf0 == 0x50
        && (bit_and (80 + r) 0x80 == 0 && not (bit_and (80 + r) 0x10 == 0)))

literal_bits : ℕ → Bool
literal_bits r =
    bit_and (32 + r) 0xc0 == 0
    && (bit_and (32 + r) 0xf0 == 0x20
        && (bit_and (32 + r) 0xe0 == 0x20
            && (bit_and (32 + r) 0x80 == 0 && bit_and (32 + r) 0x08 == 0)))

indexed_table : all_below 64 indexed_bits ≡ true
unfolding all_below indexed_bits
indexed_table = refl

named_table : all_below 16 named_bits ≡ true
unfolding all_below named_bits
named_table = refl

literal_table : all_below 8 literal_bits ≡ true
unfolding all_below literal_bits
literal_table = refl

pub indexed_first :
    (r : ℕ)
    → r < 64
    → (bit_and (192 + r) 0xc0 ≡ 0xc0)
      × (bit_and (192 + r) 0x80 ≡ 0x80)
      × (not (bit_and (192 + r) 0x40 == 0) ≡ true)
unfolding indexed_bits
indexed_first r h = ground (arith, all_below_sound 64 indexed_bits indexed_table r h)

pub named_first :
    (r : ℕ)
    → r < 16
    → (bit_and (80 + r) 0xc0 ≡ 0x40)
      × (bit_and (80 + r) 0xf0 ≡ 0x50)
      × (bit_and (80 + r) 0x80 ≡ 0)
      × (not (bit_and (80 + r) 0x10 == 0) ≡ true)
unfolding named_bits
named_first r h = ground (arith, all_below_sound 16 named_bits named_table r h)

pub literal_first :
    (r : ℕ)
    → r < 8
    → (bit_and (32 + r) 0xc0 ≡ 0)
      × (bit_and (32 + r) 0xf0 ≡ 0x20)
      × (bit_and (32 + r) 0xe0 ≡ 0x20)
      × (bit_and (32 + r) 0x80 ≡ 0)
      × (bit_and (32 + r) 0x08 ≡ 0)
unfolding literal_bits
literal_first r h = ground (arith, all_below_sound 8 literal_bits literal_table r h)

plain_first : all_below 128 (λ r. bit_and r 0x80 == 0) ≡ true
unfolding all_below
plain_first = refl

pub seven-Clear : Clear 7 0
seven-Clear r h = ground (arith, all_below_sound 128 _ plain_first r h)

pub three-Clear : Clear 3 4
three-Clear r h = (literal_first r h).4
