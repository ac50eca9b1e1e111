-- ===== src/H3/Qpack/Instructions/Flags.antt =====
-- The flag bits of the encoder's instructions, and the Huffman bit of a literal, by evaluation.
use Prim.Native.Nat.{bit_and}
use hellojs.Common.{ℕ, ◌+◌, ◌*◌, ◌^◌, ◌<◌, ◌≡◌, refl, Bool, true, false, not, ◌&&◌, ◌==◌, arith}
use hellojs.Common.Bits.{all_below, all_below_sound}
use hellojs.H3.Qpack.Instructions.Written.{huffman_bit}

-- The Huffman bit of a literal's first byte.
abbrev pub Flagged : ℕ → ℕ → Type 0
Flagged p hi =
    (h : Bool) (r : ℕ)
    → r < 2 ^ p
    → not (bit_and ((2 * hi + huffman_bit h) * 2 ^ p + r) (2 ^ p) == 0) ≡ h

flags_7 : all_below 128 (λ r. bit_and r 0x80 == 0 && not (bit_and (128 + r) 0x80 == 0)) ≡ true
unfolding all_below
flags_7 = refl

flags_5 : all_below 32 (λ r. bit_and (64 + r) 0x20 == 0 && not (bit_and (96 + r) 0x20 == 0)) ≡ true
unfolding all_below
flags_5 = refl

pub seven-Flagged : Flagged 7 0
seven-Flagged true r h = ground (arith, all_below_sound 128 _ flags_7 r h)
seven-Flagged false r h = ground (arith, all_below_sound 128 _ flags_7 r h)

pub five-Flagged : Flagged 5 1
five-Flagged true r h = ground (arith, all_below_sound 32 _ flags_5 r h)
five-Flagged false r h = ground (arith, all_below_sound 32 _ flags_5 r h)

low_bits : ℕ → Bool
low_bits r =
    bit_and (32 + r) 0xe0 == 0x20
    && (bit_and r 0xe0 == 0 && (bit_and r 0x80 == 0 && bit_and r 0xc0 == 0))

high_bits : ℕ → Bool
high_bits r =
    not (bit_and (64 + r) 0xe0 == 0x20)
    && (not (bit_and (64 + r) 0x80 == 0x80)
        && (bit_and (64 + r) 0xc0 == 0x40
            && (not (bit_and (128 + r) 0xe0 == 0x20)
                && (bit_and (128 + r) 0x80 == 0x80
                    && (bit_and (128 + r) 0x40 == 0
                        && (not (bit_and (192 + r) 0xe0 == 0x20)
                            && (bit_and (192 + r) 0x80 == 0x80
                                && not (bit_and (192 + r) 0x40 == 0))))))))

low_table : all_below 32 low_bits ≡ true
unfolding all_below low_bits
low_table = refl

high_table : all_below 64 high_bits ≡ true
unfolding all_below high_bits
high_table = refl

pub low_first :
    (r : ℕ)
    → r < 32
    → (bit_and (32 + r) 0xe0 ≡ 0x20)
      × (bit_and r 0xe0 ≡ 0)
      × (bit_and r 0x80 ≡ 0)
      × (bit_and r 0xc0 ≡ 0)
unfolding low_bits
low_first r h = ground (arith, all_below_sound 32 low_bits low_table r h)

pub literal_first :
    (r : ℕ)
    → r < 64
    → ((bit_and (64 + r) 0xe0 == 0x20) ≡ false)
      × ((bit_and (64 + r) 0x80 == 0x80) ≡ false)
      × (bit_and (64 + r) 0xc0 ≡ 0x40)
unfolding high_bits
literal_first r h = ground (arith, all_below_sound 64 high_bits high_table r h)

pub dynamic_first :
    (r : ℕ)
    → r < 64
    → ((bit_and (128 + r) 0xe0 == 0x20) ≡ false)
      × (bit_and (128 + r) 0x80 ≡ 0x80)
      × (bit_and (128 + r) 0x40 ≡ 0)
unfolding high_bits
dynamic_first r h = ground (arith, all_below_sound 64 high_bits high_table r h)

pub static_first :
    (r : ℕ)
    → r < 64
    → ((bit_and (192 + r) 0xe0 == 0x20) ≡ false)
      × (bit_and (192 + r) 0x80 ≡ 0x80)
      × (not (bit_and (192 + r) 0x40 == 0) ≡ true)
unfolding high_bits
static_first r h = ground (arith, all_below_sound 64 high_bits high_table r h)
