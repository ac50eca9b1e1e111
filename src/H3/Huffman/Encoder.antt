-- ===== src/H3/Huffman/Encoder.antt =====
-- The bytes that `encode` writes, read as bits: the codes one after the other, and ones up to the
-- end of the last byte.
use Prim.Native.Nat.{bit_and, bit_or}
use hellojs.Common.{
  ℕ, zero, suc, ◌+◌, ◌-◌, ◌*◌, ◌/◌, ◌%◌, ◌^◌, ◌≤◌, ◌<◌, ◌≡◌, refl, sym, ap, ◌∙◌, Bool, true, List,
  [], ◌∷◌, ◌++◌, arith, append_assoc, append-nil, ltb, get_or, All, ltb→lt, dec_lt, le→ltb, lt→ltb,
  subst,
}
use hellojs.Common.Bytes.{Bytes, IsByte}
use hellojs.Common.Bits.{bit_and_mask, bit_or_field, pow_two_pos, all_below, all_below_sound}
use hellojs.H3.Huffman.{table, bits_of, buffer_bits, flush, encode_from, encode}
use hellojs.H3.Huffman.Bits.{
  bits_of-append, bits_of_join, bits_of-mod, buffer_bits-append, pow_two_add,
}
use native.Mathlib.Nat.{pow-suc, mod-lt, div-lt_iff_lt-mul}

abbrev pub ones : ℕ → List ℕ
ones zero = []
ones (suc k) = 1 ∷ ones k

-- The code of a symbol as bits.
unfoldable pub code_bits : ℕ → List ℕ
code_bits byte = let (code, len) = get_or table byte (0, 0) in bits_of len code

unfoldable pub codes_bits : Bytes → List ℕ
codes_bits [] = []
codes_bits (b ∷ bs) = code_bits b ++ codes_bits bs

-- What `flush` keeps: whole bytes are out, fewer than eight bits are left, and none is lost.
abbrev Flushed : ℕ → ℕ → Bytes × ℕ × ℕ → Type 0
Flushed buf bits (out, buf', bits') =
    (bits' < 8) × (buf' < 2 ^ bits') × (buffer_bits out ++ bits_of bits' buf' ≡ bits_of bits buf)

flush_step :
    (fuel buf rest : ℕ)
    → buf < 2 ^ (8 + rest)
    → let (out, buf', bits') = flush fuel (buf % 2 ^ rest) rest in
      (flush (suc fuel) buf (8 + rest) ≡ (buf / 2 ^ rest ∷ out, buf', bits'))
      × (buf / 2 ^ rest < 256)
unfolding flush
flush_step fuel buf rest lt =
    let back : 8 + rest - 8 ≡ rest = omega arith in
    let top : buf / 2 ^ rest < 256 =
      (div-lt_iff_lt-mul (pow_two_pos rest)).1 (omega (arith, pow_two_add 8 rest)) in
    let byte : bit_and (buf / 2 ^ rest) 0xff ≡ buf / 2 ^ rest =
      omega (arith, bit_and_mask 8 (buf / 2 ^ rest)) in
    (rw (le→ltb (8 + rest) 8 (omega arith), back, byte, bit_and_mask rest buf), top)

flush_more :
    (fuel buf rest : ℕ)
    → buf < 2 ^ (8 + rest)
    → Flushed (buf % 2 ^ rest) rest (flush fuel (buf % 2 ^ rest) rest)
    → Flushed buf (8 + rest) (flush (suc fuel) buf (8 + rest))
flush_more fuel buf rest fits (few, small, bits) =
    let (out, buf', bits') = flush fuel (buf % 2 ^ rest) rest in
    let front = bits_of 8 (buf / 2 ^ rest) in
    rw (flush_step fuel buf rest fits).0 (
      few,
      small,
      unfold buffer_bits in
          append_assoc front (buffer_bits out) (bits_of bits' buf')
          ∙ ap (λ l. front ++ l) (bits ∙ bits_of-mod rest buf)
          ∙ sym (bits_of-append 8 rest buf),
    )

flush-Flushed :
    (fuel buf bits : ℕ) → bits ≤ fuel → buf < 2 ^ bits → Flushed buf bits (flush fuel buf bits)
flush-Flushed zero buf bits h lt = unfold flush buffer_bits in (omega arith, lt, refl)
flush-Flushed (suc fuel) buf bits h lt = elim (dec_lt bits 8) [
  | yes few ↦ unfold flush buffer_bits in rw (lt→ltb _ _ few) (few, lt, refl)
  | no many ↦
      let e : bits ≡ 8 + (bits - 8) = omega arith in
      subst (λ n. Flushed buf n (flush (suc fuel) buf n)) (sym e)
        (flush_more fuel buf (bits - 8) (subst (λ n. buf < 2 ^ n) e lt)
          (flush-Flushed fuel _ (bits - 8) (omega arith) (mod-lt buf (pow_two_pos (bits - 8)))))
]

ones-bits : (k : ℕ) → bits_of k (2 ^ k - 1) ≡ ones k
unfolding bits_of
ones-bits zero = refl
ones-bits (suc k) =
    let two = pow-suc 2 k in
    let pos = pow_two_pos k in
    let split : 2 ^ suc k - 1 ≡ 1 * 2 ^ k + (2 ^ k - 1) = omega arith in
    let e : suc k ≡ 1 + k = omega arith in
    rw split (
      ap (λ n. bits_of n (1 * 2 ^ k + (2 ^ k - 1))) e
      ∙ bits_of_join 1 k 1 (2 ^ k - 1) (omega arith)
      ∙ ap (λ l. 1 ∷ l) (ones-bits k))

abbrev fits_code : ℕ → Bool
fits_code b = let (code, len) = get_or table b (0, 0) in ltb code (2 ^ len)

codes_fit_table : all_below 256 fits_code ≡ true
unfolding all_below table
codes_fit_table = refl

-- Every code fits into the number of bits that the table gives it.
pub code-fits : (b : ℕ) → b < 256 → let (code, len) = get_or table b (0, 0) in code < 2 ^ len
code-fits b h =
    let (code, len) = get_or table b (0, 0) in
    ltb→lt code (2 ^ len) (all_below_sound 256 fits_code codes_fit_table b h)

join_lt : (a b hi lo : ℕ) → hi < 2 ^ a → lo < 2 ^ b → hi * 2 ^ b + lo < 2 ^ (a + b)
join_lt a b hi lo h k =
    let room : (hi + 1) * 2 ^ b ≤ 2 ^ a * 2 ^ b = grind arith in omega (arith, pow_two_add a b)

-- The last byte: what is left, filled up with ones.
last_byte :
    (n k buf : ℕ)
    → n + k ≡ 8
    → buf < 2 ^ n
    → buffer_bits (bit_and (bit_or (buf * 2 ^ k) (2 ^ k - 1)) 0xff ∷ []) ≡ bits_of n buf ++ ones k
unfolding buffer_bits
last_byte n k buf e h =
    let pos = pow_two_pos k in
    let fits = join_lt n k buf (2 ^ k - 1) h (omega arith) in
    let eight : 2 ^ (n + k) ≡ 256 = ap (λ (t : ℕ). 2 ^ t) e in
    let sum = bit_or_field k buf (2 ^ k - 1) (omega arith) in
    let byte : bit_and (buf * 2 ^ k + (2 ^ k - 1)) 0xff ≡ buf * 2 ^ k + (2 ^ k - 1) =
      omega (arith, bit_and_mask 8 (buf * 2 ^ k + (2 ^ k - 1))) in
    rw (sum, byte)
      (append-nil _
        ∙ ap (λ n. bits_of n (buf * 2 ^ k + (2 ^ k - 1))) (sym e)
        ∙ bits_of_join n k buf (2 ^ k - 1) (omega arith)
        ∙ ap (λ l. bits_of n buf ++ l) (ones-bits k))

-- One byte of input: its code goes behind what is left, and the whole bytes leave.
one_code :
    (buf bits code len : ℕ)
    → buf < 2 ^ bits
    → code < 2 ^ len
    → let (out, buf', bits') = flush (bits + len) (bit_or (buf * 2 ^ len) code) (bits + len) in
      (bits' < 8)
      × (buf' < 2 ^ bits')
      × (buffer_bits out ++ bits_of bits' buf' ≡ bits_of bits buf ++ bits_of len code)
one_code buf bits code len h k =
    let sum = bit_or_field len buf code k in
    let done =
      flush-Flushed (bits + len) (buf * 2 ^ len + code) (bits + len) (omega arith)
        (join_lt bits len buf code h k) in
    rw sum (done.0, done.1, done.2 ∙ bits_of_join bits len buf code k)

regroup {ℓ} :
    {A : Type ℓ} (o p q r c x : List A) → o ++ p ≡ q ++ c → r ≡ p ++ x → o ++ r ≡ q ++ (c ++ x)
regroup o p q r c x e f =
    ap (λ l. o ++ l) f ∙ sym (append_assoc o p x) ∙ ap (λ l. l ++ x) e ∙ append_assoc q c x

pub encode_from-bits :
    (bytes : Bytes) (buf bits : ℕ)
    → All IsByte bytes
    → bits < 8
    → buf < 2 ^ bits
    → (k : ℕ) × (k < 8)
      × (buffer_bits (encode_from bytes buf bits)
          ≡ bits_of bits buf ++ (codes_bits bytes ++ ones k))
unfolding encode_from codes_bits buffer_bits bits_of code_bits
encode_from-bits [] buf zero all few lt = (0, omega arith, refl)
encode_from-bits [] buf (suc n) all few lt = (
  8 - suc n,
  omega arith,
  rw (lt→ltb 0 (suc n) (omega arith)) (last_byte (suc n) (8 - suc n) buf (omega arith) lt),
)
encode_from-bits (b ∷ bytes) buf bits all few lt =
    let (code, len) = get_or table b (0, 0) in
    let (out, buf', bits') = flush (bits + len) (bit_or (buf * 2 ^ len) code) (bits + len) in
    let (few', small, eq) = one_code buf bits code len lt (code-fits b all.0) in
    let (k, below, rest) = encode_from-bits bytes buf' bits' all.1 few' small in
    (
      k,
      below,
      buffer_bits-append out (encode_from bytes buf' bits')
          ∙ regroup _ _ _ _ (code_bits b) (codes_bits bytes ++ ones k) eq rest
          ∙ ap (λ l. bits_of bits buf ++ l)
              (sym (append_assoc (code_bits b) (codes_bits bytes) (ones k))),
    )

-- The bits of an encoding are the codes in order, and at most seven ones.
pub encode-bits :
    (bytes : Bytes)
    → All IsByte bytes
    → (k : ℕ) × (k < 8) × (buffer_bits (encode bytes) ≡ codes_bits bytes ++ ones k)
unfolding encode bits_of
encode-bits bytes all = encode_from-bits bytes 0 0 all (omega arith) (omega arith)
