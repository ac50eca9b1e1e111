-- ===== src/H3/Varint/RoundTrip.antt =====
-- `decode` reads back what `encode` wrote, at any offset, and `encode` is the shortest form.
use Prim.Native.Nat.{bit_or}
use hellojs.Common.{
  ℕ, ◌+◌, ◌*◌, ◌/◌, ◌%◌, ◌^◌, ◌≤◌, ◌<◌, ◌≡◌, refl, ap, ◌∙◌, [], ◌∷◌, ◌++◌, some, some_inj, Result,
  ok, err, length, arith, drop-append_length, All, ltb, if◌then◌else◌, subst, dec_lt, le→ltb,
  lt→ltb,
}
use hellojs.Common.Bits.{bit_or_field_comm}
use hellojs.Common.Bytes.{
  Bytes, IsByte, write_be, write_be-IsByte, length-write_be, read_be_from-write_be,
}
use hellojs.H3.Varint.{
  ℤ, pos, negsuc, number, Error, encode, decode, narrow, value_8, too_large, negative,
}
use hellojs.H3.Varint.Codec.{
  decode-drop, value_1-arith, value_2-arith, value_4-arith, value_8-arith,
}

pub decode_1 :
    (a : ℕ) (rest : Bytes)
    → a < 64
    → decode (a ∷ rest) 0 ≡ ok (record { value = number a; length = 1 })
unfolding decode
decode_1 a rest h =
    let e : a / 64 ≡ 0 = omega arith in
    ground (arith, e, value_1-arith a rest, ap (λ (t : ℕ). 2 ^ t) e)

decode_2 :
    (a b : ℕ) (rest : Bytes)
    → a / 64 ≡ 1
    → IsByte b
    → decode (a ∷ b ∷ rest) 0 ≡ ok (record { value = number (a % 64 * 256 + b); length = 2 })
unfolding decode
decode_2 a b rest e h = ground (arith, value_2-arith a b rest, ap (λ (t : ℕ). 2 ^ t) e)

decode_4 :
    (a b c d : ℕ) (rest : Bytes)
    → a / 64 ≡ 2
    → IsByte b
    → IsByte c
    → IsByte d
    → decode (a ∷ b ∷ c ∷ d ∷ rest) 0
      ≡ ok (record { value = number (((a % 64 * 256 + b) * 256 + c) * 256 + d); length = 4 })
unfolding decode
decode_4 a b c d rest e hb hc hd =
    ground (arith, value_4-arith a b c d rest, ap (λ (t : ℕ). 2 ^ t) e)

decode_8 :
    (a b c d e f g h : ℕ) (rest : Bytes)
    → a / 64 ≡ 3
    → decode (a ∷ b ∷ c ∷ d ∷ e ∷ f ∷ g ∷ h ∷ rest) 0
      ≡ ok
          (record { value = narrow (value_8 (a ∷ b ∷ c ∷ d ∷ e ∷ f ∷ g ∷ h ∷ rest) 0); length = 8 })
unfolding decode
decode_8 a b c d e f g h rest p = ground (arith, ap (λ (t : ℕ). 2 ^ t) p)

pub narrow_small : (v : ℕ) → v < 2 ^ 53 → narrow v ≡ number v
unfolding narrow
narrow_small v h = ground arith

-- The number of bytes that `encode` takes for `v`.
abbrev pub encoded_length : ℕ → ℕ
encoded_length v =
    if ltb v 64 then 1 else if ltb v 16384 then 2 else if ltb v (2 ^ 30) then 4 else 8

decode-encode_2 :
    (v : ℕ) (rest : Bytes)
    → v < 16384
    → decode (write_be 2 (bit_or v 0x4000) ++ rest) 0 ≡ ok (record { value = number v; length = 2 })
unfolding write_be
decode-encode_2 v rest h =
    let e = bit_or_field_comm 14 1 v h in
    rw e (
      decode_2 _ _ rest (omega arith) (omega arith)
      ∙ ap (λ x. ok (record { value = number x; length = 2 })) (omega arith))

decode-encode_4 :
    (v : ℕ) (rest : Bytes)
    → v < 2 ^ 30
    → decode (write_be 4 (bit_or v 0x80000000 % 2 ^ 32) ++ rest) 0
      ≡ ok (record { value = number v; length = 4 })
unfolding write_be
decode-encode_4 v rest h =
    let e = bit_or_field_comm 31 1 v (omega arith) in
    rw e (
      decode_4 _ _ _ _ rest (omega arith) (omega arith) (omega arith) (omega arith)
      ∙ ap (λ x. ok (record { value = number x; length = 4 })) (omega arith))

decode-encode_8 :
    (v : ℕ) (rest : Bytes)
    → v < 2 ^ 62
    → decode (write_be 8 (bit_or v 0xc000000000000000) ++ rest) 0
      ≡ ok (record { value = narrow v; length = 8 })
unfolding write_be
decode-encode_8 v rest h =
    let e = bit_or_field_comm 62 3 v h in
    rw e (
      decode_8 _ _ _ _ _ _ _ _ rest (omega arith)
      ∙ ap (λ x. ok (record { value = narrow x; length = 8 })) (some_inj read))
  where
    x : ℕ
    x = 3 * 2 ^ 62 + v

    a : ℕ
    a = x / 256 ^ 7 % 256

    read : some (value_8 (write_be 8 x ++ rest) 0) ≡ some v
    read =
        value_8-arith a _ _ _ _ _ _ _ rest (write_be-IsByte 7 x)
        ∙ read_be_from-write_be 7 (a % 64) x rest
        ∙ ap some (omega arith)

-- What `encode` writes, range by range.
encode_1 : (v : ℕ) → v < 64 → encode (pos v) ≡ ok (v ∷ [])
unfolding encode
encode_1 v h = rw (lt→ltb _ _ h)

encode_2 : (v : ℕ) → 64 ≤ v → v < 16384 → encode (pos v) ≡ ok (write_be 2 (bit_or v 0x4000))
unfolding encode
encode_2 v l h = rw (le→ltb _ _ l, lt→ltb _ _ h)

encode_4 :
    (v : ℕ)
    → 16384 ≤ v
    → v < 2 ^ 30
    → encode (pos v) ≡ ok (write_be 4 (bit_or v 0x80000000 % 2 ^ 32))
unfolding encode
encode_4 v l h = rw (le→ltb v 64 (omega arith), le→ltb _ _ l, lt→ltb _ _ h)

encode_8 :
    (v : ℕ)
    → 2 ^ 30 ≤ v
    → v < 2 ^ 62
    → encode (pos v) ≡ ok (write_be 8 (bit_or v 0xc000000000000000))
unfolding encode
encode_8 v l h =
    rw (le→ltb v 64 (omega arith), le→ltb v 16384 (omega arith), le→ltb _ _ l, lt→ltb _ _ h)

encode_too_large : (v : ℕ) → 2 ^ 62 ≤ v → encode (pos v) ≡ err too_large
unfolding encode
encode_too_large v l = rw (
  le→ltb v 64 (omega arith),
  le→ltb v 16384 (omega arith),
  le→ltb v (2 ^ 30) (omega arith),
  le→ltb _ _ l,
)

abbrev ReadsBack : ℕ → Bytes → Bytes → Type 0
ReadsBack v rest bytes =
    (decode (bytes ++ rest) 0 ≡ ok (record { value = narrow v; length = length bytes }))
    × (length bytes ≡ encoded_length v)

-- `encode` has one outcome.
settle :
    (v : ℕ) (rest w bytes : Bytes)
    → encode (pos v) ≡ ok w
    → encode (pos v) ≡ ok bytes
    → ReadsBack v rest w
    → ReadsBack v rest bytes
settle v rest w bytes e h = let same : w ≡ bytes = cc in subst (ReadsBack v rest) same

data Range (v : ℕ) : Type 0 where
  below_64 : v < 64 → Range v
  below_16384 : 64 ≤ v → v < 16384 → Range v
  below_2_30 : 16384 ≤ v → v < 2 ^ 30 → Range v
  below_2_62 : 2 ^ 30 ≤ v → v < 2 ^ 62 → Range v
  above : 2 ^ 62 ≤ v → Range v

range : (v : ℕ) → Range v
range v = elim (dec_lt v 64) [
  | yes p ↦ below_64 p
  | no p ↦ elim (dec_lt v 16384) [
    | yes q ↦ below_16384 (omega arith) q
    | no q ↦ elim (dec_lt v (2 ^ 30)) [
      | yes r ↦ below_2_30 (omega arith) r
      | no r ↦ elim (dec_lt v (2 ^ 62)) [
        | yes s ↦ below_2_62 (omega arith) s
        | no s ↦ above (omega arith)
      ]
    ]
  ]
]

decode-encode_front :
    (v : ℕ) (bytes rest : Bytes) → encode (pos v) ≡ ok bytes → ReadsBack v rest bytes
decode-encode_front v bytes rest h = elim (range v) [
  | below_64 p ↦
      settle v rest _ bytes (encode_1 v p) h
        (decode_1 v rest p ∙ rw (narrow_small v (omega arith)), ground arith)
  | below_16384 l p ↦ settle v rest _ bytes (encode_2 v l p) h (
    decode-encode_2 v rest p
        ∙ rw (narrow_small v (omega arith), length-write_be 2 (bit_or v 0x4000)),
    ground (arith, length-write_be 2 (bit_or v 0x4000)),
  )
  | below_2_30 l p ↦ settle v rest _ bytes (encode_4 v l p) h (
    decode-encode_4 v rest p
        ∙ rw (narrow_small v (omega arith), length-write_be 4 (bit_or v 0x80000000 % 2 ^ 32)),
    ground (arith, length-write_be 4 (bit_or v 0x80000000 % 2 ^ 32)),
  )
  | below_2_62 l p ↦ settle v rest _ bytes (encode_8 v l p) h (
    decode-encode_8 v rest p ∙ rw (length-write_be 8 (bit_or v 0xc000000000000000)),
    ground (arith, length-write_be 8 (bit_or v 0xc000000000000000)),
  )
  | above p ↦ cc (encode_too_large v p)
]

-- Whatever `encode` wrote for a value `decode` reads back, at any offset and with anything behind
-- it, as a Number up to 2^53 - 1 and a BigInt above, and the length that it reports is the number
-- of bytes written.
pub decode-encode :
    (v : ℕ) (front bytes rest : Bytes)
    → encode (pos v) ≡ ok bytes
    → decode (front ++ (bytes ++ rest)) (length front)
      ≡ ok (record { value = narrow v; length = length bytes })
decode-encode v front bytes rest h =
    decode-drop (front ++ (bytes ++ rest)) (length front)
    ∙ rw (drop-append_length front (bytes ++ rest)) (decode-encode_front v bytes rest h).0

-- `encode` throws `negative` below 0 and `too_large` from 2^62 on; in between it writes 1, 2, 4
-- or 8 bytes, as many as `encoded_length` says, all of them in range, which read back.
abbrev pub Encodes : ℤ → Result Error Bytes → Type 0
Encodes z (err negative) = (n : ℕ) × (z ≡ negsuc n)
Encodes z (err too_large) = (v : ℕ) × (z ≡ pos v) × (2 ^ 62 ≤ v)
Encodes z (err e) = ⊥
Encodes z (ok bytes) =
    (v : ℕ) × (z ≡ pos v)
    × (v < 2 ^ 62)
    × (length bytes ≡ encoded_length v)
    × All IsByte bytes
    × ((rest : Bytes)
        → decode (bytes ++ rest) 0 ≡ ok (record { value = narrow v; length = length bytes }))

-- `encode` writes a number below 2^62 that is not negative, in as few of 1, 2, 4 and 8 bytes as hold
-- it, which read back with anything behind them, and throws `negative` below 0 and `too_large` above.
pub encode-Encodes : (z : ℤ) → Encodes z (encode z)
encode-Encodes (negsuc n) = unfold encode in (n, refl)
encode-Encodes (pos v) = elim (range v) [
  | below_64 p ↦ rw (encode_1 v p) (
    v,
    refl,
    omega arith,
    ground arith,
    omega arith,
    λ rest. decode-encode v [] (v ∷ []) rest (encode_1 v p),
  )
  | below_16384 l p ↦
      let w = write_be 2 (bit_or v 0x4000) in
      rw (encode_2 v l p) (
        v,
        refl,
        omega arith,
        (decode-encode_front v w [] (encode_2 v l p)).1,
        write_be-IsByte 2 _,
        λ rest. decode-encode v [] w rest (encode_2 v l p),
      )
  | below_2_30 l p ↦
      let w = write_be 4 (bit_or v 0x80000000 % 2 ^ 32) in
      rw (encode_4 v l p) (
        v,
        refl,
        omega arith,
        (decode-encode_front v w [] (encode_4 v l p)).1,
        write_be-IsByte 4 _,
        λ rest. decode-encode v [] w rest (encode_4 v l p),
      )
  | below_2_62 l p ↦
      let w = write_be 8 (bit_or v 0xc000000000000000) in
      rw (encode_8 v l p) (
        v,
        refl,
        p,
        (decode-encode_front v w [] (encode_8 v l p)).1,
        write_be-IsByte 8 _,
        λ rest. decode-encode v [] w rest (encode_8 v l p),
      )
  | above p ↦ rw (encode_too_large v p) (v, refl, p)
]
