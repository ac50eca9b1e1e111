-- ===== src/H3/Varint/Prefix.antt =====
-- Integers that are all there, and those that `encode` writes.
use hellojs.Common.{
  ap, ◌∙◌, drop, sym, drop-append_left, ℕ, zero, suc, ◌+◌, ◌/◌, ◌^◌, ◌≤◌, ◌≡◌, refl, false, ◌++◌,
  Result, ok, err, leb, ltb, le→ltb, ◌==◌, length, length-append, get_or-append_left, arith,
  Bool-cases, inl, inr, lt→leb,
}
use hellojs.Common.Bytes.{Bytes, byte_at}
use hellojs.Common.Bits.{pow_two_pos}
use native.Mathlib.Nat.{pow-suc}
use hellojs.H3.Varint.{
  decode, value_1, value_2, value_4, value_8, narrow, pos, number, bigint, Decoded, Error, encode,
  max_safe_integer, negative, too_large, short_buffer, truncated,
}
use hellojs.H3.Varint.RoundTrip.{Encodes, encode-Encodes}
use hellojs.H3.Varint.Codec.{decode-drop}
use hellojs.H3.Varint.Bounds.{decode_bounds}

value_1-append : (b c : Bytes) → 1 ≤ length b → value_1 (b ++ c) 0 ≡ value_1 b 0
unfolding value_1
value_1-append b c h = rw (get_or-append_left b c 0 0 h) refl

value_2-append : (b c : Bytes) → 2 ≤ length b → value_2 (b ++ c) 0 ≡ value_2 b 0
unfolding value_2
value_2-append b c h =
    rw (get_or-append_left b c 0 0 (omega arith), get_or-append_left b c 1 0 h) refl

value_4-append : (b c : Bytes) → 4 ≤ length b → value_4 (b ++ c) 0 ≡ value_4 b 0
unfolding value_4
value_4-append b c h = ground (
  arith,
  get_or-append_left b c 0 0,
  get_or-append_left b c 1 0,
  get_or-append_left b c 2 0,
  get_or-append_left b c 3 0,
)

value_8-append : (b c : Bytes) → 8 ≤ length b → value_8 (b ++ c) 0 ≡ value_8 b 0
unfolding value_8
value_8-append b c h = ground (
  arith,
  get_or-append_left b c 0 0,
  get_or-append_left b c 1 0,
  get_or-append_left b c 2 0,
  get_or-append_left b c 3 0,
  get_or-append_left b c 4 0,
  get_or-append_left b c 5 0,
  get_or-append_left b c 6 0,
  get_or-append_left b c 7 0,
)

eight_up : (q : ℕ) → (2 ^ q == 1) ≡ false → (2 ^ q == 2) ≡ false → (2 ^ q == 4) ≡ false → 8 ≤ 2 ^ q
eight_up zero a b c = cc
eight_up (suc zero) a b c = cc
eight_up (suc (suc zero)) a b c = cc
eight_up (suc (suc (suc q))) a b c =
    omega (arith, pow-suc 2 (suc (suc q)), pow-suc 2 (suc q), pow-suc 2 q, pow_two_pos q)

-- An integer that is all there, at the front.
abbrev pub IsWhole : Bytes → Type 0
IsWhole b = (1 ≤ length b) × (2 ^ (byte_at b 0 / 64) ≤ length b)

-- Bytes behind an integer do not matter to `decode`.
pub decode-append : (b c : Bytes) → IsWhole b → decode (b ++ c) 0 ≡ decode b 0
unfolding decode
decode-append b c (one, fits) =
    let first = get_or-append_left b c 0 0 one in
    let size = length-append b c in
    let len = 2 ^ (byte_at b 0 / 64) in
    let here = lt→leb 0 (length b) one in
    let here' = lt→leb 0 (length (b ++ c)) (omega arith) in
    let there = le→ltb (length b) (0 + len) (omega arith) in
    let there' = le→ltb (length (b ++ c)) (0 + len) (omega arith) in
    elim (Bool-cases (len == 1)) [
      | inl one_byte ↦ rw (here, here', first, there, there', one_byte, value_1-append b c one) refl
      | inr more ↦ elim (Bool-cases (len == 2)) [
        | inl two ↦
            let fits₂ : 2 ≤ length b = ground (arith, two) in
            rw (here, here', first, there, there', more, two, value_2-append b c fits₂) refl
        | inr more₂ ↦ elim (Bool-cases (len == 4)) [
          | inl four ↦
              let fits₄ : 4 ≤ length b = ground (arith, four) in
              rw (here, here', first, there, there', more, more₂, four, value_4-append b c fits₄)
                refl
          | inr more₄ ↦
              let eight = eight_up (byte_at b 0 / 64) more more₂ more₄ in
              rw
                (
                  here,
                  here',
                  first,
                  there,
                  there',
                  more,
                  more₂,
                  more₄,
                  value_8-append b c (omega arith),
                )
                refl
        ]
      ]
    ]

-- `decode` throws on anything else.
pub decode-IsWhole : (b : Bytes) (d : Decoded) → decode b 0 ≡ ok d → IsWhole b
unfolding decode
decode-IsWhole b d e = elim (Bool-cases (leb (length b) 0)) [
  | inl empty ↦ cc (rw (decode, empty) at e)
  | inr some_bytes ↦ elim (Bool-cases (ltb (length b) (0 + 2 ^ (byte_at b 0 / 64)))) [
    | inl short ↦ cc (rw (decode, some_bytes, short) at e)
    | inr whole ↦ (ground (arith, some_bytes), ground (arith, whole))
  ]
]

pub narrow-number : (v : ℕ) → v ≤ max_safe_integer → narrow v ≡ number v
unfolding narrow
narrow-number v h = ground arith

encode_safe_in :
    (v : ℕ) (r : Result Error Bytes)
    → v ≤ max_safe_integer
    → Encodes (pos v) r
    → (bytes : Bytes) × (r ≡ ok bytes)
encode_safe_in v (ok bytes) h e = (bytes, refl)
encode_safe_in v (err negative) h (n, e) = cc
encode_safe_in v (err too_large) h (w, e, lo) = let same : v ≡ w = cc in absurd (omega arith)
encode_safe_in v (err short_buffer) h e = absurd e
encode_safe_in v (err truncated) h e = absurd e

-- A safe integer is written.
pub encode_safe : (v : ℕ) → v ≤ max_safe_integer → (bytes : Bytes) × (encode (pos v) ≡ ok bytes)
encode_safe v h = encode_safe_in v (encode (pos v)) h (encode-Encodes (pos v))

-- An integer that `decode` reads at an offset lies in the buffer, its reported length included, and
-- is read the same whatever stands behind the buffer.
pub decode-more :
    (buf c : Bytes) (offset : ℕ) (d : Decoded)
    → decode buf offset ≡ ok d
    → (decode (buf ++ c) offset ≡ ok d) × (1 ≤ d.length) × (offset + d.length ≤ length buf)
decode-more buf c offset d e =
    let at_front = sym (decode-drop buf offset) ∙ e in
    let whole = decode-IsWhole (drop offset buf) d at_front in
    let (lo, hi) = decode_bounds buf offset d e in
    (
      decode-drop (buf ++ c) offset
          ∙ ap (λ b. decode b 0) (drop-append_left offset buf c (omega arith))
          ∙ decode-append (drop offset buf) c whole
          ∙ at_front,
      lo,
      hi,
    )

pub narrow-bigint : (v : ℕ) → leb v max_safe_integer ≡ false → narrow v ≡ bigint v
unfolding narrow
narrow-bigint v big = rw big refl
