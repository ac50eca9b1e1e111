-- ===== src/H3/Client/Frames.antt =====
-- A frame that has arrived is read the same with more bytes behind it.
use hellojs.Common.{
  ℕ, ◌/◌, ◌^◌, ◌≤◌, ◌<◌, ◌≡◌, refl, ap, ◌∙◌, subst, false, ◌++◌, none, some, Result, ok, err, ltb,
  le→ltb, ◌==◌, length, drop, length-append, length-drop, drop-append_left, take-append_left,
  get_or-append_left, arith, Bool-cases, Option-cases, Result-cases, ok_inj, some_inj, ◌⊎◌, inl,
  inr,
}
use hellojs.Common.Bytes.{Bytes, byte_at}
use hellojs.H3.Varint.{Value, number, bigint, Decoded, decode}
use hellojs.H3.Varint.Prefix.{IsWhole, decode-append}
use hellojs.H3.Varint.Bounds.{decode_bounds, decode_throws}
use hellojs.H3.Client.{Error, Read, from_varint, peek_varint, read_payload, read_length, read_frame}

-- What has been read of a buffer: the integer, which ends in it.
peek_varint-some :
    (b : Bytes) (d : Decoded)
    → peek_varint b ≡ ok (some d)
    → IsWhole b × (decode b 0 ≡ ok d) × (1 ≤ d.length) × (d.length ≤ length b)
unfolding peek_varint from_varint
peek_varint-some b d e = elim (Bool-cases (length b == 0)) [
  | inl empty ↦ cc (rw (peek_varint, empty) at e)
  | inr some_bytes ↦ elim (Bool-cases (ltb (length b) (2 ^ (byte_at b 0 / 64)))) [
    | inl short ↦ cc (rw (peek_varint, some_bytes, short) at e)
    | inr whole ↦ elim (Result-cases (decode b 0)) [
      | inr (x, thrown) ↦ cc (rw (peek_varint, some_bytes, whole, thrown) at e)
      | inl (d', got) ↦
          let same : d' ≡ d = some_inj (ok_inj (rw (peek_varint, some_bytes, whole, got) at e)) in
          let (lo, hi) = decode_bounds b 0 d' got in
          let one : 1 ≤ length b = ground (arith, some_bytes) in
          let fits : 2 ^ (byte_at b 0 / 64) ≤ length b = ground (arith, whole) in
          (
            (one, fits),
            got ∙ ap ok same,
            subst (λ d. 1 ≤ d.length) same lo,
            subst (λ d. d.length ≤ length b) same (omega arith),
          )
    ]
  ]
]

-- `peekVarint` never throws: it decodes only what is all there.
peek_varint-err : (b : Bytes) (x : Error) → peek_varint b ≡ err x → ⊥
unfolding peek_varint from_varint
peek_varint-err b x e = elim (Bool-cases (length b == 0)) [
  | inl empty ↦ cc (rw (peek_varint, empty) at e)
  | inr some_bytes ↦ elim (Bool-cases (ltb (length b) (2 ^ (byte_at b 0 / 64)))) [
    | inl short ↦ cc (rw (peek_varint, some_bytes, short) at e)
    | inr whole ↦ elim (Result-cases (decode b 0)) [
      | inr (y, thrown) ↦
          let short = decode_throws b 0 y thrown in
          let fits : 2 ^ (byte_at b 0 / 64) ≤ length b = ground (arith, whole) in omega arith
      | inl (d, got) ↦ cc (rw (peek_varint, some_bytes, whole, got) at e)
    ]
  ]
]

peek_varint-append :
    (b c : Bytes) (d : Decoded) → peek_varint b ≡ ok (some d) → peek_varint (b ++ c) ≡ ok (some d)
unfolding peek_varint from_varint
peek_varint-append b c d e =
    let (whole, got, lo, hi) = peek_varint-some b d e in
    let (one, fits) = whole in
    let size = length-append b c in
    let first = get_or-append_left b c 0 0 one in
    let some_bytes : (length (b ++ c) == 0) ≡ false = ground arith in
    let there : ltb (length (b ++ c)) (2 ^ (byte_at b 0 / 64)) ≡ false =
      le→ltb (length (b ++ c)) (2 ^ (byte_at b 0 / 64)) (omega arith) in
    rw (peek_varint, some_bytes, first, there, decode-append b c whole, got) refl

-- What is read of a buffer of `n` bytes, and with `c` behind it.
abbrev pub Extends : ℕ → Bytes → Result Error Read → Result Error Read → Type 0
Extends n c (ok none) r = Unit {0}
Extends n c (ok (some (type, payload, rest))) r =
    (r ≡ ok (some (type, payload, rest ++ c))) × (length rest < n)
Extends n c (err e) r = r ≡ err e

read_payload-Extends :
    (type l : Value) (b c : Bytes) (n : ℕ)
    → length b < n
    → Extends n c (read_payload type l b) (read_payload type l (b ++ c))
unfolding read_payload
read_payload-Extends type (bigint m) b c n h = refl
read_payload-Extends type (number m) b c n h = elim (Bool-cases (ltb (length b) m)) [
  | inl short ↦ rw short tt
  | inr there ↦
      let fits : m ≤ length b = ground (arith, there) in
      let there' : ltb (length (b ++ c)) m ≡ false =
        le→ltb (length (b ++ c)) m (omega (arith, length-append b c)) in
      rw (there, there', take-append_left m b c fits, drop-append_left m b c fits)
        (refl, omega (arith, length-drop m b))
]

peek_varint-cases :
    (b : Bytes) → (peek_varint b ≡ ok none) ⊎ ((d : Decoded) × (peek_varint b ≡ ok (some d)))
peek_varint-cases b = elim (Result-cases (peek_varint b)) [
  | inr (x, thrown) ↦ absurd (peek_varint-err b x thrown)
  | inl (p, got) ↦ elim (Option-cases p) [
    | inl nothing ↦ inl (got ∙ ap ok nothing)
    | inr (d, found) ↦ inr (d, got ∙ ap ok found)
  ]
]

read_length-Extends :
    (t : Decoded) (b c : Bytes) (n : ℕ)
    → length b < n
    → Extends n c (read_length t b) (read_length t (b ++ c))
unfolding read_length
read_length-Extends t b c n h = elim (peek_varint-cases b) [
  | inl nothing ↦ rw (read_length, nothing) tt
  | inr (l, found) ↦
      let (whole, got, lo, hi) = peek_varint-some b l found in
      rw (read_length, found, peek_varint-append b c l found, drop-append_left l.length b c hi)
        (read_payload-Extends t.value l.value (drop l.length b) c n
          (omega (arith, length-drop l.length b)))
]

pub read_frame-Extends : (b c : Bytes) → Extends (length b) c (read_frame b) (read_frame (b ++ c))
unfolding read_frame
read_frame-Extends b c = elim (peek_varint-cases b) [
  | inl nothing ↦ rw (read_frame, nothing) tt
  | inr (t, found) ↦
      let (whole, got, lo, hi) = peek_varint-some b t found in
      rw (read_frame, found, peek_varint-append b c t found, drop-append_left t.length b c hi)
        (read_length-Extends t (drop t.length b) c (length b)
          (omega (arith, length-drop t.length b)))
]
