-- ===== src/H3/Packet/Written.antt =====
-- One frame that an encoder wrote is read back by one round of `decodeFrames`.
use Prim.Native.Nat.{bit_or}
use hellojs.Common.{
  ℕ, ◌^◌, ◌<◌, ◌≡◌, refl, Bool, true, false, [], ◌∷◌, ◌++◌, append_assoc, Result, ok, err,
  >>=-eq-ok, ok_inj, subst, if◌then◌else◌, ◌==◌, length, take, drop, take-append_length,
  drop-append_length, arith, Bool-cases, inl, inr,
}
use hellojs.Common.Bytes.{Bytes}
use hellojs.Common.Text.{Strings}
use hellojs.H3.Varint.{Value, number, pos, narrow, encode, decode, Decoded}
use hellojs.H3.Varint as Varint
use hellojs.H3.Varint.RoundTrip.{decode-encode, narrow_small}
use hellojs.H3.Packet.Frames.{
  stream, from_varint, field, span, read_ranges, read_ack, read_crypto, read_data, read_stream,
  decode_frame, encode_crypto_frame, encode_stream_frame, encode_ack_frame,
  encode_retire_connection_id_frame, encode_path_challenge_frame, encode_path_response_frame,
  encode_datagram_frame,
}
use hellojs.H3.Packet.Sendable.{
  Sendable, send_crypto, send_stream, send_ack, send_retire, send_challenge, send_response,
  send_datagram, encode_one, received, IsShort,
}

pub from_varint-eq-ok {ℓ} :
    {A : Type ℓ} (r : Result Varint.Error A) (a : A) → from_varint r ≡ ok a → r ≡ ok a
unfolding from_varint
from_varint-eq-ok (ok b) a e = cc
from_varint-eq-ok (err x) a e = cc

pub field-encode :
    (v : ℕ) (w rest : Bytes)
    → from_varint (encode (pos v)) ≡ ok w
    → field (w ++ rest) ≡ ok (narrow v, rest)
unfolding field from_varint
field-encode v w rest e =
    rw
      (
        decode-encode v [] w rest (from_varint-eq-ok (encode (pos v)) w e),
        drop-append_length w rest,
      )
      refl

pub span-encode :
    (b rest : Bytes) → length b < 2 ^ 53 → span (narrow (length b)) (b ++ rest) ≡ ok (b, rest)
unfolding span
span-encode b rest h =
    rw (narrow_small (length b) h, take-append_length b rest, drop-append_length b rest) refl

read_data-encode :
    (b w rest : Bytes)
    → length b < 2 ^ 53
    → from_varint (encode (pos (length b))) ≡ ok w
    → read_data true (w ++ (b ++ rest)) ≡ ok (b, rest)
unfolding read_data
read_data-encode b w rest h e = rw (field-encode (length b) w (b ++ rest) e) (span-encode b rest h)

eight_bytes :
    (b rest : Bytes)
    → (length b == 8) ≡ true
    → (take 8 (b ++ rest) ≡ b) × (drop 8 (b ++ rest) ≡ rest)
eight_bytes b rest e =
    let size : length b ≡ 8 = ground arith in
    (
      subst (λ n. take n (b ++ rest) ≡ b) size (take-append_length b rest),
      subst (λ n. drop n (b ++ rest) ≡ rest) size (drop-append_length b rest),
    )

module _ (u : Strings) where
  -- What was written starts with a type that is not PADDING, and is read back.
  abbrev pub ReadsBack : Sendable → Bytes → Bytes → Type 0
  ReadsBack f w rest =
      (t : ℕ) × (bs : Bytes) × (w ++ rest ≡ t ∷ bs)
      × ((t == 0x00) ≡ false)
      × (decode_frame u t bs ≡ ok (received f, rest))

  crypto-ReadsBack :
      (o : ℕ) (b w rest : Bytes)
      → length b < 2 ^ 53
      → encode_crypto_frame o b ≡ ok w
      → ReadsBack (send_crypto o b) w rest
  unfolding encode_crypto_frame decode_frame read_crypto
  crypto-ReadsBack o b w rest h e =
      let (x, ex, e₁) = >>=-eq-ok (from_varint (encode (pos o))) _ e in
      let (y, ey, e₂) = >>=-eq-ok (from_varint (encode (pos (length b)))) _ e₁ in
      (
        0x06,
        x ++ (y ++ (b ++ rest)),
        subst (λ z. z ++ rest ≡ 0x06 ∷ (x ++ (y ++ (b ++ rest)))) (ok_inj e₂) (simp append_assoc),
        refl,
        rw (field-encode o x (y ++ (b ++ rest)) ex)
            (rw (field-encode (length b) y (b ++ rest) ey) (rw (span-encode b rest h) refl)),
      )

  decode_frame-stream :
      (sid o : ℕ) (b : Bytes) (fin : Bool) (z x y rest : Bytes)
      → length b < 2 ^ 53
      → from_varint (encode (pos sid)) ≡ ok z
      → from_varint (encode (pos o)) ≡ ok x
      → from_varint (encode (pos (length b))) ≡ ok y
      → decode_frame u (if fin then 0x0f else 0x0e) (z ++ (x ++ (y ++ (b ++ rest))))
        ≡ ok (stream (narrow sid) (narrow o) b fin, rest)
  unfolding decode_frame read_stream
  decode_frame-stream sid o b true z x y rest h ez ex ey =
      rw (field-encode sid z (x ++ (y ++ (b ++ rest))) ez)
        (rw (field-encode o x (y ++ (b ++ rest)) ex) (rw (read_data-encode b y rest h ey) refl))
  decode_frame-stream sid o b false z x y rest h ez ex ey =
      rw (field-encode sid z (x ++ (y ++ (b ++ rest))) ez)
        (rw (field-encode o x (y ++ (b ++ rest)) ex) (rw (read_data-encode b y rest h ey) refl))

  stream-ReadsBack :
      (sid o : ℕ) (b : Bytes) (fin : Bool) (w rest : Bytes)
      → length b < 2 ^ 53
      → encode_stream_frame sid o b fin ≡ ok w
      → ReadsBack (send_stream sid o b fin) w rest
  unfolding encode_stream_frame decode_frame read_stream
  stream-ReadsBack sid o b fin w rest h e =
      let (z, ez, e₀) = >>=-eq-ok (from_varint (encode (pos sid))) _ e in
      let (x, ex, e₁) = >>=-eq-ok (from_varint (encode (pos o))) _ e₀ in
      let (y, ey, e₂) = >>=-eq-ok (from_varint (encode (pos (length b)))) _ e₁ in
      let t = (if fin then 0x0f else 0x0e) in
      let kind : bit_or (bit_or (bit_or 0x08 0x04) 0x02) (if fin then 0x01 else 0x00) ≡ t =
        elim fin
          as (λ f.
            bit_or (bit_or (bit_or 0x08 0x04) 0x02) (if f then 0x01 else 0x00)
            ≡ (if f then 0x0f else 0x0e)) [ true ↦ refl | false ↦ refl ] in
      (
        t,
        z ++ (x ++ (y ++ (b ++ rest))),
        subst (λ r. r ++ rest ≡ t ∷ (z ++ (x ++ (y ++ (b ++ rest))))) (ok_inj e₂)
            (rw kind (simp append_assoc)),
        elim fin as (λ f. ((if f then 0x0f else 0x0e) == 0x00) ≡ false) [
          | true ↦ refl
          | false ↦ refl
        ],
        decode_frame-stream sid o b fin z x y rest h ez ex ey,
      )

  ack-ReadsBack :
      (la ad fr : ℕ) (w rest : Bytes)
      → encode_ack_frame la ad fr ≡ ok w
      → ReadsBack (send_ack la ad fr) w rest
  unfolding encode_ack_frame decode_frame read_ack read_ranges
  ack-ReadsBack la ad fr w rest e =
      let (a, ea, e₀) = >>=-eq-ok (from_varint (encode (pos la))) _ e in
      let (d, ed, e₁) = >>=-eq-ok (from_varint (encode (pos ad))) _ e₀ in
      let (c, ec, e₂) = >>=-eq-ok (from_varint (encode (pos 0))) _ e₁ in
      let (f, ef, e₃) = >>=-eq-ok (from_varint (encode (pos fr))) _ e₂ in
      (
        0x02,
        a ++ (d ++ (c ++ (f ++ rest))),
        subst (λ r. r ++ rest ≡ 0x02 ∷ (a ++ (d ++ (c ++ (f ++ rest))))) (ok_inj e₃)
            (simp append_assoc),
        refl,
        rw (field-encode la a (d ++ (c ++ (f ++ rest))) ea) (
            rw (field-encode ad d (c ++ (f ++ rest)) ed) (
              rw (field-encode 0 c (f ++ rest) ec)
                (rw (field-encode fr f rest ef, narrow_small 0 (omega arith)) refl))),
      )

  retire-ReadsBack :
      (seq : ℕ) (w rest : Bytes)
      → encode_retire_connection_id_frame seq ≡ ok w
      → ReadsBack (send_retire seq) w rest
  unfolding encode_retire_connection_id_frame decode_frame
  retire-ReadsBack seq w rest e =
      let (a, ea, e₀) = >>=-eq-ok (from_varint (encode (pos seq))) _ e in
      (
        0x19,
        a ++ rest,
        subst (λ r. r ++ rest ≡ 0x19 ∷ (a ++ rest)) (ok_inj e₀) refl,
        refl,
        rw (field-encode seq a rest ea) refl,
      )

  challenge-ReadsBack :
      (b w rest : Bytes)
      → encode_path_challenge_frame b ≡ ok w
      → ReadsBack (send_challenge b) w rest
  unfolding encode_path_challenge_frame decode_frame
  challenge-ReadsBack b w rest e = elim (Bool-cases (length b == 8)) [
    | inl eight ↦
        let same = rw eight at e in
        (
          0x1a,
          b ++ rest,
          subst (λ r. r ++ rest ≡ 0x1a ∷ (b ++ rest)) (ok_inj same) refl,
          refl,
          rw ((eight_bytes b rest eight).0, (eight_bytes b rest eight).1) refl,
        )
    | inr other ↦ cc (rw other at e)
  ]

  response-ReadsBack :
      (b w rest : Bytes) → encode_path_response_frame b ≡ ok w → ReadsBack (send_response b) w rest
  unfolding encode_path_response_frame decode_frame
  response-ReadsBack b w rest e = elim (Bool-cases (length b == 8)) [
    | inl eight ↦
        let same = rw eight at e in
        (
          0x1b,
          b ++ rest,
          subst (λ r. r ++ rest ≡ 0x1b ∷ (b ++ rest)) (ok_inj same) refl,
          refl,
          rw ((eight_bytes b rest eight).0, (eight_bytes b rest eight).1) refl,
        )
    | inr other ↦ cc (rw other at e)
  ]

  datagram-ReadsBack :
      (b w rest : Bytes)
      → length b < 2 ^ 53
      → encode_datagram_frame b ≡ ok w
      → ReadsBack (send_datagram b) w rest
  unfolding encode_datagram_frame decode_frame
  datagram-ReadsBack b w rest h e =
      let (a, ea, e₀) = >>=-eq-ok (from_varint (encode (pos (length b)))) _ e in
      (
        0x31,
        a ++ (b ++ rest),
        subst (λ r. r ++ rest ≡ 0x31 ∷ (a ++ (b ++ rest))) (ok_inj e₀) (simp append_assoc),
        refl,
        rw (read_data-encode b a rest h ea) refl,
      )

  pub encode_one-ReadsBack :
      (f : Sendable) (w rest : Bytes) → IsShort f → encode_one f ≡ ok w → ReadsBack f w rest
  encode_one-ReadsBack (send_crypto o b) w rest h e = crypto-ReadsBack o b w rest h e
  encode_one-ReadsBack (send_stream sid o b fin) w rest h e =
      stream-ReadsBack sid o b fin w rest h e
  encode_one-ReadsBack (send_ack la ad fr) w rest h e = ack-ReadsBack la ad fr w rest e
  encode_one-ReadsBack (send_retire seq) w rest h e = retire-ReadsBack seq w rest e
  encode_one-ReadsBack (send_challenge b) w rest h e = challenge-ReadsBack b w rest e
  encode_one-ReadsBack (send_response b) w rest h e = response-ReadsBack b w rest e
  encode_one-ReadsBack (send_datagram b) w rest h e = datagram-ReadsBack b w rest h e
