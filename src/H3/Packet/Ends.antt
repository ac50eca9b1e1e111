-- ===== src/H3/Packet/Ends.antt =====
-- `decodeFrames` ends on every payload: a frame is read from what is left, and leaves less.
use Prim.{tt, Unit}
use hellojs.Common.{
  ℕ, zero, suc, ◌-◌, ◌≤◌, Bool, true, false, ◌||◌, ◌&&◌, List, [], ◌∷◌, Result, ok, err, ◌>>=◌,
  if◌then◌else◌, leb, ◌==◌, length, drop, length-drop, arith,
}
use hellojs.Common.Bytes.{Bytes}
use hellojs.Common.Text.{Strings}
use hellojs.H3.Varint.{Value, number, bigint, Decoded, decode}
use hellojs.H3.Packet.Frames.{
  Error, varint, type_error, not_eight_bytes, stuck, Frame, from_varint, field, span, read_ranges,
  count_of, skip_ecn, read_ack, read_crypto, has_bit, read_data, read_stream, read_new_token,
  read_cid, read_new_connection_id, read_close, decode_frame, decode_rounds, decode_frames,
}

-- An outcome that the code can have: a value with a property, or something thrown.
abbrev pub Post {ℓ} : {A : Type ℓ} → (A → Type 0) → Result Error A → Type 0
Post P (ok a) = P a
Post P (err stuck) = ⊥
Post P (err e) = Unit {0}

Post-bind {ℓ κ} :
    {A : Type ℓ} {B : Type κ} (P : A → Type 0) (Q : B → Type 0) (m : Result Error A)
    (f : A → Result Error B)
    → Post P m
    → ((a : A) → P a → Post Q (f a))
    → Post Q (m >>= f)
Post-bind P Q (ok a) f p step = step a p
Post-bind P Q (err stuck) f p step = p
Post-bind P Q (err type_error) f p step = tt
Post-bind P Q (err not_eight_bytes) f p step = tt
Post-bind P Q (err (varint e)) f p step = tt

-- What is left is not longer than it was.
abbrev pub Left {ℓ} : {A : Type ℓ} → ℕ → A × Bytes → Type 0
Left n r = length r.1 ≤ n

field-Left : (bs : Bytes) (n : ℕ) → length bs ≤ n → Post (Left n) (field bs)
unfolding field from_varint
field-Left bs n h =
    elim (decode bs 0)
      as (λ r. Post (Left n) (from_varint r >>= λ (d : Decoded). ok (d.value, drop d.length bs))) [
        | ok d ↦ omega (arith, length-drop d.length bs)
        | err e ↦ tt
      ]

span-Left : (v : Value) (bs : Bytes) (n : ℕ) → length bs ≤ n → Post (Left n) (span v bs)
unfolding span
span-Left (number k) bs n h = omega (arith, length-drop k bs)
span-Left (bigint k) bs n h = tt

read_ranges-Left : (k : ℕ) (bs : Bytes) (n : ℕ) → length bs ≤ n → Post (Left n) (read_ranges k bs)
unfolding read_ranges
read_ranges-Left zero bs n h = h
read_ranges-Left (suc k) bs n h =
    Post-bind (Left n) (Left n) (field bs) _ (field-Left bs n h) λ gap g.
      Post-bind (Left n) (Left n) (field gap.1) _ (field-Left gap.1 n g) λ len l.
        Post-bind (Left n) (Left n) (read_ranges k len.1) _ (read_ranges-Left k len.1 n l)
          λ more m. m

skip_ecn-Left : (bs : Bytes) (n : ℕ) → length bs ≤ n → Post (λ r. length r ≤ n) (skip_ecn bs)
unfolding skip_ecn
skip_ecn-Left bs n h = Post-bind (Left n) _ (field bs) _ (field-Left bs n h) λ a p.
    Post-bind (Left n) _ (field a.1) _ (field-Left a.1 n p)
      λ b q. Post-bind (Left n) _ (field b.1) _ (field-Left b.1 n q) λ c r. r

if-Post {ℓ} :
    {A : Type ℓ} (P : A → Type 0) (b : Bool) (p q : Result Error A)
    → Post P p
    → Post P q
    → Post P (if b then p else q)
if-Post P true p q x y = x
if-Post P false p q x y = y

read_ack-Left : (ecn : Bool) (bs : Bytes) (n : ℕ) → length bs ≤ n → Post (Left n) (read_ack ecn bs)
unfolding read_ack
read_ack-Left ecn bs n h = Post-bind (Left n) (Left n) (field bs) _ (field-Left bs n h) λ la p.
    Post-bind (Left n) (Left n) (field la.1) _ (field-Left la.1 n p) λ ad q.
      Post-bind (Left n) (Left n) (field ad.1) _ (field-Left ad.1 n q) λ rc r.
        Post-bind (Left n) (Left n) (field rc.1) _ (field-Left rc.1 n r) λ fr s.
          Post-bind (Left n) (Left n) (read_ranges (count_of rc.0) fr.1) _
            (read_ranges-Left (count_of rc.0) fr.1 n s)
            λ ranges t.
              Post-bind (λ z. length z ≤ n) (Left n) _ _
                (if-Post (λ z. length z ≤ n) ecn (skip_ecn ranges.1) (ok ranges.1)
                  (skip_ecn-Left ranges.1 n t) t)
                λ rest z. z

read_crypto-Left : (bs : Bytes) (n : ℕ) → length bs ≤ n → Post (Left n) (read_crypto bs)
unfolding read_crypto
read_crypto-Left bs n h = Post-bind (Left n) (Left n) (field bs) _ (field-Left bs n h) λ o p.
    Post-bind (Left n) (Left n) (field o.1) _ (field-Left o.1 n p)
      λ len q. Post-bind (Left n) (Left n) (span len.0 len.1) _ (span-Left len.0 len.1 n q) λ s r. r

read_data-Left : (b : Bool) (bs : Bytes) (n : ℕ) → length bs ≤ n → Post (Left n) (read_data b bs)
unfolding read_data
read_data-Left false bs n h = omega arith
read_data-Left true bs n h =
    Post-bind (Left n) (Left n) (field bs) _ (field-Left bs n h) λ len p. span-Left len.0 len.1 n p

read_stream-Left : (t : ℕ) (bs : Bytes) (n : ℕ) → length bs ≤ n → Post (Left n) (read_stream t bs)
unfolding read_stream
read_stream-Left t bs n h = Post-bind (Left n) (Left n) (field bs) _ (field-Left bs n h) λ sid p.
    Post-bind (Left n) (Left n) _ _
      (if-Post (Left n) (has_bit t 0x04) (field sid.1) (ok (number 0, sid.1)) (field-Left sid.1 n p)
        p)
      λ o q.
        Post-bind (Left n) (Left n) (read_data (has_bit t 0x02) o.1) _
          (read_data-Left (has_bit t 0x02) o.1 n q) λ s r. r

read_new_token-Left : (bs : Bytes) (n : ℕ) → length bs ≤ n → Post (Left n) (read_new_token bs)
unfolding read_new_token
read_new_token-Left bs n h =
    Post-bind (Left n) (Left n) (field bs) _ (field-Left bs n h)
      λ len p. Post-bind (Left n) (Left n) (span len.0 len.1) _ (span-Left len.0 len.1 n p) λ s q. q

read_cid-Left : (bs : Bytes) (n : ℕ) → length bs ≤ n → Left n (read_cid bs)
unfolding read_cid
read_cid-Left [] n h = h
read_cid-Left (k ∷ bs) n h = omega (arith, length-drop k bs)

read_new_connection_id-Left :
    (bs : Bytes) (n : ℕ) → length bs ≤ n → Post (Left n) (read_new_connection_id bs)
unfolding read_new_connection_id
read_new_connection_id-Left bs n h =
    Post-bind (Left n) (Left n) (field bs) _ (field-Left bs n h) λ seq p.
      Post-bind (Left n) (Left n) (field seq.1) _ (field-Left seq.1 n p)
        λ retire q. omega (arith, read_cid-Left retire.1 n q, length-drop 16 (read_cid retire.1).1)

abbrev pub AtMost : ℕ → List Frame → Type 0
AtMost n fs = length fs ≤ n

module _ (u : Strings) where
  read_close-Left :
      (app : Bool) (bs : Bytes) (n : ℕ) → length bs ≤ n → Post (Left n) (read_close u app bs)
  unfolding read_close
  read_close-Left app bs n h = Post-bind (Left n) (Left n) (field bs) _ (field-Left bs n h) λ ec p.
      Post-bind (λ z. length z ≤ n) (Left n) _ _
        (if-Post (λ z. length z ≤ n) app (ok ec.1) _ p
          (Post-bind (Left n) (λ z. length z ≤ n) (field ec.1) _ (field-Left ec.1 n p) λ ft q. q))
        λ rest r. Post-bind (Left n) (Left n) (field rest) _ (field-Left rest n r) λ len s.
          Post-bind (Left n) (Left n) (span len.0 len.1) _ (span-Left len.0 len.1 n s) λ z t. t

  pub decode_frame-Left :
      (t : ℕ) (bs : Bytes) (n : ℕ) → length bs ≤ n → Post (Left n) (decode_frame u t bs)
  unfolding decode_frame
  decode_frame-Left t bs n h = if-Post (Left n) (t == 0x01) _ _ h (
      if-Post (Left n) (t == 0x02 || t == 0x03) _ _ (read_ack-Left (t == 0x03) bs n h) (
        if-Post (Left n) (t == 0x06) _ _ (read_crypto-Left bs n h) (
          if-Post (Left n) (leb 0x08 t && leb t 0x0f) _ _ (read_stream-Left t bs n h) (
            if-Post (Left n) (t == 0x07) _ _ (read_new_token-Left bs n h) (
              if-Post (Left n) (t == 0x1e) _ _ h (
                if-Post (Left n) (t == 0x10 || (t == 0x12 || t == 0x13)) _ _
                  (Post-bind (Left n) (Left n) (field bs) _ (field-Left bs n h) λ v p. p)
                  (if-Post (Left n) (t == 0x11) _ _
                    (Post-bind (Left n) (Left n) (field bs) _ (field-Left bs n h) λ sid p.
                      Post-bind (Left n) (Left n) (field sid.1) _ (field-Left sid.1 n p) λ v q. q)
                    (if-Post (Left n) (t == 0x1a) _ _ (omega (arith, length-drop 8 bs)) (
                      if-Post (Left n) (t == 0x1b) _ _ (omega (arith, length-drop 8 bs)) (
                        if-Post (Left n) (t == 0x18) _ _ (read_new_connection_id-Left bs n h) (
                          if-Post (Left n) (t == 0x19) _ _
                            (Post-bind (Left n) (Left n) (field bs) _ (field-Left bs n h) λ v p. p)
                            (if-Post (Left n) (t == 0x30 || t == 0x31) _ _
                              (Post-bind (Left n) (Left n) (read_data (t == 0x31) bs) _
                                (read_data-Left (t == 0x31) bs n h) λ s p. p)
                              (if-Post (Left n) (t == 0x1c || t == 0x1d) _ _
                                (read_close-Left (t == 0x1d) bs n h) (omega arith))))))))))))))

  decode_rounds-AtMost :
      (fuel : ℕ) (bs : Bytes) (n : ℕ)
      → length bs ≤ fuel
      → length bs ≤ n
      → Post (AtMost n) (decode_rounds u fuel bs)
  unfolding decode_rounds
  decode_rounds-AtMost zero [] n h k = omega arith
  decode_rounds-AtMost (suc fuel) [] n h k = omega arith
  decode_rounds-AtMost zero (t ∷ bs) n h k = absurd (omega arith)
  decode_rounds-AtMost (suc fuel) (t ∷ bs) n h k =
      if-Post (AtMost n) (t == 0x00) _ _
        (decode_rounds-AtMost fuel bs n (omega arith) (omega arith))
        (Post-bind (Left (length bs)) (AtMost n) (decode_frame u t bs) _
          (decode_frame-Left t bs (length bs) (omega arith))
          λ r p.
            Post-bind (AtMost (n - 1)) (AtMost n) (decode_rounds u fuel r.1) _
              (decode_rounds-AtMost fuel r.1 (n - 1) (omega arith) (omega arith))
              λ fs q. omega arith)

  -- `decodeFrames` ends on every payload, whatever its bytes, with one of the errors of the source or
  -- with at most as many frames as there are bytes.
  pub decode_frames-AtMost : (buf : Bytes) → Post (AtMost (length buf)) (decode_frames u buf)
  unfolding decode_frames
  decode_frames-AtMost buf =
      decode_rounds-AtMost (length buf) buf (length buf) (omega arith) (omega arith)
