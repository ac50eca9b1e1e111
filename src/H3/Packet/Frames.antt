-- ===== src/H3/Packet/Frames.antt =====
-- lib/h3/packet.js: QUIC frames, `decodeFrames` and the frame encoders.
use Prim.Native.Nat.{bit_and, bit_or}
use hellojs.Common.{
  ℕ, zero, suc, Bool, true, false, not, ◌&&◌, ◌||◌, List, [], ◌∷◌, ◌++◌, Result, ok, err, ◌>>=◌,
  if◌then◌else◌, leb, ◌==◌, length, take, drop,
}
use hellojs.Common.Bytes.{Bytes}
use hellojs.Common.Text.{Text, Strings}
use hellojs.H3.Varint.{Value, number, bigint, Decoded, pos, encode, decode}
use hellojs.H3.Varint as Varint

-- What the code throws: an error of the integers, or of a sum of a Number and a BigInt.
pub data Error : Type 0 where
  varint : Varint.Error → Error
  type_error : Error
  not_eight_bytes : Error
  stuck : Error

pub data Frame : Type 0 where
  ping : Frame
  ack : Value → Value → Value → List (Value × Value) → Frame
  crypto : Value → Bytes → Frame
  stream : Value → Value → Bytes → Bool → Frame
  new_token : Frame
  handshake_done : Frame
  flow_control : ℕ → Value → Frame
  max_stream_data : Value → Value → Frame
  path_challenge : Bytes → Frame
  path_response : Bytes → Frame
  new_connection_id : Value → Value → Bytes → Bytes → Frame
  retire_connection_id : Value → Frame
  datagram : Bytes → Frame
  connection_close : Value → Text → Frame
  unknown : ℕ → Bytes → Frame

unfoldable pub from_varint {ℓ} : {A : Type ℓ} → Result Varint.Error A → Result Error A
from_varint (ok a) = ok a
from_varint (err e) = err (varint e)

-- `const v = varint.decode(buf, off); off += v.length`, on what is left of the buffer.
unfoldable pub field : Bytes → Result Error (Value × Bytes)
field bs = from_varint (decode bs 0) >>= λ (d : Decoded). ok (d.value, drop d.length bs)

-- `buf.subarray(off, off + v); off += v`.
unfoldable pub span : Value → Bytes → Result Error (Bytes × Bytes)
span (number n) bs = ok (take n bs, drop n bs)
span (bigint n) bs = err type_error

-- The loop over the ranges of an ACK frame.
unfoldable pub read_ranges : ℕ → Bytes → Result Error (List (Value × Value) × Bytes)
read_ranges zero bs = ok ([], bs)
read_ranges (suc n) bs = field bs >>= λ (gap : Value × Bytes).
    field gap.1 >>= λ (len : Value × Bytes).
    read_ranges n len.1 >>= λ (more : List (Value × Value) × Bytes).
    ok ((gap.0, len.0) ∷ more.0, more.1)

abbrev pub count_of : Value → ℕ
count_of (number n) = n
count_of (bigint n) = n

-- The three counters of ACK_ECN, which are passed over.
unfoldable pub skip_ecn : Bytes → Result Error Bytes
skip_ecn bs = field bs >>= λ (ect0 : Value × Bytes).
    field ect0.1 >>= λ (ect1 : Value × Bytes). field ect1.1 >>= λ (ce : Value × Bytes). ok ce.1

unfoldable pub read_ack : Bool → Bytes → Result Error (Frame × Bytes)
read_ack ecn bs = field bs >>= λ (la : Value × Bytes). field la.1 >>= λ (ad : Value × Bytes).
    field ad.1 >>= λ (rc : Value × Bytes). field rc.1 >>= λ (fr : Value × Bytes).
    read_ranges (count_of rc.0) fr.1 >>= λ (ranges : List (Value × Value) × Bytes).
    (if ecn then skip_ecn ranges.1 else ok ranges.1) >>= λ (rest : Bytes).
    ok (ack la.0 ad.0 fr.0 ranges.0, rest)

unfoldable pub read_crypto : Bytes → Result Error (Frame × Bytes)
read_crypto bs = field bs >>= λ (o : Value × Bytes). field o.1 >>= λ (len : Value × Bytes).
    span len.0 len.1 >>= λ (s : Bytes × Bytes). ok (crypto o.0 s.0, s.1)

abbrev pub has_bit : ℕ → ℕ → Bool
has_bit t bit = not (bit_and t bit == 0)

-- Without a length the data run to the end of the packet.
unfoldable pub read_data : Bool → Bytes → Result Error (Bytes × Bytes)
read_data false bs = ok (bs, [])
read_data true bs = field bs >>= λ (len : Value × Bytes). span len.0 len.1

unfoldable pub read_stream : ℕ → Bytes → Result Error (Frame × Bytes)
read_stream t bs = field bs >>= λ (sid : Value × Bytes).
    (if has_bit t 0x04 then field sid.1 else ok (number 0, sid.1)) >>= λ (o : Value × Bytes).
    read_data (has_bit t 0x02) o.1 >>= λ (s : Bytes × Bytes).
    ok (stream sid.0 o.0 s.0 (has_bit t 0x01), s.1)

unfoldable pub read_new_token : Bytes → Result Error (Frame × Bytes)
read_new_token bs = field bs >>= λ (len : Value × Bytes).
    span len.0 len.1 >>= λ (s : Bytes × Bytes). ok (new_token, s.1)

-- `buf[off++]` past the end makes `off` NaN, which leaves nothing.
unfoldable pub read_cid : Bytes → Bytes × Bytes
read_cid [] = ([], [])
read_cid (clen ∷ bs) = (take clen bs, drop clen bs)

unfoldable pub read_new_connection_id : Bytes → Result Error (Frame × Bytes)
read_new_connection_id bs = field bs >>= λ (seq : Value × Bytes).
    field seq.1 >>= λ (retire : Value × Bytes).
    let (cid, rest) = read_cid retire.1 in
    ok (new_connection_id seq.0 retire.0 cid (take 16 rest), drop 16 rest)

module _ (u : Strings) where
  unfoldable pub read_close : Bool → Bytes → Result Error (Frame × Bytes)
  read_close app bs = field bs >>= λ (ec : Value × Bytes).
      (if app then ok ec.1 else (field ec.1 >>= λ (ft : Value × Bytes). ok ft.1))
      >>= λ (rest : Bytes). field rest >>= λ (len : Value × Bytes).
          span len.0 len.1 >>= λ (s : Bytes × Bytes).
          ok (connection_close ec.0 (u.from_utf8 s.0), s.1)

  -- One round of the loop: the frame of a type byte and what is left. A frame of an unknown type
  -- takes all that is left.
  unfoldable pub decode_frame : ℕ → Bytes → Result Error (Frame × Bytes)
  decode_frame t bs =
      if t == 0x01
      then ok (ping, bs)
      else if t == 0x02 || t == 0x03
      then read_ack (t == 0x03) bs
      else if t == 0x06
      then read_crypto bs
      else if leb 0x08 t && leb t 0x0f
      then read_stream t bs
      else if t == 0x07
      then read_new_token bs
      else if t == 0x1e
      then ok (handshake_done, bs)
      else if t == 0x10 || (t == 0x12 || t == 0x13)
      then (field bs >>= λ (v : Value × Bytes). ok (flow_control t v.0, v.1))
      else if t == 0x11
      then (field bs >>= λ (sid : Value × Bytes).
          field sid.1 >>= λ (v : Value × Bytes). ok (max_stream_data sid.0 v.0, v.1))
      else if t == 0x1a
      then ok (path_challenge (take 8 bs), drop 8 bs)
      else if t == 0x1b
      then ok (path_response (take 8 bs), drop 8 bs)
      else if t == 0x18
      then read_new_connection_id bs
      else if t == 0x19
      then (field bs >>= λ (seq : Value × Bytes). ok (retire_connection_id seq.0, seq.1))
      else if t == 0x30 || t == 0x31
      then (read_data (t == 0x31) bs >>= λ (s : Bytes × Bytes). ok (datagram s.0, s.1))
      else if t == 0x1c || t == 0x1d
      then read_close (t == 0x1d) bs
      else ok (unknown t (t ∷ bs), [])

  -- A round takes the type byte at least, so the length of the payload bounds the rounds.
  unfoldable pub decode_rounds : ℕ → Bytes → Result Error (List Frame)
  decode_rounds fuel [] = ok []
  decode_rounds zero (t ∷ bs) = err stuck
  decode_rounds (suc fuel) (t ∷ bs) =
      let padding = decode_rounds fuel bs in
      if t == 0x00
      then padding
      else (decode_frame t bs >>= λ (r : Frame × Bytes).
          decode_rounds fuel r.1 >>= λ (fs : List Frame). ok (r.0 ∷ fs))

  -- `decodeFrames`
  unfoldable pub decode_frames : Bytes → Result Error (List Frame)
  decode_frames buf = decode_rounds (length buf) buf

unfoldable pub encode_crypto_frame : ℕ → Bytes → Result Error Bytes
encode_crypto_frame offset body = from_varint (encode (pos offset)) >>= λ (o : Bytes).
    from_varint (encode (pos (length body))) >>= λ (len : Bytes). ok (0x06 ∷ (o ++ (len ++ body)))

unfoldable pub encode_stream_frame : ℕ → ℕ → Bytes → Bool → Result Error Bytes
encode_stream_frame stream_id offset body fin =
    from_varint (encode (pos stream_id)) >>= λ (sid : Bytes).
    from_varint (encode (pos offset)) >>= λ (o : Bytes).
    from_varint (encode (pos (length body))) >>= λ (len : Bytes). ok (
      bit_or (bit_or (bit_or 0x08 0x04) 0x02) (if fin then 0x01 else 0x00)
      ∷ (sid ++ (o ++ (len ++ body))))

unfoldable pub encode_ack_frame : ℕ → ℕ → ℕ → Result Error Bytes
encode_ack_frame largest_acked ack_delay first_ack_range =
    from_varint (encode (pos largest_acked)) >>= λ (la : Bytes).
    from_varint (encode (pos ack_delay)) >>= λ (ad : Bytes).
    from_varint (encode (pos 0)) >>= λ (rc : Bytes).
    from_varint (encode (pos first_ack_range)) >>= λ (fr : Bytes).
    ok (0x02 ∷ (la ++ (ad ++ (rc ++ fr))))

unfoldable pub encode_retire_connection_id_frame : ℕ → Result Error Bytes
encode_retire_connection_id_frame seq =
    from_varint (encode (pos seq)) >>= λ (s : Bytes). ok (0x19 ∷ s)

unfoldable pub encode_path_challenge_frame : Bytes → Result Error Bytes
encode_path_challenge_frame body =
    if length body == 8 then ok (0x1a ∷ body) else err not_eight_bytes

unfoldable pub encode_path_response_frame : Bytes → Result Error Bytes
encode_path_response_frame body = if length body == 8 then ok (0x1b ∷ body) else err not_eight_bytes

unfoldable pub encode_datagram_frame : Bytes → Result Error Bytes
encode_datagram_frame body =
    from_varint (encode (pos (length body))) >>= λ (len : Bytes). ok (0x31 ∷ (len ++ body))
