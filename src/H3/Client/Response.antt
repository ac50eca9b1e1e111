-- ===== src/H3/Client/Response.antt =====
-- A response of HTTP/3: the frames that `encodeFrame` wrote, as the `data` handler reads them.
use hellojs.Common.{
  ℕ, zero, suc, ◌/◌, ◌^◌, ◌≤◌, ◌≡◌, refl, ap, ◌∙◌, sym, false, ◌||◌, not, List, [], ◌++◌,
  append_assoc, append-nil, map, All, none, some, ok, le→ltb, ◌==◌, length, length-append, drop,
  take-append_length, drop-append_length, arith, Bool-cases, inl, inr,
}
use hellojs.Common.Bytes.{Bytes, byte_at}
use hellojs.Common.Text.{Text, text, text_eq, Strings}
use hellojs.H2.Hpack.Table.{Header}
use hellojs.H3.Varint as Varint
use hellojs.H3.Varint.{Value, number, Decoded, encode, decode, max_safe_integer}
use hellojs.H3.Varint.RoundTrip.{decode-encode}
use hellojs.H3.Varint.Prefix.{decode-IsWhole, narrow-number, encode_safe}
use hellojs.H3.Qpack.Table.{DynamicTable}
use hellojs.H3.Qpack.Encode.{encode_headers}
use hellojs.H3.Qpack.RoundTrip.Fields.{lowered, HeaderSurvives}
use hellojs.H3.Qpack.RoundTrip.{decode_headers-encode_headers}
use hellojs.H3.Client.Headers.{value_of, last_of, value_of-set_all}
use hellojs.H3.Client.Chunks.{on_data_open, frames_from_fuel, step_open}
use hellojs.H3.Client.{
  frame_headers, frame_data, encode_frame, from_varint, from_qpack, peek_varint, read_payload,
  read_length, read_frame, State, set_all, has_entries, decode_field_section, take_frame,
  frames_from, on_data,
}

-- `peekVarint` decodes whatever `decode` does not throw on.
peek_varint-decode : (b : Bytes) (d : Decoded) → decode b 0 ≡ ok d → peek_varint b ≡ ok (some d)
unfolding peek_varint from_varint
peek_varint-decode b d e =
    let (one, fits) = decode-IsWhole b d e in
    let some_bytes : (length b == 0) ≡ false = ground arith in
    let whole = le→ltb (length b) (2 ^ (byte_at b 0 / 64)) fits in
    rw (peek_varint, some_bytes, whole, e) refl

peek_varint-encode :
    (v : ℕ) (bytes rest : Bytes)
    → v ≤ max_safe_integer
    → encode (Varint.pos v) ≡ ok bytes
    → peek_varint (bytes ++ rest) ≡ ok (some (record { value = number v; length = length bytes }))
peek_varint-encode v bytes rest h e =
    peek_varint-decode (bytes ++ rest) (record { value = number v; length = length bytes })
      (decode-encode v [] bytes rest e
        ∙ ap (λ n. ok (record { value = n; length = length bytes })) (narrow-number v h))

read_frame-found :
    (buf : Bytes) (t : Decoded)
    → peek_varint buf ≡ ok (some t)
    → read_frame buf ≡ read_length t (drop t.length buf)
unfolding read_frame
read_frame-found buf t e = rw (read_frame, e) refl

read_length-found :
    (t l : Decoded) (buf : Bytes)
    → peek_varint buf ≡ ok (some l)
    → read_length t buf ≡ read_payload t.value l.value (drop l.length buf)
unfolding read_length
read_length-found t l buf e = rw (read_length, e) refl

read_payload-append :
    (type : Value) (payload rest : Bytes)
    → read_payload type (number (length payload)) (payload ++ rest)
      ≡ ok (some (type, payload, rest))
unfolding read_payload
read_payload-append type payload rest =
    let fits =
      le→ltb (length (payload ++ rest)) (length payload)
        (omega (arith, length-append payload rest)) in
    rw (fits, take-append_length payload rest, drop-append_length payload rest) refl

frame_back :
    (type : ℕ) (t l payload rest : Bytes)
    → type ≤ max_safe_integer
    → length payload ≤ max_safe_integer
    → encode (Varint.pos type) ≡ ok t
    → encode (Varint.pos (length payload)) ≡ ok l
    → read_frame ((t ++ (l ++ payload)) ++ rest) ≡ ok (some (number type, payload, rest))
frame_back type t l payload rest h h' t_ok l_ok =
    let t' : Decoded = record { value = number type; length = length t } in
    let l' : Decoded = record { value = number (length payload); length = length l } in
    let behind = l ++ (payload ++ rest) in
    ap read_frame
      (append_assoc t (l ++ payload) rest ∙ ap (λ b. t ++ b) (append_assoc l payload rest))
    ∙ read_frame-found (t ++ behind) t' (peek_varint-encode type t behind h t_ok)
    ∙ ap (read_length t') (drop-append_length t behind)
    ∙ read_length-found t' l' behind
        (peek_varint-encode (length payload) l (payload ++ rest) h' l_ok)
    ∙ ap (read_payload (number type) (number (length payload)))
        (drop-append_length l (payload ++ rest))
    ∙ read_payload-append (number type) payload rest

-- A frame that `encodeFrame` wrote is read back, with whatever stands behind it.
pub read_frame-encode_frame :
    (type : ℕ) (payload : Bytes)
    → type ≤ max_safe_integer
    → length payload ≤ max_safe_integer
    → (frame : Bytes) × (encode_frame type payload ≡ ok frame)
      × ((rest : Bytes) → read_frame (frame ++ rest) ≡ ok (some (number type, payload, rest)))
unfolding encode_frame
read_frame-encode_frame type payload h h' =
    let (t, t_ok) = encode_safe type h in
    let (l, l_ok) = encode_safe (length payload) h' in
    (
      t ++ (l ++ payload),
      rw (encode_frame, t_ok, l_ok) refl,
      λ rest. frame_back type t l payload rest h h' t_ok l_ok,
    )

module _ (u : Strings) (table : DynamicTable) (max_entries rounds : ℕ) where
  decode_field_section-encode_headers :
      (headers : List Header)
      → All (HeaderSurvives u) headers
      → length (encode_headers u headers) ≤ rounds
      → decode_field_section u table max_entries rounds (encode_headers u headers)
        ≡ ok (map (lowered u) headers)
  unfolding decode_field_section from_qpack
  decode_field_section-encode_headers headers all enough =
      let payload = encode_headers u headers in
      let (plain, with_table) =
        decode_headers-encode_headers u headers (some table) max_entries rounds all enough in
      elim (Bool-cases
        (has_entries table.entries || (length payload == 0 || not (byte_at payload 0 == 0)))) [
          | inl dynamic ↦ rw (decode_field_section, dynamic) (ap from_qpack with_table)
          | inr static ↦ rw (decode_field_section, static) (ap from_qpack plain)
        ]

  take_frame-headers :
      (headers : List Header) (rest : Bytes) (s : State)
      → All (HeaderSurvives u) headers
      → length (encode_headers u headers) ≤ rounds
      → take_frame u table max_entries rounds
          (number frame_headers)
          (encode_headers u headers)
          rest
          s
        ≡ record s { frame_buf = rest; headers = set_all (map (lowered u) headers) s.headers }
  unfolding take_frame
  take_frame-headers headers rest s all enough =
      rw (take_frame, decode_field_section-encode_headers headers all enough) refl

  take_frame-data :
      (body rest : Bytes) (s : State)
      → take_frame u table max_entries rounds (number frame_data) body rest s
        ≡ record s { frame_buf = rest; chunks = s.chunks ++ body }
  unfolding take_frame
  take_frame-data body rest s = refl

  frames_from-nothing :
      (n : ℕ) (s : State)
      → read_frame s.frame_buf ≡ ok none
      → frames_from u table max_entries rounds n s ≡ s
  unfolding frames_from
  frames_from-nothing zero s e = refl
  frames_from-nothing (suc n) s e = rw (frames_from, e) refl

  read_frame-empty : read_frame [] ≡ ok none
  unfolding read_frame peek_varint
  read_frame-empty = refl

  -- The frames of a response as a server of the same rules writes them, headers and then a body, in
  -- one chunk. If each header survives UTF-8, is below 2^28 bytes and has no name with more bytes than
  -- code units, and if the block and the body are below 2^53 bytes, then the decoders return within as
  -- many rounds as the block has bytes, nothing is left over, the body is the one that was sent, and
  -- each name but `__proto__` has the value of the last header with that name in lower case.
  pub on_data-response :
      (headers : List Header) (body : Bytes)
      → All (HeaderSurvives u) headers
      → length (encode_headers u headers) ≤ rounds
      → length (encode_headers u headers) ≤ max_safe_integer
      → length body ≤ max_safe_integer
      → (h d : Bytes) × (fields : List Header) × (encode_frame frame_headers
            (encode_headers u headers)
          ≡ ok h)
        × (encode_frame frame_data body ≡ ok d)
        × (on_data u table max_entries rounds
              (record { frame_buf = []; headers = []; chunks = []; stopped = none })
              (h ++ d)
            ≡ record { frame_buf = []; headers = fields; chunks = body; stopped = none })
        × ((n : Text)
            → text_eq n (text "__proto__") ≡ false
            → value_of n fields ≡ last_of n (map (lowered u) headers) none)
  on_data-response headers body all enough small small' =
      let (h, h_ok, h_back) =
        read_frame-encode_frame frame_headers (encode_headers u headers) (omega arith) small in
      let (d, d_ok, d_back) = read_frame-encode_frame frame_data body (omega arith) small' in
      let run = frames_from u table max_entries rounds in
      let fields = set_all (map (lowered u) headers) [] in
      let n = length (h ++ d) in
      let s0 : State = record { frame_buf = h ++ d; headers = []; chunks = []; stopped = none } in
      let s1 : State = record { frame_buf = d; headers = fields; chunks = []; stopped = none } in
      let s2 : State = record { frame_buf = []; headers = fields; chunks = body; stopped = none } in
      let first = take_frame-headers headers d s0 all enough in
      let second = take_frame-data body [] s1 in
      let d_alone = ap read_frame (sym (append-nil d)) ∙ d_back [] in
      (
        h,
        d,
        fields,
        h_ok,
        d_ok,
        on_data_open u table max_entries rounds
              (record { frame_buf = []; headers = []; chunks = []; stopped = none }) (h ++ d) refl
            ∙ frames_from_fuel u table max_entries rounds (suc n) (suc (suc (suc n))) s0
                (omega arith) (omega arith)
            ∙ step_open u table max_entries rounds (suc (suc n)) s0 (number frame_headers)
                (encode_headers u headers) d (h_back d) (ap (λ (t : State). t.stopped) first)
            ∙ ap (run (suc (suc n))) first
            ∙ step_open u table max_entries rounds (suc n) s1 (number frame_data) body [] d_alone
                (ap (λ (t : State). t.stopped) second)
            ∙ ap (run (suc n)) second
            ∙ frames_from-nothing (suc n) s2 read_frame-empty,
        λ n plain. value_of-set_all n (map (lowered u) headers) [] plain,
      )
