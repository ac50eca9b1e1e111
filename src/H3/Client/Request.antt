-- ===== src/H3/Client/Request.antt =====
-- `bootstrap` and the sending part of `request` of lib/h3/h3.js.
use hellojs.Common.{
  ◌≤◌, ◌≡◌, refl, ap, ◌∙◌, sym, Bool, true, false, List, [], ◌∷◌, ◌++◌, append-nil, map, All,
  Option, none, some, Result, ok, ◌>>=◌, length, arith,
}
use hellojs.Common.Bytes.{Bytes}
use hellojs.Common.Text.{Text, text, Strings}
use hellojs.H2.Hpack.Table.{Header}
use hellojs.H3.Varint as Varint
use hellojs.H3.Varint.{number, encode, max_safe_integer}
use hellojs.H3.Qpack.Encode.{encode_headers}
use hellojs.H3.Qpack.Decode.{decode_headers}
use hellojs.H3.Qpack.RoundTrip.Fields.{lowered, HeaderSurvives}
use hellojs.H3.Qpack.RoundTrip.{decode_headers-encode_headers}
use hellojs.H3.Client.{
  frame_headers, frame_data, encode_frame, encode_settings, chrome_147_settings, read_frame,
}
use hellojs.H3.Client.Response.{read_frame-encode_frame}

-- The bytes of a `send`, and whether they end the stream.
abbrev pub Send : Type 0
Send = Bytes × Bool

-- What `bootstrap` sends on the control stream, the encoder stream and the decoder stream.
unfoldable pub bootstrap : Result Varint.Error (List (List Send))
bootstrap = encode (Varint.pos 0x00) >>= λ control.
    encode_settings chrome_147_settings >>= λ settings. encode (Varint.pos 0x02) >>= λ encoder.
    encode (Varint.pos 0x03) >>= λ decoder. ok (
      ((control, false) ∷ (settings, false) ∷ [])
      ∷ ((encoder, false) ∷ [])
      ∷ ((decoder, false) ∷ [])
      ∷ [])

module _ (u : Strings) where
  -- The headers of a request, in the order in which they are sent.
  unfoldable pub ordered : Text → Text → Text → List Header → List Header
  ordered method path host headers =
      (text ":method", method)
      ∷ (text ":authority", host)
      ∷ (text ":scheme", text "https")
      ∷ (text ":path", path)
      ∷ map (λ (h : Header). (u.to_lower_case h.0, h.1)) headers

  -- `if (body)`.
  unfoldable pub send_body : Bytes → Option Bytes → Result Varint.Error (List Send)
  send_body headers_frame none = ok ((headers_frame, true) ∷ [])
  send_body headers_frame (some body) = encode_frame frame_data body >>= λ data_frame.
      ok ((headers_frame, false) ∷ (data_frame, true) ∷ [])

  -- What `request` sends on its stream.
  unfoldable pub request :
      Text → Text → Text → List Header → Option Bytes → Result Varint.Error (List Send)
  request method path host headers body =
      encode_frame frame_headers (encode_headers u (ordered method path host headers))
      >>= λ headers_frame. send_body headers_frame body

  -- What the frames of a request are read as, by the reader of this module: a HEADERS frame with
  -- `block`, behind it a DATA frame with the body, if there is one, and then the end of the stream.
  abbrev pub Carries : Bytes → Option Bytes → List Send → Type 0
  Carries block none sends =
      (h : Bytes) × (sends ≡ (h, true) ∷ [])
      × (read_frame h ≡ ok (some (number frame_headers, block, [])))
  Carries block (some body) sends =
      (h d : Bytes) × (sends ≡ (h, false) ∷ (d, true) ∷ [])
      × (read_frame (h ++ d) ≡ ok (some (number frame_headers, block, d)))
      × (read_frame d ≡ ok (some (number frame_data, body, [])))

  abbrev IsSafe : Option Bytes → Type 0
  IsSafe none = Unit {0}
  IsSafe (some body) = length body ≤ max_safe_integer

  send_body-Carries :
      (block h : Bytes) (body : Option Bytes)
      → IsSafe body
      → ((rest : Bytes) → read_frame (h ++ rest) ≡ ok (some (number frame_headers, block, rest)))
      → (sends : List Send) × (send_body h body ≡ ok sends) × Carries block body sends
  unfolding send_body
  send_body-Carries block h none safe back =
      ((h, true) ∷ [], refl, (h, refl, ap read_frame (sym (append-nil h)) ∙ back []))
  send_body-Carries block h (some body) safe back =
      let (d, d_ok, d_back) = read_frame-encode_frame frame_data body (omega arith) safe in
      (
        (h, false) ∷ (d, true) ∷ [],
        rw (send_body, d_ok) refl,
        (h, d, refl, back d, ap read_frame (sym (append-nil d)) ∙ d_back []),
      )

  -- A request is sent, if each header survives UTF-8, is below 2^28 bytes and has no name with more
  -- bytes than code units, and if the block and the body are below 2^53 bytes. Its frames read back as
  -- the four pseudo-headers and behind them the caller's headers in order, the names in lower case,
  -- and the body; the last frame, and no other, ends the stream.
  pub request-Carries :
      (method path host : Text) (headers : List Header) (body : Option Bytes)
      → let hs : List Header =
          (text ":method", method)
          ∷ (text ":authority", host)
          ∷ (text ":scheme", text "https")
          ∷ (text ":path", path)
          ∷ map (λ (h : Header). (u.to_lower_case h.0, h.1)) headers in
        All (HeaderSurvives u) hs
        → length (encode_headers u hs) ≤ max_safe_integer
        → IsSafe body
        → let block = encode_headers u hs in
          (decode_headers u block (length block) ≡ ok (map (lowered u) hs))
          × (sends : List Send) × (request method path host headers body ≡ ok sends)
          × Carries block body sends
  unfolding request ordered
  request-Carries method path host headers body all small safe =
      let hs = ordered method path host headers in
      let block = encode_headers u hs in
      let (h, h_ok, h_back) = read_frame-encode_frame frame_headers block (omega arith) small in
      let (plain, _) = decode_headers-encode_headers u hs none 0 (length block) all (omega arith) in
      let (sends, sent, carries) = send_body-Carries block h body safe h_back in
      (plain, sends, rw (request, h_ok) sent, carries)
