-- ===== src/H2/Session/Receive.antt =====
-- The frames that come in: `_onData` of the session, `_dispatch`, and the handlers of a stream.
pub mod Buffer
pub mod Chunks
pub mod Padding
pub mod Runs
use Prim.Native.Nat.{bit_and}
use hellojs.Common.{
  ℕ, zero, suc, ◌+◌, ◌-◌, ◌*◌, Bool, true, false, not, List, [], ◌∷◌, ◌++◌, Option, none, some,
  Result, ok, err, ◌>>=◌, if◌then◌else◌, ltb, leb, ◌==◌, length, take, drop,
}
use hellojs.Common.Bytes.{Bytes, byte_at, write_be}
use hellojs.Common.Text.{Text, Strings, text_eq}
use hellojs.H2.Frame.{
  Frame, low_31, parse, parse_settings, parse_goaway, read_uint, build_window_update,
  build_rst_stream,
}
use hellojs.H2.Frame as FrameCodec
use hellojs.H2.Frame.Kind
use hellojs.H2.Frame.Flag
use hellojs.H2.Hpack.Table.{Header, DynamicTable, set_capacity}
use hellojs.H2.Hpack.Strings.{Error, huffman, header_list_too_large, stuck}
use hellojs.H2.Hpack.Codec.{decode}
use hellojs.H2.Session.State.{
  Stream, Session, Fatal, compress, protocol, out_of_range, Effect, connect, response, body_chunk,
  stream_end, stream_reset, goaway, get_stream, emit, send_frame, set_stream, credit_flow,
  close_stream, fatal_error,
}

abbrev pub has_flag : ℕ → ℕ → Bool
has_flag flags flag = not (bit_and flags flag == 0)

-- `p.subarray(1, p.length - padLen)`: an end below 0 counts back from the end of the buffer, and an
-- empty buffer gives an empty one.
unfoldable pub unpad : Bytes → Bytes
unpad p =
    let pad_len = byte_at p 0 in
    let end =
      (if leb pad_len (length p) then length p - pad_len else length p - (pad_len - length p)) in
    drop 1 (take end p)

-- `headers[n] = headers[n] != null ? [].concat(headers[n], v) : v`
unfoldable pub add_header : Header → List (Text × List Text) → List (Text × List Text)
add_header (n, v) [] = (n, v ∷ []) ∷ []
add_header (n, v) ((m, vs) ∷ rest) =
    if text_eq m n then (m, vs ++ (v ∷ [])) ∷ rest else (m, vs) ∷ add_header (n, v) rest

unfoldable pub collect : List Header → List (Text × List Text) → List (Text × List Text)
collect [] acc = acc
collect (h ∷ hs) acc = collect hs (add_header h acc)

unfoldable pub concat : List Bytes → Bytes
concat [] = []
concat (b ∷ bs) = b ++ concat bs

unfoldable pub from_frame {ℓ} : {A : Type ℓ} → Result FrameCodec.Error A → Result Fatal A
from_frame (ok a) = ok a
from_frame (err e) = err out_of_range

-- The code that an error of HPACK carries into `_fatalError`.
unfoldable pub from_hpack {ℓ} : {A : Type ℓ} → Result Error A → Result Fatal A
from_hpack (ok a) = ok a
from_hpack (err header_list_too_large) = err compress
from_hpack (err e) = err protocol

-- `_endStream`
unfoldable pub end_stream : Session → Stream → Session
end_stream s t = if t.end_recvd then s else emit (close_stream s t.id) (stream_end t.id)

-- `H2Stream._onData`
unfoldable pub stream_data : Session → Stream → Bytes → ℕ → Session
stream_data s t payload flags =
    let used = t.recv_used + length payload in
    let s₁ = credit_flow (emit s (body_chunk t.id payload)) (length payload) in
    let s₂ =
      (if leb 32768 used
        then send_frame (set_stream s₁ (record t { recv_used = 0 })) Kind.window_update 0 t.id
            (build_window_update used)
        else set_stream s₁ (record t { recv_used = used })) in
    if has_flag flags Flag.end_stream then end_stream s₂ t else s₂

-- `_onRst`
unfoldable pub stream_rst : Session → Stream → ℕ → Session
stream_rst s t code = emit (close_stream s t.id) (stream_reset t.id code)

module _ (u : Strings) where
  -- `_finalizeHeaders` on the joined block.
  pub finalize_headers : Session → Stream → Bytes → Result Fatal Session
  finalize_headers s t block =
      from_hpack (decode u block s.peer_table 262144) >>= λ (r : List Header × DynamicTable).
      let t' : Stream = record t { header_fragments = none } in
      let s' =
        emit (set_stream (record s { peer_table = r.1 }) t') (response t.id (collect r.0 [])) in
      ok (if t.header_end_stream then end_stream s' t' else s')

  -- `_onHeaders`
  pub stream_headers : Session → Stream → Bytes → ℕ → Result Fatal Session
  stream_headers s t payload flags =
      let p₁ = (if has_flag flags Flag.padded then unpad payload else payload) in
      let p = (if has_flag flags Flag.priority then drop 5 p₁ else p₁) in
      let t' : Stream = record t {
        header_fragments = some (p ∷ []);
        header_bytes = length p;
        header_end_stream = has_flag flags Flag.end_stream;
      } in
      if has_flag flags Flag.end_headers then finalize_headers s t' p else ok (set_stream s t')

  -- `_onContinuation`
  pub stream_continuation : Session → Stream → Bytes → ℕ → Result Fatal Session
  stream_continuation s t payload flags = elim t.header_fragments [
    | none ↦ ok (send_frame s Kind.rst_stream 0 t.id (build_rst_stream 1))
    | some fragments ↦
        let all = fragments ++ (payload ∷ []) in
        let bytes = t.header_bytes + length payload in
        let t' : Stream = record t { header_fragments = some all; header_bytes = bytes } in
        if ltb 262144 bytes
        then ok (fatal_error (set_stream s t') compress)
        else if has_flag flags Flag.end_headers
        then finalize_headers s t' (concat all)
        else ok (set_stream s t')
  ]

  -- The pairs of a SETTINGS frame, in order.
  pub apply_settings : Session → List (ℕ × ℕ) → Session
  apply_settings s [] = s
  apply_settings s ((id, v) ∷ rest) =
      let s' : Session = record s { peer_settings = (id, v) ∷ s.peer_settings } in
      apply_settings
        (if id == 0x01 then record s' { local_table = set_capacity s.local_table v } else s') rest

  pub on_settings : Session → Frame → Result Fatal Session
  on_settings s f =
      if has_flag f.flags Flag.ack
      then ok s
      else from_frame (parse_settings f.payload) >>= (λ (pairs : List (ℕ × ℕ)).
        let s' = send_frame (apply_settings s pairs) Kind.settings Flag.ack 0 [] in
        ok (if s'.saw_settings then s' else emit (record s' { saw_settings = true }) connect))

  pub on_window_update : Session → Frame → Result Fatal Session
  on_window_update s f = from_frame (read_uint 4 f.payload) >>= λ x.
      let inc = low_31 x in
      ok (
        if f.stream_id == 0
        then record s { conn_send_window = s.conn_send_window + inc }
        else elim (get_stream f.stream_id s.streams) [
          | none ↦ s
          | some t ↦ set_stream s (record t { send_window = t.send_window + inc })
        ])

  pub on_data_frame : Session → Frame → Session
  on_data_frame s f =
      let p = (if has_flag f.flags Flag.padded then unpad f.payload else f.payload) in
      elim (get_stream f.stream_id s.streams) [
        | none ↦ credit_flow s (length p)
        | some t ↦ stream_data s t p f.flags
      ]

  pub on_rst_stream : Session → Frame → Result Fatal Session
  on_rst_stream s f = from_frame (read_uint 4 f.payload) >>= λ code.
      elim (get_stream f.stream_id s.streams) [ none ↦ ok s | some t ↦ ok (stream_rst s t code) ]

  pub on_goaway : Session → Frame → Result Fatal Session
  on_goaway s f = from_frame (parse_goaway f.payload) >>= λ g.
      ok (record (emit s (goaway g.error_code g.last_stream_id)) { closed = true })

  -- `_dispatch`; a frame of another type is passed over.
  pub dispatch : Session → Frame → Result Fatal Session
  dispatch s f =
      if f.kind == Kind.settings
      then on_settings s f
      else if f.kind == Kind.window_update
      then on_window_update s f
      else if f.kind == Kind.headers
      then elim (get_stream f.stream_id s.streams) [
        | none ↦ ok s
        | some t ↦ stream_headers s t f.payload f.flags
      ]
      else if f.kind == Kind.continuation
      then elim (get_stream f.stream_id s.streams) [
        | none ↦ ok s
        | some t ↦ stream_continuation s t f.payload f.flags
      ]
      else if f.kind == Kind.data_frame
      then ok (on_data_frame s f)
      else if f.kind == Kind.rst_stream
      then on_rst_stream s f
      else if f.kind == Kind.ping
      then ok (if has_flag f.flags Flag.ack then s else send_frame s Kind.ping Flag.ack 0 f.payload)
      else if f.kind == Kind.goaway
      then on_goaway s f
      else if f.kind == Kind.push_promise
      then ok (send_frame s Kind.rst_stream 0 f.stream_id (build_rst_stream 1))
      else ok s

  -- The loop of `_onData`. A frame takes nine bytes at least, so the bytes received bound the
  -- rounds; a throw ends the loop and the connection.
  pub receive_rounds : ℕ → Session → Session
  receive_rounds zero s = s
  receive_rounds (suc fuel) s = elim (parse s.rx_buf) [
    | err e ↦ fatal_error s out_of_range
    | ok none ↦ s
    | ok (some f) ↦ elim (dispatch (record s { rx_buf = drop f.consumed s.rx_buf }) f) [
      | err code ↦ fatal_error (record s { rx_buf = drop f.consumed s.rx_buf }) code
      | ok s' ↦ receive_rounds fuel s'
    ]
  ]

  -- `_onData` of the session.
  pub on_data : Session → Bytes → Session
  on_data s chunk =
      let buf = s.rx_buf ++ chunk in receive_rounds (length buf) (record s { rx_buf = buf })
