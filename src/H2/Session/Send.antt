-- ===== src/H2/Session/Send.antt =====
-- What goes out: `_sendData`, `request`, and the calls of a stream and of the session.
pub mod Flow
pub mod Rounds
pub mod Headers
use Prim.Native.Nat.{bit_or, min}
use hellojs.Common.{
  ℕ, zero, suc, ◌+◌, ◌-◌, ◌*◌, ◌%◌, ◌^◌, Bool, true, false, not, ◌&&◌, ◌||◌, List, [], ◌∷◌, ◌++◌,
  Option, none, some, if◌then◌else◌, ltb, leb, ◌==◌, length, take, drop,
}
use hellojs.Common.Bytes.{Bytes, write_be}
use hellojs.Common.Text.{Strings}
use hellojs.H2.Frame.{build_rst_stream, build_goaway}
use hellojs.H2.Frame.Kind
use hellojs.H2.Frame.Flag
use hellojs.H2.Hpack.Table.{Header}
use hellojs.H2.Hpack.Codec.{encode}
use hellojs.H2.Session.State.{
  Stream, Session, Effect, session_close, new_stream, get_stream, setting, emit, send_frame,
  set_stream, close_stream,
}

-- `Math.min(peerSettings[MAX_FRAME_SIZE] || 16384, 16384)`
unfoldable pub max_frame : Session → ℕ
max_frame s = let v = setting 0x05 s.peer_settings in if v == 0 then 16384 else min v 16384

-- What the stream's window allows; a stream that is gone allows a whole frame.
unfoldable pub stream_room : Session → ℕ → ℕ
stream_room s id =
    let max = max_frame s in elim (get_stream id s.streams) [ none ↦ max | some t ↦ t.send_window ]

unfoldable pub room : Session → ℕ → ℕ
room s id = min (max_frame s) (min s.conn_send_window (stream_room s id))

-- `if (stream) stream.sendWindow -= n`
unfoldable pub shrink : Session → Option Stream → ℕ → Session
shrink s none n = s
shrink s (some t) n = set_stream s (record t { send_window = t.send_window - n })

-- One DATA frame: the windows shrink by its length.
unfoldable pub send_chunk : Session → ℕ → Bytes → ℕ → Session
send_chunk s id chunk flags =
    shrink
      (send_frame (record s { conn_send_window = s.conn_send_window - length chunk })
        Kind.data_frame flags id chunk)
      (get_stream id s.streams) (length chunk)

-- The loop of `_sendData` over what is left of the body. A round sends a byte at least or ends
-- it, so the length bounds the rounds.
unfoldable pub send_rounds : ℕ → Session → ℕ → Bytes → Bool → Session
send_rounds zero s id left end = s
send_rounds (suc fuel) s id [] end = s
send_rounds (suc fuel) s id (b ∷ bs) end =
    let r = room s id in
    let count = min (max_frame s) (min (length (b ∷ bs)) r) in
    let chunk = take count (b ∷ bs) in
    let rest = drop count (b ∷ bs) in
    let flags = (if length rest == 0 && end then Flag.end_stream else 0) in
    let again = send_rounds fuel (send_chunk s id chunk flags) id rest end in
    if r == 0 then s else again

-- `_sendData`
unfoldable pub send_data : Session → ℕ → Bytes → Bool → Session
send_data s id body end =
    let s' = send_rounds (length body) s id body end in
    if length body == 0 && end then send_frame s' Kind.data_frame Flag.end_stream id [] else s'

-- `write` and `end` of a stream; a string body has become bytes.
pub write : Session → Stream → Bytes → Session
write s t chunk =
    if length chunk == 0
    then s
    else let s' = send_data s t.id chunk false in
      elim (get_stream t.id s'.streams) [
        | none ↦ s'
        | some t' ↦ set_stream s' (record t' { wrote_body = true })
      ]

pub end : Session → Stream → Option Bytes → Session
end s t none = if t.wrote_body then send_data s t.id [] true else s
end s t (some body) =
    let s' = send_data s t.id body true in
    elim (get_stream t.id s'.streams) [
      | none ↦ s'
      | some t' ↦ set_stream s' (record t' { wrote_body = true })
    ]

-- `close` of a stream.
pub close : Session → Stream → ℕ → Session
close s t error_code =
    if t.closed
    then s
    else close_stream (send_frame s Kind.rst_stream 0 t.id (build_rst_stream error_code)) t.id

-- `close` of the session.
pub close_session : Session → Session
close_session s =
    if s.closed
    then s
    else emit
        (record (send_frame s Kind.goaway 0 0 (build_goaway 0 0 [])) {
          closed = true;
          destroyed = true;
        })
        session_close

-- The loop over CONTINUATION frames. It sends a byte at least a round where `max` is positive.
unfoldable pub continuation_frames : ℕ → ℕ → ℕ → Bytes → Session → Session
continuation_frames zero max id left s = s
continuation_frames (suc fuel) max id [] s = s
continuation_frames (suc fuel) max id (b ∷ bs) s =
    let chunk = take max (b ∷ bs) in
    let rest = drop max (b ∷ bs) in
    let flags = (if length rest == 0 then Flag.end_headers else 0) in
    continuation_frames fuel max id rest (send_frame s Kind.continuation flags id chunk)

-- The end of `request`: HEADERS, and CONTINUATION frames if the payload is above the frame size.
unfoldable pub send_headers : Session → ℕ → Bytes → ℕ → Session
send_headers s id payload flags =
    let max = max_frame s in
    if ltb max (length payload)
    then continuation_frames (length payload) max id (drop max payload)
        (send_frame s Kind.headers (flags - Flag.end_headers) id (take max payload))
    else send_frame s Kind.headers flags id payload

-- A priority of the caller or the profile: each field may be missing.
pub record Priority : Type 0 where
  pub weight : Option ℕ
  pub exclusive : Option Bool
  pub parent : Option ℕ

abbrev or_else {ℓ} : {A : Type ℓ} → Option A → A → A
or_else none d = d
or_else (some a) d = a

abbrev or_option {ℓ} : {A : Type ℓ} → Option A → Option A → Option A
or_option none o = o
or_option (some a) o = some a

abbrev given {ℓ} : {A : Type ℓ} → Option A → Bool
given none = false
given (some a) = true

-- Whether the HEADERS frame carries a priority: what `opts` says, or the profile.
unfoldable pub sends_priority : Priority → Option Priority → Bool → Bool
sends_priority opts profile send_priority_frame =
    given opts.weight
    || (given opts.exclusive || given opts.parent)
    || send_priority_frame && given profile

-- `profPri.priority || { weight: 256, exclusive: true, parent: 0 }`
unfoldable pub default_priority : Option Priority → Priority
default_priority none = record { weight = some 256; exclusive = some true; parent = some 0 }
default_priority (some p) = p

-- The five bytes of a priority. `(w - 1) & 0xff` is w + 255 modulo 256.
unfoldable pub priority_bytes : Priority → Option Priority → Bytes
priority_bytes opts profile =
    let dflt = default_priority profile in
    let weight = (or_else (or_option opts.weight dflt.weight) 256 + 255) % 256 in
    let parent = or_else (or_option opts.parent dflt.parent) 0 % 2 ^ 32 in
    let exclusive =
      (if or_else (or_option opts.exclusive dflt.exclusive) false then 0x80000000 else 0) in
    write_be 4 (bit_or parent exclusive) ++ (weight ∷ [])

module _ (u : Strings) where
  -- `request`: the list has its array values spread already.
  pub request : Session → List Header → Bool → Priority → Option Priority → Bool → Session × ℕ
  request s headers end opts profile send_priority_frame =
      let id = s.next_stream_id in
      let s' : Session = record s {
        next_stream_id = id + 2;
        streams = s.streams ++ (new_stream id ∷ []);
      } in
      let block = encode u headers s.local_table in
      let flags = Flag.end_headers + (if end then Flag.end_stream else 0) in
      (
        if sends_priority opts profile send_priority_frame
            then send_headers s' id (priority_bytes opts profile ++ block) (flags + Flag.priority)
            else send_headers s' id block flags,
        id,
      )
