-- ===== src/H3/Packet/Sendable.antt =====
-- The calls of the frame encoders, and a payload that is made of them.
use hellojs.Common.{ℕ, ◌^◌, ◌<◌, Bool, List, [], ◌∷◌, ◌++◌, Result, ok, ◌>>=◌, length}
use hellojs.Common.Bytes.{Bytes}
use hellojs.H3.Varint.{narrow}
use hellojs.H3.Packet.Frames.{
  Error, Frame, ack, crypto, stream, retire_connection_id, path_challenge, path_response, datagram,
  encode_crypto_frame, encode_stream_frame, encode_ack_frame, encode_retire_connection_id_frame,
  encode_path_challenge_frame, encode_path_response_frame, encode_datagram_frame,
}

-- A call of one of the encoders.
pub data Sendable : Type 0 where
  send_crypto : ℕ → Bytes → Sendable
  send_stream : ℕ → ℕ → Bytes → Bool → Sendable
  send_ack : ℕ → ℕ → ℕ → Sendable
  send_retire : ℕ → Sendable
  send_challenge : Bytes → Sendable
  send_response : Bytes → Sendable
  send_datagram : Bytes → Sendable

abbrev pub encode_one : Sendable → Result Error Bytes
encode_one (send_crypto o b) = encode_crypto_frame o b
encode_one (send_stream sid o b fin) = encode_stream_frame sid o b fin
encode_one (send_ack la ad fr) = encode_ack_frame la ad fr
encode_one (send_retire seq) = encode_retire_connection_id_frame seq
encode_one (send_challenge b) = encode_path_challenge_frame b
encode_one (send_response b) = encode_path_response_frame b
encode_one (send_datagram b) = encode_datagram_frame b

-- A payload of frames, one behind the other.
abbrev pub encode_all : List Sendable → Result Error Bytes
encode_all [] = ok []
encode_all (f ∷ fs) = encode_one f >>= λ (w : Bytes). encode_all fs >>= λ (ws : Bytes). ok (w ++ ws)

abbrev pub received : Sendable → Frame
received (send_crypto o b) = crypto (narrow o) b
received (send_stream sid o b fin) = stream (narrow sid) (narrow o) b fin
received (send_ack la ad fr) = ack (narrow la) (narrow ad) (narrow fr) []
received (send_retire seq) = retire_connection_id (narrow seq)
received (send_challenge b) = path_challenge b
received (send_response b) = path_response b
received (send_datagram b) = datagram b

abbrev pub body_of : Sendable → Bytes
body_of (send_crypto o b) = b
body_of (send_stream sid o b fin) = b
body_of (send_datagram b) = b
body_of f = []

-- The data are shorter than 2^53 bytes, which no buffer reaches.
abbrev pub IsShort : Sendable → Type 0
IsShort f = length (body_of f) < 2 ^ 53
