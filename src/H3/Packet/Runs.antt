-- ===== src/H3/Packet/Runs.antt =====
-- Frames at concrete inputs, and the theorems at them.
use hellojs.Common.{◌≡◌, refl, true, List, [], ◌∷◌, ok, arith, map}
use hellojs.Common.Bytes.{Bytes}
use hellojs.Common.Text.{ascii}
use hellojs.H3.Varint.{encode}
use hellojs.H3.Packet.Frames.{
  from_varint, encode_crypto_frame, encode_stream_frame, encode_ack_frame,
  encode_path_challenge_frame, decode_frames,
}
use hellojs.H3.Packet.Sendable.{
  Sendable, send_crypto, send_stream, send_ack, send_challenge, encode_all, received,
}
use hellojs.H3.Packet.RoundTrip.{decode_frames-encode_all}
use hellojs.H3.Packet.Ends.{Post, AtMost, decode_frames-AtMost}

abbrev sent_frames : List Sendable
sent_frames =
    send_ack 3 0 2
    ∷ send_crypto 5 (0xaa ∷ 0xbb ∷ [])
    ∷ send_challenge (1 ∷ 2 ∷ 3 ∷ 4 ∷ 5 ∷ 6 ∷ 7 ∷ 8 ∷ [])
    ∷ send_stream 4 9 (0xcc ∷ []) true
    ∷ []

abbrev wire : Bytes
wire =
    0x02 ∷ 3 ∷ 0 ∷ 0 ∷ 2 ∷ 0x06 ∷ 5 ∷ 2 ∷ 0xaa ∷ 0xbb ∷ 0x1a ∷ 1 ∷ 2 ∷ 3 ∷ 4 ∷ 5 ∷ 6 ∷ 7 ∷ 8 ∷ 0x0f
    ∷ 4 ∷ 9 ∷ 1 ∷ 0xcc ∷ []

encode_all-sent_frames : encode_all sent_frames ≡ ok wire
unfolding encode from_varint encode_crypto_frame encode_stream_frame encode_ack_frame
    encode_path_challenge_frame
encode_all-sent_frames = refl

decode_frames-encode_all_example : decode_frames ascii wire ≡ ok (map received sent_frames)
decode_frames-encode_all_example =
    decode_frames-encode_all ascii sent_frames wire
      (omega arith, (omega arith, (omega arith, (omega arith, tt)))) encode_all-sent_frames

-- An ACK frame whose count of ranges is above what the packet holds.
decode_frames-AtMost_example :
    Post (AtMost 6) (decode_frames ascii (0x02 ∷ 3 ∷ 0 ∷ 0x3f ∷ 2 ∷ 1 ∷ []))
decode_frames-AtMost_example = decode_frames-AtMost ascii (0x02 ∷ 3 ∷ 0 ∷ 0x3f ∷ 2 ∷ 1 ∷ [])
