-- ===== src/H3/Client/Runs.antt =====
-- Responses and encoder streams of HTTP/3 at concrete inputs, and the theorems at them.
use hellojs.Common.{
  ◌<◌, ◌≤◌, ◌≡◌, refl, false, List, [], ◌∷◌, ◌++◌, none, some, ok, map, take, drop, length, arith,
}
use hellojs.Common.Bytes.{Bytes}
use hellojs.Common.Text.{Text, text, text_eq, ascii}
use hellojs.H3.Client.Headers.{value_of, last_of}
use hellojs.H3.Qpack.Table.{new_table}
use hellojs.H3.Qpack.Integers.{encode_int}
use hellojs.H3.Qpack.Instructions.Written.{
  Instruction, capacity_to, insert_literal, apply_all, apply, written, written_all, InstructionFits,
}
use hellojs.H3.Qpack.Encode.{
  encode_headers, encode_fields, encode_header, encode_match, encode_string, find_static, find_from,
}
use hellojs.H3.Varint.{max_safe_integer}
use hellojs.H3.Qpack.Static.{static_table}
use hellojs.H2.Hpack.Table.{Header}
use hellojs.H3.Client.{State, frame_headers, frame_data, encode_frame, on_data}
use hellojs.H3.Client.Request.{Send, ordered, request, Carries, request-Carries}
use hellojs.H3.Qpack.Decode.{decode_headers}
use hellojs.H3.Qpack.RoundTrip.Fields.{lowered}
use hellojs.H3.Client.Response.{on_data-response}
use hellojs.H3.Client.Chunks.{AfterMore, on_data-FramesMore}
use hellojs.H3.Client.Encoder.{Uni, on_uni_data, on_uni_data-written}

abbrev fresh : State
fresh = record { frame_buf = []; headers = []; chunks = []; stopped = none }

-- HEADERS with `:status: 200`, and DATA of two bytes.
abbrev response : Bytes
response = 1 ∷ 3 ∷ 0 ∷ 0 ∷ 0xd9 ∷ 0 ∷ 2 ∷ 104 ∷ 105 ∷ []

abbrev first : Bytes
first = take 4 response

on_data-FramesMore_example :
    AfterMore ascii new_table 0 100
      (on_data ascii new_table 0 100 fresh first)
      (on_data ascii new_table 0 100 fresh first).stopped
      (drop 4 response)
      (on_data ascii new_table 0 100 fresh response)
on_data-FramesMore_example =
    on_data-FramesMore ascii new_table 0 100 fresh first (drop 4 response) refl

abbrev instructions : List Instruction
instructions = capacity_to 4096 ∷ []

abbrev last : Instruction
last = insert_literal (false, text "name") (false, text "value")

last-Fits : InstructionFits ascii last
last-Fits = (
  (omega arith, (omega arith, (omega arith, (omega arith, (omega arith, tt)))), refl),
  (
    omega arith,
    (omega arith, (omega arith, (omega arith, (omega arith, (omega arith, tt))))),
    refl,
  ),
)

last_cut : 7 < length (written ascii last)
unfolding encode_int
last_cut = omega arith

abbrev opened : Uni
opened = record {
  type_buf = [];
  stream_type = none;
  peer = record { encoder_buf = []; table = new_table };
}

on_uni_data-written_example :
    (on_uni_data ascii
      (on_uni_data ascii opened
        (0x02 ∷ (written_all ascii instructions ++ take 7 (written ascii last))))
      (drop 7 (written ascii last))).peer
    ≡ record { encoder_buf = []; table = apply (apply_all instructions new_table) last }
on_uni_data-written_example =
    on_uni_data-written ascii instructions last 7 new_table (omega arith, tt) last-Fits
      (tt, last-Fits, last_cut)

abbrev answer : List Header
answer = (text ":status", text "200") ∷ (text "Date", text "0") ∷ []

answer_small : length (encode_headers ascii answer) ≤ max_safe_integer
unfolding encode_headers encode_fields encode_header encode_match encode_string find_static
    find_from static_table encode_int
answer_small = omega arith

answer_rounds : length (encode_headers ascii answer) ≤ 100
unfolding encode_headers encode_fields encode_header encode_match encode_string find_static
    find_from static_table encode_int
answer_rounds = omega arith

on_data-response_example :
    (h d : Bytes) × (fields : List Header) × (encode_frame frame_headers
        (encode_headers ascii answer)
      ≡ ok h)
    × (encode_frame frame_data (104 ∷ 105 ∷ []) ≡ ok d)
    × (on_data ascii new_table 0 100 fresh (h ++ d)
        ≡ record { frame_buf = []; headers = fields; chunks = 104 ∷ 105 ∷ []; stopped = none })
    × ((n : Text)
        → text_eq n (text "__proto__") ≡ false
        → value_of n fields ≡ last_of n (map (lowered ascii) answer) none)
on_data-response_example =
    on_data-response ascii new_table 0 100 answer (104 ∷ 105 ∷ [])
      (
        ((omega arith, refl), (omega arith, refl), refl),
        (((omega arith, refl), (omega arith, refl), refl), tt),
      )
      answer_rounds answer_small (omega arith)

abbrev asked : List Header
asked = ordered ascii (text "GET") (text "/") (text "a.b") ((text "X-Id", text "7") ∷ [])

asked_small : length (encode_headers ascii asked) ≤ max_safe_integer
unfolding ordered encode_headers encode_fields encode_header encode_match encode_string find_static
    find_from static_table encode_int
asked_small = omega arith

request-Carries_example :
    let block = encode_headers ascii asked in
    (decode_headers ascii block (length block) ≡ ok (map (lowered ascii) asked))
    × (sends : List Send) × (request ascii
          (text "GET")
          (text "/")
          (text "a.b")
          ((text "X-Id", text "7") ∷ [])
          (some (1 ∷ []))
        ≡ ok sends)
    × Carries ascii block (some (1 ∷ [])) sends
unfolding ordered
request-Carries_example =
    request-Carries ascii (text "GET") (text "/") (text "a.b") ((text "X-Id", text "7") ∷ [])
      (some (1 ∷ []))
      (
        ((omega arith, refl), (omega arith, refl), refl),
        (
          ((omega arith, refl), (omega arith, refl), refl),
          (
            ((omega arith, refl), (omega arith, refl), refl),
            (
              ((omega arith, refl), (omega arith, refl), refl),
              (((omega arith, refl), (omega arith, refl), refl), tt),
            ),
          ),
        ),
      )
      asked_small (omega arith)
