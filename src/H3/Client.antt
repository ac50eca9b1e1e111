-- ===== src/H3/Client.antt =====
-- lib/h3/h3.js: the frames of HTTP/3, the response that a request stream collects, and the QPACK
-- encoder stream of the server.
pub mod Frames
pub mod Chunks
pub mod Encoder
pub mod Headers
pub mod Response
pub mod Request
mod Runs
use hellojs.Common.{
  ℕ, zero, suc, ◌+◌, ◌/◌, ◌^◌, Bool, true, false, not, ◌&&◌, ◌||◌, List, [], ◌∷◌, ◌++◌, Option,
  none, some, Result, ok, err, ◌>>=◌, if◌then◌else◌, leb, ltb, ◌==◌, length, take, drop,
}
use hellojs.Common.Bytes.{Bytes, byte_at}
use hellojs.Common.Signed.{pos, negsuc}
use hellojs.Common.Text.{Text, text, text_eq, Strings}
use hellojs.H2.Hpack.Table.{Header}
use hellojs.H3.Varint as Varint
use hellojs.H3.Varint.{Value, number, bigint, Decoded, encode, decode}
use hellojs.H3.Qpack.Table.{DynamicTable}
use hellojs.H3.Qpack.Decode as Qpack
use hellojs.H3.Qpack.Decode.{decode_headers}
use hellojs.H3.Qpack.Dynamic.{decode_headers_with_table}
use hellojs.H3.Qpack.Instructions.{parse_encoder_instructions}

-- What a handler catches: an error of the integers, a sum of a Number and a BigInt, one of QPACK.
-- `running` is none: a QPACK decoder that has not returned after the given number of rounds, as it
-- never does where a negative length leads back. It is no failure of the request, which waits.
pub data Error : Type 0 where
  varint : Varint.Error → Error
  type_error : Error
  qpack : Qpack.Error → Error
  running : Error

unfoldable pub from_varint {ℓ} : {A : Type ℓ} → Result Varint.Error A → Result Error A
from_varint (ok a) = ok a
from_varint (err e) = err (varint e)

unfoldable pub from_qpack {ℓ} : {A : Type ℓ} → Result Qpack.Error A → Result Error A
from_qpack (ok a) = ok a
from_qpack (err Qpack.stuck) = err running
from_qpack (err (Qpack.huffman e)) = err (qpack (Qpack.huffman e))
from_qpack (err Qpack.invalid_required_insert_count) =
    err (qpack Qpack.invalid_required_insert_count)

abbrev pub frame_data : ℕ
frame_data = 0x00

abbrev pub frame_headers : ℕ
frame_headers = 0x01

abbrev pub frame_settings : ℕ
frame_settings = 0x04

unfoldable pub encode_frame : ℕ → Bytes → Result Varint.Error Bytes
encode_frame type payload = encode (Varint.pos type) >>= λ t.
    encode (Varint.pos (length payload)) >>= λ l. ok (t ++ (l ++ payload))

-- `CHROME_147_SETTINGS`.
abbrev pub chrome_147_settings : List (ℕ × ℕ)
chrome_147_settings = (0x01, 65536) ∷ (0x06, 65536) ∷ (0x07, 100) ∷ []

unfoldable pub settings_bytes : List (ℕ × ℕ) → Result Varint.Error Bytes
settings_bytes [] = ok []
settings_bytes ((id, value) ∷ settings) = encode (Varint.pos id) >>= λ i.
    encode (Varint.pos value) >>= λ v. settings_bytes settings >>= λ rest. ok (i ++ (v ++ rest))

unfoldable pub encode_settings : List (ℕ × ℕ) → Result Varint.Error Bytes
encode_settings settings = settings_bytes settings >>= encode_frame frame_settings

-- At the front of `b`: none is the null of an integer that is not all there.
unfoldable pub peek_varint : Bytes → Result Error (Option Decoded)
peek_varint b =
    if length b == 0
    then ok none
    else if ltb (length b) (2 ^ (byte_at b 0 / 64))
    then ok none
    else from_varint (decode b 0) >>= (λ d. ok (some d))

-- A frame that is all there: its type, its payload and what is left.
abbrev pub Read : Type 0
Read = Option (Value × Bytes × Bytes)

-- `off + l.value` and the payload; a BigInt in the sum throws.
unfoldable pub read_payload : Value → Value → Bytes → Result Error Read
read_payload type (bigint n) rest = err type_error
read_payload type (number n) rest =
    if ltb (length rest) n then ok none else ok (some (type, take n rest, drop n rest))

unfoldable pub read_length : Decoded → Bytes → Result Error Read
read_length t rest = peek_varint rest >>= λ p. elim p [
  | none ↦ ok none
  | some l ↦ read_payload t.value l.value (drop l.length rest)
]

unfoldable pub read_frame : Bytes → Result Error Read
read_frame buf =
    peek_varint buf >>= λ p. elim p [ none ↦ ok none | some t ↦ read_length t (drop t.length buf) ]

-- `respHeaders[n] = v`, in a plain object: a new name goes behind the others, and a string is no
-- value that `__proto__` takes.
unfoldable pub put_header : Header → List Header → List Header
put_header h [] = h ∷ []
put_header h (g ∷ gs) = let rest = put_header h gs in if text_eq g.0 h.0 then h ∷ gs else g ∷ rest

unfoldable pub set_header : Header → List Header → List Header
set_header h hs = if text_eq h.0 (text "__proto__") then hs else put_header h hs

unfoldable pub set_all : List Header → List Header → List Header
set_all [] hs = hs
set_all (h ∷ more) hs = set_all more (set_header h hs)

pub record State : Type 0 where
  pub frame_buf : Bytes
  pub headers : List Header
  pub chunks : Bytes
  -- Why no frame is read any more: `respFailed`, or a handler that does not return.
  pub stopped : Option Error

abbrev pub has_entries : List Header → Bool
has_entries [] = false
has_entries (e ∷ es) = true

abbrev pub is_type : ℕ → Value → Bool
is_type n (number m) = m == n
is_type n (bigint m) = false

module _ (u : Strings) (table : DynamicTable) (max_entries rounds : ℕ) where
  -- `payload[0] !== 0` is true of an empty payload too.
  unfoldable pub decode_field_section : Bytes → Result Error (List Header)
  decode_field_section payload =
      if has_entries table.entries || (length payload == 0 || not (byte_at payload 0 == 0))
      then from_qpack (decode_headers_with_table u payload (some table) max_entries rounds)
      else from_qpack (decode_headers u payload rounds)

  -- What a frame does to the response, behind which `rest` is left.
  unfoldable pub take_frame : Value → Bytes → Bytes → State → State
  take_frame type payload rest s =
      let s' : State = record s { frame_buf = rest } in
      if is_type frame_headers type
      then (elim (decode_field_section payload) as (λ r. State) [
        | ok decoded ↦ record s' { headers = set_all decoded s.headers }
        | err e ↦ record s' { stopped = some e }
      ])
      else if is_type frame_data type
      then record s' { chunks = s.chunks ++ payload }
      else s'

  -- The loop of the `data` handler. A frame takes two bytes at least.
  unfoldable pub frames_from : ℕ → State → State
  frames_from zero s = s
  frames_from (suc fuel) s = elim (read_frame s.frame_buf) [
    | err e ↦ record s { stopped = some e }
    | ok none ↦ s
    | ok (some (type, payload, rest)) ↦
        let s' = take_frame type payload rest s in
        let more = frames_from fuel s' in elim s'.stopped [ none ↦ more | some e ↦ s' ]
  ]

  unfoldable pub on_data : State → Bytes → State
  on_data s chunk = elim s.stopped [
    | some e ↦ s
    | none ↦
        let buf = s.frame_buf ++ chunk in
        frames_from (suc (length buf)) (record s { frame_buf = buf })
  ]
