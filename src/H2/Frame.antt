-- ===== src/H2/Frame.antt =====
-- lib/h2/frame.js: the nine-byte frame header, and the payloads of SETTINGS, WINDOW_UPDATE,
-- RST_STREAM and GOAWAY.
pub mod Kind
pub mod Flag
pub mod Codec
pub mod Payloads
mod Runs
use Prim.Native.Nat.{bit_and}
use hellojs.Common.{
  ℕ, zero, suc, ◌+◌, ◌*◌, ◌%◌, ◌^◌, List, [], ◌∷◌, ◌++◌, Option, none, some, Result, ok, err, ◌>>=◌,
  if◌then◌else◌, ltb, leb, length, take, drop, get_or,
}
use hellojs.Common.Bytes.{Bytes, byte_at, write_be, read_be}

-- The RangeError of Node's Buffer: a value that does not fit its field, or a read past the end.
pub data Error : Type 0 where
  out_of_range : Error

pub record Frame : Type 0 where
  pub length : ℕ
  pub kind : ℕ
  pub flags : ℕ
  pub stream_id : ℕ
  pub payload : Bytes
  pub consumed : ℕ

-- `&` of a Number with the 31-bit mask: the Number is taken modulo 2^32 first.
unfoldable pub low_31 : ℕ → ℕ
low_31 x = bit_and (x % 2 ^ 32) 0x7fffffff

-- `writeUIntBE(x, o, n)` and its kin throw where the value does not fit.
pub write_uint : ℕ → ℕ → Result Error Bytes
write_uint n x = if ltb x (256 ^ n) then ok (write_be n x) else err out_of_range

unfoldable pub read_uint : ℕ → Bytes → Result Error ℕ
read_uint n buf = elim (read_be n buf) [ none ↦ err out_of_range | some x ↦ ok x ]

-- An element assignment keeps the low eight bits.
pub build : ℕ → ℕ → ℕ → Bytes → Result Error Bytes
build kind flags stream_id payload = do
  len ← write_uint 3 (length payload)
  sid ← write_uint 4 (low_31 stream_id)
  ok (len ++ ((kind % 256) ∷ (flags % 256) ∷ (sid ++ payload)))

unfoldable pub parse : Bytes → Result Error (Option Frame)
parse buf = if ltb (length buf) 9 then ok none else do
  len ← read_uint 3 buf
  if ltb (length buf) (9 + len) then ok none else do
    sid ← read_uint 4 (drop 5 buf)
    ok (
        some (record {
          length = len;
          kind = byte_at buf 3;
          flags = byte_at buf 4;
          stream_id = low_31 sid;
          payload = take len (drop 9 buf);
          consumed = 9 + len;
        }))

-- `v >>> 0` is the value modulo 2^32; `writeUInt16BE` throws on an id above 16 bits.
pub build_settings : List (ℕ × ℕ) → Result Error Bytes
build_settings [] = ok []
build_settings ((id, v) ∷ pairs) = do
  head ← write_uint 2 id
  rest ← build_settings pairs
  ok (head ++ (write_be 4 (v % 2 ^ 32) ++ rest))

-- The pairs from the front of what is left, as long as six bytes are there.
parse_settings_from : ℕ → Bytes → Result Error (List (ℕ × ℕ))
parse_settings_from zero payload = ok []
parse_settings_from (suc fuel) payload = if ltb (length payload) 6 then ok [] else do
  id ← read_uint 2 payload
  v ← read_uint 4 (drop 2 payload)
  rest ← parse_settings_from fuel (drop 6 payload)
  ok ((id, v) ∷ rest)

-- A round takes six bytes, so the length bounds the rounds.
pub parse_settings : Bytes → Result Error (List (ℕ × ℕ))
parse_settings payload = parse_settings_from (length payload) payload

pub build_window_update : ℕ → Bytes
build_window_update increment = write_be 4 (increment % 2 ^ 32)

pub build_rst_stream : ℕ → Bytes
build_rst_stream error_code = write_be 4 (error_code % 2 ^ 32)

pub build_goaway : ℕ → ℕ → Bytes → Bytes
build_goaway last_stream_id error_code debug_data =
    write_be 4 (low_31 last_stream_id) ++ (write_be 4 (error_code % 2 ^ 32) ++ debug_data)

pub record Goaway : Type 0 where
  pub last_stream_id : ℕ
  pub error_code : ℕ
  pub debug_data : Bytes

pub parse_goaway : Bytes → Result Error Goaway
parse_goaway payload = do
  sid ← read_uint 4 payload
  code ← read_uint 4 (drop 4 payload)
  ok (record { last_stream_id = low_31 sid; error_code = code; debug_data = drop 8 payload })
