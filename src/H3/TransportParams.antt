-- ===== src/H3/TransportParams.antt =====
-- lib/h3/transport-params.js: the transport parameters of QUIC.
pub mod RoundTrip
pub mod Last
mod Runs
use hellojs.Common.{
  ℕ, zero, suc, ◌+◌, ◌^◌, Bool, true, false, ◌||◌, List, [], ◌∷◌, ◌++◌, Result, ok, err, ◌>>=◌,
  if◌then◌else◌, ltb, leb, ◌==◌, length,
}
use hellojs.Common.Bytes.{Bytes, write_be}
use hellojs.H3.Varint.{Value, number, bigint, Decoded, pos, encode}
use hellojs.H3.Varint as Varint
use hellojs.H3.Packet.Frames.{Error, stuck, from_varint, field, span}

-- An entry of the result: a number or a buffer.
pub data Param : Type 0 where
  numeric : Value → Param
  raw : Bytes → Param

unfoldable pub tp_opaque : ℕ → Bytes → Result Error Bytes
tp_opaque id bytes = from_varint (encode (pos id)) >>= λ (i : Bytes).
    from_varint (encode (pos (length bytes))) >>= λ (len : Bytes). ok (i ++ (len ++ bytes))

unfoldable pub tp_varint : ℕ → ℕ → Result Error Bytes
tp_varint id value = from_varint (encode (pos value)) >>= λ (v : Bytes). tp_opaque id v

unfoldable pub tp_empty : ℕ → Result Error Bytes
tp_empty id = from_varint (encode (pos id)) >>= λ (i : Bytes).
    from_varint (encode (pos 0)) >>= λ (len : Bytes). ok (i ++ len)

unfoldable pub concat_all : List (Result Error Bytes) → Result Error Bytes
concat_all [] = ok []
concat_all (p ∷ ps) = p >>= λ (w : Bytes). concat_all ps >>= λ (ws : Bytes). ok (w ++ ws)

unfoldable pub build_chrome_147 : Bytes → Result Error Bytes
build_chrome_147 cid = concat_all (
    tp_varint 0x01 30000
    ∷ tp_varint 0x04 15728640
    ∷ tp_varint 0x05 6291456
    ∷ tp_varint 0x06 6291456
    ∷ tp_varint 0x07 6291456
    ∷ tp_varint 0x08 100
    ∷ tp_varint 0x09 100
    ∷ tp_opaque 0x0f cid
    ∷ tp_varint 0x0e 8
    ∷ tp_varint 0x20 65535
    ∷ [])

-- The parameters that `decode` reads as numbers. A BigInt is `===` to none of them.
unfoldable pub is_numeric : Value → Bool
is_numeric (bigint n) = false
is_numeric (number n) =
    n == 0x20 || (n == 0x01 || (n == 0x04 || (n == 0x08 || (n == 0x09 || n == 0x0e))))

unfoldable pub read_value : Value → Bytes → Result Error Param
read_value id val =
    let inner = (field val >>= λ (v : Value × Bytes). ok (numeric v.0)) in
    if is_numeric id
    then (if ltb 0 (length val) then inner else ok (numeric (number 0)))
    else ok (raw val)

unfoldable pub same_id : Value → Value → Bool
same_id (number m) (number n) = m == n
same_id (bigint m) (bigint n) = m == n
same_id (number m) (bigint n) = false
same_id (bigint m) (number n) = false

-- `out[id.value] = ...`
unfoldable pub set_param : Value → Param → List (Value × Param) → List (Value × Param)
set_param id p [] = (id, p) ∷ []
set_param id p ((i, q) ∷ rest) =
    if same_id i id then (i, p) ∷ rest else (i, q) ∷ set_param id p rest

-- The loop. A parameter takes a byte at least, so the length bounds the rounds.
unfoldable pub decode_params :
    ℕ → Bytes → List (Value × Param) → Result Error (List (Value × Param))
decode_params fuel [] out = ok out
decode_params zero (b ∷ bs) out = err stuck
decode_params (suc fuel) (b ∷ bs) out = field (b ∷ bs) >>= λ (id : Value × Bytes).
    field id.1 >>= λ (len : Value × Bytes). span len.0 len.1 >>= λ (val : Bytes × Bytes).
    read_value id.0 val.0 >>= λ (p : Param). decode_params fuel val.1 (set_param id.0 p out)

unfoldable pub decode : Bytes → Result Error (List (Value × Param))
decode buf = decode_params (length buf) buf []

pub data ExtensionError : Type 0 where
  out_of_range : ExtensionError

-- `writeUInt16BE` throws on a block above 16 bits.
unfoldable pub as_tls_extension : Bytes → Result ExtensionError Bytes
as_tls_extension block =
    if ltb (length block) (2 ^ 16)
    then ok (0x00 ∷ 0x39 ∷ (write_be 2 (length block) ++ block))
    else err out_of_range
