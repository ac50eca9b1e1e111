-- ===== src/H3/Varint/Bounds.antt =====
-- `decode` stays inside the buffer.
use hellojs.Common.{ℕ, ◌+◌, ◌/◌, ◌^◌, ◌≤◌, ◌<◌, ◌≡◌, length, ok, err, arith}
use hellojs.Common.Bytes.{Bytes, byte_at}
use hellojs.H3.Varint.{Decoded, Error, decode}
use hellojs.Common.Bits.{pow_two_pos}

-- A number is taken from one byte at least, and none past the end.
pub decode_bounds :
    (buf : Bytes) (offset : ℕ) (d : Decoded)
    → decode buf offset ≡ ok d
    → (1 ≤ d.length) × (offset + d.length ≤ length buf)
unfolding decode
decode_bounds buf offset d h = ground (arith, pow_two_pos (byte_at buf offset / 64))

-- `decode` throws only where the number does not fit into the rest of the buffer.
pub decode_throws :
    (buf : Bytes) (offset : ℕ) (e : Error)
    → decode buf offset ≡ err e
    → length buf < offset + 2 ^ (byte_at buf offset / 64)
unfolding decode
decode_throws buf offset e h = ground (arith, pow_two_pos (byte_at buf offset / 64))
