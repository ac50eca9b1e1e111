-- ===== src/H2/Frame/Flag.antt =====
-- `FLAG` of lib/h2/frame.js: the flag bits.
use Prim.Native.Nat.{ℕ}

abbrev pub end_stream : ℕ
end_stream = 0x01

abbrev pub ack : ℕ
ack = 0x01

abbrev pub end_headers : ℕ
end_headers = 0x04

abbrev pub padded : ℕ
padded = 0x08

abbrev pub priority : ℕ
priority = 0x20
