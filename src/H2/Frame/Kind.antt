-- ===== src/H2/Frame/Kind.antt =====
-- `TYPE` of lib/h2/frame.js: the frame types.
use Prim.Native.Nat.{ℕ}

abbrev pub data_frame : ℕ
data_frame = 0x00

abbrev pub headers : ℕ
headers = 0x01

abbrev pub priority : ℕ
priority = 0x02

abbrev pub rst_stream : ℕ
rst_stream = 0x03

abbrev pub settings : ℕ
settings = 0x04

abbrev pub push_promise : ℕ
push_promise = 0x05

abbrev pub ping : ℕ
ping = 0x06

abbrev pub goaway : ℕ
goaway = 0x07

abbrev pub window_update : ℕ
window_update = 0x08

abbrev pub continuation : ℕ
continuation = 0x09
