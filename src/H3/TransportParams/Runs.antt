-- ===== src/H3/TransportParams/Runs.antt =====
-- The parameters of the browser that is imitated, and the theorem at a block.
use hellojs.Common.{ℕ, ◌≡◌, refl, [], ◌∷◌, ok, arith, List, map, none}
use hellojs.Common.Bytes.{Bytes, write_be}
use hellojs.H3.Varint.{Value, narrow, encode}
use hellojs.H3.Packet.Frames.{from_varint}
use hellojs.H3.TransportParams.{tp_opaque, tp_varint, concat_all, build_chrome_147, decode}
use hellojs.H3.TransportParams.RoundTrip.{write_one}
use hellojs.H3.TransportParams.{Param, numeric, raw}
use hellojs.H3.TransportParams.Last.{Item, bytes, integer, value_of, last_of, decode-last_of}

abbrev params : List (ℕ × Bytes)
params = (0x08, 0x40 ∷ 0x64 ∷ []) ∷ (0x0f, 0xaa ∷ 0xbb ∷ []) ∷ []

params_bytes :
    concat_all (map write_one params) ≡ ok (0x08 ∷ 2 ∷ 0x40 ∷ 0x64 ∷ 0x0f ∷ 2 ∷ 0xaa ∷ 0xbb ∷ [])
unfolding concat_all tp_opaque from_varint encode
params_bytes = refl

chrome_147 :
    build_chrome_147 (0xaa ∷ [])
    ≡ ok (
        0x01 ∷ 4 ∷ 0x80 ∷ 0x00 ∷ 0x75 ∷ 0x30 ∷ 0x04 ∷ 4 ∷ 0x80 ∷ 0xf0 ∷ 0x00 ∷ 0x00 ∷ 0x05 ∷ 4
        ∷ 0x80 ∷ 0x60 ∷ 0x00 ∷ 0x00 ∷ 0x06 ∷ 4 ∷ 0x80 ∷ 0x60 ∷ 0x00 ∷ 0x00 ∷ 0x07 ∷ 4 ∷ 0x80 ∷ 0x60
        ∷ 0x00 ∷ 0x00 ∷ 0x08 ∷ 2 ∷ 0x40 ∷ 0x64 ∷ 0x09 ∷ 2 ∷ 0x40 ∷ 0x64 ∷ 0x0f ∷ 1 ∷ 0xaa ∷ 0x0e ∷ 1
        ∷ 8 ∷ 0x20 ∷ 4 ∷ 0x80 ∷ 0x00 ∷ 0xff ∷ 0xff ∷ [])
unfolding build_chrome_147 concat_all tp_varint tp_opaque from_varint encode write_be
chrome_147 = refl

abbrev streams : Item
unfolding from_varint encode write_be
streams = record {
  id = 0x08;
  value = 0x40 ∷ 0x64 ∷ [];
  param = numeric (narrow 100);
  says = integer 0x08 100 (0x40 ∷ 0x64 ∷ []) [] refl refl;
}

abbrev source : Item
source = record {
  id = 0x0f;
  value = 0xaa ∷ 0xbb ∷ [];
  param = raw (0xaa ∷ 0xbb ∷ []);
  says = bytes 0x0f (0xaa ∷ 0xbb ∷ []) refl;
}

decode-last_of_example :
    (out : List (Value × Param)) × (decode (0x08 ∷ 2 ∷ 0x40 ∷ 0x64 ∷ 0x0f ∷ 2 ∷ 0xaa ∷ 0xbb ∷ [])
      ≡ ok out)
    × ((n : ℕ) → value_of n out ≡ last_of n (streams ∷ source ∷ []) none)
unfolding streams
decode-last_of_example =
    decode-last_of (streams ∷ source ∷ []) (0x08 ∷ 2 ∷ 0x40 ∷ 0x64 ∷ 0x0f ∷ 2 ∷ 0xaa ∷ 0xbb ∷ [])
      (omega arith, (omega arith, tt)) params_bytes
