-- ===== src/H2/Frame/Runs.antt =====
-- Frames at concrete inputs, and the theorems at them.
use hellojs.Common.{ℕ, ◌+◌, ◌^◌, ◌≡◌, refl, List, [], ◌∷◌, ◌++◌, some, ok, arith}
use hellojs.Common.Bytes.{Bytes, write_be, read_be_from}
use hellojs.H2.Frame.{Frame, low_31, write_uint, read_uint, build, parse, parse_settings}
use hellojs.H2.Frame.Kind
use hellojs.H2.Frame.Codec.{parse-build, parse-append}
use hellojs.H2.Frame.Payloads.{settings_bytes, parse_settings-pairs}

abbrev ping_bytes : Bytes
ping_bytes = 0 ∷ 0 ∷ 2 ∷ 6 ∷ 1 ∷ 0 ∷ 0 ∷ 0 ∷ 3 ∷ 7 ∷ 8 ∷ []

abbrev ping_frame : Frame
ping_frame = record {
  length = 2;
  kind = 6;
  flags = 1;
  stream_id = 3;
  payload = 7 ∷ 8 ∷ [];
  consumed = 11;
}

build-ping : build Kind.ping 1 3 (7 ∷ 8 ∷ []) ≡ ok ping_bytes
unfolding build write_uint write_be low_31
build-ping = refl

parse_ping : parse (ping_bytes ++ (1 ∷ 2 ∷ [])) ≡ ok (some ping_frame)
unfolding parse read_uint read_be_from low_31
parse_ping = refl

parse-build_example : parse (ping_bytes ++ (9 ∷ [])) ≡ ok (some ping_frame)
parse-build_example = (parse-build Kind.ping 1 3 (7 ∷ 8 ∷ []) (9 ∷ []) ping_bytes build-ping).0

parse-append_example : parse ((ping_bytes ++ (1 ∷ 2 ∷ [])) ++ (5 ∷ [])) ≡ ok (some ping_frame)
parse-append_example = (parse-append (ping_bytes ++ (1 ∷ 2 ∷ [])) (5 ∷ []) ping_frame parse_ping).0

abbrev two_settings : List (ℕ × ℕ)
two_settings = (1, 65536) ∷ (4, 2 ^ 32 + 5) ∷ []

parse_settings-pairs_example :
    parse_settings (settings_bytes two_settings ++ (1 ∷ 2 ∷ [])) ≡ ok ((1, 65536) ∷ (4, 5) ∷ [])
parse_settings-pairs_example =
    parse_settings-pairs two_settings (1 ∷ 2 ∷ []) (omega arith, (omega arith, tt)) (omega arith)
