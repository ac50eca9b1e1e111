-- ===== src/H2/Frame/Payloads.antt =====
-- The payloads of SETTINGS and GOAWAY read back, and a SETTINGS payload is read to its end.
use hellojs.Common.{
  ℕ, zero, suc, ◌*◌, ◌%◌, ◌^◌, ◌≤◌, ◌<◌, ◌≡◌, refl, List, [], ◌∷◌, ◌++◌, ok, length, arith, All,
  >>=-eq-ok, map, lt→ltb, le→ltb,
}
use hellojs.Common.Bytes.{Bytes, write_be}
use hellojs.H2.Frame.{
  low_31, write_uint, build_settings, parse_settings, parse_settings_from, build_goaway,
  parse_goaway,
}
use hellojs.H2.Frame.Codec.{read_uint-write_be, write_uint-eq-ok, low_31-mod}

abbrev pub cut : ℕ × ℕ → ℕ × ℕ
cut (id, v) = (id, v % 2 ^ 32)

-- The bytes of a SETTINGS payload.
abbrev pub settings_bytes : List (ℕ × ℕ) → Bytes
settings_bytes [] = []
settings_bytes ((id, v) ∷ pairs) =
    write_be 2 id ++ (write_be 4 (v % 2 ^ 32) ++ settings_bytes pairs)

abbrev pub HasIds : List (ℕ × ℕ) → Type 0
HasIds = All (λ (p : ℕ × ℕ). p.0 < 2 ^ 16)

length-settings_bytes : (pairs : List (ℕ × ℕ)) → length (settings_bytes pairs) ≡ 6 * length pairs
unfolding write_be
length-settings_bytes [] = refl
length-settings_bytes ((id, v) ∷ pairs) = omega (arith, length-settings_bytes pairs)

build_settings_bytes :
    (pairs : List (ℕ × ℕ)) (bytes : Bytes)
    → build_settings pairs ≡ ok bytes
    → HasIds pairs × (bytes ≡ settings_bytes pairs)
unfolding build_settings
build_settings_bytes [] bytes e = (tt, cc)
build_settings_bytes ((id, v) ∷ pairs) bytes e =
    let (head, e₁, e₂) = >>=-eq-ok (write_uint 2 id) _ e in
    let (rest, e₃, e₄) = >>=-eq-ok (build_settings pairs) _ e₂ in
    let (small, same) = write_uint-eq-ok 2 id head e₁ in
    let (ids, bytes_rest) = build_settings_bytes pairs rest e₃ in ((small, ids), cc)

parse_settings_from-bytes :
    (pairs : List (ℕ × ℕ)) (tail : Bytes) (fuel : ℕ)
    → HasIds pairs
    → length tail < 6
    → length (settings_bytes pairs ++ tail) ≤ fuel
    → parse_settings_from fuel (settings_bytes pairs ++ tail) ≡ ok (map cut pairs)
unfolding parse_settings_from write_be
parse_settings_from-bytes [] tail zero ids short h = refl
parse_settings_from-bytes [] tail (suc fuel) ids short h = rw (lt→ltb (length tail) 6 short) refl
parse_settings_from-bytes ((id, v) ∷ pairs) tail zero ids short h = absurd (omega arith)
parse_settings_from-bytes ((id, v) ∷ pairs) tail (suc fuel) ids short h =
    let rest = settings_bytes pairs ++ tail in
    let own = write_be 4 (v % 2 ^ 32) ++ rest in
    let again = parse_settings_from-bytes pairs tail fuel ids.1 short (omega arith) in
    rw (
      le→ltb (length (settings_bytes ((id, v) ∷ pairs) ++ tail)) 6 (omega arith),
      read_uint-write_be 2 id own ids.0,
      read_uint-write_be 4 (v % 2 ^ 32) rest (omega arith),
      again,
    )

-- A SETTINGS payload of pairs of two and four bytes, and fewer than six bytes behind them, is read as
-- these pairs, in order, and the bytes behind are passed over.
pub parse_settings-pairs :
    (pairs : List (ℕ × ℕ)) (tail : Bytes)
    → HasIds pairs
    → length tail < 6
    → parse_settings (settings_bytes pairs ++ tail) ≡ ok (map cut pairs)
unfolding parse_settings
parse_settings-pairs pairs tail ids short =
    parse_settings_from-bytes pairs tail (length (settings_bytes pairs ++ tail)) ids short
      (omega arith)

-- A GOAWAY payload reads back: the stream id in 31 bits, the code in 32, the debug data whole.
pub parse_goaway-build :
    (last code : ℕ) (debug : Bytes)
    → parse_goaway (build_goaway last code debug)
      ≡ ok (record {
        last_stream_id = last % 2 ^ 31;
        error_code = code % 2 ^ 32;
        debug_data = debug;
      })
unfolding parse_goaway build_goaway write_be
parse_goaway-build last code debug =
    let below : low_31 last < 2 ^ 32 = omega (arith, low_31-mod last) in
    let id : low_31 (low_31 last) ≡ last % 2 ^ 31 =
      omega (arith, low_31-mod last, low_31-mod (low_31 last)) in
    let tail = write_be 4 (code % 2 ^ 32) ++ debug in
    rw (
      read_uint-write_be 4 (low_31 last) tail below,
      read_uint-write_be 4 (code % 2 ^ 32) debug (omega arith),
      id,
    )
