-- ===== src/H3/Qpack/RoundTrip.antt =====
-- What `encodeHeaders` wrote both decoders read back, header by header.
pub mod Flags
pub mod Fields
use Prim.Native.Nat.{bit_and}
use hellojs.Common.{
  ℕ, zero, suc, ◌+◌, ◌-◌, ◌*◌, ◌^◌, ◌≤◌, ◌<◌, ◌≡◌, refl, ap, ◌∙◌, Bool, true, false, not, ◌&&◌,
  ◌||◌, List, [], ◌∷◌, ◌++◌, append_assoc, append-nil, Option, none, some, Result, ok, ◌>>=◌, ◌==◌,
  length, length-append, get_elem?, All, map, arith, lt→ltb, le→ltb, ltb, Bool-cases, inl, inr,
}
use hellojs.Common.Bits.{all_below, all_below_sound}
use hellojs.Common.Bytes.{Bytes, byte_at}
use hellojs.Common.Signed.{ℤ, pos, elem_at, from}
use hellojs.Common.Text.{Text, Strings}
use hellojs.H2.Hpack.Table.{Header}
use hellojs.H3.Qpack.Static.{static_table}
use hellojs.H3.Qpack.Table.{DynamicTable}
use hellojs.H3.Qpack.Integers.{encode_int}
use hellojs.H3.Qpack.Integers.RoundTrip.{
  encode_int_first, decode_int-encode_int, encode_int-zero, decode_int-zero,
}
use hellojs.H3.Qpack.Encode.{
  Match, exact, name_only, missing, find_static, encode_string, encode_match, encode_header,
  encode_fields, encode_headers,
}
use hellojs.H3.Qpack.Encode.Search.{Leads, find_static-Leads, static_table_length}
use hellojs.H3.Qpack.Decode.{
  Error, Step, next, with_value, decode_literal_string, read_literal, read_named, static_step,
  rounds, decode_headers,
}
use hellojs.H3.Qpack.Decode.Steps.{from-behind, Clear, decode_literal_behind}
use hellojs.H3.Qpack.Dynamic.{
  required_of, table_step, decode_headers_with_table, decode_required_insert_count,
}
use hellojs.H3.Qpack.RoundTrip.Fields.{
  lowered, HeaderSurvives, Reads, exact-Reads, name_only-Reads, missing-Reads,
}

rounds_end :
    (step : ℤ → Result Error Step) (len fuel off : ℕ)
    → len ≤ off
    → rounds step len fuel (pos off) ≡ ok []
unfolding rounds
rounds_end step len zero off h = rw (le→ltb off len h) refl
rounds_end step len (suc fuel) off h = rw (le→ltb off len h) refl

rounds_found :
    (step : ℤ → Result Error Step) (len fuel off off' : ℕ) (h : Header)
    → off < len
    → step (pos off) ≡ ok (next (some h) (pos off'))
    → rounds step len (suc fuel) (pos off) ≡ (rounds step len fuel (pos off') >>= λ hs. ok (h ∷ hs))
unfolding rounds
rounds_found step len fuel off off' h lt e = rw (lt→ltb off len lt, e) refl

module _ (u : Strings) where
  encode_match-Reads :
      (name v : Text) (m : Match)
      → HeaderSurvives u (name, v)
      → Leads (u.to_lower_case name) v m
      → Reads u (encode_match u name v m) (lowered u (name, v))
  unfolding encode_match
  encode_match-Reads name v (exact i) clean (at, lt) = exact-Reads u i _ at lt
  encode_match-Reads name v (name_only i) clean (w, at, lt) =
      name_only-Reads u i (u.to_lower_case name) w v at lt clean.1
  encode_match-Reads name v missing (clean_n, clean_v, same) lead =
      missing-Reads u (u.to_lower_case name) v (length name) clean_n clean_v same

  encode_header-Reads :
      (h : Header) → HeaderSurvives u h → Reads u (encode_header u h) (lowered u h)
  unfolding encode_header
  encode_header-Reads (name, v) clean =
      let n = u.to_lower_case name in
      encode_match-Reads name v (find_static n v) clean (find_static-Leads n v)

  encode_match_pos : (n v : Text) (m : Match) → 1 ≤ length (encode_match u n v m)
  unfolding encode_match
  encode_match_pos n v (exact i) =
      let (r, tail, shape, small) = encode_int_first i 6 3 in rw shape (omega arith)
  encode_match_pos n v (name_only i) =
      let (r, tail, shape, small) = encode_int_first i 4 5 in rw shape (omega arith)
  encode_match_pos n v missing =
      let (r, tail, shape, small) = encode_int_first (length n) 3 4 in rw shape (omega arith)

  encode_header_pos : (h : Header) → 1 ≤ length (encode_header u h)
  unfolding encode_header
  encode_header_pos (n, v) = encode_match_pos n v (find_static (u.to_lower_case n) v)

  -- A loop whose body reads one header that was written reads all of them.
  rounds-encode_fields :
      (step_of : Bytes → ℤ → Result Error Step)
      → ((h : Header)
          → HeaderSurvives u h
          → (pre rest : Bytes)
          → step_of (pre ++ (encode_header u h ++ rest)) (pos (length pre))
            ≡ ok (next (some (lowered u h)) (pos (length pre + length (encode_header u h)))))
      → (headers : List Header) (pre : Bytes) (fuel : ℕ) → All (HeaderSurvives u) headers
      → length (encode_fields u headers) ≤ fuel
      → let buf = pre ++ encode_fields u headers in
        rounds (step_of buf) (length buf) fuel (pos (length pre)) ≡ ok (map (lowered u) headers)
  unfolding encode_fields
  rounds-encode_fields step_of reads [] pre fuel all h =
      let none_left = length-append pre [] in
      rounds_end (step_of (pre ++ [])) (length (pre ++ [])) fuel (length pre) (omega arith)
  rounds-encode_fields step_of reads (x ∷ headers) pre fuel all h =
      let bytes = encode_header u x in
      let rest = encode_fields u headers in
      let one = encode_header_pos x in
      let count = length-append bytes rest in
      let whole = length-append pre (bytes ++ rest) in
      let more : fuel ≡ suc (fuel - 1) = omega arith in
      let again =
        rounds-encode_fields step_of reads headers (pre ++ bytes) (fuel - 1) all.1 (omega arith) in
      let again' : rounds (step_of (pre ++ (bytes ++ rest))) (length (pre ++ (bytes ++ rest)))
            (fuel - 1) (pos (length pre + length bytes))
          ≡ ok (map (lowered u) headers) =
        rw (← append_assoc pre bytes rest, ← length-append pre bytes) again in
      rw more (
        rounds_found (step_of (pre ++ (bytes ++ rest))) (length (pre ++ (bytes ++ rest))) (fuel - 1)
          (length pre) (length pre + length bytes) (lowered u x) (omega arith)
          (reads x all.0 pre rest)
        ∙ ap (λ r. r >>= λ hs. ok (lowered u x ∷ hs)) again')

  empty_prefix :
      (table : Option DynamicTable) (max_entries : ℕ)
      → required_of table (pos 0) max_entries ≡ ok (pos 0)
  unfolding decode_required_insert_count
  empty_prefix none max_entries = refl
  empty_prefix (some t) max_entries = elim (Bool-cases (ltb 0 max_entries)) [
    | inl entries ↦ rw entries refl
    | inr no_entries ↦ rw no_entries refl
  ]

  encode_headers-prefix :
      (headers : List Header) → encode_headers u headers ≡ 0 ∷ 0 ∷ encode_fields u headers
  unfolding encode_headers
  encode_headers-prefix headers = rw (encode_int-zero.0, encode_int-zero.1) refl

  -- With as many rounds as the block has bytes, both decoders, whatever the dynamic table, give back
  -- the headers that `encodeHeaders` was given, the names in lower case, as long as each string
  -- survives UTF-8 and is below 2^28 bytes, and no name takes more bytes than code units.
  pub decode_headers-encode_headers :
      (headers : List Header) (table : Option DynamicTable) (max_entries fuel : ℕ)
      → All (HeaderSurvives u) headers
      → length (encode_headers u headers) ≤ fuel
      → let buf = encode_headers u headers in
        (decode_headers u buf fuel ≡ ok (map (lowered u) headers))
        × (decode_headers_with_table u buf table max_entries fuel ≡ ok (map (lowered u) headers))
  unfolding decode_headers decode_headers_with_table from
  decode_headers-encode_headers headers table max_entries fuel all h =
      let fields = encode_fields u headers in
      let shape = encode_headers-prefix headers in
      let enough : length fields ≤ fuel = omega (arith, ap length shape) in
      let (first, _) = decode_int-zero (0 ∷ fields) in
      let (_, second) = decode_int-zero fields in
      let loop =
        rounds-encode_fields (λ buf. static_step u buf)
          (λ h clean pre rest. (encode_header-Reads h clean pre rest none).0) headers (0 ∷ 0 ∷ [])
          fuel all enough in
      let table_loop =
        rounds-encode_fields (λ buf. table_step u buf table (pos 0))
          (λ h clean pre rest. (encode_header-Reads h clean pre rest table).1) headers (0 ∷ 0 ∷ [])
          fuel all enough in
      (
        rw (shape, first, second) loop,
        rw (shape, first, second, empty_prefix table max_entries) table_loop,
      )
