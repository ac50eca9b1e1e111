-- ===== src/H2/Hpack/Codec/RoundTrip.antt =====
-- What `encode` wrote `decode` reads back, header by header, with any dynamic table that both hold.
use Prim.Native.Nat.{bit_and}
use hellojs.Common.{
  ℕ, suc, ◌+◌, ◌-◌, ◌≤◌, ◌<◌, ◌≡◌, refl, ap, ◌∙◌, Bool, true, false, ◌&&◌, List, [], ◌∷◌, ◌++◌,
  append_assoc, some, ok, ◌>>=◌, le→ltb, ◌==◌, drop-append_length, length, length-append, All,
  arith, map,
}
use hellojs.Common.Bytes.{Bytes, byte_at}
use hellojs.Common.Bits.{all_below, all_below_sound}
use hellojs.Common.Text.{Text, Strings}
use hellojs.H2.Hpack.Table.{Header, DynamicTable, lookup, cost, total_cost}
use hellojs.H2.Hpack.Integers.{encode_int}
use hellojs.H2.Hpack.Integers.RoundTrip.{
  encode_int_first, decode_int-encode_int, decode_int-zero, top_bit,
}
use hellojs.H2.Hpack.Strings.{encode_string}
use hellojs.H2.Hpack.Strings.RoundTrip.{SurvivesUtf8, decode_string-encode_string}
use hellojs.H2.Hpack.Codec.{
  Match, exact, name_only, missing, find_in_tables, found, encode_match, encode_header, encode,
  read_name, read_literal, read_indexed, read_field, grow, decode_from, decode,
}
use hellojs.H2.Hpack.Codec.Search.{Leads, find_in_tables-Leads}

no_high_bits : ℕ → Bool
no_high_bits b =
    bit_and b 0x80 == 0 && (bit_and b 0xc0 == 0 && (bit_and b 0xe0 == 0 && bit_and b 0xf0 == 0))

no_high_bits_table : all_below 16 no_high_bits ≡ true
unfolding all_below no_high_bits
no_high_bits_table = refl

-- The flag bits of a byte below 16, none of which is set.
low_byte :
    (b : ℕ)
    → b < 16
    → (bit_and b 0x80 ≡ 0) × (bit_and b 0xc0 ≡ 0) × (bit_and b 0xe0 ≡ 0) × (bit_and b 0xf0 ≡ 0)
unfolding no_high_bits
low_byte b h = ground (arith, all_below_sound 16 no_high_bits no_high_bits_table b h)

module _ (u : Strings) where
  read_field_indexed :
      (buf : Bytes) (t : DynamicTable)
      → 128 ≤ byte_at buf 0
      → byte_at buf 0 < 256
      → read_field u buf t ≡ ok (read_indexed buf t)
  unfolding read_field
  read_field_indexed buf t lo hi =
      let e : bit_and (byte_at buf 0) 0x80 ≡ 0x80 = omega (arith, top_bit (byte_at buf 0) hi) in
      rw e

  read_field_literal :
      (buf : Bytes) (t : DynamicTable)
      → byte_at buf 0 < 16
      → read_field u buf t ≡ (read_literal u 4 buf t >>= (λ l. ok (found l.0, l.1, t)))
  unfolding read_field
  read_field_literal buf t h = let (a, b, c, d) = low_byte (byte_at buf 0) h in rw (a, b, c, d)

  read_exact :
      (i : ℕ) (n v : Text) (rest : Bytes) (t : DynamicTable)
      → lookup t i ≡ some (n, v)
      → read_field u (encode_int i 7 0x80 ++ rest) t ≡ ok (found (n, v), rest, t)
  unfolding read_indexed
  read_exact i n v rest t e =
      let (r, tail, shape, small) = encode_int_first i 7 1 in
      let head = encode_int i 7 0x80 in
      let first : byte_at (head ++ rest) 0 ≡ 128 + r = rw shape in
      read_field_indexed (head ++ rest) t (omega (arith, first)) (omega (arith, first))
      ∙ rw (
        read_indexed,
        decode_int-encode_int i 7 1 rest,
        e,
        decode_int-encode_int i 7 1 rest,
        drop-append_length head rest,
      )

  read_name_only :
      (i : ℕ) (n w v : Text) (rest : Bytes) (t : DynamicTable)
      → lookup t i ≡ some (n, w)
      → 1 ≤ i
      → SurvivesUtf8 u v
      → read_field u (encode_int i 4 0x00 ++ (encode_string u v ++ rest)) t
        ≡ ok (found (n, v), rest, t)
  unfolding read_literal read_name
  read_name_only i n w v rest t e lo clean =
      let (r, tail, shape, small) = encode_int_first i 4 0 in
      let head = encode_int i 4 0x00 in
      let body = encode_string u v in
      let first : byte_at (head ++ (body ++ rest)) 0 ≡ r = rw shape (omega arith) in
      let nonzero : (i == 0) ≡ false = ground arith in
      read_field_literal (head ++ (body ++ rest)) t (omega (arith, first))
      ∙ rw (
        decode_int-encode_int i 4 0 (body ++ rest),
        nonzero,
        e,
        decode_int-encode_int i 4 0 (body ++ rest),
        drop-append_length head (body ++ rest),
        decode_string-encode_string u v rest clean,
        drop-append_length body rest,
      )

  read_missing :
      (n v : Text) (rest : Bytes) (t : DynamicTable)
      → SurvivesUtf8 u n
      → SurvivesUtf8 u v
      → read_field u (0x00 ∷ (encode_string u n ++ (encode_string u v ++ rest))) t
        ≡ ok (found (n, v), rest, t)
  unfolding read_literal read_name
  read_missing n v rest t clean_n clean_v =
      let name = encode_string u n in
      let body = encode_string u v in
      read_field_literal (0x00 ∷ (name ++ (body ++ rest))) t (omega arith)
      ∙ rw (
        decode_int-zero (name ++ (body ++ rest)),
        decode_string-encode_string u n (body ++ rest) clean_n,
        drop-append_length name (body ++ rest),
        decode_string-encode_string u v rest clean_v,
        drop-append_length body rest,
      )

  abbrev Reads : Bytes → Header → DynamicTable → Type 0
  Reads bytes h t =
      (1 ≤ length bytes) × ((rest : Bytes) → read_field u (bytes ++ rest) t ≡ ok (found h, rest, t))

  encode_match-Reads :
      (n v : Text) (t : DynamicTable) (mt : Match)
      → SurvivesUtf8 u n
      → SurvivesUtf8 u v
      → Leads n v t mt
      → Reads (encode_match u n v mt) (n, v) t
  unfolding encode_match
  encode_match-Reads n v t (exact i) clean_n clean_v (e, lo) =
      let (r, tail, shape, small) = encode_int_first i 7 1 in
      (rw shape (omega arith), λ rest. read_exact i n v rest t e)
  encode_match-Reads n v t (name_only i) clean_n clean_v (w, e, lo) =
      let (r, tail, shape, small) = encode_int_first i 4 0 in
      (
        rw shape (omega arith),
        λ rest.
            ap (λ b. read_field u b t) (append_assoc (encode_int i 4 0x00) (encode_string u v) rest)
            ∙ read_name_only i n w v rest t e lo clean_v,
      )
  encode_match-Reads n v t missing clean_n clean_v e = (
    omega arith,
    λ rest.
        ap (λ b. read_field u (0x00 ∷ b) t)
          (append_assoc (encode_string u n) (encode_string u v) rest)
        ∙ read_missing n v rest t clean_n clean_v,
  )

  -- A header as the encoder sends it.
  abbrev pub lowered : Header → Header
  lowered h = (u.to_lower_case h.0, h.1)

  abbrev pub HeaderSurvives : Header → Type 0
  HeaderSurvives h = SurvivesUtf8 u (u.to_lower_case h.0) × SurvivesUtf8 u h.1

  encode_header-Reads :
      (h : Header) (t : DynamicTable) → HeaderSurvives h → Reads (encode_header u h t) (lowered h) t
  unfolding encode_header
  encode_header-Reads (name, v) t (clean_n, clean_v) =
      let n = u.to_lower_case name in
      encode_match-Reads n v t (find_in_tables n v t) clean_n clean_v (find_in_tables-Leads n v t)

  decode_step :
      (max fuel size : ℕ) (buf rest : Bytes) (t t' : DynamicTable) (h : Header)
      → 1 ≤ length buf
      → read_field u buf t ≡ ok (found h, rest, t')
      → decode_from u max (suc fuel) buf t size
        ≡ (grow max size h >>= λ s. decode_from u max fuel rest t' s >>= λ r. ok (h ∷ r.0, r.1))
  unfolding decode_from
  decode_step max fuel size [] rest t t' h pos e = absurd (omega arith)
  decode_step max fuel size (b ∷ bs) rest t t' h pos e = rw e

  decode_from-encode :
      (headers : List Header) (t : DynamicTable) (max fuel size : ℕ)
      → All HeaderSurvives headers
      → size + total_cost (map lowered headers) ≤ max
      → length (encode u headers t) ≤ fuel
      → decode_from u max fuel (encode u headers t) t size ≡ ok (map lowered headers, t)
  unfolding encode
  decode_from-encode [] t max fuel size all fits h = unfold decode_from in refl
  decode_from-encode (x ∷ headers) t max fuel size all fits h =
      let (pos, reads) = encode_header-Reads x t all.0 in
      let bytes = encode_header u x t in
      let rest = encode u headers t in
      let count = length-append bytes rest in
      let more : fuel ≡ suc (fuel - 1) = omega arith in
      let grown : grow max size (lowered x) ≡ ok (size + cost (lowered x)) =
        unfold grow in rw (le→ltb max (size + cost (lowered x)) (omega arith)) in
      let again =
        decode_from-encode headers t max (fuel - 1) (size + cost (lowered x)) all.1 (omega arith)
          (omega arith) in
      rw more (
        decode_step max (fuel - 1) size (bytes ++ rest) rest t t (lowered x) (omega arith)
          (reads rest)
        ∙ rw (grown, again))

  -- A peer that holds the same dynamic table decodes the block of any header list whose strings
  -- survive UTF-8 and whose size is within the limit to that list, the names in lower case; its
  -- table stays as it was.
  pub decode-encode_headers :
      (headers : List Header) (t : DynamicTable) (max : ℕ)
      → All HeaderSurvives headers
      → total_cost (map lowered headers) ≤ max
      → decode u (encode u headers t) t max ≡ ok (map lowered headers, t)
  unfolding decode
  decode-encode_headers headers t max all fits =
      decode_from-encode headers t max _ 0 all (omega arith) (omega arith)
