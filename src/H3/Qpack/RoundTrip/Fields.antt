-- ===== src/H3/Qpack/RoundTrip/Fields.antt =====
-- The bits of the three forms of a field line, and what both decoders read in the middle of a block.
use hellojs.Common.{
  ℕ, ◌+◌, ◌^◌, ◌<◌, ◌≡◌, refl, ap, ◌∙◌, ◌++◌, append_assoc, Option, some, ok, length, length-append,
  get_elem?, arith,
}
use hellojs.Common.Bytes.{Bytes, byte_at}
use hellojs.Common.Signed.{pos}
use hellojs.Common.Text.{Text, Strings}
use hellojs.H2.Hpack.Table.{Header}
use hellojs.H3.Qpack.Static.{static_table}
use hellojs.H3.Qpack.Table.{DynamicTable}
use hellojs.H3.Qpack.Integers.{encode_int}
use hellojs.H3.Qpack.Integers.RoundTrip.{encode_int_first, decode_int-encode_int}
use hellojs.H3.Qpack.Encode.{encode_string}
use hellojs.H3.Qpack.Encode.Search.{static_table_length}
use hellojs.H3.Qpack.Decode.{
  next, with_value, decode_literal_string, read_literal, read_named, static_step,
}
use hellojs.H3.Qpack.Decode.Steps.{from-behind, decode_literal_behind}
use hellojs.H3.Qpack.Dynamic.{table_step}
use hellojs.H3.Qpack.RoundTrip.Flags.{
  indexed_first, named_first, literal_first, seven-Clear, three-Clear,
}

-- A string short enough that its length is read back, and that survives UTF-8.
abbrev pub Survives : Strings → Text → Type 0
Survives u s = (length (u.to_utf8 s) < 2 ^ 28) × (u.from_utf8 (u.to_utf8 s) ≡ s)

module _ (u : Strings) where
  -- A header as it is sent: its name in lower case, which takes as many bytes as the name has code
  -- units.
  abbrev pub lowered : Header → Header
  lowered h = (u.to_lower_case h.0, h.1)

  abbrev pub HeaderSurvives : Header → Type 0
  HeaderSurvives h =
      Survives u (u.to_lower_case h.0)
      × Survives u h.1
      × (length h.0 ≡ length (u.to_utf8 (u.to_lower_case h.0)))

  abbrev pub Reads : Bytes → Header → Type 0
  Reads bytes h =
      (pre rest : Bytes) (table : Option DynamicTable)
      → let buf = pre ++ (bytes ++ rest) in
        let after = pos (length pre + length bytes) in
        (static_step u buf (pos (length pre)) ≡ ok (next (some h) after))
        × (table_step u buf table (pos 0) (pos (length pre)) ≡ ok (next (some h) after))

  literal_string_behind :
      (pre : Bytes) (v : Text) (rest : Bytes)
      → Survives u v
      → decode_literal_string u (pre ++ (encode_string u v ++ rest)) (pos (length pre)) 7
        ≡ ok (v, pos (length (encode_string u v)))
  unfolding encode_string
  literal_string_behind pre v rest (short, back) =
      let raw = u.to_utf8 v in
      let head = encode_int (length raw) 7 0x00 in
      rw (append_assoc head raw rest, length-append head raw)
        (decode_literal_behind u pre 7 0 raw rest seven-Clear short ∙ rw back)

  read_named_behind :
      (e : Option Header) (pre head : Bytes) (v : Text) (rest : Bytes)
      → Survives u v
      → read_named u
          (pre ++ (head ++ (encode_string u v ++ rest)))
          e
          (pos (length pre))
          (length head)
        ≡ ok (next (with_value e v) (pos (length pre + length head + length (encode_string u v))))
  unfolding read_named
  read_named_behind e pre head v rest clean = rw (
    ← append_assoc pre head (encode_string u v ++ rest),
    ← length-append pre head,
    literal_string_behind (pre ++ head) v rest clean,
    length-append pre head,
  )

  read_literal_behind :
      (pre : Bytes) (n v : Text) (rest : Bytes)
      → Survives u n
      → Survives u v
      → let head = encode_int (length (u.to_utf8 n)) 3 0x20 ++ u.to_utf8 n in
        read_literal u (pre ++ (head ++ (encode_string u v ++ rest))) (pos (length pre))
        ≡ ok (next (some (n, v)) (pos (length pre + length head + length (encode_string u v))))
  unfolding read_literal
  read_literal_behind pre n v rest (short, back) clean =
      let raw = u.to_utf8 n in
      let int = encode_int (length raw) 3 0x20 in
      let head = int ++ raw in
      let tail = encode_string u v ++ rest in
      let name = decode_literal_behind u pre 3 4 raw tail three-Clear short in
      rw (
        append_assoc int raw tail,
        name,
        back,
        ← length-append int raw,
        ← append_assoc int raw tail,
        ← append_assoc pre head tail,
        ← length-append pre head,
        literal_string_behind (pre ++ head) v rest clean,
        length-append pre head,
        length-append int raw,
      )

  pub exact-Reads :
      (i : ℕ) (h : Header)
      → get_elem? static_table i ≡ some h
      → i < length static_table
      → Reads (encode_int i 6 0xc0) h
  unfolding static_step table_step
  exact-Reads i h at lt pre rest table =
      let size = static_table_length in
      let head = encode_int i 6 0xc0 in
      let (r, tail, shape, small) = encode_int_first i 6 3 in
      let (a, b, c) = indexed_first r small in
      let first : byte_at (head ++ rest) 0 ≡ 192 + r = rw shape refl in
      let int = decode_int-encode_int i 6 3 rest (omega arith) in
      let here = from-behind pre (head ++ rest) in
      (rw (here, first, a, int, at, here, int) refl, rw (here, first, b, c, int, at) refl)

  pub name_only-Reads :
      (i : ℕ) (n w v : Text)
      → get_elem? static_table i ≡ some (n, w)
      → i < length static_table
      → Survives u v
      → Reads (encode_int i 4 0x50 ++ encode_string u v) (n, v)
  unfolding static_step table_step
  name_only-Reads i n w v at lt clean pre rest table =
      let size = static_table_length in
      let head = encode_int i 4 0x50 in
      let tail = encode_string u v ++ rest in
      let (r, more, shape, small) = encode_int_first i 4 5 in
      let (a, b, c, d) = named_first r small in
      let first : byte_at (head ++ tail) 0 ≡ 80 + r = rw shape refl in
      let int = decode_int-encode_int i 4 5 tail (omega arith) in
      let here = from-behind pre (head ++ tail) in
      let value = read_named_behind (some (n, w)) pre head v rest clean in
      let count : length pre + length (head ++ encode_string u v)
          ≡ length pre + length head + length (encode_string u v) =
        omega (arith, length-append head (encode_string u v)) in
      (
        rw (append_assoc head (encode_string u v) rest, count, here, first, a, b, int, at) value,
        rw (append_assoc head (encode_string u v) rest, count, here, first, c, b, a, d, int, at)
            value,
      )

  pub missing-Reads :
      (n v : Text) (k : ℕ)
      → Survives u n
      → Survives u v
      → k ≡ length (u.to_utf8 n)
      → Reads (encode_int k 3 0x20 ++ (u.to_utf8 n ++ encode_string u v)) (n, v)
  unfolding static_step table_step
  missing-Reads n v k clean_n clean_v same pre rest table =
      let raw = u.to_utf8 n in
      let int = encode_int k 3 0x20 in
      let head = int ++ raw in
      let tail = encode_string u v ++ rest in
      let (r, more, shape, small) = encode_int_first k 3 4 in
      let (a, b, c, d, e) = literal_first r small in
      let first : byte_at (int ++ (raw ++ tail)) 0 ≡ 32 + r = rw shape refl in
      let here = from-behind pre (int ++ (raw ++ tail)) in
      let value = read_literal_behind pre n v rest clean_n clean_v in
      let value' : read_literal u (pre ++ (int ++ (raw ++ tail))) (pos (length pre))
          ≡ ok (next (some (n, v)) (pos (length pre + length head + length (encode_string u v)))) =
        rw (← append_assoc int raw tail, same) value in
      let parts : (int ++ (raw ++ encode_string u v)) ++ rest ≡ int ++ (raw ++ tail) =
        append_assoc int (raw ++ encode_string u v) rest
        ∙ ap (λ b. int ++ b) (append_assoc raw (encode_string u v) rest) in
      let count : length pre + length (int ++ (raw ++ encode_string u v))
          ≡ length pre + length head + length (encode_string u v) =
        omega (
          arith,
          length-append int (raw ++ encode_string u v),
          length-append raw (encode_string u v),
          length-append int raw,
        ) in
      (
        rw (parts, count, here, first, a, b, c) value',
        rw (parts, count, here, first, d, b, a, c) value',
      )
