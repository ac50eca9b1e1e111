-- ===== src/H2/Hpack/Strings/RoundTrip.antt =====
-- A string literal reads back, Huffman-coded or not.
use Prim.Native.Nat.{bit_and}
use hellojs.Common.{
  ℕ, ◌+◌, ◌*◌, ◌^◌, ◌≤◌, ◌≡◌, ◌∙◌, not, ok, ◌>>=◌, ◌++◌, append_assoc, if◌then◌else◌, ltb, ◌==◌,
  take, drop, take-append_length, drop-append_length, length, All, arith, Bool-cases, inl, inr,
  length-append,
}
use hellojs.Common.Bytes.{Bytes, IsByte, byte_at}
use hellojs.Common.Text.{Text, Strings}
use hellojs.H3.Huffman as Huffman
use hellojs.H3.Huffman.RoundTrip as HuffmanRoundTrip
use hellojs.H2.Hpack.Integers.{encode_int}
use hellojs.H2.Hpack.Integers.RoundTrip.{encode_int_first, decode_int-encode_int, top_bit}
use hellojs.H2.Hpack.Strings.{encode_string, decode_string, from_huffman}

-- A string that survives UTF-8, as every well-formed one does.
abbrev pub SurvivesUtf8 : Strings → Text → Type 0
SurvivesUtf8 u s = All IsByte (u.to_utf8 s) × (u.from_utf8 (u.to_utf8 s) ≡ s)

-- The flag bit of a length with a seven-bit prefix.
huffman_flag :
    (len hi : ℕ) (rest : Bytes)
    → hi ≤ 1
    → bit_and (byte_at (encode_int len 7 (hi * 2 ^ 7) ++ rest) 0) 0x80 ≡ hi * 2 ^ 7
huffman_flag len hi rest h =
    let (r, tail, e, small) = encode_int_first len 7 hi in
    rw e (omega (arith, top_bit (hi * 2 ^ 7 + r) (omega arith)))

-- The body of a literal, cut out behind its length.
slice :
    (hi : ℕ) (body rest : Bytes)
    → let head = encode_int (length body) 7 (hi * 2 ^ 7) in
      take (length body) (drop (length head) (head ++ (body ++ rest))) ≡ body
slice hi body rest =
    let head = encode_int (length body) 7 (hi * 2 ^ 7) in
    rw (drop-append_length head (body ++ rest)) (take-append_length body rest)

module _ (u : Strings) where
  decode_literal :
      (hi : ℕ) (body rest : Bytes)
      → hi ≤ 1
      → let head = encode_int (length body) 7 (hi * 2 ^ 7) in
        decode_string u (head ++ (body ++ rest)) ≡ (
          if not (hi * 2 ^ 7 == 0)
          then from_huffman (Huffman.decode body)
            >>= (λ bytes. ok (u.from_utf8 bytes, length head + length body))
          else ok (u.from_utf8 body, length head + length body))
  unfolding decode_string
  decode_literal hi body rest h =
      let head = encode_int (length body) 7 (hi * 2 ^ 7) in
      rw (
        huffman_flag (length body) hi (body ++ rest) h,
        decode_int-encode_int (length body) 7 hi (body ++ rest),
        slice hi body rest,
      )

  pub decode_string-encode_string :
      (s : Text) (rest : Bytes)
      → SurvivesUtf8 u s
      → decode_string u (encode_string u s ++ rest) ≡ ok (s, length (encode_string u s))
  unfolding encode_string from_huffman
  decode_string-encode_string s rest (bytes, back) =
      let raw = u.to_utf8 s in
      let huff = Huffman.encode raw in
      let head = encode_int (length huff) 7 0x80 in
      let plain = encode_int (length raw) 7 0x00 in
      elim (Bool-cases (ltb (length huff) (length raw))) [
        | inl shorter ↦
            rw (shorter, append_assoc head huff rest, length-append head huff)
              (decode_literal 1 huff rest (omega arith)
                ∙ rw (HuffmanRoundTrip.decode-encode_bytes raw bytes, back))
        | inr longer ↦
            rw (longer, append_assoc plain raw rest, length-append plain raw)
              (decode_literal 0 raw rest (omega arith) ∙ rw back)
      ]
