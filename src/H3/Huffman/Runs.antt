-- ===== src/H3/Huffman/Runs.antt =====
-- The code on an example of RFC 7541 appendix C.4, and the theorems at concrete inputs.
use hellojs.Common.{ℕ, ◌<◌, ◌++◌, ◌≡◌, refl, [], ◌∷◌, ok, err, arith}
use hellojs.Common.Bytes.{Bytes}
use hellojs.H3.Huffman.{
  table, build_tree, walk, buffer_bits, bits_of, invalid_sequence, decode, encode, encode_from,
  flush,
}
use hellojs.H3.Huffman.Encoder.{codes_bits, ones, encode-bits}
use hellojs.H3.Huffman.RoundTrip.{decode-encode_bytes}

abbrev no_cache : Bytes
no_cache = b'n' ∷ b'o' ∷ b'-' ∷ b'c' ∷ b'a' ∷ b'c' ∷ b'h' ∷ b'e' ∷ []

encode-no_cache : encode no_cache ≡ 0xa8 ∷ 0xeb ∷ 0x10 ∷ 0x64 ∷ 0x9c ∷ 0xbf ∷ []
unfolding encode encode_from flush table
encode-no_cache = refl

decode_eos : decode (0xff ∷ 0xff ∷ 0xff ∷ 0xff ∷ []) ≡ err invalid_sequence
unfolding decode walk build_tree buffer_bits bits_of
decode_eos = refl

decode-encode_bytes_example : decode (encode no_cache) ≡ ok no_cache
decode-encode_bytes_example = decode-encode_bytes no_cache (omega arith)

encode-bits_example :
    (k : ℕ) × (k < 8) × (buffer_bits (encode no_cache) ≡ codes_bits no_cache ++ ones k)
encode-bits_example = encode-bits no_cache (omega arith)
