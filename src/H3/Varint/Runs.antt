-- ===== src/H3/Varint/Runs.antt =====
-- The varint codec on the examples of RFC 9000 appendix A.1, and the theorems at concrete inputs.
use hellojs.Common.{◌+◌, ◌≤◌, ◌≡◌, refl, [], ◌∷◌, ok, err}
use hellojs.Common.Bytes.{Bytes, write_be}
use hellojs.H3.Varint.{
  pos, number, encode, decode, truncated, value_1, value_2, value_4, value_8, narrow,
}
use hellojs.H3.Varint.RoundTrip.{decode-encode, Encodes, encode-Encodes}
use hellojs.H3.Varint.Prefix.{decode-more}

abbrev four_bytes : Bytes
four_bytes = 0x9d ∷ 0x7f ∷ 0x3e ∷ 0x7d ∷ []

encode_four : encode (pos 494878333) ≡ ok four_bytes
unfolding encode write_be
encode_four = refl

decode_padded : decode (0x40 ∷ 0x25 ∷ []) 0 ≡ ok (record { value = number 37; length = 2 })
unfolding decode value_1 value_2 value_4 value_8 narrow
decode_padded = refl

decode_cut : decode (0x9d ∷ 0x7f ∷ []) 0 ≡ err truncated
unfolding decode value_1 value_2 value_4 value_8 narrow
decode_cut = refl

decode-encode_example :
    decode (7 ∷ 0x9d ∷ 0x7f ∷ 0x3e ∷ 0x7d ∷ 9 ∷ []) 1
    ≡ ok (record { value = number 494878333; length = 4 })
unfolding narrow
decode-encode_example = decode-encode 494878333 (7 ∷ []) four_bytes (9 ∷ []) encode_four

encode-Encodes_example : Encodes (pos 494878333) (encode (pos 494878333))
encode-Encodes_example = encode-Encodes (pos 494878333)

decode-more_example :
    (decode (0x40 ∷ 0x25 ∷ 9 ∷ []) 0 ≡ ok (record { value = number 37; length = 2 }))
    × (1 ≤ 2)
    × (0 + 2 ≤ 2)
decode-more_example =
    decode-more (0x40 ∷ 0x25 ∷ []) (9 ∷ []) 0 (record { value = number 37; length = 2 })
      decode_padded
