-- ===== src/H2/Hpack/Codec/Runs.antt =====
-- Header blocks at concrete inputs, and the theorems at them.
use hellojs.Common.{◌≡◌, refl, List, [], ◌∷◌, ok, arith}
use hellojs.Common.Text.{text, ascii}
use hellojs.H2.Hpack.Table.{Header, DynamicTable, IsValid, add, fit}
use hellojs.H2.Hpack.Table.Eviction.{add-fit}
use hellojs.H2.Hpack.Strings.Outcome.{Post}
use hellojs.H2.Hpack.Codec.{encode, decode}
use hellojs.H2.Hpack.Codec.RoundTrip.{decode-encode_headers}
use hellojs.H2.Hpack.Codec.Safety.{Bounded, decode-Bounded}

abbrev table : DynamicTable
table = record { entries = (text "x-id", text "7") ∷ []; capacity = 100; size = 37 }

abbrev headers : List Header
headers = (text ":method", text "GET") ∷ (text "X-Id", text "7") ∷ (text "Accept", text "*/*") ∷ []

table-IsValid : IsValid table
table-IsValid = record { counted = refl; within = omega arith }

decode-encode_headers_example :
    decode ascii (encode ascii headers table) table 1000
    ≡ ok (
      (text ":method", text "GET") ∷ (text "x-id", text "7") ∷ (text "accept", text "*/*") ∷ [],
      table,
    )
decode-encode_headers_example =
    decode-encode_headers ascii headers table 1000
      (
        ((omega arith, refl), (omega arith, refl)),
        (
          ((omega arith, refl), (omega arith, refl)),
          (((omega arith, refl), (omega arith, refl)), tt),
        ),
      )
      (omega arith)

decode-Bounded_example :
    Post (Bounded 262144 0 table) (decode ascii (0x82 ∷ 0xbe ∷ []) table 262144)
decode-Bounded_example =
    decode-Bounded ascii (0x82 ∷ 0xbe ∷ []) table 262144 (omega arith, (omega arith, tt))

add-fit_example :
    (add table (text "a-long-name-of-a-header") (text "v-v-v-v")).entries
    ≡ fit 100 ((text "a-long-name-of-a-header", text "v-v-v-v") ∷ (text "x-id", text "7") ∷ [])
add-fit_example = (add-fit table (text "a-long-name-of-a-header") (text "v-v-v-v") table-IsValid).0
