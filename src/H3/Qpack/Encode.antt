-- ===== src/H3/Qpack/Encode.antt =====
-- `findStatic`, `encodeString` and `encodeHeaders` of lib/h3/qpack.js.
pub mod Search
use hellojs.Common.{
  ℕ, ◌+◌, Bool, List, [], ◌∷◌, ◌++◌, Option, none, some, if◌then◌else◌, length, ◌&&◌,
}
use hellojs.Common.Bytes.{Bytes}
use hellojs.Common.Text.{Text, Strings, text_eq}
use hellojs.H2.Hpack.Table.{Header}
use hellojs.H3.Qpack.Static.{static_table}
use hellojs.H3.Qpack.Integers.{encode_int}

pub data Match : Type 0 where
  exact : ℕ → Match
  name_only : ℕ → Match
  missing : Match

-- `if (nameIdx < 0) nameIdx = i`; none is the -1.
abbrev first_index : Option ℕ → ℕ → Option ℕ
first_index none i = some i
first_index (some k) i = some k

-- The loop, with the index of the first entry that has the name.
unfoldable pub find_from : Text → Text → List Header → ℕ → Option ℕ → Match
find_from name value [] i none = missing
find_from name value [] i (some k) = name_only k
find_from name value ((n, v) ∷ es) i name_idx =
    let same = text_eq n name in
    let rest =
      find_from name value es (i + 1) (if same then first_index name_idx i else name_idx) in
    if same && text_eq v value then exact i else rest

unfoldable pub find_static : Text → Text → Match
unfolding find_from
find_static name value = find_from name value static_table 0 none

module _ (u : Strings) where
  unfoldable pub encode_string : Text → Bytes
  encode_string str = let b = u.to_utf8 str in encode_int (length b) 7 0x00 ++ b

  -- The body of the loop. A literal name is counted in code units, as it was given, and then written
  -- in lower case and UTF-8.
  unfoldable pub encode_match : Text → Text → Match → Bytes
  encode_match n v (exact i) = encode_int i 6 0xc0
  encode_match n v (name_only i) = encode_int i 4 0x50 ++ encode_string v
  encode_match n v missing =
      encode_int (length n) 3 0x20 ++ (u.to_utf8 (u.to_lower_case n) ++ encode_string v)

  unfoldable pub encode_header : Header → Bytes
  unfolding encode_match
  encode_header (n, v) = encode_match n v (find_static (u.to_lower_case n) v)

  unfoldable pub encode_fields : List Header → Bytes
  encode_fields [] = []
  encode_fields (h ∷ headers) = encode_header h ++ encode_fields headers

  unfoldable pub encode_headers : List Header → Bytes
  encode_headers headers = encode_int 0 8 0x00 ++ (encode_int 0 7 0x00 ++ encode_fields headers)
