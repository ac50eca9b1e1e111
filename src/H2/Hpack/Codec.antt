-- ===== src/H2/Hpack/Codec.antt =====
-- `findInTables`, `encode` and `decode` of lib/h2/hpack.js.
pub mod Search
pub mod RoundTrip
pub mod Safety
mod Runs
use Prim.Native.Nat.{bit_and}
use hellojs.Common.{
  ℕ, zero, suc, ◌+◌, Bool, true, false, ◌&&◌, List, [], ◌∷◌, ◌++◌, Option, none, some, Result, ok,
  err, ◌>>=◌, if◌then◌else◌, ltb, ◌==◌, ◌||◌, drop, length,
}
use hellojs.Common.Bytes.{Bytes, byte_at}
use hellojs.Common.Text.{Text, Strings, text_eq}
use hellojs.H2.Hpack.Static.{static_table}
use hellojs.H2.Hpack.Table.{Header, DynamicTable, static_len, lookup, add, set_capacity}
use hellojs.H2.Hpack.Integers.{encode_int, decode_int}
use hellojs.H2.Hpack.Strings.{Error, header_list_too_large, stuck, encode_string, decode_string}

pub data Match : Type 0 where
  exact : ℕ → Match
  name_only : ℕ → Match
  missing : Match

-- What a representation yields: no header (an index that is not in the tables, a size update), a
-- header, or the end of the loop.
pub data Field : Type 0 where
  nothing : Field
  found : Header → Field
  unknown : Field

-- The index of the first entry that passes the test, counted from `i`.
unfoldable pub find_index : (Header → Bool) → ℕ → List Header → Option ℕ
find_index test i [] = none
find_index test i (e ∷ es) = if test e then some i else find_index test (i + 1) es

abbrev pub same_header : Text → Text → Header → Bool
same_header name value (n, v) = text_eq n name && text_eq v value

abbrev pub same_name : Text → Header → Bool
same_name name (n, v) = text_eq n name

-- The four loops of `findInTables`, in order.
pub find_in_tables : Text → Text → DynamicTable → Match
find_in_tables name value t = elim (find_index (same_header name value) 1 static_table) [
  | some i ↦ exact i
  | none ↦ elim (find_index (same_header name value) (static_len + 1) t.entries) [
    | some i ↦ exact i
    | none ↦ elim (find_index (same_name name) 1 static_table) [
      | some i ↦ name_only i
      | none ↦ elim (find_index (same_name name) (static_len + 1) t.entries) [
        | some i ↦ name_only i
        | none ↦ missing
      ]
    ]
  ]
]

pub read_indexed : Bytes → DynamicTable → Field × Bytes × DynamicTable
read_indexed buf t =
    let (idx, n) = decode_int buf 7 in
    elim (lookup t idx) [ none ↦ (nothing, drop n buf, t) | some e ↦ (found e, drop n buf, t) ]

pub read_resize : Bytes → DynamicTable → Field × Bytes × DynamicTable
read_resize buf t = let (cap, n) = decode_int buf 5 in (nothing, drop n buf, set_capacity t cap)

-- `push`: the size of the list with one header more.
pub grow : ℕ → ℕ → Header → Result Error ℕ
grow max_size list_size (n, v) =
    let size = list_size + (length n + length v + 32) in
    if ltb max_size size then err header_list_too_large else ok size

module _ (u : Strings) where
  -- The body of the loop of `encode`, for a lower-case name.
  encode_match : Text → Text → Match → Bytes
  encode_match n v (exact i) = encode_int i 7 0x80
  encode_match n v (name_only i) = encode_int i 4 0x00 ++ encode_string u v
  encode_match n v missing = 0x00 ∷ (encode_string u n ++ encode_string u v)

  pub encode_header : Header → DynamicTable → Bytes
  unfolding encode_match
  encode_header (name, v) t =
      let n = u.to_lower_case name in encode_match n v (find_in_tables n v t)

  pub encode : List Header → DynamicTable → Bytes
  encode [] t = []
  encode (h ∷ headers) t = encode_header h t ++ encode headers t

  -- A literal's name: by index, or in the bytes behind a zero index. Also what is left.
  pub read_name : ℕ → Bytes → DynamicTable → Result Error (Text × Bytes)
  read_name prefix_bits buf t =
      let (idx, n) = decode_int buf prefix_bits in
      let rest = drop n buf in
      if idx == 0
      then decode_string u rest >>= (λ (s : Text × ℕ). ok (s.0, drop s.1 rest))
      else elim (lookup t idx) [ none ↦ ok ([], rest) | some e ↦ ok (e.0, rest) ]

  -- A literal field: its name, its value and what is left.
  pub read_literal : ℕ → Bytes → DynamicTable → Result Error (Header × Bytes)
  read_literal prefix_bits buf t = read_name prefix_bits buf t >>= λ (r : Text × Bytes).
      decode_string u r.1 >>= λ (s : Text × ℕ). ok ((r.0, s.0), drop s.1 r.1)

  -- One representation at the front of the block: what it is, what is left, and the table behind
  -- it. A header is put into the table here; the source first counts it in `push`, which throws or
  -- changes nothing else.
  pub read_field : Bytes → DynamicTable → Result Error (Field × Bytes × DynamicTable)
  read_field buf t =
      let b = byte_at buf 0 in
      if bit_and b 0x80 == 0x80
      then ok (read_indexed buf t)
      else if bit_and b 0xc0 == 0x40
      then read_literal 6 buf t >>= (λ l. ok (found l.0, l.1, add t l.0.0 l.0.1))
      else if bit_and b 0xe0 == 0x20
      then ok (read_resize buf t)
      else if bit_and b 0xf0 == 0x00 || bit_and b 0xf0 == 0x10
      then read_literal 4 buf t >>= (λ l. ok (found l.0, l.1, t))
      else ok (unknown, buf, t)

  -- The loop of `decode`: the headers from here on, and the table as it is left.
  pub decode_from : ℕ → ℕ → Bytes → DynamicTable → ℕ → Result Error (List Header × DynamicTable)
  decode_from max_size fuel [] t list_size = ok ([], t)
  decode_from max_size zero (b ∷ bs) t list_size = err stuck
  decode_from max_size (suc fuel) (b ∷ bs) t list_size = read_field (b ∷ bs) t >>= λ r. elim r.0 [
    | nothing ↦ decode_from max_size fuel r.1 r.2 list_size
    | found h ↦ grow max_size list_size h >>= λ size.
        decode_from max_size fuel r.1 r.2 size >>= λ rest. ok (h ∷ rest.0, rest.1)
    | unknown ↦ ok ([], r.2)
  ]

  -- Every round takes a byte at least, so the length of the block bounds the rounds. What a throw
  -- leaves of the table is not given: `_onData` of lib/h2/session.js catches it and ends the session,
  -- whose table is not used any more.
  pub decode : Bytes → DynamicTable → ℕ → Result Error (List Header × DynamicTable)
  decode buf t max_size = decode_from max_size (length buf) buf t 0
