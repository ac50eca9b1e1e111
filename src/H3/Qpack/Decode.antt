-- ===== src/H3/Qpack/Decode.antt =====
-- `decodeHeaders` and `decodeLiteralString` of lib/h3/qpack.js. Offsets are kept as the code has them,
-- since a length that `decodeInt` gives may be negative and lead back.
pub mod Steps
use Prim.Native.Nat.{bit_and}
use hellojs.Common.{
  ℕ, zero, suc, ◌+◌, ◌^◌, not, Bool, true, false, ◌||◌, List, [], ◌∷◌, Option, none, some, Result,
  ok, err, ◌>>=◌, if◌then◌else◌, ◌==◌, length,
}
use hellojs.Common.Bytes.{Bytes, byte_at}
use hellojs.Common.Signed.{ℤ, pos, ◌+ℤ◌, lt_ℕ, elem_at, from, subarray}
use hellojs.Common.Text.{Text, Strings}
use hellojs.H2.Hpack.Table.{Header}
use hellojs.H3.Huffman as Huffman
use hellojs.H3.Qpack.Static.{static_table}
use hellojs.H3.Qpack.Integers.{decode_int}

-- What the decoders throw. `stuck` is no error of the source: the loop ran out of fuel.
pub data Error : Type 0 where
  huffman : Huffman.Error → Error
  invalid_required_insert_count : Error
  stuck : Error

unfoldable pub from_huffman {ℓ} : {A : Type ℓ} → Result Huffman.Error A → Result Error A
from_huffman (ok a) = ok a
from_huffman (err e) = err (huffman e)

-- A round of the loop: a header or none and the offset behind it, or `break`.
pub data Step : Type 0 where
  next : Option Header → ℤ → Step
  stop : Step

-- `while (off < buf.length)`, and what it pushes.
unfoldable pub rounds : (ℤ → Result Error Step) → ℕ → ℕ → ℤ → Result Error (List Header)
rounds step len zero off = if lt_ℕ off len then err stuck else ok []
rounds step len (suc fuel) off =
    let go = step off >>= λ s. elim s [
      | stop ↦ ok []
      | next none off' ↦ rounds step len fuel off'
      | next (some h) off' ↦ rounds step len fuel off' >>= λ hs. ok (h ∷ hs)
    ] in
    if lt_ℕ off len then go else ok []

-- An entry's name, if there is an entry, with a value.
abbrev pub with_value : Option Header → Text → Option Header
with_value none v = none
with_value (some (n, w)) v = some (n, v)

-- `isHuff ? huffman.decode(raw).toString('utf8') : raw.toString('utf8')`.
abbrev pub text_of : Strings → Bool → Bytes → Result Error Text
text_of u true raw = from_huffman (Huffman.decode raw) >>= λ bytes. ok (u.from_utf8 bytes)
text_of u false raw = ok (u.from_utf8 raw)

module _ (u : Strings) (buf : Bytes) where
  -- The string and the length; `decodeHeaders` writes the same lines out.
  unfoldable pub decode_literal_string : ℤ → ℕ → Result Error (Text × ℤ)
  decode_literal_string off prefix_bits =
      let here = from buf off in
      let is_huff = not (bit_and (byte_at here 0) (2 ^ prefix_bits) == 0) in
      let (len, n) = decode_int here prefix_bits in
      let start = off +ℤ pos n in
      let raw = subarray buf start (start +ℤ len) in
      text_of u is_huff raw >>= λ str. ok (str, pos n +ℤ len)

  -- A literal name and a literal value.
  unfoldable pub read_literal : ℤ → Result Error Step
  read_literal off = decode_literal_string off 3 >>= λ name.
      decode_literal_string (off +ℤ name.1) 7 >>= λ val.
      ok (next (some (name.0, val.0)) (off +ℤ name.1 +ℤ val.1))

  -- A value behind an index that took `n` bytes.
  unfoldable pub read_named : Option Header → ℤ → ℕ → Result Error Step
  read_named e off n = decode_literal_string (off +ℤ pos n) 7 >>= λ val.
      ok (next (with_value e val.0) (off +ℤ pos n +ℤ val.1))

  unfoldable pub static_step : ℤ → Result Error Step
  static_step off =
      let here = from buf off in
      let b = byte_at here 0 in
      let (idx_6, n_6) = decode_int here 6 in
      let (idx_4, n_4) = decode_int here 4 in
      if bit_and b 0xc0 == 0xc0
      then ok (elim (elem_at static_table idx_6) [
        | none ↦ stop
        | some e ↦ next (some e) (off +ℤ pos n_6)
      ])
      else if bit_and b 0xf0 == 0x50 || bit_and b 0xf0 == 0x40
      then read_named (elem_at static_table idx_4) off n_4
      else if bit_and b 0xe0 == 0x20
      then read_literal off
      else if bit_and b 0xf0 == 0x10
      then ok (next none (off +ℤ pos 1))
      else ok stop

  -- The offset behind the two integers of the prefix, which are not used.
  unfoldable pub decode_headers : ℕ → Result Error (List Header)
  decode_headers fuel =
      let (required, n) = decode_int (from buf (pos 0)) 8 in
      let (base, k) = decode_int (from buf (pos n)) 7 in
      rounds static_step (length buf) fuel (pos (n + k))
