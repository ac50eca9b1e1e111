-- ===== src/H3/Qpack/Instructions.antt =====
-- `readLiteralComplete` and `parseEncoderInstructions` of lib/h3/qpack.js.
pub mod Written
pub mod Complete
pub mod Partial
pub mod Begun
pub mod Flags
pub mod Stream
use Prim.Native.Nat.{bit_and}
use hellojs.Common.{
  ℕ, zero, suc, ◌+◌, ◌^◌, not, Bool, Option, none, some, Result, ok, err, ◌>>=◌, if◌then◌else◌,
  ◌==◌, length,
}
use hellojs.Common.Bytes.{Bytes, byte_at}
use hellojs.Common.Signed.{ℤ, pos, ◌+ℤ◌, lt_ℕ, elem_at, from, subarray}
use hellojs.Common.Text.{Text, Strings}
use hellojs.H2.Hpack.Table.{Header}
use hellojs.H3.Huffman as Huffman
use hellojs.H3.Qpack.Static.{static_table}
use hellojs.H3.Qpack.Integers.{decode_int}
use hellojs.H3.Qpack.Table.{DynamicTable, get_relative, insert, set_capacity}
use hellojs.H3.Qpack.Decode.{Error, stuck, text_of}
use hellojs.H3.Qpack.Dynamic.{gt_ℕ}

-- A round of the loop: an instruction carried out and the offset behind it, or `return start`, for
-- want of bytes or knowledge.
pub data Outcome : Type 0 where
  advance : ℤ → DynamicTable → Outcome
  wait : Outcome

-- `insert` under the name of an entry, if there is one.
unfoldable pub insert_named : DynamicTable → Option Header → Text → DynamicTable
insert_named t none v = t
insert_named t (some e) v = insert t e.0 v

unfoldable pub insert_copy : DynamicTable → Option Header → DynamicTable
insert_copy t none = t
insert_copy t (some e) = insert t e.0 e.1

module _ (u : Strings) (buf : Bytes) where
  -- `none` is the null of a string that is not all there.
  unfoldable pub read_literal_complete : ℤ → ℕ → Result Error (Option (Text × ℤ))
  read_literal_complete off prefix_bits =
      let here = from buf off in
      let is_huff = not (bit_and (byte_at here 0) (2 ^ prefix_bits) == 0) in
      let (len, n) = decode_int here prefix_bits in
      let start = off +ℤ pos n in
      let raw = subarray buf start (start +ℤ len) in
      if not (lt_ℕ off (length buf))
      then ok none
      else if gt_ℕ (start +ℤ len) (length buf)
      then ok none
      else text_of u is_huff raw >>= (λ str. ok (some (str, pos n +ℤ len)))

  -- The part of an insertion behind its name: `none` for the name is an entry that does not exist.
  unfoldable pub read_insertion : DynamicTable → Option Header → ℤ → Result Error Outcome
  read_insertion t e off = read_literal_complete off 7 >>= λ r. elim r [
    | none ↦ ok wait
    | some val ↦ ok (advance (off +ℤ val.1) (insert_named t e val.0))
  ]

  unfoldable pub read_literal_insertion : DynamicTable → ℤ → Result Error Outcome
  read_literal_insertion t off = read_literal_complete off 5 >>= λ r. elim r [
    | none ↦ ok wait
    | some name ↦ read_literal_complete (off +ℤ name.1) 7 >>= λ r'. elim r' [
      | none ↦ ok wait
      | some val ↦ ok (advance (off +ℤ (name.1 +ℤ val.1)) (insert t name.0 val.0))
    ]
  ]

  unfoldable pub instruction : ℤ → DynamicTable → Result Error Outcome
  instruction off t =
      let here = from buf off in
      let b = byte_at here 0 in
      let (val_5, n_5) = decode_int here 5 in
      let (idx_6, n_6) = decode_int here 6 in
      let newest = pos t.total_inserted in
      if bit_and b 0xe0 == 0x20
      then ok (advance (off +ℤ pos n_5) (set_capacity t val_5))
      else if bit_and b 0x80 == 0x80
      then read_insertion t
          (if not (bit_and b 0x40 == 0)
            then elem_at static_table idx_6
            else get_relative t newest idx_6)
          (off +ℤ pos n_6)
      else if bit_and b 0xc0 == 0x40
      then read_literal_insertion t off
      else if bit_and b 0xe0 == 0x00
      then ok (advance (off +ℤ pos n_5) (insert_copy t (get_relative t newest val_5)))
      else ok wait

  -- The loop. What is thrown in a round is caught, and its start returned; the table is changed only
  -- by an instruction that is read.
  unfoldable pub parse_from : ℕ → ℤ → DynamicTable → Result Error (ℤ × DynamicTable)
  parse_from zero off t = if lt_ℕ off (length buf) then err stuck else ok (off, t)
  parse_from (suc fuel) off t =
      let go : Result Error (ℤ × DynamicTable) = elim (instruction off t) [
        | ok (advance off' t') ↦ parse_from fuel off' t'
        | ok wait ↦ ok (off, t)
        | err e ↦ ok (off, t)
      ] in
      if lt_ℕ off (length buf) then go else ok (off, t)

  unfoldable pub parse_encoder_instructions : ℕ → DynamicTable → Result Error (ℤ × DynamicTable)
  parse_encoder_instructions fuel t = parse_from fuel (pos 0) t
