-- ===== src/H3/Qpack/Instructions/Written.antt =====
-- The encoder stream as RFC 9204 section 4.3 has the peer write it, and what each instruction is to
-- do with the table.
use hellojs.Common.{
  ◌≡◌, ℕ, ◌+◌, ◌*◌, ◌^◌, ◌<◌, Bool, true, false, List, [], ◌∷◌, ◌++◌, length, get_elem?, All,
}
use hellojs.Common.Bytes.{Bytes, IsByte}
use hellojs.Common.Signed.{pos}
use hellojs.Common.Text.{Text, Strings}
use hellojs.H3.Huffman as Huffman
use hellojs.H3.Qpack.Static.{static_table}
use hellojs.H3.Qpack.Integers.{encode_int}
use hellojs.H3.Qpack.Table.{DynamicTable, get_relative, insert, set_capacity}
use hellojs.H3.Qpack.Instructions.{insert_named, insert_copy}

-- A string with the choice to Huffman-code it.
abbrev pub Coded : Type 0
Coded = Bool × Text

pub data Instruction : Type 0 where
  capacity_to : ℕ → Instruction
  insert_static : ℕ → Coded → Instruction
  insert_dynamic : ℕ → Coded → Instruction
  insert_literal : Coded → Coded → Instruction
  duplicate : ℕ → Instruction

abbrev pub apply : DynamicTable → Instruction → DynamicTable
apply t (capacity_to n) = set_capacity t (pos n)
apply t (insert_static i v) = insert_named t (get_elem? static_table i) v.1
apply t (insert_dynamic i v) = insert_named t (get_relative t (pos t.total_inserted) (pos i)) v.1
apply t (insert_literal n v) = insert t n.1 v.1
apply t (duplicate i) = insert_copy t (get_relative t (pos t.total_inserted) (pos i))

abbrev pub apply_all : List Instruction → DynamicTable → DynamicTable
apply_all [] t = t
apply_all (i ∷ is) t = apply_all is (apply t i)

abbrev pub huffman_bit : Bool → ℕ
huffman_bit true = 1
huffman_bit false = 0

module _ (u : Strings) where
  abbrev pub body : Coded → Bytes
  body (true, s) = Huffman.encode (u.to_utf8 s)
  body (false, s) = u.to_utf8 s

  -- A string literal behind the bits `hi`: the Huffman bit, the length in `p` bits, the bytes.
  abbrev pub head : ℕ → ℕ → Coded → Bytes
  head p hi c = encode_int (length (body c)) p ((2 * hi + huffman_bit c.0) * 2 ^ p)

  abbrev pub literal : ℕ → ℕ → Coded → Bytes
  literal p hi c = head p hi c ++ body c

  abbrev pub written : Instruction → Bytes
  written (capacity_to n) = encode_int n 5 (1 * 2 ^ 5)
  written (insert_static i v) = encode_int i 6 (3 * 2 ^ 6) ++ literal 7 0 v
  written (insert_dynamic i v) = encode_int i 6 (2 * 2 ^ 6) ++ literal 7 0 v
  written (insert_literal n v) = literal 5 1 n ++ literal 7 0 v
  written (duplicate i) = encode_int i 5 (0 * 2 ^ 5)

  abbrev pub written_all : List Instruction → Bytes
  written_all [] = []
  written_all (i ∷ is) = written i ++ written_all is

  -- A string that survives UTF-8, short enough that its length is read back.
  abbrev pub Fits : Coded → Type 0
  Fits c =
      (length (body c) < 2 ^ 28) × All IsByte (u.to_utf8 c.1) × (u.from_utf8 (u.to_utf8 c.1) ≡ c.1)

  abbrev pub InstructionFits : Instruction → Type 0
  InstructionFits (capacity_to n) = n < 2 ^ 28
  InstructionFits (insert_static i v) = (i < 2 ^ 28) × Fits v
  InstructionFits (insert_dynamic i v) = (i < 2 ^ 28) × Fits v
  InstructionFits (insert_literal n v) = Fits n × Fits v
  InstructionFits (duplicate i) = i < 2 ^ 28
