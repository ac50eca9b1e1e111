-- ===== src/H3/Qpack/Instructions/Begun.antt =====
-- An insertion of which the last bytes have not arrived, as an instruction.
use hellojs.Common.{
  ℕ, ◌+◌, ◌*◌, ◌^◌, ◌≤◌, ◌<◌, ◌≡◌, refl, ◌∙◌, ◌++◌, append_assoc, ok, length, take, get_or-take,
}
use hellojs.Common.Bytes.{Bytes, byte_at}
use hellojs.Common.Signed.{pos}
use hellojs.Common.Text.{Strings}
use hellojs.H3.Qpack.Integers.{encode_int}
use hellojs.H3.Qpack.Integers.RoundTrip.{encode_int_first}
use hellojs.H3.Qpack.Table.{DynamicTable}
use hellojs.H3.Qpack.Decode.Steps.{from-behind}
use hellojs.H3.Qpack.Instructions.{wait, instruction}
use hellojs.H3.Qpack.Instructions.Written.{
  body, head, literal, Instruction, capacity_to, insert_static, insert_dynamic, insert_literal,
  duplicate, written, InstructionFits,
}
use hellojs.H3.Qpack.Instructions.Complete.{name_first}
use hellojs.H3.Qpack.Instructions.Flags.{literal_first, dynamic_first, static_first}
use hellojs.H3.Qpack.Instructions.Partial.{insertion_cut, literal_insertion_cut}

module _ (u : Strings) where
  abbrev pub IsInsertion : Instruction → Type 0
  IsInsertion (capacity_to n) = ⊥
  IsInsertion (insert_static i v) = Unit {0}
  IsInsertion (insert_dynamic i v) = Unit {0}
  IsInsertion (insert_literal n v) = Unit {0}
  IsInsertion (duplicate i) = ⊥

  pub instruction_cut :
      (i : Instruction) (pre : Bytes) (k : ℕ) (t : DynamicTable)
      → IsInsertion i
      → InstructionFits u i
      → 1 ≤ k
      → k < length (written u i)
      → instruction u (pre ++ take k (written u i)) (pos (length pre)) t ≡ ok wait
  unfolding instruction
  instruction_cut (capacity_to n) pre k t is fits one cut = absurd is
  instruction_cut (duplicate i) pre k t is fits one cut = absurd is
  instruction_cut (insert_static i v) pre k t is (fits, fits_v) one cut =
      let int = encode_int i 6 (3 * 2 ^ 6) in
      let lit = literal u 7 0 v in
      let q = take k (int ++ lit) in
      let (r, more, shape, small) = encode_int_first i 6 3 in
      let (a, b, c) = static_first r small in
      let first : byte_at q 0 ≡ 192 + r = get_or-take k (int ++ lit) 0 one ∙ rw shape refl in
      rw (from-behind pre q, first, a, b, c) (insertion_cut u pre i 3 v k t _ fits fits_v one cut)
  instruction_cut (insert_dynamic i v) pre k t is (fits, fits_v) one cut =
      let int = encode_int i 6 (2 * 2 ^ 6) in
      let lit = literal u 7 0 v in
      let q = take k (int ++ lit) in
      let (r, more, shape, small) = encode_int_first i 6 2 in
      let (a, b, c) = dynamic_first r small in
      let first : byte_at q 0 ≡ 128 + r = get_or-take k (int ++ lit) 0 one ∙ rw shape refl in
      rw (from-behind pre q, first, a, b, c) (insertion_cut u pre i 2 v k t _ fits fits_v one cut)
  instruction_cut (insert_literal n v) pre k t is (fits_n, fits_v) one cut =
      let name = literal u 5 1 n in
      let lit = literal u 7 0 v in
      let q = take k (name ++ lit) in
      let (r, small, first) = name_first u n (body u n ++ lit) in
      let (a, b, c) = literal_first r small in
      let whole : byte_at q 0 ≡ 64 + r =
        get_or-take k (name ++ lit) 0 one ∙ rw (append_assoc (head u 5 1 n) (body u n) lit) first in
      rw (from-behind pre q, whole, a, b, c)
        (literal_insertion_cut u pre n v k t fits_n fits_v one cut)
