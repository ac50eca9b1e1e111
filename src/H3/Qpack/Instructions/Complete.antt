-- ===== src/H3/Qpack/Instructions/Complete.antt =====
-- An instruction that has arrived whole is read as its writer meant it.
use Prim.Native.Nat.{bit_and}
use hellojs.Common.{
  ℕ, ◌+◌, ◌*◌, ◌^◌, ◌≤◌, ◌<◌, ◌≡◌, refl, ap, Bool, true, false, not, ◌++◌, append_assoc, Option,
  some, ok, ◌==◌, length, length-append, get_elem?, arith, lt→ltb,
}
use hellojs.Common.Bytes.{Bytes, byte_at}
use hellojs.Common.Signed.{pos, subarray}
use hellojs.Common.Text.{Strings}
use hellojs.H2.Hpack.Table.{Header}
use hellojs.H3.Huffman.RoundTrip as HuffmanRoundTrip
use hellojs.H3.Qpack.Static.{static_table}
use hellojs.H3.Qpack.Integers.{encode_int}
use hellojs.H3.Qpack.Integers.RoundTrip.{encode_int_first, decode_int-encode_int}
use hellojs.H3.Qpack.Table.{DynamicTable, get_relative, insert}
use hellojs.H3.Qpack.Decode.{from_huffman, text_of}
use hellojs.H3.Qpack.Decode.Steps.{from-behind, subarray-behind}
use hellojs.H3.Qpack.Instructions.{
  advance, insert_named, read_literal_complete, read_insertion, read_literal_insertion, instruction,
}
use hellojs.H3.Qpack.Instructions.Written.{
  Coded, huffman_bit, body, head, literal, Fits, Instruction, capacity_to, insert_static,
  insert_dynamic, insert_literal, duplicate, apply, written, InstructionFits,
}
use hellojs.H3.Qpack.Instructions.Flags.{
  Flagged, seven-Flagged, five-Flagged, low_first, literal_first, dynamic_first, static_first,
}

module _ (u : Strings) where
  -- The bytes of a string, decoded as their flag says.
  pub text_of-body : (c : Coded) → Fits u c → text_of u c.0 (body u c) ≡ ok c.1
  unfolding from_huffman
  text_of-body (true, s) (short, bytes, back) =
      rw (HuffmanRoundTrip.decode-encode_bytes (u.to_utf8 s) bytes) (ap ok back)
  text_of-body (false, s) (short, bytes, back) = ap ok back

  pub read_literal_behind :
      (pre : Bytes) (p hi : ℕ) (c : Coded) (rest : Bytes)
      → Flagged p hi
      → Fits u c
      → read_literal_complete u (pre ++ (literal u p hi c ++ rest)) (pos (length pre)) p
        ≡ ok (some (c.1, pos (length (literal u p hi c))))
  unfolding read_literal_complete
  read_literal_behind pre p hi c rest flagged fits =
      let bits = 2 * hi + huffman_bit c.0 in
      let raw = body u c in
      let int = head u p hi c in
      let buf = pre ++ (int ++ (raw ++ rest)) in
      let (r, tail, shape, small) = encode_int_first (length raw) p bits in
      let flag : not (bit_and (byte_at (int ++ (raw ++ rest)) 0) (2 ^ p) == 0) ≡ c.0 =
        rw shape (flagged c.0 r small) in
      let back = decode_int-encode_int (length raw) p bits (raw ++ rest) fits.0 in
      let cut : subarray buf (pos (length pre + length int))
            (pos (length pre + length int + length raw))
          ≡ raw =
        rw (← append_assoc pre int (raw ++ rest), ← length-append pre int)
          (subarray-behind (pre ++ int) raw rest) in
      let size : length buf ≡ length pre + (length int + (length raw + length rest)) = omega (
        arith,
        length-append pre (int ++ (raw ++ rest)),
        length-append int (raw ++ rest),
        length-append raw rest,
      ) in
      let int_pos : 1 ≤ length int = rw shape (omega arith) in
      rw
        (
          append_assoc int raw rest,
          length-append int raw,
          from-behind pre (int ++ (raw ++ rest)),
          flag,
          back,
          cut,
          lt→ltb (length pre) (length buf) (omega arith),
          lt→ltb (length pre + length int + length raw) (length buf + 1) (omega arith),
          text_of-body c fits,
        )
        refl

  pub insertion_behind :
      (pre int : Bytes) (v : Coded) (rest : Bytes) (t : DynamicTable) (e : Option Header)
      → Fits u v
      → read_insertion u
          (pre ++ (int ++ (literal u 7 0 v ++ rest)))
          t
          e
          (pos (length pre + length int))
        ≡ ok (
            advance
              (pos (length pre + length int + length (literal u 7 0 v)))
              (insert_named t e v.1))
  unfolding read_insertion
  insertion_behind pre int v rest t e fits =
      let value = read_literal_behind (pre ++ int) 7 0 v rest seven-Flagged fits in
      rw (
        ← append_assoc pre int (literal u 7 0 v ++ rest),
        ← length-append pre int,
        value,
        length-append pre int,
      )

  pub literal_insertion_behind :
      (pre : Bytes) (n v : Coded) (rest : Bytes) (t : DynamicTable)
      → Fits u n
      → Fits u v
      → read_literal_insertion u
          (pre ++ (literal u 5 1 n ++ (literal u 7 0 v ++ rest)))
          t
          (pos (length pre))
        ≡ ok (
            advance
              (pos (length pre + (length (literal u 5 1 n) + length (literal u 7 0 v))))
              (insert t n.1 v.1))
  unfolding read_literal_insertion
  literal_insertion_behind pre n v rest t fits_n fits_v =
      let name = literal u 5 1 n in
      let first = read_literal_behind pre 5 1 n (literal u 7 0 v ++ rest) five-Flagged fits_n in
      let second = read_literal_behind (pre ++ name) 7 0 v rest seven-Flagged fits_v in
      let second' : read_literal_complete u (pre ++ (name ++ (literal u 7 0 v ++ rest)))
            (pos (length pre + length name)) 7
          ≡ ok (some (v.1, pos (length (literal u 7 0 v)))) =
        rw (← append_assoc pre name (literal u 7 0 v ++ rest), ← length-append pre name) second in
      rw (first, second')

  -- What is read of an instruction, and what the table becomes.
  abbrev pub Carried : Bytes → Bytes → DynamicTable → Instruction → Type 0
  Carried pre rest t i =
      instruction u (pre ++ (written u i ++ rest)) (pos (length pre)) t
      ≡ ok (advance (pos (length pre + length (written u i))) (apply t i))

  pub behind :
      (pre int lit : Bytes)
      → length pre + length (int ++ lit) ≡ length pre + length int + length lit
  behind pre int lit = omega (arith, length-append int lit)

  pub name_first :
      (n : Coded) (rest : Bytes) → (r : ℕ) × (r < 64) × (byte_at (head u 5 1 n ++ rest) 0 ≡ 64 + r)
  name_first n rest =
      let bit = huffman_bit n.0 in
      let (r, tail, shape, small) = encode_int_first (length (body u n)) 5 (2 * 1 + bit) in
      let low : bit < 2 = bit_small n.0 in (bit * 32 + r, omega arith, rw shape (omega arith))
    where
      bit_small : (b : Bool) → huffman_bit b < 2
      bit_small true = omega arith
      bit_small false = omega arith

  pub instruction_behind :
      (i : Instruction) (pre rest : Bytes) (t : DynamicTable)
      → InstructionFits u i
      → Carried pre rest t i
  unfolding instruction
  instruction_behind (capacity_to n) pre rest t fits =
      let int = encode_int n 5 (1 * 2 ^ 5) in
      let (r, tail, shape, small) = encode_int_first n 5 1 in
      let (a, _, _, _) = low_first r small in
      let first : byte_at (int ++ rest) 0 ≡ 32 + r = rw shape refl in
      rw (from-behind pre (int ++ rest), first, a, decode_int-encode_int n 5 1 rest fits) refl
  instruction_behind (duplicate i) pre rest t fits =
      let int = encode_int i 5 (0 * 2 ^ 5) in
      let (r, tail, shape, small) = encode_int_first i 5 0 in
      let (_, a, b, c) = low_first r small in
      let first : byte_at (int ++ rest) 0 ≡ r = rw shape (omega arith) in
      rw (from-behind pre (int ++ rest), first, a, b, c, decode_int-encode_int i 5 0 rest fits) refl
  instruction_behind (insert_static i v) pre rest t (fits, fits_v) =
      let int = encode_int i 6 (3 * 2 ^ 6) in
      let tail = literal u 7 0 v ++ rest in
      let (r, more, shape, small) = encode_int_first i 6 3 in
      let (a, b, c) = static_first r small in
      let first : byte_at (int ++ tail) 0 ≡ 192 + r = rw shape refl in
      rw (
        append_assoc int (literal u 7 0 v) rest,
        behind pre int (literal u 7 0 v),
        from-behind pre (int ++ tail),
        first,
        a,
        b,
        c,
        decode_int-encode_int i 6 3 tail fits,
        insertion_behind pre int v rest t (get_elem? static_table i) fits_v,
      )
  instruction_behind (insert_dynamic i v) pre rest t (fits, fits_v) =
      let int = encode_int i 6 (2 * 2 ^ 6) in
      let tail = literal u 7 0 v ++ rest in
      let (r, more, shape, small) = encode_int_first i 6 2 in
      let (a, b, c) = dynamic_first r small in
      let first : byte_at (int ++ tail) 0 ≡ 128 + r = rw shape refl in
      rw (
        append_assoc int (literal u 7 0 v) rest,
        behind pre int (literal u 7 0 v),
        from-behind pre (int ++ tail),
        first,
        a,
        b,
        c,
        decode_int-encode_int i 6 2 tail fits,
        insertion_behind pre int v rest t (get_relative t (pos t.total_inserted) (pos i)) fits_v,
      )
  instruction_behind (insert_literal n v) pre rest t (fits_n, fits_v) =
      let name = literal u 5 1 n in
      let tail = literal u 7 0 v ++ rest in
      let (r, small, first) = name_first n (body u n ++ tail) in
      let (a, b, c) = literal_first r small in
      let whole : byte_at (name ++ tail) 0 ≡ 64 + r =
        rw (append_assoc (head u 5 1 n) (body u n) tail) first in
      rw (
        append_assoc name (literal u 7 0 v) rest,
        length-append name (literal u 7 0 v),
        from-behind pre (name ++ tail),
        whole,
        a,
        b,
        c,
        literal_insertion_behind pre n v rest t fits_n fits_v,
      )
