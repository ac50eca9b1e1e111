-- ===== src/H3/Qpack/Instructions/Stream.antt =====
-- The encoder stream: what the peer wrote is carried out in order, and what has arrived of one more
-- insertion is left.
use hellojs.Common.{
  ℕ, zero, suc, ◌+◌, ◌*◌, ◌≤◌, ◌<◌, ◌≡◌, refl, ap, ◌∙◌, List, [], ◌∷◌, ◌++◌, append_assoc, ok,
  length, length-append, length-take, take, All, arith, lt→ltb, le→ltb,
}
use hellojs.Common.Bytes.{Bytes}
use hellojs.Common.Signed.{pos}
use hellojs.Common.Text.{Strings}
use hellojs.H3.Qpack.Integers.RoundTrip.{encode_int_first}
use hellojs.H3.Qpack.Table.{DynamicTable}
use hellojs.H3.Qpack.Instructions.{
  advance, wait, instruction, parse_from, parse_encoder_instructions,
}
use hellojs.H3.Qpack.Instructions.Written.{
  huffman_bit, Instruction, capacity_to, insert_static, insert_dynamic, insert_literal, duplicate,
  apply, apply_all, body, written, written_all, InstructionFits,
}
use hellojs.H3.Qpack.Instructions.Complete.{instruction_behind}
use hellojs.H3.Qpack.Instructions.Begun.{IsInsertion, instruction_cut}

module _ (u : Strings) where
  written_pos : (i : Instruction) → 1 ≤ length (written u i)
  written_pos (capacity_to n) =
      let (r, tail, shape, small) = encode_int_first n 5 1 in rw shape (omega arith)
  written_pos (duplicate i) =
      let (r, tail, shape, small) = encode_int_first i 5 0 in rw shape (omega arith)
  written_pos (insert_static i v) =
      let (r, tail, shape, small) = encode_int_first i 6 3 in rw shape (omega arith)
  written_pos (insert_dynamic i v) =
      let (r, tail, shape, small) = encode_int_first i 6 2 in rw shape (omega arith)
  written_pos (insert_literal n v) =
      let (r, tail, shape, small) =
        encode_int_first (length (body u n)) 5 (2 * 1 + huffman_bit n.0) in
      rw shape (omega arith)

  parse_end :
      (buf : Bytes) (fuel off : ℕ) (t : DynamicTable)
      → length buf ≤ off
      → parse_from u buf fuel (pos off) t ≡ ok (pos off, t)
  unfolding parse_from
  parse_end buf zero off t h = rw (le→ltb off (length buf) h) refl
  parse_end buf (suc fuel) off t h = rw (le→ltb off (length buf) h) refl

  parse_wait :
      (buf : Bytes) (fuel off : ℕ) (t : DynamicTable)
      → off < length buf
      → instruction u buf (pos off) t ≡ ok wait
      → parse_from u buf (suc fuel) (pos off) t ≡ ok (pos off, t)
  unfolding parse_from
  parse_wait buf fuel off t h e = rw (lt→ltb off (length buf) h, e) refl

  parse_advance :
      (buf : Bytes) (fuel off off' : ℕ) (t t' : DynamicTable)
      → off < length buf
      → instruction u buf (pos off) t ≡ ok (advance (pos off') t')
      → parse_from u buf (suc fuel) (pos off) t ≡ parse_from u buf fuel (pos off') t'
  unfolding parse_from
  parse_advance buf fuel off off' t t' h e = rw (lt→ltb off (length buf) h, e) refl

  -- The first `k` bytes of an insertion, not all, or nothing.
  abbrev pub Begun : Instruction → ℕ → Type 0
  Begun i zero = Unit {0}
  Begun i (suc k) = IsInsertion u i × InstructionFits u i × (suc k < length (written u i))

  parse-Begun :
      (i : Instruction) (k : ℕ) (pre : Bytes) (fuel : ℕ) (t : DynamicTable)
      → Begun i k
      → parse_from u (pre ++ take k (written u i)) (suc fuel) (pos (length pre)) t
        ≡ ok (pos (length pre), t)
  parse-Begun i zero pre fuel t begun =
      let size = length-append pre [] in
      parse_end (pre ++ []) (suc fuel) (length pre) t (omega arith)
  parse-Begun i (suc k) pre fuel t (is, fits, cut) =
      let q = take (suc k) (written u i) in
      let size = length-append pre q in
      let size' = length-take (suc k) (written u i) in
      parse_wait (pre ++ q) fuel (length pre) t (omega arith)
        (instruction_cut u i pre (suc k) t is fits (omega arith) cut)

  parse_from-written :
      (is : List Instruction) (last : Instruction) (k : ℕ) (pre : Bytes) (fuel : ℕ)
      (t : DynamicTable)
      → All (InstructionFits u) is
      → Begun last k
      → length (written_all u is) < fuel
      → parse_from u
          (pre ++ (written_all u is ++ take k (written u last)))
          fuel
          (pos (length pre))
          t
        ≡ ok (pos (length pre + length (written_all u is)), apply_all is t)
  parse_from-written is last k pre zero t all begun h = absurd (omega arith)
  parse_from-written [] last k pre (suc fuel) t all begun h =
      parse-Begun last k pre fuel t begun ∙ ap (λ n. ok (pos n, t)) (omega arith)
  parse_from-written (i ∷ is) last k pre (suc fuel) t all begun h =
      let one = written u i in
      let more = written_all u is in
      let q = take k (written u last) in
      let some_bytes = written_pos i in
      let size = length-append pre (one ++ (more ++ q)) in
      let size' = length-append one (more ++ q) in
      let count = length-append one more in
      let again =
        parse_from-written is last k (pre ++ one) fuel (apply t i) all.1 begun (omega arith) in
      let again' : parse_from u (pre ++ (one ++ (more ++ q))) fuel (pos (length pre + length one))
            (apply t i)
          ≡ ok (pos (length pre + length one + length more), apply_all is (apply t i)) =
        rw (← append_assoc pre one (more ++ q), ← length-append pre one) again in
      rw (append_assoc one more q) (
        parse_advance (pre ++ (one ++ (more ++ q))) fuel (length pre) (length pre + length one) t
          (apply t i) (omega arith) (instruction_behind u i pre (more ++ q) t all.0)
        ∙ again'
        ∙ ap (λ n. ok (pos n, apply_all is (apply t i))) (omega arith))

  -- On a stream of instructions as the RFC has them written, with or without Huffman coding, and the
  -- first bytes of an insertion behind them or none, `parseEncoderInstructions` ends, has carried out
  -- each instruction in order, and returns the offset behind the last one that is whole: numbers are
  -- below 2^28, and the strings survive UTF-8.
  pub parse_encoder_instructions-written :
      (is : List Instruction) (last : Instruction) (k fuel : ℕ) (t : DynamicTable)
      → All (InstructionFits u) is
      → Begun last k
      → length (written_all u is) < fuel
      → parse_encoder_instructions u (written_all u is ++ take k (written u last)) fuel t
        ≡ ok (pos (length (written_all u is)), apply_all is t)
  unfolding parse_encoder_instructions
  parse_encoder_instructions-written is last k fuel t all begun h =
      parse_from-written is last k [] fuel t all begun h
      ∙ ap (λ n. ok (pos n, apply_all is t)) (omega arith)
