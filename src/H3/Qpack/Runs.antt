-- ===== src/H3/Qpack/Runs.antt =====
-- QPACK at concrete inputs, and the theorems at them.
use hellojs.Common.{
  ℕ, zero, suc, ◌<◌, ◌≡◌, refl, ap, true, false, List, [], ◌∷◌, ◌++◌, none, some, ok, err, ◌>>=◌,
  length, take, arith,
}
use hellojs.Common.Bytes.{Bytes}
use hellojs.Common.Signed.{pos, from, subarray, to_int32}
use hellojs.Common.Text.{text, ascii}
use hellojs.H2.Hpack.Table.{Header, total_cost}
use hellojs.H3.Huffman as Huffman
use hellojs.H3.Qpack.Integers.{encode_int, decode_int}
use hellojs.H3.Qpack.Table.{new_table, get_absolute, set_capacity, shrunk}
use hellojs.H3.Qpack.Table.Log as Log
use hellojs.H3.Qpack.Table.Refine.{insert_op, capacity_op, run, run_refines_log}
use hellojs.H3.Qpack.Encode.{encode_headers}
use hellojs.H3.Qpack.Static.{static_table}
use hellojs.H3.Qpack.Decode.{
  next, rounds, stuck, static_step, decode_headers, read_named, decode_literal_string,
}
use hellojs.H3.Qpack.Dynamic.{decode_required_insert_count, table_step, decode_headers_with_table}
use hellojs.H3.Qpack.Dynamic.InsertCount.{decode_required-encoded_count}
use hellojs.H3.Qpack.RoundTrip.{decode_headers-encode_headers}
use hellojs.H3.Qpack.Instructions.{parse_from, instruction, parse_encoder_instructions}
use hellojs.H3.Qpack.Instructions.Written.{
  Instruction, capacity_to, insert_static, insert_literal, duplicate, apply_all, written,
  written_all, Fits,
}
use hellojs.H3.Qpack.Instructions.Stream.{parse_encoder_instructions-written}

abbrev headers : List Header
headers = (text ":method", text "GET") ∷ (text ":path", text "/a") ∷ (text "X-Id", text "7") ∷ []

abbrev sent : List Header
sent = (text ":method", text "GET") ∷ (text ":path", text "/a") ∷ (text "x-id", text "7") ∷ []

decode_headers-encode_headers_example :
    let buf = encode_headers ascii headers in
    (decode_headers ascii buf (length buf) ≡ ok sent)
    × (decode_headers_with_table ascii buf (some new_table) 2 (length buf) ≡ ok sent)
decode_headers-encode_headers_example =
    decode_headers-encode_headers ascii headers (some new_table) 2
      (length (encode_headers ascii headers))
      (
        ((omega arith, refl), (omega arith, refl), refl),
        (
          ((omega arith, refl), (omega arith, refl), refl),
          (((omega arith, refl), (omega arith, refl), refl), tt),
        ),
      )
      (omega arith)

decode_required-encoded_count_example : decode_required_insert_count (pos 4) 10 3 ≡ ok (pos 9)
decode_required-encoded_count_example =
    decode_required-encoded_count 3 10 9 (omega arith) (omega arith) (omega arith)

run_refines_log_example :
    let ops =
      capacity_op (pos 80)
      ∷ insert_op (text "a", text "1")
      ∷ insert_op (text "b", text "2")
      ∷ insert_op (text "c", text "3")
      ∷ [] in
    let t = run ops new_table in (get_absolute t (pos 0) ≡ none) × (t.size ≡ total_cost t.entries)
unfolding Log.get Log.insert Log.set_capacity Log.new_log Log.overflow
run_refines_log_example =
    run_refines_log
      (capacity_op (pos 80)
        ∷ insert_op (text "a", text "1")
        ∷ insert_op (text "b", text "2")
        ∷ insert_op (text "c", text "3")
        ∷ [])
      (pos 0)

abbrev instructions : List Instruction
instructions =
    capacity_to 4096
    ∷ insert_static 1 (true, text "/b")
    ∷ insert_literal (false, text "n") (true, text "v")
    ∷ duplicate 1
    ∷ []

abbrev begun : Instruction
begun = insert_literal (false, text "name") (false, text "value")

coded-Fits : Fits ascii (true, text "/b")
unfolding Huffman.encode Huffman.encode_from Huffman.flush Huffman.table
coded-Fits = (omega arith, (omega arith, (omega arith, tt)), refl)

letter-Fits : Fits ascii (true, text "v")
unfolding Huffman.encode Huffman.encode_from Huffman.flush Huffman.table
letter-Fits = (omega arith, (omega arith, tt), refl)

begun_cut : 7 < length (written ascii begun)
unfolding encode_int
begun_cut = omega arith

parse_encoder_instructions-written_example :
    parse_encoder_instructions ascii
      (written_all ascii instructions ++ take 7 (written ascii begun))
      (suc (length (written_all ascii instructions)))
      new_table
    ≡ ok (pos (length (written_all ascii instructions)), apply_all instructions new_table)
parse_encoder_instructions-written_example =
    parse_encoder_instructions-written ascii instructions begun 7
      (suc (length (written_all ascii instructions))) new_table
      (
        omega arith,
        (
          (omega arith, coded-Fits),
          (((omega arith, (omega arith, tt), refl), letter-Fits), (omega arith, tt)),
        ),
      )
      (
        tt,
        (
          (omega arith, (omega arith, (omega arith, (omega arith, (omega arith, tt)))), refl),
          (
            omega arith,
            (omega arith, (omega arith, (omega arith, (omega arith, (omega arith, tt))))),
            refl,
          ),
        ),
        begun_cut,
      )
      (omega arith)

-- A name reference that asks never to be indexed, which `decodeHeaders` does not know: it stops there.
never_indexed : decode_headers ascii (0 ∷ 0 ∷ 0x71 ∷ 1 ∷ 98 ∷ []) 5 ≡ ok []
unfolding decode_headers static_step rounds from decode_int
never_indexed = refl

never_indexed_with_table :
    decode_headers_with_table ascii (0 ∷ 0 ∷ 0x71 ∷ 1 ∷ 98 ∷ []) none 0 5
    ≡ ok ((text ":path", text "b") ∷ [])
unfolding decode_headers_with_table table_step rounds from decode_int read_named
    decode_literal_string subarray static_table
never_indexed_with_table = refl

-- The first byte of a capacity that takes three: it is carried out as 31, and passed over.
capacity_cut :
    parse_encoder_instructions ascii (0x3f ∷ []) 1 new_table
    ≡ ok (pos 2, record new_table { capacity = pos 31 })
unfolding parse_encoder_instructions parse_from instruction set_capacity shrunk decode_int from
    new_table
capacity_cut = refl

-- A length whose fifth byte is shifted into the sign: it leads back to the line that it is in.
abbrev backwards : Bytes
backwards = 0 ∷ 0 ∷ 0x51 ∷ 0x7f ∷ 0xfa ∷ 0xfe ∷ 0xff ∷ 0xff ∷ 0x0f ∷ []

backwards_step : static_step ascii backwards (pos 2) ≡ ok (next (some (text ":path", [])) (pos 2))
unfolding static_step read_named decode_literal_string subarray from decode_int static_table
    to_int32
backwards_step = refl

-- So the loop of `decodeHeaders` does not end on it, with any number of rounds.
backwards_loops : (fuel : ℕ) → rounds (static_step ascii backwards) 9 fuel (pos 2) ≡ err stuck
unfolding rounds
backwards_loops zero = refl
backwards_loops (suc fuel) =
    rw backwards_step (ap (λ r. r >>= λ hs. ok ((text ":path", []) ∷ hs)) (backwards_loops fuel))
