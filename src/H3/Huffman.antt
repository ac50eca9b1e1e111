-- ===== src/H3/Huffman.antt =====
-- lib/h3/huffman.js: the Huffman code of HPACK and QPACK. The tree is built from the table, the
-- decoder walks it bit by bit, and the encoder packs the codes into bytes.
mod Table
pub mod Bits
pub mod Encoder
pub mod RoundTrip
mod Runs
unfoldable pub use Table.{table}
use Prim.Native.Nat.{bit_and, bit_or}
use hellojs.Common.{
  ℕ, zero, suc, ◌+◌, ◌-◌, ◌*◌, ◌/◌, ◌%◌, ◌^◌, Bool, true, false, List, [], ◌∷◌, ◌++◌, Option, none,
  some, Result, ok, err, ◌>>=◌, if◌then◌else◌, ltb, leb, ◌==◌, length, get_or,
}
use hellojs.Common.Bytes.{Bytes}

-- `absent` is a null child; a node holds the symbol whose code ends there, if any.
pub data Node : Type 0 where
  absent : Node
  node : Option ℕ → Node → Node → Node

pub data Error : Type 0 where
  invalid_sequence : Error

-- The `k` low bits of a number, highest first.
unfoldable pub bits_of : ℕ → ℕ → List ℕ
bits_of zero x = []
bits_of (suc k) x = (x / 2 ^ k % 2) ∷ bits_of k x

-- One symbol's path from a node on; `buildTree` makes the nodes that are missing.
unfoldable pub insert : List ℕ → ℕ → Node → Node
insert [] sym absent = node (some sym) absent absent
insert [] sym (node s l r) = node (some sym) l r
insert (b ∷ bs) sym absent =
    if b == 0
    then node none (insert bs sym absent) absent
    else node none absent (insert bs sym absent)
insert (b ∷ bs) sym (node s l r) =
    let left = node s (insert bs sym l) r in
    let right = node s l (insert bs sym r) in if b == 0 then left else right

-- The symbols 0 to 255; the 257th entry, EOS, is not put into the tree.
unfoldable pub insert_all : ℕ → ℕ → List (ℕ × ℕ) → Node → Node
insert_all sym zero codes tree = tree
insert_all sym (suc n) [] tree = tree
insert_all sym (suc n) ((code, len) ∷ codes) tree =
    insert_all (sym + 1) n codes (insert (bits_of len code) sym tree)

unfoldable pub build_tree : Node
unfolding insert_all insert bits_of table
build_tree = insert_all 0 256 table (node none absent absent)

abbrev pub child : ℕ → Node → Node
child bit absent = absent
child bit (node s l r) = if bit == 0 then l else r

abbrev pub symbol : Node → Option ℕ
symbol absent = none
symbol (node s l r) = s

abbrev pub is_absent : Node → Bool
is_absent absent = true
is_absent (node s l r) = false

-- The walk: a symbol is put out where its code ends, and the walk goes on from the root.
unfoldable pub walk : Node → Node → List ℕ → Result Error (List ℕ)
walk root here [] = ok []
walk root here (bit ∷ bits) =
    let next = child bit here in
    let on = walk root next bits in
    let emit = λ (s : ℕ). walk root root bits >>= λ out. ok (s ∷ out) in
    if is_absent next
    then err invalid_sequence
    else elim (symbol next) [ none ↦ on | some s ↦ emit s ]

-- The bits of a buffer, from the highest of each byte.
unfoldable pub buffer_bits : Bytes → List ℕ
buffer_bits [] = []
buffer_bits (b ∷ bs) = bits_of 8 b ++ buffer_bits bs

pub decode : Bytes → Result Error Bytes
decode buf = walk build_tree build_tree (buffer_bits buf)

-- The inner loop of `encode`: whole bytes leave the accumulator. It takes a byte a round, so
-- `bits` rounds are enough.
unfoldable pub flush : ℕ → ℕ → ℕ → Bytes × ℕ × ℕ
flush zero buf bits = ([], buf, bits)
flush (suc fuel) buf bits =
    let rest = bits - 8 in
    let (out, buf', bits') = flush fuel (bit_and buf (2 ^ rest - 1)) rest in
    if ltb bits 8 then ([], buf, bits) else (bit_and (buf / 2 ^ rest) 0xff ∷ out, buf', bits')

unfoldable pub encode_from : Bytes → ℕ → ℕ → Bytes
encode_from [] buf bits =
    if ltb 0 bits
    then bit_and (bit_or (buf * 2 ^ (8 - bits)) (2 ^ (8 - bits) - 1)) 0xff ∷ []
    else []
encode_from (byte ∷ bytes) buf bits =
    let (code, len) = get_or table byte (0, 0) in
    let (out, buf', bits') = flush (bits + len) (bit_or (buf * 2 ^ len) code) (bits + len) in
    out ++ encode_from bytes buf' bits'

unfoldable pub encode : Bytes → Bytes
encode input = encode_from input 0 0
