-- ===== src/H2/Hpack/Strings.antt =====
-- The string literals of lib/h2/hpack.js, Huffman-coded where that is shorter.
pub mod RoundTrip
pub mod Outcome
use Prim.Native.Nat.{bit_and}
use hellojs.Common.{
  ℕ, ◌+◌, ◌≡◌, refl, ap, ◌∙◌, sym, Bool, true, false, not, Result, ok, err, ◌>>=◌, if◌then◌else◌,
  ltb, ◌==◌, take, drop, length, ◌++◌, append_assoc,
}
use hellojs.Common.Bytes.{Bytes, byte_at}
use hellojs.Common.Text.{Text, Strings}
use hellojs.H3.Huffman as Huffman
use hellojs.H2.Hpack.Integers.{encode_int, decode_int}

-- What the decoder throws. `stuck` is no error of the source: the loop ran out of fuel.
pub data Error : Type 0 where
  huffman : Huffman.Error → Error
  header_list_too_large : Error
  stuck : Error

pub from_huffman {ℓ} : {A : Type ℓ} → Result Huffman.Error A → Result Error A
from_huffman (ok a) = ok a
from_huffman (err e) = err (huffman e)

module _ (u : Strings) where
  pub encode_string : Text → Bytes
  encode_string s =
      let raw = u.to_utf8 s in
      let huff = Huffman.encode raw in
      if ltb (length huff) (length raw)
      then encode_int (length huff) 7 0x80 ++ huff
      else encode_int (length raw) 7 0x00 ++ raw

  -- The string, and the number of bytes taken.
  pub decode_string : Bytes → Result Error (Text × ℕ)
  unfolding from_huffman
  decode_string buf =
      let is_huff = not (bit_and (byte_at buf 0) 0x80 == 0) in
      let (len, n) = decode_int buf 7 in
      let raw = take len (drop n buf) in
      if is_huff
      then from_huffman (Huffman.decode raw) >>= (λ bytes. ok (u.from_utf8 bytes, n + len))
      else ok (u.from_utf8 raw, n + len)
