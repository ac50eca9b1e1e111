-- ===== src/H3/Qpack/Decode/Steps.antt =====
-- What the decoder reads in the middle of a buffer: behind `pre`, the bytes that an encoder wrote.
use Prim.Native.Nat.{bit_and}
use hellojs.Common.{
  ℕ, ◌+◌, ◌-◌, ◌*◌, ◌^◌, ◌<◌, ◌≡◌, ◌++◌, append_assoc, ok, length, take-append_length,
  drop-append_length, length-append, arith,
}
use hellojs.Common.Bytes.{Bytes, byte_at}
use hellojs.Common.Signed.{pos, from, subarray}
use hellojs.Common.Text.{Strings}
use hellojs.H3.Qpack.Integers.{encode_int}
use hellojs.H3.Qpack.Integers.RoundTrip.{encode_int_first, decode_int-encode_int}
use hellojs.H3.Qpack.Decode.{decode_literal_string}

pub from-behind : (pre rest : Bytes) → from (pre ++ rest) (pos (length pre)) ≡ rest
unfolding from
from-behind pre rest = drop-append_length pre rest

pub subarray-behind :
    (pre body rest : Bytes)
    → subarray (pre ++ (body ++ rest)) (pos (length pre)) (pos (length pre + length body)) ≡ body
unfolding subarray
subarray-behind pre body rest =
    let size : length pre + length body - length pre ≡ length body = omega arith in
    rw (size, drop-append_length pre (body ++ rest)) (take-append_length body rest)

-- The flag bits above a prefix of `p` bits leave bit `p` clear.
abbrev pub Clear : ℕ → ℕ → Type 0
Clear p hi = (r : ℕ) → r < 2 ^ p → bit_and (hi * 2 ^ p + r) (2 ^ p) ≡ 0

module _ (u : Strings) where
  -- A literal that is not Huffman-coded.
  pub decode_literal_behind :
      (pre : Bytes) (p hi : ℕ) (body rest : Bytes)
      → Clear p hi
      → length body < 2 ^ 28
      → let head = encode_int (length body) p (hi * 2 ^ p) in
        decode_literal_string u (pre ++ (head ++ (body ++ rest))) (pos (length pre)) p
        ≡ ok (u.from_utf8 body, pos (length head + length body))
  unfolding decode_literal_string
  decode_literal_behind pre p hi body rest clear short =
      let head = encode_int (length body) p (hi * 2 ^ p) in
      let (r, tail, shape, small) = encode_int_first (length body) p hi in
      let flag : bit_and (byte_at (head ++ (body ++ rest)) 0) (2 ^ p) ≡ 0 =
        rw shape (clear r small) in
      let int = decode_int-encode_int (length body) p hi (body ++ rest) short in
      let cut : subarray (pre ++ (head ++ (body ++ rest))) (pos (length pre + length head))
            (pos (length pre + length head + length body))
          ≡ body =
        rw (← append_assoc pre head (body ++ rest), ← length-append pre head)
          (subarray-behind (pre ++ head) body rest) in
      rw (from-behind pre (head ++ (body ++ rest)), flag, int, cut)
