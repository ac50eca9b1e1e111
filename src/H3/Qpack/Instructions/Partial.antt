-- ===== src/H3/Qpack/Instructions/Partial.antt =====
-- An insertion of which the last bytes have not arrived is left for later.
use hellojs.Common.{
  ℕ, zero, suc, ◌+◌, ◌-◌, ◌*◌, ◌^◌, ◌≤◌, ◌<◌, ◌≡◌, refl, [], ◌++◌, append_assoc, Option, none, some,
  ok, length, length-append, length-take, take, take-append_left, take-append_right, arith, lt→ltb,
  le→ltb, dec_le,
}
use hellojs.Common.Bytes.{Bytes}
use hellojs.Common.Signed.{ℤ, pos, negsuc}
use hellojs.Common.Text.{Text, Strings}
use hellojs.H2.Hpack.Table.{Header}
use hellojs.H3.Qpack.Integers.{encode_int, decode_int}
use hellojs.H3.Qpack.Integers.RoundTrip.{encode_int_first, decode_int-encode_int}
use hellojs.H3.Qpack.Integers.Cut.{Cut, decode_int-Cut}
use hellojs.H3.Qpack.Table.{DynamicTable}
use hellojs.H3.Qpack.Decode.Steps.{from-behind}
use hellojs.H3.Qpack.Instructions.{
  wait, read_literal_complete, read_insertion, read_literal_insertion,
}
use hellojs.H3.Qpack.Instructions.Written.{Coded, huffman_bit, body, head, literal, Fits}
use hellojs.H3.Qpack.Instructions.Complete.{read_literal_behind}
use hellojs.H3.Qpack.Instructions.Flags.{five-Flagged}

module _ (u : Strings) where
  -- Nothing is read past the end.
  literal_past :
      (buf : Bytes) (off p : ℕ)
      → length buf ≤ off
      → read_literal_complete u buf (pos off) p ≡ ok none
  unfolding read_literal_complete
  literal_past buf off p h = rw (le→ltb off (length buf) h) refl

  -- A length that leads past the end.
  literal_short :
      (pre q : Bytes) (p len n : ℕ)
      → 1 ≤ length q
      → decode_int q p ≡ (pos len, n)
      → length q < n + len
      → read_literal_complete u (pre ++ q) (pos (length pre)) p ≡ ok none
  unfolding read_literal_complete
  literal_short pre q p len n some_bytes int short =
      let size = length-append pre q in
      rw
        (
          from-behind pre q,
          int,
          lt→ltb (length pre) (length (pre ++ q)) (omega arith),
          le→ltb (length pre + n + len) (length (pre ++ q) + 1) (omega arith),
        )
        refl

  literal-Cut :
      (pre q : Bytes) (p : ℕ) (r : ℤ × ℕ)
      → decode_int q p ≡ r
      → 1 ≤ length q
      → Cut (length q) r
      → read_literal_complete u (pre ++ q) (pos (length pre)) p ≡ ok none
  literal-Cut pre q p (pos w, n) int one cut =
      literal_short pre q p w n one int (omega (arith, cut))
  literal-Cut pre q p (negsuc w, n) int one cut = absurd cut

  literal_cut :
      (pre : Bytes) (p hi : ℕ) (c : Coded) (k : ℕ)
      → Fits u c
      → 1 ≤ k
      → k < length (literal u p hi c)
      → read_literal_complete u (pre ++ take k (literal u p hi c)) (pos (length pre)) p ≡ ok none
  literal_cut pre p hi c k fits one cut =
      let int = head u p hi c in
      let raw = body u c in
      let bits = 2 * hi + huffman_bit c.0 in
      let size = length-append int raw in
      elim (dec_le (length int) k) [
        | yes whole ↦
            let q = int ++ take (k - length int) raw in
            let (r, tail, shape, small) = encode_int_first (length raw) p bits in
            let some_int : 1 ≤ length int = rw shape (omega arith) in
            let taken = length-append int (take (k - length int) raw) in
            let taken' = length-take (k - length int) raw in
            rw (take-append_right k int raw whole) (
              literal_short pre q p (length raw) (length int) (omega arith)
                (decode_int-encode_int (length raw) p bits (take (k - length int) raw) fits.0)
                (omega arith))
        | no part ↦
            let q = take k int in
            let size' : length q ≡ k = omega (arith, length-take k int) in
            let e = decode_int-Cut (length raw) p bits k fits.0 (omega arith) one in
            rw (take-append_left k int raw (omega arith))
              (literal-Cut pre q p (decode_int q p) refl (omega arith) (rw size' e))
      ]

  -- The same, where nothing of the literal has arrived yet too.
  literal_missing :
      (pre : Bytes) (p hi : ℕ) (c : Coded) (k : ℕ)
      → Fits u c
      → k < length (literal u p hi c)
      → read_literal_complete u (pre ++ take k (literal u p hi c)) (pos (length pre)) p ≡ ok none
  literal_missing pre p hi c zero fits cut =
      let size = length-append pre [] in literal_past (pre ++ []) (length pre) p (omega arith)
  literal_missing pre p hi c (suc k) fits cut =
      literal_cut pre p hi c (suc k) fits (omega arith) cut

  insertion_waits :
      (buf : Bytes) (t : DynamicTable) (e : Option Header) (off : ℤ)
      → read_literal_complete u buf off 7 ≡ ok none
      → read_insertion u buf t e off ≡ ok wait
  unfolding read_insertion
  insertion_waits buf t e off missing = rw missing refl

  insertion_past :
      (pre q : Bytes) (r : ℤ × ℕ) (t : DynamicTable) (e : Option Header)
      → Cut (length q) r
      → read_insertion u (pre ++ q) t e (pos (length pre + r.1)) ≡ ok wait
  insertion_past pre q (pos w, n) t e cut =
      let size = length-append pre q in
      insertion_waits (pre ++ q) t e _
        (literal_past (pre ++ q) (length pre + n) 7 (omega (arith, cut)))
  insertion_past pre q (negsuc w, n) t e cut = absurd cut

  pub insertion_cut :
      (pre : Bytes) (i hi : ℕ) (v : Coded) (k : ℕ) (t : DynamicTable) (e : Option Header)
      → i < 2 ^ 28
      → Fits u v
      → 1 ≤ k
      → k < length (encode_int i 6 (hi * 2 ^ 6) ++ literal u 7 0 v)
      → let q = take k (encode_int i 6 (hi * 2 ^ 6) ++ literal u 7 0 v) in
        read_insertion u (pre ++ q) t e (pos (length pre + (decode_int q 6).1)) ≡ ok wait
  insertion_cut pre i hi v k t e small fits one cut =
      let int = encode_int i 6 (hi * 2 ^ 6) in
      let lit = literal u 7 0 v in
      let size = length-append int lit in
      elim (dec_le (length int) k) [
        | yes whole ↦
            let j = k - length int in
            let missing = literal_missing (pre ++ int) 7 0 v j fits (omega arith) in
            rw
              (
                take-append_right k int lit whole,
                decode_int-encode_int i 6 hi (take j lit) small,
                ← append_assoc pre int (take j lit),
                ← length-append pre int,
              )
              (insertion_waits ((pre ++ int) ++ take j lit) t e _ missing)
        | no part ↦
            let q = take k int in
            let size' : length q ≡ k = omega (arith, length-take k int) in
            let e' = decode_int-Cut i 6 hi k small (omega arith) one in
            rw (take-append_left k int lit (omega arith))
              (insertion_past pre q (decode_int q 6) t e (rw size' e'))
      ]

  name_waits :
      (buf : Bytes) (t : DynamicTable) (off : ℤ)
      → read_literal_complete u buf off 5 ≡ ok none
      → read_literal_insertion u buf t off ≡ ok wait
  unfolding read_literal_insertion
  name_waits buf t off missing = rw missing refl

  value_waits :
      (buf : Bytes) (t : DynamicTable) (off off' : ℕ) (name : Text)
      → read_literal_complete u buf (pos off) 5 ≡ ok (some (name, pos off'))
      → read_literal_complete u buf (pos (off + off')) 7 ≡ ok none
      → read_literal_insertion u buf t (pos off) ≡ ok wait
  unfolding read_literal_insertion
  value_waits buf t off off' name first missing = rw (first, missing) refl

  pub literal_insertion_cut :
      (pre : Bytes) (n v : Coded) (k : ℕ) (t : DynamicTable)
      → Fits u n
      → Fits u v
      → 1 ≤ k
      → k < length (literal u 5 1 n ++ literal u 7 0 v)
      → read_literal_insertion u
          (pre ++ take k (literal u 5 1 n ++ literal u 7 0 v))
          t
          (pos (length pre))
        ≡ ok wait
  literal_insertion_cut pre n v k t fits_n fits_v one cut =
      let name = literal u 5 1 n in
      let lit = literal u 7 0 v in
      let size = length-append name lit in
      elim (dec_le (length name) k) [
        | yes whole ↦
            let j = k - length name in
            let first = read_literal_behind u pre 5 1 n (take j lit) five-Flagged fits_n in
            let missing = literal_missing (pre ++ name) 7 0 v j fits_v (omega arith) in
            let missing' : read_literal_complete u (pre ++ (name ++ take j lit))
                  (pos (length pre + length name)) 7
                ≡ ok none =
              rw (← append_assoc pre name (take j lit), ← length-append pre name) missing in
            rw (take-append_right k name lit whole) (
              value_waits (pre ++ (name ++ take j lit)) t (length pre) (length name) n.1 first
                missing')
        | no part ↦
            rw (take-append_left k name lit (omega arith))
              (name_waits _ t _ (literal_missing pre 5 1 n k fits_n (omega arith)))
      ]
