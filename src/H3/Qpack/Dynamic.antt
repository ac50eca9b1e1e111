-- ===== src/H3/Qpack/Dynamic.antt =====
-- `decodeRequiredInsertCount` and `decodeHeadersWithTable` of lib/h3/qpack.js.
pub mod InsertCount
use Prim.Native.Nat.{bit_and}
use hellojs.Common.{
  ℕ, zero, suc, ◌+◌, ◌-◌, ◌*◌, ◌/◌, ◌^◌, not, Bool, true, false, ◌&&◌, List, Option, none, some,
  Result, ok, err, ◌>>=◌, if◌then◌else◌, ltb, ◌==◌, length,
}
use hellojs.Common.Bytes.{Bytes, byte_at}
use hellojs.Common.Signed.{ℤ, pos, negsuc, ◌+ℤ◌, ◌-ℤ◌, lt_ℕ, elem_at, from}
use hellojs.Common.Text.{Strings}
use hellojs.H2.Hpack.Table.{Header}
use hellojs.H3.Qpack.Static.{static_table}
use hellojs.H3.Qpack.Integers.{decode_int}
use hellojs.H3.Qpack.Table.{DynamicTable, get_relative, get_post_base}
use hellojs.H3.Qpack.Decode.{
  Error, invalid_required_insert_count, Step, next, stop, rounds, read_literal, read_named,
}

abbrev pub is_zero : ℤ → Bool
is_zero (pos zero) = true
is_zero (pos (suc n)) = false
is_zero (negsuc n) = false

-- `a > n`.
abbrev pub gt_ℕ : ℤ → ℕ → Bool
gt_ℕ a n = not (lt_ℕ a (n + 1))

-- For `max_entries` above 0, as the caller sees to; 0 would divide by 0.
unfoldable pub decode_required_insert_count : ℤ → ℕ → ℕ → Result Error ℤ
decode_required_insert_count encoded_ric total_inserted max_entries =
    let full_range = 2 * max_entries in
    let max_value = total_inserted + max_entries in
    let max_wrapped = max_value / full_range * full_range in
    let ric = pos max_wrapped +ℤ encoded_ric -ℤ pos 1 in
    if is_zero encoded_ric
    then ok (pos 0)
    else if gt_ℕ ric max_value
    then (if lt_ℕ ric full_range
        then err invalid_required_insert_count
        else ok (ric -ℤ pos full_range))
    else ok ric

-- `table && ...`
abbrev pub of_table : Option DynamicTable → (DynamicTable → Option Header) → Option Header
of_table none look = none
of_table (some t) look = look t

abbrev pub required_of : Option DynamicTable → ℤ → ℕ → Result Error ℤ
required_of none encoded max_entries = ok (pos 0)
required_of (some t) encoded max_entries =
    if ltb 0 max_entries
    then decode_required_insert_count encoded t.total_inserted max_entries
    else ok (pos 0)

module _ (u : Strings) (buf : Bytes) (table : Option DynamicTable) where
  -- The body of the loop: one field line at `off`, relative to `base`.
  unfoldable pub table_step : ℤ → ℤ → Result Error Step
  table_step base off =
      let here = from buf off in
      let b = byte_at here 0 in
      let (idx_6, n_6) = decode_int here 6 in
      let (idx_4, n_4) = decode_int here 4 in
      let (idx_3, n_3) = decode_int here 3 in
      let relative = λ (idx : ℤ). of_table table (λ t. get_relative t base idx) in
      let post_base = λ (idx : ℤ). of_table table (λ t. get_post_base t base idx) in
      if bit_and b 0x80 == 0x80
      then ok (
          next (if not (bit_and b 0x40 == 0) then elem_at static_table idx_6 else relative idx_6)
            (off +ℤ pos n_6))
      else if bit_and b 0xf0 == 0x10
      then ok (next (post_base idx_4) (off +ℤ pos n_4))
      else if bit_and b 0xc0 == 0x40
      then read_named u buf
          (if not (bit_and b 0x10 == 0) then elem_at static_table idx_4 else relative idx_4) off n_4
      else if bit_and b 0xf0 == 0x00
      then read_named u buf (post_base idx_3) off n_3
      else if bit_and b 0xe0 == 0x20
      then read_literal u buf off
      else ok stop

  unfoldable pub decode_headers_with_table : ℕ → ℕ → Result Error (List Header)
  decode_headers_with_table max_entries fuel =
      let (encoded_ric, n) = decode_int (from buf (pos 0)) 8 in
      let here = from buf (pos n) in
      let base_sign = not (bit_and (byte_at here 0) 0x80 == 0) in
      let (delta, k) = decode_int here 7 in
      required_of table encoded_ric max_entries >>= λ ric.
      rounds (table_step (if base_sign then ric -ℤ delta -ℤ pos 1 else ric +ℤ delta)) (length buf)
        fuel (pos (n + k))
