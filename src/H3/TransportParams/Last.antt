-- ===== src/H3/TransportParams/Last.antt =====
-- What `decode` of lib/h3/transport-params.js has for an id: what the last parameter with it says.
use hellojs.Common.{
  ℕ, ◌≡◌, refl, ap, ◌∙◌, sym, subst, Bool, true, false, ◌||◌, List, [], ◌∷◌, ◌++◌, map, Option,
  none, some, ok, if◌then◌else◌, leb, lt→ltb, ◌==◌, ==_iff, length, length-append, All, arith,
  Bool-cases, inl, inr,
}
use hellojs.Common.Bytes.{Bytes}
use hellojs.H3.Varint.{Value, number, bigint, pos, narrow, encode, max_safe_integer}
use hellojs.H3.Varint.Prefix.{narrow-number, narrow-bigint}
use hellojs.H3.Packet.Frames.{from_varint}
use hellojs.H3.Packet.Written.{field-encode}
use hellojs.H3.TransportParams.{
  Param, numeric, raw, concat_all, is_numeric, read_value, same_id, set_param, decode,
}
use hellojs.H3.TransportParams.RoundTrip.{
  write_one, collect_params, IsShort, encode_pos, decode-concat_all,
}

-- The ids whose values are integers: max_datagram_frame_size, max_idle_timeout, initial_max_data,
-- initial_max_streams_bidi and _uni, active_connection_id_limit.
abbrev pub integer_ids : List ℕ
integer_ids = 0x20 ∷ 0x01 ∷ 0x04 ∷ 0x08 ∷ 0x09 ∷ 0x0e ∷ []

abbrev pub has_id : ℕ → List ℕ → Bool
has_id n [] = false
has_id n (i ∷ is) = n == i || has_id n is

-- What the bytes of a parameter say.
pub data Says : ℕ → Bytes → Param → Type 0 where
  bytes : (n : ℕ) (b : Bytes) → has_id n integer_ids ≡ false → Says n b (raw b)
  nothing : (n : ℕ) → has_id n integer_ids ≡ true → Says n [] (numeric (number 0))
  integer :
      (n v : ℕ) (w rest : Bytes)
      → has_id n integer_ids ≡ true
      → from_varint (encode (pos v)) ≡ ok w
      → Says n (w ++ rest) (numeric (narrow v))

pub record Item : Type 0 where
  pub id : ℕ
  pub value : Bytes
  pub param : Param
  pub says : Says id value param

abbrev pub written : Item → ℕ × Bytes
written i = (i.id, i.value)

abbrev pub value_of : ℕ → List (Value × Param) → Option Param
value_of n [] = none
value_of n ((i, p) ∷ rest) = if same_id i (narrow n) then some p else value_of n rest

-- The last of the parameters with an id.
abbrev pub last_of : ℕ → List Item → Option Param → Option Param
last_of n [] o = o
last_of n (i ∷ is) o = last_of n is (if i.id == n then some i.param else o)

or_false : (a : Bool) → (a || false) ≡ a
or_false true = refl
or_false false = refl

is_numeric-narrow : (n : ℕ) → is_numeric (narrow n) ≡ has_id n integer_ids
unfolding is_numeric
is_numeric-narrow n = elim (Bool-cases (leb n max_safe_integer)) [
  | inl small ↦ rw (narrow-number n (ground (arith, small))) (rw (or_false (n == 0x0e)) refl)
  | inr big ↦ rw (narrow-bigint n big) (ground arith)
]

read_value-Says : (n : ℕ) (b : Bytes) (p : Param) → Says n b p → read_value (narrow n) b ≡ ok p
unfolding read_value
read_value-Says _ _ _ (bytes n b opaque) = rw (read_value, is_numeric-narrow n, opaque) refl
read_value-Says _ _ _ (nothing n numeric_id) = rw (read_value, is_numeric-narrow n, numeric_id) refl
read_value-Says _ _ _ (integer n v w rest numeric_id e) =
    let some_byte = encode_pos v w e in
    let size = length-append w rest in
    let longer = lt→ltb 0 (length (w ++ rest)) (omega arith) in
    rw (read_value, is_numeric-narrow n, numeric_id, longer, field-encode v w rest e) refl

same_id_refl : (a : Value) → same_id a a ≡ true
unfolding same_id
same_id_refl (number m) = ground (arith, ==_iff m m)
same_id_refl (bigint m) = ground (arith, ==_iff m m)

same_id-eq : (a b : Value) → same_id a b ≡ true → a ≡ b
unfolding same_id
same_id-eq (number m) (number n) e = ap number (ground (arith, e, ==_iff m n))
same_id-eq (bigint m) (bigint n) e = ap bigint (ground (arith, e, ==_iff m n))
same_id-eq (number m) (bigint n) e = cc
same_id-eq (bigint m) (number n) e = cc

-- Two ids are two keys.
same_id-narrow : (m n : ℕ) → same_id (narrow m) (narrow n) ≡ (m == n)
unfolding same_id
same_id-narrow m n = elim (Bool-cases (leb m max_safe_integer)) [
  | inl small ↦ elim (Bool-cases (leb n max_safe_integer)) [
    | inl small' ↦
        rw (narrow-number m (ground (arith, small)), narrow-number n (ground (arith, small'))) refl
    | inr big ↦
        rw (narrow-number m (ground (arith, small)), narrow-bigint n big)
          (ground (arith, small, big, ==_iff m n))
  ]
  | inr big ↦ elim (Bool-cases (leb n max_safe_integer)) [
    | inl small ↦
        rw (narrow-bigint m big, narrow-number n (ground (arith, small)))
          (ground (arith, small, big, ==_iff m n))
    | inr big' ↦ rw (narrow-bigint m big, narrow-bigint n big') refl
  ]
]

value_of-set_param :
    (n : ℕ) (id : Value) (p : Param) (out : List (Value × Param))
    → value_of n (set_param id p out) ≡ (if same_id id (narrow n) then some p else value_of n out)
unfolding set_param
value_of-set_param n id p [] = refl
value_of-set_param n id p ((i, q) ∷ rest) = elim (Bool-cases (same_id i id)) [
  | inl same ↦
      let one : same_id i (narrow n) ≡ same_id id (narrow n) =
        ap (λ v. same_id v (narrow n)) (same_id-eq i id same) in
      elim (Bool-cases (same_id id (narrow n))) [
        | inl named ↦ rw (same, one, named) refl
        | inr other ↦ rw (same, one, other) refl
      ]
  | inr differ ↦ elim (Bool-cases (same_id i (narrow n))) [
    | inr other ↦ rw (differ, other) (value_of-set_param n id p rest)
    | inl named ↦ elim (Bool-cases (same_id id (narrow n))) [
      | inr other ↦ rw (differ, named, other) refl
      | inl too ↦
          let clash : same_id i id ≡ true =
            subst (λ v. same_id i v ≡ true)
              (same_id-eq i (narrow n) named ∙ sym (same_id-eq id (narrow n) too))
              (same_id_refl i) in
          cc
    ]
  ]
]

collect_params-last_of :
    (items : List Item) (out : List (Value × Param))
    → (out' : List (Value × Param)) × (collect_params (map written items) out ≡ ok out')
      × ((n : ℕ) → value_of n out' ≡ last_of n items (value_of n out))
collect_params-last_of [] out = (out, refl, λ n. refl)
collect_params-last_of (i ∷ is) out =
    let (out', got, last) = collect_params-last_of is (set_param (narrow i.id) i.param out) in
    (
      out',
      rw (read_value-Says i.id i.value i.param i.says) got,
      λ n.
          last n
          ∙ ap (last_of n is) (
              value_of-set_param n (narrow i.id) i.param out
              ∙ ap (λ b. if b then some i.param else value_of n out) (same_id-narrow i.id n)),
    )

-- A block of parameters that `tpOpaque` wrote one behind the other is decoded, if each is shorter than
-- 2^53 bytes and the value of an id of an integer is empty or begins with an integer. Each id then has
-- what the last parameter with it says, 0 for an empty one: an integer as a Number up to 2^53 - 1 and
-- a BigInt above, and else the bytes; an id that no parameter has has nothing.
pub decode-last_of :
    (items : List Item) (block : Bytes)
    → All IsShort (map written items)
    → concat_all (map write_one (map written items)) ≡ ok block
    → (out : List (Value × Param)) × (decode block ≡ ok out)
      × ((n : ℕ) → value_of n out ≡ last_of n items none)
decode-last_of items block short e =
    let (out, got, last) = collect_params-last_of items [] in
    (out, decode-concat_all (map written items) block short e ∙ got, last)
