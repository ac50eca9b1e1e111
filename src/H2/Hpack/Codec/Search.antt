-- ===== src/H2/Hpack/Codec/Search.antt =====
-- An index that the encoder finds leads `lookup` back to the header, or to its name.
use hellojs.Common.{
  ℕ, suc, ◌+◌, ◌-◌, ◌≤◌, ◌<◌, ◌≡◌, refl, ◌∙◌, Bool, true, List, [], ◌∷◌, some, le→leb, lt→leb,
  length, get_elem?, arith, Option-cases, Bool-cases, inl, inr,
}
use hellojs.Common.Text.{Text, text_eq→eq}
use hellojs.H2.Hpack.Static.{static_table}
use hellojs.H2.Hpack.Table.{Header, DynamicTable, static_len, lookup}
use hellojs.H2.Hpack.Codec.{
  Match, exact, name_only, missing, find_index, same_header, same_name, find_in_tables,
}

abbrev Finds : (Header → Bool) → ℕ → List Header → ℕ → Type 0
Finds test i es k =
    (e : Header) × (get_elem? es (k - i) ≡ some e) × (test e ≡ true) × (i ≤ k) × (k < i + length es)

find_index-Finds :
    (test : Header → Bool) (i : ℕ) (es : List Header) (k : ℕ)
    → find_index test i es ≡ some k
    → Finds test i es k
unfolding find_index
find_index-Finds test i [] k h = cc
find_index-Finds test i (e ∷ es) k h = elim (Bool-cases (test e)) [
  | inl hit ↦
      let same : i ≡ k = ground (arith, hit) in
      let at : k - i ≡ 0 = omega arith in (e, rw at, hit, omega arith, omega arith)
  | inr miss ↦
      let (f, at, good, lo, hi) = find_index-Finds test (i + 1) es k (ground (arith, miss)) in
      let back : k - i ≡ suc (k - (i + 1)) = omega arith in
      (f, rw back at, good, omega arith, omega arith)
]

static_table_length : length static_table ≡ static_len
unfolding static_table
static_table_length = refl

lookup_static :
    (t : DynamicTable) (test : Header → Bool) (k : ℕ)
    → find_index test 1 static_table ≡ some k
    → (e : Header) × (lookup t k ≡ some e) × (test e ≡ true) × (1 ≤ k)
unfolding lookup
lookup_static t test k h =
    let (e, at, good, lo, hi) = find_index-Finds test 1 static_table k h in
    let size = static_table_length in
    (e, rw (le→leb 1 k lo, le→leb k static_len (omega arith)) at, good, lo)

lookup_dynamic :
    (t : DynamicTable) (test : Header → Bool) (k : ℕ)
    → find_index test (static_len + 1) t.entries ≡ some k
    → (e : Header) × (lookup t k ≡ some e) × (test e ≡ true) × (1 ≤ k)
unfolding lookup
lookup_dynamic t test k h =
    let (e, at, good, lo, hi) = find_index-Finds test (static_len + 1) t.entries k h in
    let same : k - static_len - 1 ≡ k - (static_len + 1) = omega arith in
    (
      e,
      rw
          (
            le→leb 1 k (omega arith),
            lt→leb static_len k (omega arith),
            le→leb (static_len + 1) k lo,
            same,
          )
          at,
      good,
      omega arith,
    )

-- What a match of `findInTables` is worth to the decoder that holds the same table.
abbrev pub Leads : Text → Text → DynamicTable → Match → Type 0
Leads name value t (exact i) = (lookup t i ≡ some (name, value)) × (1 ≤ i)
Leads name value t (name_only i) = (v : Text) × (lookup t i ≡ some (name, v)) × (1 ≤ i)
Leads name value t missing = Unit {0}

exact-Leads :
    (name value : Text) (t : DynamicTable) (i : ℕ)
    → ((e : Header) × (lookup t i ≡ some e) × (same_header name value e ≡ true) × (1 ≤ i))
    → Leads name value t (exact i)
exact-Leads name value t i ((n, v), at, good, lo) =
    let same_n : n ≡ name = text_eq→eq n name (ground arith) in
    let same_v : v ≡ value = text_eq→eq v value (ground arith) in (at ∙ rw (same_n, same_v), lo)

name-Leads :
    (name value : Text) (t : DynamicTable) (i : ℕ)
    → ((e : Header) × (lookup t i ≡ some e) × (same_name name e ≡ true) × (1 ≤ i))
    → Leads name value t (name_only i)
name-Leads name value t i ((n, v), at, good, lo) =
    let same_n : n ≡ name = text_eq→eq n name good in (v, at ∙ rw same_n, lo)

-- An exact match of `findInTables` is an index at which `lookup` finds the header itself, and a match
-- of the name alone is one at which it finds the name; no index is 0.
pub find_in_tables-Leads :
    (name value : Text) (t : DynamicTable) → Leads name value t (find_in_tables name value t)
unfolding find_in_tables find_index static_table
find_in_tables-Leads name value t =
    let first = find_index (same_header name value) 1 static_table in
    let second = find_index (same_header name value) (static_len + 1) t.entries in
    let third = find_index (same_name name) 1 static_table in
    let fourth = find_index (same_name name) (static_len + 1) t.entries in
    elim (Option-cases first) [
      | inr (i, e) ↦ rw e (exact-Leads name value t i (lookup_static t _ i e))
      | inl e₁ ↦ elim (Option-cases second) [
        | inr (i, e) ↦ rw (e₁, e) (exact-Leads name value t i (lookup_dynamic t _ i e))
        | inl e₂ ↦ elim (Option-cases third) [
          | inr (i, e) ↦ rw (e₁, e₂, e) (name-Leads name value t i (lookup_static t _ i e))
          | inl e₃ ↦ elim (Option-cases fourth) [
            | inr (i, e) ↦ rw (e₁, e₂, e₃, e) (name-Leads name value t i (lookup_dynamic t _ i e))
            | inl e₄ ↦ rw (e₁, e₂, e₃, e₄) tt
          ]
        ]
      ]
    ]
