-- ===== src/H3/Qpack/Encode/Search.antt =====
-- An index that `findStatic` gives is the header's, or its name's.
use hellojs.Common.{
  ℕ, zero, suc, ◌+◌, ◌<◌, ◌≡◌, refl, ◌∙◌, List, [], ◌∷◌, Option, none, some, length, get_elem?,
  drop, arith, Bool-cases, inl, inr,
}
use hellojs.Common.Text.{Text, text_eq, text_eq→eq}
use hellojs.H2.Hpack.Table.{Header}
use hellojs.H3.Qpack.Static.{static_table}
use hellojs.H3.Qpack.Encode.{Match, exact, name_only, missing, first_index, find_from, find_static}

-- What a match is worth to whoever holds the table.
abbrev LeadsIn : List Header → Text → Text → Match → Type 0
LeadsIn all name value (exact i) = (get_elem? all i ≡ some (name, value)) × (i < length all)
LeadsIn all name value (name_only i) =
    (v : Text) × (get_elem? all i ≡ some (name, v)) × (i < length all)
LeadsIn all name value missing = Unit {0}

abbrev Known : List Header → Text → Option ℕ → Type 0
Known all name none = Unit {0}
Known all name (some k) = (v : Text) × (get_elem? all k ≡ some (name, v)) × (k < length all)

at_drop {ℓ} :
    {A : Type ℓ} (all : List A) (i : ℕ) (x : A) (xs : List A)
    → drop i all ≡ x ∷ xs
    → (get_elem? all i ≡ some x) × (i < length all) × (drop (i + 1) all ≡ xs)
at_drop [] zero x xs e = cc
at_drop [] (suc i) x xs e = cc
at_drop (y ∷ all) zero x xs e = (cc, omega arith, cc)
at_drop (y ∷ all) (suc i) x xs e =
    let (a, b, c) = at_drop all i x xs e in
    let up : suc i + 1 ≡ suc (i + 1) = omega arith in (a, omega arith, rw up c)

first_index-Known :
    (all : List Header) (name v : Text) (k : Option ℕ) (i : ℕ)
    → Known all name k
    → get_elem? all i ≡ some (name, v)
    → i < length all
    → Known all name (first_index k i)
first_index-Known all name v none i known e h = (v, e, h)
first_index-Known all name v (some k) i known e h = known

find_from-Leads :
    (all : List Header) (name value : Text) (es : List Header) (i : ℕ) (k : Option ℕ)
    → drop i all ≡ es
    → Known all name k
    → LeadsIn all name value (find_from name value es i k)
unfolding find_from
find_from-Leads all name value [] i none e known = tt
find_from-Leads all name value [] i (some k) e known = known
find_from-Leads all name value ((n, v) ∷ es) i k e known =
    let (at, lt, next) = at_drop all i (n, v) es e in
    elim (Bool-cases (text_eq n name)) [
      | inr other ↦ rw other (find_from-Leads all name value es (i + 1) k next known)
      | inl same ↦
          let same_n : n ≡ name = text_eq→eq n name same in
          let found : get_elem? all i ≡ some (name, v) = at ∙ rw same_n in
          elim (Bool-cases (text_eq v value)) [
            | inl equal ↦
                let same_v : v ≡ value = text_eq→eq v value equal in
                rw (same, equal) (found ∙ rw same_v, lt)
            | inr differ ↦
                rw (same, differ)
                  (find_from-Leads all name value es (i + 1) (first_index k i) next
                    (first_index-Known all name v k i known found lt))
          ]
    ]

abbrev pub Leads : Text → Text → Match → Type 0
Leads = LeadsIn static_table

pub find_static-Leads : (name value : Text) → Leads name value (find_static name value)
unfolding find_static
find_static-Leads name value = find_from-Leads static_table name value static_table 0 none refl tt

pub static_table_length : length static_table ≡ 99
unfolding static_table
static_table_length = refl
