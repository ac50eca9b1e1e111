-- ===== src/H2/Hpack/Codec/Safety.antt =====
-- `decode` on any block: it ends, its list stays within the limit, and the table stays valid.
use Prim.Native.Nat.{bit_and}
use hellojs.Common.{
  if◌then◌else◌, leb, ◌<◌, ℕ, zero, suc, ◌+◌, ◌≤◌, ◌≡◌, List, [], ◌∷◌, ok, ◌>>=◌, ◌==◌, drop,
  length, length-drop, arith, Bool-cases, Option-cases, inl, inr, ◌||◌,
}
use hellojs.Common.Bytes.{Bytes}
use hellojs.Common.Text.{Text, Strings}
use hellojs.H2.Hpack.Table.{Header, DynamicTable, lookup, cost, total_cost, IsValid}
use hellojs.H2.Hpack.Table.Eviction.{add-fit, set_capacity-fit}
use hellojs.H2.Hpack.Integers.{decode_int}
use hellojs.H2.Hpack.Integers.RoundTrip.{decode_int_pos}
use hellojs.H2.Hpack.Strings.{decode_string}
use hellojs.H2.Hpack.Strings.Outcome.{Post, Post-bind, Post-weaken, decode_string-Post}
use hellojs.H2.Hpack.Codec.{
  Field, nothing, found, unknown, read_name, read_literal, read_indexed, read_resize, read_field,
  grow, decode_from, decode,
}

drop_front : (n : ℕ) (b : ℕ) (bs : Bytes) → 1 ≤ n → length (drop n (b ∷ bs)) ≤ length bs
drop_front n b bs h = omega (arith, length-drop n (b ∷ bs))

abbrev pub Bounded : ℕ → ℕ → DynamicTable → List Header × DynamicTable → Type 0
Bounded max size t (headers, t') = (size + total_cost headers ≤ max) × (IsValid t → IsValid t')

-- A representation takes a byte at least, unless it ends the loop, and keeps the table valid.
abbrev Advances : Bytes → DynamicTable → Field × Bytes × DynamicTable → Type 0
Advances bs t (unknown, rest, t') = IsValid t → IsValid t'
Advances bs t (f, rest, t') = (length rest ≤ length bs) × (IsValid t → IsValid t')

module _ (u : Strings) where
  read_name-Post :
      (p b : ℕ) (bs : Bytes) (t : DynamicTable)
      → Post (λ (r : Text × Bytes). length r.1 ≤ length bs) (read_name u p (b ∷ bs) t)
  unfolding read_name
  read_name-Post p b bs t =
      let (idx, n) = decode_int (b ∷ bs) p in
      let rest = drop n (b ∷ bs) in
      let short = drop_front n b bs (decode_int_pos (b ∷ bs) p) in
      elim (Bool-cases (idx == 0)) [
        | inl z ↦ rw z (
            Post-bind (λ _. Unit {0}) _ (decode_string u rest) _ (decode_string-Post u rest)
              λ s _. omega (arith, length-drop s.1 rest))
        | inr nz ↦ elim (Option-cases (lookup t idx)) [
          | inl e ↦ rw (nz, e) short
          | inr (x, e) ↦ rw (nz, e) short
        ]
      ]

  read_literal-Post :
      (p b : ℕ) (bs : Bytes) (t : DynamicTable)
      → Post (λ (l : Header × Bytes). length l.1 ≤ length bs) (read_literal u p (b ∷ bs) t)
  unfolding read_literal
  read_literal-Post p b bs t =
      Post-bind (λ (r : Text × Bytes). length r.1 ≤ length bs) _ (read_name u p (b ∷ bs) t) _
        (read_name-Post p b bs t)
        λ r h.
          Post-bind (λ _. Unit {0}) _ (decode_string u r.1) _ (decode_string-Post u r.1)
            λ s _. omega (arith, length-drop s.1 r.1)

  read_indexed-Advances :
      (b : ℕ) (bs : Bytes) (t : DynamicTable) → Advances bs t (read_indexed (b ∷ bs) t)
  unfolding read_indexed
  read_indexed-Advances b bs t =
      let short = drop_front (decode_int (b ∷ bs) 7).1 b bs (decode_int_pos (b ∷ bs) 7) in
      elim (Option-cases (lookup t (decode_int (b ∷ bs) 7).0)) [
        | inl e ↦ rw (e, read_indexed, Advances) (short, λ v. v)
        | inr (x, e) ↦ rw (e, read_indexed, Advances) (short, λ v. v)
      ]

  read_resize-Advances :
      (b : ℕ) (bs : Bytes) (t : DynamicTable) → Advances bs t (read_resize (b ∷ bs) t)
  unfolding read_resize
  read_resize-Advances b bs t =
      let (cap, n) = decode_int (b ∷ bs) 5 in
      (drop_front n b bs (decode_int_pos (b ∷ bs) 5), λ v. (set_capacity-fit t cap v).1)

  read_field-Post :
      (b : ℕ) (bs : Bytes) (t : DynamicTable) → Post (Advances bs t) (read_field u (b ∷ bs) t)
  unfolding read_field
  read_field-Post b bs t = elim (Bool-cases (bit_and b 0x80 == 0x80)) [
    | inl c₁ ↦ rw c₁ (read_indexed-Advances b bs t)
    | inr c₁ ↦ elim (Bool-cases (bit_and b 0xc0 == 0x40)) [
      | inl c₂ ↦
          rw (c₁, c₂)
            (Post-bind (λ (l : Header × Bytes). length l.1 ≤ length bs) _ _ _
              (read_literal-Post 6 b bs t) λ l h. (h, λ v. (add-fit t l.0.0 l.0.1 v).1))
      | inr c₂ ↦ elim (Bool-cases (bit_and b 0xe0 == 0x20)) [
        | inl c₃ ↦ rw (c₁, c₂, c₃) (read_resize-Advances b bs t)
        | inr c₃ ↦ elim (Bool-cases (bit_and b 0xf0 == 0x00 || bit_and b 0xf0 == 0x10)) [
          | inl c₄ ↦
              rw (c₁, c₂, c₃, c₄)
                (Post-bind (λ (l : Header × Bytes). length l.1 ≤ length bs) _ _ _
                  (read_literal-Post 4 b bs t) λ l h. (h, λ v. v))
          | inr c₄ ↦ rw (c₁, c₂, c₃, c₄) (λ v. v)
        ]
      ]
    ]
  ]

  grow-Post :
      (max size : ℕ) (h : Header) → Post (λ s. (s ≡ size + cost h) × (s ≤ max)) (grow max size h)
  unfolding grow
  grow-Post max size h = ground arith

  decode_from-Post :
      (max fuel : ℕ) (buf : Bytes) (t : DynamicTable) (size : ℕ)
      → length buf ≤ fuel
      → size ≤ max
      → Post (Bounded max size t) (decode_from u max fuel buf t size)
  unfolding decode_from
  decode_from-Post max fuel [] t size h fits = (omega arith, λ v. v)
  decode_from-Post max zero (b ∷ bs) t size h fits = absurd (omega arith)
  decode_from-Post max (suc fuel) (b ∷ bs) t size h fits =
      let again = decode_from-Post max fuel in
      Post-bind (Advances bs t) (Bounded max size t) (read_field u (b ∷ bs) t) _
        (read_field-Post b bs t) (go again)
    where
      go :
          ((buf : Bytes) (t : DynamicTable) (size : ℕ)
            → length buf ≤ fuel
            → size ≤ max
            → Post (Bounded max size t) (decode_from u max fuel buf t size))
          → (r : Field × Bytes × DynamicTable) → Advances bs t r
          → Post (Bounded max size t) (elim r.0 [
            | nothing ↦ decode_from u max fuel r.1 r.2 size
            | found x ↦ grow max size x >>= λ s.
                decode_from u max fuel r.1 r.2 s >>= λ rest. ok (x ∷ rest.0, rest.1)
            | unknown ↦ ok ([], r.2)
          ])
      go again (nothing, rest, t') (short, keeps) =
          Post-weaken (Bounded max size t') (Bounded max size t) _
            (again rest t' size (omega arith) fits) λ r p. (p.0, λ v. p.1 (keeps v))
      go again (found x, rest, t') (short, keeps) =
          Post-bind (λ s. (s ≡ size + cost x) × (s ≤ max)) (Bounded max size t) (grow max size x) _
            (grow-Post max size x)
            λ s g.
              Post-bind (Bounded max s t') (Bounded max size t) (decode_from u max fuel rest t' s) _
                (again rest t' s (omega arith) g.1) λ r p. (omega arith, λ v. p.1 (keeps v))
      go again (unknown, rest, t') keeps = (omega arith, keeps)

  -- No integer of the block has so many bytes that the source's double is no number: fewer than 147
  -- with the top bit set follow each other, `k` of which came before.
  abbrev pub HasShortRuns : ℕ → Bytes → Type 0
  HasShortRuns k [] = Unit {0}
  HasShortRuns k (b ∷ bs) =
      let k' = if leb 128 b then suc k else 0 in (k' < 147) × HasShortRuns k' bs

  -- The decoder ends on every block without 147 bytes in a row whose top bit is set: its loop never
  -- runs out of rounds. What it returns has at most the size it was given as limit, each header
  -- counted as its two lengths and 32, and its table has its size field right and within the
  -- capacity if it was so before.
  pub decode-Bounded :
      (buf : Bytes) (t : DynamicTable) (max : ℕ)
      → HasShortRuns 0 buf
      → Post (Bounded max 0 t) (decode u buf t max)
  unfolding decode
  decode-Bounded buf t max runs =
      decode_from-Post max (length buf) buf t 0 (omega arith) (omega arith)
