-- ===== src/H3/Qpack/Dynamic/InsertCount.antt =====
-- The encoder sends the required insert count modulo twice the entries that the table can hold
-- (RFC 9204 section 4.5.1.1), and the decoder finds it again.
use hellojs.Common.{
  ℕ, zero, suc, ◌+◌, ◌-◌, ◌*◌, ◌/◌, ◌%◌, ◌≤◌, ◌<◌, ◌≡◌, refl, false, ap, ok, if◌then◌else◌, arith,
  ◌⊎◌, inl, inr, le→ltb, lt→ltb, dec_lt, ◌==◌,
}
use hellojs.Common.Signed.{pos, sub_ℕ_le, ◌-ℤ◌}
use hellojs.H3.Qpack.Dynamic.{decode_required_insert_count}
use native.Mathlib.Nat.{div-add-mod, mod-lt}

-- What the RFC has the encoder send.
abbrev pub encoded_count : ℕ → ℕ → ℕ
encoded_count max_entries ric = if ric == 0 then 0 else ric % (2 * max_entries) + 1

-- Two numbers less than `n` apart lie in the same block of `n` numbers or in neighbouring ones.
same_or_next :
    (n x y : ℕ) → 0 < n → x ≤ y → y < x + n → (x / n * n ≡ y / n * n) ⊎ (x / n * n + n ≡ y / n * n)
same_or_next n x y pos_n le lt =
    let a = x / n in
    let b = y / n in
    let split_x : n * a + x % n ≡ x = div-add-mod x n in
    let split_y : n * b + y % n ≡ y = div-add-mod y n in
    let low_x = mod-lt x pos_n in
    let low_y = mod-lt y pos_n in
    elim (dec_lt b a) [
      | yes above ↦ let wide : (b + 1) * n ≤ a * n = grind arith in absurd (omega arith)
      | no upto ↦ elim (dec_lt (a + 1) b) [
        | yes far ↦ let wide : (a + 2) * n ≤ b * n = grind arith in absurd (omega arith)
        | no near ↦ elim (dec_lt a b) [
          | yes one ↦ let e : b ≡ a + 1 = omega arith in inr (rw e (omega arith))
          | no same ↦ let e : a ≡ b = omega arith in inl (rw e)
        ]
      ]
    ]

pos_less : (x n : ℕ) → n ≤ x → pos x -ℤ pos n ≡ pos (x - n)
pos_less x zero h = ap pos (omega arith)
pos_less x (suc n) h =
    let e : n + 1 ≡ suc n = omega arith in rw (sub_ℕ_le x (n + 1) (omega arith), e)

-- A required insert count above the table's oldest possible entry and not further ahead than a full
-- table is decoded from what the encoder sends for it.
pub decode_required-encoded_count :
    (max_entries total ric : ℕ)
    → 0 < max_entries
    → ric ≤ total + max_entries
    → total < ric + max_entries
    → decode_required_insert_count (pos (encoded_count max_entries ric)) total max_entries
      ≡ ok (pos ric)
unfolding decode_required_insert_count
decode_required-encoded_count m total zero pos_m above below = refl
decode_required-encoded_count m total (suc r) pos_m above below =
    let ric = suc r in
    let full = 2 * m in
    let sent = ric % full + 1 in
    let split_ric : full * (ric / full) + ric % full ≡ ric = div-add-mod ric full in
    let wrapped = (total + m) / full * full in
    let nonzero : (suc r == 0) ≡ false = ground arith in
    let up : (ric % full + 1 ≡ suc (ric % full)) = omega arith in
    elim (same_or_next full ric (total + m) (omega arith) above (omega arith)) [
      | inl same ↦
          let value : wrapped + suc (ric % full) - (0 + 1) ≡ ric = omega arith in
          rw
            (
              nonzero,
              up,
              sub_ℕ_le (wrapped + suc (ric % full)) (0 + 1) (omega arith),
              value,
              lt→ltb ric (total + m + 1) (omega arith),
            )
            refl
      | inr after ↦
          let value : wrapped + suc (ric % full) - (0 + 1) ≡ ric + full = omega arith in
          let back : ric + full - full ≡ ric = omega arith in
          rw
            (
              nonzero,
              up,
              sub_ℕ_le (wrapped + suc (ric % full)) (0 + 1) (omega arith),
              value,
              le→ltb (ric + full) (total + m + 1) (omega arith),
              le→ltb (ric + full) full (omega arith),
              pos_less (ric + full) full (omega arith),
              back,
            )
            refl
    ]
