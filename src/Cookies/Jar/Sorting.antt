-- ===== src/Cookies/Jar/Sorting.antt =====
-- Counting cookies: sorting, filtering and cutting a list, as far as a count sees them.
use hellojs.Common.{
  ℕ, zero, suc, ◌≤◌, ◌≡◌, refl, ap, ◌∙◌, Bool, true, false, ◌&&◌, List, [], ◌∷◌, length, drop,
  arith, Bool-cases, inl, inr,
}
use hellojs.Cookies.Jar.{Cookie, insert_by, sort_by, filter}

abbrev pub bump : Bool → ℕ → ℕ
bump true n = suc n
bump false n = n

-- How many cookies of a list pass a test.
abbrev pub count : (Cookie → Bool) → List Cookie → ℕ
count q [] = 0
count q (c ∷ cs) = bump (q c) (count q cs)

bump_comm : (a b : Bool) (n : ℕ) → bump a (bump b n) ≡ bump b (bump a n)
bump_comm true true n = refl
bump_comm true false n = refl
bump_comm false true n = refl
bump_comm false false n = refl

pub bump_le : (a : Bool) (m n : ℕ) → m ≤ n → bump a m ≤ bump a n
bump_le true m n h = omega arith
bump_le false m n h = h

pub le_bump : (a : Bool) (n : ℕ) → n ≤ bump a n
le_bump true n = omega arith
le_bump false n = omega arith

count-insert_by :
    (before : Cookie → Cookie → Bool) (q : Cookie → Bool) (c : Cookie) (cs : List Cookie)
    → count q (insert_by before c cs) ≡ bump (q c) (count q cs)
unfolding insert_by
count-insert_by before q c [] = refl
count-insert_by before q c (d ∷ ds) = elim (Bool-cases (before c d)) [
  | inl t ↦ rw t refl
  | inr t ↦
      rw t (ap (bump (q d)) (count-insert_by before q c ds) ∙ bump_comm (q d) (q c) (count q ds))
]

-- Sorting loses and adds nothing.
pub count-sort_by :
    (before : Cookie → Cookie → Bool) (q : Cookie → Bool) (cs : List Cookie)
    → count q (sort_by before cs) ≡ count q cs
unfolding sort_by
count-sort_by before q [] = refl
count-sort_by before q (c ∷ cs) =
    count-insert_by before q c (sort_by before cs) ∙ ap (bump (q c)) (count-sort_by before q cs)

length-insert_by :
    (before : Cookie → Cookie → Bool) (c : Cookie) (cs : List Cookie)
    → length (insert_by before c cs) ≡ suc (length cs)
unfolding insert_by
length-insert_by before c [] = refl
length-insert_by before c (d ∷ ds) = elim (Bool-cases (before c d)) [
  | inl t ↦ rw t refl
  | inr t ↦ rw t (ap suc (length-insert_by before c ds))
]

pub length-sort_by :
    (before : Cookie → Cookie → Bool) (cs : List Cookie) → length (sort_by before cs) ≡ length cs
unfolding sort_by
length-sort_by before [] = refl
length-sort_by before (c ∷ cs) =
    length-insert_by before c (sort_by before cs) ∙ ap suc (length-sort_by before cs)

pub count-filter :
    (q test : Cookie → Bool) (cs : List Cookie)
    → count q (filter test cs) ≡ count (λ c. q c && test c) cs
unfolding filter
count-filter q test [] = refl
count-filter q test (c ∷ cs) = elim (Bool-cases (test c)) [
  | inl t ↦ elim (Bool-cases (q c)) [
    | inl p ↦ rw (t, p) (ap suc (count-filter q test cs))
    | inr p ↦ rw (t, p) (count-filter q test cs)
  ]
  | inr t ↦ elim (Bool-cases (q c)) [
    | inl p ↦ rw (t, p) (count-filter q test cs)
    | inr p ↦ rw (t, p) (count-filter q test cs)
  ]
]

pub count-drop : (n : ℕ) (q : Cookie → Bool) (cs : List Cookie) → count q (drop n cs) ≤ count q cs
count-drop zero q cs = omega arith
count-drop (suc n) q [] = omega arith
count-drop (suc n) q (c ∷ cs) = omega (arith, count-drop n q cs, le_bump (q c) (count q cs))
