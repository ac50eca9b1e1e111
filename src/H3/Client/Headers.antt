-- ===== src/H3/Client/Headers.antt =====
-- The headers of a response as an object: `respHeaders[n] = v` in lib/h3/h3.js.
use hellojs.Common.{
  ◌≡◌, refl, ap, ◌∙◌, sym, subst, true, false, List, [], ◌∷◌, Option, none, some, if◌then◌else◌,
  Bool-cases, inl, inr,
}
use hellojs.Common.Text.{Text, text, text_eq, text_eq→eq, text_eq_refl}
use hellojs.H2.Hpack.Table.{Header}
use hellojs.H3.Client.{put_header, set_header, set_all}

abbrev pub value_of : Text → List Header → Option Text
value_of n [] = none
value_of n (g ∷ gs) = if text_eq g.0 n then some g.1 else value_of n gs

-- The value of the last header of a name.
abbrev pub last_of : Text → List Header → Option Text → Option Text
last_of n [] o = o
last_of n (h ∷ hs) o = last_of n hs (if text_eq h.0 n then some h.1 else o)

both_names : (a b n : Text) → text_eq a n ≡ true → text_eq b n ≡ true → text_eq a b ≡ true
both_names a b n e e' =
    let same : a ≡ b = text_eq→eq a n e ∙ sym (text_eq→eq b n e') in
    subst (λ t. text_eq a t ≡ true) same (text_eq_refl a)

same_name : (a b n : Text) → text_eq a b ≡ true → text_eq a n ≡ text_eq b n
same_name a b n e = ap (λ t. text_eq t n) (text_eq→eq a b e)

value_of-put_header :
    (n : Text) (h : Header) (hs : List Header)
    → value_of n (put_header h hs) ≡ (if text_eq h.0 n then some h.1 else value_of n hs)
unfolding put_header
value_of-put_header n h [] = refl
value_of-put_header n h (g ∷ gs) = elim (Bool-cases (text_eq g.0 h.0)) [
  | inl same ↦ elim (Bool-cases (text_eq h.0 n)) [
    | inl named ↦ rw (same, named) refl
    | inr other ↦ rw (same, same_name g.0 h.0 n same, other) refl
  ]
  | inr differ ↦ elim (Bool-cases (text_eq g.0 n)) [
    | inr other ↦ rw (differ, other) (value_of-put_header n h gs)
    | inl named ↦ elim (Bool-cases (text_eq h.0 n)) [
      | inr other ↦ rw (differ, named, other) refl
      | inl too ↦ let clash : text_eq g.0 h.0 ≡ true = both_names g.0 h.0 n named too in cc
    ]
  ]
]

value_of-set_header :
    (n : Text) (h : Header) (hs : List Header)
    → text_eq n (text "__proto__") ≡ false
    → value_of n (set_header h hs) ≡ (if text_eq h.0 n then some h.1 else value_of n hs)
unfolding set_header
value_of-set_header n h hs plain = elim (Bool-cases (text_eq h.0 (text "__proto__"))) [
  | inr usual ↦ rw usual (value_of-put_header n h hs)
  | inl proto ↦ elim (Bool-cases (text_eq h.0 n)) [
    | inr other ↦ rw (proto, other) refl
    | inl named ↦
        let clash : text_eq n (text "__proto__") ≡ true =
          sym (same_name h.0 n (text "__proto__") named) ∙ proto in
        cc
  ]
]

pub value_of-set_all :
    (n : Text) (hs into : List Header)
    → text_eq n (text "__proto__") ≡ false
    → value_of n (set_all hs into) ≡ last_of n hs (value_of n into)
unfolding set_all
value_of-set_all n [] into plain = refl
value_of-set_all n (h ∷ hs) into plain =
    value_of-set_all n hs (set_header h into) plain
    ∙ ap (last_of n hs) (value_of-set_header n h into plain)
