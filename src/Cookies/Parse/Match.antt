-- ===== src/Cookies/Parse/Match.antt =====
-- What a match of a domain and of a path says.
use mathlib.Core.List.{reverse-append, reverse-reverse}
use hellojs.Common.{
  ◌≡◌, refl, ap, ◌∙◌, sym, ◌⊎◌, inl, inr, true, false, [], ◌∷◌, ◌++◌, reverse, append_assoc, ◌==◌,
  arith, Bool-cases,
}
use hellojs.Common.Text.{Text, text, text_eq, text_eq→eq, Strings}
use hellojs.Cookies.Parse.{starts_with, ends_with, is_ip, without_dot, domain_match, path_match}

starts_with_front : (s p : Text) → starts_with s p ≡ true → (r : Text) × (s ≡ p ++ r)
unfolding starts_with
starts_with_front s [] h = (s, refl)
starts_with_front [] (c ∷ p) h = cc
starts_with_front (x ∷ s) (c ∷ p) h = elim (Bool-cases (x == c)) [
  | inl t ↦
      let h' = rw t at h in
      let (r, e) = starts_with_front s p h' in
      let same : x ≡ c = ground arith in (r, ap (◌∷◌ x) e ∙ ap (λ z. z ∷ (p ++ r)) same)
  | inr t ↦ cc (rw t at h)
]

ends_with_back : (s p : Text) → ends_with s p ≡ true → (r : Text) × (s ≡ r ++ p)
unfolding ends_with
ends_with_back s p h =
    let (r, e) = starts_with_front (reverse s) (reverse p) h in
    (
      reverse r,
      sym (reverse-reverse s)
          ∙ ap reverse e
          ∙ reverse-append (reverse p) r
          ∙ ap (λ z. reverse r ++ z) (reverse-reverse p),
    )

-- A cookie's domain matches a host only if, in lower case and without a dot in front, it is the host,
-- or the host is a name and not an address, and ends in a dot and the domain.
pub domain_match-host :
    (u : Strings) (cookie_domain hostname : Text)
    → domain_match u cookie_domain hostname ≡ true
    → let h = u.to_lower_case hostname in
      let d = without_dot (u.to_lower_case cookie_domain) in
      (h ≡ d) ⊎ ((is_ip h ≡ false) × (front : Text) × (h ≡ front ++ (b'.' ∷ d)))
unfolding domain_match
domain_match-host u cookie_domain hostname m =
    let h = u.to_lower_case hostname in
    let d = without_dot (u.to_lower_case cookie_domain) in
    elim (Bool-cases (text_eq h d)) [
      | inl t ↦ inl (text_eq→eq h d t)
      | inr t ↦ elim (Bool-cases (is_ip h)) [
        | inl p ↦ cc (rw (t, p) at m)
        | inr p ↦
            let back = rw (t, p) at m in
            let (front, e) = ends_with_back h (b'.' ∷ d) back in inr (p, front, e)
      ]
    ]

-- A cookie's path matches a request's only if it is the same, or the request's path goes on behind
-- it at a slash: one that the cookie's path ends in, or one that follows it.
pub path_match-request :
    (cookie_path request_path : Text)
    → path_match cookie_path request_path ≡ true
    → (cookie_path ≡ request_path)
      ⊎ ((front rest : Text) × (request_path ≡ front ++ (b'/' ∷ rest))
          × ((cookie_path ≡ front) ⊎ (cookie_path ≡ front ++ (b'/' ∷ []))))
unfolding path_match
path_match-request c r m = elim (Bool-cases (text_eq c r)) [
  | inl t ↦ inl (text_eq→eq c r t)
  | inr t ↦ elim (Bool-cases (ends_with c (text "/"))) [
    | inl slash ↦
        let m' = rw (t, slash) at m in
        let (front, e) = ends_with_back c (text "/") slash in
        let (rest, e') = starts_with_front r c m' in
        inr (front, rest, e' ∙ ap (λ z. z ++ rest) e ∙ append_assoc front (text "/") rest, inr e)
    | inr plain ↦ elim (Bool-cases (starts_with r (c ++ text "/"))) [
      | inl s ↦
          let (rest, e') = starts_with_front r (c ++ text "/") s in
          inr (c, rest, e' ∙ append_assoc c (text "/") rest, inl refl)
      | inr s ↦ cc (rw (t, plain, s) at m)
    ]
  ]
]
