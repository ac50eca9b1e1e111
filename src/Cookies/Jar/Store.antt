-- ===== src/Cookies/Jar/Store.antt =====
-- What `setCookie` keeps true of the jar: one cookie for each name, domain and path, and the bound.
use hellojs.Common.{
  ℕ, ◌-◌, ◌≤◌, ◌≡◌, refl, ap, subst, Bool, true, false, not, ◌&&◌, ◌||◌, List, [], ◌∷◌, none, some,
  if◌then◌else◌, ltb, ◌==◌, length, length-drop, arith, Bool-cases, inl, inr,
}
use hellojs.Common.Text.{Text, text, text_eq, text_eq→eq, text_eq_refl, Strings}
use hellojs.Cookies.Parse.{SetCookie, parse_set_cookie, domain_match, without_dot, get_attr}
use hellojs.Cookies.Jar.{
  Cookie, Jar, Request, Clock, same_key, find_cookie, put_cookie, remove_cookie, is_expired,
  by_creation, sort_by, store_entry, store_parsed, store_all, set_cookie, entry_of, or_empty,
}
use hellojs.Cookies.Jar.Sorting.{
  bump, bump_le, le_bump, count, count-sort_by, length-sort_by, count-drop,
}

-- At most one cookie has a given name, domain and path.
abbrev pub IsKeyed : List Cookie → Type 0
IsKeyed cs = (n d p : Text) → count (same_key n d p) cs ≤ 1

same_key_refl : (e : Cookie) → same_key e.name e.domain e.path e ≡ true
unfolding same_key
same_key_refl e = rw (text_eq_refl e.name, text_eq_refl e.domain, text_eq_refl e.path) refl

same_key-eq :
    (n d p : Text) (c : Cookie)
    → same_key n d p c ≡ true
    → (c.name ≡ n) × (c.domain ≡ d) × (c.path ≡ p)
unfolding same_key
same_key-eq n d p c e = (
  text_eq→eq c.name n (ground arith),
  text_eq→eq c.domain d (ground arith),
  text_eq→eq c.path p (ground arith),
)

-- Two cookies of one key pass the same test on keys.
same_key-cong :
    (n d p : Text) (c e : Cookie)
    → same_key e.name e.domain e.path c ≡ true
    → same_key n d p c ≡ same_key n d p e
unfolding same_key
same_key-cong n d p c e h =
    let (en, ed, ep) = same_key-eq e.name e.domain e.path c h in rw (en, ed, ep) refl

count-put_cookie :
    (n d p : Text) (e : Cookie) (cs : List Cookie)
    → same_key n d p e ≡ false
    → count (same_key n d p) (put_cookie (same_key e.name e.domain e.path) e cs)
      ≡ count (same_key n d p) cs
unfolding put_cookie
count-put_cookie n d p e [] h = rw h refl
count-put_cookie n d p e (c ∷ cs) h = elim (Bool-cases (same_key e.name e.domain e.path c)) [
  | inl t ↦ rw (t, same_key-cong n d p c e t) refl
  | inr t ↦ rw t (ap (bump (same_key n d p c)) (count-put_cookie n d p e cs h))
]

count-put_cookie_own :
    (e : Cookie) (cs : List Cookie)
    → let test = same_key e.name e.domain e.path in
      count test cs ≤ 1 → count test (put_cookie test e cs) ≤ 1
unfolding put_cookie
count-put_cookie_own e [] h = rw (same_key_refl e) (omega arith)
count-put_cookie_own e (c ∷ cs) h = elim (Bool-cases (same_key e.name e.domain e.path c)) [
  | inl t ↦ let h' = rw t at h in rw (t, same_key_refl e) h'
  | inr t ↦ let h' = rw t at h in rw (t, t) (count-put_cookie_own e cs h')
]

put_cookie-IsKeyed :
    (e : Cookie) (cs : List Cookie)
    → IsKeyed cs
    → IsKeyed (put_cookie (same_key e.name e.domain e.path) e cs)
put_cookie-IsKeyed e cs keyed n d p = elim (Bool-cases (same_key n d p e)) [
  | inl t ↦
      let (en, ed, ep) = same_key-eq n d p e t in
      subst (λ z. count (same_key z d p) (put_cookie (same_key e.name e.domain e.path) e cs) ≤ 1) en
        (subst
          (λ z. count (same_key e.name z p) (put_cookie (same_key e.name e.domain e.path) e cs) ≤ 1)
          ed
          (subst
            (λ z.
              count (same_key e.name e.domain z) (put_cookie (same_key e.name e.domain e.path) e cs)
              ≤ 1)
            ep (count-put_cookie_own e cs (keyed e.name e.domain e.path))))
  | inr t ↦ rw (count-put_cookie n d p e cs t) (keyed n d p)
]

count-remove_cookie :
    (q test : Cookie → Bool) (cs : List Cookie) → count q (remove_cookie test cs) ≤ count q cs
unfolding remove_cookie
count-remove_cookie q test [] = omega arith
count-remove_cookie q test (c ∷ cs) = elim (Bool-cases (test c)) [
  | inl t ↦ rw t (le_bump (q c) (count q cs))
  | inr t ↦ rw t (bump_le (q c) _ _ (count-remove_cookie q test cs))
]

remove_cookie-IsKeyed :
    (test : Cookie → Bool) (cs : List Cookie) → IsKeyed cs → IsKeyed (remove_cookie test cs)
remove_cookie-IsKeyed test cs keyed n d p =
    omega (arith, count-remove_cookie (same_key n d p) test cs, keyed n d p)

if-IsKeyed :
    (b : Bool) (xs ys : List Cookie) → IsKeyed xs → IsKeyed ys → IsKeyed (if b then xs else ys)
if-IsKeyed true xs ys x y = x
if-IsKeyed false xs ys x y = y

store_entry-IsKeyed :
    (now : ℕ) (e : Cookie) (cs : List Cookie) → IsKeyed cs → IsKeyed (store_entry now e cs)
unfolding store_entry
store_entry-IsKeyed now e cs keyed =
    if-IsKeyed (is_expired now e.expires_at) _ _
      (remove_cookie-IsKeyed (same_key e.name e.domain e.path) cs keyed)
      (put_cookie-IsKeyed
        (record e {
          creation = elim (find_cookie (same_key e.name e.domain e.path) cs) [
            | none ↦ now
            | some old ↦ old.creation
          ];
        })
        cs keyed)

module _ (u : Strings) (clock : Clock) where
  store_parsed-IsKeyed :
      (now : ℕ) (req : Request) (suffix : Text → Bool) (p : SetCookie) (cs : List Cookie)
      → IsKeyed cs
      → IsKeyed (store_parsed u clock now req suffix p cs)
  unfolding store_parsed
  store_parsed-IsKeyed now req suffix p cs keyed =
      let domain = without_dot (u.to_lower_case (or_empty (get_attr (text "domain") p.attrs))) in
      let none_given = length domain == 0 in
      let e = entry_of u clock now req p (if none_given then req.host else domain) none_given in
      let insecure = e.secure && not (text_eq req.scheme (text "https")) in
      let stored = store_entry now e cs in
      if-IsKeyed (not none_given && (not (domain_match u domain req.host) || suffix domain)) cs
        (if insecure then cs else stored) keyed
        (if-IsKeyed insecure cs stored keyed (store_entry-IsKeyed now e cs keyed))

  store_all-IsKeyed :
      (now : ℕ) (req : Request) (suffix : Text → Bool) (raws : List Text) (cs : List Cookie)
      → IsKeyed cs
      → IsKeyed (store_all u clock now req suffix raws cs)
  unfolding store_all
  store_all-IsKeyed now req suffix [] cs keyed = keyed
  store_all-IsKeyed now req suffix (raw ∷ raws) cs keyed =
      store_all-IsKeyed now req suffix raws _
        (elim (parse_set_cookie u raw)
          as (λ o.
            IsKeyed (elim o [ none ↦ cs | some p ↦ store_parsed u clock now req suffix p cs ])) [
              | none ↦ keyed
              | some p ↦ store_parsed-IsKeyed now req suffix p cs keyed
            ])

  -- `setCookie` leaves at most `maxCookies` cookies, and, if it was so before, at most one for each
  -- name, domain and path, whatever the headers and the request.
  pub set_cookie-IsKeyed :
      (now : ℕ) (req : Request) (raws : List Text) (jar : Jar)
      → IsKeyed jar.cookies
      → let jar' = set_cookie u clock now req raws jar in
        IsKeyed jar'.cookies × (length jar'.cookies ≤ jar.max_cookies)
  unfolding set_cookie
  set_cookie-IsKeyed now req raws jar keyed =
      let cs = store_all u clock now req jar.is_public_suffix raws jar.cookies in
      let kept = store_all-IsKeyed now req jar.is_public_suffix raws jar.cookies keyed in
      let over = length cs - jar.max_cookies in
      elim (Bool-cases (ltb jar.max_cookies (length cs))) [
        | inl t ↦ rw t (
          λ n d p. omega (
            arith,
            count-drop over (same_key n d p) (sort_by by_creation cs),
            count-sort_by by_creation (same_key n d p) cs,
            kept n d p,
          ),
          rw (length-drop over (sort_by by_creation cs), length-sort_by by_creation cs)
              (omega arith),
        )
        | inr t ↦ rw t (kept, ground arith)
      ]
