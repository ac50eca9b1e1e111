-- ===== src/Cookies/Jar/Select.antt =====
-- `getCookies` picks exactly the cookies that pass its tests, in the order of RFC 6265.
use Prim.{tt, Unit}
use hellojs.Common.{
  ℕ, ◌≤◌, ◌<◌, ◌≡◌, ◌∙◌, ap, refl, ◌⊎◌, not, ◌||◌, Option, none, some, if◌then◌else◌, ltb, ◌==◌,
  length, Bool, true, false, ◌&&◌, List, [], ◌∷◌, arith, Bool-cases, inl, inr,
}
use hellojs.Common.Text.{Text, text, text_eq, Strings}
use hellojs.Cookies.Parse.{domain_match, path_match}
use hellojs.Cookies.Jar.{
  Cookie, Jar, Request, is_expired, insert_by, sort_by, by_path, filter, selects, get_cookies,
}
use hellojs.Cookies.Jar.Sorting.{count, count-sort_by, count-filter}

-- The longer path, or of two equally long ones the older cookie.
abbrev pub Before : Cookie → Cookie → Type 0
Before a b =
    (length b.path < length a.path) ⊎ ((length a.path ≡ length b.path) × (a.creation ≤ b.creation))

by_path-Before : (a b : Cookie) → by_path a b ≡ true → Before a b
unfolding by_path
by_path-Before a b h = elim (Bool-cases (length b.path == length a.path)) [
  | inl same ↦ inr (ground (arith, same), ground (arith, rw (by_path, same) at h))
  | inr differ ↦ inl (ground (arith, rw (by_path, differ) at h))
]

-- Each cookie may stand in front of the next one.
abbrev pub InOrder : List Cookie → Type 0
InOrder [] = Unit {0}
InOrder (c ∷ []) = Unit {0}
InOrder (c ∷ d ∷ ds) = Before c d × InOrder (d ∷ ds)

abbrev IsSorted : List Cookie → Type 0
IsSorted [] = Unit {0}
IsSorted (c ∷ []) = Unit {0}
IsSorted (c ∷ d ∷ ds) = (by_path c d ≡ true) × IsSorted (d ∷ ds)

by_path_total : (a b : Cookie) → by_path a b ≡ false → by_path b a ≡ true
unfolding by_path
by_path_total a b h = ground (arith, h)

insert_by-IsSorted :
    (c : Cookie) (cs : List Cookie) → IsSorted cs → IsSorted (insert_by by_path c cs)
unfolding insert_by
insert_by-IsSorted c [] s = tt
insert_by-IsSorted c (d ∷ []) s = elim (Bool-cases (by_path c d)) [
  | inl t ↦ rw t (t, tt)
  | inr t ↦ rw t (by_path_total c d t, tt)
]
insert_by-IsSorted c (d ∷ e ∷ es) (first, s) = elim (Bool-cases (by_path c d)) [
  | inl t ↦ rw t (t, (first, s))
  | inr t ↦ rw t (elim (Bool-cases (by_path c e)) [
    | inl p ↦ rw p (by_path_total c d t, (p, s))
    | inr p ↦
        let tail = insert_by-IsSorted c (e ∷ es) s in
        let tail' = rw p at tail in rw p (first, tail')
  ])
]

sort_by-IsSorted : (cs : List Cookie) → IsSorted (sort_by by_path cs)
unfolding sort_by
sort_by-IsSorted [] = tt
sort_by-IsSorted (c ∷ cs) = insert_by-IsSorted c (sort_by by_path cs) (sort_by-IsSorted cs)

IsSorted-InOrder : (cs : List Cookie) → IsSorted cs → InOrder cs
IsSorted-InOrder [] s = tt
IsSorted-InOrder (c ∷ []) s = tt
IsSorted-InOrder (c ∷ d ∷ ds) (h, s) = (by_path-Before c d h, IsSorted-InOrder (d ∷ ds) s)

-- A cookie that a request gets: it has no end or one that is to come, it is not kept for https unless
-- the request is, its domain is the host's, and its path the request's.
abbrev pub lives : ℕ → Option ℕ → Bool
lives now none = true
lives now (some end) = ltb now end

abbrev pub fits_host : Strings → Request → Bool → Text → Bool
fits_host u req true domain = text_eq req.host domain
fits_host u req false domain = domain_match u domain req.host

abbrev pub goes_to : Strings → ℕ → Request → Cookie → Bool
goes_to u now req c =
    lives now c.expires_at
    && ((not c.secure || text_eq req.scheme (text "https"))
        && (fits_host u req c.host_only c.domain && path_match c.path req.path))

expired-lives : (now : ℕ) (e : Option ℕ) → is_expired now e ≡ not (lives now e)
unfolding is_expired
expired-lives now none = refl
expired-lives now (some end) = ground arith

negated : (x path : Bool) → (if not x then false else path) ≡ (x && path)
negated true path = refl
negated false path = refl

tests :
    (u : Strings) (req : Request) (live secure https host_only path : Bool) (domain : Text)
    → (if not live
        then false
        else if secure && not https
        then false
        else if (if host_only
            then not (text_eq req.host domain)
            else not (domain_match u domain req.host))
        then false
        else path)
      ≡ (live && ((not secure || https) && (fits_host u req host_only domain && path)))
tests u req false secure https host_only path domain = refl
tests u req true true false host_only path domain = refl
tests u req true true true true path domain = negated (text_eq req.host domain) path
tests u req true true true false path domain = negated (domain_match u domain req.host) path
tests u req true false https true path domain = negated (text_eq req.host domain) path
tests u req true false https false path domain = negated (domain_match u domain req.host) path

selects-goes_to :
    (u : Strings) (now : ℕ) (req : Request) (c : Cookie) → selects u now req c ≡ goes_to u now req c
unfolding selects
selects-goes_to u now req c =
    rw (selects, expired-lives now c.expires_at)
      (tests u req (lives now c.expires_at) c.secure (text_eq req.scheme (text "https")) c.host_only
        (path_match c.path req.path) c.domain)

count_cong :
    (p q : Cookie → Bool)
    → ((c : Cookie) → p c ≡ q c)
    → (cs : List Cookie) → count p cs ≡ count q cs
count_cong p q same [] = refl
count_cong p q same (c ∷ cs) = rw (same c, count_cong p q same cs) refl

-- Of the cookies with any property, `getCookies` returns as many as the jar has among those that are
-- not expired and fit the scheme, the host and the path; and the longer path stands first, of two
-- equally long ones the older cookie.
pub get_cookies-count :
    (u : Strings) (now : ℕ) (req : Request) (jar : Jar)
    → InOrder (get_cookies u now req jar)
      × ((q : Cookie → Bool)
          → count q (get_cookies u now req jar)
            ≡ count (λ c. q c && goes_to u now req c) jar.cookies)
unfolding get_cookies
get_cookies-count u now req jar = (
  IsSorted-InOrder _ (sort_by-IsSorted (filter (selects u now req) jar.cookies)),
  λ q.
      count-sort_by by_path q (filter (selects u now req) jar.cookies)
      ∙ count-filter q (selects u now req) jar.cookies
      ∙ count_cong (λ c. q c && selects u now req c) (λ c. q c && goes_to u now req c)
          (λ c. ap (λ b. q c && b) (selects-goes_to u now req c)) jar.cookies,
)
