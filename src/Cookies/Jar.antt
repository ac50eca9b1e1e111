-- ===== src/Cookies/Jar.antt =====
-- The jar of lib/cookies.js: `setCookie`, `getCookies`, `getCookieString`, `gc`.
pub mod Sorting
pub mod Store
pub mod Select
mod Runs
use hellojs.Common.{
  ℕ, zero, suc, ◌+◌, ◌-◌, ◌*◌, Bool, true, false, not, ◌&&◌, ◌||◌, List, [], ◌∷◌, ◌++◌, Option,
  none, some, if◌then◌else◌, leb, ltb, ◌==◌, length, drop,
}
use hellojs.Common.Text.{Text, text, text_eq, Strings}
use hellojs.Cookies.Parse.{
  SetCookie, parse_set_cookie, get_attr, without_dot, domain_match, path_match, default_path,
  starts_with, is_some,
}

pub record Cookie : Type 0 where
  pub name : Text
  pub value : Text
  pub domain : Text
  pub path : Text
  pub secure : Bool
  pub httponly : Bool
  pub samesite : Option Text
  pub expires_at : Option ℕ
  pub host_only : Bool
  pub creation : ℕ

-- `_isPublicSuffix` is what the caller has set.
pub record Jar : Type 0 where
  pub cookies : List Cookie
  pub max_cookies : ℕ
  pub is_public_suffix : Text → Bool

-- What `new URL` or `split(':')` makes of the caller's argument: host in lower case, path, scheme.
pub record Request : Type 0 where
  pub host : Text
  pub path : Text
  pub scheme : Text

-- `parseInt(s, 10)` and `Date.parse(s)`; a number below 0 is as good as 0, which is in the past.
pub record Clock : Type 0 where
  pub parse_int : Text → Option ℕ
  pub parse_date : Text → Option ℕ

abbrev pub or_empty : Option Text → Text
or_empty none = []
or_empty (some s) = s

unfoldable pub same_key : Text → Text → Text → Cookie → Bool
same_key n d p c = text_eq c.name n && (text_eq c.domain d && text_eq c.path p)

unfoldable pub find_cookie : (Cookie → Bool) → List Cookie → Option Cookie
find_cookie test [] = none
find_cookie test (c ∷ cs) = if test c then some c else find_cookie test cs

-- `if (idx >= 0) this.cookies[idx] = entry; else this.cookies.push(entry)`
unfoldable pub put_cookie : (Cookie → Bool) → Cookie → List Cookie → List Cookie
put_cookie test entry [] = entry ∷ []
put_cookie test entry (c ∷ cs) = if test c then entry ∷ cs else c ∷ put_cookie test entry cs

-- `if (idx >= 0) this.cookies.splice(idx, 1)`
unfoldable pub remove_cookie : (Cookie → Bool) → List Cookie → List Cookie
remove_cookie test [] = []
remove_cookie test (c ∷ cs) = if test c then cs else c ∷ remove_cookie test cs

-- `c.expiresAt !== null && c.expiresAt <= now`
unfoldable pub is_expired : ℕ → Option ℕ → Bool
is_expired now none = false
is_expired now (some t) = leb t now

-- An array's `sort`, which is stable, by a test that says whether the first may stay in front.
unfoldable pub insert_by : (Cookie → Cookie → Bool) → Cookie → List Cookie → List Cookie
insert_by before c [] = c ∷ []
insert_by before c (d ∷ ds) = if before c d then c ∷ d ∷ ds else d ∷ insert_by before c ds

unfoldable pub sort_by : (Cookie → Cookie → Bool) → List Cookie → List Cookie
sort_by before [] = []
sort_by before (c ∷ cs) = insert_by before c (sort_by before cs)

unfoldable pub by_creation : Cookie → Cookie → Bool
by_creation a b = leb a.creation b.creation

-- The longer path first, then the older cookie.
unfoldable pub by_path : Cookie → Cookie → Bool
by_path a b =
    if length b.path == length a.path
    then leb a.creation b.creation
    else ltb (length b.path) (length a.path)

-- The end of the loop's body: a cookie in the past is deleted, another one stored.
unfoldable pub store_entry : ℕ → Cookie → List Cookie → List Cookie
store_entry now e cookies =
    let test = same_key e.name e.domain e.path in
    let entry : Cookie = record e {
      creation = elim (find_cookie test cookies) [ none ↦ now | some old ↦ old.creation ];
    } in
    if is_expired now e.expires_at
    then remove_cookie test cookies
    else put_cookie test entry cookies

module _ (u : Strings) (clock : Clock) where
  -- Max-Age before Expires; an empty attribute is as good as none.
  unfoldable pub expiry : ℕ → List (Text × Text) → Option ℕ
  expiry now attrs =
      let age = or_empty (get_attr (text "max-age") attrs) in
      let date = or_empty (get_attr (text "expires") attrs) in
      if not (length age == 0)
      then elim (clock.parse_int age) [
        | none ↦ none
        | some n ↦ (if n == 0 then some 0 else some (now + n * 1000))
      ]
      else if not (length date == 0)
      then clock.parse_date date
      else none

  unfoldable pub entry_of : ℕ → Request → SetCookie → Text → Bool → Cookie
  entry_of now req p domain host_only =
      let asked = or_empty (get_attr (text "path") p.attrs) in
      let site = u.to_lower_case (or_empty (get_attr (text "samesite") p.attrs)) in
      record {
        name = p.name;
        value = p.value;
        domain = domain;
        path = (if starts_with asked (text "/") then asked else default_path req.path);
        secure = is_some (get_attr (text "secure") p.attrs);
        httponly = is_some (get_attr (text "httponly") p.attrs);
        samesite = (if length site == 0 then none else some site);
        expires_at = expiry now p.attrs;
        host_only = host_only;
        creation = now;
      }

  -- The loop's body on a Set-Cookie value that parsed.
  unfoldable pub store_parsed : ℕ → Request → (Text → Bool) → SetCookie → List Cookie → List Cookie
  store_parsed now req suffix p cookies =
      let domain = without_dot (u.to_lower_case (or_empty (get_attr (text "domain") p.attrs))) in
      let none_given = length domain == 0 in
      let e = entry_of now req p (if none_given then req.host else domain) none_given in
      if not none_given && (not (domain_match u domain req.host) || suffix domain)
      then cookies
      else if e.secure && not (text_eq req.scheme (text "https"))
      then cookies
      else store_entry now e cookies

  unfoldable pub store_all : ℕ → Request → (Text → Bool) → List Text → List Cookie → List Cookie
  store_all now req suffix [] cookies = cookies
  store_all now req suffix (raw ∷ raws) cookies =
      store_all now req suffix raws (elim (parse_set_cookie u raw) [
        | none ↦ cookies
        | some p ↦ store_parsed now req suffix p cookies
      ])

  -- `setCookie`
  unfoldable pub set_cookie : ℕ → Request → List Text → Jar → Jar
  set_cookie now req raws jar =
      let cs = store_all now req jar.is_public_suffix raws jar.cookies in
      record jar {
        cookies =
            (if ltb jar.max_cookies (length cs)
              then drop (length cs - jar.max_cookies) (sort_by by_creation cs)
              else cs);
      }

-- The tests of `getCookies` on one cookie.
unfoldable pub selects : Strings → ℕ → Request → Cookie → Bool
selects u now req c =
    if is_expired now c.expires_at
    then false
    else if c.secure && not (text_eq req.scheme (text "https"))
    then false
    else if (if c.host_only
        then not (text_eq req.host c.domain)
        else not (domain_match u c.domain req.host))
    then false
    else path_match c.path req.path

unfoldable pub filter : (Cookie → Bool) → List Cookie → List Cookie
filter test [] = []
filter test (c ∷ cs) = if test c then c ∷ filter test cs else filter test cs

-- `getCookies`
unfoldable pub get_cookies : Strings → ℕ → Request → Jar → List Cookie
get_cookies u now req jar = sort_by by_path (filter (selects u now req) jar.cookies)

unfoldable pub join : List Cookie → Text
join [] = []
join (c ∷ []) = c.name ++ (b'=' ∷ c.value)
join (c ∷ d ∷ ds) = c.name ++ (b'=' ∷ c.value) ++ text "; " ++ join (d ∷ ds)

-- `getCookieString`
unfoldable pub get_cookie_string : Strings → ℕ → Request → Jar → Text
get_cookie_string u now req jar = join (get_cookies u now req jar)

unfoldable pub gc : ℕ → Jar → Jar
gc now jar = record jar { cookies = filter (λ c. not (is_expired now c.expires_at)) jar.cookies }
