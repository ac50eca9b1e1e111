-- ===== src/Cookies/Jar/Runs.antt =====
-- A jar at concrete inputs, and the theorems at them.
use hellojs.Common.{
  ◌≤◌, ◌≡◌, refl, ◌⊎◌, ◌++◌, Bool, true, false, ◌&&◌, [], ◌∷◌, none, some, length, arith,
}
use hellojs.Common.Text.{Text, text, ascii}
use hellojs.Cookies.Parse.{
  index_of, split, is_space, trim_start, trim, starts_with, ends_with, parse_attrs, parse_parts,
  parse_set_cookie, is_ip, digits_and_dots, without_dot, domain_match, path_match,
}
use hellojs.Cookies.Parse.Match.{domain_match-host, path_match-request}
use hellojs.Cookies.Jar.{Cookie, Jar, Request, Clock, set_cookie, get_cookies}
use hellojs.Cookies.Jar.Sorting.{bump, count}
use hellojs.Cookies.Jar.Store.{IsKeyed, set_cookie-IsKeyed}
use hellojs.Cookies.Jar.Select.{InOrder, goes_to, get_cookies-count}

abbrev clock : Clock
clock = record { parse_int = λ s. none; parse_date = λ s. none }

abbrev request : Request
request = record { host = text "www.example.com"; path = text "/docs/a"; scheme = text "https" }

abbrev jar : Jar
jar = record {
  cookies =
      record {
        name = text "id";
        value = text "7";
        domain = text "example.com";
        path = text "/docs";
        secure = true;
        httponly = false;
        samesite = none;
        expires_at = some 90;
        host_only = false;
        creation = 3;
      }
      ∷ [];
  max_cookies = 2;
  is_public_suffix = λ d. false;
}

bump_one : (b : Bool) → bump b 0 ≤ 1
bump_one true = omega arith
bump_one false = omega arith

parse_pair :
    parse_set_cookie ascii (text "a = b; Secure;Path=/x")
    ≡ some (record {
      name = text "a";
      value = text "b";
      attrs = (text "path", text "/x") ∷ (text "secure", []) ∷ [];
    })
unfolding parse_set_cookie parse_parts parse_attrs split index_of trim trim_start is_space
parse_pair = refl

one-IsKeyed : IsKeyed jar.cookies
one-IsKeyed n d p = bump_one _

set_cookie-IsKeyed_example :
    IsKeyed
      (set_cookie ascii clock 50 request
        (text "a=b" ∷ text "id=8; domain=example.com; path=/docs" ∷ text "c=d" ∷ [])
        jar).cookies
    × (length
          (set_cookie ascii clock 50 request
            (text "a=b" ∷ text "id=8; domain=example.com; path=/docs" ∷ text "c=d" ∷ [])
            jar).cookies
        ≤ 2)
set_cookie-IsKeyed_example =
    set_cookie-IsKeyed ascii clock 50 request
      (text "a=b" ∷ text "id=8; domain=example.com; path=/docs" ∷ text "c=d" ∷ []) jar one-IsKeyed

get_cookies-count_example :
    InOrder (get_cookies ascii 50 request jar)
    × ((q : Cookie → Bool)
        → count q (get_cookies ascii 50 request jar)
          ≡ count (λ c. q c && goes_to ascii 50 request c) jar.cookies)
get_cookies-count_example = get_cookies-count ascii 50 request jar

subdomain : domain_match ascii (text ".example.com") (text "www.example.com") ≡ true
unfolding domain_match without_dot is_ip digits_and_dots index_of ends_with starts_with
subdomain = refl

below : path_match (text "/docs") (text "/docs/a") ≡ true
unfolding path_match ends_with starts_with
below = refl

domain_match-host_example :
    (text "www.example.com" ≡ text "example.com")
    ⊎ ((is_ip (text "www.example.com") ≡ false)
        × (front : Text) × (text "www.example.com" ≡ front ++ text ".example.com"))
unfolding without_dot
domain_match-host_example =
    domain_match-host ascii (text ".example.com") (text "www.example.com") subdomain

path_match-request_example :
    (text "/docs" ≡ text "/docs/a")
    ⊎ ((front rest : Text) × (text "/docs/a" ≡ front ++ (b'/' ∷ rest))
        × ((text "/docs" ≡ front) ⊎ (text "/docs" ≡ front ++ (b'/' ∷ []))))
path_match-request_example = path_match-request (text "/docs") (text "/docs/a") below
