-- ===== src/Cookies/Parse.antt =====
-- `parseSetCookie`, `domainMatch`, `pathMatch` and `defaultPath` of lib/cookies.js.
pub mod Match
use hellojs.Common.{
  ℕ, zero, suc, ◌+◌, ◌-◌, Bool, true, false, not, ◌&&◌, ◌||◌, List, [], ◌∷◌, ◌++◌, reverse, Option,
  none, some, if◌then◌else◌, leb, ltb, ◌==◌, length, take, drop, get_or,
}
use hellojs.Common.Text.{Text, text, text_eq, Strings}

-- `s.indexOf(c)`, and its -1 as `none`.
unfoldable pub index_of : ℕ → Text → Option ℕ
index_of c [] = none
index_of c (x ∷ s) =
    if x == c then some 0 else elim (index_of c s) [ none ↦ none | some i ↦ some (suc i) ]

-- `s.lastIndexOf(c)`.
unfoldable pub last_index_of : ℕ → Text → Option ℕ
last_index_of c [] = none
last_index_of c (x ∷ s) = elim (last_index_of c s) [
  | none ↦ (if x == c then some 0 else none)
  | some i ↦ some (suc i)
]

abbrev add_front : ℕ → List Text → List Text
add_front x [] = (x ∷ []) ∷ []
add_front x (s ∷ rest) = (x ∷ s) ∷ rest

-- `s.split(c)`.
unfoldable pub split : ℕ → Text → List Text
split c [] = [] ∷ []
split c (x ∷ s) = let rest = split c s in if x == c then [] ∷ rest else add_front x rest

-- The white space and line ends that `trim` takes off.
unfoldable pub is_space : ℕ → Bool
is_space c =
    leb 9 c && leb c 13
    || (c == 0x20
        || (c == 0xa0
            || (c == 0x1680
                || (leb 0x2000 c && leb c 0x200a
                    || (c == 0x2028
                        || (c == 0x2029
                            || (c == 0x202f || (c == 0x205f || (c == 0x3000 || c == 0xfeff)))))))))

unfoldable pub trim_start : Text → Text
trim_start [] = []
trim_start (c ∷ s) = let rest = trim_start s in if is_space c then rest else c ∷ s

unfoldable pub trim : Text → Text
trim s = reverse (trim_start (reverse (trim_start s)))

unfoldable pub starts_with : Text → Text → Bool
starts_with s [] = true
starts_with [] (c ∷ p) = false
starts_with (x ∷ s) (c ∷ p) = x == c && starts_with s p

unfoldable pub ends_with : Text → Text → Bool
ends_with s p = starts_with (reverse s) (reverse p)

-- An object with string keys: the last value set counts.
unfoldable pub get_attr : Text → List (Text × Text) → Option Text
get_attr k [] = none
get_attr k ((n, v) ∷ rest) = if text_eq n k then some v else get_attr k rest

pub record SetCookie : Type 0 where
  pub name : Text
  pub value : Text
  pub attrs : List (Text × Text)

module _ (u : Strings) where
  -- The loop over the attributes; the newest one stands first.
  unfoldable pub parse_attrs : List Text → List (Text × Text) → List (Text × Text)
  parse_attrs [] acc = acc
  parse_attrs (a ∷ parts) acc =
      let idx = index_of b'=' a in
      let k = u.to_lower_case (trim (elim idx [ none ↦ a | some i ↦ take i a ])) in
      let v : Text = elim idx [ none ↦ [] | some i ↦ trim (drop (suc i) a) ] in
      parse_attrs parts (if length k == 0 then acc else (k, v) ∷ acc)

  unfoldable pub parse_parts : List Text → Option SetCookie
  parse_parts [] = none
  parse_parts (first ∷ parts) = elim (index_of b'=' first) [
    | none ↦ none
    | some eq ↦
        let name = trim (take eq first) in
        if length name == 0
        then none
        else some (record {
          name = name;
          value = trim (drop (suc eq) first);
          attrs = parse_attrs parts [];
        })
  ]

  unfoldable pub parse_set_cookie : Text → Option SetCookie
  parse_set_cookie s = parse_parts (split b';' s)

-- `/^[0-9.]+$/`
unfoldable pub digits_and_dots : Text → Bool
digits_and_dots [] = true
digits_and_dots (c ∷ s) = (leb 0x30 c && leb c 0x39 || c == b'.') && digits_and_dots s

abbrev pub is_some {ℓ} : {A : Type ℓ} → Option A → Bool
is_some none = false
is_some (some a) = true

unfoldable pub is_ip : Text → Bool
is_ip host = not (length host == 0) && digits_and_dots host || is_some (index_of b':' host)

-- `d.replace(/^\./, '')`
unfoldable pub without_dot : Text → Text
without_dot [] = []
without_dot (c ∷ d) = if c == b'.' then d else c ∷ d

unfoldable pub domain_match : Strings → Text → Text → Bool
domain_match u cookie_domain hostname =
    let h = u.to_lower_case hostname in
    let d = without_dot (u.to_lower_case cookie_domain) in
    if text_eq h d then true else if is_ip h then false else ends_with h (b'.' ∷ d)

unfoldable pub path_match : Text → Text → Bool
path_match cookie_path request_path =
    if text_eq cookie_path request_path
    then true
    else if not (ends_with cookie_path (text "/"))
        && starts_with request_path (cookie_path ++ text "/")
    then true
    else ends_with cookie_path (text "/") && starts_with request_path cookie_path

unfoldable pub default_path : Text → Text
default_path req_path =
    if not (starts_with req_path (text "/")) then text "/" else elim (last_index_of b'/' req_path) [
      | none ↦ text "/"
      | some zero ↦ text "/"
      | some (suc i) ↦ take (suc i) req_path
    ]
