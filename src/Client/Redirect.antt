-- ===== src/Client/Redirect.antt =====
-- `withoutHeaders` and `handleResponse` of lib/client.js.
pub mod Safe
use hellojs.Common.{
  ℕ, zero, suc, ◌-◌, Bool, true, false, not, ◌&&◌, ◌||◌, List, [], ◌∷◌, Option, none, some, Result,
  ok, err, if◌then◌else◌, leb, ltb, ◌==◌, length,
}
use hellojs.Common.Bytes.{Bytes}
use hellojs.Common.Text.{Text, text, text_eq, Strings}

-- The global `URL`: `new URL(location, current)`, which throws on what is no URL, `toString` and
-- `origin`; and `toUpperCase`.
pub record Urls : Type 0 where
  pub resolve : Text → Text → Option Text
  pub origin : Text → Text
  pub to_upper_case : Text → Text

pub data Json : Type 0 where
  json_off json_flag : Json
  json_value : Text → Json

-- The options that a redirect reads or changes, the early data, which goes out with the request, and
-- all others, by name, which nothing here reads.
pub record Opts : Type 0 where
  pub url : Text
  pub method : Option Text
  pub headers : Option (List (Text × Text))
  pub body : Option Bytes
  pub form : Option Text
  pub json : Json
  pub early_data : Option Bytes
  pub others : List (Text × Text)
  pub qs : Option Text
  pub simple : Bool
  pub follow_redirect : Bool
  pub max_redirects : Option ℕ

pub data Reply : Type 0 where
  rejected : ℕ → Reply
  redirect : Opts → Reply
  resolved : Reply

pub data Thrown : Type 0 where
  invalid_url : Thrown

unfoldable pub mem : Text → List Text → Bool
mem k [] = false
mem k (n ∷ ns) = text_eq n k || mem k ns

-- `opts.maxRedirects ?? 10`.
abbrev pub redirects_left : Opts → ℕ
redirects_left o = elim o.max_redirects [ none ↦ 10 | some n ↦ n ]

abbrev pub framing : List Text
framing = text "content-type" ∷ text "content-length" ∷ text "transfer-encoding" ∷ []

abbrev pub credentials : List Text
credentials = text "authorization" ∷ text "cookie" ∷ text "proxy-authorization" ∷ []

module _ (u : Strings) where
  unfoldable pub keep_headers : List Text → List (Text × Text) → List (Text × Text)
  keep_headers names [] = []
  keep_headers names ((k, v) ∷ hs) =
      let rest = keep_headers names hs in
      if mem (u.to_lower_case k) names then rest else (k, v) ∷ rest

  abbrev pub kept : List Text → Option (List (Text × Text)) → Option (List (Text × Text))
  kept names none = none
  kept names (some hs) = some (keep_headers names hs)

  -- The names that the source passes are in lower case.
  unfoldable pub without_headers : List Text → Opts → Opts
  without_headers names o = record o { headers = kept names o.headers }

  abbrev pub without_json : Json → Json
  without_json json_off = json_off
  without_json json_flag = json_flag
  without_json (json_value v) = json_off

  unfoldable pub to_get : Opts → Opts
  to_get o = without_headers framing (record o {
    method = some (text "GET");
    body = none;
    form = none;
    json = without_json o.json;
  })

  module _ (w : Urls) where
    -- `opts.method || 'GET'`, in upper case.
    unfoldable pub method_of : Opts → Text
    method_of o = w.to_upper_case (elim o.method [ none ↦ text "GET" | some m ↦ m ])

    unfoldable pub becomes_get : ℕ → Opts → Bool
    becomes_get status o =
        status == 303 || (status == 301 || status == 302) && text_eq (method_of o) (text "POST")

    unfoldable pub redirected : ℕ → Text → Opts → Opts
    redirected status target o =
        let moved : Opts = record o {
          url = target;
          max_redirects = some (redirects_left o - 1);
          qs = none;
        } in
        let asked = if becomes_get status o then to_get moved else moved in
        if text_eq (w.origin target) (w.origin o.url)
        then asked
        else without_headers credentials asked

    unfoldable pub is_redirect : ℕ → Opts → Bool
    is_redirect status o =
        o.follow_redirect && (leb 300 status && (ltb status 400 && ltb 0 (redirects_left o)))

    -- `headers.location`, none, one or an array of several, is true but for an empty one.
    unfoldable pub has_location : List Text → Bool
    has_location [] = false
    has_location (l ∷ []) = not (length l == 0)
    has_location (l ∷ m ∷ more) = true

    unfoldable pub handle_response : Opts → ℕ → List Text → Result Thrown Reply
    handle_response o status [] =
        ok (if o.simple && leb 400 status then rejected status else resolved)
    handle_response o status (location ∷ more) =
        let follow : Result Thrown Reply = elim (w.resolve location o.url) [
          | none ↦ err invalid_url
          | some target ↦ ok (redirect (redirected status target o))
        ] in
        if o.simple && leb 400 status
        then ok (rejected status)
        else if is_redirect status o && has_location (location ∷ more)
        then follow
        else ok resolved

    -- `performRequest`, whose response is given, and the redirects that it follows. `none` is fuel that
    -- has run out.
    unfoldable pub follow : (Opts → ℕ × List Text) → ℕ → Opts → Option (Result Thrown Reply × Opts)
    follow respond zero o = none
    follow respond (suc fuel) o =
        let r = respond o in
        elim (handle_response o r.0 r.1) [
          | err e ↦ some (err e, o)
          | ok (rejected st) ↦ some (ok (rejected st), o)
          | ok resolved ↦ some (ok resolved, o)
          | ok (redirect o') ↦ follow respond fuel o'
        ]
