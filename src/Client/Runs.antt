-- ===== src/Client/Runs.antt =====
-- Redirects and retries at concrete inputs, and the theorems at them.
use hellojs.Common.{
  ℕ, zero, suc, ◌≡◌, refl, true, List, [], ◌∷◌, none, some, Result, ok, err, arith,
}
use hellojs.Common.Text.{Text, text, ascii}
use hellojs.Client.Redirect.{
  Urls, Opts, json_off, redirect, handle_response, is_redirect, redirected, without_headers,
  keep_headers, mem, follow, becomes_get, method_of, has_location,
}
use hellojs.Client.Redirect.Safe.{Carried, handle_response-redirect, IsEnd, follow-IsEnd}
use hellojs.Client.Retry.{
  HellojsError, Policy, default_methods, default_status_codes, perform_with_retry,
}
use hellojs.Client.Retry.Attempts.{Tried, perform_with_retry-Tried}

-- Every location is a URL of its own, and its own origin.
abbrev urls : Urls
urls = record {
  resolve = λ location current. some location;
  origin = λ url. url;
  to_upper_case = λ s. s;
}

abbrev opts : Opts
opts = record {
  url = text "https://a.example/";
  method = none;
  headers = some ((text "Cookie", text "id=1") ∷ (text "Accept", text "*/*") ∷ []);
  body = none;
  form = none;
  json = json_off;
  early_data = none;
  others = (text "gzip", text "true") ∷ [];
  qs = none;
  simple = true;
  follow_redirect = true;
  max_redirects = none;
}

abbrev moved : Opts
moved = record opts {
  url = text "https://b.example/";
  headers = some ((text "Accept", text "*/*") ∷ []);
  max_redirects = some 9;
}

follows : handle_response ascii urls opts 302 (text "https://b.example/" ∷ []) ≡ ok (redirect moved)
unfolding handle_response is_redirect has_location redirected without_headers keep_headers mem
    becomes_get method_of
follows = refl

handle_response-redirect_example :
    (is_redirect ascii urls 302 opts ≡ true)
    × (location target : Text) × (more : List Text) × (text "https://b.example/" ∷ []
        ≡ location ∷ more)
    × (some location ≡ some target)
    × Carried ascii urls 302 target opts moved
handle_response-redirect_example =
    handle_response-redirect ascii urls opts moved 302 (text "https://b.example/" ∷ []) follows

abbrev always : Opts → ℕ × List Text
always o = (301, text "https://b.example/" ∷ [])

follow-IsEnd_example : IsEnd ascii urls (follow ascii urls always 11 opts)
follow-IsEnd_example = follow-IsEnd ascii urls always 11 opts (omega arith)

abbrev policy : Policy
policy = record {
  limit = 2;
  methods = default_methods;
  status_codes = default_status_codes;
  base_delay = 200;
}

abbrev outcomes : ℕ → Result HellojsError Text
outcomes zero = err (record { code = text "EHTTP"; status = some 503 })
outcomes (suc n) = ok (text "done")

perform_with_retry-Tried_example :
    (n : ℕ) × Tried policy
      (mem (text "GET") default_methods)
      outcomes
      0
      2
      (perform_with_retry policy (text "GET") outcomes)
      n
perform_with_retry-Tried_example = perform_with_retry-Tried policy (text "GET") outcomes
