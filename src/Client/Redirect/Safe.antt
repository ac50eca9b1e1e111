-- ===== src/Client/Redirect/Safe.antt =====
-- What a redirect carries over, and that a chain of redirects ends.
use hellojs.Common.{
  ℕ, zero, suc, ◌-◌, ◌≤◌, ◌<◌, ◌≡◌, refl, subst, Bool, true, false, ◌&&◌, List, [], ◌∷◌, Option,
  none, some, Result, ok, err, leb, ltb, ltb→lt, All, Bool-cases, Option-cases, inl, inr, arith,
}
use hellojs.Common.Text.{Text, text, text_eq, Strings}
use hellojs.Client.Redirect.{
  Urls, Json, json_off, json_flag, json_value, Opts, without_json, Reply, rejected, redirect,
  resolved, Thrown, mem, redirects_left, keep_headers, kept, without_headers, framing, credentials,
  to_get, becomes_get, redirected, is_redirect, handle_response, has_location, follow,
}

module _ (u : Strings) where
  abbrev pub NoneOf : List Text → Option (List (Text × Text)) → Type 0
  NoneOf names none = Unit {0}
  NoneOf names (some hs) = All (λ h. mem (u.to_lower_case h.0) names ≡ false) hs

  keep_headers-NoneOf :
      (names : List Text) (hs : List (Text × Text)) → NoneOf names (some (keep_headers u names hs))
  unfolding keep_headers
  keep_headers-NoneOf names [] = tt
  keep_headers-NoneOf names ((k, v) ∷ hs) = elim (Bool-cases (mem (u.to_lower_case k) names)) [
    | inl drop ↦ rw drop (keep_headers-NoneOf names hs)
    | inr stay ↦ rw stay (stay, keep_headers-NoneOf names hs)
  ]

  -- What was not there before is not there after more has been taken out.
  keep_headers_still :
      (names more : List Text) (hs : List (Text × Text))
      → NoneOf names (some hs)
      → NoneOf names (some (keep_headers u more hs))
  unfolding keep_headers
  keep_headers_still names more [] all = tt
  keep_headers_still names more ((k, v) ∷ hs) (h, all) =
      elim (Bool-cases (mem (u.to_lower_case k) more)) [
        | inl drop ↦ rw drop (keep_headers_still names more hs all)
        | inr stay ↦ rw stay (h, keep_headers_still names more hs all)
      ]

  kept-NoneOf :
      (names : List Text) (hs : Option (List (Text × Text))) → NoneOf names (kept u names hs)
  kept-NoneOf names none = tt
  kept-NoneOf names (some hs) = keep_headers-NoneOf names hs

  kept_still :
      (names more : List Text) (hs : Option (List (Text × Text)))
      → NoneOf names hs
      → NoneOf names (kept u more hs)
  kept_still names more none all = tt
  kept_still names more (some hs) all = keep_headers_still names more hs all

  both_left : (a b : Bool) → (a && b) ≡ true → a ≡ true
  both_left true b h = refl
  both_left false b h = cc

  redirect_inj :
      {a b : Opts} → ◌≡◌ {A = Result Thrown Reply} (ok (redirect a)) (ok (redirect b)) → a ≡ b
  redirect_inj e = cc

  -- A flag is no body, but asks for one to be JSON.
  abbrev pub IsNoValue : Json → Type 0
  IsNoValue json_off = Unit {0}
  IsNoValue json_flag = Unit {0}
  IsNoValue (json_value v) = ⊥

  -- None of the three options of which a body is made.
  abbrev pub HasNoBody : Opts → Type 0
  HasNoBody o = (o.body ≡ none) × (o.form ≡ none) × IsNoValue o.json

  without_json-IsNoValue : (j : Json) → IsNoValue (without_json u j)
  without_json-IsNoValue json_off = tt
  without_json-IsNoValue json_flag = tt
  without_json-IsNoValue (json_value v) = tt

  module _ (w : Urls) where
    -- What a redirect to `target` makes of the options.
    abbrev pub Carried : ℕ → Text → Opts → Opts → Type 0
    Carried status target o o' =
        (o'.url ≡ target)
        × (o'.qs ≡ none)
        × (o'.early_data ≡ o.early_data)
        × (o'.others ≡ o.others)
        × (redirects_left o' ≡ redirects_left o - 1)
        × (text_eq (w.origin target) (w.origin o.url) ≡ false → NoneOf credentials o'.headers)
        × (becomes_get u w status o ≡ true
            → (o'.method ≡ some (text "GET")) × HasNoBody o' × NoneOf framing o'.headers)
        × (becomes_get u w status o ≡ false
            → (o'.method ≡ o.method) × (o'.body ≡ o.body) × (o'.form ≡ o.form) × (o'.json ≡ o.json))

    redirected-Carried :
        (status : ℕ) (target : Text) (o : Opts)
        → Carried status target o (redirected u w status target o)
    unfolding redirected without_headers to_get
    redirected-Carried status target o = elim (Bool-cases (becomes_get u w status o)) [
      | inl get ↦ elim (Bool-cases (text_eq (w.origin target) (w.origin o.url))) [
        | inl same ↦
            rw (redirected, get, same)
              (
                refl,
                refl,
                refl,
                refl,
                refl,
                λ differ. cc differ,
                λ _. (
                  refl,
                  (refl, refl, without_json-IsNoValue o.json),
                  kept-NoneOf framing o.headers,
                ),
                λ stay. cc stay,
              )
        | inr other ↦
            rw (redirected, get, other)
              (
                refl,
                refl,
                refl,
                refl,
                refl,
                λ _. kept-NoneOf credentials (kept u framing o.headers),
                λ _. (
                  refl,
                  (refl, refl, without_json-IsNoValue o.json),
                  kept_still framing credentials (kept u framing o.headers)
                      (kept-NoneOf framing o.headers),
                ),
                λ stay. cc stay,
              )
      ]
      | inr stays ↦ elim (Bool-cases (text_eq (w.origin target) (w.origin o.url))) [
        | inl same ↦
            rw (redirected, stays, same)
              (
                refl,
                refl,
                refl,
                refl,
                refl,
                λ differ. cc differ,
                λ stay. cc stay,
                λ _. (refl, refl, refl, refl),
              )
        | inr other ↦
            rw (redirected, stays, other)
              (
                refl,
                refl,
                refl,
                refl,
                refl,
                λ _. kept-NoneOf credentials o.headers,
                λ stay. cc stay,
                λ _. (refl, refl, refl, refl),
              )
      ]
    ]

    -- A response is followed only if its status is 3xx, the options ask for it and redirects are left.
    -- Then the next request goes to the URL that the first location gives, with one redirect less and
    -- no query of the options. If that is another origin, it has no header for credentials; if the
    -- request becomes a GET, it has neither body nor form nor JSON value and no header that frames one;
    -- if not, method, body, form and JSON are as they were. Early data and all other options
    -- go to any origin.
    pub handle_response-redirect :
        (o o' : Opts) (status : ℕ) (locations : List Text)
        → handle_response u w o status locations ≡ ok (redirect o')
        → (is_redirect u w status o ≡ true)
          × (location target : Text) × (more : List Text) × (locations ≡ location ∷ more)
          × (w.resolve location o.url ≡ some target)
          × Carried status target o o'
    unfolding handle_response
    handle_response-redirect o o' status [] e = elim (Bool-cases (o.simple && leb 400 status)) [
      | inl bad ↦ cc (rw (handle_response, bad) at e)
      | inr fine ↦ cc (rw (handle_response, fine) at e)
    ]
    handle_response-redirect o o' status (location ∷ more) e =
        elim (Bool-cases (o.simple && leb 400 status)) [
          | inl bad ↦ cc (rw (handle_response, bad) at e)
          | inr fine ↦
              elim (Bool-cases (is_redirect u w status o && has_location u w (location ∷ more))) [
                | inr stays ↦ cc (rw (handle_response, fine, stays) at e)
                | inl both ↦
                    let goes =
                      both_left (is_redirect u w status o) (has_location u w (location ∷ more))
                        both in
                    elim (Option-cases (w.resolve location o.url)) [
                      | inl invalid ↦ cc (rw (handle_response, fine, both, invalid) at e)
                      | inr (target, url) ↦
                          let same : redirected u w status target o ≡ o' =
                            redirect_inj (rw (handle_response, fine, both, url) at e) in
                          (
                            goes,
                            location,
                            target,
                            more,
                            refl,
                            url,
                            subst (Carried status target o) same
                                (redirected-Carried status target o),
                          )
                    ]
              ]
        ]

    last_of_four : (a b c d : Bool) → (a && (b && (c && d))) ≡ true → d ≡ true
    last_of_four true true true d h = h
    last_of_four true true false d h = cc
    last_of_four true false c d h = cc
    last_of_four false b c d h = cc

    redirects_pos : (o : Opts) (status : ℕ) → is_redirect u w status o ≡ true → 1 ≤ redirects_left o
    unfolding is_redirect
    redirects_pos o status h = ltb→lt 0 (redirects_left o) (
        last_of_four o.follow_redirect (leb 300 status) (ltb status 400) (ltb 0 (redirects_left o))
          h)

    -- The end of a chain: a reply that is not followed, or what was thrown.
    abbrev pub IsEnd : Option (Result Thrown Reply × Opts) → Type 0
    IsEnd none = ⊥
    IsEnd (some (err e, o)) = Unit {0}
    IsEnd (some (ok (rejected status), o)) = Unit {0}
    IsEnd (some (ok (redirect o'), o)) = ⊥
    IsEnd (some (ok resolved, o)) = Unit {0}

    follow_round :
        (respond : Opts → ℕ × List Text) (fuel : ℕ) (o : Opts) (r : Result Thrown Reply)
        → handle_response u w o (respond o).0 (respond o).1 ≡ r
        → ((o' : Opts) → r ≡ ok (redirect o') → IsEnd (follow u w respond fuel o'))
        → IsEnd (follow u w respond (suc fuel) o)
    unfolding follow
    follow_round respond fuel o (err e) reply again = rw (follow, reply) tt
    follow_round respond fuel o (ok (rejected status)) reply again = rw (follow, reply) tt
    follow_round respond fuel o (ok resolved) reply again = rw (follow, reply) tt
    follow_round respond fuel o (ok (redirect o')) reply again = rw (follow, reply) (again o' refl)

    -- A chain of redirects ends, whatever the servers answer: with a response that is not followed or
    -- a location that is no URL, after as many redirects as the options allow at most.
    pub follow-IsEnd :
        (respond : Opts → ℕ × List Text) (fuel : ℕ) (o : Opts)
        → redirects_left o < fuel
        → IsEnd (follow u w respond fuel o)
    follow-IsEnd respond zero o h = absurd (omega arith)
    follow-IsEnd respond (suc fuel) o h =
        let (status, locations) = respond o in
        follow_round respond fuel o (handle_response u w o status locations) refl λ o' e.
          let (
            goes,
            location,
            target,
            more,
            shape,
            url,
            (to, query, early, rest, fewer, away, get, kept_as),
          ) =
            handle_response-redirect o o' status locations e in
          follow-IsEnd respond fuel o' (omega (arith, redirects_pos o status goes, fewer))
