-- ===== src/Client/Retry.antt =====
-- `performWithRetry` of lib/client.js. What each attempt of `performRequest` comes to is given.
pub mod Attempts
use hellojs.Common.{
  ℕ, zero, suc, ◌+◌, ◌-◌, ◌*◌, ◌^◌, Bool, true, false, not, ◌&&◌, ◌||◌, List, [], ◌∷◌, Option, none,
  some, Result, ok, err, if◌then◌else◌, ltb, ◌==◌,
}
use hellojs.Common.Text.{Text, text, text_eq}
use hellojs.Client.Redirect.{mem}

-- An error as `wrapError` leaves it: its code, and the status of a response that it carries.
pub record HellojsError : Type 0 where
  pub code : Text
  pub status : Option ℕ

-- The policy, with the defaults of the source filled in.
pub record Policy : Type 0 where
  pub limit : ℕ
  pub methods : List Text
  pub status_codes : List ℕ
  pub base_delay : ℕ

abbrev pub default_methods : List Text
default_methods = text "GET" ∷ text "HEAD" ∷ text "OPTIONS" ∷ []

abbrev pub default_status_codes : List ℕ
default_status_codes = 408 ∷ 429 ∷ 500 ∷ 502 ∷ 503 ∷ 504 ∷ []

unfoldable pub includes : List ℕ → ℕ → Bool
includes [] n = false
includes (m ∷ ms) n = m == n || includes ms n

abbrev pub transient_codes : List Text
transient_codes = text "ETIMEDOUT" ∷ text "ECONNRESET" ∷ text "EH2STREAM" ∷ text "EH3STREAM" ∷ []

-- `status &&` is false for a status of 0 too.
abbrev pub transient_status : Policy → Option ℕ → Bool
transient_status p none = false
transient_status p (some status) = not (status == 0) && includes p.status_codes status

unfoldable pub is_transient : Policy → HellojsError → Bool
is_transient p e = transient_status p e.status || mem e.code transient_codes

-- What came of a request: its result, the attempts made, and the delays between them.
pub record Done {ℓ} (A : Type ℓ) : Type ℓ where
  pub result : Result HellojsError A
  pub attempts : ℕ
  pub delays : List ℕ

module _ {ℓ} {A : Type ℓ} (p : Policy) (retriable : Bool)
    (perform : ℕ → Result HellojsError A) where
  -- The loop from an attempt on, with `left` attempts behind it.
  unfoldable pub attempt_from : ℕ → ℕ → Done A
  attempt_from zero attempt = record {
    result = perform attempt;
    attempts = attempt + 1;
    delays = [];
  }
  attempt_from (suc left) attempt =
      let next = attempt_from left (attempt + 1) in
      elim (perform attempt) [
        | ok a ↦ record { result = ok a; attempts = attempt + 1; delays = [] }
        | err e ↦
            (if not retriable || not (is_transient p e)
              then record { result = err e; attempts = attempt + 1; delays = [] }
              else record {
                result = next.result;
                attempts = next.attempts;
                delays = p.base_delay * 2 ^ attempt ∷ next.delays;
              })
      ]

-- `upper` is the method, or GET, in upper case. A limit below 0, which makes no attempt, is left out.
unfoldable pub perform_with_retry {ℓ} :
    {A : Type ℓ} → Policy → Text → (ℕ → Result HellojsError A) → Done A
perform_with_retry p upper perform = attempt_from p (mem upper p.methods) perform p.limit 0
