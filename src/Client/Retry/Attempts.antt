-- ===== src/Client/Retry/Attempts.antt =====
-- How often a request is made, and which result counts.
use hellojs.Common.{
  ℕ, zero, suc, ◌+◌, ◌*◌, ◌^◌, ◌≤◌, ◌<◌, ◌≡◌, refl, ap, Bool, true, false, not, ◌||◌, List, [], ◌∷◌,
  Result, ok, err, Bool-cases, inl, inr, arith,
}
use hellojs.Common.Text.{Text}
use hellojs.Client.Redirect.{mem}
use hellojs.Client.Retry.{
  HellojsError, Policy, is_transient, Done, attempt_from, perform_with_retry,
}

-- Of an outcome that is not the last to be tried: whether it is tried again.
abbrev pub again {ℓ} : {A : Type ℓ} → Policy → Bool → Result HellojsError A → Bool
again p retriable (ok a) = false
again p retriable (err e) = not (not retriable || not (is_transient p e))

-- The delays from an attempt on, doubled each time.
abbrev pub backoff : ℕ → ℕ → ℕ → List ℕ
backoff base from zero = []
backoff base from (suc n) = base * 2 ^ from ∷ backoff base (from + 1) n

module _ {ℓ} {A : Type ℓ} (p : Policy) (retriable : Bool)
    (perform : ℕ → Result HellojsError A) where
  -- Attempts `from` to `from + n`: all but the last are tried again, and it is not, or it is the last
  -- that is allowed.
  abbrev pub Tried : ℕ → ℕ → Done A → ℕ → Type ℓ
  Tried from left d n =
      (n ≤ left)
      × (d.attempts ≡ from + n + 1)
      × (d.result ≡ perform (from + n))
      × (d.delays ≡ backoff p.base_delay from n)
      × ((i : ℕ) → i < n → again p retriable (perform (from + i)) ≡ true)
      × (n < left → again p retriable (perform (from + n)) ≡ false)

  attempt_from-Tried :
      (left from : ℕ) → (n : ℕ) × Tried from left (attempt_from p retriable perform left from) n
  unfolding attempt_from
  attempt_from-Tried zero from = (
    0,
    (
      omega arith,
      omega arith,
      ap perform (omega arith),
      refl,
      λ i h. absurd (omega arith),
      λ h. absurd (omega arith),
    ),
  )
  attempt_from-Tried (suc left) from =
      by_first (perform from) refl (attempt_from-Tried left (from + 1))
    where
      here : from + 0 ≡ from
      here = omega arith

      shift : (j : ℕ) → from + suc j ≡ from + 1 + j
      shift j = omega arith

      stop :
          (r : Result HellojsError A)
          → perform from ≡ r
          → again p retriable r ≡ false
          → (d : Done A) → d ≡ record { result = r; attempts = from + 1; delays = [] }
          → Tried from (suc left) d 0
      stop r e ends d shape = rw shape (
        omega arith,
        omega arith,
        rw (here, e) refl,
        refl,
        λ i h. absurd (omega arith),
        λ h. rw (here, e) ends,
      )

      before_all :
          (n : ℕ)
          → again p retriable (perform from) ≡ true
          → ((i : ℕ) → i < n → again p retriable (perform (from + 1 + i)) ≡ true)
          → (i : ℕ) → i < suc n
          → again p retriable (perform (from + i)) ≡ true
      before_all n first before zero h = rw here first
      before_all n first before (suc j) h = rw (shift j) (before j (omega arith))

      by_first :
          (r : Result HellojsError A)
          → perform from ≡ r
          → ((n : ℕ) × Tried (from + 1) left (attempt_from p retriable perform left (from + 1)) n)
          → (n : ℕ) × Tried from (suc left) (attempt_from p retriable perform (suc left) from) n
      by_first (ok a) e later = (0, stop (ok a) e refl _ (rw (attempt_from, e) refl))
      by_first (err x) e (n, tried) = elim (Bool-cases (not retriable || not (is_transient p x))) [
        | inl final ↦ (0, stop (err x) e (rw final refl) _ (rw (attempt_from, e, final) refl))
        | inr retry ↦
            let (le, count, result, delays, before, last) = tried in
            let up : from + suc n ≡ from + 1 + n = omega arith in
            (
              suc n,
              rw (attempt_from, e, retry)
                  (
                    omega arith,
                    omega (arith, count),
                    rw up result,
                    ap (λ ds. p.base_delay * 2 ^ from ∷ ds) delays,
                    before_all n (rw (e, retry) refl) before,
                    λ h. rw up (last (omega arith)),
                  ),
            )
      ]

-- Some number of attempts in a row is made, one more than the limit at most: each but the last ended
-- in an error that is transient, of a method that may be repeated; the last did not, or it is the one
-- that the limit allows; its result is the result, and the delays before the attempts double from the
-- base delay on.
pub perform_with_retry-Tried {ℓ} :
    {A : Type ℓ} (p : Policy) (upper : Text) (perform : ℕ → Result HellojsError A)
    → (n : ℕ) × Tried p
        (mem upper p.methods)
        perform
        0
        p.limit
        (perform_with_retry p upper perform)
        n
unfolding perform_with_retry
perform_with_retry-Tried p upper perform =
    attempt_from-Tried p (mem upper p.methods) perform p.limit 0
