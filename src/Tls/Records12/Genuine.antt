-- ===== src/Tls/Records12/Genuine.antt =====
-- What `decryptCbc` of lib/tls/tls12_records.js has checked of what it returns.
use hellojs.Common.{
  ℕ, ◌+◌, ◌-◌, ◌≤◌, ◌≡◌, refl, ap, ◌∙◌, sym, subst, true, [], ◌∷◌, ◌++◌, Option, none, some, Result,
  ok, err, ◌>>=◌, ltb, ◌==◌, ==_iff, length, take, drop, length-append, length-drop, take-drop,
  arith, Bool-cases, Result-cases, ok_inj, inl, inr, ◌⊎◌,
}
use hellojs.Common.Bytes.{Bytes, byte_at}
use hellojs.Common.Text.{Text, text_eq, text_eq→eq}
use hellojs.Tls.Records12.{
  Error, Crypto, opened, repeat, aes_alg, mac_input, all_are, strip_padding, mac_start, verified,
  decrypt_cbc, check_mac,
}

all_are-repeats : (b : ℕ) (xs : Bytes) → all_are b xs ≡ true → xs ≡ repeat (length xs) b
all_are-repeats b [] e = refl
all_are-repeats b (x ∷ xs) e = elim (Bool-cases (x == b)) [
  | inr other ↦ cc (rw other at e)
  | inl same ↦
      let eq : x ≡ b = ground (arith, same, ==_iff x b) in
      let rest = all_are-repeats b xs (rw same at e) in rw (eq, ← rest) refl
]

-- Nothing at all, or what is left and its padding.
strip_padding-split :
    (pt no_pad : Bytes)
    → strip_padding pt ≡ ok no_pad
    → (length no_pad ≡ 0) ⊎ ((pad : ℕ) × (pt ≡ no_pad ++ repeat (pad + 1) pad))
unfolding strip_padding
strip_padding-split pt no_pad e =
    let n = length pt in
    let pad = byte_at pt (n - 1) in
    let rest = drop (n - 1 - pad) pt in
    elim (Bool-cases (n == 0)) [
      | inl empty ↦ inl (sym (ap length (ok_inj (rw (strip_padding, empty) at e))))
      | inr more ↦ elim (Bool-cases (ltb n (pad + 1))) [
        | inl long ↦ cc (rw (strip_padding, more, long) at e)
        | inr fits ↦ elim (Bool-cases (all_are pad rest)) [
          | inr bad ↦ cc (rw (strip_padding, more, fits, bad) at e)
          | inl good ↦
              let left = ok_inj (rw (strip_padding, more, fits, good) at e) in
              let room : pad + 1 ≤ n = ground (arith, fits) in
              let cut : n - pad - 1 ≡ n - 1 - pad = omega arith in
              let size : length rest ≡ pad + 1 = omega (arith, length-drop (n - 1 - pad) pt) in
              let padding = all_are-repeats pad rest good ∙ ap (λ k. repeat k pad) size in
              inr (
                pad,
                sym (take-drop (n - 1 - pad) pt)
                    ∙ ap (λ b. take (n - 1 - pad) pt ++ b) padding
                    ∙ ap (λ b. b ++ repeat (pad + 1) pad) (ap (λ k. take k pt) (sym cut) ∙ left),
              )
        ]
      ]
    ]

verified-equal :
    (mac expected content x : Bytes)
    → verified mac expected content ≡ ok x
    → (mac ≡ expected) × (content ≡ x)
unfolding verified
verified-equal mac expected content x e = elim (Bool-cases (length mac == length expected)) [
  | inr other ↦ cc (rw (verified, other) at e)
  | inl long ↦ elim (Bool-cases (text_eq mac expected)) [
    | inr wrong ↦ cc (rw (verified, long, wrong) at e)
    | inl same ↦ (text_eq→eq mac expected same, ok_inj (rw (verified, long, same) at e))
  ]
]

module _ (c : Crypto) (mac_alg : Text) (mac_len : ℕ) where
  -- The content, whose MAC with the sequence number and the type stands behind it.
  abbrev pub Authentic : Bytes → ℕ → ℕ → Bytes → Bytes → Type 0
  Authentic mac_key seq type content no_pad =
      (input : Bytes) × (mac_input seq type content ≡ ok input)
      × (no_pad ≡ content ++ c.hmac mac_alg mac_key input)

  check_mac-Authentic :
      (mac_key : Bytes) (seq type : ℕ) (no_pad content : Bytes)
      → check_mac c mac_alg mac_len mac_key seq type no_pad ≡ ok content
      → Authentic mac_key seq type content no_pad
  unfolding check_mac
  check_mac-Authentic mac_key seq type no_pad content e =
      let i = mac_start (length no_pad) mac_len in
      elim (Result-cases (mac_input seq type (take i no_pad))) [
        | inr (x, thrown) ↦ cc (rw (check_mac, thrown) at e)
        | inl (input, got) ↦
            let (mac, same) =
              verified-equal (drop i no_pad) (c.hmac mac_alg mac_key input) (take i no_pad) content
                (rw (check_mac, got) at e) in
            (
              input,
              subst (λ b. mac_input seq type b ≡ ok input) same got,
              sym (take-drop i no_pad)
                  ∙ ap (λ b. b ++ drop i no_pad) same
                  ∙ ap (λ b. content ++ b) mac,
            )
      ]

  stripped-Authentic :
      (mac_key : Bytes) (seq type : ℕ) (pt content : Bytes) (r : Result Error Bytes)
      → ((key input : Bytes) → length (c.hmac mac_alg key input) ≡ mac_len)
      → 1 ≤ mac_len
      → strip_padding pt ≡ r
      → r >>= check_mac c mac_alg mac_len mac_key seq type ≡ ok content
      → (pad : ℕ) × (no_pad : Bytes) × (pt ≡ no_pad ++ repeat (pad + 1) pad)
        × Authentic mac_key seq type content no_pad
  stripped-Authentic mac_key seq type pt content (err x) hashed some_mac e e' = cc
  stripped-Authentic mac_key seq type pt content (ok no_pad) hashed some_mac e e' =
      let (input, got, shape) = check_mac-Authentic mac_key seq type no_pad content e' in
      let size = ap length shape ∙ length-append content (c.hmac mac_alg mac_key input) in
      elim (strip_padding-split pt no_pad e) [
        | inl nothing ↦ absurd (omega (arith, hashed mac_key input))
        | inr (pad, padded) ↦ (pad, no_pad, padded, (input, got, shape))
      ]

  opened-Authentic :
      (mac_key : Bytes) (seq type : ℕ) (content : Bytes) (o : Option Bytes)
      → ((key input : Bytes) → length (c.hmac mac_alg key input) ≡ mac_len)
      → 1 ≤ mac_len
      → (opened o >>= λ pt. strip_padding pt >>= check_mac c mac_alg mac_len mac_key seq type)
        ≡ ok content
      → (pad : ℕ) × (no_pad : Bytes) × (o ≡ some (no_pad ++ repeat (pad + 1) pad))
        × Authentic mac_key seq type content no_pad
  unfolding opened
  opened-Authentic mac_key seq type content none hashed some_mac e = cc
  opened-Authentic mac_key seq type content (some pt) hashed some_mac e =
      let (pad, no_pad, padded, authentic) =
        stripped-Authentic mac_key seq type pt content (strip_padding pt) hashed some_mac refl e in
      (pad, no_pad, ap some padded, authentic)

  -- Under a MAC of at least one byte, a content that is returned was decrypted with its MAC for this
  -- sequence number and type behind it, and padding of which every byte is the number of the others.
  pub decrypt_cbc-Authentic :
      (enc_key mac_key : Bytes) (seq type : ℕ) (payload content : Bytes)
      → ((key input : Bytes) → length (c.hmac mac_alg key input) ≡ mac_len)
      → 1 ≤ mac_len
      → decrypt_cbc c mac_alg mac_len enc_key mac_key seq type payload ≡ ok content
      → (pad : ℕ) × (no_pad : Bytes) × (c.cbc_decrypt
            (aes_alg enc_key)
            enc_key
            (take 16 payload)
            (drop 16 payload)
          ≡ some (no_pad ++ repeat (pad + 1) pad))
        × Authentic mac_key seq type content no_pad
  unfolding decrypt_cbc
  decrypt_cbc-Authentic enc_key mac_key seq type payload content hashed some_mac e =
      opened-Authentic mac_key seq type content
        (c.cbc_decrypt (aes_alg enc_key) enc_key (take 16 payload) (drop 16 payload)) hashed
        some_mac e
