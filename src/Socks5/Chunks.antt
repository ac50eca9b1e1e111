-- ===== src/Socks5/Chunks.antt =====
-- How the proxy's bytes are cut into chunks does not matter.
use hellojs.Common.{
  ℕ, ◌+◌, ◌≤◌, ◌≡◌, refl, ap, ◌∙◌, sym, false, List, [], ◌∷◌, ◌++◌, append_assoc, Option, none,
  some, some_inj, subst, ltb, ◌==◌, length, length-append, drop, drop-append_left,
  get_or-append_left, arith, Bool-cases, Option-cases, inl, inr,
}
use hellojs.Common.Bytes.{Bytes, byte_at}
use hellojs.Socks5.{
  Reply, reply, unknown_atyp, bound_reply, read_reply, Phase, greeting, auth, connect, tunnel,
  failed, no_credentials, threw, build_auth_request, State, Config, at, answer, run_connect,
  send_connect, run_auth, send_auth, run_greeting, on_data_in, on_chunk,
}

-- A reply lies within what was received.
abbrev Within : Bytes → Reply → Type 0
Within buf (reply ver rep consumed) = consumed ≤ length buf
Within buf (unknown_atyp a) = 0 ≤ length buf

bound_reply-append :
    (buf more : Bytes) (n : ℕ) (r : Reply)
    → 7 ≤ length buf
    → bound_reply buf n ≡ some r
    → (bound_reply (buf ++ more) n ≡ some r) × Within buf r
unfolding bound_reply
bound_reply-append buf more n r long e = elim (Bool-cases (ltb (length buf) (4 + n + 2))) [
  | inl short ↦ cc (rw short at e)
  | inr fits ↦
      let e' = rw fits at e in
      let all = length-append buf more in
      let fits' : ltb (length (buf ++ more)) (4 + n + 2) ≡ false = ground arith in
      let small : 4 + n + 2 ≤ length buf = ground arith in
      let b₀ : byte_at (buf ++ more) 0 ≡ byte_at buf 0 =
        get_or-append_left buf more 0 0 (omega arith) in
      let b₁ : byte_at (buf ++ more) 1 ≡ byte_at buf 1 =
        get_or-append_left buf more 1 0 (omega arith) in
      (rw (fits', b₀, b₁) e', subst (Within buf) (some_inj e') small)
]

read_reply-append :
    (buf more : Bytes) (r : Reply)
    → read_reply buf ≡ some r
    → (read_reply (buf ++ more) ≡ some r) × Within buf r
unfolding read_reply
read_reply-append buf more r e = elim (Bool-cases (ltb (length buf) 7)) [
  | inl short ↦ cc (rw short at e)
  | inr long ↦
      let all = length-append buf more in
      let long' : ltb (length (buf ++ more)) 7 ≡ false = ground arith in
      let big : 7 ≤ length buf = ground arith in
      let b₃ : byte_at (buf ++ more) 3 ≡ byte_at buf 3 =
        get_or-append_left buf more 3 0 (omega arith) in
      let b₄ : byte_at (buf ++ more) 4 ≡ byte_at buf 4 =
        get_or-append_left buf more 4 0 (omega arith) in
      let e₀ = rw long at e in
      elim (Bool-cases (byte_at buf 3 == 0x01)) [
        | inl t ↦ rw (long', b₃, t) (bound_reply-append buf more 4 r big (rw t at e₀))
        | inr f ↦ elim (Bool-cases (byte_at buf 3 == 0x04)) [
          | inl t ↦ rw (long', b₃, f, t) (bound_reply-append buf more 16 r big (rw (f, t) at e₀))
          | inr g ↦ elim (Bool-cases (byte_at buf 3 == 0x03)) [
            | inl t ↦
                rw (long', b₃, b₄, f, g, t)
                  (bound_reply-append buf more (1 + byte_at buf 4) r big (rw (f, g, t) at e₀))
            | inr h ↦
                let e₁ = rw (f, g, h) at e₀ in
                (rw (long', b₃, f, g, h) e₁, subst (Within buf) (some_inj e₁) (omega arith))
          ]
        ]
      ]
]

answer-append :
    (c : Config) (buf more : Bytes) (w : List Bytes) (r : Reply)
    → Within buf r
    → on_chunk c (answer buf w r) more ≡ answer (buf ++ more) w r
unfolding on_chunk on_data_in answer
answer-append c buf more w (unknown_atyp a) h = refl
answer-append c buf more w (reply ver rep consumed) h = elim (Bool-cases (ver == 0x05)) [
  | inl v ↦ elim (Bool-cases (rep == 0x00)) [
    | inl t ↦ rw (v, t) (ap (λ z. at (tunnel z) w) (sym (drop-append_left consumed buf more h)))
    | inr t ↦ rw (v, t) refl
  ]
  | inr v ↦ rw v refl
]

run_connect-append :
    (c : Config) (buf more : Bytes) (w : List Bytes)
    → on_chunk c (run_connect buf w) more ≡ run_connect (buf ++ more) w
unfolding on_chunk on_data_in run_connect
run_connect-append c buf more w = elim (Option-cases (read_reply buf)) [
  | inl e ↦ rw (e, run_connect) refl
  | inr (r, e) ↦
      let (e', fits) = read_reply-append buf more r e in
      rw (run_connect, e, e') (answer-append c buf more w r fits)
]

requested :
    (c : Config) (o : Option Bytes) (buf more : Bytes) (w : List Bytes)
    → on_chunk c (elim o [ none ↦ at threw w | some req ↦ run_connect buf (w ++ (req ∷ [])) ]) more
      ≡ elim o [ none ↦ at threw w | some req ↦ run_connect (buf ++ more) (w ++ (req ∷ [])) ]
unfolding on_chunk on_data_in
requested c none buf more w = refl
requested c (some req) buf more w = run_connect-append c buf more (w ++ (req ∷ []))

send_connect-append :
    (c : Config) (buf more : Bytes) (w : List Bytes)
    → on_chunk c (send_connect c buf w) more ≡ send_connect c (buf ++ more) w
unfolding on_chunk on_data_in send_connect
send_connect-append c buf more w = requested c c.connect_request buf more w

-- The first two bytes do not change.
two_bytes :
    (buf more : Bytes)
    → ltb (length buf) 2 ≡ false
    → (ltb (length (buf ++ more)) 2 ≡ false)
      × (byte_at (buf ++ more) 0 ≡ byte_at buf 0)
      × (byte_at (buf ++ more) 1 ≡ byte_at buf 1)
      × (drop 2 (buf ++ more) ≡ drop 2 buf ++ more)
two_bytes buf more long =
    let all = length-append buf more in
    let big : 2 ≤ length buf = ground arith in
    (
      ground arith,
      get_or-append_left buf more 0 0 (omega arith),
      get_or-append_left buf more 1 0 (omega arith),
      drop-append_left 2 buf more big,
    )

run_auth-append :
    (c : Config) (buf more : Bytes) (w : List Bytes)
    → on_chunk c (run_auth c buf w) more ≡ run_auth c (buf ++ more) w
unfolding on_chunk on_data_in run_auth
run_auth-append c buf more w = elim (Bool-cases (ltb (length buf) 2)) [
  | inl short ↦ rw short refl
  | inr long ↦
      let (long', b₀, b₁, left) = two_bytes buf more long in
      elim (Bool-cases (byte_at buf 0 == 0x01)) [
        | inl v ↦ elim (Bool-cases (byte_at buf 1 == 0x00)) [
          | inl t ↦ rw (long, long', b₀, b₁, v, t, left) (send_connect-append c (drop 2 buf) more w)
          | inr t ↦ rw (long, long', b₀, b₁, v, t) refl
        ]
        | inr v ↦ rw (long, long', b₀, v) refl
      ]
]

authorised :
    (c : Config) (o : Option (Bytes × Bytes)) (buf more : Bytes) (w : List Bytes)
    → on_chunk c
        (elim o [
          | none ↦ at (failed no_credentials) w
          | some (user, password) ↦ run_auth c buf (w ++ (build_auth_request user password ∷ []))
        ])
        more
      ≡ elim o [
        | none ↦ at (failed no_credentials) w
        | some (user, password) ↦
            run_auth c (buf ++ more) (w ++ (build_auth_request user password ∷ []))
      ]
unfolding on_chunk on_data_in
authorised c none buf more w = refl
authorised c (some p) buf more w =
    run_auth-append c buf more (w ++ (build_auth_request p.0 p.1 ∷ []))

send_auth-append :
    (c : Config) (buf more : Bytes) (w : List Bytes)
    → on_chunk c (send_auth c buf w) more ≡ send_auth c (buf ++ more) w
unfolding on_chunk on_data_in send_auth
send_auth-append c buf more w = authorised c c.credentials buf more w

run_greeting-append :
    (c : Config) (buf more : Bytes) (w : List Bytes)
    → on_chunk c (run_greeting c buf w) more ≡ run_greeting c (buf ++ more) w
unfolding on_chunk on_data_in run_greeting
run_greeting-append c buf more w = elim (Bool-cases (ltb (length buf) 2)) [
  | inl short ↦ rw short refl
  | inr long ↦
      let (long', b₀, b₁, left) = two_bytes buf more long in
      elim (Bool-cases (byte_at buf 0 == 0x05)) [
        | inl v ↦ elim (Bool-cases (byte_at buf 1 == 0xff)) [
          | inl n ↦ rw (long, long', b₀, b₁, v, n) refl
          | inr n ↦ elim (Bool-cases (byte_at buf 1 == 0x00)) [
            | inl t ↦
                rw (long, long', b₀, b₁, v, n, t, left) (send_connect-append c (drop 2 buf) more w)
            | inr t ↦ elim (Bool-cases (byte_at buf 1 == 0x02)) [
              | inl a ↦
                  rw (long, long', b₀, b₁, v, n, t, a, left)
                    (send_auth-append c (drop 2 buf) more w)
              | inr a ↦ rw (long, long', b₀, b₁, v, n, t, a) refl
            ]
          ]
        ]
        | inr v ↦ rw (long, long', b₀, v) refl
      ]
]

chunks_in :
    (c : Config) (p : Phase) (w : List Bytes) (a b : Bytes)
    → on_chunk c (on_data_in c p w a) b ≡ on_data_in c p w (a ++ b)
unfolding on_chunk on_data_in
chunks_in c (greeting buf) w a b =
    run_greeting-append c (buf ++ a) b w ∙ ap (λ z. run_greeting c z w) (append_assoc buf a b)
chunks_in c (auth buf) w a b =
    run_auth-append c (buf ++ a) b w ∙ ap (λ z. run_auth c z w) (append_assoc buf a b)
chunks_in c (connect buf) w a b =
    run_connect-append c (buf ++ a) b w ∙ ap (λ z. run_connect z w) (append_assoc buf a b)
chunks_in c (tunnel stream) w a b = ap (λ z. at (tunnel z) w) (append_assoc stream a b)
chunks_in c (failed e) w a b = refl
chunks_in c threw w a b = refl

-- Two chunks leave the handshake where their bytes in one chunk leave it: in the same state, with the
-- same requests written, and with the same bytes of the tunnel for the caller.
pub on_chunk-append :
    (c : Config) (s : State) (a b : Bytes) → on_chunk c (on_chunk c s a) b ≡ on_chunk c s (a ++ b)
unfolding on_chunk
on_chunk-append c s a b = chunks_in c s.phase s.written a b
