-- ===== src/H2/Session/Send/Rounds.antt =====
-- `_sendData` keeps to the flow-control windows, and sends as much of the body as they allow.
use Prim.Native.Nat.{min}
use hellojs.Common.{
  ℕ, zero, suc, ◌+◌, ◌-◌, ◌≤◌, ◌<◌, ◌≡◌, refl, ap, ◌∙◌, sym, subst, Bool, false, ◌&&◌, List, [],
  ◌∷◌, ◌++◌, append_assoc, append-nil, if◌then◌else◌, ◌==◌, length, take, drop, length-take,
  length-append, length-drop, take-add, arith, Bool-cases, inl, inr, All,
}
use hellojs.Common.Bytes.{Bytes}
use Prim.{tt}
use hellojs.H2.Frame.Kind
use hellojs.H2.Frame.Flag
use hellojs.H2.Session.Receive.{concat}
use hellojs.H2.Session.State.{Session, Effect, sent, get_stream}
use hellojs.H2.Session.Send.{max_frame, room, send_chunk, send_rounds, send_data}
use hellojs.H2.Session.Send.Flow.{
  window_of, less, allowed, Sends, send_chunk-Sends, room-open, allowed_next, allowed_none,
  allowed_zero, allowed_le, less_zero, less_add,
}

-- One frame for each chunk, END_STREAM on the last one if `fin` says so.
abbrev pub data_frames : ℕ → Bool → List Bytes → List Effect
data_frames id fin [] = []
data_frames id fin (c ∷ []) = sent Kind.data_frame (if fin then Flag.end_stream else 0) id c ∷ []
data_frames id fin (c ∷ d ∷ ds) = sent Kind.data_frame 0 id c ∷ data_frames id fin (d ∷ ds)

-- The session `s'` is `s` after it sent the chunks, which are the first `n` bytes of a body.
abbrev pub HasSent : Session → ℕ → Bytes → Bool → ℕ → List Bytes → Session → Type 0
HasSent s id body end n chunks s' =
    (s'.effects ≡ s.effects ++ data_frames id (end && length body == n) chunks)
    × (concat chunks ≡ take n body)
    × All (λ c. (0 < length c) × (length c ≤ max_frame s)) chunks
    × (s'.conn_send_window ≡ s.conn_send_window - n)
    × (window_of s' id ≡ less (window_of s id) n)

max_frame_pos : (s : Session) → 0 < max_frame s
unfolding max_frame
max_frame_pos s = ground arith

data_frames-next :
    (id : ℕ) (c : Bytes) (cs : List Bytes) (rest : Bytes) (end : Bool) (n : ℕ)
    → concat cs ≡ take n rest
    → n ≤ length rest
    → All (λ c. (0 < length c)) cs
    → (sent Kind.data_frame (if length rest == 0 && end then Flag.end_stream else 0) id c
        ∷ data_frames id (end && length rest == n) cs)
      ≡ data_frames id (end && length rest == n) (c ∷ cs)
unfolding concat
data_frames-next id c [] rest end n e le all =
    let len : 0 ≡ min n (length rest) = ap length e ∙ length-take n rest in
    let zero_n : n ≡ 0 = omega arith in
    subst
      (λ k.
        (sent Kind.data_frame (if length rest == 0 && end then Flag.end_stream else 0) id c ∷ [])
        ≡ (sent Kind.data_frame (if end && length rest == k then Flag.end_stream else 0) id c ∷ []))
      (sym zero_n)
      (elim (Bool-cases end) [
        | inl t ↦ elim (Bool-cases (length rest == 0)) [
          | inl z ↦ rw (t, z) refl
          | inr z ↦ rw (t, z) refl
        ]
        | inr t ↦ elim (Bool-cases (length rest == 0)) [
          | inl z ↦ rw (t, z) refl
          | inr z ↦ rw (t, z) refl
        ]
      ])
data_frames-next id c (d ∷ ds) rest end n e le (h, all) =
    let len : length (d ++ concat ds) ≡ min n (length rest) = ap length e ∙ length-take n rest in
    let parts : length (d ++ concat ds) ≡ length d + length (concat ds) =
      length-append d (concat ds) in
    let full : (length rest == 0) ≡ false = ground arith in rw full refl

nothing_sent :
    (s : Session) (id : ℕ) (body : Bytes) (end : Bool) (n : ℕ)
    → n ≡ 0
    → HasSent s id body end n [] s
unfolding concat
nothing_sent s id body end n e =
    subst (λ k. HasSent s id body end k [] s) (sym e)
      (sym (append-nil s.effects), refl, tt, omega arith, sym (less_zero (window_of s id)))

All-positive :
    (max : ℕ) (chunks : List Bytes)
    → All (λ c. (0 < length c) × (length c ≤ max)) chunks
    → All (λ c. 0 < length c) chunks
All-positive max [] all = tt
All-positive max (c ∷ cs) ((pos, small), all) = (pos, All-positive max cs all)

-- One round, and then what the other rounds sent.
next_sent :
    (s s₁ s' : Session) (id : ℕ) (body : Bytes) (end : Bool) (count n : ℕ) (chunks : List Bytes)
    → 0 < count
    → count ≤ max_frame s
    → count ≤ length body
    → n ≤ length body - count
    → Sends s id
        (take count body)
        (if length (drop count body) == 0 && end then Flag.end_stream else 0)
        s₁
    → HasSent s₁ id (drop count body) end n chunks s'
    → HasSent s id body end (count + n) (take count body ∷ chunks) s'
unfolding concat
next_sent s s₁ s' id body end count n chunks pos small len le (fx, conn, win, max)
      (fx', whole, sizes, conn', win') =
    let size : length (take count body) ≡ count = length-take count body ∙ omega arith in
    let rest : length (drop count body) ≡ length body - count = length-drop count body in
    let same : (length (drop count body) == n) ≡ (length body == count + n) = ground arith in
    let sizes' : All (λ c. (0 < length c) × (length c ≤ max_frame s)) chunks =
      subst (λ m. All (λ c. (0 < length c) × (length c ≤ m)) chunks) max sizes in
    let last =
      data_frames-next id (take count body) chunks (drop count body) end n whole (rw rest le)
        (All-positive (max_frame s) chunks sizes') in
    (
      fx'
          ∙ ap (λ z. z ++ data_frames id (end && length (drop count body) == n) chunks) fx
          ∙ append_assoc s.effects _ _
          ∙ ap (λ z. s.effects ++ z) last
          ∙ ap (λ b. s.effects ++ data_frames id (end && b) (take count body ∷ chunks)) same,
      ap (λ z. take count body ++ z) whole ∙ sym (take-add count n body),
      ((ground arith, ground arith), sizes'),
      conn' ∙ ap (λ z. z - n) conn ∙ rw size (omega arith),
      win' ∙ ap (λ z. less z n) win ∙ rw size (less_add (window_of s id) count n),
    )

allowed_after :
    (s s₁ : Session) (id flags count : ℕ) (body : Bytes)
    → count ≤ length body
    → Sends s id (take count body) flags s₁
    → allowed s₁.conn_send_window (window_of s₁ id) (length (drop count body))
      ≡ allowed (s.conn_send_window - count) (less (window_of s id) count) (length body - count)
allowed_after s s₁ id flags count body len (fx, conn, win, max) =
    let size : length (take count body) ≡ count = length-take count body ∙ omega arith in
    let conn' : s₁.conn_send_window ≡ s.conn_send_window - count = rw conn (rw size refl) in
    let win' : window_of s₁ id ≡ less (window_of s id) count = win ∙ rw size refl in
    rw (conn', win', length-drop count body) refl

send_rounds_lem :
    (fuel : ℕ) (s : Session) (id : ℕ) (body : Bytes) (end : Bool)
    → length body ≤ fuel
    → (chunks : List Bytes) × HasSent s id body end
        (allowed s.conn_send_window (window_of s id) (length body))
        chunks
        (send_rounds fuel s id body end)
unfolding send_rounds
send_rounds_lem zero s id [] end h =
    ([], nothing_sent s id [] end _ (allowed_zero s.conn_send_window (window_of s id)))
send_rounds_lem zero s id (b ∷ bs) end h = ([], nothing_sent s id (b ∷ bs) end _ (omega arith))
send_rounds_lem (suc fuel) s id [] end h =
    ([], nothing_sent s id [] end _ (allowed_zero s.conn_send_window (window_of s id)))
send_rounds_lem (suc fuel) s id (b ∷ bs) end h =
    let count = min (max_frame s) (min (length (b ∷ bs)) (room s id)) in
    let flags = (if length (drop count (b ∷ bs)) == 0 && end then Flag.end_stream else 0) in
    let s₁ = send_chunk s id (take count (b ∷ bs)) flags in
    let opened = room-open s id (get_stream id s.streams) refl in
    elim (Bool-cases (room s id == 0)) [
      | inl z ↦ rw z (
        [],
        nothing_sent s id (b ∷ bs) end _ (
            allowed_none (max_frame s) s.conn_send_window (length (b ∷ bs)) (window_of s id)
              (max_frame_pos s) (sym opened ∙ ground arith)),
      )
      | inr z ↦
          let parts =
            allowed_next (max_frame s) s.conn_send_window (length (b ∷ bs)) count (window_of s id)
              (max_frame_pos s) (omega arith) (subst (λ r. 0 < r) opened (ground arith))
              (ap (λ r. min (max_frame s) (min (length (b ∷ bs)) r)) opened) in
          let sends =
            send_chunk-Sends s id (take count (b ∷ bs)) flags (get_stream id s.streams) refl in
          let later =
            send_rounds_lem fuel s₁ id (drop count (b ∷ bs)) end
              (rw (length-drop count (b ∷ bs)) (ground arith)) in
          let total =
            parts.3
            ∙ ap (λ z. count + z)
                (sym (allowed_after s s₁ id flags count (b ∷ bs) parts.2 sends)) in
          rw z (
            take count (b ∷ bs) ∷ later.0,
            subst
                (λ n.
                  HasSent s id (b ∷ bs) end n (take count (b ∷ bs) ∷ later.0)
                    (send_rounds fuel s₁ id (drop count (b ∷ bs)) end))
                (sym total)
                (next_sent s s₁ (send_rounds fuel s₁ id (drop count (b ∷ bs)) end) id (b ∷ bs) end
                  count _ later.0 parts.0 parts.1 parts.2
                  (subst
                    (λ m.
                      allowed s₁.conn_send_window (window_of s₁ id) (length (drop count (b ∷ bs)))
                      ≤ m)
                    (length-drop count (b ∷ bs))
                    (allowed_le s₁.conn_send_window (length (drop count (b ∷ bs)))
                      (window_of s₁ id)))
                  sends later.1),
          )
    ]

-- Of a body that is not empty, `_sendData` sends the longest prefix that the two windows allow, in
-- DATA frames that are not empty and not above the frame size; the windows shrink by the prefix's
-- length, and END_STREAM is on the last frame if the body is to end the stream and was sent in full.
pub send_data-HasSent :
    (s : Session) (id : ℕ) (body : Bytes) (end : Bool)
    → 0 < length body
    → (chunks : List Bytes) × HasSent s id body end
        (allowed s.conn_send_window (window_of s id) (length body))
        chunks
        (send_data s id body end)
unfolding send_data
send_data-HasSent s id body end h =
    let full : (length body == 0) ≡ false = ground arith in
    rw full (send_rounds_lem (length body) s id body end (omega arith))

pub max_frame_bound : (s : Session) → (0 < max_frame s) × (max_frame s ≤ 16384)
unfolding max_frame
max_frame_bound s = ground arith
