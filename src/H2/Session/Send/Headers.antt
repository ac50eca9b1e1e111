-- ===== src/H2/Session/Send/Headers.antt =====
-- `request` splits a long header block over HEADERS and CONTINUATION frames without a loss.
use Prim.{tt}
use hellojs.Common.{
  ℕ, zero, suc, ◌+◌, ◌-◌, Bool, true, Option, ◌≤◌, ◌<◌, ◌≡◌, refl, ap, ◌∙◌, sym, subst, false, List,
  [], ◌∷◌, ◌++◌, append_assoc, append-nil, if◌then◌else◌, ltb, ◌==◌, length, take, drop,
  length-take, length-drop, length-append, take-drop, arith, Bool-cases, inl, inr, All,
}
use hellojs.Common.Bytes.{Bytes}
use hellojs.H2.Frame.Kind
use hellojs.H2.Frame.Flag
use hellojs.H2.Session.Receive.{concat}
use hellojs.H2.Session.State.{Session, Effect, new_stream, sent, send_frame}
use hellojs.Common.Text.{Strings}
use hellojs.H2.Hpack.Table.{Header}
use hellojs.H2.Hpack.Codec.{encode}
use hellojs.H2.Session.Send.{
  Priority, request, sends_priority, priority_bytes, max_frame, continuation_frames, send_headers,
}
use hellojs.H2.Session.Send.Rounds.{max_frame_bound}

-- CONTINUATION frames, of which the last one ends the block.
abbrev pub continuations : ℕ → List Bytes → List Effect
continuations id [] = []
continuations id (c ∷ []) = sent Kind.continuation Flag.end_headers id c ∷ []
continuations id (c ∷ d ∷ ds) = sent Kind.continuation 0 id c ∷ continuations id (d ∷ ds)

-- A block as frames: END_HEADERS moves from the HEADERS frame to the last one.
abbrev pub header_frames : ℕ → ℕ → List Bytes → List Effect
header_frames id flags [] = []
header_frames id flags (c ∷ []) = sent Kind.headers flags id c ∷ []
header_frames id flags (c ∷ d ∷ ds) =
    sent Kind.headers (flags - Flag.end_headers) id c ∷ continuations id (d ∷ ds)

abbrev pub Split : ℕ → Bytes → List Bytes → Type 0
Split max payload cs = (concat cs ≡ payload) × All (λ c. length c ≤ max) cs

continuations-next :
    (id : ℕ) (c : Bytes) (cs : List Bytes) (rest : Bytes)
    → concat cs ≡ rest
    → All (λ c. 0 < length c) cs
    → (sent Kind.continuation (if length rest == 0 then Flag.end_headers else 0) id c
        ∷ continuations id cs)
      ≡ continuations id (c ∷ cs)
unfolding concat
continuations-next id c [] rest e all =
    subst
      (λ r.
        (sent Kind.continuation (if length r == 0 then Flag.end_headers else 0) id c ∷ [])
        ≡ (sent Kind.continuation Flag.end_headers id c ∷ []))
      e refl
continuations-next id c (d ∷ ds) rest e (h, all) =
    let len = ap length e in
    let parts = length-append d (concat ds) in
    let full : (length rest == 0) ≡ false = ground arith in rw full refl

continuation_frames_lem :
    (fuel max id : ℕ) (left : Bytes) (s : Session)
    → 0 < max
    → length left ≤ fuel
    → (cs : List Bytes) × ((continuation_frames fuel max id left s).effects
        ≡ s.effects ++ continuations id cs)
      × (concat cs ≡ left)
      × All (λ c. length c ≤ max) cs
      × All (λ c. 0 < length c) cs
unfolding continuation_frames concat
continuation_frames_lem zero max id [] s m h = ([], sym (append-nil s.effects), refl, tt, tt)
continuation_frames_lem zero max id (b ∷ bs) s m h = absurd (omega arith)
continuation_frames_lem (suc fuel) max id [] s m h = ([], sym (append-nil s.effects), refl, tt, tt)
continuation_frames_lem (suc fuel) max id (b ∷ bs) s m h =
    let chunk = take max (b ∷ bs) in
    let rest = drop max (b ∷ bs) in
    let size = length-take max (b ∷ bs) in
    let flags = (if length rest == 0 then Flag.end_headers else 0) in
    let later =
      continuation_frames_lem fuel max id rest (send_frame s Kind.continuation flags id chunk) m
        (rw (length-drop max (b ∷ bs)) (ground arith)) in
    (
      chunk ∷ later.0,
      later.1
          ∙ append_assoc s.effects _ _
          ∙ ap (λ z. s.effects ++ z) (continuations-next id chunk later.0 rest later.2 later.4),
      ap (λ z. chunk ++ z) later.2 ∙ take-drop max (b ∷ bs),
      (ground arith, later.3),
      (ground arith, later.4),
    )

header_frames-more :
    (id flags : ℕ) (c : Bytes) (cs : List Bytes)
    → 0 < length (concat cs)
    → header_frames id flags (c ∷ cs)
      ≡ (sent Kind.headers (flags - Flag.end_headers) id c ∷ continuations id cs)
unfolding concat
header_frames-more id flags c [] h = absurd (omega arith)
header_frames-more id flags c (d ∷ ds) h = refl

send_headers-header_frames :
    (s : Session) (id : ℕ) (payload : Bytes) (flags : ℕ)
    → (cs : List Bytes) × ((send_headers s id payload flags).effects
        ≡ s.effects ++ header_frames id flags cs)
      × Split (max_frame s) payload cs
unfolding send_headers concat
send_headers-header_frames s id payload flags =
    let max = max_frame s in
    let first = take max payload in
    let later =
      continuation_frames_lem (length payload) max id (drop max payload)
        (send_frame s Kind.headers (flags - Flag.end_headers) id first) ((max_frame_bound s).0)
        (rw (length-drop max payload) (omega arith)) in
    elim (Bool-cases (ltb max (length payload))) [
      | inl big ↦ rw big (
        first ∷ later.0,
        later.1
            ∙ append_assoc s.effects _ _
            ∙ ap (λ z. s.effects ++ z)
                (sym (
                  header_frames-more id flags first later.0
                    (rw later.2 (rw (length-drop max payload) (ground arith))))),
        (
          ap (λ z. first ++ z) later.2 ∙ take-drop max payload,
          (rw (length-take max payload) (omega arith), later.3),
        ),
      )
      | inr small ↦ rw small (payload ∷ [], refl, (append-nil payload, (ground arith, tt)))
    ]

-- The frames of a block: END_HEADERS is on the last of them alone, whatever else the first one says.
abbrev pub block_frames : ℕ → ℕ → List Bytes → List Effect
block_frames id more [] = []
block_frames id more (c ∷ []) = sent Kind.headers (Flag.end_headers + more) id c ∷ []
block_frames id more (c ∷ d ∷ ds) = sent Kind.headers more id c ∷ continuations id (d ∷ ds)

header_frames-block_frames :
    (id more : ℕ) (cs : List Bytes)
    → header_frames id (Flag.end_headers + more) cs ≡ block_frames id more cs
header_frames-block_frames id more [] = refl
header_frames-block_frames id more (c ∷ []) = refl
header_frames-block_frames id more (c ∷ d ∷ ds) =
    ap (λ f. sent Kind.headers f id c ∷ continuations id (d ∷ ds)) (omega arith)

-- What is sent of a request, with these flags beside END_HEADERS.
abbrev pub Sends : Session → Session → ℕ → Bytes → Type 0
Sends s s' more payload =
    (cs : List Bytes) × (s'.effects ≡ s.effects ++ block_frames s.next_stream_id more cs)
    × (concat cs ≡ payload)
    × All (λ c. length c ≤ max_frame s) cs

sent_block :
    (s : Session) (id flags more : ℕ) (payload : Bytes)
    → flags ≡ Flag.end_headers + more
    → (cs : List Bytes) × ((send_headers s id payload flags).effects
        ≡ s.effects ++ block_frames id more cs)
      × (concat cs ≡ payload)
      × All (λ c. length c ≤ max_frame s) cs
sent_block s id flags more payload e =
    let (cs, effects, split) = send_headers-header_frames s id payload flags in
    let same = ap (λ f. header_frames id f cs) e ∙ header_frames-block_frames id more cs in
    (cs, effects ∙ ap (λ z. s.effects ++ z) same, split.0, split.1)

-- `request` sends the whole header block, behind the five bytes of a priority if there is one, on the
-- next stream: in frames that are not above the frame size, HEADERS and then CONTINUATION, with
-- END_HEADERS on the last frame alone, and with END_STREAM and PRIORITY, where they are due, on
-- the first.
pub request-Sends :
    (u : Strings) (s : Session) (headers : List Header) (end : Bool) (opts : Priority)
    (profile : Option Priority) (priority_frame : Bool)
    → let r = request u s headers end opts profile priority_frame in
      let block = encode u headers s.local_table in
      let ending = if end then Flag.end_stream else 0 in
      (r.1 ≡ s.next_stream_id)
      × (sends_priority opts profile priority_frame ≡ true
          → Sends s r.0 (ending + Flag.priority) (priority_bytes opts profile ++ block))
      × (sends_priority opts profile priority_frame ≡ false → Sends s r.0 ending block)
unfolding request max_frame
request-Sends u s headers end opts profile priority_frame =
    let id = s.next_stream_id in
    let s₁ : Session = record s {
      next_stream_id = id + 2;
      streams = s.streams ++ (new_stream id ∷ []);
    } in
    let block = encode u headers s.local_table in
    let ending = if end then Flag.end_stream else 0 in
    let flags = Flag.end_headers + ending in
    (
      refl,
      λ given.
          rw (request, given)
            (sent_block s₁ id (flags + Flag.priority) (ending + Flag.priority)
              (priority_bytes opts profile ++ block) (omega arith)),
      λ none_given. rw (request, none_given) (sent_block s₁ id flags ending block refl),
    )
