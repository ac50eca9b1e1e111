-- ===== src/H2/Session/Receive/Chunks.antt =====
-- How the transport cuts the bytes into chunks does not matter to `_onData`.
use hellojs.Common.{
  ℕ, zero, suc, ◌≤◌, ◌<◌, ◌≡◌, refl, ap, ◌∙◌, sym, subst, Bool, true, false, [], ◌++◌, append_assoc,
  none, some, ok, err, Result-cases, ok_inj, length, drop, length-drop, drop-append_left, arith,
  inl, inr, if◌then◌else◌,
}
use hellojs.Common.Bytes.{Bytes}
use hellojs.Common.Text.{Strings}
use hellojs.H2.Frame.{Frame, parse}
use hellojs.H2.Frame as FrameCodec
use hellojs.H2.Frame.Codec.{parse-append, parse_short}
use hellojs.H2.Session.State.{Session, Fatal, out_of_range, fatal_error}
use hellojs.H2.Session.Receive.{dispatch, receive_rounds, on_data}
use hellojs.H2.Session.Receive.Buffer.{with_buf, map_ok, dispatch-buf}

if-destroyed :
    (b : Bool) (s s' : Session)
    → s.destroyed ≡ b
    → s'.destroyed ≡ true
    → (if b then s else s').destroyed ≡ true
if-destroyed true s s' e e' = e
if-destroyed false s s' e e' = e'

fatal_error-destroyed : (s : Session) (code : Fatal) → (fatal_error s code).destroyed ≡ true
unfolding fatal_error
fatal_error-destroyed s code = if-destroyed s.destroyed s _ refl refl

module _ (u : Strings) where
  abbrev rest_of : Session → Frame → Session
  rest_of s f = with_buf (drop f.consumed s.rx_buf) s

  abbrev drain : Session → Session
  drain s = receive_rounds u (length s.rx_buf) s

  -- The session with more bytes behind those that it has not read.
  abbrev feed : Bytes → Session → Session
  feed more s = with_buf (s.rx_buf ++ more) s

  dispatch-rx_buf : (s s' : Session) (f : Frame) → dispatch u s f ≡ ok s' → s'.rx_buf ≡ s.rx_buf
  dispatch-rx_buf s s' f e =
      let same = dispatch-buf u s.rx_buf s f in
      ap (λ (z : Session). z.rx_buf) (ok_inj (sym e ∙ same ∙ ap (map_ok (with_buf s.rx_buf)) e))

  -- What a round without a throw does.
  round :
      (fuel : ℕ) (s s' : Session) (f : Frame)
      → parse s.rx_buf ≡ ok (some f)
      → dispatch u (rest_of s f) f ≡ ok s'
      → receive_rounds u (suc fuel) s ≡ receive_rounds u fuel s'
  unfolding receive_rounds
  round fuel s s' f e e' = rw (receive_rounds, e, e') refl

  quiet : (fuel : ℕ) (s : Session) → parse s.rx_buf ≡ ok none → receive_rounds u (suc fuel) s ≡ s
  unfolding receive_rounds
  quiet fuel s e = rw (receive_rounds, e) refl

  bad_frame :
      (fuel : ℕ) (s : Session) (x : FrameCodec.Error)
      → parse s.rx_buf ≡ err x
      → receive_rounds u (suc fuel) s ≡ fatal_error s out_of_range
  unfolding receive_rounds
  bad_frame fuel s x e = rw (receive_rounds, e) refl

  bad_payload :
      (fuel : ℕ) (s : Session) (f : Frame) (code : Fatal)
      → parse s.rx_buf ≡ ok (some f)
      → dispatch u (rest_of s f) f ≡ err code
      → receive_rounds u (suc fuel) s ≡ fatal_error (rest_of s f) code
  unfolding receive_rounds
  bad_payload fuel s f code e e' = rw (receive_rounds, e, e') refl

  -- The four outcomes of a round.
  data Round (s : Session) : Type 0 where
    waits : parse s.rx_buf ≡ ok none → Round s
    malformed : (x : FrameCodec.Error) → parse s.rx_buf ≡ err x → Round s
    throws :
        (f : Frame) (code : Fatal)
        → parse s.rx_buf ≡ ok (some f)
        → dispatch u (rest_of s f) f ≡ err code
        → Round s
    runs :
        (f : Frame) (s' : Session)
        → parse s.rx_buf ≡ ok (some f)
        → dispatch u (rest_of s f) f ≡ ok s'
        → Round s

  outcome : (s : Session) → Round s
  outcome s = elim (Result-cases (parse s.rx_buf)) [
    | inl (none, e) ↦ waits e
    | inl (some f, e) ↦ elim (Result-cases (dispatch u (rest_of s f) f)) [
      | inl (s', e') ↦ runs f s' e e'
      | inr (code, e') ↦ throws f code e e'
    ]
    | inr (x, e) ↦ malformed x e
  ]

  shorter :
      (s s' : Session) (f : Frame)
      → parse s.rx_buf ≡ ok (some f)
      → dispatch u (rest_of s f) f ≡ ok s'
      → length s'.rx_buf < length s.rx_buf
  shorter s s' f e e' =
      let (whole, fits, count, len) = parse-append s.rx_buf [] f e in
      let left =
        ap length (dispatch-rx_buf (rest_of s f) s' f e') ∙ length-drop f.consumed s.rx_buf in
      omega arith

  receive_rounds-fuel :
      (a b : ℕ) (s : Session)
      → length s.rx_buf ≤ a
      → length s.rx_buf ≤ b
      → receive_rounds u a s ≡ receive_rounds u b s
  unfolding receive_rounds
  receive_rounds-fuel zero zero s h k = refl
  receive_rounds-fuel zero (suc b) s h k = sym (quiet b s (parse_short s.rx_buf (omega arith)))
  receive_rounds-fuel (suc a) zero s h k = quiet a s (parse_short s.rx_buf (omega arith))
  receive_rounds-fuel (suc a) (suc b) s h k = elim (outcome s) [
    | waits e ↦ quiet a s e ∙ sym (quiet b s e)
    | malformed x e ↦ bad_frame a s x e ∙ sym (bad_frame b s x e)
    | throws f code e e' ↦ bad_payload a s f code e e' ∙ sym (bad_payload b s f code e e')
    | runs f s' e e' ↦
        let less = shorter s s' f e e' in
        round a s s' f e e'
        ∙ receive_rounds-fuel a b s' (omega arith) (omega arith)
        ∙ sym (round b s s' f e e')
  ]

  drain-round :
      (s s' : Session) (f : Frame)
      → parse s.rx_buf ≡ ok (some f)
      → dispatch u (rest_of s f) f ≡ ok s'
      → drain s ≡ drain s'
  drain-round s s' f e e' =
      let less = shorter s s' f e e' in
      receive_rounds-fuel (length s.rx_buf) (suc (length s.rx_buf)) s (omega arith) (omega arith)
      ∙ round (length s.rx_buf) s s' f e e'
      ∙ receive_rounds-fuel (length s.rx_buf) (length s'.rx_buf) s' (omega arith) (omega arith)

  drain-feed_round :
      (more : Bytes) (s s' : Session) (f : Frame)
      → parse s.rx_buf ≡ ok (some f)
      → dispatch u (rest_of s f) f ≡ ok s'
      → drain (feed more s) ≡ drain (feed more s')
  drain-feed_round more s s' f e e' =
      let (whole, fits, count, len) = parse-append s.rx_buf more f e in
      let left = drop f.consumed (s.rx_buf ++ more) in
      let back : left ≡ s'.rx_buf ++ more =
        drop-append_left f.consumed s.rx_buf more fits
        ∙ ap (λ z. z ++ more) (sym (dispatch-rx_buf (rest_of s f) s' f e')) in
      drain-round (feed more s) (with_buf left s') f whole
        (dispatch-buf u left (rest_of s f) f ∙ ap (map_ok (with_buf left)) e')
      ∙ ap (λ z. drain (with_buf z s')) back

  feed_rounds :
      (fuel : ℕ) (more : Bytes) (s : Session)
      → length s.rx_buf ≤ fuel
      → (receive_rounds u fuel s).destroyed ≡ false
      → drain (feed more s) ≡ drain (feed more (receive_rounds u fuel s))
  unfolding receive_rounds
  feed_rounds zero more s h alive = refl
  feed_rounds (suc fuel) more s h alive = elim (outcome s) [
    | waits e ↦ ap (λ z. drain (feed more z)) (sym (quiet fuel s e))
    | malformed x e ↦ cc (alive, bad_frame fuel s x e, fatal_error-destroyed s out_of_range)
    | throws f code e e' ↦
        cc (alive, bad_payload fuel s f code e e', fatal_error-destroyed (rest_of s f) code)
    | runs f s' e e' ↦
        let less = shorter s s' f e e' in
        let same = round fuel s s' f e e' in
        drain-feed_round more s s' f e e'
        ∙ feed_rounds fuel more s' (omega arith) (subst (λ z. z.destroyed ≡ false) same alive)
        ∙ ap (λ z. drain (feed more z)) (sym same)
  ]

  -- The bytes of one chunk, cut in two, are handled as two chunks that come one after the other, if
  -- the first of the two does not end the connection by an error.
  pub on_data-append :
      (s : Session) (a b : Bytes)
      → (on_data u s a).destroyed ≡ false
      → on_data u s (a ++ b) ≡ on_data u (on_data u s a) b
  unfolding on_data
  on_data-append s a b alive =
      ap (λ z. drain (with_buf z s)) (sym (append_assoc s.rx_buf a b))
      ∙ feed_rounds (length (s.rx_buf ++ a)) b (feed a s) (omega arith) alive
