-- ===== src/H2/Session/Receive/Buffer.antt =====
-- No handler of a frame reads or changes the receive buffer.
use hellojs.Common.{
  ℕ, ◌+◌, ◌≡◌, refl, ap, ◌∙◌, Bool, true, false, List, [], ◌∷◌, ◌++◌, Option, none, some, Result,
  ok, err, ◌>>=◌, Result-cases, if◌then◌else◌, leb, ltb, ◌==◌, length, Bool-cases, inl, inr,
}
use hellojs.Common.Bytes.{Bytes}
use hellojs.Common.Text.{Strings}
use hellojs.H2.Frame.{Frame, build_window_update, parse_settings, parse_goaway, read_uint, low_31}
use hellojs.H2.Frame.Kind
use hellojs.H2.Frame.Flag
use hellojs.H2.Hpack.Table.{set_capacity}
use hellojs.H2.Hpack.Codec.{decode}
use hellojs.H2.Session.State.{
  Stream, Session, Fatal, compress, get_stream, set_stream, emit, send_frame, credit_flow,
  fatal_error, response, body_chunk, connect,
}
use hellojs.H2.Session.Receive.{
  has_flag, concat, collect, from_frame, from_hpack, end_stream, stream_data, stream_rst,
  finalize_headers, stream_headers, stream_continuation, apply_settings, on_settings,
  on_window_update, on_data_frame, on_rst_stream, on_goaway, dispatch,
}

abbrev pub with_buf : Bytes → Session → Session
with_buf x s = record s { rx_buf = x }

abbrev pub map_ok {ℓ} : {A : Type ℓ} → (A → A) → Result Fatal A → Result Fatal A
map_ok f (ok a) = ok (f a)
map_ok f (err e) = err e

credit_flow-buf :
    (x : Bytes) (s : Session) (n : ℕ) → credit_flow (with_buf x s) n ≡ with_buf x (credit_flow s n)
unfolding credit_flow
credit_flow-buf x s n = elim (Bool-cases (leb 65536 (s.conn_recv_used + n))) [
  | inl t ↦ rw t refl
  | inr t ↦ rw t refl
]

fatal_error-buf :
    (x : Bytes) (s : Session) (code : Fatal)
    → fatal_error (with_buf x s) code ≡ with_buf x (fatal_error s code)
unfolding fatal_error
fatal_error-buf x s code = elim (Bool-cases s.destroyed) [ inl t ↦ rw t refl | inr t ↦ rw t refl ]

end_stream-buf :
    (x : Bytes) (s : Session) (t : Stream)
    → end_stream (with_buf x s) t ≡ with_buf x (end_stream s t)
unfolding end_stream
end_stream-buf x s t = elim (Bool-cases t.end_recvd) [ inl e ↦ rw e refl | inr e ↦ rw e refl ]

-- A call that commutes does so in both branches of a test.
if-buf :
    (b : Bool) (x : Bytes) (p q p' q' : Session)
    → p' ≡ with_buf x p
    → q' ≡ with_buf x q
    → (if b then p' else q') ≡ with_buf x (if b then p else q)
if-buf true x p q p' q' e e' = e
if-buf false x p q p' q' e e' = e'

if-ok :
    (b : Bool) (x : Bytes) (p q p' q' : Result Fatal Session)
    → p' ≡ map_ok (with_buf x) p
    → q' ≡ map_ok (with_buf x) q
    → (if b then p' else q') ≡ map_ok (with_buf x) (if b then p else q)
if-ok true x p q p' q' e e' = e
if-ok false x p q p' q' e e' = e'

option-ok {ℓ} :
    {A : Type ℓ} (o : Option A) (x : Bytes) (p : Result Fatal Session)
    (q : A → Result Fatal Session) (p' : Result Fatal Session) (q' : A → Result Fatal Session)
    → p' ≡ map_ok (with_buf x) p
    → ((a : A) → q' a ≡ map_ok (with_buf x) (q a))
    → (elim o [ none ↦ p' | some a ↦ q' a ])
      ≡ map_ok (with_buf x) (elim o [ none ↦ p | some a ↦ q a ])
option-ok none x p q p' q' e e' = e
option-ok (some a) x p q p' q' e e' = e' a

option-buf {ℓ} :
    {A : Type ℓ} (o : Option A) (x : Bytes) (p : Session) (q : A → Session) (p' : Session)
    (q' : A → Session)
    → p' ≡ with_buf x p
    → ((a : A) → q' a ≡ with_buf x (q a))
    → (elim o [ none ↦ p' | some a ↦ q' a ]) ≡ with_buf x (elim o [ none ↦ p | some a ↦ q a ])
option-buf none x p q p' q' e e' = e
option-buf (some a) x p q p' q' e e' = e' a

bind-ok {ℓ} :
    {A : Type ℓ} (r : Result Fatal A) (x : Bytes) (q q' : A → Result Fatal Session)
    → ((a : A) → q' a ≡ map_ok (with_buf x) (q a))
    → (r >>= q') ≡ map_ok (with_buf x) (r >>= q)
bind-ok (ok a) x q q' e = e a
bind-ok (err c) x q q' e = refl

stream_data-buf :
    (x : Bytes) (s : Session) (t : Stream) (payload : Bytes) (flags : ℕ)
    → stream_data (with_buf x s) t payload flags ≡ with_buf x (stream_data s t payload flags)
unfolding stream_data
stream_data-buf x s t payload flags =
    let used = t.recv_used + length payload in
    let s₁ = credit_flow (emit s (body_chunk t.id payload)) (length payload) in
    let credited = credit_flow-buf x (emit s (body_chunk t.id payload)) (length payload) in
    let p =
      send_frame (set_stream s₁ (record t { recv_used = 0 })) Kind.window_update 0 t.id
        (build_window_update used) in
    let q = set_stream s₁ (record t { recv_used = used }) in
    let s₂ = (if leb 32768 used then p else q) in
    let updated =
      if-buf (leb 32768 used) x p q _ _
        (ap
          (λ z.
            send_frame (set_stream z (record t { recv_used = 0 })) Kind.window_update 0 t.id
              (build_window_update used))
          credited)
        (ap (λ z. set_stream z (record t { recv_used = used })) credited) in
    if-buf (has_flag flags Flag.end_stream) x (end_stream s₂ t) s₂ _ _
      (ap (λ z. end_stream z t) updated ∙ end_stream-buf x s₂ t) updated

apply_settings-buf :
    (u : Strings) (x : Bytes) (pairs : List (ℕ × ℕ)) (s : Session)
    → apply_settings u (with_buf x s) pairs ≡ with_buf x (apply_settings u s pairs)
unfolding apply_settings
apply_settings-buf u x [] s = refl
apply_settings-buf u x ((id, v) ∷ rest) s =
    let s' : Session = record s { peer_settings = (id, v) ∷ s.peer_settings } in
    let p : Session = record s' { local_table = set_capacity s.local_table v } in
    ap (λ z. apply_settings u z rest) (if-buf (id == 0x01) x p s' _ _ refl refl)
    ∙ apply_settings-buf u x rest (if id == 0x01 then p else s')

finalize_headers-buf :
    (u : Strings) (x : Bytes) (s : Session) (t : Stream) (block : Bytes)
    → finalize_headers u (with_buf x s) t block ≡ map_ok (with_buf x) (finalize_headers u s t block)
unfolding finalize_headers
finalize_headers-buf u x s t block =
    elim (Result-cases (from_hpack (decode u block s.peer_table 262144))) [
      | inl (r, e) ↦
          let t' : Stream = record t { header_fragments = none } in
          let s' =
            emit (set_stream (record s { peer_table = r.1 }) t') (response t.id (collect r.0 [])) in
          rw e (
            ap ok (
              if-buf t.header_end_stream x (end_stream s' t') s' _ _ (end_stream-buf x s' t') refl))
      | inr (c, e) ↦ rw e refl
    ]

stream_headers-buf :
    (u : Strings) (x : Bytes) (s : Session) (t : Stream) (payload : Bytes) (flags : ℕ)
    → stream_headers u (with_buf x s) t payload flags
      ≡ map_ok (with_buf x) (stream_headers u s t payload flags)
unfolding stream_headers
stream_headers-buf u x s t payload flags =
    if-ok (has_flag flags Flag.end_headers) x _ _ _ _ (finalize_headers-buf u x s _ _) refl

stream_continuation-buf :
    (u : Strings) (x : Bytes) (s : Session) (t : Stream) (payload : Bytes) (flags : ℕ)
    → stream_continuation u (with_buf x s) t payload flags
      ≡ map_ok (with_buf x) (stream_continuation u s t payload flags)
unfolding stream_continuation
stream_continuation-buf u x s t payload flags =
    option-ok t.header_fragments x _ _ _ _ refl (λ fragments.
      let all = fragments ++ (payload ∷ []) in
      let bytes = t.header_bytes + length payload in
      let t' : Stream = record t { header_fragments = some all; header_bytes = bytes } in
      if-ok (ltb 262144 bytes) x _ _ _ _ (ap ok (fatal_error-buf x (set_stream s t') compress)) (
        if-ok (has_flag flags Flag.end_headers) x _ _ _ _
          (finalize_headers-buf u x s t' (concat all)) refl))

on_settings-buf :
    (u : Strings) (x : Bytes) (s : Session) (f : Frame)
    → on_settings u (with_buf x s) f ≡ map_ok (with_buf x) (on_settings u s f)
unfolding on_settings
on_settings-buf u x s f = if-ok (has_flag f.flags Flag.ack) x _ _ _ _ refl (
    bind-ok (from_frame (parse_settings f.payload)) x _ _ (λ pairs.
      let s' = send_frame (apply_settings u s pairs) Kind.settings Flag.ack 0 [] in
      let done = λ (z : Session).
        if z.saw_settings then z else emit (record z { saw_settings = true }) connect in
      let answer =
        ap (λ z. send_frame z Kind.settings Flag.ack 0 []) (apply_settings-buf u x pairs s) in
      ap ok (ap done answer ∙ if-buf s'.saw_settings x s' _ _ _ refl refl)))

on_window_update-buf :
    (u : Strings) (x : Bytes) (s : Session) (f : Frame)
    → on_window_update u (with_buf x s) f ≡ map_ok (with_buf x) (on_window_update u s f)
unfolding on_window_update
on_window_update-buf u x s f = bind-ok (from_frame (read_uint 4 f.payload)) x _ _ (λ w. ap ok (
    if-buf (f.stream_id == 0) x _ _ _ _ refl (
      option-buf (get_stream f.stream_id s.streams) x s
        (λ t. set_stream s (record t { send_window = t.send_window + low_31 w })) _ _ refl
        (λ t. refl))))

on_data_frame-buf :
    (u : Strings) (x : Bytes) (s : Session) (f : Frame)
    → on_data_frame u (with_buf x s) f ≡ with_buf x (on_data_frame u s f)
unfolding on_data_frame
on_data_frame-buf u x s f =
    option-buf (get_stream f.stream_id s.streams) x _ _ _ _ (credit_flow-buf x s _)
      (λ t. stream_data-buf x s t _ f.flags)

on_rst_stream-buf :
    (u : Strings) (x : Bytes) (s : Session) (f : Frame)
    → on_rst_stream u (with_buf x s) f ≡ map_ok (with_buf x) (on_rst_stream u s f)
unfolding on_rst_stream stream_rst
on_rst_stream-buf u x s f =
    bind-ok (from_frame (read_uint 4 f.payload)) x _ _
      (λ code. option-ok (get_stream f.stream_id s.streams) x _ _ _ _ refl (λ t. refl))

on_goaway-buf :
    (u : Strings) (x : Bytes) (s : Session) (f : Frame)
    → on_goaway u (with_buf x s) f ≡ map_ok (with_buf x) (on_goaway u s f)
unfolding on_goaway
on_goaway-buf u x s f = bind-ok (from_frame (parse_goaway f.payload)) x _ _ (λ g. refl)

pub dispatch-buf :
    (u : Strings) (x : Bytes) (s : Session) (f : Frame)
    → dispatch u (with_buf x s) f ≡ map_ok (with_buf x) (dispatch u s f)
unfolding dispatch
dispatch-buf u x s f = if-ok (f.kind == Kind.settings) x _ _ _ _ (on_settings-buf u x s f) (
    if-ok (f.kind == Kind.window_update) x _ _ _ _ (on_window_update-buf u x s f) (
      if-ok (f.kind == Kind.headers) x _ _ _ _
        (option-ok (get_stream f.stream_id s.streams) x _ _ _ _ refl
          (λ t. stream_headers-buf u x s t f.payload f.flags))
        (if-ok (f.kind == Kind.continuation) x _ _ _ _
          (option-ok (get_stream f.stream_id s.streams) x _ _ _ _ refl
            (λ t. stream_continuation-buf u x s t f.payload f.flags))
          (if-ok (f.kind == Kind.data_frame) x _ _ _ _ (ap ok (on_data_frame-buf u x s f)) (
            if-ok (f.kind == Kind.rst_stream) x _ _ _ _ (on_rst_stream-buf u x s f) (
              if-ok (f.kind == Kind.ping) x _ _ _ _
                (ap ok (if-buf (has_flag f.flags Flag.ack) x _ _ _ _ refl refl))
                (if-ok (f.kind == Kind.goaway) x _ _ _ _ (on_goaway-buf u x s f)
                  (if-ok (f.kind == Kind.push_promise) x _ _ _ _ refl refl))))))))
