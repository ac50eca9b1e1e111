-- ===== src/H2/Session/Send/Flow.antt =====
-- The two windows of `_sendData`: what they allow, and what one frame takes of them.
use Prim.Native.Nat.{min}
use hellojs.Common.{
  ℕ, ◌+◌, ◌-◌, ◌≤◌, ◌<◌, ◌≡◌, refl, ap, sym, subst, List, [], ◌∷◌, ◌++◌, Option, none, some, length,
  arith,
}
use hellojs.Common.Bytes.{Bytes}
use hellojs.H2.Frame.Kind
use hellojs.H2.Session.State.{Stream, Session, sent, get_stream, put_stream}
use hellojs.H2.Session.Send.{max_frame, stream_room, room, shrink, send_chunk}

abbrev pub window : Option Stream → Option ℕ
window none = none
window (some t) = some t.send_window

-- The window of a stream, if it is open.
abbrev pub window_of : Session → ℕ → Option ℕ
window_of s id = window (get_stream id s.streams)

abbrev pub less : Option ℕ → ℕ → Option ℕ
less none n = none
less (some w) n = some (w - n)

-- How much of `len` bytes the connection's window and the stream's let pass.
abbrev pub allowed : ℕ → Option ℕ → ℕ → ℕ
allowed conn none len = min len conn
allowed conn (some w) len = min len (min conn w)

pub get_stream_id : (id : ℕ) (ss : List Stream) (t : Stream) → get_stream id ss ≡ some t → t.id ≡ id
unfolding get_stream
get_stream_id id [] t e = cc
get_stream_id id (s ∷ ss) t e = ground (arith, get_stream_id id ss t)

pub get_stream-put_stream :
    (t t' : Stream) (ss : List Stream)
    → get_stream t'.id ss ≡ some t
    → get_stream t'.id (put_stream t' ss) ≡ some t'
unfolding get_stream put_stream
get_stream-put_stream t t' [] e = cc
get_stream-put_stream t t' (s ∷ ss) e = ground (arith, get_stream-put_stream t t' ss)

-- What one DATA frame changes.
abbrev pub Sends : Session → ℕ → Bytes → ℕ → Session → Type 0
Sends s id chunk flags s' =
    (s'.effects ≡ s.effects ++ (sent Kind.data_frame flags id chunk ∷ []))
    × (s'.conn_send_window ≡ s.conn_send_window - length chunk)
    × (window_of s' id ≡ less (window_of s id) (length chunk))
    × (max_frame s' ≡ max_frame s)

pub shrink-window :
    (id : ℕ) (n : ℕ) (t : Stream) (ss : List Stream)
    → get_stream id ss ≡ some t
    → window (get_stream id (put_stream (record t { send_window = t.send_window - n }) ss))
      ≡ less (some t.send_window) n
shrink-window id n t ss e =
    let same = get_stream_id id ss t e in
    let t' : Stream = record t { send_window = t.send_window - n } in
    ap window (
      subst (λ i. get_stream i (put_stream t' ss) ≡ some t') same
        (get_stream-put_stream t t' ss (subst (λ i. get_stream i ss ≡ some t) (sym same) e)))

pub send_chunk-Sends :
    (s : Session) (id : ℕ) (chunk : Bytes) (flags : ℕ) (o : Option Stream)
    → get_stream id s.streams ≡ o
    → Sends s id chunk flags (send_chunk s id chunk flags)
unfolding send_chunk shrink max_frame
send_chunk-Sends s id chunk flags none e = rw (e, shrink) (refl, refl, rw (e, window) refl, refl)
send_chunk-Sends s id chunk flags (some t) e =
    rw (e, shrink) (refl, refl, shrink-window id (length chunk) t s.streams e, refl)

abbrev pub open_room : ℕ → ℕ → Option ℕ → ℕ
open_room max conn none = min max (min conn max)
open_room max conn (some w) = min max (min conn w)

pub room-open :
    (s : Session) (id : ℕ) (o : Option Stream)
    → get_stream id s.streams ≡ o
    → room s id ≡ open_room (max_frame s) s.conn_send_window (window o)
unfolding room stream_room
room-open s id none e = rw (e, room, stream_room) refl
room-open s id (some t) e = rw (e, room, stream_room) refl

-- A round sends part of what is allowed.
pub allowed_next :
    (max conn len count : ℕ) (w : Option ℕ)
    → 0 < max
    → 0 < len
    → 0 < open_room max conn w
    → count ≡ min max (min len (open_room max conn w))
    → (0 < count)
      × (count ≤ max)
      × (count ≤ len)
      × (allowed conn w len ≡ count + allowed (conn - count) (less w count) (len - count))
allowed_next max conn len count none m l r e = omega arith
allowed_next max conn len count (some w) m l r e = omega arith

pub allowed_none :
    (max conn len : ℕ) (w : Option ℕ) → 0 < max → open_room max conn w ≡ 0 → allowed conn w len ≡ 0
allowed_none max conn len none m e = omega arith
allowed_none max conn len (some w) m e = omega arith

pub allowed_zero : (conn : ℕ) (w : Option ℕ) → allowed conn w 0 ≡ 0
allowed_zero conn none = omega arith
allowed_zero conn (some w) = omega arith

pub allowed_le : (conn len : ℕ) (w : Option ℕ) → allowed conn w len ≤ len
allowed_le conn len none = omega arith
allowed_le conn len (some w) = omega arith

pub less_zero : (w : Option ℕ) → less w 0 ≡ w
less_zero none = refl
less_zero (some w) = ap some (omega arith)

pub less_add : (w : Option ℕ) (a b : ℕ) → less (less w a) b ≡ less w (a + b)
less_add none a b = refl
less_add (some w) a b = ap some (omega arith)
