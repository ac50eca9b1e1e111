-- ===== src/H2/Session/State.antt =====
-- The state of `H2Session` and `H2Stream`, and the helpers that both directions use.
use hellojs.Common.{
  ℕ, ◌+◌, Bool, true, false, List, [], ◌∷◌, ◌++◌, Option, none, some, if◌then◌else◌, leb, ◌==◌,
}
use hellojs.Common.Bytes.{Bytes}
use hellojs.Common.Text.{Text}
use hellojs.H2.Frame.{build_window_update, build_goaway}
use hellojs.H2.Frame.Kind
use hellojs.H2.Hpack.Table.{DynamicTable, new_table}

pub record Stream : Type 0 where
  pub id : ℕ
  pub closed : Bool
  pub end_recvd : Bool
  pub header_fragments : Option (List Bytes)
  pub header_bytes : ℕ
  pub header_end_stream : Bool
  pub send_window : ℕ
  pub recv_used : ℕ
  pub wrote_body : Bool

-- The `code` of the error that ends a connection.
pub data Fatal : Type 0 where
  compress protocol out_of_range : Fatal

-- What the session does to the outside, in order: the arguments of `_sendFrame`, and the events.
pub data Effect : Type 0 where
  sent : ℕ → ℕ → ℕ → Bytes → Effect
  connect : Effect
  response : ℕ → List (Text × List Text) → Effect
  body_chunk : ℕ → Bytes → Effect
  stream_end : ℕ → Effect
  stream_reset : ℕ → ℕ → Effect
  stream_error : ℕ → Fatal → Effect
  goaway : ℕ → ℕ → Effect
  transport_destroy : Effect
  session_close : Effect

-- `peer_settings` lists the ids set, newest first; `max_concurrent_streams` is never read.
pub record Session : Type 0 where
  pub streams : List Stream
  pub next_stream_id : ℕ
  pub rx_buf : Bytes
  pub saw_settings : Bool
  pub peer_settings : List (ℕ × ℕ)
  pub conn_send_window : ℕ
  pub conn_recv_used : ℕ
  pub local_table : DynamicTable
  pub peer_table : DynamicTable
  pub closed : Bool
  pub destroyed : Bool
  pub effects : List Effect

-- The constructor, behind the preface that it sends.
unfoldable pub new_session : Session
new_session = record {
  streams = [];
  next_stream_id = 1;
  rx_buf = [];
  saw_settings = false;
  peer_settings = (0x01, 4096) ∷ (0x04, 65535) ∷ (0x05, 16384) ∷ [];
  conn_send_window = 65535;
  conn_recv_used = 0;
  local_table = new_table 65536;
  peer_table = new_table 4096;
  closed = false;
  destroyed = false;
  effects = [];
}

unfoldable pub new_stream : ℕ → Stream
new_stream id = record {
  id = id;
  closed = false;
  end_recvd = false;
  header_fragments = none;
  header_bytes = 0;
  header_end_stream = false;
  send_window = 65535;
  recv_used = 0;
  wrote_body = false;
}

unfoldable pub get_stream : ℕ → List Stream → Option Stream
get_stream id [] = none
get_stream id (s ∷ ss) = if s.id == id then some s else get_stream id ss

-- The object in the map is changed in place.
unfoldable pub put_stream : Stream → List Stream → List Stream
put_stream s [] = []
put_stream s (t ∷ ts) = if t.id == s.id then s ∷ ts else t ∷ put_stream s ts

unfoldable pub delete_stream : ℕ → List Stream → List Stream
delete_stream id [] = []
delete_stream id (s ∷ ss) = if s.id == id then ss else s ∷ delete_stream id ss

unfoldable pub setting : ℕ → List (ℕ × ℕ) → ℕ
setting id [] = 0
setting id ((i, v) ∷ rest) = if i == id then v else setting id rest

abbrev pub emit : Session → Effect → Session
emit s e = record s { effects = s.effects ++ (e ∷ []) }

-- `_sendFrame`
abbrev pub send_frame : Session → ℕ → ℕ → ℕ → Bytes → Session
send_frame s kind flags stream_id payload = emit s (sent kind flags stream_id payload)

abbrev pub set_stream : Session → Stream → Session
set_stream s t = record s { streams = put_stream t s.streams }

-- `_creditFlow`
unfoldable pub credit_flow : Session → ℕ → Session
credit_flow s bytes =
    let used = s.conn_recv_used + bytes in
    if leb 65536 used
    then send_frame (record s { conn_recv_used = 0 }) Kind.window_update 0 0
        (build_window_update used)
    else record s { conn_recv_used = used }

-- `_closeStream`
abbrev pub close_stream : Session → ℕ → Session
close_stream s id = record s { streams = delete_stream id s.streams }

unfoldable pub fail_streams : List Stream → Fatal → List Effect
fail_streams [] code = []
fail_streams (t ∷ ts) code = stream_error t.id code ∷ fail_streams ts code

-- `_fatalError`
unfoldable pub fatal_error : Session → Fatal → Session
fatal_error s code = if s.destroyed then s else record s {
  destroyed = true;
  closed = true;
  streams = [];
  effects =
      s.effects
      ++ (fail_streams s.streams code
          ++ (sent Kind.goaway 0 0 (build_goaway 0 1 []) ∷ transport_destroy ∷ session_close ∷ []));
}
