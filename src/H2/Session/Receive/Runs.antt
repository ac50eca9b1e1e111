-- ===== src/H2/Session/Receive/Runs.antt =====
-- A session at concrete inputs, and the theorems at them.
use hellojs.Common.{◌≡◌, refl, true, false, List, [], ◌∷◌, ◌++◌, none, arith}
use hellojs.Common.Bytes.{Bytes, read_be_from}
use hellojs.Common.Text.{text, ascii}
use hellojs.H2.Frame.{parse, read_uint, low_31}
use hellojs.H2.Frame.Kind
use hellojs.H2.Session.State.{Session, sent, new_session, new_stream}
use hellojs.H2.Session.Receive.{dispatch, receive_rounds, on_data}
use hellojs.H2.Session.Receive.Chunks.{on_data-append}
use hellojs.H2.Session.Send.{send_data, Priority, request, sends_priority, priority_bytes}
use hellojs.H2.Hpack.Table.{Header}
use hellojs.H2.Hpack.Codec.{encode}
use hellojs.H2.Session.Send.Flow.{window_of, allowed}
use hellojs.H2.Session.Send.Rounds.{HasSent, send_data-HasSent}
use hellojs.H2.Session.Send.Headers.{Sends, request-Sends}

-- A session with one stream.
abbrev opened : Session
unfolding new_session new_stream
opened = record new_session { streams = new_stream 1 ∷ [] }

abbrev ping : Bytes
ping = 0 ∷ 0 ∷ 1 ∷ 6 ∷ 0 ∷ 0 ∷ 0 ∷ 0 ∷ 0 ∷ 7 ∷ []

answers_ping : (on_data ascii opened ping).effects ≡ sent Kind.ping 1 0 (7 ∷ []) ∷ []
unfolding on_data receive_rounds dispatch parse read_uint low_31 read_be_from new_session opened
answers_ping = refl

alive : (on_data ascii opened (ping ++ (0 ∷ 0 ∷ []))).destroyed ≡ false
unfolding on_data receive_rounds dispatch parse read_uint low_31 read_be_from new_session opened
alive = refl

on_data-append_example :
    on_data ascii opened ((ping ++ (0 ∷ 0 ∷ [])) ++ (1 ∷ 6 ∷ []))
    ≡ on_data ascii (on_data ascii opened (ping ++ (0 ∷ 0 ∷ []))) (1 ∷ 6 ∷ [])
on_data-append_example = on_data-append ascii opened (ping ++ (0 ∷ 0 ∷ [])) (1 ∷ 6 ∷ []) alive

send_data-HasSent_example :
    (chunks : List Bytes) × HasSent opened 1
      (1 ∷ 2 ∷ 3 ∷ [])
      true
      (allowed opened.conn_send_window (window_of opened 1) 3)
      chunks
      (send_data opened 1 (1 ∷ 2 ∷ 3 ∷ []) true)
send_data-HasSent_example = send_data-HasSent opened 1 (1 ∷ 2 ∷ 3 ∷ []) true (omega arith)

abbrev unset : Priority
unset = record { weight = none; exclusive = none; parent = none }

abbrev asked : List Header
asked = (text ":method", text "GET") ∷ []

request-Sends_example :
    let r = request ascii opened asked true unset none false in
    (r.1 ≡ opened.next_stream_id)
    × (sends_priority unset none false ≡ true
        → Sends opened r.0 0x21
            (priority_bytes unset none ++ encode ascii asked opened.local_table))
    × (sends_priority unset none false ≡ false
        → Sends opened r.0 1 (encode ascii asked opened.local_table))
request-Sends_example = request-Sends ascii opened asked true unset none false
