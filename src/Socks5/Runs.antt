-- ===== src/Socks5/Runs.antt =====
-- Handshakes at concrete bytes, and the theorem at a run.
use hellojs.Common.{◌≡◌, refl, [], ◌∷◌, ◌++◌, some}
use hellojs.Common.Bytes.{Bytes, write_be}
use hellojs.Common.Text.{text, ascii}
use hellojs.Socks5.{
  Net, Config, tunnel, at, start, on_chunk, on_data_in, run_greeting, run_auth, send_auth,
  send_connect, run_connect, read_reply, bound_reply, answer, build_auth_request,
  build_connect_request, address, write_words,
}
use hellojs.Socks5.Chunks.{on_chunk-append}

abbrev names_only : Net
names_only = record { is_ip = λ s. 0; decimal = λ s. 0; hexadecimal = λ s. 0 }

connect_request :
    build_connect_request ascii names_only (text "a.b") 443
    ≡ some (5 ∷ 1 ∷ 0 ∷ 3 ∷ 3 ∷ b'a' ∷ b'.' ∷ b'b' ∷ 1 ∷ 0xbb ∷ [])
unfolding build_connect_request address write_words write_be
connect_request = refl

abbrev config : Config
config = record {
  credentials = some (b'u' ∷ [], b'p' ∷ []);
  connect_request = some (5 ∷ 1 ∷ 0 ∷ []);
}

-- A greeting that asks for credentials, an answer to them, a reply, and two bytes of the tunnel.
abbrev proxy_bytes : Bytes
proxy_bytes = 5 ∷ 2 ∷ 1 ∷ 0 ∷ 5 ∷ 0 ∷ 0 ∷ 1 ∷ 127 ∷ 0 ∷ 0 ∷ 1 ∷ 4 ∷ 56 ∷ 0x16 ∷ 0x03 ∷ []

whole_handshake :
    on_chunk config (at (start config).phase []) proxy_bytes
    ≡ at (tunnel (0x16 ∷ 0x03 ∷ [])) ((1 ∷ 1 ∷ b'u' ∷ 1 ∷ b'p' ∷ []) ∷ (5 ∷ 1 ∷ 0 ∷ []) ∷ [])
unfolding start on_chunk on_data_in run_greeting send_auth run_auth send_connect run_connect
    read_reply bound_reply answer build_auth_request
whole_handshake = refl

on_chunk-append_example :
    on_chunk config (on_chunk config (start config) (5 ∷ 2 ∷ 1 ∷ [])) (0 ∷ 5 ∷ 0 ∷ [])
    ≡ on_chunk config (start config) ((5 ∷ 2 ∷ 1 ∷ []) ++ (0 ∷ 5 ∷ 0 ∷ []))
on_chunk-append_example = on_chunk-append config (start config) (5 ∷ 2 ∷ 1 ∷ []) (0 ∷ 5 ∷ 0 ∷ [])
