-- ===== src/Client/Response/Runs.antt =====
-- Responses at concrete inputs, and the theorems at them.
use hellojs.Common.{◌≡◌, refl, false, [], ◌∷◌, ◌++◌, none, arith}
use hellojs.Common.Bytes.{Bytes}
use hellojs.Common.Text.{text, ascii}
use hellojs.Cookies.Parse.{split, trim, trim_start, is_space, starts_with, index_of}
use hellojs.Client.Response.{
  Head, chunked, interim, parsed, parse_head, read_head, find, crlf, split_lines, status_line,
  all_digits, is_digit, decimal, reason, no_line_end, parse_headers, add_header, mode_of, header,
  join, ends_chunked,
}
use hellojs.Client.Response.Body.{
  State, pending, resolved, on_data, chunk_size, hex, hex_from, hex_digit,
}
use hellojs.Client.Response.Chunks.{AfterMore, on_data-AfterMore}
use hellojs.Client.Response.Lines.{Chunk, IsChunk, Last, IsLast}
use hellojs.Client.Response.Settles.{comes, behind, in_chunks, response_of, on_data-Delimits}

abbrev head_bytes : Bytes
head_bytes =
    text "HTTP/1.1 200 OK" ++ (crlf ++ (text "Transfer-Encoding: gzip, Chunked" ++ (crlf ++ crlf)))

abbrev head : Head
head = record {
  http_minor = 1;
  status = 200;
  headers = (text "transfer-encoding", text "gzip, Chunked" ∷ []) ∷ [];
  mode = chunked;
  body_start = 53;
}

head_parsed : parse_head ascii false head_bytes ≡ parsed head
unfolding parse_head read_head find split_lines status_line all_digits is_digit decimal reason
    no_line_end parse_headers add_header mode_of header join ends_chunked trim trim_start is_space
    starts_with index_of
head_parsed = refl

abbrev first_state : State
first_state = record { buf = []; head = none; outcome = pending }

on_data-AfterMore_example :
    let s = on_data ascii false first_state (text "HTTP/1.1 204") in
    AfterMore ascii false s s.outcome
      (crlf ++ crlf)
      (on_data ascii false first_state (text "HTTP/1.1 204" ++ (crlf ++ crlf)))
on_data-AfterMore_example =
    on_data-AfterMore ascii false first_state (text "HTTP/1.1 204") (crlf ++ crlf) tt refl

abbrev hello : Chunk
hello = record { line = text "5;ext=1"; data_bytes = text "hello" }

abbrev last_chunk : Last
last_chunk = record { line = text "0"; trailers = [] }

hello-IsChunk : IsChunk hello
unfolding chunk_size hex hex_from hex_digit is_digit split trim trim_start is_space
hello-IsChunk = record {
  line_ends = (refl, (refl, (refl, (refl, (refl, (refl, (refl, tt)))))));
  size_eq = refl;
  some_data = omega arith;
}

last_chunk-IsLast : IsLast last_chunk
unfolding chunk_size hex hex_from hex_digit is_digit split trim trim_start is_space
last_chunk-IsLast = record { line_ends = (refl, tt); size_eq = refl; trailers_end = tt }

-- A head in this chunk, with an interim response in front.
abbrev fresh : State
fresh = record { buf = text "HTTP/1.1 100 Contin"; head = none; outcome = pending }

abbrev body_bytes : Bytes
body_bytes = text "5;ext=1" ++ (crlf ++ (text "hello" ++ (crlf ++ (text "0" ++ (crlf ++ crlf)))))

abbrev answer : Bytes
answer = head_bytes ++ (body_bytes ++ text "HTTP")

abbrev whole : Bytes
whole = text "HTTP/1.1 100 Continue" ++ (crlf ++ (crlf ++ answer))

continues : parse_head ascii false whole ≡ interim 25
unfolding parse_head read_head find split_lines status_line all_digits is_digit decimal reason
    no_line_end parse_headers add_header mode_of header join ends_chunked trim trim_start is_space
    starts_with index_of
continues = refl

then_final : parse_head ascii false answer ≡ parsed head
unfolding parse_head read_head find split_lines status_line all_digits is_digit decimal reason
    no_line_end parse_headers add_header mode_of header join ends_chunked trim trim_start is_space
    starts_with index_of
then_final = refl

on_data-Delimits_example :
    (on_data ascii false fresh (text "ue" ++ (crlf ++ (crlf ++ answer)))).outcome
    ≡ resolved (response_of ascii head (text "hello") (text "HTTP"))
on_data-Delimits_example =
    on_data-Delimits ascii false fresh (text "ue" ++ (crlf ++ (crlf ++ answer))) head answer
      head_bytes body_bytes (text "HTTP") (text "hello") refl
      (behind 25 whole answer continues (comes answer then_final)) refl refl
      (in_chunks (hello ∷ []) last_chunk (hello-IsChunk, tt) last_chunk-IsLast)
