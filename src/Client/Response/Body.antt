-- ===== src/Client/Response/Body.antt =====
-- `tryComplete`, `finish`, `onData` and `onEnd` of `performH1` in lib/client.js, `findTrailerEnd` and
-- `dechunk`. What follows a response, decompression and the cookie jar, gets the entity from here.
use Prim.Native.Nat.{bit_and}
use hellojs.Common.{
  ℕ, zero, suc, ◌+◌, ◌-◌, ◌*◌, Bool, true, false, not, ◌&&◌, ◌||◌, List, [], ◌∷◌, ◌++◌, map, Option,
  none, some, if◌then◌else◌, leb, ltb, ◌==◌, length, take, drop,
}
use hellojs.Common.Bytes.{Bytes}
use hellojs.Common.Text.{Text, text, Strings}
use hellojs.Cookies.Parse.{split, trim}
use hellojs.Client.Response.{
  find_from, crlf, Headers, header, or_empty, includes, Mode, no_body, chunked, eof, by_length,
  Head, need_more, bad_status_line, bad_content_length, interim, parsed, parse_head, is_digit,
}

-- `/^[0-9a-fA-F]+$/` and `parseInt(token, 16)`.
unfoldable pub hex_digit : ℕ → Option ℕ
hex_digit c =
    if is_digit c
    then some (c - b'0')
    else if leb b'a' c && leb c b'f'
    then some (c - b'a' + 10)
    else if leb b'A' c && leb c b'F'
    then some (c - b'A' + 10)
    else none

unfoldable pub hex_from : ℕ → Text → Option ℕ
hex_from acc [] = some acc
hex_from acc (c ∷ s) = elim (hex_digit c) [ none ↦ none | some d ↦ hex_from (acc * 16 + d) s ]

unfoldable pub hex : Text → Option ℕ
hex [] = none
hex (c ∷ s) = hex_from 0 (c ∷ s)

abbrev pub first_of : List Text → Text
first_of [] = []
first_of (s ∷ rest) = s

-- The size in a chunk's first line: `toString('ascii')` masks the top bit, an extension is cut off.
unfoldable pub chunk_size : Bytes → Option ℕ
chunk_size line = hex (trim (first_of (split b';' (map (λ b. bit_and b 0x7f) line))))

-- Where the body ends: not known yet, a size that is no number, an index. `stuck` is no case of the
-- source: the loop ran out of fuel.
pub data Completion : Type 0 where
  incomplete bad_size stuck : Completion
  ends_at : ℕ → Completion

unfoldable pub find_trailer_end : ℕ → Bytes → ℕ → Completion
find_trailer_end zero b off = stuck
find_trailer_end (suc fuel) b off = elim (find_from crlf b off) [
  | none ↦ incomplete
  | some nl ↦
      let rest = find_trailer_end fuel b (nl + 2) in if nl == off then ends_at (off + 2) else rest
]

-- The loop over the chunks in `tryComplete`.
unfoldable pub chunks_end : ℕ → Bytes → ℕ → Completion
chunks_end zero buf off = stuck
chunks_end (suc fuel) buf off = elim (find_from crlf buf off) [
  | none ↦ incomplete
  | some nl ↦ elim (chunk_size (take (nl - off) (drop off buf))) [
    | none ↦ bad_size
    | some sz ↦
        let rest = chunks_end fuel buf (nl + 2 + sz + 2) in
        let trailers = find_trailer_end (suc (length buf)) buf (nl + 2) in
        if sz == 0
        then trailers
        else if ltb (length buf) (nl + 2 + sz + 2)
        then incomplete
        else rest
  ]
]

-- Each round of the loops goes past a line end, so that more rounds than bytes are enough.
unfoldable pub completion_in : Mode → ℕ → Bytes → Completion
completion_in no_body body_start buf = ends_at body_start
completion_in (by_length n) body_start buf =
    if leb n (length buf - body_start) then ends_at (body_start + n) else incomplete
completion_in chunked body_start buf = chunks_end (suc (length buf)) buf body_start
completion_in eof body_start buf = incomplete

abbrev pub completion : Head → Bytes → Completion
completion h buf = completion_in h.mode h.body_start buf

-- The data of the chunks. The sizes are those that `tryComplete` has let pass.
unfoldable pub dechunk_from : ℕ → Bytes → ℕ → Bytes
dechunk_from zero buf off = []
dechunk_from (suc fuel) buf off = elim (find_from crlf buf off) [
  | none ↦ []
  | some nl ↦ elim (chunk_size (take (nl - off) (drop off buf))) [
    | none ↦ []
    | some sz ↦
        let rest = dechunk_from fuel buf (nl + 2 + sz + 2) in
        if ltb (length buf) (nl + 2 + sz)
        then []
        else take sz (drop (nl + 2) buf) ++ (if sz == 0 then [] else rest)
  ]
]

unfoldable pub dechunk : Bytes → Bytes
dechunk buf = dechunk_from (suc (length buf)) buf 0

pub record Response : Type 0 where
  pub status : ℕ
  pub headers : Headers
  pub entity : Bytes
  -- The bytes behind the body, kept for the next response on a connection that is used again.
  pub leftover : Bytes
  pub reusable : Bool

pub data Failure : Type 0 where
  status_line_error content_length_error chunk_size_error head_incomplete body_incomplete : Failure

-- `running` is no case of the source either: a handler that has not returned.
pub data Outcome : Type 0 where
  pending : Outcome
  failed : Failure → Outcome
  running : Outcome
  resolved : Response → Outcome

pub record State : Type 0 where
  pub buf : Bytes
  pub head : Option Head
  pub outcome : Outcome

abbrev pub entity_of : Mode → Bytes → Bytes
entity_of chunked body = dechunk body
entity_of eof body = body
entity_of no_body body = body
entity_of (by_length n) body = body

abbrev pub is_eof : Mode → Bool
is_eof chunked = false
is_eof eof = true
is_eof no_body = false
is_eof (by_length n) = false

module _ (u : Strings) where
  unfoldable pub is_reusable : Head → Bool
  is_reusable h =
      let conn_hdr = u.to_lower_case (or_empty (header (text "connection") h.headers)) in
      let wants_close =
        includes conn_hdr (text "close")
        || (h.http_minor == 0 && not (includes conn_hdr (text "keep-alive"))) in
      not (is_eof h.mode) && not wants_close

  unfoldable pub finish : Head → Bytes → ℕ → Response
  finish h buf body_end = record {
    status = h.status;
    headers = h.headers;
    entity = entity_of h.mode (take (body_end - h.body_start) (drop h.body_start buf));
    leftover = if is_reusable h then drop body_end buf else [];
    reusable = is_reusable h;
  }

  unfoldable pub complete : Head → Bytes → Completion → Outcome
  complete h buf incomplete = pending
  complete h buf stuck = running
  complete h buf bad_size = failed chunk_size_error
  complete h buf (ends_at e) = resolved (finish h buf e)

  unfoldable pub try_complete : Head → Bytes → State
  try_complete h buf = record {
    buf = buf;
    head = some h;
    outcome = complete h buf (completion h buf);
  }

module _ (u : Strings) (is_head : Bool) where
  -- The loop of `onData` before a head is known: interim responses are passed over. Each takes four
  -- bytes at least.
  unfoldable pub read_heads : ℕ → Bytes → State
  read_heads zero buf = record { buf = buf; head = none; outcome = running }
  read_heads (suc fuel) buf = elim (parse_head u is_head buf) [
    | need_more ↦ record { buf = buf; head = none; outcome = pending }
    | bad_status_line ↦ record { buf = buf; head = none; outcome = failed status_line_error }
    | bad_content_length ↦ record { buf = buf; head = none; outcome = failed content_length_error }
    | interim n ↦ read_heads fuel (drop n buf)
    | parsed h ↦ try_complete u h buf
  ]

  unfoldable pub on_bytes : Option Head → Bytes → State
  on_bytes none buf = read_heads (suc (length buf)) buf
  on_bytes (some h) buf = try_complete u h buf

  unfoldable pub on_data : State → Bytes → State
  on_data s c = elim s.outcome [
    | failed f ↦ s
    | running ↦ s
    | resolved r ↦ s
    | pending ↦ on_bytes s.head (s.buf ++ c)
  ]

  unfoldable pub on_end : State → State
  on_end s = elim s.outcome [
    | failed f ↦ s
    | running ↦ s
    | resolved r ↦ s
    | pending ↦ elim s.head [
      | none ↦ record s { outcome = failed head_incomplete }
      | some h ↦ elim h.mode [
        | eof ↦ record s { outcome = resolved (finish u h s.buf (length s.buf)) }
        | no_body ↦ record s { outcome = failed body_incomplete }
        | chunked ↦ record s { outcome = failed body_incomplete }
        | by_length n ↦ record s { outcome = failed body_incomplete }
      ]
    ]
  ]

  -- The bytes that a reused connection has left over come first.
  unfoldable pub start : Bytes → State
  start leftover =
      let s : State = record { buf = []; head = none; outcome = pending } in
      if length leftover == 0 then s else on_data s leftover
