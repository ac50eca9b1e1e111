-- ===== src/Client/Response.antt =====
-- The incremental parser of HTTP/1.1 responses in `performH1` of lib/client.js, with `findTrailerEnd`
-- and `dechunk`. `toString('latin1')` makes a code unit of each byte.
pub mod Body
pub mod Search
pub mod Prefix
pub mod Ends
pub mod Chunks
pub mod Lines
pub mod Delivered
pub mod Settles
mod Runs
use Prim.Native.Nat.{bit_and}
use hellojs.Common.{
  ℕ, zero, suc, ◌+◌, ◌-◌, ◌*◌, ◌^◌, Bool, true, false, not, ◌&&◌, ◌||◌, List, [], ◌∷◌, ◌++◌, map,
  reverse, Option, none, some, if◌then◌else◌, leb, ltb, ◌==◌, length, take, drop,
}
use hellojs.Common.Bytes.{Bytes}
use hellojs.Common.Text.{Text, text, text_eq, Strings, lower_code}
use hellojs.Cookies.Parse.{index_of, split, is_space, trim, trim_start, starts_with}

-- `b.indexOf(pattern)`.
unfoldable pub find : Bytes → Bytes → Option ℕ
find pattern [] = none
find pattern (b ∷ bs) =
    let rest = find pattern bs in
    if starts_with (b ∷ bs) pattern
    then some 0
    else elim rest [ none ↦ none | some i ↦ some (suc i) ]

-- `b.indexOf(pattern, off)`.
unfoldable pub find_from : Bytes → Bytes → ℕ → Option ℕ
find_from pattern b off = elim (find pattern (drop off b)) [ none ↦ none | some i ↦ some (off + i) ]

abbrev pub crlf : Bytes
crlf = 0x0d ∷ 0x0a ∷ []

abbrev pub crlf_crlf : Bytes
crlf_crlf = 0x0d ∷ 0x0a ∷ 0x0d ∷ 0x0a ∷ []

-- `split('\r\n')`: with a bound on the lines, of which there are no more than code units and one.
unfoldable pub split_lines : ℕ → Text → List Text
split_lines zero s = s ∷ []
split_lines (suc n) s = elim (find crlf s) [
  | none ↦ s ∷ []
  | some i ↦ take i s ∷ split_lines n (drop (i + 2) s)
]

unfoldable pub is_digit : ℕ → Bool
is_digit c = leb b'0' c && leb c b'9'

unfoldable pub all_digits : Text → Bool
all_digits [] = true
all_digits (c ∷ s) = is_digit c && all_digits s

-- `parseInt(s, 10)` for digits; a double, so this number up to 2^53.
unfoldable pub decimal : ℕ → Text → ℕ
decimal acc [] = acc
decimal acc (c ∷ s) = decimal (acc * 10 + (c - b'0')) s

unfoldable pub no_line_end : Text → Bool
no_line_end [] = true
no_line_end (c ∷ s) = not (c == 0x0a || c == 0x0d) && no_line_end s

-- What follows the status: nothing, or a space and a reason.
unfoldable pub reason : Text → Bool
reason [] = true
reason (c ∷ s) = c == b' ' && no_line_end s

-- `/^HTTP\/1\.(\d) (\d{3})(?: (.*))?$/`: the minor version and the status.
unfoldable pub status_line : Text → Option (ℕ × ℕ)
status_line s =
    let minor = take 1 (drop 7 s) in
    let status = take 3 (drop 9 s) in
    if starts_with s (text "HTTP/1.")
      && (length minor == 1
          && (all_digits minor
              && (text_eq (take 1 (drop 8 s)) (text " ")
                  && (length status == 3 && (all_digits status && reason (drop 12 s))))))
    then some (decimal 0 minor, decimal 0 status)
    else none

-- The object of headers: a name with its values in order; several make an array.
abbrev pub Headers : Type 0
Headers = List (Text × List Text)

unfoldable pub add_header : Text → Text → Headers → Headers
add_header k v [] = (k, v ∷ []) ∷ []
add_header k v ((n, vs) ∷ hs) =
    let rest = add_header k v hs in if text_eq n k then (n, vs ++ (v ∷ [])) ∷ hs else (n, vs) ∷ rest

-- `coerce(headers[k])`: the values joined by a comma and a space.
unfoldable pub join : List Text → Text
join [] = []
join (v ∷ []) = v
join (v ∷ w ∷ vs) = v ++ (text ", " ++ join (w ∷ vs))

unfoldable pub header : Text → Headers → Option Text
header k [] = none
header k ((n, vs) ∷ hs) = if text_eq n k then some (join vs) else header k hs

abbrev pub or_empty : Option Text → Text
or_empty none = []
or_empty (some s) = s

-- `/(^|,)\s*chunked\s*$/i`, read from the end.
unfoldable pub ends_chunked : Text → Bool
ends_chunked te =
    let back = trim_start (reverse (map lower_code te)) in
    let before = trim_start (drop 7 back) in
    starts_with back (reverse (text "chunked"))
    && (length before == 0 || text_eq (take 1 before) (text ","))

-- `s.includes(t)` for a `t` that is not empty.
unfoldable pub includes : Text → Text → Bool
includes s t = elim (find t s) [ none ↦ false | some i ↦ true ]

pub data Mode : Type 0 where
  no_body chunked eof : Mode
  by_length : ℕ → Mode

-- What is known once the head is parsed.
pub record Head : Type 0 where
  pub http_minor : ℕ
  pub status : ℕ
  pub headers : Headers
  pub mode : Mode
  pub body_start : ℕ

pub data ParsedHead : Type 0 where
  need_more bad_status_line bad_content_length : ParsedHead
  interim : ℕ → ParsedHead
  parsed : Head → ParsedHead

module _ (u : Strings) (is_head : Bool) where
  unfoldable pub parse_headers : List Text → Headers → Headers
  parse_headers [] hs = hs
  parse_headers (ln ∷ lines) hs = elim (index_of b':' ln) [
    | none ↦ parse_headers lines hs
    | some idx ↦
        parse_headers lines
          (add_header (u.to_lower_case (trim (take idx ln))) (trim (drop (suc idx) ln)) hs)
  ]

  -- RFC 7230 section 3.3.3; `none` for a content length that is no number.
  unfoldable pub mode_of : ℕ → Headers → Option Mode
  mode_of status hs =
      let te = trim (or_empty (header (text "transfer-encoding") hs)) in
      let cl = or_empty (header (text "content-length") hs) in
      let s = trim cl in
      if is_head || (status == 204 || status == 304)
      then some no_body
      else if ends_chunked te
      then some chunked
      else if not (length cl == 0)
      then (if not (length s == 0) && all_digits s then some (by_length (decimal 0 s)) else none)
      else some eof

  -- The head of a message, by its lines; `he` is where it ends.
  unfoldable pub read_head : ℕ → List Text → ParsedHead
  read_head he [] = bad_status_line
  read_head he (first ∷ lines) = elim (status_line first) [
    | none ↦ bad_status_line
    | some (minor, st) ↦
        let hs = parse_headers lines [] in
        if leb 100 st && ltb st 200 then interim (he + 4) else elim (mode_of st hs) [
          | none ↦ bad_content_length
          | some mode ↦ parsed (record {
            http_minor = minor;
            status = st;
            headers = hs;
            mode = mode;
            body_start = he + 4;
          })
        ]
  ]

  unfoldable pub parse_head : Bytes → ParsedHead
  parse_head buf = elim (find crlf_crlf buf) [
    | none ↦ need_more
    | some he ↦ read_head he (split_lines he (take he buf))
  ]
