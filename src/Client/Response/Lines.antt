-- ===== src/Client/Response/Lines.antt =====
-- Lines in the middle of a buffer, and a chunked body as RFC 7230 section 4.1 has it written.
use hellojs.Common.{
  ℕ, ◌+◌, ◌-◌, ◌≤◌, ◌≡◌, refl, false, List, [], ◌∷◌, ◌++◌, some, ◌==◌, length, take, drop, All,
  drop-append_length, take-append_length, arith,
}
use hellojs.Common.Bytes.{Bytes}
use hellojs.Cookies.Parse.{starts_with}
use hellojs.Client.Response.{find, find_from, crlf}
use hellojs.Client.Response.Body.{chunk_size}

-- No carriage return, so that a line ends where its CRLF stands.
abbrev pub NoCr : ℕ → Type 0
NoCr b = (b == 0x0d) ≡ false

find-line :
    (line rest : Bytes) → All NoCr line → find crlf (line ++ (crlf ++ rest)) ≡ some (length line)
unfolding find starts_with
find-line [] rest all = refl
find-line (b ∷ line) rest (no_cr, all) = rw (no_cr, find-line line rest all) refl

pub find_from-line :
    (front line rest : Bytes)
    → All NoCr line
    → find_from crlf (front ++ (line ++ (crlf ++ rest))) (length front)
      ≡ some (length front + length line)
unfolding find_from
find_from-line front line rest all =
    rw (find_from, drop-append_length front (line ++ (crlf ++ rest)), find-line line rest all) refl

pub slice_line :
    (front line rest : Bytes)
    → take
        (length front + length line - length front)
        (drop (length front) (front ++ (line ++ rest)))
      ≡ line
slice_line front line rest =
    let size : length front + length line - length front ≡ length line = omega arith in
    rw (size, drop-append_length front (line ++ rest)) (take-append_length line rest)

-- A chunk: the line with its size, perhaps with an extension, and its data.
pub record Chunk : Type 0 where
  pub line : Bytes
  pub data_bytes : Bytes

pub record IsChunk (c : Chunk) : Type 0 where
  pub line_ends : All NoCr c.line
  pub size_eq : chunk_size c.line ≡ some (length c.data_bytes)
  pub some_data : 1 ≤ length c.data_bytes

-- The last chunk: a size of 0, and trailer lines that are not empty.
pub record Last : Type 0 where
  pub line : Bytes
  pub trailers : List Bytes

abbrev pub IsTrailer : Bytes → Type 0
IsTrailer t = All NoCr t × (1 ≤ length t)

pub record IsLast (l : Last) : Type 0 where
  pub line_ends : All NoCr l.line
  pub size_eq : chunk_size l.line ≡ some 0
  pub trailers_end : All IsTrailer l.trailers

abbrev pub trailer_bytes : List Bytes → Bytes
trailer_bytes [] = crlf
trailer_bytes (t ∷ ts) = t ++ (crlf ++ trailer_bytes ts)

abbrev pub chunk_bytes : List Chunk → Last → Bytes
chunk_bytes [] l = l.line ++ (crlf ++ trailer_bytes l.trailers)
chunk_bytes (c ∷ cs) l = c.line ++ (crlf ++ (c.data_bytes ++ (crlf ++ chunk_bytes cs l)))

abbrev pub chunk_data : List Chunk → Bytes
chunk_data [] = []
chunk_data (c ∷ cs) = c.data_bytes ++ chunk_data cs
