-- ===== src/Client/Response/Delivered.antt =====
-- The loops over a chunked body as it is written: where it ends, and its data.
use hellojs.Common.{
  ℕ, zero, suc, ◌+◌, ◌-◌, ◌≤◌, ◌<◌, ◌≡◌, refl, ap, ◌∙◌, sym, true, false, List, [], ◌∷◌, ◌++◌,
  append_assoc, some, ◌==◌, ltb, le→ltb, length, take, drop, length-append, drop-append_length,
  take-append_length, All, arith,
}
use hellojs.Common.Bytes.{Bytes}
use hellojs.Client.Response.{find_from, crlf}
use hellojs.Client.Response.Body.{ends_at, find_trailer_end, chunks_end, dechunk_from}
use hellojs.Client.Response.Lines.{
  find_from-line, slice_line, Chunk, IsChunk, Last, IsLast, IsTrailer, trailer_bytes, chunk_bytes,
  chunk_data,
}

find_trailer_end-trailers :
    (ts : List Bytes) (front rest : Bytes) (fuel : ℕ)
    → All IsTrailer ts
    → length (trailer_bytes ts) ≤ fuel
    → find_trailer_end fuel (front ++ (trailer_bytes ts ++ rest)) (length front)
      ≡ ends_at (length front + length (trailer_bytes ts))
unfolding find_trailer_end
find_trailer_end-trailers ts front rest zero all h = absurd (none_left ts h)
  where
    none_left : (ts : List Bytes) → length (trailer_bytes ts) ≤ 0 → ⊥
    none_left [] h = omega arith
    none_left (t ∷ ts) h = omega (arith, length-append t (crlf ++ trailer_bytes ts))
find_trailer_end-trailers [] front rest (suc fuel) all h =
    let same : (length front + 0 == length front) ≡ true = ground arith in
    rw (find_trailer_end, find_from-line front [] rest tt, same) refl
find_trailer_end-trailers (t ∷ ts) front rest (suc fuel) ((no_cr, some_bytes), all) h =
    let more = trailer_bytes ts in
    let other : (length front + length t == length front) ≡ false = ground arith in
    let shape : (t ++ (crlf ++ more)) ++ rest ≡ t ++ (crlf ++ (more ++ rest)) =
      append_assoc t (crlf ++ more) rest in
    let front' = front ++ (t ++ crlf) in
    let size = length-append front (t ++ crlf) in
    let size' = length-append t crlf in
    let place : length front + length t + 2 ≡ length front' = omega arith in
    let found : find_from crlf (front ++ (trailer_bytes (t ∷ ts) ++ rest)) (length front)
        ≡ some (length front + length t) =
      rw shape (find_from-line front t (more ++ rest) no_cr) in
    let whole : front ++ (trailer_bytes (t ∷ ts) ++ rest) ≡ front' ++ (more ++ rest) =
      ap (λ b. front ++ b) shape
      ∙ sym (
          append_assoc front (t ++ crlf) (more ++ rest)
          ∙ ap (λ b. front ++ b) (append_assoc t crlf (more ++ rest))) in
    let count = length-append t (crlf ++ more) in
    rw (find_trailer_end, found, other, place, whole)
      (find_trailer_end-trailers ts front' rest fuel all (omega arith) ∙ ap ends_at (omega arith))

chunk_shape :
    (a d x rest : Bytes)
    → (a ++ (crlf ++ (d ++ (crlf ++ x)))) ++ rest ≡ a ++ (crlf ++ (d ++ (crlf ++ (x ++ rest))))
chunk_shape a d x rest =
    append_assoc a (crlf ++ (d ++ (crlf ++ x))) rest
    ∙ ap (λ b. a ++ (crlf ++ b)) (append_assoc d (crlf ++ x) rest)

chunk_front :
    (front a d y : Bytes)
    → front ++ (a ++ (crlf ++ (d ++ (crlf ++ y)))) ≡ (front ++ (a ++ (crlf ++ (d ++ crlf)))) ++ y
chunk_front front a d y = sym (
    append_assoc front (a ++ (crlf ++ (d ++ crlf))) y ∙ ap (λ b. front ++ b) (chunk_shape a d [] y))

pub chunk_length :
    (a d x : Bytes)
    → length (a ++ (crlf ++ (d ++ (crlf ++ x)))) ≡ length a + length d + length x + 4
chunk_length a d x =
    omega (arith, length-append a (crlf ++ (d ++ (crlf ++ x))), length-append d (crlf ++ x))

-- What both loops find of a chunk that stands behind `front`.
abbrev Found : Bytes → Chunk → Bytes → Type 0
Found front c y =
    let buf = front ++ (c.line ++ (crlf ++ (c.data_bytes ++ (crlf ++ y)))) in
    let nl = length front + length c.line in
    (find_from crlf buf (length front) ≡ some nl)
    × (take (nl - length front) (drop (length front) buf) ≡ c.line)
    × (nl + 2 + length c.data_bytes + 2
        ≡ length (front ++ (c.line ++ (crlf ++ (c.data_bytes ++ crlf)))))
    × (take (length c.data_bytes) (drop (nl + 2) buf) ≡ c.data_bytes)
    × (length buf ≡ nl + 2 + length c.data_bytes + 2 + length y)

chunk-Found : (front : Bytes) (c : Chunk) (y : Bytes) → IsChunk c → Found front c y
chunk-Found front c y is =
    let a = c.line in
    let d = c.data_bytes in
    let size = length-append front (a ++ (crlf ++ (d ++ crlf))) in
    let size' = length-append front (a ++ (crlf ++ (d ++ (crlf ++ y)))) in
    let head = front ++ (a ++ crlf) in
    let head_size : length front + length a + 2 ≡ length head =
      omega (arith, length-append front (a ++ crlf), length-append a crlf) in
    let behind : front ++ (a ++ (crlf ++ (d ++ (crlf ++ y)))) ≡ head ++ (d ++ (crlf ++ y)) = sym (
      append_assoc front (a ++ crlf) (d ++ (crlf ++ y))
      ∙ ap (λ b. front ++ b) (append_assoc a crlf (d ++ (crlf ++ y)))) in
    (
      find_from-line front a (d ++ (crlf ++ y)) is.line_ends,
      slice_line front a (crlf ++ (d ++ (crlf ++ y))),
      omega (arith, chunk_length a d []),
      rw (head_size, behind, drop-append_length head (d ++ (crlf ++ y)))
          (take-append_length d (crlf ++ y)),
      omega (arith, chunk_length a d y),
    )

pub chunks_end-chunk_bytes :
    (cs : List Chunk) (l : Last) (front rest : Bytes) (fuel : ℕ)
    → All IsChunk cs
    → IsLast l
    → length cs < fuel
    → chunks_end fuel (front ++ (chunk_bytes cs l ++ rest)) (length front)
      ≡ ends_at (length front + length (chunk_bytes cs l))
unfolding chunks_end
chunks_end-chunk_bytes cs l front rest zero all last h = absurd (omega arith)
chunks_end-chunk_bytes [] l front rest (suc fuel) all last h =
    let more = trailer_bytes l.trailers in
    let shape = append_assoc l.line (crlf ++ more) rest in
    let buf = front ++ (chunk_bytes [] l ++ rest) in
    let found : find_from crlf buf (length front) ≡ some (length front + length l.line) =
      rw shape (find_from-line front l.line (more ++ rest) last.line_ends) in
    let line : take (length front + length l.line - length front) (drop (length front) buf)
        ≡ l.line =
      rw shape (slice_line front l.line (crlf ++ (more ++ rest))) in
    let front' = front ++ (l.line ++ crlf) in
    let place : length front + length l.line + 2 ≡ length front' =
      omega (arith, length-append front (l.line ++ crlf), length-append l.line crlf) in
    let whole : buf ≡ front' ++ (more ++ rest) =
      ap (λ b. front ++ b) shape
      ∙ sym (
          append_assoc front (l.line ++ crlf) (more ++ rest)
          ∙ ap (λ b. front ++ b) (append_assoc l.line crlf (more ++ rest))) in
    let count = length-append l.line (crlf ++ more) in
    let size = length-append front' (more ++ rest) in
    let size' = length-append more rest in
    rw (chunks_end, found, line, last.size_eq, place, whole)
      (find_trailer_end-trailers l.trailers front' rest (suc (length (front' ++ (more ++ rest))))
          last.trailers_end (omega arith)
        ∙ ap ends_at (omega arith))
chunks_end-chunk_bytes (c ∷ cs) l front rest (suc fuel) (is, all) last h =
    let more = chunk_bytes cs l in
    let d = c.data_bytes in
    let (found, line, place, cut, size) = chunk-Found front c (more ++ rest) is in
    let shape = chunk_shape c.line d more rest in
    let front' = front ++ (c.line ++ (crlf ++ (d ++ crlf))) in
    let whole = chunk_front front c.line d (more ++ rest) in
    let buf = front ++ (c.line ++ (crlf ++ (d ++ (crlf ++ (more ++ rest))))) in
    let not_last : (length d == 0) ≡ false = ground (arith, is.some_data) in
    let there : ltb (length buf) (length front + length c.line + 2 + length d + 2) ≡ false =
      le→ltb (length buf) (length front + length c.line + 2 + length d + 2) (omega arith) in
    let again : chunks_end fuel buf (length front + length c.line + 2 + length d + 2)
        ≡ ends_at (length front' + length more) =
      rw (place, whole) (chunks_end-chunk_bytes cs l front' rest fuel all last (omega arith)) in
    let step : chunks_end (suc fuel) buf (length front) ≡ ends_at (length front' + length more) =
      rw (chunks_end, found, line, is.size_eq, not_last, there) again in
    rw shape (step ∙ ap ends_at (omega (arith, chunk_length c.line d more, place)))

pub dechunk_from-chunk_bytes :
    (cs : List Chunk) (l : Last) (front : Bytes) (fuel : ℕ)
    → All IsChunk cs
    → IsLast l
    → length cs < fuel
    → dechunk_from fuel (front ++ chunk_bytes cs l) (length front) ≡ chunk_data cs
unfolding dechunk_from
dechunk_from-chunk_bytes cs l front zero all last h = absurd (omega arith)
dechunk_from-chunk_bytes [] l front (suc fuel) all last h =
    let more = trailer_bytes l.trailers in
    let buf = front ++ chunk_bytes [] l in
    let found = find_from-line front l.line more last.line_ends in
    let line = slice_line front l.line (crlf ++ more) in
    let size : length buf ≡ length front + (length l.line + (2 + length more)) = omega (
      arith,
      length-append front (l.line ++ (crlf ++ more)),
      length-append l.line (crlf ++ more),
    ) in
    let there : ltb (length buf) (length front + length l.line + 2 + 0) ≡ false =
      le→ltb (length buf) (length front + length l.line + 2 + 0) (omega arith) in
    rw (dechunk_from, found, line, last.size_eq, there) refl
dechunk_from-chunk_bytes (c ∷ cs) l front (suc fuel) (is, all) last h =
    let more = chunk_bytes cs l in
    let d = c.data_bytes in
    let (found, line, place, cut, size) = chunk-Found front c more is in
    let front' = front ++ (c.line ++ (crlf ++ (d ++ crlf))) in
    let whole = chunk_front front c.line d more in
    let buf = front ++ chunk_bytes (c ∷ cs) l in
    let not_last : (length d == 0) ≡ false = ground (arith, is.some_data) in
    let there : ltb (length buf) (length front + length c.line + 2 + length d) ≡ false =
      le→ltb (length buf) (length front + length c.line + 2 + length d) (omega arith) in
    let again : dechunk_from fuel buf (length front + length c.line + 2 + length d + 2)
        ≡ chunk_data cs =
      rw (place, whole) (dechunk_from-chunk_bytes cs l front' fuel all last (omega arith)) in
    rw (dechunk_from, found, line, is.size_eq, not_last, there, cut, again) refl
