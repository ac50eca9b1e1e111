-- ===== src/Client/Response/Settles.antt =====
-- A response settles with the chunk that brings its last byte, and with its body.
use hellojs.Common.{
  ℕ, zero, ◌<◌, Option, none, subst, inl, inr, length-drop, suc, ◌+◌, ◌-◌, ◌≤◌, ◌≡◌, refl, ap, Bool,
  true, List, [], ◌∷◌, ◌++◌, append_assoc, some, if◌then◌else◌, leb, le→leb, length, drop,
  length-append, drop-append_length, take-append_length, All, arith,
}
use hellojs.Common.Bytes.{Bytes}
use hellojs.Common.Text.{Strings}
use hellojs.Client.Response.{Mode, no_body, chunked, by_length, Head, parse_head, parsed, interim}
use hellojs.Client.Response.Chunks.{HeadEnds, parse_head_more}
use hellojs.Client.Response.Body.{
  ends_at, completion_in, dechunk, entity_of, Response, pending, resolved, State, is_reusable,
  finish, complete, try_complete, read_heads, on_bytes, on_data,
}
use hellojs.Client.Response.Lines.{Chunk, IsChunk, Last, IsLast, chunk_bytes, chunk_data}
use hellojs.Client.Response.Delivered.{
  chunks_end-chunk_bytes, dechunk_from-chunk_bytes, chunk_length,
}

-- The bytes that are a body in a mode, and what it says.
pub data Delimits : Mode → Bytes → Bytes → Type 0 where
  nothing : Delimits no_body [] []
  counted : (body : Bytes) → Delimits (by_length (length body)) body body
  in_chunks :
      (cs : List Chunk) (l : Last)
      → All IsChunk cs
      → IsLast l
      → Delimits chunked (chunk_bytes cs l) (chunk_data cs)

count_chunks : (cs : List Chunk) (l : Last) → length cs ≤ length (chunk_bytes cs l)
count_chunks [] l = omega arith
count_chunks (c ∷ cs) l =
    omega (arith, chunk_length c.line c.data_bytes (chunk_bytes cs l), count_chunks cs l)

completion-Delimits :
    {m : Mode} {body entity : Bytes} (front rest : Bytes)
    → Delimits m body entity
    → completion_in m (length front) (front ++ (body ++ rest))
      ≡ ends_at (length front + length body)
unfolding completion_in
completion-Delimits front rest nothing = ap ends_at (omega arith)
completion-Delimits front rest (counted body) =
    let size = length-append front (body ++ rest) in
    let there : leb (length body) (length (front ++ (body ++ rest)) - length front) ≡ true =
      le→leb (length body) (length (front ++ (body ++ rest)) - length front)
        (omega (arith, length-append body rest)) in
    rw there refl
completion-Delimits front rest (in_chunks cs l all last) =
    let size = length-append front (chunk_bytes cs l ++ rest) in
    let size' = length-append (chunk_bytes cs l) rest in
    chunks_end-chunk_bytes cs l front rest (suc (length (front ++ (chunk_bytes cs l ++ rest)))) all
      last (omega (arith, count_chunks cs l))

entity-Delimits :
    {m : Mode} {body entity : Bytes} → Delimits m body entity → entity_of m body ≡ entity
unfolding dechunk
entity-Delimits nothing = refl
entity-Delimits (counted body) = refl
entity-Delimits (in_chunks cs l all last) =
    dechunk_from-chunk_bytes cs l [] (suc (length (chunk_bytes cs l))) all last
      (omega (arith, count_chunks cs l))

-- The response that is to come of a body and the bytes behind it.
abbrev pub response_of : Strings → Head → Bytes → Bytes → Response
response_of u h entity rest = record {
  status = h.status;
  headers = h.headers;
  entity = entity;
  leftover = if is_reusable u h then rest else [];
  reusable = is_reusable u h;
}

finish-Delimits :
    (u : Strings) (h : Head) (front body rest entity : Bytes)
    → length front ≡ h.body_start
    → Delimits h.mode body entity
    → finish u h (front ++ (body ++ rest)) (length front + length body)
      ≡ response_of u h entity rest
unfolding finish
finish-Delimits u h front body rest entity place d =
    let size : length front + length body - length front ≡ length body = omega arith in
    let behind : drop (length front + length body) (front ++ (body ++ rest)) ≡ rest =
      rw (← append_assoc front body rest, ← length-append front body)
        (drop-append_length (front ++ body) rest) in
    rw
      (
        finish,
        ← place,
        size,
        behind,
        drop-append_length front (body ++ rest),
        take-append_length body rest,
        entity-Delimits d,
      )
      refl

-- How a head comes out of the bytes: it has been known before, or stands in front, behind any
-- interim responses. What is left begins with it.
pub data Arrives (u : Strings) (is_head : Bool) (h : Head)
    : Option Head → Bytes → Bytes → Type 0 where
  known : (buf : Bytes) → Arrives u is_head h (some h) buf buf
  comes : (buf : Bytes) → parse_head u is_head buf ≡ parsed h → Arrives u is_head h none buf buf
  behind :
      (n : ℕ) (buf left : Bytes)
      → parse_head u is_head buf ≡ interim n
      → Arrives u is_head h none (drop n buf) left
      → Arrives u is_head h none buf left

module _ (u : Strings) (is_head : Bool) (h : Head) where
  interim_shorter :
      (n : ℕ) (buf : Bytes)
      → parse_head u is_head buf ≡ interim n
      → length (drop n buf) < length buf
  interim_shorter n buf e = elim (parse_head_more u is_head buf []) [
    | inl more ↦ cc
    | inr (k, same, ends, lo, hi) ↦
        let at_end : n ≡ k = subst (HeadEnds u is_head k) e ends in
        omega (arith, at_end, length-drop n buf)
  ]

  read_heads-Arrives :
      (hd : Option Head) (buf left : Bytes) (fuel : ℕ)
      → Arrives u is_head h hd buf left
      → hd ≡ none
      → length buf < fuel
      → read_heads u is_head fuel buf ≡ try_complete u h left
  unfolding read_heads
  read_heads-Arrives hd buf left zero a e more = absurd (omega arith)
  read_heads-Arrives _ _ _ (suc fuel) (known buf) e more = cc
  read_heads-Arrives _ _ _ (suc fuel) (comes buf at_front) e more = rw (read_heads, at_front) refl
  read_heads-Arrives _ _ _ (suc fuel) (behind n buf left first a) e more =
      let shorter = interim_shorter n buf first in
      rw (read_heads, first) (read_heads-Arrives none (drop n buf) left fuel a refl (omega arith))

  on_bytes-Arrives :
      (hd : Option Head) (buf left : Bytes)
      → Arrives u is_head h hd buf left
      → on_bytes u is_head hd buf ≡ try_complete u h left
  unfolding on_bytes
  on_bytes-Arrives _ _ _ (known buf) = refl
  on_bytes-Arrives _ _ _ (comes buf at_front) =
      read_heads-Arrives none buf buf (suc (length buf)) (comes buf at_front) refl (omega arith)
  on_bytes-Arrives _ _ _ (behind n buf left first a) =
      read_heads-Arrives none buf left (suc (length buf)) (behind n buf left first a) refl
        (omega arith)

-- With the chunk that brings its last byte, a response with a body that its length or its chunks
-- delimit, or without one, is resolved, whether its head was known before or comes with that chunk,
-- behind interim responses or not: with the body, without the framing, and with the bytes behind it
-- kept where the connection is to be used again.
pub on_data-Delimits :
    (u : Strings) (is_head : Bool) (s : State) (c : Bytes) (h : Head)
    (left front body rest entity : Bytes)
    → s.outcome ≡ pending
    → Arrives u is_head h s.head (s.buf ++ c) left
    → left ≡ front ++ (body ++ rest)
    → length front ≡ h.body_start
    → Delimits h.mode body entity
    → (on_data u is_head s c).outcome ≡ resolved (response_of u h entity rest)
unfolding on_data try_complete complete
on_data-Delimits u is_head s c h left front body rest entity open_ arrives bytes place d =
    let whole : completion_in h.mode h.body_start (front ++ (body ++ rest))
        ≡ ends_at (length front + length body) =
      rw (← place) (completion-Delimits front rest d) in
    rw (on_data, open_, on_bytes-Arrives u is_head h s.head (s.buf ++ c) left arrives, bytes, whole)
      (ap resolved (finish-Delimits u h front body rest entity place d))
