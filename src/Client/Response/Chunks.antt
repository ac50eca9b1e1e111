-- ===== src/Client/Response/Chunks.antt =====
-- A response does not depend on how its bytes are cut into chunks.
use hellojs.Common.{
  ℕ, zero, suc, ◌+◌, ◌≤◌, ◌<◌, ◌≡◌, refl, ap, Bool, ◌&&◌, ◌⊎◌, List, [], ◌∷◌, ◌++◌, append_assoc,
  Option, none, some, if◌then◌else◌, ltb, leb, length, take, drop, length-append, length-drop,
  drop-append_left, take-append_left, arith, Bool-cases, Option-cases, inl, inr,
}
use hellojs.Common.Bytes.{Bytes}
use hellojs.Common.Text.{Text, Strings}
use hellojs.Client.Response.{
  find, crlf_crlf, Head, ParsedHead, need_more, bad_status_line, bad_content_length, interim,
  parsed, read_head, parse_head, split_lines, status_line, mode_of, parse_headers,
}
use hellojs.Client.Response.Body.{
  Completion, incomplete, bad_size, stuck, ends_at, completion, complete, is_reusable, Response,
  Outcome, pending, failed, running, resolved, State, finish, try_complete, read_heads, on_bytes,
  on_data,
}
use hellojs.Client.Response.Search.{find_le, find-append, slice-append}
use hellojs.Client.Response.Prefix.{completion_in-append}
use hellojs.Client.Response.Ends.{Within, completion_in-Within}

-- The response with more bytes behind it: they are kept, if the connection is.
abbrev pub with_more : Response → Bytes → Response
with_more r c = record r { leftover = if r.reusable then r.leftover ++ c else [] }

finish-append :
    (u : Strings) (h : Head) (b c : Bytes) (e : ℕ)
    → h.body_start ≤ e
    → e ≤ length b
    → finish u h (b ++ c) e ≡ with_more (finish u h b e) c
unfolding finish
finish-append u h b c e le fits = elim (Bool-cases (is_reusable u h)) [
  | inl kept ↦
      rw (finish, slice-append b c h.body_start e le fits, kept, drop-append_left e b c fits) refl
  | inr closed ↦ rw (finish, slice-append b c h.body_start e le fits, closed) refl
]

-- Of a state between two chunks: the body begins inside what has arrived.
abbrev pub HeadWithin : Option Head → Bytes → Type 0
HeadWithin none buf = Unit {0}
HeadWithin (some h) buf = h.body_start ≤ length buf

append-HeadWithin : (hd : Option Head) (b c : Bytes) → HeadWithin hd b → HeadWithin hd (b ++ c)
append-HeadWithin none b c h = tt
append-HeadWithin (some hd) b c h = omega (arith, length-append b c)

module _ (u : Strings) (is_head : Bool) where
  -- What a state is that has got `c` in the same chunk: as if `c` had come later, while nothing is
  -- settled, and else the same outcome.
  abbrev pub AfterMore : State → Outcome → Bytes → State → Type 0
  AfterMore s pending c s' = s' ≡ on_data u is_head s c
  AfterMore s running c s' = ⊥
  AfterMore s (failed f) c s' = s'.outcome ≡ failed f
  AfterMore s (resolved r) c s' = s'.outcome ≡ resolved (with_more r c)

  complete-AfterMore :
      (h : Head) (b c : Bytes) (r : Completion)
      → completion h b ≡ r
      → h.body_start ≤ length b
      → Within h.body_start (length b) r
      → let s : State = record { buf = b; head = some h; outcome = complete u h b r } in
        AfterMore s (complete u h b r) c (try_complete u h (b ++ c))
  unfolding complete try_complete on_data on_bytes
  complete-AfterMore h b c incomplete e le w = refl
  complete-AfterMore h b c stuck e le w = absurd w
  complete-AfterMore h b c bad_size e le w =
      rw (completion_in-append h.mode h.body_start b c bad_size le e tt) refl
  complete-AfterMore h b c (ends_at n) e le (lo, hi) =
      rw (completion_in-append h.mode h.body_start b c (ends_at n) le e tt)
        (ap resolved (finish-append u h b c n lo hi))

  try_complete-AfterMore :
      (h : Head) (b c : Bytes)
      → h.body_start ≤ length b
      → let s = try_complete u h b in AfterMore s s.outcome c (try_complete u h (b ++ c))
  unfolding try_complete
  try_complete-AfterMore h b c le =
      complete-AfterMore h b c (completion h b) refl le
        (completion_in-Within h.mode h.body_start b le)

  -- Where a head ends, or an interim one is cut off.
  abbrev pub HeadEnds : ℕ → ParsedHead → Type 0
  HeadEnds n need_more = ⊥
  HeadEnds n bad_status_line = Unit {0}
  HeadEnds n bad_content_length = Unit {0}
  HeadEnds n (interim k) = k ≡ n
  HeadEnds n (parsed h) = h.body_start ≡ n

  read_head-HeadEnds :
      (he : ℕ) (lines : List Text) → HeadEnds (he + 4) (read_head u is_head he lines)
  unfolding read_head
  read_head-HeadEnds he [] = tt
  read_head-HeadEnds he (first ∷ lines) = elim (Option-cases (status_line first)) [
    | inl bad ↦ rw (read_head, bad) tt
    | inr ((minor, st), line) ↦ elim (Bool-cases (leb 100 st && ltb st 200)) [
      | inl info ↦ rw (read_head, line, info) refl
      | inr final ↦ elim (Option-cases (mode_of u is_head st (parse_headers u is_head lines []))) [
        | inl bad ↦ rw (read_head, line, final, bad) tt
        | inr (m, mode) ↦ rw (read_head, line, final, mode) refl
      ]
    ]
  ]

  pub parse_head_more :
      (b c : Bytes)
      → (parse_head u is_head b ≡ need_more)
        ⊎ ((n : ℕ) × (parse_head u is_head (b ++ c) ≡ parse_head u is_head b)
            × HeadEnds n (parse_head u is_head b)
            × (4 ≤ n)
            × (n ≤ length b))
  unfolding parse_head
  parse_head_more b c = elim (Option-cases (find crlf_crlf b)) [
    | inl none_found ↦ inl (rw (parse_head, none_found) refl)
    | inr (he, found) ↦
        let fits = find_le crlf_crlf b he found in
        inr (
          he + 4,
          rw
              (
                parse_head,
                find-append crlf_crlf b c he found,
                take-append_left he b c (omega arith),
                found,
              )
              refl,
          rw (parse_head, found) (read_head-HeadEnds he (split_lines he (take he b))),
          omega arith,
          omega arith,
        )
  ]

  read_heads_round :
      (n m k : ℕ) (b : Bytes) (r : ParsedHead)
      → parse_head u is_head b ≡ r
      → HeadEnds k r
      → read_heads u is_head n (drop k b) ≡ read_heads u is_head m (drop k b)
      → read_heads u is_head (suc n) b ≡ read_heads u is_head (suc m) b
  unfolding read_heads
  read_heads_round n m k b need_more e ends again = absurd ends
  read_heads_round n m k b bad_status_line e ends again = rw (read_heads, e) refl
  read_heads_round n m k b bad_content_length e ends again = rw (read_heads, e) refl
  read_heads_round n m k b (parsed h) e ends again = rw (read_heads, e) refl
  read_heads_round n m k b (interim j) e ends again = rw (read_heads, e, ends) again

  -- Any number of rounds above the number of bytes gives the same.
  read_heads_fuel :
      (n m : ℕ) (b : Bytes)
      → length b < n
      → length b < m
      → read_heads u is_head n b ≡ read_heads u is_head m b
  unfolding read_heads
  read_heads_fuel zero m b h h' = absurd (omega arith)
  read_heads_fuel (suc n) zero b h h' = absurd (omega arith)
  read_heads_fuel (suc n) (suc m) b h h' = elim (parse_head_more b []) [
    | inl more ↦ rw (read_heads, more) refl
    | inr (k, same, ends, lo, hi) ↦
        let shorter = length-drop k b in
        read_heads_round n m k b (parse_head u is_head b) refl ends
          (read_heads_fuel n m (drop k b) (omega arith) (omega arith))
  ]

  abbrev HeadsMore : ℕ → ℕ → Bytes → Bytes → Type 0
  HeadsMore n m b c =
      let s = read_heads u is_head n b in AfterMore s s.outcome c (read_heads u is_head m (b ++ c))

  heads_round :
      (n m k : ℕ) (b c : Bytes) (r : ParsedHead)
      → parse_head u is_head b ≡ r
      → parse_head u is_head (b ++ c) ≡ r
      → HeadEnds k r
      → 4 ≤ k
      → k ≤ length b
      → HeadsMore n m (drop k b) c
      → HeadsMore (suc n) (suc m) b c
  unfolding read_heads
  heads_round n m k b c need_more e e' ends lo hi again = absurd ends
  heads_round n m k b c bad_status_line e e' ends lo hi again = rw (read_heads, e, e') refl
  heads_round n m k b c bad_content_length e e' ends lo hi again = rw (read_heads, e, e') refl
  heads_round n m k b c (parsed h) e e' ends lo hi again =
      rw (read_heads, e, e') (try_complete-AfterMore h b c (omega (arith, ends)))
  heads_round n m k b c (interim j) e e' ends lo hi again =
      rw (read_heads, e, e', ends, drop-append_left k b c hi) again

  heads-HeadsMore : (n m : ℕ) (b c : Bytes) → length b < n → length (b ++ c) < m → HeadsMore n m b c
  unfolding read_heads on_data on_bytes
  heads-HeadsMore zero m b c h h' = absurd (omega arith)
  heads-HeadsMore (suc n) zero b c h h' = absurd (omega arith)
  heads-HeadsMore (suc n) (suc m) b c h h' = elim (parse_head_more b c) [
    | inl more ↦
        rw (read_heads, more)
          (read_heads_fuel (suc m) (suc (length (b ++ c))) (b ++ c) h' (omega arith))
    | inr (k, same, ends, lo, hi) ↦
        let shorter = length-drop k b in
        let whole = length-append b c in
        let whole' = length-append (drop k b) c in
        heads_round n m k b c (parse_head u is_head b) refl same ends lo hi
          (heads-HeadsMore n m (drop k b) c (omega arith) (omega arith))
  ]

  on_bytes-AfterMore :
      (hd : Option Head) (b c : Bytes)
      → HeadWithin hd b
      → let s = on_bytes u is_head hd b in AfterMore s s.outcome c (on_bytes u is_head hd (b ++ c))
  unfolding on_bytes
  on_bytes-AfterMore none b c h =
      heads-HeadsMore (suc (length b)) (suc (length (b ++ c))) b c (omega arith) (omega arith)
  on_bytes-AfterMore (some hd) b c h = try_complete-AfterMore hd b c h

  -- While nothing is settled, and with a head, if it is known, that lies in the bytes, a chunk is
  -- always dealt with to the end, and two chunks in one are what they are one after the other: the
  -- state is the same if the first leaves the response open, and the failure if it fails; if it
  -- resolves the request, the one chunk resolves it with the same response, but that the bytes of the
  -- second chunk go to those that a reusable connection keeps for the next one.
  pub on_data-AfterMore :
      (s : State) (c c' : Bytes)
      → HeadWithin s.head s.buf
      → s.outcome ≡ pending
      → let s' = on_data u is_head s c in AfterMore s' s'.outcome c' (on_data u is_head s (c ++ c'))
  unfolding on_data
  on_data-AfterMore s c c' v open_ =
      rw (on_data, open_, ← append_assoc s.buf c c')
        (on_bytes-AfterMore s.head (s.buf ++ c) c' (append-HeadWithin s.head s.buf c v))
