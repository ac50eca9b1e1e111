-- ===== src/Client/Response/Ends.antt =====
-- The end of a body that the parser finds lies in the bytes that have arrived.
use hellojs.Common.{
  ℕ, zero, suc, ◌+◌, ◌-◌, ◌≤◌, ◌<◌, ◌≡◌, ◌==◌, ltb, leb, length, take, drop, arith, Bool-cases,
  Option-cases, inl, inr,
}
use hellojs.Common.Bytes.{Bytes}
use hellojs.Client.Response.{find_from, crlf, Mode, no_body, chunked, eof, by_length}
use hellojs.Client.Response.Body.{
  Completion, incomplete, bad_size, stuck, ends_at, find_trailer_end, chunks_end, chunk_size,
  completion_in,
}
use hellojs.Client.Response.Search.{find_from_le}
use hellojs.Client.Response.Prefix.{leb→le, ltb→ge}

-- The loop ended, and an end that is found lies behind the start, and in the bytes.
abbrev pub Within : ℕ → ℕ → Completion → Type 0
Within start n incomplete = Unit {0}
Within start n bad_size = Unit {0}
Within start n stuck = ⊥
Within start n (ends_at e) = (start ≤ e) × (e ≤ n)

weaken-Within : (a a' n : ℕ) (r : Completion) → a ≤ a' → Within a' n r → Within a n r
weaken-Within a a' n incomplete h w = tt
weaken-Within a a' n bad_size h w = tt
weaken-Within a a' n stuck h w = absurd w
weaken-Within a a' n (ends_at e) h (lo, hi) = (omega arith, hi)

find_trailer_end-Within :
    (fuel : ℕ) (b : Bytes) (off : ℕ)
    → off ≤ length b
    → length b < off + fuel
    → Within off (length b) (find_trailer_end fuel b off)
unfolding find_trailer_end
find_trailer_end-Within zero b off inside more = absurd (omega arith)
find_trailer_end-Within (suc fuel) b off inside more = elim (Option-cases (find_from crlf b off)) [
  | inl none_found ↦ rw (find_trailer_end, none_found) tt
  | inr (nl, found) ↦
      let (le, fits) = find_from_le crlf b off nl (omega arith) found in
      elim (Bool-cases (nl == off)) [
        | inl here ↦
            let same : nl ≡ off = ground (arith, here) in
            rw (find_trailer_end, found, here) (omega arith, omega arith)
        | inr later ↦
            rw (find_trailer_end, found, later)
              (weaken-Within off (nl + 2) (length b) _ (omega arith)
                (find_trailer_end-Within fuel b (nl + 2) (omega arith) (omega arith)))
      ]
]

chunks_end-Within :
    (fuel : ℕ) (b : Bytes) (off : ℕ)
    → off ≤ length b
    → length b < off + fuel
    → Within off (length b) (chunks_end fuel b off)
unfolding chunks_end
chunks_end-Within zero b off inside more = absurd (omega arith)
chunks_end-Within (suc fuel) b off inside more = elim (Option-cases (find_from crlf b off)) [
  | inl none_found ↦ rw (chunks_end, none_found) tt
  | inr (nl, found) ↦
      let (le, fits) = find_from_le crlf b off nl (omega arith) found in
      elim (Option-cases (chunk_size (take (nl - off) (drop off b)))) [
        | inl bad ↦ rw (chunks_end, found, bad) tt
        | inr (sz, size) ↦ elim (Bool-cases (sz == 0)) [
          | inl last ↦
              rw (chunks_end, found, size, last)
                (weaken-Within off (nl + 2) (length b) _ (omega arith)
                  (find_trailer_end-Within (suc (length b)) b (nl + 2) (omega arith) (omega arith)))
          | inr not_last ↦ elim (Bool-cases (ltb (length b) (nl + 2 + sz + 2))) [
            | inl short ↦ rw (chunks_end, found, size, not_last, short) tt
            | inr whole ↦
                let there = ltb→ge (length b) (nl + 2 + sz + 2) whole in
                rw (chunks_end, found, size, not_last, whole)
                  (weaken-Within off (nl + 2 + sz + 2) (length b) _ (omega arith)
                    (chunks_end-Within fuel b (nl + 2 + sz + 2) there (omega arith)))
          ]
        ]
      ]
]

pub completion_in-Within :
    (m : Mode) (start : ℕ) (b : Bytes)
    → start ≤ length b
    → Within start (length b) (completion_in m start b)
unfolding completion_in
completion_in-Within no_body start b h = (omega arith, h)
completion_in-Within eof start b h = tt
completion_in-Within chunked start b h = chunks_end-Within (suc (length b)) b start h (omega arith)
completion_in-Within (by_length n) start b h = elim (Bool-cases (leb n (length b - start))) [
  | inl there ↦ rw there (omega arith, omega (arith, leb→le n (length b - start) there))
  | inr short ↦ rw short tt
]
