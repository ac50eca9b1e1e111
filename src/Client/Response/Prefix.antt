-- ===== src/Client/Response/Prefix.antt =====
-- What the parser has decided on the bytes that have arrived stays decided with more behind them.
use hellojs.Common.{
  ℕ, zero, suc, ◌+◌, ◌-◌, ◌≤◌, ◌≡◌, sym, true, false, ◌++◌, ◌==◌, ltb, leb, le→ltb, le→leb, subst,
  length, take, drop, length-append, arith, Bool-cases, Option-cases, inl, inr,
}
use hellojs.Common.Bytes.{Bytes}
use hellojs.Client.Response.{find_from, crlf, Mode, no_body, chunked, eof, by_length}
use hellojs.Client.Response.Body.{
  Completion, incomplete, bad_size, stuck, ends_at, find_trailer_end, chunks_end, chunk_size,
  completion_in,
}
use hellojs.Client.Response.Search.{find_from_le, find_from-append, slice-append}

-- An end is known, or that there is none.
abbrev pub IsDecided : Completion → Type 0
IsDecided incomplete = ⊥
IsDecided stuck = ⊥
IsDecided bad_size = Unit {0}
IsDecided (ends_at e) = Unit {0}

pub leb→le : (m n : ℕ) → leb m n ≡ true → m ≤ n
leb→le m n h = ground arith

find_trailer_end-append :
    (fuel more : ℕ) (b c : Bytes) (off : ℕ) (r : Completion)
    → find_trailer_end fuel b off ≡ r
    → IsDecided r
    → find_trailer_end (fuel + more) (b ++ c) off ≡ r
unfolding find_trailer_end
find_trailer_end-append zero more b c off r e d = absurd (subst IsDecided (sym e) d)
find_trailer_end-append (suc fuel) more b c off r e d =
    let up : suc fuel + more ≡ suc (fuel + more) = omega arith in
    elim (Option-cases (find_from crlf b off)) [
      | inl none_found ↦ absurd (subst IsDecided (sym (rw (find_trailer_end, none_found) at e)) d)
      | inr (nl, found) ↦
          let found' = find_from-append crlf b c off nl (omega arith) found in
          elim (Bool-cases (nl == off)) [
            | inl here ↦
                rw (up, find_trailer_end, found', here) (rw (find_trailer_end, found, here) at e)
            | inr later ↦
                rw (up, find_trailer_end, found', later)
                  (find_trailer_end-append fuel more b c (nl + 2) r
                    (rw (find_trailer_end, found, later) at e) d)
          ]
    ]

pub ltb→ge : (m n : ℕ) → ltb m n ≡ false → n ≤ m
ltb→ge m n h = ground arith

chunks_end-append :
    (fuel more : ℕ) (b c : Bytes) (off : ℕ) (r : Completion)
    → chunks_end fuel b off ≡ r
    → IsDecided r
    → chunks_end (fuel + more) (b ++ c) off ≡ r
unfolding chunks_end
chunks_end-append zero more b c off r e d = absurd (subst IsDecided (sym e) d)
chunks_end-append (suc fuel) more b c off r e d =
    let up : suc fuel + more ≡ suc (fuel + more) = omega arith in
    elim (Option-cases (find_from crlf b off)) [
      | inl none_found ↦ absurd (subst IsDecided (sym (rw (chunks_end, none_found) at e)) d)
      | inr (nl, found) ↦
          let found' = find_from-append crlf b c off nl (omega arith) found in
          let (le, fits) = find_from_le crlf b off nl (omega arith) found in
          let line = slice-append b c off nl le (omega arith) in
          elim (Option-cases (chunk_size (take (nl - off) (drop off b)))) [
            | inl bad ↦ rw (up, chunks_end, found', line, bad) (rw (chunks_end, found, bad) at e)
            | inr (sz, size) ↦ elim (Bool-cases (sz == 0)) [
              | inl last ↦
                  let count : suc (length (b ++ c)) ≡ suc (length b) + length c =
                    omega (arith, length-append b c) in
                  rw (up, chunks_end, found', line, size, last, count)
                    (find_trailer_end-append (suc (length b)) (length c) b c (nl + 2) r
                      (rw (chunks_end, found, size, last) at e) d)
              | inr not_last ↦ elim (Bool-cases (ltb (length b) (nl + 2 + sz + 2))) [
                | inl short ↦
                    absurd
                      (subst IsDecided (sym (rw (chunks_end, found, size, not_last, short) at e)) d)
                | inr whole ↦
                    let whole' : ltb (length (b ++ c)) (nl + 2 + sz + 2) ≡ false =
                      le→ltb (length (b ++ c)) (nl + 2 + sz + 2) (
                        omega
                          (arith, length-append b c, ltb→ge (length b) (nl + 2 + sz + 2) whole)) in
                    rw (up, chunks_end, found', line, size, not_last, whole')
                      (chunks_end-append fuel more b c (nl + 2 + sz + 2) r
                        (rw (chunks_end, found, size, not_last, whole) at e) d)
              ]
            ]
          ]
    ]

pub completion_in-append :
    (m : Mode) (start : ℕ) (b c : Bytes) (r : Completion)
    → start ≤ length b
    → completion_in m start b ≡ r
    → IsDecided r
    → completion_in m start (b ++ c) ≡ r
unfolding completion_in
completion_in-append no_body start b c r le e d = e
completion_in-append eof start b c r le e d = absurd (subst IsDecided (sym e) d)
completion_in-append (by_length n) start b c r le e d =
    elim (Bool-cases (leb n (length b - start))) [
      | inl there ↦
          let there' : leb n (length (b ++ c) - start) ≡ true =
            le→leb n (length (b ++ c) - start)
              (omega (arith, length-append b c, leb→le n (length b - start) there)) in
          rw there' (rw there at e)
      | inr short ↦ absurd (subst IsDecided (sym (rw short at e)) d)
    ]
completion_in-append chunked start b c r le e d =
    let count : suc (length (b ++ c)) ≡ suc (length b) + length c =
      omega (arith, length-append b c) in
    rw count (chunks_end-append (suc (length b)) (length c) b c start r e d)
