-- ===== src/Client/Response/Search.antt =====
-- What a search has found it finds again with more bytes behind.
use hellojs.Common.{
  ℕ, suc, ◌+◌, ◌-◌, ◌≤◌, ◌≡◌, refl, ap, true, [], ◌∷◌, ◌++◌, some, ◌&&◌, ◌==◌, length, take, drop,
  length-drop, drop-append_left, take-append_left, arith, Bool-cases, Option-cases, some_inj, inl,
  inr,
}
use hellojs.Common.Bytes.{Bytes}
use hellojs.Cookies.Parse.{starts_with}
use hellojs.Client.Response.{find, find_from}

starts_with-append :
    (s p c : Bytes) → length p ≤ length s → starts_with (s ++ c) p ≡ starts_with s p
unfolding starts_with
starts_with-append [] [] [] h = refl
starts_with-append [] [] (x ∷ c) h = refl
starts_with-append [] (y ∷ p) c h = elim h [ ]
starts_with-append (x ∷ s) [] c h = refl
starts_with-append (x ∷ s) (y ∷ p) c h =
    ap (λ t. x == y && t) (starts_with-append s p c (omega arith))

starts_with_le : (s p : Bytes) → starts_with s p ≡ true → length p ≤ length s
unfolding starts_with
starts_with_le [] [] h = omega arith
starts_with_le [] (y ∷ p) h = cc
starts_with_le (x ∷ s) [] h = omega arith
starts_with_le (x ∷ s) (y ∷ p) h = elim (Bool-cases (x == y)) [
  | inl same ↦ omega (arith, starts_with_le s p (rw same at h))
  | inr other ↦ cc (rw other at h)
]

-- The pattern lies in the bytes where it is found.
pub find_le : (p s : Bytes) (i : ℕ) → find p s ≡ some i → i + length p ≤ length s
unfolding find
find_le p [] i h = cc
find_le p (x ∷ s) i h = elim (Bool-cases (starts_with (x ∷ s) p)) [
  | inl here ↦
      let e : some 0 ≡ some i = rw here at h in
      omega (arith, some_inj e, starts_with_le (x ∷ s) p here)
  | inr later ↦ elim (Option-cases (find p s)) [
    | inl none_found ↦ cc (rw (later, none_found) at h)
    | inr (j, found) ↦
        let e : some (suc j) ≡ some i = rw (later, found) at h in
        omega (arith, some_inj e, find_le p s j found)
  ]
]

pub find-append : (p s c : Bytes) (i : ℕ) → find p s ≡ some i → find p (s ++ c) ≡ some i
unfolding find
find-append p [] c i h = cc
find-append p (x ∷ s) c i h =
    let fits = find_le p (x ∷ s) i h in
    let same = starts_with-append (x ∷ s) p c (omega arith) in
    elim (Bool-cases (starts_with (x ∷ s) p)) [
      | inl here ↦ let e : some 0 ≡ some i = rw here at h in rw (same, here) e
      | inr later ↦ elim (Option-cases (find p s)) [
        | inl none_found ↦ cc (rw (later, none_found) at h)
        | inr (j, found) ↦
            let e : some (suc j) ≡ some i = rw (later, found) at h in
            rw (same, later, find-append p s c j found) e
      ]
    ]

pub find_from_le :
    (p b : Bytes) (off n : ℕ)
    → 1 ≤ length p
    → find_from p b off ≡ some n
    → (off ≤ n) × (n + length p ≤ length b)
unfolding find_from
find_from_le p b off n one h = elim (Option-cases (find p (drop off b))) [
  | inl none_found ↦ cc (rw (find_from, none_found) at h)
  | inr (i, found) ↦
      let e : some (off + i) ≡ some n = rw (find_from, found) at h in
      let fits = find_le p (drop off b) i found in
      (omega (arith, some_inj e), omega (arith, some_inj e, length-drop off b))
]

pub find_from-append :
    (p b c : Bytes) (off n : ℕ)
    → 1 ≤ length p
    → find_from p b off ≡ some n
    → find_from p (b ++ c) off ≡ some n
unfolding find_from
find_from-append p b c off n one h = elim (Option-cases (find p (drop off b))) [
  | inl none_found ↦ cc (rw (find_from, none_found) at h)
  | inr (i, found) ↦
      let e : some (off + i) ≡ some n = rw (find_from, found) at h in
      let fits = find_le p (drop off b) i found in
      let inside : off ≤ length b = omega (arith, length-drop off b) in
      rw (find_from, drop-append_left off b c inside, find-append p (drop off b) c i found) e
]

-- A slice that lies inside stays what it is.
pub slice-append :
    (b c : Bytes) (off n : ℕ)
    → off ≤ n
    → n ≤ length b
    → take (n - off) (drop off (b ++ c)) ≡ take (n - off) (drop off b)
slice-append b c off n le fits =
    rw (drop-append_left off b c (omega arith))
      (take-append_left (n - off) (drop off b) c (omega (arith, length-drop off b)))
