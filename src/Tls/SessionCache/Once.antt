-- ===== src/Tls/SessionCache/Once.antt =====
-- A session is taken once, and never after its time; a host has four sessions at most.
use Prim.{tt}
use hellojs.Common.{
  ℕ, ◌≤◌, ◌≡◌, refl, ap, sym, subst, true, false, List, [], ◌∷◌, ◌++◌, Option, none, some, length,
  take, length-take, All, arith, Bool-cases, inl, inr,
}
use hellojs.Common.Text.{Text, text_eq, text_eq→eq, text_eq_refl}
use hellojs.Tls.SessionCache.{
  Session, Store, max_per_host, get, set, delete, list_of, put, is_over, take_first, keep,
  take_session,
}

-- A session of the list is found behind ones that are over, and what is behind it is left.
abbrev pub Takes : ℕ → List Session → Option Session → List Session → Type 0
Takes now l none rest = All (λ s. is_over now s ≡ true) l × (rest ≡ [])
Takes now l (some s) rest =
    (front : List Session) × (l ≡ front ++ (s ∷ rest))
    × All (λ r. is_over now r ≡ true) front
    × (is_over now s ≡ false)

Takes-cons :
    (now : ℕ) (s : Session) (l : List Session) (o : Option Session) (rest : List Session)
    → is_over now s ≡ true
    → Takes now l o rest
    → Takes now (s ∷ l) o rest
Takes-cons now s l none rest h (all, e) = ((h, all), e)
Takes-cons now s l (some r) rest h (front, e, all, fresh) =
    (s ∷ front, ap (◌∷◌ s) e, (h, all), fresh)

take_first-Takes :
    (now : ℕ) (l : List Session) → Takes now l (take_first now l).0 (take_first now l).1
unfolding take_first
take_first-Takes now [] = (tt, refl)
take_first-Takes now (s ∷ l) = elim (Bool-cases (is_over now s)) [
  | inl t ↦ rw t (Takes-cons now s l _ _ t (take_first-Takes now l))
  | inr t ↦ rw t ([], refl, tt, t)
]

get-set : (host : Text) (l : List Session) (store : Store) → get host (set host l store) ≡ some l
unfolding get set
get-set host l [] = rw (text_eq_refl host) refl
get-set host l ((h, m) ∷ rest) = elim (Bool-cases (text_eq h host)) [
  | inl t ↦ rw (t, t) refl
  | inr t ↦ rw (t, t) (get-set host l rest)
]

get-delete : (host : Text) (store : Store) → get host (delete host store) ≡ none
unfolding get delete
get-delete host [] = refl
get-delete host ((h, m) ∷ rest) = elim (Bool-cases (text_eq h host)) [
  | inl t ↦ rw t (get-delete host rest)
  | inr t ↦ rw (t, t) (get-delete host rest)
]

-- The keys that are equal to one of two different hosts are not equal to the other.
other_key :
    (h host other : Text)
    → text_eq host other ≡ false
    → text_eq h host ≡ true
    → text_eq h other ≡ false
other_key h host other d t = subst (λ z. text_eq z other ≡ false) (sym (text_eq→eq h host t)) d

get-set_other :
    (host other : Text) (l : List Session) (store : Store)
    → text_eq host other ≡ false
    → get other (set host l store) ≡ get other store
unfolding get set
get-set_other host other l [] d = rw d refl
get-set_other host other l ((h, m) ∷ rest) d = elim (Bool-cases (text_eq h host)) [
  | inl t ↦ rw (t, other_key h host other d t) refl
  | inr t ↦ elim (Bool-cases (text_eq h other)) [
    | inl p ↦ rw (t, p) refl
    | inr p ↦ rw (t, p) (get-set_other host other l rest d)
  ]
]

get-delete_other :
    (host other : Text) (store : Store)
    → text_eq host other ≡ false
    → get other (delete host store) ≡ get other store
unfolding get delete
get-delete_other host other [] d = refl
get-delete_other host other ((h, m) ∷ rest) d = elim (Bool-cases (text_eq h host)) [
  | inl t ↦ rw (t, other_key h host other d t) (get-delete_other host other rest d)
  | inr t ↦ elim (Bool-cases (text_eq h other)) [
    | inl p ↦ rw (t, p) refl
    | inr p ↦ rw (t, p) (get-delete_other host other rest d)
  ]
]

get-keep :
    (host : Text) (l : List Session) (store : Store) → list_of (get host (keep host l store)) ≡ l
unfolding keep
get-keep host [] store = ap list_of (get-delete host store)
get-keep host (s ∷ l) store = ap list_of (get-set host (s ∷ l) store)

get-keep_other :
    (host other : Text) (l : List Session) (store : Store)
    → text_eq host other ≡ false
    → get other (keep host l store) ≡ get other store
unfolding keep
get-keep_other host other [] store d = get-delete_other host other store d
get-keep_other host other (s ∷ l) store d = get-set_other host other (s ∷ l) store d

taken :
    (host : Text) (now : ℕ) (store : Store) (o : Option (List Session))
    → get host store ≡ o
    → Takes now
        (list_of (get host store))
        (take_session host now store).0
        (list_of (get host (take_session host now store).1))
      × ((other : Text)
          → text_eq host other ≡ false
          → get other (take_session host now store).1 ≡ get other store)
unfolding take_session
taken host now store none e = rw (e, take_session, e) ((tt, refl), λ other d. refl)
taken host now store (some []) e = rw (e, take_session, e) ((tt, refl), λ other d. refl)
taken host now store (some (s ∷ l)) e =
    let rest = (take_first now (s ∷ l)).1 in
    rw (e, take_session)
      (
        subst (Takes now (s ∷ l) (take_first now (s ∷ l)).0) (sym (get-keep host rest store))
            (take_first-Takes now (s ∷ l)),
        λ other d. get-keep_other host other rest store d,
      )

-- `take` returns the most recent session of the host that is not over, drops those before it that
-- are over, leaves those behind it, and leaves the other hosts alone; it returns nothing only if
-- all sessions of the host are over.
pub take_session-Takes :
    (host : Text) (now : ℕ) (store : Store)
    → Takes now
        (list_of (get host store))
        (take_session host now store).0
        (list_of (get host (take_session host now store).1))
      × ((other : Text)
          → text_eq host other ≡ false
          → get other (take_session host now store).1 ≡ get other store)
take_session-Takes host now store = taken host now store (get host store) refl

-- `put` makes the session the host's most recent one, keeps three of the others at most, in their
-- order, and leaves the other hosts alone.
pub put_lem :
    (host : Text) (s : Session) (store : Store)
    → (list_of (get host (put host s store)) ≡ s ∷ take 3 (list_of (get host store)))
      × (length (list_of (get host (put host s store))) ≤ max_per_host)
      × ((other : Text)
          → text_eq host other ≡ false
          → get other (put host s store) ≡ get other store)
unfolding put
put_lem host s store =
    let kept = take max_per_host (s ∷ list_of (get host store)) in
    let stored = get-set host kept store in
    (
      ap list_of stored,
      rw stored (omega (arith, length-take 3 (list_of (get host store)))),
      λ other d. get-set_other host other kept store d,
    )
