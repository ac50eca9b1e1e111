-- ===== src/Tls/SessionCache.antt =====
-- lib/tls/session-cache.js: the store of session tickets in memory, and `parseNewSessionTicket`.
pub mod Once
mod Runs
use hellojs.Common.{
  ℕ, zero, suc, ◌+◌, ◌*◌, Bool, true, false, not, ◌&&◌, List, [], ◌∷◌, Option, none, some, Result,
  ok, err, ◌>>=◌, if◌then◌else◌, leb, ltb, ◌==◌, length, take, drop,
}
use hellojs.Common.Bytes.{Bytes}
use hellojs.Common.Text.{Text, text_eq}
use hellojs.H2.Frame.{Error, out_of_range, read_uint}

pub record Session : Type 0 where
  pub ticket_lifetime : ℕ
  pub ticket_age_add : ℕ
  pub ticket_nonce : Bytes
  pub ticket : Bytes
  pub max_early_data_size : ℕ
  pub issued_at : ℕ
  pub expires_at : ℕ

-- `store`: the sessions of each host, the most recent first.
abbrev pub Store : Type 0
Store = List (Text × List Session)

abbrev pub max_per_host : ℕ
max_per_host = 4

-- `store.get`, `store.set` and `store.delete`.
unfoldable pub get : Text → Store → Option (List Session)
get host [] = none
get host ((h, l) ∷ rest) = if text_eq h host then some l else get host rest

unfoldable pub set : Text → List Session → Store → Store
set host l [] = (host, l) ∷ []
set host l ((h, m) ∷ rest) = if text_eq h host then (h, l) ∷ rest else (h, m) ∷ set host l rest

unfoldable pub delete : Text → Store → Store
delete host [] = []
delete host ((h, m) ∷ rest) =
    let left = delete host rest in if text_eq h host then left else (h, m) ∷ left

abbrev pub list_of : Option (List Session) → List Session
list_of none = []
list_of (some l) = l

-- `put`; a cut at four is no change on a shorter list.
unfoldable pub put : Text → Session → Store → Store
put host s store = set host (take max_per_host (s ∷ list_of (get host store))) store

-- `s.expiresAt && Date.now() > s.expiresAt`
unfoldable pub is_over : ℕ → Session → Bool
is_over now s = not (s.expires_at == 0) && ltb s.expires_at now

-- `take` on the host's list: the first session that is not over, and what is left behind it.
unfoldable pub take_first : ℕ → List Session → Option Session × List Session
take_first now [] = (none, [])
take_first now (s ∷ l) = let rest = take_first now l in if is_over now s then rest else (some s, l)

unfoldable pub keep : Text → List Session → Store → Store
keep host [] store = delete host store
keep host (s ∷ l) store = set host (s ∷ l) store

unfoldable pub take_session : Text → ℕ → Store → Option Session × Store
take_session host now store = elim (get host store) [
  | none ↦ (none, store)
  | some [] ↦ (none, store)
  | some (s ∷ l) ↦ let (found, rest) = take_first now (s ∷ l) in (found, keep host rest store)
]

unfoldable pub peek : Text → Store → Option Session
peek host store = elim (list_of (get host store)) [ [] ↦ none | (s ∷ l) ↦ some s ]

unfoldable pub total : Store → ℕ
total [] = 0
total ((h, l) ∷ rest) = length l + total rest

unfoldable pub size : Option Text → Store → ℕ
size none store = total store
size (some host) store = length (list_of (get host store))

unfoldable pub clear : Option Text → Store → Store
clear none store = []
clear (some host) store = delete host store

-- The loop over the extensions, on what is left of them. Each takes four bytes at least.
unfoldable pub early_data : ℕ → Bytes → ℕ → Result Error ℕ
early_data zero ext found = ok found
early_data (suc fuel) ext found =
    let next =
      (read_uint 2 ext >>= λ (t : ℕ). read_uint 2 (drop 2 ext) >>= λ (l : ℕ).
      let d = take l (drop 4 ext) in
      (if t == 0x002a && leb 4 (length d) then read_uint 4 d else ok found) >>= λ (found' : ℕ).
      early_data fuel (drop l (drop 4 ext)) found') in
    if leb 4 (length ext) then next else ok found

-- `parseNewSessionTicket`: a nonce length past the end makes the position NaN, and the next read
-- throws the same error.
unfoldable pub read_nonce : Bytes → Result Error (Bytes × Bytes)
read_nonce [] = err out_of_range
read_nonce (len ∷ bs) = ok (take len bs, drop len bs)

unfoldable pub parse_new_session_ticket : Bytes → ℕ → Result Error Session
parse_new_session_ticket body now = do
  lifetime ← read_uint 4 body
  age_add ← read_uint 4 (drop 4 body)
  nonce ← read_nonce (drop 8 body)
  ticket_len ← read_uint 2 nonce.1
  ext_len ← read_uint 2 (drop ticket_len (drop 2 nonce.1))
  let ext = take ext_len (drop 2 (drop ticket_len (drop 2 nonce.1)))
  early ← early_data (length ext) ext 0
  ok (record {
    ticket_lifetime = lifetime;
    ticket_age_add = age_add;
    ticket_nonce = nonce.0;
    ticket = take ticket_len (drop 2 nonce.1);
    max_early_data_size = early;
    issued_at = now;
    expires_at = (if ltb 0 lifetime then now + lifetime * 1000 else 0);
  })
