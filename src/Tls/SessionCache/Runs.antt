-- ===== src/Tls/SessionCache/Runs.antt =====
-- The store and a ticket message at concrete inputs, and the theorems at them.
use hellojs.Common.{ℕ, ◌≤◌, ◌≡◌, refl, false, [], ◌∷◌, ok, length, take}
use hellojs.Common.Bytes.{read_be_from}
use hellojs.Common.Text.{Text, text, text_eq}
use hellojs.H2.Frame.{read_uint}
use hellojs.Tls.SessionCache.{
  Session, Store, get, list_of, put, take_session, read_nonce, early_data, parse_new_session_ticket,
}
use hellojs.Tls.SessionCache.Once.{Takes, take_session-Takes, put_lem}

abbrev session : ℕ → ℕ → Session
session id expires_at = record {
  ticket_lifetime = 1;
  ticket_age_add = 0;
  ticket_nonce = [];
  ticket = id ∷ [];
  max_early_data_size = 0;
  issued_at = 0;
  expires_at = expires_at;
}

-- A message with a nonce of one byte, a ticket of two and the early_data extension.
ticket_message :
    parse_new_session_ticket
      (0 ∷ 0 ∷ 0 ∷ 2 ∷ 0 ∷ 0 ∷ 0 ∷ 9 ∷ 1 ∷ 0xaa ∷ 0 ∷ 2 ∷ 0xb1 ∷ 0xb2 ∷ 0 ∷ 8 ∷ 0 ∷ 0x2a ∷ 0 ∷ 4 ∷ 0
        ∷ 0 ∷ 0x40 ∷ 0 ∷ [])
      100
    ≡ ok (record {
      ticket_lifetime = 2;
      ticket_age_add = 9;
      ticket_nonce = 0xaa ∷ [];
      ticket = 0xb1 ∷ 0xb2 ∷ [];
      max_early_data_size = 0x4000;
      issued_at = 100;
      expires_at = 2100;
    })
unfolding parse_new_session_ticket read_nonce early_data read_uint read_be_from
ticket_message = refl

abbrev store : Store
store =
    (text "a", session 1 50 ∷ session 2 500 ∷ session 3 0 ∷ []) ∷ (text "b", session 4 0 ∷ []) ∷ []

take_session-Takes_example :
    Takes 100
      (list_of (get (text "a") store))
      (take_session (text "a") 100 store).0
      (list_of (get (text "a") (take_session (text "a") 100 store).1))
    × ((other : Text)
        → text_eq (text "a") other ≡ false
        → get other (take_session (text "a") 100 store).1 ≡ get other store)
take_session-Takes_example = take_session-Takes (text "a") 100 store

put_lem_example :
    (list_of (get (text "a") (put (text "a") (session 5 0) store))
      ≡ session 5 0 ∷ take 3 (list_of (get (text "a") store)))
    × (length (list_of (get (text "a") (put (text "a") (session 5 0) store))) ≤ 4)
    × ((other : Text)
        → text_eq (text "a") other ≡ false
        → get other (put (text "a") (session 5 0) store) ≡ get other store)
put_lem_example = put_lem (text "a") (session 5 0) store
