-- ===== src/H2/Session/Receive/Padding.antt =====
-- The padding of a DATA or HEADERS payload.
use hellojs.Common.{
  suc, ◌-◌, ◌≡◌, ◌∷◌, ◌++◌, length, length-append, take-append_length, le→leb, arith,
}
use hellojs.Common.Bytes.{Bytes}
use hellojs.H2.Session.Receive.{unpad}

-- A payload that announces the padding behind its data is cut to the data.
pub unpad-padded : (body padding : Bytes) → unpad (length padding ∷ (body ++ padding)) ≡ body
unfolding unpad
unpad-padded body padding =
    let total = length-append body padding in
    let end : suc (length (body ++ padding)) - length padding ≡ suc (length body) = omega arith in
    rw (le→leb (length padding) (suc (length (body ++ padding))) (omega arith), end)
      (take-append_length body padding)
