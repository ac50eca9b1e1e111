-- ===== src/Socks5.antt =====
-- lib/socks5.js: the handshake with a SOCKS5 proxy, as the state machine of its `data` handler.
pub mod Chunks
mod Runs
use hellojs.Common.{
  ℕ, zero, suc, ◌+◌, ◌%◌, ◌^◌, Bool, true, false, not, List, map, [], ◌∷◌, ◌++◌, Option, none, some,
  Result, ok, err, if◌then◌else◌, leb, ltb, ◌==◌, length, take, drop,
}
use hellojs.Common.Bytes.{Bytes, byte_at, write_be}
use hellojs.Common.Text.{Text, Strings}
use hellojs.Cookies.Parse.{split}

-- `buildAuthRequest` on the bytes of the two strings; a byte of a Buffer keeps the low eight bits.
unfoldable pub build_auth_request : Bytes → Bytes → Bytes
build_auth_request u p = 0x01 ∷ (length u % 256) ∷ (u ++ ((length p % 256) ∷ p))

-- `net.isIP`, and `parseInt` to the bases 10 and 16.
pub record Net : Type 0 where
  pub is_ip : Text → ℕ
  pub decimal : Text → ℕ
  pub hexadecimal : Text → ℕ

-- `Buffer.from` of numbers, and `writeUInt16BE` of each, which throws above 16 bits.
unfoldable pub low_bytes : List ℕ → Bytes
low_bytes [] = []
low_bytes (n ∷ ns) = (n % 256) ∷ low_bytes ns

unfoldable pub write_words : List ℕ → Option Bytes
write_words [] = some []
write_words (n ∷ ns) = elim (write_words ns) [
  | none ↦ none
  | some bytes ↦ (if ltb n (2 ^ 16) then some (write_be 2 n ++ bytes) else none)
]

unfoldable pub group_value : Net → Text → ℕ
group_value net g = if length g == 0 then 0 else net.hexadecimal g

-- The address with its type in front; `none` is a throw.
unfoldable pub address : Strings → Net → Text → Option Bytes
address u net host =
    if net.is_ip host == 4
    then some (0x01 ∷ low_bytes (map net.decimal (split b'.' host)))
    else if net.is_ip host == 6
    then (if length (split b':' host) == 8
        then elim (write_words (map (group_value net) (split b':' host))) [
          | none ↦ none
          | some a ↦ some (0x04 ∷ a)
        ]
        else none)
    else some (0x03 ∷ (length (u.to_utf8 host) % 256) ∷ u.to_utf8 host)

unfoldable pub build_connect_request : Strings → Net → Text → ℕ → Option Bytes
build_connect_request u net dest_host dest_port = elim (address u net dest_host) [
  | none ↦ none
  | some a ↦ elim (write_words (dest_port ∷ [])) [
    | none ↦ none
    | some port ↦ some (0x05 ∷ 0x01 ∷ 0x00 ∷ (a ++ port))
  ]
]

-- What `readReply` returns where it does not return null.
pub data Reply : Type 0 where
  reply : ℕ → ℕ → ℕ → Reply
  unknown_atyp : ℕ → Reply

-- The end of `readReply`, for an address of `bnd_len` bytes.
unfoldable pub bound_reply : Bytes → ℕ → Option Reply
bound_reply buf bnd_len =
    let total = 4 + bnd_len + 2 in
    if ltb (length buf) total then none else some (reply (byte_at buf 0) (byte_at buf 1) total)

unfoldable pub read_reply : Bytes → Option Reply
read_reply buf =
    if ltb (length buf) 7
    then none
    else if byte_at buf 3 == 0x01
    then bound_reply buf 4
    else if byte_at buf 3 == 0x04
    then bound_reply buf 16
    else if byte_at buf 3 == 0x03
    then bound_reply buf (1 + byte_at buf 4)
    else some (unknown_atyp (byte_at buf 3))

pub data Failure : Type 0 where
  greeting_version : ℕ → Failure
  no_methods : Failure
  no_credentials : Failure
  unsupported_method : ℕ → Failure
  auth_version : ℕ → Failure
  auth_failed : Failure
  reply_atyp : ℕ → Failure
  reply_version : ℕ → Failure
  refused : ℕ → Failure

-- `state` with `buf`. In a tunnel the bytes are what the caller's stream gets; `threw` is the error
-- of `buildConnectRequest`, which leaves the handler.
pub data Phase : Type 0 where
  greeting : Bytes → Phase
  auth : Bytes → Phase
  connect : Bytes → Phase
  tunnel : Bytes → Phase
  failed : Failure → Phase
  threw : Phase

pub record State : Type 0 where
  pub phase : Phase
  pub written : List Bytes

-- What the caller asks for: the credentials in bytes, if there are any, and what
-- `buildConnectRequest` makes of the destination.
pub record Config : Type 0 where
  pub credentials : Option (Bytes × Bytes)
  pub connect_request : Option Bytes

abbrev pub at : Phase → List Bytes → State
at p w = record { phase = p; written = w }

-- A reply that was read.
unfoldable pub answer : Bytes → List Bytes → Reply → State
answer buf w (unknown_atyp a) = at (failed (reply_atyp a)) w
answer buf w (reply ver rep consumed) =
    if not (ver == 0x05)
    then at (failed (reply_version ver)) w
    else if not (rep == 0x00)
    then at (failed (refused rep)) w
    else at (tunnel (drop consumed buf)) w

-- The loop, unrolled: a round goes on to the next state or stops.
unfoldable pub run_connect : Bytes → List Bytes → State
run_connect buf w = elim (read_reply buf) [ none ↦ at (connect buf) w | some r ↦ answer buf w r ]

unfoldable pub send_connect : Config → Bytes → List Bytes → State
send_connect c buf w = elim c.connect_request [
  | none ↦ at threw w
  | some req ↦ run_connect buf (w ++ (req ∷ []))
]

unfoldable pub run_auth : Config → Bytes → List Bytes → State
run_auth c buf w =
    if ltb (length buf) 2
    then at (auth buf) w
    else if not (byte_at buf 0 == 0x01)
    then at (failed (auth_version (byte_at buf 0))) w
    else if not (byte_at buf 1 == 0x00)
    then at (failed auth_failed) w
    else send_connect c (drop 2 buf) w

unfoldable pub send_auth : Config → Bytes → List Bytes → State
send_auth c buf w = elim c.credentials [
  | none ↦ at (failed no_credentials) w
  | some (user, password) ↦ run_auth c buf (w ++ (build_auth_request user password ∷ []))
]

unfoldable pub run_greeting : Config → Bytes → List Bytes → State
run_greeting c buf w =
    if ltb (length buf) 2
    then at (greeting buf) w
    else if not (byte_at buf 0 == 0x05)
    then at (failed (greeting_version (byte_at buf 0))) w
    else if byte_at buf 1 == 0xff
    then at (failed no_methods) w
    else if byte_at buf 1 == 0x00
    then send_connect c (drop 2 buf) w
    else if byte_at buf 1 == 0x02
    then send_auth c (drop 2 buf) w
    else at (failed (unsupported_method (byte_at buf 1))) w

-- The `data` handler; once the tunnel stands the bytes go to the caller.
unfoldable pub on_data_in : Config → Phase → List Bytes → Bytes → State
on_data_in c (greeting buf) w chunk = run_greeting c (buf ++ chunk) w
on_data_in c (auth buf) w chunk = run_auth c (buf ++ chunk) w
on_data_in c (connect buf) w chunk = run_connect (buf ++ chunk) w
on_data_in c (tunnel stream) w chunk = at (tunnel (stream ++ chunk)) w
on_data_in c (failed e) w chunk = at (failed e) w
on_data_in c threw w chunk = at threw w

unfoldable pub on_chunk : Config → State → Bytes → State
on_chunk c s chunk = on_data_in c s.phase s.written chunk

-- The `connect` handler: the methods that are offered.
unfoldable pub start : Config → State
start c = at (greeting []) (elim c.credentials [
  | none ↦ (0x05 ∷ 1 ∷ 0x00 ∷ []) ∷ []
  | some p ↦ (0x05 ∷ 2 ∷ 0x00 ∷ 0x02 ∷ []) ∷ []
])
