-- ===== src/Tls/Records12.antt =====
-- lib/tls/tls12_records.js: the records of TLS 1.2. The ciphers and the HMAC of node:crypto are
-- parameters, and the random IV of a CBC record is an argument.
pub mod Parts
pub mod RoundTrip
pub mod Genuine
mod Runs
use Prim.Native.Nat.{bit_xor}
use hellojs.Common.{
  ℕ, zero, suc, ◌+◌, ◌-◌, ◌*◌, ◌/◌, ◌%◌, ◌^◌, Bool, true, false, ◌&&◌, ◌||◌, List, [], ◌∷◌, ◌++◌,
  Option, none, some, Result, ok, err, ◌>>=◌, if◌then◌else◌, ltb, leb, ◌==◌, length, take, drop,
}
use hellojs.Common.Bytes.{Bytes, byte_at, write_be}
use hellojs.Common.Text.{Text, text, text_eq}

-- `out_of_range` is what `writeUInt16BE` throws, `crypto_error` what a decipher does.
pub data Error : Type 0 where
  out_of_range too_short crypto_error : Error
  invalid_padding bad_padding_byte mac_length mac_mismatch unsupported : Error

-- An AEAD with its key, nonce and associated data, to a ciphertext and a tag, and back; a CBC cipher
-- with its key and IV, and back; and an HMAC with its key.
pub record Crypto : Type 0 where
  pub seal : Text → Bytes → Bytes → Bytes → Bytes → Bytes × Bytes
  pub unseal : Text → Bytes → Bytes → Bytes → Bytes → Bytes → Option Bytes
  pub cbc_encrypt : Text → Bytes → Bytes → Bytes → Bytes
  pub cbc_decrypt : Text → Bytes → Bytes → Bytes → Option Bytes
  pub hmac : Text → Bytes → Bytes → Bytes

pub record Cipher : Type 0 where
  pub aead : Option Text
  pub mac : Option Text
  pub mac_len : ℕ

pub record Keys : Type 0 where
  pub key : Bytes
  pub iv : Bytes
  pub mac : Bytes

abbrev pub uint16 : ℕ → Result Error Bytes
uint16 n = if ltb n (2 ^ 16) then ok (write_be 2 n) else err out_of_range

unfoldable pub record_header : ℕ → ℕ → Result Error Bytes
record_header type len = uint16 len >>= λ l. ok (type % 256 ∷ 0x03 ∷ 0x03 ∷ l)

unfoldable pub seq_buf : ℕ → Bytes
seq_buf seq = write_be 4 (seq / 0x100000000) ++ write_be 4 (seq % 2 ^ 32)

unfoldable pub aead_aad : ℕ → ℕ → ℕ → Result Error Bytes
aead_aad seq type plaintext_len =
    uint16 plaintext_len >>= λ l. ok (seq_buf seq ++ (type % 256 ∷ 0x03 ∷ 0x03 ∷ l))

unfoldable pub framed : ℕ → Bytes → Result Error Bytes
framed type fragment = record_header type (length fragment) >>= λ h. ok (h ++ fragment)

unfoldable pub opened : Option Bytes → Result Error Bytes
opened (some plaintext) = ok plaintext
opened none = err crypto_error

-- `nonce[4 + i] ^= sBuf[i]`: a byte past the end of a buffer is not written.
abbrev pub xor_bytes : Bytes → Bytes → Bytes
xor_bytes [] s = []
xor_bytes (x ∷ xs) [] = x ∷ xs
xor_bytes (x ∷ xs) (y ∷ ys) = bit_xor x y ∷ xor_bytes xs ys

unfoldable pub chacha_nonce : Bytes → ℕ → Bytes
chacha_nonce iv seq = take 4 iv ++ xor_bytes (drop 4 iv) (seq_buf seq)

abbrev pub chacha : Text
chacha = text "chacha20-poly1305"

abbrev pub repeat : ℕ → ℕ → Bytes
repeat zero b = []
repeat (suc n) b = b ∷ repeat n b

abbrev pub aes_alg : Bytes → Text
aes_alg enc_key = if length enc_key == 16 then text "aes-128-cbc" else text "aes-256-cbc"

unfoldable pub mac_input : ℕ → ℕ → Bytes → Result Error Bytes
mac_input seq type content =
    uint16 (length content) >>= λ l. ok (seq_buf seq ++ (type % 256 ∷ 0x03 ∷ 0x03 ∷ l) ++ content)

abbrev pub all_are : ℕ → Bytes → Bool
all_are b [] = true
all_are b (x ∷ xs) = (x == b) && all_are b xs

-- `padLen + 1` bytes less, each of them `padLen`. Without any byte `padLen` is undefined, every test
-- is false and nothing is left.
unfoldable pub strip_padding : Bytes → Result Error Bytes
strip_padding pt =
    let n = length pt in
    let pad_len = byte_at pt (n - 1) in
    if n == 0
    then ok []
    else if ltb n (pad_len + 1)
    then err invalid_padding
    else if all_are pad_len (drop (n - 1 - pad_len) pt)
    then ok (take (n - pad_len - 1) pt)
    else err bad_padding_byte

-- The index of `subarray(0, n - macLen)` in `n` bytes: below 0 it counts from the end.
abbrev pub mac_start : ℕ → ℕ → ℕ
mac_start n mac_len = if leb mac_len n then n - mac_len else n - (mac_len - n)

-- `timingSafeEqual` throws on two lengths.
unfoldable pub verified : Bytes → Bytes → Bytes → Result Error Bytes
verified mac expected content =
    if length mac == length expected
    then (if text_eq mac expected then ok content else err mac_mismatch)
    else err mac_length

abbrev pub is_gcm : Text → Bool
is_gcm aead = text_eq aead (text "aes-128-gcm") || text_eq aead (text "aes-256-gcm")

module _ (c : Crypto) where
  unfoldable pub encrypt_gcm : Text → Bytes → Bytes → ℕ → ℕ → Bytes → Result Error Bytes
  encrypt_gcm aead key iv seq type plaintext = aead_aad seq type (length plaintext) >>= λ aad.
      let nonce = seq_buf seq in
      let (ct, tag) = c.seal aead key (iv ++ nonce) aad plaintext in
      framed type (nonce ++ (ct ++ tag))

  unfoldable pub decrypt_gcm : Text → Bytes → Bytes → ℕ → ℕ → Bytes → Result Error Bytes
  decrypt_gcm aead key iv seq type payload =
      let n = length payload in
      let nonce = take 8 payload in
      let ct = drop 8 (take (n - 16) payload) in
      if ltb n (8 + 16)
      then err too_short
      else aead_aad seq type (length ct) >>= λ aad.
          opened (c.unseal aead key (iv ++ nonce) aad ct (drop (n - 16) payload))

  unfoldable pub encrypt_chacha : Bytes → Bytes → ℕ → ℕ → Bytes → Result Error Bytes
  encrypt_chacha key iv seq type plaintext = aead_aad seq type (length plaintext) >>= λ aad.
      let (ct, tag) = c.seal chacha key (chacha_nonce iv seq) aad plaintext in
      framed type (ct ++ tag)

  unfoldable pub decrypt_chacha : Bytes → Bytes → ℕ → ℕ → Bytes → Result Error Bytes
  decrypt_chacha key iv seq type payload =
      let n = length payload in
      let ct = take (n - 16) payload in
      if ltb n 16
      then err too_short
      else aead_aad seq type (length ct) >>= λ aad.
          opened (c.unseal chacha key (chacha_nonce iv seq) aad ct (drop (n - 16) payload))

  unfoldable pub encrypt_cbc : Text → ℕ → Bytes → Bytes → ℕ → ℕ → Bytes → Bytes → Result Error Bytes
  encrypt_cbc mac_alg mac_len enc_key mac_key seq type iv plaintext =
      mac_input seq type plaintext >>= λ input.
      let mac = c.hmac mac_alg mac_key input in
      let pad_len = 16 - 1 - (length plaintext + mac_len) % 16 in
      let blocks = plaintext ++ (mac ++ repeat (pad_len + 1) pad_len) in
      framed type (iv ++ c.cbc_encrypt (aes_alg enc_key) enc_key iv blocks)

  unfoldable pub check_mac : Text → ℕ → Bytes → ℕ → ℕ → Bytes → Result Error Bytes
  check_mac mac_alg mac_len mac_key seq type no_pad =
      let i = mac_start (length no_pad) mac_len in
      let content = take i no_pad in
      mac_input seq type content >>= λ input.
      verified (drop i no_pad) (c.hmac mac_alg mac_key input) content

  unfoldable pub decrypt_cbc : Text → ℕ → Bytes → Bytes → ℕ → ℕ → Bytes → Result Error Bytes
  decrypt_cbc mac_alg mac_len enc_key mac_key seq type payload =
      opened (c.cbc_decrypt (aes_alg enc_key) enc_key (take 16 payload) (drop 16 payload)) >>= λ pt.
      strip_padding pt >>= check_mac mac_alg mac_len mac_key seq type

  unfoldable pub encrypt_with_mac : Cipher → Keys → ℕ → ℕ → Bytes → Bytes → Result Error Bytes
  encrypt_with_mac cipher keys seq type iv plaintext = elim cipher.mac [
    | none ↦ err unsupported
    | some mac ↦ encrypt_cbc mac cipher.mac_len keys.key keys.mac seq type iv plaintext
  ]

  unfoldable pub decrypt_with_mac : Cipher → Keys → ℕ → ℕ → Bytes → Result Error Bytes
  decrypt_with_mac cipher keys seq type payload = elim cipher.mac [
    | none ↦ err unsupported
    | some mac ↦ decrypt_cbc mac cipher.mac_len keys.key keys.mac seq type payload
  ]

  unfoldable pub encrypt_record : Cipher → Keys → ℕ → ℕ → Bytes → Bytes → Result Error Bytes
  encrypt_record cipher keys seq type iv plaintext = elim cipher.aead [
    | none ↦ encrypt_with_mac cipher keys seq type iv plaintext
    | some aead ↦
        if is_gcm aead
        then encrypt_gcm aead keys.key keys.iv seq type plaintext
        else if text_eq aead chacha
        then encrypt_chacha keys.key keys.iv seq type plaintext
        else encrypt_with_mac cipher keys seq type iv plaintext
  ]

  unfoldable pub decrypt_record : Cipher → Keys → ℕ → ℕ → Bytes → Result Error Bytes
  decrypt_record cipher keys seq type payload = elim cipher.aead [
    | none ↦ decrypt_with_mac cipher keys seq type payload
    | some aead ↦
        if is_gcm aead
        then decrypt_gcm aead keys.key keys.iv seq type payload
        else if text_eq aead chacha
        then decrypt_chacha keys.key keys.iv seq type payload
        else decrypt_with_mac cipher keys seq type payload
  ]
