-- ===== src/Tls/Records12/Runs.antt =====
-- TLS 1.2 records with a cipher that changes nothing, and the theorem at them.
use hellojs.Common.{ℕ, ◌+◌, ◌≡◌, drop, refl, none, arith, ◌++◌, [], ◌∷◌, some}
use hellojs.Common.Text.{text}
use hellojs.Tls.Records12.{
  Crypto, Cipher, Keys, repeat, encrypt_record, decrypt_record, decrypt_cbc, opened, strip_padding,
  check_mac, mac_input, seq_buf, verified,
}
use hellojs.Common.Bytes.{Bytes, write_be}
use hellojs.Tls.Records12.Genuine.{Authentic, decrypt_cbc-Authentic}
use hellojs.Tls.Records12.Parts.{Laws, Written}
use hellojs.Tls.Records12.RoundTrip.{encrypt_record-Written}

-- The associated data and the tag are not looked at.
abbrev plain : Crypto
plain = record {
  seal = λ alg key nonce aad pt. (pt, repeat 16 0);
  unseal = λ alg key nonce aad ct tag. some ct;
  cbc_encrypt = λ alg key iv blocks. blocks;
  cbc_decrypt = λ alg key iv blocks. some blocks;
  hmac = λ alg key input. repeat 20 7;
}

plain-Laws : Laws plain
plain-Laws = record {
  unseal-seal = λ alg key nonce aad pt. refl;
  ciphertext_length = λ alg key nonce aad pt. refl;
  tag_length = λ alg key nonce aad pt. refl;
  cbc_decrypt-encrypt = λ alg key iv blocks h. refl;
  cbc_encrypt_length = λ alg key iv blocks h. refl;
}

abbrev cbc : Cipher
cbc = record { aead = none; mac = some (text "sha1"); mac_len = 20 }

abbrev keys : Keys
keys = record { key = repeat 16 1; iv = repeat 4 2; mac = repeat 20 3 }

encrypt_record-Written_example :
    Written 23
      (encrypt_record plain cbc keys 5 23 (repeat 16 9) (104 ∷ 105 ∷ []))
      (decrypt_record plain cbc keys 5 23)
      (104 ∷ 105 ∷ [])
encrypt_record-Written_example =
    encrypt_record-Written plain plain-Laws cbc keys 5 23 (repeat 16 9) (104 ∷ 105 ∷ [])
      (omega arith) ((λ key input. refl), omega arith, refl)

abbrev received : Bytes
received = repeat 16 9 ++ ((104 ∷ 105 ∷ []) ++ (repeat 20 7 ++ repeat 10 9))

decrypt_cbc-Authentic_example :
    (pad : ℕ) × (no_pad : Bytes) × (some (drop 16 received) ≡ some (no_pad ++ repeat (pad + 1) pad))
    × Authentic plain (text "sha1") 20 (repeat 20 3) 5 23 (104 ∷ 105 ∷ []) no_pad
unfolding decrypt_cbc opened strip_padding check_mac mac_input seq_buf verified write_be
decrypt_cbc-Authentic_example =
    decrypt_cbc-Authentic plain (text "sha1") 20 (repeat 16 1) (repeat 20 3) 5 23 received
      (104 ∷ 105 ∷ []) (λ key input. refl) (omega arith) refl
