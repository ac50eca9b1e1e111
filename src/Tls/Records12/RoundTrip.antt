-- ===== src/Tls/Records12/RoundTrip.antt =====
-- What `decryptRecord` of lib/tls/tls12_records.js makes of the records that `encryptRecord` wrote.
use hellojs.Common.{
  ℕ, ◌+◌, ◌-◌, ◌%◌, ◌^◌, ◌≤◌, ◌≡◌, refl, ap, ◌∙◌, sym, true, ◌++◌, append_assoc, Option, none, some,
  ok, le→ltb, ◌==◌, length, take, drop, length-append, take-append_length, drop-append_length,
  arith, Bool-cases, inl, inr, ◌⊎◌,
}
use hellojs.Common.Bytes.{Bytes}
use hellojs.Common.Text.{Text, text_eq, text_eq_refl}
use hellojs.Tls.Records12.{
  Crypto, Cipher, Keys, seq_buf, opened, chacha, chacha_nonce, repeat, aes_alg, mac_input,
  strip_padding, mac_start, verified, encrypt_gcm, decrypt_gcm, encrypt_chacha, decrypt_chacha,
  encrypt_cbc, decrypt_cbc, check_mac, is_gcm, encrypt_with_mac, decrypt_with_mac, encrypt_record,
  decrypt_record,
}
use hellojs.Tls.Records12.Parts.{
  Laws, Written, aad_of, framed_ok, seq_buf_length, take-front, drop-front, length-repeat,
  strip_padding-padded, mac_of,
}

module _ (c : Crypto) (laws : Laws c) where
  gcm-Written :
      (aead : Text) (key iv : Bytes) (seq type : ℕ) (plaintext : Bytes)
      → length plaintext ≤ 2 ^ 14
      → Written type
          (encrypt_gcm c aead key iv seq type plaintext)
          (decrypt_gcm c aead key iv seq type)
          plaintext
  unfolding encrypt_gcm decrypt_gcm opened
  gcm-Written aead key iv seq type plaintext h =
      let (aad, aad_ok) = aad_of seq type (length plaintext) (omega arith) in
      let nonce = seq_buf seq in
      let ct = (c.seal aead key (iv ++ nonce) aad plaintext).0 in
      let tag = (c.seal aead key (iv ++ nonce) aad plaintext).1 in
      let payload = nonce ++ (ct ++ tag) in
      let eight = seq_buf_length seq in
      let same = laws.ciphertext_length aead key (iv ++ nonce) aad plaintext in
      let sixteen = laws.tag_length aead key (iv ++ nonce) aad plaintext in
      let size =
        length-append nonce (ct ++ tag) ∙ ap (λ k. length nonce + k) (length-append ct tag) in
      let front = length-append nonce ct in
      let shape = sym (append_assoc nonce ct tag) in
      let long = le→ltb (length payload) (8 + 16) (omega arith) in
      let body =
        ap (take (length payload - 16)) shape
        ∙ take-front (length payload - 16) (nonce ++ ct) tag (omega arith) in
      let last =
        ap (drop (length payload - 16)) shape
        ∙ drop-front (length payload - 16) (nonce ++ ct) tag (omega arith) in
      (
        payload,
        rw (encrypt_gcm, aad_ok) (framed_ok type payload (omega arith)),
        rw
            (
              decrypt_gcm,
              long,
              body,
              last,
              drop-front 8 nonce ct eight,
              same,
              aad_ok,
              take-front 8 nonce (ct ++ tag) eight,
              laws.unseal-seal aead key (iv ++ nonce) aad plaintext,
            )
            refl,
      )

  chacha-Written :
      (key iv : Bytes) (seq type : ℕ) (plaintext : Bytes)
      → length plaintext ≤ 2 ^ 14
      → Written type
          (encrypt_chacha c key iv seq type plaintext)
          (decrypt_chacha c key iv seq type)
          plaintext
  unfolding encrypt_chacha decrypt_chacha opened
  chacha-Written key iv seq type plaintext h =
      let (aad, aad_ok) = aad_of seq type (length plaintext) (omega arith) in
      let nonce = chacha_nonce iv seq in
      let ct = (c.seal chacha key nonce aad plaintext).0 in
      let tag = (c.seal chacha key nonce aad plaintext).1 in
      let payload = ct ++ tag in
      let same = laws.ciphertext_length chacha key nonce aad plaintext in
      let sixteen = laws.tag_length chacha key nonce aad plaintext in
      let size = length-append ct tag in
      let long = le→ltb (length payload) 16 (omega arith) in
      let body = take-front (length payload - 16) ct tag (omega arith) in
      let last = drop-front (length payload - 16) ct tag (omega arith) in
      (
        payload,
        rw (encrypt_chacha, aad_ok) (framed_ok type payload (omega arith)),
        rw
            (
              decrypt_chacha,
              long,
              body,
              last,
              same,
              aad_ok,
              laws.unseal-seal chacha key nonce aad plaintext,
            )
            refl,
      )

  module _ (mac_alg : Text) (mac_len : ℕ)
      (hashed : (key input : Bytes) → length (c.hmac mac_alg key input) ≡ mac_len) where
    check_mac-tagged :
        (mac_key : Bytes) (seq type : ℕ) (content input : Bytes)
        → mac_input seq type content ≡ ok input
        → check_mac c mac_alg mac_len mac_key seq type (content ++ c.hmac mac_alg mac_key input)
          ≡ ok content
    unfolding check_mac verified
    check_mac-tagged mac_key seq type content input e =
        let mac = c.hmac mac_alg mac_key input in
        let n = length (content ++ mac) in
        let size = length-append content mac in
        let long = hashed mac_key input in
        let start : mac_start n mac_len ≡ length content = ground arith in
        let equal : (length mac == length mac) ≡ true = ground arith in
        rw
          (
            check_mac,
            start,
            take-append_length content mac,
            drop-append_length content mac,
            e,
            equal,
            text_eq_refl mac,
          )
          refl

    cbc-Written :
        (enc_key mac_key iv : Bytes) (seq type : ℕ) (plaintext : Bytes)
        → length plaintext ≤ 2 ^ 14
        → mac_len ≤ 64
        → length iv ≡ 16
        → Written type
            (encrypt_cbc c mac_alg mac_len enc_key mac_key seq type iv plaintext)
            (decrypt_cbc c mac_alg mac_len enc_key mac_key seq type)
            plaintext
    unfolding encrypt_cbc decrypt_cbc opened
    cbc-Written enc_key mac_key iv seq type plaintext h short sixteen =
        let (input, input_ok) = mac_of seq type plaintext (omega arith) in
        let mac = c.hmac mac_alg mac_key input in
        let long = hashed mac_key input in
        let pad = 16 - 1 - (length plaintext + mac_len) % 16 in
        let padding = repeat (pad + 1) pad in
        let blocks = plaintext ++ (mac ++ padding) in
        let size =
          length-append plaintext (mac ++ padding)
          ∙ ap (λ k. length plaintext + k) (length-append mac padding) in
        let more = length-repeat (pad + 1) pad in
        let whole : length blocks % 16 ≡ 0 = omega arith in
        let alg = aes_alg enc_key in
        let enc = c.cbc_encrypt alg enc_key iv blocks in
        let same = laws.cbc_encrypt_length alg enc_key iv blocks whole in
        let payload = iv ++ enc in
        let payload_size = length-append iv enc in
        let stripped =
          ap strip_padding (sym (append_assoc plaintext mac padding))
          ∙ strip_padding-padded (plaintext ++ mac) pad in
        (
          payload,
          rw (encrypt_cbc, input_ok) (framed_ok type payload (omega arith)),
          rw
              (
                decrypt_cbc,
                take-front 16 iv enc sixteen,
                drop-front 16 iv enc sixteen,
                laws.cbc_decrypt-encrypt alg enc_key iv blocks whole,
                stripped,
              )
              (check_mac-tagged mac_key seq type plaintext input input_ok),
        )

  -- A MAC of `mac_len` bytes, and an IV of a block.
  abbrev pub Tagged : Option Text → ℕ → Bytes → Type 0
  Tagged none mac_len iv = ⊥
  Tagged (some mac) mac_len iv =
      ((key input : Bytes) → length (c.hmac mac key input) ≡ mac_len)
      × (mac_len ≤ 64)
      × (length iv ≡ 16)

  -- A cipher of the three kinds that the dispatchers know.
  abbrev pub Suits : Option Text → Option Text → ℕ → Bytes → Type 0
  Suits none mac mac_len iv = Tagged mac mac_len iv
  Suits (some aead) mac mac_len iv =
      (is_gcm aead ≡ true) ⊎ (text_eq aead chacha ≡ true) ⊎ Tagged mac mac_len iv

  with_mac-Written :
      (aead mac : Option Text) (mac_len : ℕ) (keys : Keys) (seq type : ℕ) (iv plaintext : Bytes)
      → length plaintext ≤ 2 ^ 14
      → Tagged mac mac_len iv
      → let cipher : Cipher = record { aead = aead; mac = mac; mac_len = mac_len } in
        Written type
          (encrypt_with_mac c cipher keys seq type iv plaintext)
          (decrypt_with_mac c cipher keys seq type)
          plaintext
  unfolding encrypt_with_mac decrypt_with_mac
  with_mac-Written aead none mac_len keys seq type iv plaintext h suits = absurd suits
  with_mac-Written aead (some mac) mac_len keys seq type iv plaintext h (hashed, short, block) =
      cbc-Written mac mac_len hashed keys.key keys.mac iv seq type plaintext h short block

  fields-Written :
      (aead mac : Option Text) (mac_len : ℕ) (keys : Keys) (seq type : ℕ) (iv plaintext : Bytes)
      → length plaintext ≤ 2 ^ 14
      → Suits aead mac mac_len iv
      → let cipher : Cipher = record { aead = aead; mac = mac; mac_len = mac_len } in
        Written type
          (encrypt_record c cipher keys seq type iv plaintext)
          (decrypt_record c cipher keys seq type)
          plaintext
  unfolding encrypt_record decrypt_record
  fields-Written none mac mac_len keys seq type iv plaintext h suits =
      with_mac-Written none mac mac_len keys seq type iv plaintext h suits
  fields-Written (some aead) mac mac_len keys seq type iv plaintext h suits =
      elim (Bool-cases (is_gcm aead)) [
        | inl gcm ↦
            rw (encrypt_record, decrypt_record, gcm)
              (gcm-Written aead keys.key keys.iv seq type plaintext h)
        | inr other ↦ elim (Bool-cases (text_eq aead chacha)) [
          | inl poly ↦
              rw (encrypt_record, decrypt_record, other, poly)
                (chacha-Written keys.key keys.iv seq type plaintext h)
          | inr third ↦ elim suits [
            | inl gcm ↦ cc
            | inr (inl poly) ↦ cc
            | inr (inr tagged) ↦
                rw (encrypt_record, decrypt_record, other, third)
                  (with_mac-Written (some aead) mac mac_len keys seq type iv plaintext h tagged)
          ]
        ]
      ]

  -- With a cipher of one of the three kinds, a plaintext of a fragment is written as a record whose
  -- header has the type, the version and the length of the payload, and the receiver that has the
  -- same keys and the same sequence number reads the plaintext from the payload.
  pub encrypt_record-Written :
      (cipher : Cipher) (keys : Keys) (seq type : ℕ) (iv plaintext : Bytes)
      → length plaintext ≤ 2 ^ 14
      → Suits cipher.aead cipher.mac cipher.mac_len iv
      → Written type
          (encrypt_record c cipher keys seq type iv plaintext)
          (decrypt_record c cipher keys seq type)
          plaintext
  encrypt_record-Written cipher keys seq type iv plaintext h suits =
      fields-Written cipher.aead cipher.mac cipher.mac_len keys seq type iv plaintext h suits
