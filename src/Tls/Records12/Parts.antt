-- ===== src/Tls/Records12/Parts.antt =====
-- The parts of the records of lib/tls/tls12_records.js, and what is relied on of node:crypto.
use hellojs.Common.{
  ℕ, zero, suc, ◌+◌, ◌-◌, ◌/◌, ◌%◌, ◌^◌, ◌<◌, ◌≡◌, refl, ap, ◌∙◌, sym, subst, true, false, ◌∷◌,
  ◌++◌, some, Result, ok, le→ltb, ◌==◌, ==_iff, length, take, drop, length-append, get_or-drop,
  take-append_length, drop-append_length, arith,
}
use hellojs.Common.Bytes.{Bytes, byte_at, write_be, length-write_be}
use hellojs.Common.Text.{Text}
use hellojs.Tls.Records12.{
  Error, Crypto, uint16, record_header, seq_buf, aead_aad, framed, repeat, mac_input, all_are,
  strip_padding,
}

-- What is relied on of node:crypto: what was sealed is unsealed, with a ciphertext of the length of
-- the plaintext and a tag of 16 bytes; whole blocks of 16 bytes are decrypted again.
pub record Laws (c : Crypto) : Type 0 where
  pub unseal-seal :
      (alg : Text) (key nonce aad pt : Bytes)
      → c.unseal alg key nonce aad (c.seal alg key nonce aad pt).0 (c.seal alg key nonce aad pt).1
        ≡ some pt
  pub ciphertext_length :
      (alg : Text) (key nonce aad pt : Bytes) → length (c.seal alg key nonce aad pt).0 ≡ length pt
  pub tag_length :
      (alg : Text) (key nonce aad pt : Bytes) → length (c.seal alg key nonce aad pt).1 ≡ 16
  pub cbc_decrypt-encrypt :
      (alg : Text) (key iv blocks : Bytes)
      → length blocks % 16 ≡ 0
      → c.cbc_decrypt alg key iv (c.cbc_encrypt alg key iv blocks) ≡ some blocks
  pub cbc_encrypt_length :
      (alg : Text) (key iv blocks : Bytes)
      → length blocks % 16 ≡ 0
      → length (c.cbc_encrypt alg key iv blocks) ≡ length blocks

-- The record's header and a payload that is decrypted again.
abbrev pub Written : ℕ → Result Error Bytes → (Bytes → Result Error Bytes) → Bytes → Type 0
Written type record_ decrypt plaintext =
    (payload : Bytes) × (record_
      ≡ ok (type % 256 ∷ 0x03 ∷ 0x03 ∷ (write_be 2 (length payload) ++ payload)))
    × (decrypt payload ≡ ok plaintext)

pub uint16_ok : (n : ℕ) → n < 2 ^ 16 → uint16 n ≡ ok (write_be 2 n)
uint16_ok n h = ground arith

pub aad_of : (seq type n : ℕ) → n < 2 ^ 16 → (aad : Bytes) × (aead_aad seq type n ≡ ok aad)
unfolding aead_aad
aad_of seq type n h =
    (seq_buf seq ++ (type % 256 ∷ 0x03 ∷ 0x03 ∷ write_be 2 n), rw (aead_aad, uint16_ok n h) refl)

pub framed_ok :
    (type : ℕ) (fragment : Bytes)
    → length fragment < 2 ^ 16
    → framed type fragment
      ≡ ok (type % 256 ∷ 0x03 ∷ 0x03 ∷ (write_be 2 (length fragment) ++ fragment))
unfolding framed record_header
framed_ok type fragment h = rw (framed, record_header, uint16_ok (length fragment) h) refl

pub seq_buf_length : (seq : ℕ) → length (seq_buf seq) ≡ 8
unfolding seq_buf
seq_buf_length seq =
    length-append (write_be 4 (seq / 0x100000000)) (write_be 4 (seq % 2 ^ 32))
    ∙ rw (length-write_be 4 (seq / 0x100000000), length-write_be 4 (seq % 2 ^ 32)) refl

pub take-front : (n : ℕ) (xs ys : Bytes) → length xs ≡ n → take n (xs ++ ys) ≡ xs
take-front n xs ys e = subst (λ m. take m (xs ++ ys) ≡ xs) e (take-append_length xs ys)

pub drop-front : (n : ℕ) (xs ys : Bytes) → length xs ≡ n → drop n (xs ++ ys) ≡ ys
drop-front n xs ys e = subst (λ m. drop m (xs ++ ys) ≡ ys) e (drop-append_length xs ys)

pub length-repeat : (n b : ℕ) → length (repeat n b) ≡ n
length-repeat zero b = refl
length-repeat (suc n) b = ap suc (length-repeat n b)

last_of_repeat : (n b : ℕ) → byte_at (repeat (suc n) b) n ≡ b
last_of_repeat zero b = refl
last_of_repeat (suc n) b = last_of_repeat n b

all_are-repeat : (n b : ℕ) → all_are b (repeat n b) ≡ true
all_are-repeat zero b = refl
all_are-repeat (suc n) b = ground (arith, ==_iff b b, all_are-repeat n b)

pub strip_padding-padded :
    (xs : Bytes) (pad : ℕ) → strip_padding (xs ++ repeat (pad + 1) pad) ≡ ok xs
unfolding strip_padding
strip_padding-padded xs pad =
    let r = repeat (pad + 1) pad in
    let size = length-append xs r in
    let more = length-repeat (pad + 1) pad in
    let n = length (xs ++ r) in
    let at_end : n - 1 ≡ length xs + pad = omega arith in
    let one_more : pad + 1 ≡ suc pad = omega arith in
    let last : byte_at (xs ++ r) (n - 1) ≡ pad =
      ap (byte_at (xs ++ r)) at_end
      ∙ sym (get_or-drop (length xs) pad (xs ++ r) 0)
      ∙ ap (λ b. byte_at b pad) (drop-append_length xs r)
      ∙ ap (λ k. byte_at (repeat k pad) pad) one_more
      ∙ last_of_repeat pad pad in
    let some_bytes : (n == 0) ≡ false = ground arith in
    let fits = le→ltb n (pad + 1) (omega arith) in
    rw
      (
        last,
        some_bytes,
        fits,
        drop-front (n - 1 - pad) xs r (omega arith),
        all_are-repeat (pad + 1) pad,
        take-front (n - pad - 1) xs r (omega arith),
      )
      refl

pub mac_of :
    (seq type : ℕ) (content : Bytes)
    → length content < 2 ^ 16
    → (input : Bytes) × (mac_input seq type content ≡ ok input)
unfolding mac_input
mac_of seq type content h = (
  seq_buf seq ++ (type % 256 ∷ 0x03 ∷ 0x03 ∷ write_be 2 (length content)) ++ content,
  rw (mac_input, uint16_ok (length content) h) refl,
)
