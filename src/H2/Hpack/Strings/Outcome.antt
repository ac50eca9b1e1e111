-- ===== src/H2/Hpack/Strings/Outcome.antt =====
-- What a step of the decoder may end in: a value with a property, or an error of the source.
use hellojs.Common.{ok, err, ◌>>=◌, Result, Bool-cases, inl, inr, take, drop, not, ◌==◌}
use Prim.Native.Nat.{bit_and}
use hellojs.Common.Bytes.{Bytes, byte_at}
use hellojs.Common.Text.{Strings}
use hellojs.H3.Huffman as Huffman
use hellojs.H2.Hpack.Integers.{decode_int}
use hellojs.H2.Hpack.Strings.{
  Error, huffman, header_list_too_large, stuck, decode_string, from_huffman,
}

abbrev pub Post {ℓ} : {A : Type ℓ} → (A → Type 0) → Result Error A → Type 0
Post P (ok a) = P a
Post P (err stuck) = ⊥
Post P (err e) = Unit {0}

pub Post-bind {ℓ κ} :
    {A : Type ℓ} {B : Type κ} (P : A → Type 0) (Q : B → Type 0) (m : Result Error A)
    (f : A → Result Error B)
    → Post P m
    → ((a : A) → P a → Post Q (f a))
    → Post Q (m >>= f)
Post-bind P Q (ok a) f p step = step a p
Post-bind P Q (err stuck) f p step = p
Post-bind P Q (err header_list_too_large) f p step = tt
Post-bind P Q (err (huffman e)) f p step = tt

pub Post-weaken {ℓ} :
    {A : Type ℓ} (P Q : A → Type 0) (m : Result Error A)
    → Post P m
    → ((a : A) → P a → Q a)
    → Post Q m
Post-weaken P Q (ok a) p step = step a p
Post-weaken P Q (err stuck) p step = p
Post-weaken P Q (err header_list_too_large) p step = tt
Post-weaken P Q (err (huffman e)) p step = tt

from_huffman-Post {ℓ} :
    {A : Type ℓ} (r : Result Huffman.Error A) → Post (λ _. Unit {0}) (from_huffman r)
unfolding from_huffman
from_huffman-Post (ok a) = tt
from_huffman-Post (err e) = tt

pub decode_string-Post : (u : Strings) (buf : Bytes) → Post (λ _. Unit {0}) (decode_string u buf)
unfolding decode_string
decode_string-Post u buf =
    let (len, n) = decode_int buf 7 in
    let raw = take len (drop n buf) in
    elim (Bool-cases (not (bit_and (byte_at buf 0) 0x80 == 0))) [
      | inl coded ↦ rw coded (
          Post-bind (λ _. Unit {0}) _ (from_huffman (Huffman.decode raw)) _
            (from_huffman-Post (Huffman.decode raw)) λ _ _. tt)
      | inr plain ↦ rw plain tt
    ]
