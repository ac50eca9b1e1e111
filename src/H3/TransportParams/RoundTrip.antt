-- ===== src/H3/TransportParams/RoundTrip.antt =====
-- `decode` reads the parameters that the builders wrote, in order.
use hellojs.Common.{
  ℕ, zero, suc, ◌^◌, ◌≤◌, ◌<◌, ◌≡◌, refl, ap, ◌∙◌, sym, subst, List, [], ◌∷◌, ◌++◌, append_assoc,
  map, Result, ok, err, ◌>>=◌, >>=-eq-ok, ok_inj, length, length-append, arith, All,
}
use hellojs.Common.Bytes.{Bytes}
use hellojs.H3.Varint.{Value, pos, narrow, encode}
use hellojs.H3.Varint.RoundTrip as VarintRoundTrip
use hellojs.H3.Varint.Bounds.{decode_bounds}
use hellojs.H3.Packet.Frames.{Error, from_varint, field, span}
use hellojs.H3.Packet.Written.{from_varint-eq-ok, field-encode, span-encode}
use hellojs.H3.TransportParams.{
  Param, tp_opaque, concat_all, read_value, set_param, decode_params, decode,
}

-- A parameter is a length and that many bytes, whatever they are.
abbrev pub write_one : ℕ × Bytes → Result Error Bytes
write_one (id, b) = tp_opaque id b

-- What the parameters come to one after the other.
abbrev pub collect_params :
    List (ℕ × Bytes) → List (Value × Param) → Result Error (List (Value × Param))
collect_params [] out = ok out
collect_params ((id, b) ∷ ps) out =
    read_value (narrow id) b >>= λ (p : Param). collect_params ps (set_param (narrow id) p out)

abbrev pub IsShort : ℕ × Bytes → Type 0
IsShort (id, b) = length b < 2 ^ 53

pub encode_pos : (v : ℕ) (w : Bytes) → from_varint (encode (pos v)) ≡ ok w → 1 ≤ length w
encode_pos v w e =
    (decode_bounds (w ++ []) 0 _
      (VarintRoundTrip.decode-encode v [] w [] (from_varint-eq-ok (encode (pos v)) w e))).0

bind_cong {ℓ κ} :
    {A : Type ℓ} {B : Type κ} (r : Result Error A) (f g : A → Result Error B)
    → ((a : A) → f a ≡ g a)
    → (r >>= f) ≡ (r >>= g)
bind_cong (ok a) f g e = e a
bind_cong (err x) f g e = refl

decode_params-round :
    (fuel : ℕ) (bs r₁ r₂ r₃ val : Bytes) (id len : Value) (out : List (Value × Param))
    → 1 ≤ length bs
    → field bs ≡ ok (id, r₁)
    → field r₁ ≡ ok (len, r₂)
    → span len r₂ ≡ ok (val, r₃)
    → decode_params (suc fuel) bs out
      ≡ (read_value id val >>= λ (p : Param). decode_params fuel r₃ (set_param id p out))
unfolding decode_params
decode_params-round fuel [] r₁ r₂ r₃ val id len out h e₁ e₂ e₃ = absurd (omega arith)
decode_params-round fuel (b ∷ bs) r₁ r₂ r₃ val id len out h e₁ e₂ e₃ = rw e₁ (rw e₂ (rw e₃ refl))

decode_params-nil : (fuel : ℕ) (out : List (Value × Param)) → decode_params fuel [] out ≡ ok out
unfolding decode_params
decode_params-nil zero out = refl
decode_params-nil (suc fuel) out = refl

decode_params-one :
    (fuel id : ℕ) (b i len ws : Bytes) (ps : List (ℕ × Bytes)) (out : List (Value × Param))
    → length b < 2 ^ 53
    → from_varint (encode (pos id)) ≡ ok i
    → from_varint (encode (pos (length b))) ≡ ok len
    → suc (length ws) ≤ fuel
    → ((k : ℕ) (acc : List (Value × Param))
        → length ws ≤ k
        → decode_params k ws acc ≡ collect_params ps acc)
    → decode_params fuel (i ++ (len ++ (b ++ ws))) out ≡ collect_params ((id, b) ∷ ps) out
decode_params-one zero id b i len ws ps out short ei el h more = absurd (omega arith)
decode_params-one (suc fuel) id b i len ws ps out short ei el h more =
    let size = length-append i (len ++ (b ++ ws)) in
    let some_byte = encode_pos id i ei in
    decode_params-round fuel (i ++ (len ++ (b ++ ws))) (len ++ (b ++ ws)) (b ++ ws) ws b (narrow id)
      (narrow (length b)) out (omega arith) (field-encode id i (len ++ (b ++ ws)) ei)
      (field-encode (length b) len (b ++ ws) el) (span-encode b ws short)
    ∙ bind_cong (read_value (narrow id) b) _ _
        (λ p. more fuel (set_param (narrow id) p out) (omega arith))

decode_params-concat_all :
    (ps : List (ℕ × Bytes)) (bytes : Bytes) (fuel : ℕ) (out : List (Value × Param))
    → All IsShort ps
    → concat_all (map write_one ps) ≡ ok bytes
    → length bytes ≤ fuel
    → decode_params fuel bytes out ≡ collect_params ps out
unfolding concat_all tp_opaque
decode_params-concat_all [] bytes fuel out h e k =
    subst (λ z. decode_params fuel z out ≡ ok out) (ok_inj e) (decode_params-nil fuel out)
decode_params-concat_all ((id, b) ∷ ps) bytes fuel out (short, h) e k =
    let (w, ew, e₁) = >>=-eq-ok (tp_opaque id b) _ e in
    let (ws, ews, e₂) = >>=-eq-ok (concat_all (map write_one ps)) _ e₁ in
    let (i, ei, e₃) = >>=-eq-ok (from_varint (encode (pos id))) _ ew in
    let (len, el, e₄) = >>=-eq-ok (from_varint (encode (pos (length b)))) _ e₃ in
    let front : (i ++ (len ++ b)) ++ ws ≡ bytes = ap (λ z. z ++ ws) (ok_inj e₄) ∙ ok_inj e₂ in
    let regroup : (i ++ (len ++ b)) ++ ws ≡ i ++ (len ++ (b ++ ws)) = simp append_assoc in
    let whole = sym front ∙ regroup in
    let some_byte = encode_pos id i ei in
    let size = ap length (sym front) in
    let all = length-append (i ++ (len ++ b)) ws in
    let head = length-append i (len ++ b) in
    subst (λ z. decode_params fuel z out ≡ collect_params ((id, b) ∷ ps) out) (sym whole)
      (decode_params-one fuel id b i len ws ps out short ei el (omega arith)
        (λ n acc m. decode_params-concat_all ps ws n acc h ews m))

-- A block of parameters that `tpOpaque` wrote one behind the other is decoded as each of them is
-- read, in order, an id that comes twice keeping its last value, if each is shorter than 2^53 bytes.
pub decode-concat_all :
    (ps : List (ℕ × Bytes)) (bytes : Bytes)
    → All IsShort ps
    → concat_all (map write_one ps) ≡ ok bytes
    → decode bytes ≡ collect_params ps []
unfolding decode
decode-concat_all ps bytes h e =
    decode_params-concat_all ps bytes (length bytes) [] h e (omega arith)
