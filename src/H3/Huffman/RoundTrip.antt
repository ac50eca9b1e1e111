-- ===== src/H3/Huffman/RoundTrip.antt =====
-- `decode` gives back what `encode` was given. The table's codes are walked once, by evaluation:
-- each leads from the root to its symbol and passes no other.
use hellojs.Common.{
  ℕ, zero, suc, ◌<◌, ◌≡◌, refl, ap, ◌∙◌, Bool, true, false, ◌&&◌, List, [], ◌∷◌, ◌++◌, append_assoc,
  none, some, ok, ◌>>=◌, arith, ◌==◌, if◌then◌else◌, All,
}
use hellojs.Common.Bytes.{Bytes, IsByte}
use hellojs.Common.Bits.{all_below, all_below_sound}
use hellojs.H3.Huffman.{
  Node, table, bits_of, build_tree, child, symbol, is_absent, walk, decode, encode,
}
use hellojs.H3.Huffman.Encoder.{ones, code_bits, codes_bits, encode-bits}

-- The bits lead from a node to `sym`, through nodes that hold no symbol.
leads_to : ℕ → Node → List ℕ → Bool
leads_to sym here [] = false
leads_to sym here (bit ∷ bits) =
    let next = child bit here in
    let on = leads_to sym next bits in
    if is_absent next then false else elim (symbol next) [
      | none ↦ on
      | some s ↦ s == sym && elim bits [ [] ↦ true | _ ∷ _ ↦ false ]
    ]

walk-leads_to :
    (root here : Node) (sym : ℕ) (bits rest : List ℕ)
    → leads_to sym here bits ≡ true
    → walk root here (bits ++ rest) ≡ (walk root root rest >>= λ out. ok (sym ∷ out))
unfolding leads_to walk
walk-leads_to root here sym [] rest h = cc
walk-leads_to root here sym (bit ∷ []) rest h = ground arith
walk-leads_to root here sym (bit ∷ b ∷ bits) rest h =
    ground (arith, walk-leads_to root (child bit here) sym (b ∷ bits) rest)

code_leads : ℕ → Bool
code_leads b = leads_to b build_tree (code_bits b)

codes_lead : all_below 256 code_leads ≡ true
unfolding all_below code_leads leads_to build_tree code_bits bits_of table
codes_lead = refl

walk-ones : (k : ℕ) → k < 8 → walk build_tree build_tree (ones k) ≡ ok []
unfolding walk build_tree
walk-ones zero h = refl
walk-ones (suc zero) h = refl
walk-ones (suc (suc zero)) h = refl
walk-ones (suc (suc (suc zero))) h = refl
walk-ones (suc (suc (suc (suc zero)))) h = refl
walk-ones (suc (suc (suc (suc (suc zero))))) h = refl
walk-ones (suc (suc (suc (suc (suc (suc zero)))))) h = refl
walk-ones (suc (suc (suc (suc (suc (suc (suc zero))))))) h = refl
walk-ones (suc (suc (suc (suc (suc (suc (suc (suc k)))))))) h = absurd (omega arith)

walk-codes :
    (bytes : Bytes) (k : ℕ)
    → All IsByte bytes
    → k < 8
    → walk build_tree build_tree (codes_bits bytes ++ ones k) ≡ ok bytes
unfolding codes_bits code_leads
walk-codes [] k all h = walk-ones k h
walk-codes (b ∷ bytes) k all h =
    let lead : code_leads b ≡ true = all_below_sound 256 code_leads codes_lead b all.0 in
    let rest = codes_bits bytes ++ ones k in
    rw (append_assoc (code_bits b) (codes_bits bytes) (ones k)) (
      walk-leads_to build_tree build_tree b (code_bits b) rest lead
      ∙ ap (λ r. r >>= λ out. ok (b ∷ out)) (walk-codes bytes k all.1 h))

-- Every byte string comes back from its Huffman encoding.
pub decode-encode_bytes : (bytes : Bytes) → All IsByte bytes → decode (encode bytes) ≡ ok bytes
unfolding decode
decode-encode_bytes bytes all =
    let (k, h, e) = encode-bits bytes all in
    ap (walk build_tree build_tree) e ∙ walk-codes bytes k all h
