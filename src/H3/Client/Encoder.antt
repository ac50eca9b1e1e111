-- ===== src/H3/Client/Encoder.antt =====
-- `_onServerUniStream` and `_drainPeerEncoder` of lib/h3/h3.js: the encoder stream of the server.
use hellojs.Common.{
  ℕ, suc, ◌≡◌, refl, ◌∙◌, subst, List, [], ◌∷◌, ◌++◌, append-nil, Option, none, some, ok, err,
  if◌then◌else◌, length, take, drop, take-drop, length-append, drop-append_length, All, arith,
}
use hellojs.Common.Bytes.{Bytes}
use hellojs.Common.Signed.{ℤ, pos, negsuc}
use hellojs.Common.Text.{Strings}
use hellojs.H3.Varint.{Value, number, Decoded, decode}
use hellojs.H3.Varint.RoundTrip.{decode_1}
use hellojs.H3.Qpack.Table.{DynamicTable}
use hellojs.H3.Qpack.Instructions.{parse_encoder_instructions}
use hellojs.H3.Qpack.Instructions.Written.{
  Instruction, apply, apply_all, written, written_all, InstructionFits,
}
use hellojs.H3.Qpack.Instructions.Stream.{Begun, parse_encoder_instructions-written}
use hellojs.H3.Client.{is_type}

pub record Peer : Type 0 where
  pub encoder_buf : Bytes
  pub table : DynamicTable

-- `if (consumed > 0) ... subarray(consumed)`.
abbrev pub behind : ℤ → Bytes → Bytes
behind (pos n) buf = drop n buf
behind (negsuc n) buf = buf

-- A stream of the server, and what it shares with the other streams.
pub record Uni : Type 0 where
  pub type_buf : Bytes
  pub stream_type : Option Value
  pub peer : Peer

module _ (u : Strings) where
  -- `err` is here the loop that does not end.
  unfoldable pub drain : Peer → Peer
  drain p = elim (parse_encoder_instructions u p.encoder_buf (suc (length p.encoder_buf)) p.table) [
    | ok (consumed, t) ↦ record { encoder_buf = behind consumed p.encoder_buf; table = t }
    | err e ↦ p
  ]

  unfoldable pub feed : Value → Bytes → Peer → Peer
  feed type chunk p =
      let p' = drain (record p { encoder_buf = p.encoder_buf ++ chunk }) in
      if is_type 0x02 type then p' else p

  unfoldable pub on_uni_data : Uni → Bytes → Uni
  on_uni_data s chunk = elim s.stream_type [
    | some type ↦ record s { peer = feed type chunk s.peer }
    | none ↦ elim (decode (s.type_buf ++ chunk) 0) [
      | err e ↦ record s { type_buf = s.type_buf ++ chunk }
      | ok v ↦ record {
        type_buf = s.type_buf ++ chunk;
        stream_type = some v.value;
        peer = feed v.value (drop v.length (s.type_buf ++ chunk)) s.peer;
      }
    ]
  ]

  -- What is drained of instructions with the first bytes of an insertion behind them.
  drain-written :
      (is : List Instruction) (last : Instruction) (k : ℕ) (t : DynamicTable)
      → All (InstructionFits u) is
      → Begun u last k
      → drain (record { encoder_buf = written_all u is ++ take k (written u last); table = t })
        ≡ record { encoder_buf = take k (written u last); table = apply_all is t }
  unfolding drain
  drain-written is last k t all begun =
      let rest = take k (written u last) in
      let size = length-append (written_all u is) rest in
      rw
        (
          drain,
          parse_encoder_instructions-written u is last k (suc (length (written_all u is ++ rest))) t
              all begun (omega arith),
          drop-append_length (written_all u is) rest,
        )
        refl

  open_type :
      (p : Peer) (chunk : Bytes) (v : Decoded)
      → decode chunk 0 ≡ ok v
      → on_uni_data (record { type_buf = []; stream_type = none; peer = p }) chunk ≡ record {
        type_buf = chunk;
        stream_type = some v.value;
        peer = feed v.value (drop v.length chunk) p;
      }
  unfolding on_uni_data
  open_type p chunk v e = rw (on_uni_data, e) refl

  on_uni_data-peer :
      (buf chunk : Bytes) (type : Value) (p : Peer)
      → (on_uni_data (record { type_buf = buf; stream_type = some type; peer = p }) chunk).peer
        ≡ feed type chunk p
  unfolding on_uni_data
  on_uni_data-peer buf chunk type p = refl

  feed-encoder :
      (buf chunk : Bytes) (t : DynamicTable)
      → feed (number 2) chunk (record { encoder_buf = buf; table = t })
        ≡ drain (record { encoder_buf = buf ++ chunk; table = t })
  unfolding feed
  feed-encoder buf chunk t = refl

  drain-last :
      (last : Instruction) (t : DynamicTable)
      → InstructionFits u last
      → drain (record { encoder_buf = written u last; table = t })
        ≡ record { encoder_buf = []; table = apply t last }
  drain-last last t fits =
      let whole : written_all u (last ∷ []) ++ take 0 (written u last) ≡ written u last =
        append-nil (written u last ++ []) ∙ append-nil (written u last) in
      let d = drain-written (last ∷ []) last 0 t (fits, tt) tt in
      subst
        (λ b.
          drain (record { encoder_buf = b; table = t })
          ≡ record { encoder_buf = []; table = apply t last })
        whole d

  -- An encoder stream that is cut inside an insertion: when the rest of it has come, the table has
  -- seen every instruction once and in order, and no byte waits.
  pub on_uni_data-written :
      (is : List Instruction) (last : Instruction) (k : ℕ) (t : DynamicTable)
      → All (InstructionFits u) is
      → InstructionFits u last
      → Begun u last k
      → let opened : Uni = record {
        type_buf = [];
        stream_type = none;
        peer = record { encoder_buf = []; table = t };
      } in
        let first = 0x02 ∷ (written_all u is ++ take k (written u last)) in
        (on_uni_data (on_uni_data opened first) (drop k (written u last))).peer
        ≡ record { encoder_buf = []; table = apply (apply_all is t) last }
  on_uni_data-written is last k t all fits begun =
      let q = take k (written u last) in
      let r = drop k (written u last) in
      let head = written_all u is ++ q in
      let p : Peer = record { encoder_buf = []; table = t } in
      let type = decode_1 2 head (omega arith) in
      rw
        (
          open_type p (2 ∷ head) (record { value = number 2; length = 1 }) type,
          feed-encoder [] head t,
          drain-written is last k t all begun,
          on_uni_data-peer (2 ∷ head) r (number 2)
              (record { encoder_buf = q; table = apply_all is t }),
          feed-encoder q r (apply_all is t),
          take-drop k (written u last),
        )
        (drain-last last (apply_all is t) fits)
