-- ===== src/H3/Client/Chunks.antt =====
-- The frames of a response do not depend on how its bytes are cut into chunks.
use hellojs.Common.{
  ℕ, zero, suc, ◌+◌, ◌<◌, ◌≡◌, refl, ap, ◌∙◌, sym, subst, [], ◌++◌, append_assoc, append-nil,
  Option, none, some, Result, ok, err, length, length-append, arith, Bool-cases, Option-cases,
  Result-cases, inl, inr,
}
use hellojs.Common.Bytes.{Bytes}
use hellojs.Common.Text.{Strings}
use hellojs.H3.Varint.{Value}
use hellojs.H3.Qpack.Table.{DynamicTable}
use hellojs.H3.Client.{
  Error, Read, read_frame, State, is_type, frame_headers, frame_data, decode_field_section,
  take_frame, frames_from, on_data,
}
use hellojs.H3.Client.Frames.{Extends, read_frame-Extends}

module _ (u : Strings) (table : DynamicTable) (max_entries rounds : ℕ) where
  -- A state with bytes put behind those that wait.
  abbrev pub with_bytes : Bytes → State → State
  with_bytes c s = record s { frame_buf = s.frame_buf ++ c }

  -- What a state is that has got `c` in the same chunk: as if `c` had come later, while no error has
  -- been met, and else the response and the error as they were.
  abbrev pub AfterMore : State → Option Error → Bytes → State → Type 0
  AfterMore s none c s' = s' ≡ on_data u table max_entries rounds s c
  AfterMore s (some e) c s' =
      (s'.stopped ≡ some e) × (s'.headers ≡ s.headers) × (s'.chunks ≡ s.chunks)

  take_frame_more :
      (type : Value) (payload rest c : Bytes) (s : State)
      → take_frame u table max_entries rounds type payload (rest ++ c) (with_bytes c s)
        ≡ with_bytes c (take_frame u table max_entries rounds type payload rest s)
  unfolding take_frame
  take_frame_more type payload rest c s = elim (Bool-cases (is_type frame_headers type)) [
    | inl head ↦ elim (Result-cases (decode_field_section u table max_entries rounds payload)) [
      | inl (decoded, e) ↦ rw (take_frame, head, e) refl
      | inr (x, e) ↦ rw (take_frame, head, e) refl
    ]
    | inr other ↦ elim (Bool-cases (is_type frame_data type)) [
      | inl body ↦ rw (take_frame, other, body) refl
      | inr skip ↦ rw (take_frame, other, skip) refl
    ]
  ]

  take_frame-buf :
      (type : Value) (payload rest : Bytes) (s : State)
      → (take_frame u table max_entries rounds type payload rest s).frame_buf ≡ rest
  unfolding take_frame
  take_frame-buf type payload rest s = elim (Bool-cases (is_type frame_headers type)) [
    | inl head ↦ elim (Result-cases (decode_field_section u table max_entries rounds payload)) [
      | inl (decoded, e) ↦ rw (take_frame, head, e) refl
      | inr (x, e) ↦ rw (take_frame, head, e) refl
    ]
    | inr other ↦ elim (Bool-cases (is_type frame_data type)) [
      | inl body ↦ rw (take_frame, other, body) refl
      | inr skip ↦ rw (take_frame, other, skip) refl
    ]
  ]

  pub on_data_open :
      (s : State) (c : Bytes)
      → s.stopped ≡ none
      → on_data u table max_entries rounds s c
        ≡ frames_from u table max_entries rounds (suc (length (s.frame_buf ++ c))) (with_bytes c s)
  unfolding on_data
  on_data_open s c open_ =
      let run =
        frames_from u table max_entries rounds (suc (length (s.frame_buf ++ c))) (with_bytes c s) in
      subst (λ o. (elim o as (λ x. State) [ some e ↦ s | none ↦ run ]) ≡ run) (sym open_) refl

  fuel_round :
      (n m : ℕ) (s : State) (r : Result Error Read)
      → read_frame s.frame_buf ≡ r
      → Extends (length s.frame_buf) [] r r
      → ((type : Value) (payload rest : Bytes)
          → length rest < length s.frame_buf
          → let s' = take_frame u table max_entries rounds type payload rest s in
            frames_from u table max_entries rounds n s'
            ≡ frames_from u table max_entries rounds m s')
      → frames_from u table max_entries rounds (suc n) s
        ≡ frames_from u table max_entries rounds (suc m) s
  unfolding frames_from
  fuel_round n m s (err x) e ext again = rw (frames_from, e) refl
  fuel_round n m s (ok none) e ext again = rw (frames_from, e) refl
  fuel_round n m s (ok (some (type, payload, rest))) e ext again =
      let s' = take_frame u table max_entries rounds type payload rest s in
      elim (Option-cases s'.stopped) [
        | inl fine ↦ rw (frames_from, e, fine) (again type payload rest ext.1)
        | inr (x, bad) ↦ rw (frames_from, e, bad) refl
      ]

  -- Any number of rounds above the number of bytes gives the same.
  pub frames_from_fuel :
      (n m : ℕ) (s : State)
      → length s.frame_buf < n
      → length s.frame_buf < m
      → frames_from u table max_entries rounds n s ≡ frames_from u table max_entries rounds m s
  frames_from_fuel zero m s h h' = absurd (omega arith)
  frames_from_fuel (suc n) zero s h h' = absurd (omega arith)
  frames_from_fuel (suc n) (suc m) s h h' =
      let ext = read_frame-Extends s.frame_buf [] in
      fuel_round n m s (read_frame s.frame_buf) refl (rw (append-nil s.frame_buf) at ext)
        λ type payload rest short.
          let buf = ap length (take_frame-buf type payload rest s) in
          frames_from_fuel n m (take_frame u table max_entries rounds type payload rest s)
            (omega arith) (omega arith)

  abbrev FramesMore : ℕ → ℕ → State → Bytes → Type 0
  FramesMore n m s c =
      let s' = frames_from u table max_entries rounds n s in
      AfterMore s' s'.stopped c (frames_from u table max_entries rounds m (with_bytes c s))

  pub step_open :
      (n : ℕ) (s : State) (type : Value) (payload rest : Bytes)
      → read_frame s.frame_buf ≡ ok (some (type, payload, rest))
      → (take_frame u table max_entries rounds type payload rest s).stopped ≡ none
      → frames_from u table max_entries rounds (suc n) s
        ≡ frames_from u table max_entries rounds n
            (take_frame u table max_entries rounds type payload rest s)
  unfolding frames_from take_frame
  step_open n s type payload rest e fine = rw (frames_from, e, fine) refl

  step_bad :
      (n : ℕ) (s : State) (type : Value) (payload rest : Bytes) (x : Error)
      → read_frame s.frame_buf ≡ ok (some (type, payload, rest))
      → (take_frame u table max_entries rounds type payload rest s).stopped ≡ some x
      → frames_from u table max_entries rounds (suc n) s
        ≡ take_frame u table max_entries rounds type payload rest s
  unfolding frames_from take_frame
  step_bad n s type payload rest x e bad = rw (frames_from, e, bad) refl

  found_round :
      (n m : ℕ) (s : State) (c : Bytes) (type : Value) (payload rest : Bytes)
      → read_frame s.frame_buf ≡ ok (some (type, payload, rest))
      → read_frame (s.frame_buf ++ c) ≡ ok (some (type, payload, rest ++ c))
      → (let s' = take_frame u table max_entries rounds type payload rest s in
          s'.stopped ≡ none → FramesMore n m s' c)
      → FramesMore (suc n) (suc m) s c
  found_round n m s c type payload rest e e' again =
      let s' = take_frame u table max_entries rounds type payload rest s in
      let moved = take_frame_more type payload rest c s in
      elim (Option-cases s'.stopped) [
        | inl fine ↦
            let left = step_open n s type payload rest e fine in
            let right =
              step_open m (with_bytes c s) type payload (rest ++ c) e'
                (ap (λ (t : State). t.stopped) moved ∙ fine)
              ∙ ap (frames_from u table max_entries rounds m) moved in
            rw (left, right) (again fine)
        | inr (x, bad) ↦
            let left = step_bad n s type payload rest x e bad in
            let right =
              step_bad m (with_bytes c s) type payload (rest ++ c) x e'
                (ap (λ (t : State). t.stopped) moved ∙ bad)
              ∙ moved in
            rw (left, right)
              (subst (λ o. AfterMore s' o c (with_bytes c s')) (sym bad) (bad, refl, refl))
      ]

  more_round :
      (n m : ℕ) (s : State) (c : Bytes) (r r' : Result Error Read)
      → s.stopped ≡ none
      → read_frame s.frame_buf ≡ r
      → read_frame (s.frame_buf ++ c) ≡ r'
      → Extends (length s.frame_buf) c r r'
      → length (s.frame_buf ++ c) < suc m
      → ((type : Value) (payload rest : Bytes)
          → length rest < length s.frame_buf
          → let s' = take_frame u table max_entries rounds type payload rest s in
            s'.stopped ≡ none → FramesMore n m s' c)
      → FramesMore (suc n) (suc m) s c
  unfolding frames_from
  more_round n m s c (err x) r' open_ e e' ext room again =
      rw (frames_from, e, e', ext) (refl, refl, refl)
  more_round n m s c (ok none) r' open_ e e' ext room again =
      let run = frames_from u table max_entries rounds (suc m) (with_bytes c s) in
      let same =
        frames_from_fuel (suc m) (suc (length (s.frame_buf ++ c))) (with_bytes c s) room
          (omega arith) in
      rw (frames_from, e)
        (subst (λ o. AfterMore s o c run) (sym open_) (same ∙ sym (on_data_open s c open_)))
  more_round n m s c (ok (some (type, payload, rest))) r' open_ e e' (ext, short) room again =
      found_round n m s c type payload rest e (e' ∙ ext) (again type payload rest short)

  frames_from-FramesMore :
      (n m : ℕ) (s : State) (c : Bytes)
      → s.stopped ≡ none
      → length s.frame_buf < n
      → length (s.frame_buf ++ c) < m
      → FramesMore n m s c
  frames_from-FramesMore zero m s c open_ h h' = absurd (omega arith)
  frames_from-FramesMore (suc n) zero s c open_ h h' = absurd (omega arith)
  frames_from-FramesMore (suc n) (suc m) s c open_ h h' =
      more_round n m s c (read_frame s.frame_buf) (read_frame (s.frame_buf ++ c)) open_ refl refl
        (read_frame-Extends s.frame_buf c) h'
        λ type payload rest short fine.
          let s' = take_frame u table max_entries rounds type payload rest s in
          let buf = take_frame-buf type payload rest s in
          let size = ap length buf in
          let size' : length (s'.frame_buf ++ c) ≡ length rest + length c =
            length-append s'.frame_buf c ∙ ap (λ k. k + length c) size in
          let whole = length-append s.frame_buf c in
          frames_from-FramesMore n m s' c fine (omega arith) (omega arith)

  -- While no error has been met, two chunks of a response in one are what they are one after the
  -- other: the same state if the first meets no error, and else the same error, with the headers and
  -- the body that had come before it. That is so for any number of rounds that the QPACK decoders are
  -- followed for: one that has not returned in the first chunk then has not in the whole either.
  pub on_data-FramesMore :
      (s : State) (c c' : Bytes)
      → s.stopped ≡ none
      → let s' = on_data u table max_entries rounds s c in
        AfterMore s' s'.stopped c' (on_data u table max_entries rounds s (c ++ c'))
  on_data-FramesMore s c c' open_ =
      rw (on_data_open s c open_, on_data_open s (c ++ c') open_, ← append_assoc s.frame_buf c c')
        (frames_from-FramesMore (suc (length (s.frame_buf ++ c)))
          (suc (length ((s.frame_buf ++ c) ++ c'))) (with_bytes c s) c' open_ (omega arith)
          (omega arith))
