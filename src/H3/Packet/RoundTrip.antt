-- ===== src/H3/Packet/RoundTrip.antt =====
-- `decodeFrames` reads back the frames that the encoders wrote, in order.
use hellojs.Common.{
  ℕ, zero, suc, ◌≤◌, ◌≡◌, refl, ap, ◌∙◌, sym, false, List, [], ◌∷◌, map, ok, >>=-eq-ok, ok_inj,
  subst, ◌==◌, length, arith, All,
}
use hellojs.Common.Bytes.{Bytes}
use hellojs.Common.Text.{Strings}
use hellojs.H3.Packet.Ends.{Post, Left, decode_frame-Left}
use hellojs.H3.Packet.Frames.{Frame, decode_frame, decode_rounds, decode_frames}
use hellojs.H3.Packet.Sendable.{Sendable, encode_one, encode_all, received, IsShort}
use hellojs.H3.Packet.Written.{encode_one-ReadsBack}

module _ (u : Strings) where
  decode_rounds-nil : (fuel : ℕ) → decode_rounds u fuel [] ≡ ok []
  unfolding decode_rounds
  decode_rounds-nil zero = refl
  decode_rounds-nil (suc fuel) = refl

  decode_rounds-cons :
      (fuel t : ℕ) (bs rest : Bytes) (r : Frame) (fs : List Frame)
      → suc (length bs) ≤ fuel
      → (t == 0x00) ≡ false
      → decode_frame u t bs ≡ ok (r, rest)
      → ((k : ℕ) → length rest ≤ k → decode_rounds u k rest ≡ ok fs)
      → decode_rounds u fuel (t ∷ bs) ≡ ok (r ∷ fs)
  unfolding decode_rounds
  decode_rounds-cons zero t bs rest r fs h z e more = absurd (omega arith)
  decode_rounds-cons (suc fuel) t bs rest r fs h z e more =
      let left : length rest ≤ length bs =
        subst (Post (Left (length bs))) e (decode_frame-Left u t bs (length bs) (omega arith)) in
      rw (z, e) (rw (more fuel (omega arith)) refl)

  decode_rounds-encode_all :
      (fs : List Sendable) (bytes : Bytes) (fuel : ℕ)
      → All IsShort fs
      → encode_all fs ≡ ok bytes
      → length bytes ≤ fuel
      → decode_rounds u fuel bytes ≡ ok (map received fs)
  unfolding decode_rounds
  decode_rounds-encode_all [] bytes fuel h e k =
      subst (λ z. decode_rounds u fuel z ≡ ok []) (ok_inj e) (decode_rounds-nil fuel)
  decode_rounds-encode_all (f ∷ fs) bytes fuel (short, h) e k =
      let (w, ew, e₁) = >>=-eq-ok (encode_one f) _ e in
      let (ws, ews, e₂) = >>=-eq-ok (encode_all fs) _ e₁ in
      let (t, bs, split, some_type, back) = encode_one-ReadsBack u f w ws short ew in
      let whole = sym (ok_inj e₂) ∙ split in
      let size = ap length whole in
      subst (λ z. decode_rounds u fuel z ≡ ok (map received (f ∷ fs))) (sym whole)
        (decode_rounds-cons fuel t bs ws (received f) (map received fs) (omega arith) some_type back
          (λ n m. decode_rounds-encode_all fs ws n h ews m))

  -- A payload of frames that the encoders wrote, one behind the other, is read back as the same
  -- frames in the same order, their numbers as Numbers up to 2^53 - 1 and as BigInts above, if the
  -- data of each are shorter than 2^53 bytes.
  pub decode_frames-encode_all :
      (fs : List Sendable) (bytes : Bytes)
      → All IsShort fs
      → encode_all fs ≡ ok bytes
      → decode_frames u bytes ≡ ok (map received fs)
  unfolding decode_frames
  decode_frames-encode_all fs bytes h e =
      decode_rounds-encode_all fs bytes (length bytes) h e (omega arith)
