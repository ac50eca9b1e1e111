-- ===== src/H2/Frame/Codec.antt =====
-- `parse` takes apart what `build` put together, also when more or less than one frame has come.
use hellojs.Common.{
  ℕ, ◌+◌, ◌%◌, ◌^◌, ◌≤◌, ◌<◌, ◌≡◌, refl, ◌∙◌, subst, ◌∷◌, ◌++◌, append_assoc, Option, none, some,
  ok, err, if◌then◌else◌, ltb, length, take, drop, arith, Option-cases, get_or-append_left,
  drop-append_left, take-append_left, length-append, length-take, length-drop, take-append_length,
  Bool-cases, inl, inr, lt→ltb, le→ltb, dec_lt,
}
use hellojs.Common.Bits.{bit_and_mask}
use hellojs.Common.Bytes.{
  Bytes, byte_at, write_be, read_be, read_be-write_be, length-write_be, read_be_from_total,
  read_be_from-append,
}
use hellojs.H2.Frame.{Frame, out_of_range, low_31, write_uint, read_uint, build, parse}

pub low_31-mod : (x : ℕ) → low_31 x ≡ x % 2 ^ 31
unfolding low_31
low_31-mod x = omega (arith, bit_and_mask 31 (x % 2 ^ 32))

pub low_31_idem : (x : ℕ) → low_31 (low_31 x) ≡ low_31 x
low_31_idem x = omega (arith, low_31-mod x, low_31-mod (low_31 x))

pub write_uint_ok : (n x : ℕ) → x < 256 ^ n → write_uint n x ≡ ok (write_be n x)
unfolding write_uint
write_uint_ok n x h = rw (lt→ltb _ _ h)

pub write_uint-eq-ok :
    (n x : ℕ) (w : Bytes) → write_uint n x ≡ ok w → (x < 256 ^ n) × (w ≡ write_be n x)
unfolding write_uint
write_uint-eq-ok n x w e = ground arith

pub read_uint-write_be :
    (n x : ℕ) (rest : Bytes) → x < 256 ^ n → read_uint n (write_be n x ++ rest) ≡ ok x
unfolding read_uint
read_uint-write_be n x rest h = rw (read_be-write_be n x rest h, read_uint)

pub read_uint_total : (n : ℕ) (buf : Bytes) → n ≤ length buf → (x : ℕ) × (read_uint n buf ≡ ok x)
unfolding read_uint
read_uint_total n buf h = let (x, e) = read_be_from_total n 0 buf h in (x, rw (e, read_uint))

pub build_ok :
    (kind flags sid : ℕ) (payload : Bytes)
    → length payload < 2 ^ 24
    → build kind flags sid payload
      ≡ ok (
          write_be 3 (length payload)
          ++ ((kind % 256) ∷ (flags % 256) ∷ (write_be 4 (low_31 sid) ++ payload)))
unfolding build
build_ok kind flags sid payload h = rw (
  write_uint_ok 3 (length payload) h,
  write_uint_ok 4 (low_31 sid) (omega (arith, low_31-mod sid)),
)

-- `parse` on bytes laid out as a frame.
parse_layout :
    (len kind flags sid : ℕ) (payload rest : Bytes)
    → length payload ≡ len
    → len < 2 ^ 24
    → sid < 2 ^ 32
    → parse (write_be 3 len ++ (kind ∷ flags ∷ (write_be 4 sid ++ (payload ++ rest))))
      ≡ ok (
          some (record {
            length = len;
            kind = kind;
            flags = flags;
            stream_id = low_31 sid;
            payload = payload;
            consumed = 9 + len;
          }))
unfolding parse write_be
parse_layout len kind flags sid payload rest e h hs =
    let size = length-append payload rest in
    let buf = write_be 3 len ++ (kind ∷ flags ∷ (write_be 4 sid ++ (payload ++ rest))) in
    let own : take len (payload ++ rest) ≡ payload = rw (← e) (take-append_length payload rest) in
    rw (
      le→ltb (length buf) 9 (omega arith),
      read_uint-write_be 3 len (drop 3 buf) h,
      le→ltb (length buf) (9 + len) (omega arith),
      read_uint-write_be 4 sid (payload ++ rest) hs,
      own,
    )

-- `build` throws on a payload that 24 bits cannot measure.
pub build_throws :
    (kind flags sid : ℕ) (payload : Bytes)
    → 2 ^ 24 ≤ length payload
    → build kind flags sid payload ≡ err out_of_range
unfolding build write_uint
build_throws kind flags sid payload h = rw (le→ltb _ _ h)

-- A frame that `build` made comes out of `parse` with its fields cut to their widths, whatever has
-- been received behind it, and `consumed` is the number of its bytes.
pub parse-build :
    (kind flags sid : ℕ) (payload rest bytes : Bytes)
    → build kind flags sid payload ≡ ok bytes
    → (parse (bytes ++ rest)
        ≡ ok (
            some (record {
              length = length payload;
              kind = kind % 256;
              flags = flags % 256;
              stream_id = sid % 2 ^ 31;
              payload = payload;
              consumed = 9 + length payload;
            })))
      × (length bytes ≡ 9 + length payload)
parse-build kind flags sid payload rest bytes h = elim (dec_lt (length payload) (2 ^ 24)) [
  | yes small ↦ built small
  | no big ↦ cc (build_throws kind flags sid payload (omega arith))
]
  where
    front : Bytes
    front = write_be 4 (low_31 sid)

    layout : Bytes
    layout = write_be 3 (length payload) ++ ((kind % 256) ∷ (flags % 256) ∷ (front ++ payload))

    found : Frame
    found = record {
      length = length payload;
      kind = kind % 256;
      flags = flags % 256;
      stream_id = sid % 2 ^ 31;
      payload = payload;
      consumed = 9 + length payload;
    }

    regroup :
        layout ++ rest
        ≡ write_be 3 (length payload)
          ++ ((kind % 256) ∷ (flags % 256) ∷ (front ++ (payload ++ rest)))
    regroup = simp append_assoc

    built :
        length payload < 2 ^ 24
        → (parse (bytes ++ rest) ≡ ok (some found)) × (length bytes ≡ 9 + length payload)
    built small =
        let same : layout ≡ bytes = cc (build_ok kind flags sid payload small) in
        let below : low_31 sid < 2 ^ 32 = omega (arith, low_31-mod sid) in
        let id : low_31 (low_31 sid) ≡ sid % 2 ^ 31 =
          omega (arith, low_31-mod sid, low_31-mod (low_31 sid)) in
        subst (λ b. (parse (b ++ rest) ≡ ok (some found)) × (length b ≡ 9 + length payload)) same
          (
            rw
                (
                  regroup,
                  parse_layout (length payload) (kind % 256) (flags % 256) (low_31 sid) payload rest
                      refl small below,
                  id,
                )
                refl,
            omega (
              arith,
              length-append (write_be 3 (length payload))
                  ((kind % 256) ∷ (flags % 256) ∷ (front ++ payload)),
              length-append front payload,
              length-write_be 3 (length payload),
              length-write_be 4 (low_31 sid),
            ),
          )

-- The frame at the front of a buffer whose header reads `len` and `sid`.
abbrev frame_of : ℕ → ℕ → Bytes → Frame
frame_of len sid buf = record {
  length = len;
  kind = byte_at buf 3;
  flags = byte_at buf 4;
  stream_id = low_31 sid;
  payload = take len (drop 9 buf);
  consumed = 9 + len;
}

parse_step :
    (buf : Bytes) (len sid : ℕ)
    → 9 ≤ length buf
    → read_uint 3 buf ≡ ok len
    → read_uint 4 (drop 5 buf) ≡ ok sid
    → parse buf ≡ (if ltb (length buf) (9 + len) then ok none else ok (some (frame_of len sid buf)))
unfolding parse
parse_step buf len sid h e₁ e₂ = ground arith

pub parse_short : (buf : Bytes) → length buf < 9 → parse buf ≡ ok none
unfolding parse
parse_short buf h = rw (lt→ltb _ _ h)

header_ids :
    (buf : Bytes)
    → 9 ≤ length buf
    → (len : ℕ) × (sid : ℕ) × (read_uint 3 buf ≡ ok len) × (read_uint 4 (drop 5 buf) ≡ ok sid)
header_ids buf h =
    let (len, e₁) = read_uint_total 3 buf (omega arith) in
    let (sid, e₂) = read_uint_total 4 (drop 5 buf) (omega (arith, length-drop 5 buf)) in
    (len, sid, e₁, e₂)

-- `parse` never throws: it waits for more or finds a frame.
pub parse_total : (buf : Bytes) → (o : Option Frame) × (parse buf ≡ ok o)
parse_total buf = elim (dec_lt (length buf) 9) [
  | yes short ↦ (none, parse_short buf short)
  | no long ↦ found (header_ids buf (omega arith)) (omega arith)
]
  where
    found :
        (len : ℕ) × (sid : ℕ) × (read_uint 3 buf ≡ ok len) × (read_uint 4 (drop 5 buf) ≡ ok sid)
        → 9 ≤ length buf
        → (o : Option Frame) × (parse buf ≡ ok o)
    found (len, sid, e₁, e₂) h = elim (Bool-cases (ltb (length buf) (9 + len))) [
      | inl wait ↦ (none, parse_step buf len sid h e₁ e₂ ∙ rw wait)
      | inr there ↦ (some (frame_of len sid buf), parse_step buf len sid h e₁ e₂ ∙ rw there)
    ]

parse_found :
    (buf : Bytes) (len sid : ℕ) (f : Frame)
    → 9 ≤ length buf
    → read_uint 3 buf ≡ ok len
    → read_uint 4 (drop 5 buf) ≡ ok sid
    → parse buf ≡ ok (some f)
    → (f ≡ frame_of len sid buf) × (9 + len ≤ length buf)
parse_found buf len sid f h e₁ e₂ p = ground (arith, parse_step buf len sid h e₁ e₂)

read_uint-append :
    (n : ℕ) (buf more : Bytes) (x : ℕ) → read_uint n buf ≡ ok x → read_uint n (buf ++ more) ≡ ok x
unfolding read_uint
read_uint-append n buf more x e = elim (Option-cases (read_be n buf)) [
  | inl missing ↦ ground arith
  | inr (y, got) ↦ ground (arith, read_be_from-append n 0 buf more got)
]

frame_of-append :
    (len sid : ℕ) (buf more : Bytes)
    → 9 + len ≤ length buf
    → frame_of len sid (buf ++ more) ≡ frame_of len sid buf
frame_of-append len sid buf more h = rw (
  get_or-append_left buf more 3 0 (omega arith),
  get_or-append_left buf more 4 0 (omega arith),
  drop-append_left 9 buf more (omega arith),
  take-append_left len (drop 9 buf) more (omega (arith, length-drop 9 buf)),
)

-- Once `parse` has found a frame, more input does not change it; and a frame lies within what was
-- received, its payload as long as its header says.
pub parse-append :
    (buf more : Bytes) (f : Frame)
    → parse buf ≡ ok (some f)
    → (parse (buf ++ more) ≡ ok (some f))
      × (f.consumed ≤ length buf)
      × (f.consumed ≡ 9 + length f.payload)
      × (f.length ≡ length f.payload)
parse-append buf more f h = elim (dec_lt (length buf) 9) [
  | yes short ↦ cc (parse_short buf short)
  | no long ↦ found (header_ids buf (omega arith)) (omega arith)
]
  where
    found :
        (len : ℕ) × (sid : ℕ) × (read_uint 3 buf ≡ ok len) × (read_uint 4 (drop 5 buf) ≡ ok sid)
        → 9 ≤ length buf
        → (parse (buf ++ more) ≡ ok (some f))
          × (f.consumed ≤ length buf)
          × (f.consumed ≡ 9 + length f.payload)
          × (f.length ≡ length f.payload)
    found (len, sid, e₁, e₂) long =
        let (same, fits) = parse_found buf len sid f long e₁ e₂ h in
        let size = length-append buf more in
        let len' = read_uint-append 3 buf more len e₁ in
        let rest = drop-append_left 5 buf more (omega arith) in
        let sid' : read_uint 4 (drop 5 (buf ++ more)) ≡ ok sid =
          rw rest (read_uint-append 4 (drop 5 buf) more sid e₂) in
        rw same (
          parse_step (buf ++ more) len sid (omega arith) len' sid'
              ∙ rw (
                le→ltb (length (buf ++ more)) (9 + len) (omega arith),
                frame_of-append len sid buf more fits,
              ),
          fits,
          omega (arith, length-take len (drop 9 buf), length-drop 9 buf),
          omega (arith, length-take len (drop 9 buf), length-drop 9 buf),
        )
