-- ===== src/Hip/Frame/RoundTrip.antt =====
-- What `read_frame` makes of what `encode_frame` wrote, and the other way round.
use moe_assets_updater_next.Prelude.{
  ℕ, ◌+◌, ◌-◌, ◌%◌, ◌^◌, ◌≤◌, ◌<◌, ◌≡◌, refl, ◌∙◌, ◌↔◌, List, [], ◌∷◌, ◌++◌, arith, append_assoc,
  length, IsBytes, be_bytes, from_be, length-be_bytes, from_be-be_bytes, from_be-lt,
  be_bytes-from_be, split_at?-append, split_at?-inv, inl, inr,
}
use moe_assets_updater_next.Hip.Error.{ok, Result-cases}
use moe_assets_updater_next.Hip.Frame.{
  FrameType, hello, to_u8, from_u8, Frame, encode_frame, read_exact, read_type, read_frame,
}

-- `from_u8` accepts exactly the bytes that are the discriminant of a frame type, and returns that
-- type.
pub from_u8_exact : (b : ℕ) (t : FrameType) → (from_u8 b ≡ ok t) ↔ (to_u8 t ≡ b)
from_u8_exact b t = (accepted b t, λ e. rw (← e) (known t))
  where
    known : (t : FrameType) → from_u8 (to_u8 t) ≡ ok t
    known hello = unfold from_u8 to_u8 in refl
    known _ = unfold from_u8 to_u8 in refl

    accepted : (b : ℕ) (t : FrameType) → from_u8 b ≡ ok t → to_u8 t ≡ b
    accepted b hello h = unfold from_u8 to_u8 in ground arith
    accepted b _ h = unfold from_u8 to_u8 in ground arith

read_exact-append : (n : ℕ) (xs ys : List ℕ) → length xs ≡ n → read_exact n (xs ++ ys) ≡ ok (xs, ys)
unfolding read_exact
read_exact-append n xs ys h = rw (← h) (ground (arith, split_at?-append xs ys))

read_exact-inv :
    (n : ℕ) (input : List ℕ) {xs ys : List ℕ}
    → read_exact n input ≡ ok (xs, ys)
    → (xs ++ ys ≡ input) × (length xs ≡ n)
unfolding read_exact
read_exact-inv n input h = split_at?-inv n input (ground arith)

read_type-inv :
    (input : List ℕ) {t : FrameType} {rest : List ℕ}
    → read_type input ≡ ok (t, rest)
    → to_u8 t ∷ rest ≡ input
unfolding read_type
read_type-inv [] h = cc
read_type-inv (b ∷ bs) {t} {rest} h = ground (arith, (from_u8_exact b t).0)

-- The frame that the wire form spells.
abbrev spell : List ℕ → FrameType → List ℕ → List ℕ
spell len_buf t tail = len_buf ++ (to_u8 t ∷ tail)

read_frame-spell :
    (len_buf : List ℕ) (t : FrameType) (payload rest : List ℕ) (max_frame_bytes : ℕ)
    → length len_buf ≡ 4
    → from_be len_buf ≡ length payload + 1
    → length payload + 1 ≤ max_frame_bytes
    → read_frame (spell len_buf t (payload ++ rest)) max_frame_bytes
      ≡ ok (record { frame_type = t; payload = payload }, rest)
read_frame-spell len_buf t payload rest max_frame_bytes hl hv hm =
    unfold read_frame read_type in
    ground (
      arith,
      read_exact-append 4 len_buf (to_u8 t ∷ (payload ++ rest)) hl,
      (from_u8_exact (to_u8 t) t).1 refl,
      read_exact-append (from_be len_buf - 1) payload rest,
    )

encode_frame-inv :
    (f : Frame) (max_frame_bytes : ℕ) (bytes : List ℕ)
    → encode_frame f max_frame_bytes ≡ ok bytes
    → (length f.payload + 1 ≤ max_frame_bytes)
      × (bytes ≡ be_bytes 4 ((length f.payload + 1) % 2 ^ 32) ++ (to_u8 f.frame_type ∷ f.payload))
unfolding encode_frame
encode_frame-inv f max_frame_bytes bytes h = ground arith

-- Whatever follows on the stream, `read_frame` reads back the frame that `encode_frame` wrote
-- under the same limit and leaves the rest, if the type byte and the payload together number
-- less than 2 ^ 32.
pub read_frame-encode_frame :
    (f : Frame) (max_frame_bytes : ℕ) (bytes rest : List ℕ)
    → encode_frame f max_frame_bytes ≡ ok bytes
    → length f.payload + 1 < 2 ^ 32
    → read_frame (bytes ++ rest) max_frame_bytes ≡ ok (f, rest)
read_frame-encode_frame f max_frame_bytes bytes rest h small =
    let (fits, shape) = encode_frame-inv f max_frame_bytes bytes h in
    let n : ℕ = (length f.payload + 1) % 2 ^ 32 in
    let whole : n ≡ length f.payload + 1 = omega arith in
    rw (shape, append_assoc)
      (read_frame-spell (be_bytes 4 n) f.frame_type f.payload rest max_frame_bytes
        (length-be_bytes 4 n) (from_be-be_bytes 4 n (omega arith) ∙ whole) fits)

-- What a successful `read_frame` took from the stream.
record Taken (input : List ℕ) (max_frame_bytes : ℕ) (f : Frame) (rest : List ℕ) : Type 0 where
  len_buf : List ℕ
  four : length len_buf ≡ 4
  declared : from_be len_buf ≡ length f.payload + 1
  within : length f.payload + 1 ≤ max_frame_bytes
  spelled : spell len_buf f.frame_type (f.payload ++ rest) ≡ input

read_frame-Taken :
    (input : List ℕ) (max_frame_bytes : ℕ) (f : Frame) (rest : List ℕ)
    → read_frame input max_frame_bytes ≡ ok (f, rest)
    → Taken input max_frame_bytes f rest
unfolding read_frame
read_frame-Taken input max_frame_bytes f rest h = elim (Result-cases (read_exact 4 input)) [
  | inr (_, e) ↦ cc
  | inl ((len_buf, after_len), e) ↦ elim (Result-cases (read_type after_len)) [
    | inr (_, e') ↦ absurd (ground arith)
    | inl ((t, after_type), e') ↦
        elim (Result-cases (read_exact (from_be len_buf - 1) after_type)) [
          | inr (_, e'') ↦ absurd (ground arith)
          | inl ((payload, rest'), e'') ↦
              let (cut, four) = read_exact-inv 4 input e in
              let typed = read_type-inv after_len e' in
              let (cut', len) = read_exact-inv (from_be len_buf - 1) after_type e'' in
              record {
                len_buf = len_buf;
                four = four;
                declared = ground (arith);
                within = ground (arith);
                spelled = ground arith;
              }
        ]
  ]
]

IsBytes-front : (xs ys : List ℕ) → IsBytes (xs ++ ys) → IsBytes xs
IsBytes-front [] ys h = tt
IsBytes-front (x ∷ xs) ys h = (h.0, IsBytes-front xs ys h.1)

len_buf-be_bytes :
    (len_buf : List ℕ) {n : ℕ}
    → length len_buf ≡ 4
    → from_be len_buf ≡ n
    → IsBytes len_buf
    → from_be len_buf < 256 ^ 4
    → be_bytes 4 (n % 2 ^ 32) ≡ len_buf
len_buf-be_bytes len_buf {n} four declared front small =
    let whole : n % 2 ^ 32 ≡ from_be len_buf = omega arith in
    rw whole (rw four at (be_bytes-from_be len_buf front))

-- A stream of bytes that `read_frame` accepts begins with exactly what `encode_frame` writes for
-- the frame under the same limit: no other spelling of a frame is accepted, the payload with the
-- type byte keeps within the limit, and nothing behind the frame is taken.
pub encode_frame-read_frame :
    (input : List ℕ) (max_frame_bytes : ℕ) (f : Frame) (rest : List ℕ)
    → IsBytes input
    → read_frame input max_frame_bytes ≡ ok (f, rest)
    → (bytes : List ℕ) × (encode_frame f max_frame_bytes ≡ ok bytes)
      × (bytes ++ rest ≡ input)
      × (length f.payload + 1 ≤ max_frame_bytes)
encode_frame-read_frame input max_frame_bytes f rest hb h =
    let t = read_frame-Taken input max_frame_bytes f rest h in
    let front : IsBytes t.len_buf = IsBytes-front t.len_buf _ (rw (← t.spelled) at hb) in
    let small : from_be t.len_buf < 256 ^ 4 = rw t.four at (from_be-lt t.len_buf front) in
    let header : be_bytes 4 ((length f.payload + 1) % 2 ^ 32) ≡ t.len_buf =
      len_buf-be_bytes t.len_buf t.four t.declared front small in
    (
      t.len_buf ++ (to_u8 f.frame_type ∷ f.payload),
      unfold encode_frame in rw header (ground (arith, t.within)),
      rw append_assoc t.spelled,
      t.within,
    )
