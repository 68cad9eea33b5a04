-- ===== src/Hip/Frame.antt =====
-- src/core/hip/frame.rs: frames, and their wire form
-- `[u32 be length][u8 type][payload]`, where the length counts the type byte and the payload.
pub mod RoundTrip
mod Examples
use moe_assets_updater_next.Prelude.{
  ℕ, ◌+◌, ◌-◌, ◌*◌, ◌%◌, ◌^◌, Option, none, some, List, [], ◌∷◌, ◌++◌, ltb, ◌==◌, if◌then◌else◌,
  length, split_at?, be_bytes, from_be,
}
use moe_assets_updater_next.Hip.Error.{
  Result, ok, err, ◌>>=◌, io, frame_too_large, protocol, unknown_frame_type, zero_length,
}

abbrev pub max_default_frame_bytes : ℕ
max_default_frame_bytes = 16 * 1024 * 1024

pub data FrameType : Type 0 where
  hello hello_ack check_batch check_ack upload_begin upload_chunk upload_end : FrameType
  upload_ack commit commit_ack bye window ping pong error : FrameType

-- The discriminants of `#[repr(u8)]`.
unfoldable pub to_u8 : FrameType → ℕ
to_u8 hello = 0x01
to_u8 hello_ack = 0x02
to_u8 check_batch = 0x03
to_u8 check_ack = 0x04
to_u8 upload_begin = 0x05
to_u8 upload_chunk = 0x06
to_u8 upload_end = 0x07
to_u8 upload_ack = 0x08
to_u8 commit = 0x09
to_u8 commit_ack = 0x0a
to_u8 bye = 0x0b
to_u8 window = 0x0c
to_u8 ping = 0x0e
to_u8 pong = 0x0f
to_u8 error = 0x1f

unfoldable pub from_u8 : ℕ → Result FrameType
from_u8 value =
    if value == 0x01
    then ok hello
    else if value == 0x02
    then ok hello_ack
    else if value == 0x03
    then ok check_batch
    else if value == 0x04
    then ok check_ack
    else if value == 0x05
    then ok upload_begin
    else if value == 0x06
    then ok upload_chunk
    else if value == 0x07
    then ok upload_end
    else if value == 0x08
    then ok upload_ack
    else if value == 0x09
    then ok commit
    else if value == 0x0a
    then ok commit_ack
    else if value == 0x0b
    then ok bye
    else if value == 0x0c
    then ok window
    else if value == 0x0e
    then ok ping
    else if value == 0x0f
    then ok pong
    else if value == 0x1f
    then ok error
    else err (protocol (unknown_frame_type value))

pub record Frame : Type 0 where
  pub frame_type : FrameType
  pub payload : List ℕ

-- `Frame::encode`. The cast `total_len as u32` keeps the low 32 bits.
unfoldable pub encode_frame : Frame → ℕ → Result (List ℕ)
encode_frame f max_frame_bytes =
    let total_len = length f.payload + 1 in
    if ltb max_frame_bytes total_len
    then err (frame_too_large total_len max_frame_bytes)
    else ok (be_bytes 4 (total_len % 2 ^ 32) ++ (to_u8 f.frame_type ∷ f.payload))

-- `read_exact` on a stream that holds `input`; a stream that ends early is an I/O error.
unfoldable pub read_exact : ℕ → List ℕ → Result (List ℕ × List ℕ)
read_exact n input = elim (split_at? n input) [ none ↦ err io | some p ↦ ok p ]

-- The one byte of `type_buf`.
unfoldable pub read_type : List ℕ → Result (FrameType × List ℕ)
read_type [] = err io
read_type (b ∷ rest) = do t ← from_u8 b; ok (t, rest)

-- `read_frame`, with what the stream still holds.
unfoldable pub read_frame : List ℕ → ℕ → Result (Frame × List ℕ)
unfolding read_exact read_type
read_frame input max_frame_bytes = do
  (len_buf, after_len) ← read_exact 4 input
  let declared = from_be len_buf
  if declared == 0
      then err (protocol zero_length)
      else if ltb max_frame_bytes declared
      then err (frame_too_large declared max_frame_bytes)
      else do
        (frame_type, after_type) ← read_type after_len
        (payload, rest) ← read_exact (declared - 1) after_type
        ok (record { frame_type = frame_type; payload = payload }, rest)

-- `write_frame` onto a stream to which `written` has gone out already.
unfoldable pub write_frame : List ℕ → Frame → ℕ → Result (List ℕ)
unfolding encode_frame
write_frame written frame max_frame_bytes = do
  encoded ← encode_frame frame max_frame_bytes
  ok (written ++ encoded)
