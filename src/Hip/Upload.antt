-- ===== src/Hip/Upload.antt =====
-- `HipSession::upload_stream` and `validate_upload_ack` of src/core/hip/client.rs, as the frames that
-- one upload hands to the writer, and its result. What other tasks send stands between these frames;
-- the frames of the stream itself carry its id.
pub mod Chunks
pub mod Frames
mod Examples
use moe_assets_updater_next.Prelude.{
  ℕ, zero, suc, ◌+◌, ◌-◌, ◌≤◌, Bool, true, false, not, ◌&&◌, Option, none, some, List, [], ◌∷◌,
  ◌++◌, map, leb, ◌==◌, if◌then◌else◌, length, be_bytes, Text, text_beq, codes,
}
use moe_assets_updater_next.Hip.Error.{
  Result, ok, err, io, encode, session_closed, session_is_closed, upload_reply_dropped, protocol,
  size_mismatch, server, timeout,
}
use moe_assets_updater_next.Hip.Frame.{Frame, upload_begin, upload_chunk, upload_end}
use moe_assets_updater_next.Hip.Codec.{UploadBegin, UploadEnd, UploadAck}

-- `to_ascii_lowercase`.
abbrev lower : ℕ → ℕ
lower c = if leb 65 c && leb c 90 then c + 32 else c

unfoldable pub to_ascii_lowercase : Text → Text
to_ascii_lowercase t = map lower t

abbrev is_prefix : Text → Text → Bool
is_prefix [] t = true
is_prefix (c ∷ p) [] = false
is_prefix (c ∷ p) (d ∷ t) = (c == d) && is_prefix p t

-- `str::contains`.
unfoldable pub contains : Text → Text → Bool
contains [] p = is_prefix p []
contains (c ∷ t) p = if is_prefix p (c ∷ t) then true else contains t p

unfoldable pub validate_upload_ack : UploadAck → Result UploadAck
validate_upload_ack ack =
    let message : Text = elim ack.message [ none ↦ [] | some m ↦ m ] in
    if text_beq ack.status (codes "OK")
    then ok ack
    else if text_beq (to_ascii_lowercase ack.status) (codes "rejected")
        && contains (to_ascii_lowercase message) (codes "already present")
    then ok ack
    else err (server ack.status message false)

-- How waiting for the reply ends.
pub data Wait : Type 0 where
  replied : UploadAck → Wait
  dropped timed_out : Wait

-- One `reader.read`: at most a chunk of bytes, none at the end of the file.
pub data Read : Type 0 where
  got : List ℕ → Read
  failed : Read

pub record Trace : Type 0 where
  pub frames : List Frame
  pub result : Result UploadAck

-- `timeout(..)`, and the result of the channel within it.
unfoldable pub await_ack : ℕ → Wait → Result UploadAck
await_ack request_timeout (replied ack) = validate_upload_ack ack
await_ack request_timeout dropped = err (session_closed upload_reply_dropped)
await_ack request_timeout timed_out = err (timeout request_timeout)

abbrev pub stop : Result UploadAck → Trace
stop r = record { frames = []; result = r }

abbrev pub chunk_frame : ℕ → List ℕ → Frame
chunk_frame stream_id bytes = record {
  frame_type = upload_chunk;
  payload = be_bytes 4 stream_id ++ bytes;
}

-- `send_frame`, when the session takes `room` more frames of this upload.
unfoldable pub send : ℕ → Frame → (ℕ → Trace) → Trace
send zero frame next = stop (err (session_closed session_is_closed))
send (suc room) frame next =
    let t = next room in record { frames = frame ∷ t.frames; result = t.result }

-- `codec::encode(..)?` before a frame is sent.
unfoldable pub encoded : Option (List ℕ) → (List ℕ → Trace) → Trace
encoded none next = stop (err encode)
encoded (some payload) next = next payload

-- The read loop: `bytes` was read and sent, so that it is what the hasher took in, and `total_bytes` is
-- its number.
unfoldable pub chunk_loop : ℕ → ℕ → List Read → List ℕ → ℕ → (ℕ → List ℕ → ℕ → Trace) → Trace
unfolding send
chunk_loop stream_id room [] bytes total_bytes next = next room bytes total_bytes
chunk_loop stream_id room (failed ∷ reads) bytes total_bytes next = stop (err io)
chunk_loop stream_id room (got [] ∷ reads) bytes total_bytes next = next room bytes total_bytes
chunk_loop stream_id room (got (b ∷ bs) ∷ reads) bytes total_bytes next =
    send room (chunk_frame stream_id (b ∷ bs)) (λ left_over.
      chunk_loop stream_id left_over reads (bytes ++ (b ∷ bs)) (total_bytes + length (b ∷ bs)) next)

abbrev pub end_of : (List ℕ → Text) → ℕ → List ℕ → ℕ → UploadEnd
end_of sha256_hex stream_id bytes total_bytes = record {
  stream_id = stream_id;
  total_bytes = total_bytes;
  sha256 = sha256_hex bytes;
}

module _ (encode_begin : UploadBegin → Option (List ℕ)) (encode_end : UploadEnd → Option (List ℕ))
    (sha256_hex : List ℕ → Text) (request_timeout : ℕ) where
  -- From the end of the file on.
  unfoldable pub finish_upload : ℕ → ℕ → Wait → ℕ → List ℕ → ℕ → Trace
  finish_upload stream_id size reply room bytes total_bytes =
      if not (total_bytes == size)
      then stop (err (protocol (size_mismatch size total_bytes)))
      else encoded (encode_end (end_of sha256_hex stream_id bytes total_bytes)) (λ payload.
        send room (record { frame_type = upload_end; payload = payload })
          (λ _. stop (await_ack request_timeout reply)))

  -- After UPLOAD_BEGIN: an early reply is awaited for 10 ms.
  unfoldable pub after_begin : UploadBegin → Wait → List Read → Wait → ℕ → Trace
  after_begin begin (replied ack) reads reply room = stop (validate_upload_ack ack)
  after_begin begin dropped reads reply room = stop (err (session_closed upload_reply_dropped))
  after_begin begin timed_out reads reply room =
      chunk_loop begin.stream_id room reads [] 0 (finish_upload begin.stream_id begin.size reply)

  unfoldable pub upload_stream : UploadBegin → Wait → List Read → Wait → ℕ → Trace
  upload_stream begin early reads reply room = encoded (encode_begin begin) (λ payload.
      send room (record { frame_type = upload_begin; payload = payload })
        (λ left_over. after_begin begin early reads reply left_over))
