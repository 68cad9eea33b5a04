-- ===== src/Hip/Upload/Examples.antt =====
-- A file of two chunks, acknowledged at its end.
use moe_assets_updater_next.Prelude.{
  ℕ, ◌≡◌, refl, ◌⊎◌, Option, none, some, List, [], ◌∷◌, arith, Text, codes, text_beq,
}
use moe_assets_updater_next.Hip.Error.{ok}
use moe_assets_updater_next.Hip.Codec.{UploadBegin, UploadEnd, UploadAck}
use moe_assets_updater_next.Hip.Frame.{upload_begin}
use moe_assets_updater_next.Hip.Upload.{
  replied, timed_out, Read, got, Trace, validate_upload_ack, await_ack, send, encoded, chunk_loop,
  finish_upload, after_begin, upload_stream, to_ascii_lowercase, contains,
}
use moe_assets_updater_next.Hip.Upload.Frames.{
  Uploaded, upload_stream-Acknowledged, upload_stream-ok,
}

abbrev begin : UploadBegin
begin = record {
  stream_id = 7;
  bundle_path = codes "a";
  path = codes "b";
  fingerprint = codes "12";
  size = 3;
  content_type = none;
}

abbrev ack_of : Text → Option Text → UploadAck
ack_of status message = record {
  stream_id = 7;
  status = status;
  placement = none;
  server_sha256 = none;
  storage_key = none;
  message = message;
}

abbrev reads : List Read
reads = got (1 ∷ 2 ∷ []) ∷ got (3 ∷ []) ∷ got [] ∷ []

-- An encoding that keeps one field, and a hash that keeps everything.
abbrev spell_begin : UploadBegin → Option (List ℕ)
spell_begin m = some m.path

abbrev spell_end : UploadEnd → Option (List ℕ)
spell_end m = some m.sha256

abbrev hash : List ℕ → Text
hash bytes = bytes

abbrev trace : Trace
trace =
    upload_stream spell_begin spell_end hash 30000 begin timed_out reads
      (replied (ack_of (codes "OK") none)) 4

upload_stream-ok_example : trace.result ≡ ok (ack_of (codes "OK") none)
unfolding await_ack validate_upload_ack text_beq
upload_stream-ok_example =
    upload_stream-ok spell_begin spell_end hash 30000 begin reads
      (replied (ack_of (codes "OK") none)) 4 (codes "b") (1 ∷ 2 ∷ 3 ∷ []) refl tt refl refl
      (omega arith) refl

upload_stream-Acknowledged_example :
    ((payload : List ℕ) × (some (codes "b") ≡ some payload)
      × (trace.frames ≡ record { frame_type = upload_begin; payload = payload } ∷ [])
      × (await_ack 30000 timed_out ≡ ok (ack_of (codes "OK") none)))
    ⊎ (Uploaded spell_begin spell_end hash 30000 begin reads trace.frames
        × (timed_out ≡ timed_out)
        × (await_ack 30000 (replied (ack_of (codes "OK") none)) ≡ ok (ack_of (codes "OK") none)))
unfolding upload_stream encoded send after_begin chunk_loop finish_upload await_ack
    validate_upload_ack text_beq
upload_stream-Acknowledged_example =
    upload_stream-Acknowledged spell_begin spell_end hash 30000 begin timed_out reads
      (replied (ack_of (codes "OK") none)) 4 refl

rejected_present :
    validate_upload_ack (ack_of (codes "Rejected") (some (codes "Already Present here")))
    ≡ ok (ack_of (codes "Rejected") (some (codes "Already Present here")))
unfolding validate_upload_ack to_ascii_lowercase contains text_beq
rejected_present = refl
