-- ===== src/Hip/Upload/Frames.antt =====
-- Which frames an upload sends when it ends well, and that it ends well when nothing fails.
use moe_assets_updater_next.Prelude.{
  ℕ, zero, suc, ◌+◌, ◌-◌, ◌≤◌, ◌≡◌, refl, sym, ap, ◌∙◌, ◌⊎◌, inl, inr, true, Option, some, List, [],
  ◌∷◌, ◌++◌, map, arith, ◌==◌, length, Text, Bool-cases, Option-cases, ==_iff,
}
use moe_assets_updater_next.Hip.Error.{ok}
use moe_assets_updater_next.Hip.Frame.{Frame, upload_begin, upload_end}
use moe_assets_updater_next.Hip.Codec.{UploadBegin, UploadEnd, UploadAck}
use moe_assets_updater_next.Hip.Upload.{
  Wait, replied, dropped, timed_out, Read, Trace, await_ack, chunk_frame, send, encoded, end_of,
  finish_upload, after_begin, upload_stream,
}
use moe_assets_updater_next.Hip.Upload.Chunks.{
  chunks, concat, Readable, after, chunk_loop-inv, chunk_loop-Readable,
}

module _ (encode_begin : UploadBegin → Option (List ℕ)) (encode_end : UploadEnd → Option (List ℕ))
    (sha256_hex : List ℕ → Text) (request_timeout : ℕ) where
  -- The server acknowledged the whole file: what was sent is its content, chunk by chunk, with the
  -- declared length and the hash of all of it.
  pub record Uploaded (begin : UploadBegin) (reads : List Read) (frames : List Frame) : Type 0 where
    pub begin_payload : List ℕ
    pub end_payload : List ℕ
    pub begin_encoded : encode_begin begin ≡ some begin_payload
    pub complete : length (concat (chunks reads)) ≡ begin.size
    pub end_encoded :
        encode_end (record {
          stream_id = begin.stream_id;
          total_bytes = begin.size;
          sha256 = sha256_hex (concat (chunks reads));
        })
        ≡ some end_payload
    pub sent :
        frames
        ≡ record { frame_type = upload_begin; payload = begin_payload }
          ∷ (map (chunk_frame begin.stream_id) (chunks reads)
              ++ (record { frame_type = upload_end; payload = end_payload } ∷ []))

  abbrev finish : UploadBegin → Wait → ℕ → List ℕ → ℕ → Trace
  finish begin reply =
      finish_upload encode_begin encode_end sha256_hex request_timeout begin.stream_id begin.size
        reply

  -- The end of an upload that succeeded.
  abbrev EndSent : UploadBegin → Wait → ℕ → List ℕ → ℕ → UploadAck → Type 0
  EndSent begin reply room bytes total ack =
      (payload : List ℕ) × (total ≡ begin.size)
      × (encode_end (end_of sha256_hex begin.stream_id bytes total) ≡ some payload)
      × ((finish begin reply room bytes total).frames
          ≡ record { frame_type = upload_end; payload = payload } ∷ [])
      × (await_ack request_timeout reply ≡ ok ack)

  send_end :
      (begin : UploadBegin) (reply : Wait) (room : ℕ) (bytes : List ℕ) (total : ℕ)
      (payload : List ℕ) {ack : UploadAck}
      → (total == begin.size) ≡ true
      → encode_end (end_of sha256_hex begin.stream_id bytes total) ≡ some payload
      → (finish begin reply room bytes total).result ≡ ok ack
      → EndSent begin reply room bytes total ack
  unfolding finish_upload send encoded
  send_end begin reply zero bytes total payload same e h = absurd (ground arith)
  send_end begin reply (suc room) bytes total payload same e h =
      (payload, ground arith, e, ground arith, ground arith)

  finish_upload-inv :
      (begin : UploadBegin) (reply : Wait) (room : ℕ) (bytes : List ℕ) (total : ℕ) {ack : UploadAck}
      → (finish begin reply room bytes total).result ≡ ok ack
      → EndSent begin reply room bytes total ack
  unfolding finish_upload send encoded
  finish_upload-inv begin reply room bytes total h = elim (Bool-cases (total == begin.size)) [
    | inr differs ↦ absurd (ground arith)
    | inl same ↦ elim (Option-cases (encode_end (end_of sha256_hex begin.stream_id bytes total))) [
      | inl no_payload ↦ absurd (ground arith)
      | inr (payload, e) ↦ send_end begin reply room bytes total payload same e h
    ]
  ]

  abbrev rest_of : UploadBegin → Wait → List Read → Wait → ℕ → Trace
  rest_of = after_begin encode_begin encode_end sha256_hex request_timeout

  abbrev start : UploadBegin → Wait → List Read → Wait → ℕ → Trace
  start = upload_stream encode_begin encode_end sha256_hex request_timeout

  abbrev begin_frame : List ℕ → Frame
  begin_frame payload = record { frame_type = upload_begin; payload = payload }

  -- Either the server replied to UPLOAD_BEGIN at once, or the file was uploaded.
  abbrev Acknowledged : UploadBegin → Wait → List Read → Wait → List Frame → UploadAck → Type 0
  Acknowledged begin early reads reply frames ack =
      ((payload : List ℕ) × (encode_begin begin ≡ some payload)
        × (frames ≡ begin_frame payload ∷ [])
        × (await_ack request_timeout early ≡ ok ack))
      ⊎ (Uploaded begin reads frames
          × (early ≡ timed_out)
          × (await_ack request_timeout reply ≡ ok ack))

  uploaded :
      (begin : UploadBegin) (reads : List Read) (reply : Wait) (left : ℕ) (payload : List ℕ)
      {ack : UploadAck} {t : Trace}
      → encode_begin begin ≡ some payload
      → t
        ≡ after
            (map (chunk_frame begin.stream_id) (chunks reads))
            (finish begin reply left (concat (chunks reads)) (0 + length (concat (chunks reads))))
      → t.result ≡ ok ack
      → Uploaded begin reads (begin_frame payload ∷ t.frames)
        × (await_ack request_timeout reply ≡ ok ack)
  uploaded begin reads reply left payload {t = t} e shape h =
      let (end_payload, same, end_encoded, last, acked) =
        finish_upload-inv begin reply left (concat (chunks reads))
          (0 + length (concat (chunks reads))) (sym (ap (λ u. u.result) shape) ∙ h) in
      (
        record {
          begin_payload = payload;
          end_payload = end_payload;
          begin_encoded = e;
          complete = omega (arith, same);
          end_encoded = rw (sym same) end_encoded;
          sent = ap (λ fs. begin_frame payload ∷ fs) (ap (λ u. u.frames) shape ∙ rw last refl);
        },
        acked,
      )

  after_begin-Acknowledged :
      (begin : UploadBegin) (early : Wait) (reads : List Read) (reply : Wait) (room : ℕ)
      (payload : List ℕ) {ack : UploadAck}
      → encode_begin begin ≡ some payload
      → (rest_of begin early reads reply room).result ≡ ok ack
      → Acknowledged begin early reads reply
          (begin_frame payload ∷ (rest_of begin early reads reply room).frames)
          ack
  unfolding after_begin await_ack
  after_begin-Acknowledged begin (replied a) reads reply room payload e h =
      inl (payload, e, refl, h)
  after_begin-Acknowledged begin dropped reads reply room payload e h = absurd cc
  after_begin-Acknowledged begin timed_out reads reply room payload e h =
      let (left, shape) = chunk_loop-inv begin.stream_id room reads [] 0 (finish begin reply) h in
      let (u, acked) = uploaded begin reads reply left payload e shape h in inr (u, refl, acked)

  start-encoded :
      (begin : UploadBegin) (early : Wait) (reads : List Read) (reply : Wait) (room : ℕ)
      (payload : List ℕ)
      → encode_begin begin ≡ some payload
      → start begin early reads reply (suc room)
        ≡ after (begin_frame payload ∷ []) (rest_of begin early reads reply room)
  unfolding upload_stream encoded send
  start-encoded begin early reads reply room payload e = rw e refl

  -- An upload that returned an acknowledgement sent UPLOAD_BEGIN alone if the server replied to it at
  -- once, and else the whole file; the acknowledgement is the server's, and passed its check.
  pub upload_stream-Acknowledged :
      (begin : UploadBegin) (early : Wait) (reads : List Read) (reply : Wait) (room : ℕ)
      {ack : UploadAck}
      → (start begin early reads reply room).result ≡ ok ack
      → Acknowledged begin early reads reply (start begin early reads reply room).frames ack
  unfolding upload_stream encoded send
  upload_stream-Acknowledged begin early reads reply zero h =
      elim (Option-cases (encode_begin begin)) [
        | inl no_payload ↦ absurd (ground arith)
        | inr (payload, e) ↦ absurd (ground arith)
      ]
  upload_stream-Acknowledged begin early reads reply (suc room) h =
      elim (Option-cases (encode_begin begin)) [
        | inl no_payload ↦ absurd (ground arith)
        | inr (payload, e) ↦
            let shape = start-encoded begin early reads reply room payload e in
            rw shape (
              after_begin-Acknowledged begin early reads reply room payload e
                (sym (ap (λ t. t.result) shape) ∙ h))
      ]

  finish_upload-ok :
      (begin : UploadBegin) (reply : Wait) (room : ℕ) (bytes : List ℕ) (payload : List ℕ)
      {ack : UploadAck}
      → (total : ℕ) → total ≡ begin.size
      → encode_end (end_of sha256_hex begin.stream_id bytes begin.size) ≡ some payload
      → await_ack request_timeout reply ≡ ok ack
      → (finish begin reply (suc room) bytes total).result ≡ ok ack
  unfolding finish_upload send encoded
  finish_upload-ok begin reply room bytes payload total same e h =
      rw (same, (==_iff begin.size begin.size).1 refl, e) h

  -- An upload succeeds when its messages can be spelled, the server does not reply early, no read
  -- fails, the file has the declared size, the session takes all the frames, and the reply passes its
  -- check.
  pub upload_stream-ok :
      (begin : UploadBegin) (reads : List Read) (reply : Wait) (room : ℕ)
      (payload end_payload : List ℕ) {ack : UploadAck}
      → encode_begin begin ≡ some payload
      → Readable reads
      → length (concat (chunks reads)) ≡ begin.size
      → encode_end (end_of sha256_hex begin.stream_id (concat (chunks reads)) begin.size)
        ≡ some end_payload
      → length (chunks reads) + 2 ≤ room
      → await_ack request_timeout reply ≡ ok ack
      → (start begin timed_out reads reply room).result ≡ ok ack
  unfolding upload_stream encoded send after_begin
  upload_stream-ok begin reads reply zero payload end_payload e readable same ee h acked =
      absurd (omega arith)
  upload_stream-ok begin reads reply (suc room) payload end_payload e readable same ee h acked =
      let k = room - length (chunks reads) - 1 in
      let shape =
        chunk_loop-Readable begin.stream_id (suc k) reads [] 0 (finish begin reply) readable room
          (omega arith) in
      ap (λ t. t.result) (start-encoded begin timed_out reads reply room payload e)
      ∙ (ap (λ t. t.result) shape
          ∙ finish_upload-ok begin reply k (concat (chunks reads)) end_payload _
              (omega (arith, same)) ee acked)
