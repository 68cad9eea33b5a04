-- ===== src/Hip/Upload/Chunks.antt =====
-- The read loop of an upload: what it sends when it ends well, and that it does when nothing fails.
use moe_assets_updater_next.Prelude.{
  ℕ, zero, suc, ◌+◌, ◌≡◌, refl, ap, ◌∙◌, List, [], ◌∷◌, ◌++◌, map, length-append, append_assoc,
  append-nil, arith, length,
}
use moe_assets_updater_next.Hip.Error.{ok}
use moe_assets_updater_next.Hip.Frame.{Frame}
use moe_assets_updater_next.Hip.Codec.{UploadAck}
use moe_assets_updater_next.Hip.Upload.{Read, got, failed, Trace, chunk_frame, send, chunk_loop}

-- What the reads return up to the end of the file.
abbrev pub chunks : List Read → List (List ℕ)
chunks [] = []
chunks (failed ∷ reads) = []
chunks (got [] ∷ reads) = []
chunks (got (b ∷ bs) ∷ reads) = (b ∷ bs) ∷ chunks reads

abbrev pub concat : List (List ℕ) → List ℕ
concat [] = []
concat (c ∷ cs) = c ++ concat cs

-- No read fails before the end of the file.
abbrev pub Readable : List Read → Type 0
Readable [] = Unit {0}
Readable (failed ∷ reads) = ⊥
Readable (got [] ∷ reads) = Unit {0}
Readable (got (b ∷ bs) ∷ reads) = Readable reads

abbrev pub after : List Frame → Trace → Trace
after frames t = record { frames = frames ++ t.frames; result = t.result }

length-concat : (c : List ℕ) (t : ℕ) (cs : List ℕ) → t + length c + length cs ≡ t + length (c ++ cs)
length-concat c t cs = omega (arith, length-append c cs)

-- One more chunk in front.
after-chunk :
    (frame : Frame) (frames : List Frame) (bytes c cs : List ℕ) (total : ℕ)
    (next : List ℕ → ℕ → Trace) (t : Trace)
    → t ≡ after frames (next ((bytes ++ c) ++ cs) (total + length c + length cs))
    → record { frames = frame ∷ t.frames; result = t.result }
      ≡ after (frame ∷ frames) (next (bytes ++ (c ++ cs)) (total + length (c ++ cs)))
after-chunk frame frames bytes c cs total next t e =
    let shape : t ≡ after frames (next (bytes ++ (c ++ cs)) (total + length (c ++ cs))) =
      e ∙ rw (append_assoc, length-concat c total cs) refl in
    ap (λ u. record { frames = frame ∷ u.frames; result = u.result }) shape

-- A read loop that ends well has read to the end of the file and sent every chunk.
pub chunk_loop-inv :
    (stream_id room : ℕ) (reads : List Read) (bytes : List ℕ) (total : ℕ)
    (next : ℕ → List ℕ → ℕ → Trace) {ack : UploadAck}
    → (chunk_loop stream_id room reads bytes total next).result ≡ ok ack
    → (left : ℕ) × (chunk_loop stream_id room reads bytes total next
        ≡ after
            (map (chunk_frame stream_id) (chunks reads))
            (next left (bytes ++ concat (chunks reads)) (total + length (concat (chunks reads)))))
unfolding chunk_loop send
chunk_loop-inv stream_id room [] bytes total next h =
    let e : total + 0 ≡ total = omega arith in (room, rw (append-nil, e) refl)
chunk_loop-inv stream_id room (failed ∷ reads) bytes total next h = absurd cc
chunk_loop-inv stream_id room (got [] ∷ reads) bytes total next h =
    let e : total + 0 ≡ total = omega arith in (room, rw (append-nil, e) refl)
chunk_loop-inv stream_id zero (got (b ∷ bs) ∷ reads) bytes total next h = absurd cc
chunk_loop-inv stream_id (suc room) (got (b ∷ bs) ∷ reads) bytes total next h =
    let (left, e) =
      chunk_loop-inv stream_id room reads (bytes ++ (b ∷ bs)) (total + length (b ∷ bs)) next h in
    (left, after-chunk (chunk_frame stream_id (b ∷ bs)) _ bytes (b ∷ bs) _ total (next left) _ e)

-- Enough room and no failing read end the read loop well.
pub chunk_loop-Readable :
    (stream_id left : ℕ) (reads : List Read) (bytes : List ℕ) (total : ℕ)
    (next : ℕ → List ℕ → ℕ → Trace)
    → Readable reads
    → (room : ℕ) → room ≡ length (chunks reads) + left
    → chunk_loop stream_id room reads bytes total next
      ≡ after
          (map (chunk_frame stream_id) (chunks reads))
          (next left (bytes ++ concat (chunks reads)) (total + length (concat (chunks reads))))
unfolding chunk_loop send
chunk_loop-Readable stream_id left [] bytes total next h room e =
    let z : total + 0 ≡ total = omega arith in
    let r : room ≡ left = omega arith in rw (append-nil, z, r) refl
chunk_loop-Readable stream_id left (failed ∷ reads) bytes total next h room e = absurd h
chunk_loop-Readable stream_id left (got [] ∷ reads) bytes total next h room e =
    let z : total + 0 ≡ total = omega arith in
    let r : room ≡ left = omega arith in rw (append-nil, z, r) refl
chunk_loop-Readable stream_id left (got (b ∷ bs) ∷ reads) bytes total next h zero e =
    absurd (omega arith)
chunk_loop-Readable stream_id left (got (b ∷ bs) ∷ reads) bytes total next h (suc room) e =
    after-chunk (chunk_frame stream_id (b ∷ bs)) _ bytes (b ∷ bs) _ total (next left) _ (
      chunk_loop-Readable stream_id left reads (bytes ++ (b ∷ bs)) (total + length (b ∷ bs)) next h
        room (omega arith))
