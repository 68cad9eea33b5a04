-- ===== src/Hip/Session/Examples.antt =====
-- A session with two check batches, an upload and a commit that times out.
use moe_assets_updater_next.Prelude.{
  ℕ, ◌+◌, ◌%◌, ◌^◌, ◌<◌, ◌≡◌, ◌≢◌, refl, Option, none, some, List, [], ◌∷◌, lookup, insert, remove,
  codes,
}
use moe_assets_updater_next.Hip.Error.{ok, err, protocol, commit_in_flight}
use moe_assets_updater_next.Hip.Frame.{check_ack}
use moe_assets_updater_next.Hip.Codec.{CheckBatchItem, CheckBatch, CheckResult, UploadAck}
use moe_assets_updater_next.Hip.Session.{
  pending, replied, Decoders, Event, checks, uploads, commits, reads, apply, run, reader_step,
  start_commit, start_check, start_upload, claim_slot, send_encoded, send_frame, register, deliver,
  dispatch_frame, dispatch_type,
}
use moe_assets_updater_next.Hip.Session.Reachable.{reached, run-replied, run-one_commit}

-- A reply is spelled by its id.
abbrev d : Decoders
d = record {
  check_ack = λ payload. elim payload [
    | [] ↦ none
    | id ∷ rest ↦ some (record { batch_id = id; results = [] })
  ];
  upload_ack = λ payload. none;
  commit_ack = λ payload. none;
  window = λ payload. none;
  error = λ payload. none;
}

abbrev item : CheckBatchItem
item = record { path = codes "a"; fingerprint = codes "1"; size = 5; provider = codes "jp" }

abbrev spell : CheckBatch → Option (List ℕ)
spell m = some (m.batch_id ∷ [])

-- The second batch is answered first; the commit waits.
abbrev events : List Event
events =
    checks spell (item ∷ [])
    ∷ checks spell (item ∷ [])
    ∷ uploads
    ∷ commits (some [])
    ∷ reads (ok (record { frame_type = check_ack; payload = 2 ∷ [] }))
    ∷ []

run-replied_example :
    ((ack : CheckResult)
      → 1 < (reached d events).check_waiters.next
      → (reached d events).check_waiters.cells 1 ≡ replied ack
      → ack.batch_id ≡ (1 + 1) % 2 ^ 64)
    × ((ack : UploadAck)
        → 1 < (reached d events).upload_waiters.next
        → (reached d events).upload_waiters.cells 1 ≡ replied ack
        → ack.stream_id ≡ (1 + 1) % 2 ^ 32)
run-replied_example = run-replied d events 1

second_answered :
    (reached d events).check_waiters.cells 1 ≡ replied (record { batch_id = 2; results = [] })
unfolding run apply start_check start_upload start_commit claim_slot send_encoded send_frame
    register deliver reader_step dispatch_frame dispatch_type lookup insert remove
second_answered = refl

run-one_commit_example :
    ((t : ℕ)
      → t < (reached d events).next_commit
      → (reached d events).commit_cells t ≡ pending
      → start_commit (some []) (reached d events)
        ≡ (reached d events, err (protocol commit_in_flight)))
    × (((t : ℕ) → t < (reached d events).next_commit → (reached d events).commit_cells t ≢ pending)
        → (start_commit (some []) (reached d events)).0.next_commit
          ≡ (reached d events).next_commit + 1)
run-one_commit_example = run-one_commit d events (some [])
