-- ===== src/Hip/Session/Invariant.antt =====
-- What every event keeps of a session.
use moe_assets_updater_next.Prelude.{
  ℕ, ◌+◌, ◌%◌, ◌^◌, ◌<◌, ◌≡◌, refl, Option, none, some, List, [], ◌∷◌, arith, nat_eq, Option-cases,
  Bool-cases, inl, inr,
}
use moe_assets_updater_next.Hip.Error.{Result, ok, err}
use moe_assets_updater_next.Hip.Frame.{
  FrameType, Frame, hello, hello_ack, check_batch, check_ack, upload_begin, upload_chunk,
  upload_end, upload_ack, commit, commit_ack, bye, window, ping, pong, error,
}
use moe_assets_updater_next.Hip.Codec.{
  CheckBatchItem, CheckBatch, CheckResult, UploadAck, CommitAck,
}
use moe_assets_updater_next.Hip.Session.{
  Cell, pending, Waiters, register, fail_all, Session, Decoders, send_frame, send_encoded,
  start_check, start_upload, claim_slot, start_commit, release_slot, Step, after_dispatch,
  fail_commit, fail_all_waiters, take_commit, dispatch_type, dispatch_frame, reader_step, close,
  Event, checks, uploads, commits, sends, reads, writer_stops, closes, apply, run,
}
use moe_assets_updater_next.Hip.Session.Waiting.{
  IsWaiters, register-IsWaiters, deliver-IsWaiters, fail_all-IsWaiters,
}
use moe_assets_updater_next.Hip.Session.Numbered.{
  Numbered, register-Numbered, deliver-Numbered, fail_all-Numbered, deliver_next,
}

-- The parts of a session that its requests depend on.
pub record Consistent (checks : Waiters CheckResult) (uploads : Waiters UploadAck)
    (waiter : Option ℕ) (cells : ℕ → Cell CommitAck) (next_commit batch_id stream_id : ℕ)
    : Type 0 where
  pub check : IsWaiters checks
  pub upload : IsWaiters uploads
  pub check_numbered : Numbered (2 ^ 64) (λ a. a.batch_id) checks
  pub upload_numbered : Numbered (2 ^ 32) (λ a. a.stream_id) uploads
  pub next_batch : batch_id ≡ (1 + checks.next) % 2 ^ 64
  pub next_stream : stream_id ≡ (1 + uploads.next) % 2 ^ 32
  pub commit_waits : (t : ℕ) → waiter ≡ some t → (t < next_commit) × (cells t ≡ pending)
  pub commit_kept : (t : ℕ) → t < next_commit → cells t ≡ pending → waiter ≡ some t

abbrev pub IsSession : Session → Type 0
IsSession s =
    Consistent s.check_waiters s.upload_waiters s.commit_waiter s.commit_cells s.next_commit
      s.batch_id s.stream_id

send_frame-IsSession :
    (frame_type : FrameType) (payload : List ℕ) (s : Session)
    → IsSession s
    → IsSession (send_frame frame_type payload s).0
unfolding send_frame
send_frame-IsSession frame_type payload s h = elim (Bool-cases s.is_open) [
  | inr shut ↦ rw shut h
  | inl opened ↦ elim (Bool-cases s.writer_alive) [
    | inl alive ↦ rw (opened, alive) h
    | inr dead ↦ rw (opened, dead) h
  ]
]

send_encoded-IsSession :
    (frame_type : FrameType) (spelled : Option (List ℕ)) (ticket : ℕ) (s : Session)
    → IsSession s
    → IsSession (send_encoded frame_type spelled ticket s).0
unfolding send_encoded
send_encoded-IsSession frame_type none ticket s h = h
send_encoded-IsSession frame_type (some payload) ticket s h =
    send_frame-IsSession frame_type payload s h

start_upload-IsSession : (s : Session) → IsSession s → IsSession (start_upload s)
unfolding start_upload register
start_upload-IsSession s h = record {
  check = h.check;
  upload = register-IsWaiters s.stream_id s.upload_waiters h.upload;
  check_numbered = h.check_numbered;
  upload_numbered =
      register-Numbered (2 ^ 32) (λ a. a.stream_id) s.stream_id s.upload_waiters h.next_stream
        h.upload_numbered;
  next_batch = h.next_batch;
  next_stream = omega (arith, h.next_stream);
  commit_waits = h.commit_waits;
  commit_kept = h.commit_kept;
}

pub fail_all_waiters-IsSession : (s : Session) → IsSession s → IsSession (fail_all_waiters s)
unfolding fail_all_waiters fail_commit fail_all
fail_all_waiters-IsSession s h = record {
  check = fail_all-IsWaiters s.check_waiters h.check;
  upload = fail_all-IsWaiters s.upload_waiters h.upload;
  check_numbered = fail_all-Numbered (2 ^ 64) (λ a. a.batch_id) s.check_waiters h.check_numbered;
  upload_numbered =
      fail_all-Numbered (2 ^ 32) (λ a. a.stream_id) s.upload_waiters h.upload_numbered;
  next_batch = h.next_batch;
  next_stream = h.next_stream;
  commit_waits = λ t e. absurd cc;
  commit_kept = λ t l p. elim (Option-cases s.commit_waiter) [
    | inl free ↦ absurd (ground (arith, h.commit_kept t))
    | inr (u, taken) ↦ absurd (ground (arith, h.commit_kept t))
  ];
}

start_check-IsSession :
    (spell : CheckBatch → Option (List ℕ)) (items : List CheckBatchItem) (s : Session)
    → IsSession s
    → IsSession (start_check spell items s).0
unfolding start_check register
start_check-IsSession spell [] s h = h
start_check-IsSession spell (item ∷ items) s h = send_encoded-IsSession check_batch _ _ _ (record {
  check = register-IsWaiters s.batch_id s.check_waiters h.check;
  upload = h.upload;
  check_numbered =
      register-Numbered (2 ^ 64) (λ a. a.batch_id) s.batch_id s.check_waiters h.next_batch
        h.check_numbered;
  upload_numbered = h.upload_numbered;
  next_batch = omega (arith, h.next_batch);
  next_stream = h.next_stream;
  commit_waits = h.commit_waits;
  commit_kept = h.commit_kept;
})

claim_slot-IsSession :
    (slot : Option ℕ) (spelled : Option (List ℕ)) (s : Session)
    → s.commit_waiter ≡ slot
    → IsSession s
    → IsSession (claim_slot slot spelled s).0
unfolding claim_slot
claim_slot-IsSession (some t) spelled s e h = h
claim_slot-IsSession none spelled s e h = send_encoded-IsSession commit spelled _ _ (record {
  check = h.check;
  upload = h.upload;
  check_numbered = h.check_numbered;
  upload_numbered = h.upload_numbered;
  next_batch = h.next_batch;
  next_stream = h.next_stream;
  commit_waits = λ t f. ground arith;
  commit_kept = λ t l p. ground (arith, h.commit_kept t);
})

release_slot-IsSession :
    (slot : Option ℕ) (ack : CommitAck) (s : Session)
    → s.commit_waiter ≡ slot
    → IsSession s
    → IsSession (release_slot slot ack s)
unfolding release_slot
release_slot-IsSession none ack s e h = h
release_slot-IsSession (some t) ack s e h = record {
  check = h.check;
  upload = h.upload;
  check_numbered = h.check_numbered;
  upload_numbered = h.upload_numbered;
  next_batch = h.next_batch;
  next_stream = h.next_stream;
  commit_waits = λ u f. absurd cc;
  commit_kept = λ u l p. absurd (ground (arith, h.commit_kept u));
}

pub dispatch_type-IsSession :
    (d : Decoders) (frame_type : FrameType) (payload : List ℕ) (s : Session)
    → IsSession s
    → IsSession (dispatch_type d frame_type payload s).0
unfolding dispatch_type take_commit
dispatch_type-IsSession d check_ack payload s h = elim (Option-cases (d.check_ack payload)) [
  | inl unread ↦ rw unread h
  | inr (ack, e) ↦ rw e (record {
    check = deliver-IsWaiters ack.batch_id ack s.check_waiters h.check;
    upload = h.upload;
    check_numbered =
        deliver-Numbered (2 ^ 64) (λ a. a.batch_id) ack s.check_waiters h.check_numbered;
    upload_numbered = h.upload_numbered;
    next_batch = deliver_next (2 ^ 64) ack.batch_id ack s.check_waiters h.next_batch;
    next_stream = h.next_stream;
    commit_waits = h.commit_waits;
    commit_kept = h.commit_kept;
  })
]
dispatch_type-IsSession d upload_ack payload s h = elim (Option-cases (d.upload_ack payload)) [
  | inl unread ↦ rw unread h
  | inr (ack, e) ↦ rw e (record {
    check = h.check;
    upload = deliver-IsWaiters ack.stream_id ack s.upload_waiters h.upload;
    check_numbered = h.check_numbered;
    upload_numbered =
        deliver-Numbered (2 ^ 32) (λ a. a.stream_id) ack s.upload_waiters h.upload_numbered;
    next_batch = h.next_batch;
    next_stream = deliver_next (2 ^ 32) ack.stream_id ack s.upload_waiters h.next_stream;
    commit_waits = h.commit_waits;
    commit_kept = h.commit_kept;
  })
]
dispatch_type-IsSession d commit_ack payload s h = elim (Option-cases (d.commit_ack payload)) [
  | inl unread ↦ rw unread h
  | inr (ack, e) ↦ rw e (release_slot-IsSession s.commit_waiter ack s refl h)
]
dispatch_type-IsSession d window payload s h = elim (Option-cases (d.window payload)) [
  | inl unread ↦ rw unread h
  | inr (size, e) ↦ rw e h
]
dispatch_type-IsSession d ping payload s h = send_frame-IsSession pong [] s h
dispatch_type-IsSession d pong payload s h = h
dispatch_type-IsSession d error payload s h = elim (Option-cases (d.error payload)) [
  | inl unread ↦ rw unread h
  | inr (report, e) ↦ rw e (fail_all_waiters-IsSession s h)
]
dispatch_type-IsSession d hello payload s h = h
dispatch_type-IsSession d hello_ack payload s h = h
dispatch_type-IsSession d check_batch payload s h = h
dispatch_type-IsSession d upload_begin payload s h = h
dispatch_type-IsSession d upload_chunk payload s h = h
dispatch_type-IsSession d upload_end payload s h = h
dispatch_type-IsSession d commit payload s h = h
dispatch_type-IsSession d bye payload s h = h

after_dispatch-IsSession : (r : Step (Unit {0})) → IsSession r.0 → IsSession (after_dispatch r).0
after_dispatch-IsSession (s, ok tt) h = h
after_dispatch-IsSession (s, err e) h = fail_all_waiters-IsSession s h

reader_step-IsSession :
    (d : Decoders) (frame : Result Frame) (s : Session)
    → IsSession s
    → IsSession (reader_step d frame s).0
unfolding reader_step dispatch_frame
reader_step-IsSession d (err e) s h = fail_all_waiters-IsSession s h
reader_step-IsSession d (ok frame) s h =
    after_dispatch-IsSession (dispatch_type d frame.frame_type frame.payload s)
      (dispatch_type-IsSession d frame.frame_type frame.payload s h)

apply-IsSession : (d : Decoders) (e : Event) (s : Session) → IsSession s → IsSession (apply d e s)
unfolding apply start_commit close
apply-IsSession d (checks spell items) s h = start_check-IsSession spell items s h
apply-IsSession d uploads s h = start_upload-IsSession s h
apply-IsSession d (commits spelled) s h = claim_slot-IsSession s.commit_waiter spelled s refl h
apply-IsSession d (sends frame_type payload) s h = send_frame-IsSession frame_type payload s h
apply-IsSession d (reads frame) s h = reader_step-IsSession d frame s h
apply-IsSession d writer_stops s h = h
apply-IsSession d closes s h = send_frame-IsSession bye [] s h

pub run-IsSession :
    (d : Decoders) (events : List Event) (s : Session) → IsSession s → IsSession (run d events s)
unfolding run
run-IsSession d [] s h = h
run-IsSession d (e ∷ events) s h = run-IsSession d events (apply d e s) (apply-IsSession d e s h)
