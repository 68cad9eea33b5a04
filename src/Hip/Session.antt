-- ===== src/Hip/Session.antt =====
-- The requests of `HipSession` that wait for replies (src/core/hip/client.rs): `check_batch`, `commit`,
-- the registration of uploads, `dispatch_frame`, `fail_all_waiters` and `close`. A oneshot channel is a
-- ticket, whose cell says what its receiver can see; the spelling of messages is a parameter.
pub mod Waiting
pub mod Numbered
pub mod Invariant
pub mod Reachable
mod Examples
use moe_assets_updater_next.Prelude.{
  ℕ, ◌+◌, ◌*◌, ◌%◌, ◌^◌, Bool, true, false, Option, none, some, List, [], ◌∷◌, ◌++◌, ◌==◌,
  if◌then◌else◌, Text, Map, lookup, insert, remove, nat_eq,
}
use moe_assets_updater_next.Hip.Error.{
  HipError, Result, ok, err, ◌>>=◌, encode, decode, protocol, commit_in_flight, unexpected_frame,
  server, session_closed, session_is_closed, writer_terminated,
}
use moe_assets_updater_next.Hip.Frame.{
  FrameType, to_u8, Frame, hello, hello_ack, check_batch, check_ack, upload_begin, upload_chunk,
  upload_end, upload_ack, commit, commit_ack, bye, window, ping, pong, error,
}
use moe_assets_updater_next.Hip.Codec.{
  CheckBatchItem, CheckBatch, CheckResult, UploadAck, CommitAck, HipErrorPayload,
}

-- What the receiver of a channel sees: nothing, the reply, or that the sender was dropped.
pub data Cell (A : Type 0) : Type 0 where
  pending dropped : Cell A
  replied : A → Cell A

-- Waiting requests: the tickets by request id, the channels made so far, and the next ticket.
pub record Waiters (A : Type 0) : Type 0 where
  pub table : Map ℕ ℕ
  pub cells : ℕ → Cell A
  pub next : ℕ

module _ {A : Type 0} where
  abbrev pub write : ℕ → Cell A → (ℕ → Cell A) → (ℕ → Cell A)
  write t c cells = λ u. if u == t then c else cells u

  abbrev pub drop_sender : Option ℕ → (ℕ → Cell A) → (ℕ → Cell A)
  drop_sender none cells = cells
  drop_sender (some t) cells = write t dropped cells

  -- A new channel, whose sender is inserted under `id`; a sender that stood there is dropped.
  unfoldable pub register : ℕ → Waiters A → Waiters A
  register id w = record {
    table = insert id w.next w.table;
    cells = write w.next pending (drop_sender (lookup id w.table) w.cells);
    next = w.next + 1;
  }

  abbrev pub answer : ℕ → A → Waiters A → Option ℕ → Waiters A
  answer id reply w none = w
  answer id reply w (some t) = record w {
    table = remove id w.table;
    cells = write t (replied reply) w.cells;
  }

  -- `remove(&id)` and `send`, or a warning where nobody waits.
  unfoldable pub deliver : ℕ → A → Waiters A → Waiters A
  deliver id reply w = answer id reply w (lookup id w.table)

  unfoldable pub drop_all : Map ℕ ℕ → (ℕ → Cell A) → (ℕ → Cell A)
  drop_all [] cells = cells
  drop_all ((id, t) ∷ table) cells = drop_all table (write t dropped cells)

  -- `drain().for_each(drop)`.
  unfoldable pub fail_all : Waiters A → Waiters A
  fail_all w = record w { table = []; cells = drop_all w.table w.cells }

-- The reader and all requests share one session. `sent` is what the writer's queue took; `is_open` is
-- whether `writer_tx` still stands, `writer_alive` whether its task runs.
pub record Session : Type 0 where
  pub check_waiters : Waiters CheckResult
  pub upload_waiters : Waiters UploadAck
  pub commit_waiter : Option ℕ
  pub commit_cells : ℕ → Cell CommitAck
  pub next_commit : ℕ
  pub batch_id : ℕ
  pub stream_id : ℕ
  pub is_open : Bool
  pub writer_alive : Bool
  pub sent : List Frame

-- What a request returns, with the session after it.
abbrev pub Step : Type 0 → Type 0
Step A = Session × Result A

unfoldable pub send_frame : FrameType → List ℕ → Session → Step (Unit {0})
send_frame frame_type payload s =
    if s.is_open
    then (if s.writer_alive
        then (
          record s {
            sent = s.sent ++ (record { frame_type = frame_type; payload = payload } ∷ []);
          },
          ok tt,
        )
        else (s, err (session_closed writer_terminated)))
    else (s, err (session_closed session_is_closed))

-- `codec::encode(..)?`, then `send_frame`; the request goes on with its ticket.
unfoldable pub send_encoded : FrameType → Option (List ℕ) → ℕ → Session → Step (Option ℕ)
unfolding send_frame
send_encoded frame_type none ticket s = (s, err encode)
send_encoded frame_type (some payload) ticket s =
    let sent = send_frame frame_type payload s in (sent.0, sent.1 >>= λ _. ok (some ticket))

-- `check_batch` up to its wait: without items there is nothing to wait for.
unfoldable pub start_check :
    (CheckBatch → Option (List ℕ)) → List CheckBatchItem → Session → Step (Option ℕ)
unfolding send_encoded register
start_check spell [] s = (s, ok none)
start_check spell (item ∷ items) s =
    send_encoded check_batch (spell (record { batch_id = s.batch_id; items = item ∷ items }))
      s.check_waiters.next
      (record s {
        batch_id = (s.batch_id + 1) % 2 ^ 64;
        check_waiters = register s.batch_id s.check_waiters;
      })

-- The registration in `upload_stream`: the stream id is the old counter.
unfoldable pub start_upload : Session → Session
unfolding register
start_upload s = record s {
  stream_id = (s.stream_id + 1) % 2 ^ 32;
  upload_waiters = register s.stream_id s.upload_waiters;
}

-- `commit` up to its wait, given what the slot holds, with the message already spelled or refused.
unfoldable pub claim_slot : Option ℕ → Option (List ℕ) → Session → Step (Option ℕ)
unfolding send_encoded
claim_slot (some t) spelled s = (s, err (protocol commit_in_flight))
claim_slot none spelled s = send_encoded commit spelled s.next_commit (record s {
  commit_waiter = some s.next_commit;
  commit_cells = write s.next_commit pending s.commit_cells;
  next_commit = s.next_commit + 1;
})

unfoldable pub start_commit : Option (List ℕ) → Session → Step (Option ℕ)
unfolding claim_slot
start_commit spelled s = claim_slot s.commit_waiter spelled s

unfoldable pub fail_commit : Option ℕ → (ℕ → Cell CommitAck) → (ℕ → Cell CommitAck)
fail_commit waiter cells = drop_sender waiter cells

unfoldable pub fail_all_waiters : Session → Session
unfolding fail_all fail_commit
fail_all_waiters s = record s {
  check_waiters = fail_all s.check_waiters;
  upload_waiters = fail_all s.upload_waiters;
  commit_waiter = none;
  commit_cells = fail_commit s.commit_waiter s.commit_cells;
}

-- `take()` of the slot, and `send`.
unfoldable pub release_slot : Option ℕ → CommitAck → Session → Session
release_slot none ack s = s
release_slot (some t) ack s = record s {
  commit_waiter = none;
  commit_cells = write t (replied ack) s.commit_cells;
}

unfoldable pub take_commit : CommitAck → Session → Session
unfolding release_slot
take_commit ack s = release_slot s.commit_waiter ack s

-- `codec::decode(..)?`, then a change of the session.
abbrev pub decoded {ℓ} : {A : Type ℓ} → Option A → (A → Step (Unit {0})) → Session → Step (Unit {0})
decoded none change s = (s, err decode)
decoded (some a) change s = change a

-- How the payloads of the server's messages are read.
pub record Decoders : Type 0 where
  pub check_ack : List ℕ → Option CheckResult
  pub upload_ack : List ℕ → Option UploadAck
  pub commit_ack : List ℕ → Option CommitAck
  pub window : List ℕ → Option ℕ
  pub error : List ℕ → Option HipErrorPayload

abbrev on_error : HipErrorPayload → Session → Step (Unit {0})
on_error payload s = (
  fail_all_waiters s,
  if payload.fatal then err (server payload.code payload.message true) else ok tt,
)

abbrev unexpected : FrameType → Session → Step (Unit {0})
unexpected frame_type s = (s, err (protocol (unexpected_frame (to_u8 frame_type))))

unfoldable pub dispatch_type : Decoders → FrameType → List ℕ → Session → Step (Unit {0})
unfolding deliver take_commit fail_all_waiters send_frame
dispatch_type d check_ack payload s =
    decoded (d.check_ack payload)
      (λ ack. (record s { check_waiters = deliver ack.batch_id ack s.check_waiters }, ok tt)) s
dispatch_type d upload_ack payload s =
    decoded (d.upload_ack payload)
      (λ ack. (record s { upload_waiters = deliver ack.stream_id ack s.upload_waiters }, ok tt)) s
dispatch_type d commit_ack payload s =
    decoded (d.commit_ack payload) (λ ack. (take_commit ack s, ok tt)) s
dispatch_type d window payload s = decoded (d.window payload) (λ _. (s, ok tt)) s
dispatch_type d ping payload s = send_frame pong [] s
dispatch_type d pong payload s = (s, ok tt)
dispatch_type d error payload s = decoded (d.error payload) (λ e. on_error e s) s
dispatch_type d hello payload s = unexpected hello s
dispatch_type d hello_ack payload s = unexpected hello_ack s
dispatch_type d check_batch payload s = unexpected check_batch s
dispatch_type d upload_begin payload s = unexpected upload_begin s
dispatch_type d upload_chunk payload s = unexpected upload_chunk s
dispatch_type d upload_end payload s = unexpected upload_end s
dispatch_type d commit payload s = unexpected commit s
dispatch_type d bye payload s = unexpected bye s

unfoldable pub dispatch_frame : Decoders → Frame → Session → Step (Unit {0})
unfolding dispatch_type
dispatch_frame d frame s = dispatch_type d frame.frame_type frame.payload s

-- One turn of the reader task, and whether it goes on: an error of the stream or of the dispatch
-- ends it.
abbrev pub after_dispatch : Step (Unit {0}) → Session × Bool
after_dispatch (s, ok tt) = (s, true)
after_dispatch (s, err e) = (fail_all_waiters s, false)

unfoldable pub reader_step : Decoders → Result Frame → Session → Session × Bool
unfolding dispatch_frame fail_all_waiters
reader_step d (err e) s = (fail_all_waiters s, false)
reader_step d (ok frame) s = after_dispatch (dispatch_frame d frame s)

-- `close`: BYE if it can still be sent, then the writer's sender is dropped.
unfoldable pub close : Session → Session
unfolding send_frame
close s = record (send_frame bye [] s).0 { is_open = false }

abbrev no_waiters : {A : Type 0} → Waiters A
no_waiters = record { table = []; cells = λ _. pending; next = 0 }

-- The session that `start` makes after the handshake.
abbrev pub new_session : Session
new_session = record {
  check_waiters = no_waiters;
  upload_waiters = no_waiters;
  commit_waiter = none;
  commit_cells = λ _. pending;
  next_commit = 0;
  batch_id = 1;
  stream_id = 1;
  is_open = true;
  writer_alive = true;
  sent = [];
}

-- What can happen to a session, one lock at a time.
pub data Event : Type 0 where
  checks : (CheckBatch → Option (List ℕ)) → List CheckBatchItem → Event
  uploads : Event
  commits : Option (List ℕ) → Event
  sends : FrameType → List ℕ → Event
  reads : Result Frame → Event
  writer_stops closes : Event

unfoldable pub apply : Decoders → Event → Session → Session
unfolding start_check start_upload start_commit send_frame reader_step close
apply d (checks spell items) s = (start_check spell items s).0
apply d uploads s = start_upload s
apply d (commits spelled) s = (start_commit spelled s).0
apply d (sends frame_type payload) s = (send_frame frame_type payload s).0
apply d (reads frame) s = (reader_step d frame s).0
apply d writer_stops s = record s { writer_alive = false }
apply d closes s = close s

unfoldable pub run : Decoders → List Event → Session → Session
unfolding apply
run d [] s = s
run d (e ∷ events) s = run d events (apply d e s)
