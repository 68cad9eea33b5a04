-- ===== src/Hip/Session/Reachable.antt =====
-- Every session that events can lead to: waiting requests are never lost, replies go to the request
-- whose id they carry, and one commit is in flight at most.
use moe_assets_updater_next.Prelude.{
  ℕ, ◌+◌, ◌%◌, ◌^◌, ◌<◌, ◌≡◌, refl, ◌≢◌, Option, none, some, List, arith, lookup, nat_eq,
}
use moe_assets_updater_next.Hip.Error.{err}
use moe_assets_updater_next.Hip.Frame.{FrameType, Frame, commit}
use moe_assets_updater_next.Hip.Codec.{CheckResult, UploadAck}
use moe_assets_updater_next.Hip.Session.{
  pending, replied, Session, Decoders, send_frame, send_encoded, claim_slot, start_commit,
  new_session, Event, run,
}
use moe_assets_updater_next.Hip.Session.Invariant.{IsSession, run-IsSession}
use moe_assets_updater_next.Hip.Error.{protocol, commit_in_flight}

new_session-IsSession : IsSession new_session
unfolding lookup
new_session-IsSession = record {
  check = record {
    unique = tt;
    waits = λ id t e. absurd cc;
    distinct = λ id j t e f. absurd cc;
    kept = λ t l p. absurd (omega arith);
  };
  upload = record {
    unique = tt;
    waits = λ id t e. absurd cc;
    distinct = λ id j t e f. absurd cc;
    kept = λ t l p. absurd (omega arith);
  };
  check_numbered = record {
    asked = λ id t e. absurd cc;
    answered = λ t a l e. absurd (omega arith);
  };
  upload_numbered = record {
    asked = λ id t e. absurd cc;
    answered = λ t a l e. absurd (omega arith);
  };
  next_batch = refl;
  next_stream = refl;
  commit_waits = λ t e. absurd cc;
  commit_kept = λ t l p. absurd (omega arith);
}

abbrev pub reached : Decoders → List Event → Session
reached d events = run d events new_session

reached-IsSession : (d : Decoders) (events : List Event) → IsSession (reached d events)
reached-IsSession d events = run-IsSession d events new_session new_session-IsSession

-- In every session that events lead to from a new one, whatever their order, the request numbered t
-- (from 0) of `check_batch` or of `upload_stream` has been answered only by a reply with its own id,
-- (1 + t) modulo 2 ^ 64 or 2 ^ 32.
pub run-replied :
    (d : Decoders) (events : List Event) (t : ℕ)
    → ((ack : CheckResult)
        → t < (reached d events).check_waiters.next
        → (reached d events).check_waiters.cells t ≡ replied ack
        → ack.batch_id ≡ (1 + t) % 2 ^ 64)
      × ((ack : UploadAck)
          → t < (reached d events).upload_waiters.next
          → (reached d events).upload_waiters.cells t ≡ replied ack
          → ack.stream_id ≡ (1 + t) % 2 ^ 32)
run-replied d events t =
    let h = reached-IsSession d events in
    (h.check_numbered.answered t, h.upload_numbered.answered t)

-- No request of the session waits.
abbrev pub Settled : Session → Type 0
Settled s =
    (t : ℕ)
    → (t < s.check_waiters.next → s.check_waiters.cells t ≢ pending)
      × (t < s.upload_waiters.next → s.upload_waiters.cells t ≢ pending)
      × (t < s.next_commit → s.commit_cells t ≢ pending)

send_encoded-next_commit :
    (frame_type : FrameType) (spelled : Option (List ℕ)) (ticket : ℕ) (s : Session)
    → (send_encoded frame_type spelled ticket s).0.next_commit ≡ s.next_commit
unfolding send_encoded send_frame
send_encoded-next_commit frame_type none ticket s = refl
send_encoded-next_commit frame_type (some payload) ticket s = ground arith

claim_slot-one :
    (slot : Option ℕ) (spelled : Option (List ℕ)) (s : Session)
    → s.commit_waiter ≡ slot
    → IsSession s
    → ((t : ℕ)
        → t < s.next_commit
        → s.commit_cells t ≡ pending
        → claim_slot slot spelled s ≡ (s, err (protocol commit_in_flight)))
      × (((t : ℕ) → t < s.next_commit → s.commit_cells t ≢ pending)
          → (claim_slot slot spelled s).0.next_commit ≡ s.next_commit + 1)
unfolding claim_slot
claim_slot-one (some t) spelled s e h =
    (λ u l p. refl, λ idle. absurd (idle t (h.commit_waits t e).0 (h.commit_waits t e).1))
claim_slot-one none spelled s e h = (
  λ u l p. absurd (ground (arith, h.commit_kept u)),
  λ idle. send_encoded-next_commit commit spelled _ _,
)

-- In every session that events lead to, a commit is refused, without any change, exactly while the
-- channel of an earlier one waits; otherwise it takes the next ticket.
pub run-one_commit :
    (d : Decoders) (events : List Event) (spelled : Option (List ℕ))
    → ((t : ℕ)
        → t < (reached d events).next_commit
        → (reached d events).commit_cells t ≡ pending
        → start_commit spelled (reached d events)
          ≡ (reached d events, err (protocol commit_in_flight)))
      × (((t : ℕ)
            → t < (reached d events).next_commit
            → (reached d events).commit_cells t ≢ pending)
          → (start_commit spelled (reached d events)).0.next_commit
            ≡ (reached d events).next_commit + 1)
unfolding start_commit
run-one_commit d events spelled =
    claim_slot-one (reached d events).commit_waiter spelled (reached d events) refl
      (reached-IsSession d events)
