-- ===== src/Worker.antt =====
-- crates/assetstudio-ffi/src/worker_pool.rs: a worker process and one call of it (`PooledWorker`). What
-- the pipes carry is given; `R` is the type of the typed responses.
pub mod Call
pub mod Pool
use moe_assets_updater_next.Prelude.{
  ℕ, ◌+◌, ◌-◌, ◌^◌, ◌%◌, Bool, not, Option, none, some, List, [], ◌∷◌, ltb, leb, ◌==◌,
  if◌then◌else◌, length, Text, min,
}
use moe_assets_updater_next.Prelude.Int.{ℤ, pos, int_beq}

abbrev pub u64_max : ℕ
u64_max = 2 ^ 64 - 1

-- The atomic counters wrap around.
pub record Stats : Type 0 where
  pub spawned : ℕ
  pub recycled : ℕ
  pub killed : ℕ
  pub idle_reaped : ℕ
  pub protocol_errors : ℕ
  pub completed_calls : ℕ
  pub max_call_ms : ℕ

abbrev pub bump : ℕ → ℕ → ℕ
bump n by = (n + by) % 2 ^ 64

-- The loop of `record_atomic_max`, when no other task writes in between.
unfoldable pub record_atomic_max : ℕ → ℕ → ℕ
record_atomic_max current value = if ltb current value then value else current

unfoldable pub record_call : ℕ → Stats → Stats
unfolding record_atomic_max
record_call elapsed_ms s = record s {
  completed_calls = bump s.completed_calls 1;
  max_call_ms = record_atomic_max s.max_call_ms elapsed_ms;
}

pub record Worker : Type 0 where
  pub worker_id : ℕ
  pub completed_calls : ℕ
  pub idle_since : Option ℕ

pub record Response (R : Type 0) : Type 0 where
  pub id : ℕ
  pub status : Option ℤ
  pub response : Option R
  pub payload_len : ℕ
  pub payload_file : Option Text
  pub error : Option Text

pub data CallError : Type 0 where
  command_failed unparsable missing_response io : CallError
  id_mismatch : ℕ → ℕ → CallError
  reported : Text → CallError
  file_length_mismatch length_mismatch : ℕ → ℕ → CallError

pub record Output (R : Type 0) : Type 0 where
  pub status : ℤ
  pub status_success : Bool
  pub response : R
  pub payload : List ℕ
  pub payload_file : Option Text

pub data Result {ℓ} (A : Type ℓ) : Type ℓ where
  ok : A → Result A
  err : CallError → Result A

-- What the pipes and the file system do during one call: whether the request is taken, the frame of
-- the response and what it parses to, the length of a payload file, and the payload frame.
pub record Wire (R : Type 0) : Type 0 where
  pub written : Bool
  pub frame : Option (Option (Response R))
  pub file_len : Text → Option ℕ
  pub payload_frame : Option (List ℕ)
  pub elapsed_ms : ℕ

-- What a call returns, with the worker and the counters after it.
pub record Called (R : Type 0) : Type 0 where
  pub worker : Worker
  pub stats : Stats
  pub result : Result (Output R)

abbrev status_or : Option ℤ → ℤ
status_or none = pos 100
status_or (some status) = status

module _ {R : Type 0} where
  abbrev pub fails : Worker → Stats → CallError → Called R
  fails w s e = record { worker = w; stats = s; result = err e }

  -- `protocol_error`.
  unfoldable pub protocol_error : Worker → Stats → Called R
  protocol_error w s =
      fails w (record s { protocol_errors = bump s.protocol_errors 1 }) command_failed

  -- The end of a call whose payload is there.
  unfoldable pub complete : ℕ → Response R → R → List ℕ → Worker → Stats → Called R
  unfolding record_call
  complete elapsed_ms r typed payload w s = record {
    worker = record w { completed_calls = min (w.completed_calls + 1) u64_max };
    stats = record_call elapsed_ms s;
    result = ok (record {
      status = status_or r.status;
      status_success = int_beq (status_or r.status) (pos 0);
      response = typed;
      payload = payload;
      payload_file = r.payload_file;
    });
  }

  -- A payload in a file, whose length must be the announced one.
  unfoldable pub check_file : ℕ → Response R → R → Option ℕ → Worker → Stats → Called R
  unfolding complete
  check_file elapsed_ms r typed none w s = fails w s io
  check_file elapsed_ms r typed (some found) w s =
      if not (found == r.payload_len)
      then fails w s (file_length_mismatch r.payload_len found)
      else complete elapsed_ms r typed [] w s

  -- A payload in a frame of its own.
  unfoldable pub check_frame : ℕ → Response R → R → Option (List ℕ) → Worker → Stats → Called R
  unfolding complete protocol_error
  check_frame elapsed_ms r typed none w s = protocol_error w s
  check_frame elapsed_ms r typed (some payload) w s =
      if not (length payload == r.payload_len)
      then fails w s (length_mismatch r.payload_len (length payload))
      else complete elapsed_ms r typed payload w s

  unfoldable pub read_payload : Wire R → Response R → R → Option Text → Worker → Stats → Called R
  unfolding check_file check_frame complete
  read_payload wire r typed (some file) w s =
      check_file wire.elapsed_ms r typed (wire.file_len file) w s
  read_payload wire r typed none w s =
      if ltb 0 r.payload_len
      then check_frame wire.elapsed_ms r typed wire.payload_frame w s
      else complete wire.elapsed_ms r typed [] w s

  abbrev pub with_response : Wire R → Response R → Option R → Worker → Stats → Called R
  with_response wire r none w s = fails w s missing_response
  with_response wire r (some typed) w s = read_payload wire r typed r.payload_file w s

  abbrev pub with_error : Wire R → Response R → Option Text → Worker → Stats → Called R
  with_error wire r (some message) w s = fails w s (reported message)
  with_error wire r none w s = with_response wire r r.response w s

  unfoldable pub read_response :
      Wire R → ℕ → Option (Option (Response R)) → Worker → Stats → Called R
  unfolding protocol_error read_payload
  read_response wire id none w s = protocol_error w s
  read_response wire id (some none) w s = fails w s unparsable
  read_response wire id (some (some r)) w s =
      if not (r.id == id) then fails w s (id_mismatch id r.id) else with_error wire r r.error w s

  unfoldable pub call : Wire R → ℕ → Worker → Stats → Called R
  unfolding read_response protocol_error
  call wire id w s =
      if not wire.written then protocol_error w s else read_response wire id wire.frame w s
