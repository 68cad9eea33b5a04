-- ===== src/Worker/Pool/Examples.antt =====
-- A pool of one worker, with exclusive leases one after the other; and one call.
use moe_assets_updater_next.Prelude.{ℕ, ◌≡◌, refl, true, none, some, List, [], ◌∷◌, length}
use moe_assets_updater_next.Prelude.Int.{pos}
use moe_assets_updater_next.Worker.{
  Worker, Stats, Output, Wire, call, read_response, read_payload, check_frame, complete,
}
use moe_assets_updater_next.Worker.Call.{Answered, call-Answered}
use moe_assets_updater_next.Worker.Pool.{
  new_pool, spawn_worker, acquire_exclusive, return_or_recycle_worker, finish_success, pick, Event,
  acquires_exclusive, finishes, apply, run,
}
use moe_assets_updater_next.Worker.Pool.Leases.{IsPool, new_pool-run}

abbrev twice : List Event
twice = acquires_exclusive true ∷ finishes 5 0 ∷ acquires_exclusive true ∷ finishes 6 0 ∷ []

new_pool-run_example : IsPool 1 2 (run twice (new_pool 1 0 0))
new_pool-run_example = new_pool-run 1 0 0 twice

-- Two processes are left of a pool of size one.
exclusive_spawns : length (run twice (new_pool 1 0 0)).available ≡ 2
unfolding run apply acquire_exclusive spawn_worker finish_success return_or_recycle_worker pick
    new_pool
exclusive_spawns = refl

abbrev worker : Worker
worker = record { worker_id = 1; completed_calls = 3; idle_since = none }

abbrev stats : Stats
stats = record {
  spawned = 1;
  recycled = 0;
  killed = 0;
  idle_reaped = 0;
  protocol_errors = 0;
  completed_calls = 3;
  max_call_ms = 9;
}

abbrev wire : Wire ℕ
wire = record {
  written = true;
  frame = some (
      some (record {
        id = 4;
        status = some (pos 0);
        response = some 8;
        payload_len = 2;
        payload_file = none;
        error = none;
      }));
  file_len = λ file. none;
  payload_frame = some (1 ∷ 2 ∷ []);
  elapsed_ms = 12;
}

abbrev output : Output ℕ
output = record {
  status = pos 0;
  status_success = true;
  response = 8;
  payload = 1 ∷ 2 ∷ [];
  payload_file = none;
}

call-Answered_example : Answered wire 4 worker stats (call wire 4 worker stats) output
unfolding call read_response read_payload check_frame complete
call-Answered_example = call-Answered wire 4 worker stats refl
