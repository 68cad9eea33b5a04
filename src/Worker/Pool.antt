-- ===== src/Worker/Pool.antt =====
-- crates/assetstudio-ffi/src/worker_pool.rs: the pool, its leases and the idle reaper. An event that has
-- to wait for the semaphore leaves the pool as it is; time is in milliseconds.
pub mod Picked
pub mod Leases
mod Examples
use moe_assets_updater_next.Prelude.{
  ℕ, zero, suc, ◌+◌, ◌-◌, ◌%◌, ◌^◌, Bool, true, false, ◌&&◌, Option, none, some, List, [], ◌∷◌,
  ◌++◌, ltb, leb, ◌==◌, if◌then◌else◌, length, max,
}
use moe_assets_updater_next.Worker.{Stats, bump, Worker, Wire, Called, call}

-- A leased worker, with the permits of the semaphore that its lease holds.
pub record Lease : Type 0 where
  pub worker : Worker
  pub permits : ℕ

-- `available` is the vector from its end on, so that `pop` and `push` are at the head.
pub record Pool : Type 0 where
  pub process_concurrency : ℕ
  pub max_calls_per_worker : ℕ
  pub idle_timeout : ℕ
  pub permits : ℕ
  pub available : List Worker
  pub leases : List Lease
  pub next_id : ℕ
  pub next_worker_id : ℕ
  pub stats : Stats

abbrev no_stats : Stats
no_stats = record {
  spawned = 0;
  recycled = 0;
  killed = 0;
  idle_reaped = 0;
  protocol_errors = 0;
  completed_calls = 0;
  max_call_ms = 0;
}

-- The pool that `shared_with_tuning` makes for a new key.
unfoldable pub new_pool : ℕ → ℕ → ℕ → Pool
new_pool process_concurrency max_calls_per_worker idle_timeout =
    let n = max process_concurrency 1 in
    record {
      process_concurrency = n;
      max_calls_per_worker = max_calls_per_worker;
      idle_timeout = idle_timeout;
      permits = n;
      available = [];
      leases = [];
      next_id = 1;
      next_worker_id = 1;
      stats = no_stats;
    }

abbrev pub lend : Worker → ℕ → Pool → Pool
lend worker n p = record p {
  permits = p.permits - n;
  leases = record { worker = worker; permits = n } ∷ p.leases;
}

-- `spawn_worker`, and a lease of `n` permits on it; a process that cannot be started gives them back.
unfoldable pub spawn_worker : Bool → ℕ → Pool → Pool
spawn_worker starts n p =
    if starts
    then lend (record { worker_id = p.next_worker_id; completed_calls = 0; idle_since = none }) n
        (record p {
          next_worker_id = bump p.next_worker_id 1;
          stats = record p.stats { spawned = bump p.stats.spawned 1 };
        })
    else p

unfoldable pub take_available : Bool → List Worker → Pool → Pool
unfolding spawn_worker
take_available starts [] p = spawn_worker starts 1 p
take_available starts (worker ∷ available) p =
    lend (record worker { idle_since = none }) 1 (record p { available = available })

unfoldable pub acquire : Bool → Pool → Pool
unfolding take_available
acquire starts p = if ltb p.permits 1 then p else take_available starts p.available p

unfoldable pub acquire_exclusive : Bool → Pool → Pool
unfolding spawn_worker
acquire_exclusive starts p =
    if ltb p.permits p.process_concurrency then p else spawn_worker starts p.process_concurrency p

-- `PooledWorker::kill` as far as the pool sees it.
unfoldable pub kill : Pool → Pool
kill p = record p { stats = record p.stats { killed = bump p.stats.killed 1 } }

unfoldable pub return_or_recycle_worker : ℕ → Worker → Pool → Pool
unfolding kill
return_or_recycle_worker now worker p =
    if ltb 0 p.max_calls_per_worker && leb p.max_calls_per_worker worker.completed_calls
    then kill (record p { stats = record p.stats { recycled = bump p.stats.recycled 1 } })
    else record p { available = record worker { idle_since = some now } ∷ p.available }

-- The lease at a position, and the others.
unfoldable pub pick : ℕ → List Lease → Option (Lease × List Lease)
pick i [] = none
pick zero (l ∷ leases) = some (l, leases)
pick (suc i) (l ∷ leases) = elim (pick i leases) [
  | none ↦ none
  | some (m, rest) ↦ some (m, l ∷ rest)
]

-- The end of a lease: its permits go back when it is dropped.
abbrev pub release : ℕ → Pool → Pool
release n p = record p { permits = p.permits + n }

unfoldable pub finish_success : ℕ → Option (Lease × List Lease) → Pool → Pool
unfolding return_or_recycle_worker
finish_success now none p = p
finish_success now (some (l, rest)) p =
    release l.permits (return_or_recycle_worker now l.worker (record p { leases = rest }))

unfoldable pub kill_lease : Option (Lease × List Lease) → Pool → Pool
unfolding kill
kill_lease none p = p
kill_lease (some (l, rest)) p = release l.permits (kill (record p { leases = rest }))

unfoldable pub call_lease : {R : Type 0} → Wire R → Option (Lease × List Lease) → Pool → Pool
unfolding call
call_lease wire none p = p
call_lease wire (some (l, rest)) p =
    let c = call wire p.next_id l.worker p.stats in
    record p {
      next_id = bump p.next_id 1;
      stats = c.stats;
      leases = record { worker = c.worker; permits = l.permits } ∷ rest;
    }

abbrev pub is_idle_expired : ℕ → ℕ → Worker → Bool
is_idle_expired now idle_timeout worker = elim worker.idle_since [
  | none ↦ false
  | some since ↦ leb idle_timeout (now - since)
]

-- The workers that stay.
unfoldable pub unexpired : ℕ → ℕ → List Worker → List Worker
unexpired now idle_timeout [] = []
unexpired now idle_timeout (worker ∷ available) =
    let rest = unexpired now idle_timeout available in
    if is_idle_expired now idle_timeout worker then rest else worker ∷ rest

unfoldable pub reap_idle_workers : ℕ → Pool → Pool
unfolding unexpired
reap_idle_workers now p =
    if p.idle_timeout == 0
    then p
    else (let left = unexpired now p.idle_timeout p.available in
        let expired = length p.available - length left in
        record p {
          available = left;
          stats = record p.stats {
            idle_reaped = bump p.stats.idle_reaped expired;
            killed = bump p.stats.killed expired;
          };
        })

pub data Event : Type 1 where
  acquires acquires_exclusive : Bool → Event
  calls : {R : Type 0} → Wire R → ℕ → Event
  finishes : ℕ → ℕ → Event
  kills : ℕ → Event
  reaps : ℕ → Event

unfoldable pub apply : Event → Pool → Pool
unfolding acquire acquire_exclusive call_lease finish_success kill_lease reap_idle_workers pick
apply (acquires starts) p = acquire starts p
apply (acquires_exclusive starts) p = acquire_exclusive starts p
apply (calls wire i) p = call_lease wire (pick i p.leases) p
apply (finishes now i) p = finish_success now (pick i p.leases) p
apply (kills i) p = kill_lease (pick i p.leases) p
apply (reaps now) p = reap_idle_workers now p

unfoldable pub run : List Event → Pool → Pool
unfolding apply
run [] p = p
run (e ∷ events) p = run events (apply e p)
