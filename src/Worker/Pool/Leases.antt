-- ===== src/Worker/Pool/Leases.antt =====
-- The permits and the processes of the pool, over every sequence of events.
use moe_assets_updater_next.Prelude.{
  ℕ, ◌+◌, ◌≤◌, ◌≡◌, refl, ap, ◌∙◌, Bool, true, false, List, [], ◌∷◌, arith, ltb, ◌==◌, length, max,
  Bool-cases, Option-cases, inl, inr,
}
use moe_assets_updater_next.Worker.{Worker, Wire}
use moe_assets_updater_next.Worker.Pool.{
  Lease, Pool, new_pool, spawn_worker, take_available, acquire, acquire_exclusive, kill,
  return_or_recycle_worker, pick, finish_success, kill_lease, call_lease, reap_idle_workers, Event,
  acquires, acquires_exclusive, calls, finishes, kills, reaps, apply, run,
}
use moe_assets_updater_next.Worker.Pool.Picked.{
  held, Positive, length-held, Picked, pick-Picked, length-unexpired,
}

-- A pool of `c` permits, in which at most `n` workers were made beyond them.
pub record IsPool (c n : ℕ) (p : Pool) : Type 0 where
  pub size : p.process_concurrency ≡ c
  pub nonempty : 1 ≤ c
  pub balance : p.permits + held p.leases ≡ c
  pub positive : Positive p.leases
  pub live : length p.available + length p.leases ≤ c + n

spawn_worker-IsPool :
    (starts : Bool) (m c n : ℕ) (p : Pool)
    → 1 ≤ m
    → m ≤ p.permits
    → IsPool c n p
    → length p.available + length p.leases + 1 ≤ c + n
    → IsPool c n (spawn_worker starts m p)
unfolding spawn_worker
spawn_worker-IsPool false m c n p one enough h room = h
spawn_worker-IsPool true m c n p one enough h room = record {
  size = h.size;
  nonempty = h.nonempty;
  balance = omega (arith, h.balance);
  positive = (one, h.positive);
  live = omega arith;
}

take_available-IsPool :
    (starts : Bool) (available : List Worker) (c n : ℕ) (p : Pool)
    → p.available ≡ available
    → 1 ≤ p.permits
    → IsPool c n p
    → IsPool c n (take_available starts available p)
unfolding take_available
take_available-IsPool starts [] c n p e enough h =
    spawn_worker-IsPool starts 1 c n p (omega arith) enough h
      (omega (arith, h.balance, ap length e, length-held p.leases h.positive))
take_available-IsPool starts (w ∷ available) c n p e enough h = record {
  size = h.size;
  nonempty = h.nonempty;
  balance = omega (arith, h.balance);
  positive = (omega arith, h.positive);
  live = omega (arith, h.live, ap length e);
}

acquire-IsPool : (starts : Bool) (c n : ℕ) (p : Pool) → IsPool c n p → IsPool c n (acquire starts p)
unfolding acquire
acquire-IsPool starts c n p h = elim (Bool-cases (ltb p.permits 1)) [
  | inl none_left ↦ rw none_left h
  | inr some_left ↦
      rw some_left (take_available-IsPool starts p.available c n p refl (ground arith) h)
]

-- A pool may always be thought to have one more worker beyond its permits.
weaken : {c n : ℕ} {p : Pool} → IsPool c n p → IsPool c (n + 1) p
weaken h = record {
  size = h.size;
  nonempty = h.nonempty;
  balance = h.balance;
  positive = h.positive;
  live = omega (arith, h.live);
}

acquire_exclusive-IsPool :
    (starts : Bool) (c n : ℕ) (p : Pool)
    → IsPool c n p
    → IsPool c (n + 1) (acquire_exclusive starts p)
unfolding acquire_exclusive
acquire_exclusive-IsPool starts c n p h = elim (Bool-cases (ltb p.permits p.process_concurrency)) [
  | inl busy ↦ rw busy (weaken h)
  | inr idle ↦ rw idle (
      spawn_worker-IsPool starts p.process_concurrency c (n + 1) p
        (omega (arith, h.size, h.nonempty)) (ground arith) (weaken h) (omega (arith, h.live)))
]

-- A lease that ends gives back its permits, and at most its worker.
release-IsPool :
    (c n : ℕ) (p q : Pool) {l : Lease} {rest : List Lease}
    → Picked p.leases l rest
    → IsPool c n p
    → q.process_concurrency ≡ p.process_concurrency
    → q.permits ≡ p.permits + l.permits
    → q.leases ≡ rest
    → length q.available ≤ length p.available + 1
    → IsPool c n q
release-IsPool c n p q k h size permits leases available = record {
  size = size ∙ h.size;
  nonempty = h.nonempty;
  balance = omega (arith, h.balance, k.split, permits, ap held leases);
  positive = rw leases (k.others h.positive);
  live = omega (arith, h.live, k.count, available, ap length leases);
}

finish_success-IsPool :
    (now i c n : ℕ) (p : Pool) → IsPool c n p → IsPool c n (finish_success now (pick i p.leases) p)
unfolding finish_success return_or_recycle_worker kill
finish_success-IsPool now i c n p h = elim (Option-cases (pick i p.leases)) [
  | inl missing ↦ rw missing h
  | inr ((l, rest), e) ↦ rw e (
      release-IsPool c n p _ (pick-Picked i p.leases l rest e) h (ground arith) (ground arith)
        (ground arith) (ground arith))
]

kill_lease-IsPool :
    (i c n : ℕ) (p : Pool) → IsPool c n p → IsPool c n (kill_lease (pick i p.leases) p)
unfolding kill_lease kill
kill_lease-IsPool i c n p h = elim (Option-cases (pick i p.leases)) [
  | inl missing ↦ rw missing h
  | inr ((l, rest), e) ↦
      rw e (release-IsPool c n p _ (pick-Picked i p.leases l rest e) h refl refl refl (omega arith))
]

call_lease-IsPool :
    {R : Type 0} (wire : Wire R) (i c n : ℕ) (p : Pool)
    → IsPool c n p
    → IsPool c n (call_lease wire (pick i p.leases) p)
unfolding call_lease
call_lease-IsPool wire i c n p h = elim (Option-cases (pick i p.leases)) [
  | inl missing ↦ rw missing h
  | inr ((l, rest), e) ↦
      let k = pick-Picked i p.leases l rest e in
      rw e (record {
        size = h.size;
        nonempty = h.nonempty;
        balance = omega (arith, h.balance, k.split);
        positive = (k.first h.positive, k.others h.positive);
        live = omega (arith, h.live, k.count);
      })
]

reap-IsPool : (now c n : ℕ) (p : Pool) → IsPool c n p → IsPool c n (reap_idle_workers now p)
unfolding reap_idle_workers
reap-IsPool now c n p h = elim (Bool-cases (p.idle_timeout == 0)) [
  | inl never ↦ rw never h
  | inr sweeps ↦ rw sweeps (record {
    size = h.size;
    nonempty = h.nonempty;
    balance = h.balance;
    positive = h.positive;
    live = omega (arith, h.live, length-unexpired now p.idle_timeout p.available);
  })
]

-- How often an exclusive lease was asked for.
abbrev pub exclusives : List Event → ℕ
exclusives [] = 0
exclusives (acquires starts ∷ events) = exclusives events
exclusives (acquires_exclusive starts ∷ events) = 1 + exclusives events
exclusives (calls wire i ∷ events) = exclusives events
exclusives (finishes now i ∷ events) = exclusives events
exclusives (kills i ∷ events) = exclusives events
exclusives (reaps now ∷ events) = exclusives events

run-IsPool :
    (events : List Event) (c n : ℕ) (p : Pool)
    → IsPool c n p
    → IsPool c (n + exclusives events) (run events p)
unfolding run apply
run-IsPool [] c n p h = let e : n + 0 ≡ n = omega arith in rw e h
run-IsPool (acquires starts ∷ events) c n p h =
    run-IsPool events c n _ (acquire-IsPool starts c n p h)
run-IsPool (acquires_exclusive starts ∷ events) c n p h =
    let e : n + (1 + exclusives events) ≡ n + 1 + exclusives events = omega arith in
    rw e (run-IsPool events c (n + 1) _ (acquire_exclusive-IsPool starts c n p h))
run-IsPool (calls wire i ∷ events) c n p h =
    run-IsPool events c n _ (call_lease-IsPool wire i c n p h)
run-IsPool (finishes now i ∷ events) c n p h =
    run-IsPool events c n _ (finish_success-IsPool now i c n p h)
run-IsPool (kills i ∷ events) c n p h = run-IsPool events c n _ (kill_lease-IsPool i c n p h)
run-IsPool (reaps now ∷ events) c n p h = run-IsPool events c n _ (reap-IsPool now c n p h)

-- Whatever happens to a new pool, the free permits and those of the leases make up the pool's size,
-- which is max(process_concurrency, 1), every lease holds a permit at least, and the workers, idle or
-- leased, number at most that size plus the exclusive leases asked for.
pub new_pool-run :
    (process_concurrency max_calls idle_timeout : ℕ) (events : List Event)
    → IsPool
        (max process_concurrency 1)
        (exclusives events)
        (run events (new_pool process_concurrency max_calls idle_timeout))
unfolding new_pool
new_pool-run process_concurrency max_calls idle_timeout events =
    let e : 0 + exclusives events ≡ exclusives events = omega arith in
    rw⁻¹ e (
      run-IsPool events (max process_concurrency 1) 0
        (new_pool process_concurrency max_calls idle_timeout)
        (record {
          size = refl;
          nonempty = omega arith;
          balance = omega arith;
          positive = tt;
          live = omega arith;
        }))
