-- ===== src/Worker/Pool/Picked.antt =====
-- The leases of the pool as a list: their permits, and what picking one leaves.
use moe_assets_updater_next.Prelude.{
  ℕ, zero, suc, ◌+◌, ◌≤◌, ◌≡◌, refl, some, List, [], ◌∷◌, arith, length, All, Option-cases, inl,
  inr,
}
use moe_assets_updater_next.Worker.{Worker}
use moe_assets_updater_next.Worker.Pool.{Lease, pick, unexpired}

-- The permits that the leases hold.
abbrev pub held : List Lease → ℕ
held [] = 0
held (l ∷ leases) = l.permits + held leases

abbrev pub Positive : List Lease → Type 0
Positive leases = All (λ l. 1 ≤ l.permits) leases

pub length-held : (leases : List Lease) → Positive leases → length leases ≤ held leases
length-held [] h = omega arith
length-held (l ∷ leases) h = omega (arith, h.0, length-held leases h.1)

-- Picking a lease splits the leases.
pub record Picked (leases : List Lease) (l : Lease) (rest : List Lease) : Type 0 where
  pub split : held leases ≡ l.permits + held rest
  pub count : length leases ≡ length rest + 1
  pub first : Positive leases → 1 ≤ l.permits
  pub others : Positive leases → Positive rest

Picked-first : (m : Lease) (leases : List Lease) → Picked (m ∷ leases) m leases
Picked-first m leases = record {
  split = refl;
  count = omega arith;
  first = λ h. h.0;
  others = λ h. h.1;
}

Picked-later :
    (m l : Lease) (leases rest : List Lease)
    → Picked leases l rest
    → Picked (m ∷ leases) l (m ∷ rest)
Picked-later m l leases rest h = record {
  split = omega (arith, h.split);
  count = omega (arith, h.count);
  first = λ q. h.first q.1;
  others = λ q. (q.0, h.others q.1);
}

pub pick-Picked :
    (i : ℕ) (leases : List Lease) (l : Lease) (rest : List Lease)
    → pick i leases ≡ some (l, rest)
    → Picked leases l rest
unfolding pick
pick-Picked i [] l rest e = absurd cc
pick-Picked zero (m ∷ leases) l rest e =
    let first : m ≡ l = cc in
    let others : leases ≡ rest = cc in rw⁻¹ (first, others) (Picked-first m leases)
pick-Picked (suc i) (m ∷ leases) l rest e = elim (Option-cases (pick i leases)) [
  | inl missing ↦ absurd (ground arith)
  | inr ((k, others), f) ↦
      let same : k ≡ l = ground arith in
      let tail : m ∷ others ≡ rest = ground arith in
      rw⁻¹ (same, tail) (Picked-later m k leases others (pick-Picked i leases k others f))
]

pub length-unexpired :
    (now idle_timeout : ℕ) (available : List Worker)
    → length (unexpired now idle_timeout available) ≤ length available
unfolding unexpired
length-unexpired now idle_timeout [] = omega arith
length-unexpired now idle_timeout (w ∷ available) =
    ground (arith, length-unexpired now idle_timeout available)
