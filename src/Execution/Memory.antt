-- ===== src/Execution/Memory.antt =====
-- `BundleMemoryLimiter` of src/core/asset_execution.rs: how many permits bound the bytes in flight, and how many
-- a bundle takes.
use moe_assets_updater_next.Prelude.{
  ℕ, ◌+◌, ◌-◌, ◌*◌, ◌/◌, ◌^◌, ◌<◌, ◌≤◌, ◌≡◌, ◌≢◌, refl, inl, inr, ◌⊎◌, Option, none, some, max, min,
  ◌==◌, if◌then◌else◌, arith, Bool-cases, dec_lt,
}

abbrev pub unit_bytes : ℕ
unit_bytes = 1024 * 1024

-- `usize::div_ceil`.
abbrev pub div_ceil : ℕ → ℕ → ℕ
div_ceil a b = (a + b - 1) / b

unfoldable pub bytes_to_units : ℕ → ℕ
bytes_to_units bytes = max (div_ceil bytes unit_bytes) 1

pub record BundleMemoryLimiter : Type 0 where
  pub semaphore : Option ℕ
  pub limit_bytes : ℕ
  pub limit_units : ℕ

-- The semaphore is the number of its permits; the cast to `u32` is exact.
unfoldable pub from_config : ℕ → BundleMemoryLimiter
unfolding bytes_to_units
from_config max_in_flight_bundle_bytes =
    if max_in_flight_bundle_bytes == 0
    then record { semaphore = none; limit_bytes = max_in_flight_bundle_bytes; limit_units = 0 }
    else (let limit_units = max (min (bytes_to_units max_in_flight_bundle_bytes) 4294967295) 1 in
        record {
          semaphore = some limit_units;
          limit_bytes = max_in_flight_bundle_bytes;
          limit_units = limit_units;
        })

abbrev units_of : Option ℕ → ℕ → ℕ → Option ℕ
units_of none estimated_bytes limit_units = none
units_of (some permits) estimated_bytes limit_units =
    some (max (min (bytes_to_units estimated_bytes) limit_units) 1)

-- `acquire`: the permits that are asked for, if there is a semaphore.
unfoldable pub acquire_units : BundleMemoryLimiter → ℕ → Option ℕ
unfolding bytes_to_units
acquire_units limiter estimated_bytes =
    units_of limiter.semaphore estimated_bytes limiter.limit_units

covered :
    (bytes p : ℕ)
    → 1 ≤ p
    → (bytes ≤ max (min (max (div_ceil bytes unit_bytes) 1) p) 1 * unit_bytes)
      ⊎ (max (min (max (div_ceil bytes unit_bytes) 1) p) 1 ≡ p)
covered bytes p h = elim (dec_lt p (div_ceil bytes unit_bytes)) [
  | yes more ↦ inr (omega arith)
  | no fewer ↦ inl (omega arith)
]

-- With a limit, a bundle asks for at least one permit and never for more than there are, so that every
-- request can be met; its permits cover its bytes unless they are all there are. The permits are as many
-- as cover the limit, up to 2 ^ 32 - 1.
pub acquire_units-bounds :
    (limit estimated : ℕ)
    → limit ≢ 0
    → (units permits : ℕ) × (acquire_units (from_config limit) estimated ≡ some units)
      × ((from_config limit).semaphore ≡ some permits)
      × (1 ≤ units)
      × (units ≤ permits)
      × (permits < 2 ^ 32)
      × ((estimated ≤ units * unit_bytes) ⊎ (units ≡ permits))
      × ((limit ≤ permits * unit_bytes) ⊎ (permits ≡ 2 ^ 32 - 1))
unfolding acquire_units from_config bytes_to_units
acquire_units-bounds limit estimated h = elim (Bool-cases (limit == 0)) [
  | inl none' ↦ absurd (h (ground arith))
  | inr some' ↦ rw some' (
    max
        (min (max (div_ceil estimated unit_bytes) 1)
          (max (min (max (div_ceil limit unit_bytes) 1) 4294967295) 1))
        1,
    max (min (max (div_ceil limit unit_bytes) 1) 4294967295) 1,
    refl,
    refl,
    omega arith,
    omega arith,
    omega arith,
    covered estimated (max (min (max (div_ceil limit unit_bytes) 1) 4294967295) 1) (omega arith),
    covered limit 4294967295 (omega arith),
  )
]
