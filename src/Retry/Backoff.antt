-- ===== src/Retry/Backoff.antt =====
-- The delay in closed form.
use native.Mathlib.Nat.{pow-le-pow_right, mul-le-mul}
use moe_assets_updater_next.Prelude.{
  ℕ, ◌-◌, ◌*◌, ◌%◌, ◌^◌, ◌≤◌, ◌≡◌, arith, min, max, ltb, Bool-cases, inl, inr,
}
use moe_assets_updater_next.Retry.{RetryConfig, u64_max, shl_or_max, saturating_mul, backoff_delay}

large_product : (base n : ℕ) → 1 ≤ base → 64 ≤ n → 2 ^ 64 ≤ base * 2 ^ n
large_product base n hb hn =
    let high : 2 ^ 64 ≤ 2 ^ n = pow-le-pow_right (omega arith) hn in
    omega (arith, mul-le-mul hb high)

-- Below the largest u64, neither the checked shift nor the saturating product can be seen.
capped_product :
    (base limit n : ℕ)
    → 1 ≤ base
    → limit ≤ u64_max
    → min (saturating_mul base (shl_or_max n)) limit ≡ min (base * 2 ^ n) limit
unfolding saturating_mul shl_or_max
capped_product base limit n hb hl = elim (Bool-cases (ltb n 64)) [
  | inl small ↦ rw small (omega arith)
  | inr large ↦
      let far : 64 ≤ n = ground arith in
      let wide : u64_max ≤ base * u64_max = omega arith in
      rw large (omega (arith, large_product base n hb far))
]

-- Both limits of the configuration are `u64`.
abbrev pub IsConfig : RetryConfig → Type 0
IsConfig config = (config.initial_backoff_ms ≤ u64_max) × (config.max_backoff_ms ≤ u64_max)

abbrev pub base_of : RetryConfig → ℕ
base_of config = max config.initial_backoff_ms 1

abbrev pub limit_of : RetryConfig → ℕ
limit_of config = max config.max_backoff_ms (base_of config)

-- For every attempt from 1 up to 2 ^ 32, with both limits of the configuration in u64, the delay
-- is exactly the base times 2 ^ (attempt - 1), capped at the limit: the saturating arithmetic never
-- shows.
pub backoff_delay_exact :
    (config : RetryConfig) (attempt : ℕ)
    → IsConfig config
    → 1 ≤ attempt
    → attempt ≤ 2 ^ 32
    → backoff_delay config attempt ≡ min (base_of config * 2 ^ (attempt - 1)) (limit_of config)
unfolding backoff_delay
backoff_delay_exact config attempt h lo hi =
    let whole : (attempt - 1) % 2 ^ 32 ≡ attempt - 1 = omega arith in
    rw whole
      (capped_product (base_of config) (limit_of config) (attempt - 1) (omega arith) (omega arith))

-- Up to attempt 2 ^ 32 the delays are at least a millisecond, never fall from one attempt to a later
-- one, and never pass the limit, with both limits of the configuration in u64.
pub backoff_delay_monotone :
    (config : RetryConfig) (attempt later : ℕ)
    → IsConfig config
    → 1 ≤ attempt
    → attempt ≤ later
    → later ≤ 2 ^ 32
    → (1 ≤ backoff_delay config attempt)
      × (backoff_delay config attempt ≤ backoff_delay config later)
      × (backoff_delay config later ≤ limit_of config)
backoff_delay_monotone config attempt later h lo le hi =
    let power : 2 ^ (attempt - 1) ≤ 2 ^ (later - 1) =
      pow-le-pow_right (omega arith) (omega arith) in
    let one : 1 ≤ 2 ^ (attempt - 1) =
      pow-le-pow_right {n = 2} (omega arith) {i = 0} (omega arith) in
    let base = base_of config in
    let positive : 1 ≤ base = omega arith in
    rw
      (
        backoff_delay_exact config attempt h lo (omega arith),
        backoff_delay_exact config later h (omega arith) hi,
      )
      (omega (
        arith,
        mul-le-mul {n₁ = 1} {n₂ = base} positive one,
        mul-le-mul {n₁ = base} {n₂ = base} (omega arith) power,
      ))
