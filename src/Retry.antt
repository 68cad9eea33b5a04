-- ===== src/Retry.antt =====
-- src/core/retry.rs: the attempt loop that `retry_async` and `retry_sync` share, and its delays.
pub mod Backoff
pub mod Loop
mod Examples
use moe_assets_updater_next.Prelude.{
  ℕ, zero, suc, ◌+◌, ◌-◌, ◌*◌, ◌%◌, ◌^◌, ◌≤◌, Bool, true, false, not, ◌&&◌, List, [], ◌∷◌, ◌++◌,
  ltb, if◌then◌else◌, min, max,
}

-- `RetryConfig`: a `usize` and two `u64`.
pub record RetryConfig : Type 0 where
  pub attempts : ℕ
  pub initial_backoff_ms : ℕ
  pub max_backoff_ms : ℕ

abbrev pub u64_max : ℕ
u64_max = 2 ^ 64 - 1

-- `1u64.checked_shl(n).unwrap_or(u64::MAX)`: `None` from 64 on.
unfoldable pub shl_or_max : ℕ → ℕ
shl_or_max n = if ltb n 64 then 2 ^ n else u64_max

-- `u64::saturating_mul`.
unfoldable pub saturating_mul : ℕ → ℕ → ℕ
saturating_mul a b = min (a * b) u64_max

-- `backoff_delay`, in milliseconds. The cast of the exponent to `u32` keeps its low 32 bits.
unfoldable pub backoff_delay : RetryConfig → ℕ → ℕ
unfolding shl_or_max saturating_mul
backoff_delay config attempt =
    let base = max config.initial_backoff_ms 1 in
    let limit = max config.max_backoff_ms base in
    let multiplier = shl_or_max ((attempt - 1) % 2 ^ 32) in
    min (saturating_mul base multiplier) limit

pub data Result {ℓ κ} (T : Type ℓ) (E : Type κ) : Type (ℓ ⊔ κ) where
  ok : T → Result T E
  err : E → Result T E

-- What a run of the loop leaves: the result (`unreachable` is the macro after the loop), the state
-- of the operation, and the delays slept, in order.
pub data Outcome {ℓ κ} (T : Type ℓ) (E : Type κ) : Type (ℓ ⊔ κ) where
  returned : Result T E → Outcome T E
  unreachable : Outcome T E

pub record Run {ℓ} (S T E : Type ℓ) : Type ℓ where
  pub outcome : Outcome T E
  pub state : S
  pub slept : List ℕ

module _ {ℓ} {S T E : Type ℓ} (config : RetryConfig) (op : ℕ → S → Result T E × S)
    (should_retry : E → Bool) where
  -- One round, given the rest of the loop.
  unfoldable pub attempt_once : ℕ → Bool → Result T E × S → (S → Run S T E) → Run S T E
  attempt_once attempt more (ok value, s) rest = record {
    outcome = returned (ok value);
    state = s;
    slept = [];
  }
  attempt_once attempt more (err e, s) rest =
      if more && should_retry e
      then (let r = rest s in record r { slept = backoff_delay config attempt ∷ r.slept })
      else record { outcome = returned (err e); state = s; slept = [] }

  -- `for attempt in 1..=attempts`: `left` rounds are left, and the next is number `attempt`.
  unfoldable pub retry_loop : ℕ → ℕ → S → Run S T E
  unfolding attempt_once
  retry_loop zero attempt s = record { outcome = unreachable; state = s; slept = [] }
  retry_loop (suc left) attempt s =
      attempt_once attempt (ltb 0 left) (op attempt s) (λ s'. retry_loop left (attempt + 1) s')

  unfoldable pub retry : S → Run S T E
  unfolding retry_loop
  retry s = retry_loop (max config.attempts 1) 1 s
