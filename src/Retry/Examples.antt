-- ===== src/Retry/Examples.antt =====
-- Concrete runs of the attempt loop, as in the tests of src/core/retry.rs.
use moe_assets_updater_next.Prelude.{
  ℕ, ◌+◌, ◌≡◌, refl, Bool, true, false, [], ◌∷◌, ltb, if◌then◌else◌, max,
}
use moe_assets_updater_next.Retry.{
  RetryConfig, u64_max, backoff_delay, Result, ok, err, returned, retry,
}
use moe_assets_updater_next.Retry.Loop.{Ended, retry-Ended}

abbrev quick : RetryConfig
quick = record { attempts = 3; initial_backoff_ms = 100; max_backoff_ms = 150 }

-- Fails twice, then succeeds; the state counts the failures.
abbrev third_time : ℕ → ℕ → Result ℕ ℕ × ℕ
third_time attempt s = if ltb s 2 then (err attempt, s + 1) else (ok attempt, s)

abbrev always : ℕ → Bool
always e = true

abbrev never : ℕ → Bool
never e = false

retries_until_success :
    retry quick third_time always 0
    ≡ record { outcome = returned (ok 3); state = 2; slept = 100 ∷ 150 ∷ [] }
unfolding retry backoff_delay
retries_until_success = refl

stops_on_non_retryable :
    retry quick third_time never 0 ≡ record { outcome = returned (err 1); state = 1; slept = [] }
unfolding retry
stops_on_non_retryable = refl

zero_attempts :
    retry (record quick { attempts = 0 }) third_time always 0
    ≡ record { outcome = returned (err 1); state = 1; slept = [] }
unfolding retry
zero_attempts = refl

shift_overflow :
    backoff_delay (record { attempts = 99; initial_backoff_ms = 3; max_backoff_ms = u64_max }) 70
    ≡ u64_max
unfolding backoff_delay
shift_overflow = refl

retry-Ended_example : Ended quick third_time always (max 3 1) 1 0 (retry quick third_time always 0)
retry-Ended_example = retry-Ended quick third_time always 0
