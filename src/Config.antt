-- ===== src/Config.antt =====
-- The tuning of the concurrency limits in src/core/config.rs. `usize` has 64 bits; the product of the
-- number of processors and the budget ratio, in floating point, is the parameter `scaled`.
pub mod Tuning
mod Examples
pub mod Overrides
pub mod References
use moe_assets_updater_next.Prelude.{
  ℕ, ◌+◌, ◌-◌, ◌*◌, ◌/◌, ◌^◌, Bool, not, ◌==◌, ltb, if◌then◌else◌, min, max,
}

abbrev pub saturating_mul : ℕ → ℕ → ℕ
saturating_mul a b = min (a * b) (2 ^ 64 - 1)

-- `ConcurrencyConfig`.
pub record Concurrency : Type 0 where
  pub auto_tune : Bool
  pub download : ℕ
  pub upload : ℕ
  pub post_process : ℕ
  pub acb : ℕ
  pub usm : ℕ
  pub hca : ℕ
  pub media_encode : ℕ
  pub audio_encode : ℕ
  pub video_encode : ℕ
  pub images : ℕ

-- The limits for at least one processor and a budget of at least one.
unfoldable pub tuned : Concurrency → ℕ → ℕ → Concurrency
tuned c cpus cpu_budget =
    let cpu_oversubscribe = max (saturating_mul cpu_budget 2) cpu_budget in
    record c {
      download = max (min c.download (max (saturating_mul cpus 4) 4)) 1;
      upload = max (min c.upload (max cpus 2)) 1;
      post_process =
          if c.post_process == 0
          then 0
          else max (min c.post_process (max (saturating_mul cpus 2) 2)) 1;
      acb = max (min c.acb cpu_oversubscribe) 1;
      usm = max (min c.usm (max cpus 2)) 1;
      hca = max (min (min c.hca (max (saturating_mul cpus 2) 2)) cpu_oversubscribe) 1;
      media_encode = max (min c.media_encode cpu_oversubscribe) 1;
      audio_encode = max (min c.audio_encode cpu_oversubscribe) 1;
      video_encode = max (min c.video_encode (max ((cpus + 3) / 4) 1)) 1;
      images = max (min c.images cpu_oversubscribe) 1;
    }

unfoldable pub effective_for_cpus_with_budget : Concurrency → ℕ → ℕ → Concurrency
unfolding tuned
effective_for_cpus_with_budget c cpus cpu_budget =
    if not c.auto_tune then c else tuned c (max cpus 1) (max cpu_budget 1)

unfoldable pub effective_budget_for_cpus : Bool → ℕ → (ℕ → ℕ) → ℕ → ℕ
effective_budget_for_cpus budget_auto reserved scaled cpus =
    if not budget_auto then max cpus 1 else max (scaled (max cpus 1) - reserved) 1

-- `effective_asset_studio_ffi_process_concurrency_for_cpus`: the configured number, whether throttling
-- is on, the budget of the processors, and the processors.
unfoldable pub effective_process_concurrency : ℕ → Bool → (ℕ → ℕ) → ℕ → ℕ
effective_process_concurrency configured throttled budget_for cpus =
    let n = max cpus 1 in
    if ltb 0 configured
    then configured
    else if throttled
    then max (min n (max (saturating_mul (budget_for n) 2) (budget_for n))) 1
    else budget_for n
