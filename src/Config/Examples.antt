-- ===== src/Config/Examples.antt =====
-- The default limits on four processors, and a throttled machine.
use moe_assets_updater_next.Prelude.{ℕ, ◌≡◌, refl, true}
use moe_assets_updater_next.Config.{
  Concurrency, tuned, effective_for_cpus_with_budget, effective_budget_for_cpus,
  effective_process_concurrency,
}
use moe_assets_updater_next.Config.Tuning.{Within, effective-Within}

abbrev configured : Concurrency
configured = record {
  auto_tune = true;
  download = 64;
  upload = 3;
  post_process = 0;
  acb = 16;
  usm = 4;
  hca = 16;
  media_encode = 16;
  audio_encode = 16;
  video_encode = 4;
  images = 0;
}

effective-Within_example : Within configured (effective_for_cpus_with_budget configured 4 4)
effective-Within_example = effective-Within configured 4 4 refl

on_four : (effective_for_cpus_with_budget configured 4 4).download ≡ 16
unfolding effective_for_cpus_with_budget tuned
on_four = refl

abbrev none_configured : ℕ
none_configured = 0

abbrev processes : ℕ
processes = effective_process_concurrency 0 true (effective_budget_for_cpus true 1 (λ n. n)) 4
