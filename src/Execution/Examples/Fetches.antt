-- ===== src/Execution/Examples/Fetches.antt =====
-- Headers, permits and the bundles of the 3D exporter at concrete inputs.
use moe_assets_updater_next.Prelude.{
  ℕ, ◌*◌, ◌-◌, ◌^◌, ◌<◌, ◌≤◌, ◌≡◌, ◌≢◌, ◌⊎◌, refl, true, some, [], ◌∷◌, codes, Text, text_eq,
  text_beq, text_leb, Map, lookup, All, In, arith, replicate, drop, sort_by, ordered_insert,
}
use moe_assets_updater_next.Prelude.Int.{pos}
use moe_assets_updater_next.Snapshot.{start_app}
use moe_assets_updater_next.Execution.{DownloadTask}
use moe_assets_updater_next.Regions.{compile_patterns, matches_any}
use moe_assets_updater_next.Execution.Plan.{
  is_empty, hash_of, is_downloaded, download_path_for_region, build_download_tasks,
}
use moe_assets_updater_next.Execution.Obfuscation.{deobfuscate, begins_with, xor_loop}
use moe_assets_updater_next.Execution.Memory.{
  from_config, acquire_units, unit_bytes, acquire_units-bounds,
}
use moe_assets_updater_next.Execution.Prefetch.{
  BundlePatterns, matches_haruki_3d_filters, haruki_3d_task_of, is_exported, haruki_3d_loop,
  build_haruki_3d_tasks,
}
use moe_assets_updater_next.Execution.Prefetch.Chosen.{build_haruki_3d_tasks-Apart}
use moe_assets_updater_next.Execution.Examples.Runs.{
  prefixes, palette, filters, bundles, bundles_IsMap,
}

-- A masked bundle of 130 bytes: the last eight of its first 128, and the two that are not
-- masked.
masked :
    drop 120 (deobfuscate (0x10 ∷ 0 ∷ 0 ∷ 0 ∷ replicate 130 1))
    ≡ 0xfe ∷ 0xfe ∷ 0xfe ∷ 0xfe ∷ 0xfe ∷ 1 ∷ 1 ∷ 1 ∷ 1 ∷ 1 ∷ []
unfolding deobfuscate begins_with xor_loop
masked = refl

acquire_units-bounds_example :
    (units permits : ℕ) × (acquire_units (from_config 5000000) 20000000 ≡ some units)
    × ((from_config 5000000).semaphore ≡ some permits)
    × (1 ≤ units)
    × (units ≤ permits)
    × (permits < 2 ^ 32)
    × ((20000000 ≤ units * unit_bytes) ⊎ (units ≡ permits))
    × ((5000000 ≤ permits * unit_bytes) ⊎ (permits ≡ 2 ^ 32 - 1))
acquire_units-bounds_example = acquire_units-bounds 5000000 20000000 (omega arith)

abbrev patterns : BundlePatterns
patterns = record { enabled = true; include = codes "live" ∷ []; exclude = codes "live/x" ∷ [] }

abbrev held : Map Text Text
held =
    (codes "live/b", codes "h") ∷ (codes "live/a", codes "old") ∷ (codes "live/x", codes "h") ∷ []

abbrev live_b : DownloadTask
live_b = record {
  download_path = codes "live/b";
  bundle_path = codes "live/b";
  bundle_hash = codes "h";
  category = start_app;
  file_size = pos 3;
  priority = 18446744073709551615;
}

gives_live_b : build_haruki_3d_tasks prefixes palette patterns bundles held ≡ live_b ∷ []
unfolding build_haruki_3d_tasks haruki_3d_loop is_exported haruki_3d_task_of
    matches_haruki_3d_filters compile_patterns matches_any is_empty is_downloaded lookup text_beq
    hash_of download_path_for_region sort_by ordered_insert text_leb
gives_live_b = refl

live_b_given : In live_b (build_haruki_3d_tasks prefixes palette patterns bundles held)
live_b_given = rw gives_live_b (0, refl)

build_haruki_3d_tasks-Apart_example :
    (matches_haruki_3d_filters prefixes patterns (codes "live/b") ≡ true)
    × (lookup (codes "live/b") held ≡ some (codes "h"))
    × All
        (λ (u : DownloadTask). codes "live/b" ≢ u.bundle_path)
        (build_download_tasks prefixes palette filters bundles held)
build_haruki_3d_tasks-Apart_example =
    build_haruki_3d_tasks-Apart prefixes palette filters patterns held bundles live_b bundles_IsMap
      live_b_given
