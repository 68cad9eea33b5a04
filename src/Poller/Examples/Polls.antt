-- ===== src/Poller/Examples/Polls.antt =====
-- Whole polls at concrete inputs.
use moe_assets_updater_next.Prelude.{
  ℕ, ◌≡◌, refl, ◌⊎◌, true, false, none, some, [], ◌∷◌, codes, length, text_eq, text_beq, lookup,
  insert, contains, leb, join_next,
}
use moe_assets_updater_next.Snapshot
use moe_assets_updater_next.Prelude.Int.{pos}
use moe_assets_updater_next.Snapshot.{
  AssetBundleInfo, bundles_of, diff, changed_bundle, merge, merge_base, insert_all,
}
use moe_assets_updater_next.Snapshot.Disk.{
  Disk, Faults, load_snapshot, save_snapshot, write_and_rename, save_merged, merge_snapshot,
}
use moe_assets_updater_next.Poller.Artefacts.{
  jobs_of, existing_files, collect, report, upload_bundle_artefacts,
}
use moe_assets_updater_next.Poller.Transfers.{join_loop, upload_hip_files_concurrently}
use moe_assets_updater_next.Poller.Uploader.{
  commit_batch, flush_batch, receive, finish_run, receive_all, run_uploader,
}
use moe_assets_updater_next.Poller.Snapshots.{
  carry_forward, carry_loop, build_next_snapshot, persist_processed_snapshot,
}
use moe_assets_updater_next.Poller.Watermarks.{set, write_atomic}
use moe_assets_updater_next.Poller.Cleanup.{remove_region_work_dir_after_success}
use moe_assets_updater_next.Poller.Attempt.{
  CurrentVersionInfo, State, World, handle_uploader_result, Env, conclude, upload_all, with_old,
  execute_once_attempt, retry_from, retry_region_in_place, Tick,
}
use moe_assets_updater_next.Poller.Attempt.Watermark.{Unmoved, Moved, execute_once_attempt-Moved}
use moe_assets_updater_next.Poller.Attempt.Retries.{Tries, retry_region_in_place-Tries}
use moe_assets_updater_next.Poller.Examples.{
  bundle, two_bundles, no_faults, good_luck, one_by_one, detail, new_info, old_info, empty_store,
  no_write_faults, packed, unpacked, files,
}

abbrev env : Env AssetBundleInfo
env = record {
  pack = λ i. some i;
  unpack = λ i. some i;
  pack_regions = packed;
  unpack_regions = unpacked;
  to_str = λ n. some n;
  trim = λ t. t;
  settings = one_by_one;
  hip_enabled = true;
  region = codes "jp";
  cleanup = none;
}

abbrev current : CurrentVersionInfo
current = record {
  app_version = none;
  asset_version = some (codes "2");
  asset_hash = some (codes "h");
}

abbrev state : State AssetBundleInfo
state = record {
  disk = record { target = some old_info; tmp = none };
  watermarks = empty_store;
  commits = [];
}

abbrev world : World AssetBundleInfo
world = record {
  new_info = some new_info;
  load_faults = no_faults;
  check_connects = true;
  executor_starts = true;
  artefacts = two_bundles;
  bytes_of = λ b. 7;
  luck = good_luck;
  uploader_panics = false;
  skipped = (codes "c", codes "h") ∷ [];
  discovered = some 3;
  save_faults = no_faults;
  file_system = files;
  watermark_faults = no_write_faults;
  now = 4;
}

execute_once_attempt-Moved_example :
    Unmoved env state (execute_once_attempt env current world state)
    ⊎ Moved env current world state (execute_once_attempt env current world state).0
execute_once_attempt-Moved_example = execute_once_attempt-Moved env current world state

-- The first two attempts fail, for want of the gateway.
abbrev shaky : ℕ → World AssetBundleInfo
shaky n = record world { check_connects = leb 3 n }

third_time :
    (retry_region_in_place env current shaky (λ n. false) (λ n. false) state).slept ≡ 5 ∷ 10 ∷ []
unfolding retry_region_in_place retry_from execute_once_attempt load_snapshot with_old conclude
    upload_all set write_atomic remove_region_work_dir_after_success run_uploader receive_all
    handle_uploader_result receive finish_run flush_batch commit_batch upload_bundle_artefacts
    upload_hip_files_concurrently join_loop join_next collect jobs_of existing_files report
third_time = refl

retry_region_in_place-Tries_example :
    Tries env current shaky
      (λ n. false)
      (λ n. false)
      1
      state
      (retry_region_in_place env current shaky (λ n. false) (λ n. false) state)
retry_region_in_place-Tries_example =
    retry_region_in_place-Tries env current shaky (λ n. false) (λ n. false) state

abbrev tick : Tick env
tick = record {
  region_known = true;
  client_builds = true;
  current = some current;
  file_system = files;
  permit = some true;
  world = shaky;
  cancelled = λ n. false;
  interrupted = λ n. false;
}

-- The second commit fails, after the first was acknowledged and merged into the file.
abbrev failing : World AssetBundleInfo
failing = record world { luck = λ n. record (good_luck n) { commits = leb n 1 } }

-- The file is saved again without the bundle `b` that a commit of this attempt acknowledged.
abbrev late_bundles : World AssetBundleInfo
late_bundles = record failing { artefacts = bundle (codes "b") [] ∷ bundle (codes "d") [] ∷ [] }

forgets_merged_bundles :
    (length (execute_once_attempt env current late_bundles state).0.commits ≡ 1)
    × ((execute_once_attempt env current late_bundles state).0.disk.target
        ≡ some (record new_info { bundles = (codes "a", detail (pos 1)) ∷ [] }))
unfolding execute_once_attempt load_snapshot with_old conclude upload_all persist_processed_snapshot
    build_next_snapshot carry_loop carry_forward save_snapshot write_and_rename contains insert
    lookup text_beq set write_atomic remove_region_work_dir_after_success run_uploader receive_all
    handle_uploader_result receive finish_run flush_batch commit_batch upload_bundle_artefacts
    upload_hip_files_concurrently join_loop join_next collect jobs_of existing_files report
forgets_merged_bundles = (refl, refl)
