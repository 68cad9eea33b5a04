-- ===== src/Poller/Examples.antt =====
-- One region with two bundles, at concrete inputs.
mod Polls
use moe_assets_updater_next.Prelude.{
  ℕ, suc, ◌+◌, ◌≡◌, refl, Bool, true, false, not, Option, none, some, List, [], ◌∷◌, ◌++◌, map,
  arith, codes, length, Text, text_eq, text_beq, Map, lookup, insert, remove, contains, add, extend,
  All, ◌==◌, ◌=?◌, if◌then◌else◌, join_next,
}
use moe_assets_updater_next.Prelude.Int.{ℤ, pos, negsuc}
use moe_assets_updater_next.Hip.Codec.{
  Placement, shared, override, CheckAction, CheckAckItem, CheckBatchItem,
}
use moe_assets_updater_next.Hip.Codec
use moe_assets_updater_next.Snapshot.{
  AssetBundleDetail, AssetBundleInfo, start_app, ChangedBundle, changed_bundle, diff, bundles_of,
}
use moe_assets_updater_next.Snapshot.Disk.{Disk, Faults}
use moe_assets_updater_next.Poller.{
  ok, err, hip, BundleArtefacts, CommitBundleCompletion, zero_file, uploaded, check_skip, Commit,
}
use moe_assets_updater_next.Poller.Transfers.{
  HipUploadFileJob, upload_hip_files_concurrently, join_loop,
}
use moe_assets_updater_next.Poller.Transfers.Complete.{
  Succeeds, weigh, weigh_jobs, upload_hip_files_concurrently-Complete,
}
use moe_assets_updater_next.Poller.Artefacts.{collect, report, existing_files, nothing_collected}
use moe_assets_updater_next.Poller.Artefacts.Completions.{Distinct, completion_of, report-collect}
use moe_assets_updater_next.Poller.Uploader.{Luck, Settings, run_uploader}
use moe_assets_updater_next.Poller.Uploader.Delivered.{Flushed}
use moe_assets_updater_next.Poller.Uploader.Runs.{run_uploader-Flushed}
use moe_assets_updater_next.Poller.Snapshots.{build_next_snapshot}
use moe_assets_updater_next.Poller.Snapshots.Next.{select_unprocessed, diff-build_next_snapshot}
use moe_assets_updater_next.Poller.Watermarks.{
  RegionWatermark, WatermarkStore, WatermarkError, WriteFaults, Regions, get, set, open_store,
  open-set,
}
use moe_assets_updater_next.Poller.Watermarks
use moe_assets_updater_next.Poller.Cleanup.{
  file_gone, CanonicalPath, Canonical, found, missing, failed, FileSystem, RegionCleanup,
  remove_region_work_dir_after_success, RemoveDir, gone, not_empty, prune_empty_parent_dirs, climb,
  path_starts_with, check_name, check_cwd, check_dir, check_canonical, contains_text,
  ascii_lowercase, resolve_region_cleanup_dir, remove_resolved, remove_save_dir,
}
use moe_assets_updater_next.Poller.Cleanup.Guards.{
  Guarded, Between, remove_region_work_dir-Guarded, prune_empty_parent_dirs-Between,
}
use moe_assets_updater_next.Execution.{DownloadTask}
use moe_assets_updater_next.Poller.Filters.{
  Filtered, combined_filter, hip_filter, check_chunks, decide_chunk, decide, collect_decisions,
  check_items,
}
use moe_assets_updater_next.Poller.Filters.Partition.{
  Checked, Answers, combined_filter-Checked, combined_filter_ok,
}

abbrev pub bundle : Text → List Text → BundleArtefacts
bundle path files = record {
  bundle_path = path;
  bundle_hash = codes "h";
  export_root = codes "/e";
  files = files;
}

abbrev pub two_bundles : List BundleArtefacts
two_bundles = bundle (codes "a") (codes "/e/1" ∷ codes "/e/2" ∷ []) ∷ bundle (codes "b") [] ∷ []

abbrev pub no_faults : {Bytes : Type 0} → Faults Bytes
no_faults = record {
  mkdir_fails = false;
  read_fails = false;
  write_fails = false;
  left_by_write = none;
  rename_fails = false;
  remove_fails = false;
}

abbrev pub good_luck : {Bytes : Type 0} → ℕ → Luck Bytes
good_luck n = record {
  connects = true;
  is_file = λ f. true;
  upload = λ job. some (some shared);
  schedule = λ i. i;
  max_in_flight = 4;
  commits = true;
  faults = no_faults;
  remove_file = λ f. file_gone;
  prune = λ f r. record { removed = []; fails = false };
  skipped = record { layer1 = 0; check = 1; bundles = (codes "c", codes "h") ∷ [] };
}

abbrev pub one_by_one : Settings
one_by_one = record { commit_batch_bundles = 1; commit_batch_bytes = 0; remove_local = false }

abbrev pub detail : ℤ → AssetBundleDetail
detail crc = record {
  bundle_name = [];
  cache_file_name = [];
  cache_directory_name = [];
  hash = [];
  category = start_app;
  crc = crc;
  file_size = pos 5;
  dependencies = [];
  paths = [];
  is_builtin = false;
  is_relocate = none;
  md5_hash = none;
  download_path = none;
}

abbrev pub info : Map Text AssetBundleDetail → AssetBundleInfo
info bundles = record { version = some (codes "1"); os = none; bundles = bundles }

abbrev pub new_info : AssetBundleInfo
new_info =
    info
      ((codes "a", detail (pos 1)) ∷ (codes "b", detail (pos 2)) ∷ (codes "d", detail (pos 4)) ∷ [])

abbrev pub empty_disk : Disk AssetBundleInfo
empty_disk = record { target = none; tmp = none }

run_uploader-Flushed_example : Flushed one_by_one two_bundles (
    run_uploader
      (λ i. some i)
      (λ i. some i)
      one_by_one
      new_info
      good_luck
      (λ b. 7)
      two_bundles
      empty_disk)
run_uploader-Flushed_example =
    run_uploader-Flushed (λ i. some i) (λ i. some i) one_by_one new_info good_luck (λ b. 7)
      two_bundles empty_disk

abbrev job : Text → HipUploadFileJob
job file = record {
  bundle_path = codes "a";
  bundle_hash = codes "h";
  export_root = codes "/e";
  file = file;
}

abbrev two_jobs : List HipUploadFileJob
two_jobs = job (codes "/e/1") ∷ job (codes "/e/2") ∷ []

upload_hip_files_concurrently-Complete_example :
    (All (Succeeds (λ j. some none)) two_jobs
      → (out : List (Option Placement)) × (upload_hip_files_concurrently
            (λ j. some none)
            (λ i. i)
            two_jobs
            1
          ≡ ok out)
        × ((f : Option Placement → ℕ) → weigh f out ≡ weigh_jobs (λ j. some none) f two_jobs))
    × ((out : List (Option Placement))
        → upload_hip_files_concurrently (λ j. some none) (λ i. i) two_jobs 1 ≡ ok out
        → All (Succeeds (λ j. some none)) two_jobs)
upload_hip_files_concurrently-Complete_example =
    upload_hip_files_concurrently-Complete (λ j. some none) (λ i. i) two_jobs 1

report-collect_example :
    report
      (collect (λ f. true) two_bundles nothing_collected).file_counts
      two_bundles
      (collect (λ f. true) two_bundles nothing_collected).fingerprints
    ≡ record { path = codes "a"; fingerprint = codes "h"; source = uploaded }
      ∷ record { path = codes "b"; fingerprint = codes "h"; source = zero_file }
      ∷ []
unfolding contains text_beq existing_files
report-collect_example = report-collect (λ f. true) two_bundles (refl, (refl, tt))

abbrev pub old_info : AssetBundleInfo
old_info = info ((codes "a", detail (pos 1)) ∷ (codes "b", detail (pos 9)) ∷ [])

abbrev pub watermark : RegionWatermark
watermark = record {
  asset_version = codes "2";
  asset_hash = codes "h";
  app_version = [];
  bundle_count = 3;
  committed_at = 0;
}

abbrev pub empty_store : WatermarkStore
empty_store = record { regions = []; file = none; tmp = none }

abbrev pub no_write_faults : WriteFaults
no_write_faults = record { write_fails = false; left_by_write = none; rename_fails = false }

abbrev pub packed : Regions → Option (List ℕ)
packed regions = some (1 ∷ [])

abbrev pub unpacked : List ℕ → Option Regions
unpacked json = some ((codes "jp", watermark) ∷ [])

open-set_example :
    let (after, result) = set packed unpacked no_write_faults (codes "jp") watermark empty_store in
    (result ≡ Watermarks.ok tt
      → (reopened : WatermarkStore) × (open_store packed unpacked false false after.file after.tmp
          ≡ Watermarks.ok reopened)
        × ((other : Text)
            → get other reopened
              ≡ (if codes "jp" =? other then some watermark else get other empty_store)))
    × ((e : WatermarkError) → result ≡ Watermarks.err e → after.file ≡ none)
    × ((other : Text)
        → get other after ≡ (if codes "jp" =? other then some watermark else get other empty_store))
unfolding insert
open-set_example =
    open-set packed unpacked no_write_faults (codes "jp") watermark empty_store
      (λ json h. (ground arith, refl))

-- The work directory is /w/jp, and the poller runs in /srv.
abbrev pub files : FileSystem
files = record {
  canonical = λ p. found (codes "jp" ∷ codes "w" ∷ []);
  is_dir = λ p. some true;
  cwd = some (codes "srv" ∷ []);
  removes = λ p. true;
}

abbrev pub cleanup : RegionCleanup
cleanup = record { remove_local_after_upload = true; asset_save_dir = some (codes "/w/jp") }

abbrev region_dir : CanonicalPath
region_dir = codes "jp" ∷ codes "w" ∷ []

removes_region_dir :
    (remove_region_work_dir_after_success
      (λ n. some n)
      files
      (λ t. t)
      true
      (codes "JP")
      (some cleanup)).0
    ≡ some region_dir
unfolding remove_region_work_dir_after_success remove_save_dir remove_resolved
    resolve_region_cleanup_dir check_canonical check_dir check_cwd check_name path_starts_with
    contains_text ascii_lowercase text_beq
removes_region_dir = refl

remove_region_work_dir-Guarded_example :
    (true ≡ true)
    × (r : RegionCleanup) × (some cleanup ≡ some r)
    × (r.remove_local_after_upload ≡ true)
    × (configured : Text) × (r.asset_save_dir ≡ some configured)
    × Guarded (λ n. some n) files (codes "JP") configured region_dir
remove_region_work_dir-Guarded_example =
    remove_region_work_dir-Guarded (λ n. some n) files (λ t. t) true (codes "JP") (some cleanup)
      region_dir removes_region_dir

-- A file of /e/x/y was removed, and its directories are empty.
prune_empty_parent_dirs-Between_example :
    All
      (Between (codes "e" ∷ []) (codes "y" ∷ codes "x" ∷ codes "e" ∷ []))
      ((codes "y" ∷ codes "x" ∷ codes "e" ∷ []) ∷ (codes "x" ∷ codes "e" ∷ []) ∷ [])
unfolding prune_empty_parent_dirs climb path_starts_with text_beq
prune_empty_parent_dirs-Between_example =
    prune_empty_parent_dirs-Between (λ p. found p) (λ p. gone) (codes "e" ∷ [])
      (codes "y" ∷ codes "x" ∷ codes "e" ∷ [])

abbrev task : Text → DownloadTask
task path = record {
  download_path = path;
  bundle_path = path;
  bundle_hash = codes "h";
  category = start_app;
  file_size = negsuc 0;
  priority = 0;
}

-- The gateway has the first bundle of each batch.
abbrev replies : ℕ → List CheckBatchItem → Option (List CheckAckItem)
replies n [] = some []
replies n (item ∷ items) =
    some (record { path = item.path; action = Codec.skip; placement = none } ∷ [])

abbrev three_tasks : List DownloadTask
three_tasks = task (codes "a") ∷ task (codes "b") ∷ task (codes "c") ∷ []

abbrev unfiltered : Filtered
unfiltered = record { keep = []; layer1_skipped = 9; skipped_counter = 0; skipped_bundles = [] }

abbrev filtered : Filtered
filtered = record {
  keep = task (codes "b") ∷ [];
  layer1_skipped = 0;
  skipped_counter = 2;
  skipped_bundles = (codes "a", codes "h") ∷ (codes "c", codes "h") ∷ [];
}

filters_by_two :
    combined_filter (codes "jp") replies true [] 2 three_tasks unfiltered ≡ some filtered
unfolding combined_filter hip_filter check_chunks decide_chunk decide collect_decisions check_items
    lookup insert text_beq
filters_by_two = refl

combined_filter-Checked_example :
    Checked (codes "jp") replies three_tasks (record unfiltered { layer1_skipped = 0 }) filtered
combined_filter-Checked_example =
    combined_filter-Checked (codes "jp") replies [] 2 three_tasks unfiltered filtered filters_by_two

replies-Answers : Answers (codes "jp") replies
replies-Answers n [] = ([], refl)
replies-Answers n (item ∷ items) =
    (record { path = item.path; action = Codec.skip; placement = none } ∷ [], refl)
