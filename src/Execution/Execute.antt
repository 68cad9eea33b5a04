-- ===== src/Execution/Execute.antt =====
-- `execute_with_filter` and `execute` of src/core/asset_execution.rs, around the loop: the record is loaded,
-- the downloads are planned and filtered, and after the loop the record is saved. Loading, cookies, the
-- snapshot of the provider and the chart hashes are what `Runtime` gives.
pub mod Repeated
use moe_assets_updater_next.Prelude.{
  ℕ, zero, suc, Bool, true, false, Option, none, some, List, [], ◌∷◌, length, if◌then◌else◌, Text,
  Map,
}
use moe_assets_updater_next.Snapshot.{AssetBundleDetail, AssetBundleInfo}
use moe_assets_updater_next.Regions.{
  RegionFiltersConfig, RegionProviderConfig, colorful_palette, nuverse, Regexes,
}
use moe_assets_updater_next.Execution.{DownloadTask}
use moe_assets_updater_next.Execution.Plan.{build_download_tasks}
use moe_assets_updater_next.Execution.Run.{
  Ran, ok, err, ExecutionError, cancelled, download_record, chart_hashes, task_filter, asset_info,
  missing_asset_save_dir, runtime_cookies, Tally, Fate, save_record, run_tasks,
}

pub record ExecutionSummary : Type 0 where
  pub discovered_bundles : ℕ
  pub queued_downloads : ℕ
  pub completed_downloads : ℕ
  pub failed_downloads : ℕ
  pub updated_record_entries : ℕ
  pub chart_hash_sync_performed : Bool

-- The context of the region, with what the execution reads of the configuration.
pub record Context : Type 0 where
  pub provider : RegionProviderConfig
  pub filters : RegionFiltersConfig
  pub has_record_file : Bool
  pub batch_save_size : ℕ
  pub download_concurrency : ℕ

-- What an execution meets; `is_cancelled` is the flag at the first, second and third look of the function
-- itself, and `sync_chart_hashes` tells whether anything was synchronised.
pub record Runtime : Type 0 where
  pub is_cancelled : ℕ → Bool
  pub load_download_record : Option (Map Text Text)
  pub cookies_fetched : Bool
  pub fetch_asset_bundle_info : Option AssetBundleInfo
  pub sync_chart_hashes : Map Text Text → Option Bool
  pub fate : Fate

infixl 5 ◌>>=◌ ◌>>◌
abbrev pub ◌>>=◌ {ℓ κ} : {A : Type ℓ} {B : Type κ} → Ran A → (A → Ran B) → Ran B
ok a >>= f = f a
err e >>= f = err e

abbrev pub ◌>>◌ {ℓ} : {B : Type ℓ} → Ran (Unit {0}) → Ran B → Ran B
m >> k = m >>= λ _. k

abbrev pub ensure : Bool → ExecutionError → Ran (Unit {0})
ensure true e = ok tt
ensure false e = err e

abbrev pub or_error {ℓ} : {A : Type ℓ} → Option A → ExecutionError → Ran A
or_error none e = err e
or_error (some a) e = ok a

unfoldable pub ensure_not_cancelled : Bool → Ran (Unit {0})
ensure_not_cancelled true = err cancelled
ensure_not_cancelled false = ok tt

unfoldable pub requires_cookies : RegionProviderConfig → Bool
requires_cookies (colorful_palette p) = p.required_cookies
requires_cookies (nuverse p) = p.required_cookies

-- The filter is optional, and may fail.
abbrev pub TaskFilter : Type 0
TaskFilter = Option (List DownloadTask → Option (List DownloadTask))

abbrev pub apply_filter : TaskFilter → List DownloadTask → Ran (List DownloadTask)
apply_filter none tasks = ok tasks
apply_filter (some filter) tasks = or_error (filter tasks) task_filter

-- The variables before the loop; the file holds what was loaded.
abbrev pub before_tasks : Map Text Text → Tally
before_tasks loaded = record {
  downloaded_assets = loaded;
  completed = 0;
  failed = 0;
  pending_save_count = 0;
  record_file = loaded;
  saves = 0;
  sent = [];
}

-- The save at the end: its failure is the error of the execution.
abbrev pub final_save : Tally × Bool → Ran Tally
final_save (s, true) = ok s
final_save (s, false) = err download_record

-- The summary when there is nothing to download.
abbrev pub no_summary : ℕ → ExecutionSummary
no_summary discovered = record {
  discovered_bundles = discovered;
  queued_downloads = 0;
  completed_downloads = 0;
  failed_downloads = 0;
  updated_record_entries = 0;
  chart_hash_sync_performed = false;
}

module _ (rx : Regexes) (context : Context) (runtime : Runtime) where
  -- From the tasks that are left after the filter on; the result comes with the file of the record.
  unfoldable pub execute_tasks :
      ℕ → List DownloadTask → Map Text Text → Ran (ExecutionSummary × Map Text Text)
  unfolding run_tasks save_record ensure_not_cancelled
  execute_tasks discovered [] loaded = ok (no_summary discovered, loaded)
  execute_tasks discovered (t ∷ tasks) loaded = do
    s ←
        run_tasks runtime.fate context.batch_save_size context.download_concurrency (t ∷ tasks)
          (before_tasks loaded)
    ensure_not_cancelled (runtime.is_cancelled 2)
    saved ← final_save (save_record runtime.fate s)
    performed ← or_error (runtime.sync_chart_hashes saved.downloaded_assets) chart_hashes
    ok (
      record {
        discovered_bundles = discovered;
        queued_downloads = length (t ∷ tasks);
        completed_downloads = saved.completed;
        failed_downloads = saved.failed;
        updated_record_entries = length saved.downloaded_assets;
        chart_hash_sync_performed = performed;
      },
      saved.record_file,
    )

  unfoldable pub execute_with_filter : TaskFilter → Ran (ExecutionSummary × Map Text Text)
  unfolding execute_tasks ensure_not_cancelled requires_cookies build_download_tasks
  execute_with_filter filter = do
    ensure_not_cancelled (runtime.is_cancelled 0)
    ensure context.has_record_file missing_asset_save_dir
    loaded ← or_error runtime.load_download_record download_record
    if requires_cookies context.provider
        then ensure runtime.cookies_fetched runtime_cookies
        else ok tt
    ensure_not_cancelled (runtime.is_cancelled 1)
    info ← or_error runtime.fetch_asset_bundle_info asset_info
    tasks ←
        apply_filter filter
          (build_download_tasks rx context.provider context.filters info.bundles loaded)
    execute_tasks (length info.bundles) tasks loaded

  unfoldable pub execute : Ran (ExecutionSummary × Map Text Text)
  unfolding execute_with_filter
  execute = execute_with_filter none
