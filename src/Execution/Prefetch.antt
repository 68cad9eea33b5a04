-- ===== src/Execution/Prefetch.antt =====
-- `prefetch_asset_bundles` of src/core/asset_execution.rs: the bundles that are fetched and stored as they
-- come; and the bundles that the 3D exporter is given.
pub mod Chosen
pub mod Tallied
use moe_assets_updater_next.Prelude.{
  ℕ, zero, suc, ◌+◌, Bool, true, false, not, ◌&&◌, ◌||◌, Option, none, some, List, [], ◌∷◌, ◌++◌,
  length, if◌then◌else◌, Text, text_eq, text_leb, Map, sort_by, join_next,
}
use moe_assets_updater_next.Snapshot.{AssetBundleDetail, AssetBundleInfo}
use moe_assets_updater_next.Regions.{
  RegionFiltersConfig, RegionProviderConfig, Regexes, compile_patterns, matches_any,
}
use moe_assets_updater_next.Execution.{DownloadTask}
use moe_assets_updater_next.Execution.Plan.{
  is_empty, usize_max, download_path_for_region, hash_of, is_downloaded, build_download_tasks,
}
use moe_assets_updater_next.Execution.Run.{
  Ran, ok, err, cancelled, asset_info, runtime_cookies, unfinished, BundleOutcome, done, failed,
  ProgressUpdate, bundle_completed, bundle_failed,
}
use moe_assets_updater_next.Execution.Execute.{
  ExecutionSummary, no_summary, ◌>>=◌, ◌>>◌, ensure, or_error, ensure_not_cancelled,
  requires_cookies,
}

-- The patterns of `RawBundleExportConfig` and of `Haruki3dExportConfig`, with whether the latter is enabled.
pub record BundlePatterns : Type 0 where
  pub enabled : Bool
  pub include : List Text
  pub exclude : List Text

module _ (rx : Regexes) where
  abbrev pub excludes : BundlePatterns → Text → Bool
  excludes p path = matches_any rx (compile_patterns rx p.exclude) path

  -- No list of patterns that compile to be included means that all bundles are.
  unfoldable pub matches_raw_bundle_filters : Option BundlePatterns → Text → Bool
  unfolding compile_patterns matches_any is_empty
  matches_raw_bundle_filters none path = false
  matches_raw_bundle_filters (some p) path =
      let include_patterns = compile_patterns rx p.include in
      (is_empty include_patterns || matches_any rx include_patterns path) && not (excludes p path)

  unfoldable pub filter_raw_bundle_tasks :
      Option BundlePatterns → List DownloadTask → List DownloadTask
  unfolding matches_raw_bundle_filters
  filter_raw_bundle_tasks p [] = []
  filter_raw_bundle_tasks p (t ∷ tasks) =
      let rest = filter_raw_bundle_tasks p tasks in
      if matches_raw_bundle_filters p t.bundle_path then t ∷ rest else rest

  unfoldable pub matches_haruki_3d_filters : BundlePatterns → Text → Bool
  unfolding compile_patterns matches_any is_empty
  matches_haruki_3d_filters p path =
      if not p.enabled || is_empty p.include
      then false
      else matches_any rx (compile_patterns rx p.include) path && not (excludes p path)

  module _ (provider : RegionProviderConfig) (patterns : BundlePatterns) where
    unfoldable pub haruki_3d_task_of : Text → AssetBundleDetail → DownloadTask
    unfolding hash_of download_path_for_region
    haruki_3d_task_of name detail = record {
      download_path = download_path_for_region provider name detail;
      bundle_path = name;
      bundle_hash = hash_of provider detail;
      category = detail.category;
      file_size = detail.file_size;
      priority = usize_max;
    }

    -- `continue` unless the filters match and the record has the bundle under its hash.
    unfoldable pub is_exported : Map Text Text → Text → AssetBundleDetail → Bool
    unfolding matches_haruki_3d_filters is_downloaded
    is_exported downloaded name detail =
        if not (matches_haruki_3d_filters patterns name)
        then false
        else is_downloaded downloaded name (hash_of provider detail)

    unfoldable pub haruki_3d_loop : Map Text Text → Map Text AssetBundleDetail → List DownloadTask
    unfolding is_exported haruki_3d_task_of
    haruki_3d_loop downloaded [] = []
    haruki_3d_loop downloaded ((name, detail) ∷ bundles) =
        let rest = haruki_3d_loop downloaded bundles in
        if is_exported downloaded name detail then haruki_3d_task_of name detail ∷ rest else rest

    unfoldable pub build_haruki_3d_tasks :
        Map Text AssetBundleDetail → Map Text Text → List DownloadTask
    unfolding haruki_3d_loop
    build_haruki_3d_tasks bundles downloaded =
        sort_by (λ a b. text_leb a.bundle_path b.bundle_path) (haruki_3d_loop downloaded bundles)

-- The variables of the loop.
pub record Prefetched : Type 0 where
  pub completed : ℕ
  pub failed : ℕ
  pub sent : List ProgressUpdate

-- A prefetch that has ended; the rest of the loop takes the variables after it.
abbrev pub after_prefetch :
    BundleOutcome → Text → Prefetched → (Prefetched → Ran Prefetched) → Ran Prefetched
after_prefetch done path s rest =
    rest (record s { completed = s.completed + 1; sent = s.sent ++ bundle_completed path ∷ [] })
after_prefetch BundleOutcome.cancelled path s rest = err cancelled
after_prefetch failed path s rest =
    rest (record s { failed = s.failed + 1; sent = s.sent ++ bundle_failed path ∷ [] })

module _ (prefetch_bundle : DownloadTask → BundleOutcome) (schedule : ℕ → ℕ) where
  -- All tasks are in flight; `n` is how many.
  unfoldable pub prefetch_loop : ℕ → List DownloadTask → Prefetched → Ran Prefetched
  unfolding join_next
  prefetch_loop n [] s = ok s
  prefetch_loop zero (j ∷ joins) s = err unfinished
  prefetch_loop (suc n) (j ∷ joins) s =
      let r = join_next (schedule n) j joins in
      after_prefetch (prefetch_bundle r.0) r.0.bundle_path s (λ s'. prefetch_loop n r.1 s')

-- What a prefetch meets, and the parts of the configuration that it reads.
pub record PrefetchRuntime : Type 0 where
  pub is_cancelled : ℕ → Bool
  pub cookies_fetched : Bool
  pub fetch_asset_bundle_info : Option AssetBundleInfo
  pub prefetch_bundle : DownloadTask → BundleOutcome
  pub schedule : ℕ → ℕ

abbrev pub prefetch_tasks : PrefetchRuntime → ℕ → List DownloadTask → Ran ExecutionSummary
prefetch_tasks runtime discovered [] = ok (no_summary discovered)
prefetch_tasks runtime discovered (t ∷ tasks) =
    prefetch_loop runtime.prefetch_bundle runtime.schedule (length (t ∷ tasks)) (t ∷ tasks)
      (record { completed = 0; failed = 0; sent = [] })
    >>= λ s. ok (record {
      discovered_bundles = discovered;
      queued_downloads = length (t ∷ tasks);
      completed_downloads = s.completed;
      failed_downloads = s.failed;
      updated_record_entries = 0;
      chart_hash_sync_performed = false;
    })

module _ (rx : Regexes) (provider : RegionProviderConfig) (filters : RegionFiltersConfig)
    (raw_bundles : Option BundlePatterns) (runtime : PrefetchRuntime) where
  unfoldable pub prefetch_asset_bundles : Ran ExecutionSummary
  unfolding prefetch_loop filter_raw_bundle_tasks build_download_tasks ensure_not_cancelled
      requires_cookies
  prefetch_asset_bundles = do
    ensure_not_cancelled (runtime.is_cancelled 0)
    if requires_cookies provider then ensure runtime.cookies_fetched runtime_cookies else ok tt
    ensure_not_cancelled (runtime.is_cancelled 1)
    info ← or_error runtime.fetch_asset_bundle_info asset_info
    prefetch_tasks runtime (length info.bundles) (
        filter_raw_bundle_tasks rx raw_bundles
          (build_download_tasks rx provider filters info.bundles []))
