-- ===== src/Execution/Plan.antt =====
-- `build_download_tasks` of src/core/asset_execution.rs, with `build_haruki_3d_tasks` and the filters of the
-- prefetched bundles: which bundles of a snapshot are downloaded, and in which order. The record of the
-- downloads and the snapshot are maps, in the order in which they are iterated.
pub mod Sorted
pub mod Wanted
use moe_assets_updater_next.Prelude.{
  ℕ, Bool, true, false, not, ◌&&◌, ◌||◌, Option, none, some, List, [], ◌∷◌, ◌++◌, ◌==◌, ltb,
  if◌then◌else◌, ◌=?◌, Text, text_eq, text_leb, codes, Map, lookup, sort_by, option_eq,
}
use moe_assets_updater_next.Prelude.Int.{to_string}
use moe_assets_updater_next.Snapshot.{AssetCategory, start_app, on_demand, other, AssetBundleDetail}
use moe_assets_updater_next.Regions.{
  RegionFiltersConfig, RegionProviderConfig, colorful_palette, nuverse, Regexes, compile_patterns,
  matches_any, first_match_index,
}
use moe_assets_updater_next.Execution.{DownloadTask}

-- `usize::MAX`.
abbrev pub usize_max : ℕ
usize_max = 18446744073709551615

abbrev pub unwrap_or : Option ℕ → ℕ → ℕ
unwrap_or none d = d
unwrap_or (some i) d = i

unfoldable pub is_empty {ℓ} : {A : Type ℓ} → List A → Bool
is_empty [] = true
is_empty (x ∷ xs) = false

-- `format!("{prefix}/{bundle_name}")`, or the name.
abbrev pub prefixed : Option Text → Text → Text
prefixed none name = name
prefixed (some prefix) name = prefix ++ (codes "/" ++ name)

unfoldable pub download_path_for_region : RegionProviderConfig → Text → AssetBundleDetail → Text
download_path_for_region (colorful_palette _) name detail = name
download_path_for_region (nuverse _) name detail = prefixed detail.download_path name

-- `bundle_hash` of a task.
unfoldable pub hash_of : RegionProviderConfig → AssetBundleDetail → Text
hash_of (nuverse _) detail = to_string detail.crc
hash_of (colorful_palette _) detail = detail.hash

-- `downloaded_assets.get(bundle_name).is_some_and(|existing| existing == &bundle_hash)`.
unfoldable pub is_downloaded : Map Text Text → Text → Text → Bool
is_downloaded downloaded name hash = lookup name downloaded =? some hash

-- The order of `sort_by`: the priority, then the path.
unfoldable pub task_leb : DownloadTask → DownloadTask → Bool
task_leb a b =
    if ltb a.priority b.priority
    then true
    else (a.priority == b.priority) && text_leb a.bundle_path b.bundle_path

module _ (rx : Regexes) (provider : RegionProviderConfig) (filters : RegionFiltersConfig) where
  -- The patterns of the category; a category of another kind is never downloaded.
  unfoldable pub category_patterns : AssetCategory → List rx.Regex
  category_patterns start_app = compile_patterns rx filters.start_app
  category_patterns on_demand = compile_patterns rx filters.on_demand
  category_patterns (other _) = []

  unfoldable pub should_download_bundle : AssetCategory → Text → Bool
  unfolding category_patterns matches_any is_empty
  should_download_bundle category name =
      let patterns = category_patterns category in
      if is_empty patterns then false else matches_any rx patterns name

  -- The `continue`s of the loop.
  unfoldable pub is_planned : Map Text Text → Text → AssetBundleDetail → Bool
  unfolding should_download_bundle is_downloaded
  is_planned downloaded name detail =
      if matches_any rx (compile_patterns rx filters.skip) name
      then false
      else if not (should_download_bundle detail.category name)
      then false
      else not (is_downloaded downloaded name (hash_of provider detail))

  unfoldable pub task_of : Text → AssetBundleDetail → DownloadTask
  unfolding hash_of download_path_for_region first_match_index
  task_of name detail = record {
    download_path = download_path_for_region provider name detail;
    bundle_path = name;
    bundle_hash = hash_of provider detail;
    category = detail.category;
    file_size = detail.file_size;
    priority =
        unwrap_or (first_match_index rx (compile_patterns rx filters.priority) name) usize_max;
  }

  -- The loop; `push` appends, so the tasks stand in the order of the map.
  unfoldable pub plan_loop : Map Text Text → Map Text AssetBundleDetail → List DownloadTask
  unfolding is_planned task_of
  plan_loop downloaded [] = []
  plan_loop downloaded ((name, detail) ∷ bundles) =
      let rest = plan_loop downloaded bundles in
      if is_planned downloaded name detail then task_of name detail ∷ rest else rest

  unfoldable pub build_download_tasks :
      Map Text AssetBundleDetail → Map Text Text → List DownloadTask
  unfolding plan_loop task_leb
  build_download_tasks bundles downloaded = sort_by task_leb (plan_loop downloaded bundles)
