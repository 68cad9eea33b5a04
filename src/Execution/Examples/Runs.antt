-- ===== src/Execution/Examples/Runs.antt =====
-- Three bundles of a region, one of which fails: plans, runs and executions at concrete inputs.
use mathlib.Core.Path.{subst}
use moe_assets_updater_next.Prelude.{
  ℕ, ◌+◌, ◌≡◌, ◌≢◌, ◌↔◌, refl, Bool, true, false, ◌&&◌, none, some, List, [], ◌∷◌, map, length,
  codes, Text, text_eq, text_beq, text_leb, ◌==◌, ◌=?◌, if◌then◌else◌, Map, lookup, insert, IsMap,
  All, In, sort_by, ordered_insert, join_next, sum_of, Bool-cases, inl, inr, sym, ◌∙◌,
}
use moe_assets_updater_next.Prelude.Int.{pos}
use moe_assets_updater_next.Snapshot.{AssetCategory, start_app, on_demand, other, AssetBundleDetail}
use moe_assets_updater_next.Regions.{
  RegionFiltersConfig, RegionProviderConfig, colorful_palette, Regexes, compile_patterns,
  matches_any, first_match_index, find_match,
}
use moe_assets_updater_next.Execution.{DownloadTask}
use moe_assets_updater_next.Execution.Plan.{
  is_empty, download_path_for_region, hash_of, is_downloaded, task_leb, category_patterns,
  should_download_bundle, is_planned, task_of, plan_loop, build_download_tasks,
}
use moe_assets_updater_next.Execution.Plan.Wanted.{IsPlan, build_download_tasks-IsPlan}
use moe_assets_updater_next.Execution.Run.{
  ok, BundleOutcome, done, failed, Fate, Tally, bundle_completed, bundle_failed, record_saved,
  record_failed_bundle, record_completed_bundle, send_progress, save_record, batch_save, run_loop,
  run_tasks,
}
use moe_assets_updater_next.Execution.Run.Counted.{Uncancelled, succeeds}
use moe_assets_updater_next.Execution.Run.Reported.{reported, outcome_weight, run_tasks-Reported}
use moe_assets_updater_next.Execution.Execute.Repeated.{ok_injective, execute-next_plan}
use moe_assets_updater_next.Execution.Execute.{
  Context, Runtime, ExecutionSummary, before_tasks, execute, execute_with_filter, execute_tasks,
  ensure_not_cancelled, requires_cookies,
}

-- A pattern is a text, and matches the names that begin with it; a lone parenthesis does not compile.
abbrev pub begins : Text → Text → Bool
begins [] name = true
begins (c ∷ cs) [] = false
begins (c ∷ cs) (d ∷ ds) = (c == d) && begins cs ds

abbrev pub prefixes : Regexes
prefixes = record {
  Regex = Text;
  compile = λ p. if p =? codes "(" then none else some p;
  is_match = begins;
}

abbrev pub palette : RegionProviderConfig
palette = colorful_palette (record {
  current_version_url = none;
  game_version_url_template = none;
  asset_info_url_template = [];
  asset_bundle_url_template = [];
  profile = [];
  profile_hashes = [];
  required_cookies = false;
  cookie_bootstrap_url = none;
})

abbrev pub filters : RegionFiltersConfig
filters = record {
  start_app = codes "live" ∷ [];
  on_demand = codes "(" ∷ codes "movie" ∷ [];
  skip = codes "live/x" ∷ [];
  priority = codes "(" ∷ codes "movie" ∷ [];
}

abbrev pub detail_of : Text → AssetCategory → AssetBundleDetail
detail_of name category = record {
  bundle_name = name;
  cache_file_name = [];
  cache_directory_name = [];
  hash = codes "h";
  category = category;
  crc = pos 7;
  file_size = pos 3;
  dependencies = [];
  paths = [];
  is_builtin = false;
  is_relocate = none;
  md5_hash = none;
  download_path = none;
}

abbrev pub bundles : Map Text AssetBundleDetail
bundles =
    (codes "live/b", detail_of (codes "live/b") start_app)
    ∷ (codes "live/x", detail_of (codes "live/x") start_app)
    ∷ (codes "movie/c", detail_of (codes "movie/c") on_demand)
    ∷ (codes "live/a", detail_of (codes "live/a") start_app)
    ∷ (codes "bgm/d", detail_of (codes "bgm/d") (other []))
    ∷ []

pub bundles_IsMap : IsMap bundles
unfolding lookup text_beq
bundles_IsMap = (refl, (refl, (refl, (refl, (refl, tt)))))

-- The film first, by its priority, and then the others by their paths.
abbrev names : List DownloadTask → List Text
names tasks = map (λ (t : DownloadTask). t.bundle_path) tasks

plan_in_order :
    names (build_download_tasks prefixes palette filters bundles [])
    ≡ codes "movie/c" ∷ codes "live/a" ∷ codes "live/b" ∷ []
unfolding build_download_tasks plan_loop is_planned should_download_bundle category_patterns
    compile_patterns matches_any is_empty is_downloaded lookup task_of hash_of
    download_path_for_region first_match_index find_match sort_by ordered_insert task_leb text_leb
    text_beq
plan_in_order = refl

build_download_tasks-IsPlan_example :
    IsPlan prefixes palette filters [] bundles
      (build_download_tasks prefixes palette filters bundles [])
build_download_tasks-IsPlan_example =
    build_download_tasks-IsPlan prefixes palette filters [] bundles bundles_IsMap

-- The post-processing of live/a fails; the record cannot be saved the first time.
abbrev pub post_process_of : Text → BundleOutcome
post_process_of name = if text_beq name (codes "live/a") then failed else done

abbrev fate : Fate
fate = record {
  download = λ t. done;
  post_process = λ t. post_process_of t.bundle_path;
  save_succeeds = λ n. if n == 0 then false else true;
  pick = λ n. record { download_first = n == 4; index = n };
}

abbrev context : Context
context = record {
  provider = palette;
  filters = filters;
  has_record_file = true;
  batch_save_size = 1;
  download_concurrency = 2;
}

abbrev runtime : Runtime
runtime = record {
  is_cancelled = λ n. false;
  load_download_record = some [];
  cookies_fetched = false;
  fetch_asset_bundle_info = some (record { version = none; os = none; bundles = bundles });
  sync_chart_hashes = λ m. some false;
  fate = fate;
}

-- The execution succeeds although a bundle has failed.
abbrev expected : ExecutionSummary
expected = record {
  discovered_bundles = 5;
  queued_downloads = 3;
  completed_downloads = 2;
  failed_downloads = 1;
  updated_record_entries = 2;
  chart_hash_sync_performed = false;
}

abbrev pub first_tasks : List DownloadTask
first_tasks =
    task_of prefixes palette filters (codes "movie/c") (detail_of (codes "movie/c") on_demand)
    ∷ task_of prefixes palette filters (codes "live/a") (detail_of (codes "live/a") start_app)
    ∷ task_of prefixes palette filters (codes "live/b") (detail_of (codes "live/b") start_app)
    ∷ []

planned : build_download_tasks prefixes palette filters bundles [] ≡ first_tasks
unfolding build_download_tasks plan_loop is_planned should_download_bundle category_patterns
    compile_patterns matches_any is_empty is_downloaded lookup task_of hash_of
    download_path_for_region first_match_index find_match sort_by ordered_insert task_leb text_leb
    text_beq
planned = refl

failed_is_ok :
    execute prefixes context runtime
    ≡ ok (expected, (codes "live/b", codes "h") ∷ (codes "movie/c", codes "h") ∷ [])
unfolding execute execute_with_filter execute_tasks ensure_not_cancelled requires_cookies
    build_download_tasks plan_loop is_planned should_download_bundle category_patterns
    compile_patterns matches_any is_empty is_downloaded lookup task_of hash_of
    download_path_for_region first_match_index find_match sort_by ordered_insert task_leb text_leb
    text_beq run_tasks run_loop record_completed_bundle record_failed_bundle batch_save save_record
    send_progress insert join_next
failed_is_ok = refl

abbrev final : Tally
final = record {
  downloaded_assets = (codes "live/b", codes "h") ∷ (codes "movie/c", codes "h") ∷ [];
  completed = 2;
  failed = 1;
  pending_save_count = 0;
  record_file = (codes "live/b", codes "h") ∷ (codes "movie/c", codes "h") ∷ [];
  saves = 2;
  sent =
      bundle_completed (codes "live/b")
      ∷ bundle_failed (codes "live/a")
      ∷ bundle_completed (codes "movie/c")
      ∷ record_saved 2
      ∷ [];
}

ran_to_final : run_tasks fate 1 2 first_tasks (before_tasks []) ≡ ok final
unfolding task_of hash_of download_path_for_region first_match_index find_match compile_patterns
    text_beq run_tasks run_loop record_completed_bundle record_failed_bundle batch_save save_record
    send_progress insert join_next
ran_to_final = refl

never_cancelled : (t : DownloadTask) → Uncancelled fate t
never_cancelled t = (λ h. absurd cc, λ h. post t.bundle_path h)
  where
    post : (name : Text) → post_process_of name ≢ BundleOutcome.cancelled
    post name h = elim (Bool-cases (text_beq name (codes "live/a"))) [
      | inl same ↦ let e : failed ≡ BundleOutcome.cancelled = rw same at h in absurd cc
      | inr differs ↦ let e : done ≡ BundleOutcome.cancelled = rw differs at h in absurd cc
    ]

All-live : (ts : List DownloadTask) → All (Uncancelled fate) ts
All-live [] = tt
All-live (t ∷ ts) = (never_cancelled t, All-live ts)

run_tasks-Reported_example :
    (s : Tally) × (run_tasks fate 1 2 first_tasks (before_tasks []) ≡ ok s)
    × ((f g : Text → ℕ)
        → reported f g s
          ≡ reported f g (before_tasks []) + sum_of (outcome_weight fate f g) first_tasks)
    × (s.completed ≡ 0 + sum_of (outcome_weight fate (λ _. 1) (λ _. 0)) first_tasks)
    × (s.failed ≡ 0 + sum_of (outcome_weight fate (λ _. 0) (λ _. 1)) first_tasks)
run_tasks-Reported_example =
    run_tasks-Reported fate 1 2 first_tasks (before_tasks []) (All-live first_tasks)

saved_at_end :
    (s : Tally)
    → run_tasks fate 1 2
        (build_download_tasks prefixes palette filters bundles [])
        (before_tasks [])
      ≡ ok s
    → fate.save_succeeds s.saves ≡ true
saved_at_end s h =
    let same : final ≡ s = ok_injective (sym ran_to_final ∙ (rw planned at h)) in
    subst (λ (x : Tally). fate.save_succeeds x.saves ≡ true) (same) refl

-- The next execution plans the bundle that failed, and no other.
execute-next_plan_example :
    (summary : ExecutionSummary) × (file : Map Text Text) × (execute prefixes context runtime
      ≡ ok (summary, file))
    × (summary.queued_downloads ≡ length (build_download_tasks prefixes palette filters bundles []))
    × (summary.completed_downloads + summary.failed_downloads ≡ summary.queued_downloads)
    × ((t : DownloadTask)
        → In t (build_download_tasks prefixes palette filters bundles file) ↔ (
            In t (build_download_tasks prefixes palette filters bundles [])
            × (succeeds fate t ≡ false)))
execute-next_plan_example =
    execute-next_plan prefixes context runtime []
      (record { version = none; os = none; bundles = bundles }) (λ n. refl) refl refl
      (λ h. absurd (unfold requires_cookies in cc)) refl bundles_IsMap
      (All-live (build_download_tasks prefixes palette filters bundles [])) saved_at_end
      (λ m. (false, refl))
