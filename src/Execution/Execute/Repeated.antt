-- ===== src/Execution/Execute/Repeated.antt =====
-- An execution and the one after it: what is counted, and what is planned next.
use moe_assets_updater_next.Prelude.{
  ℕ, zero, suc, ◌+◌, ◌*◌, ◌≡◌, refl, sym, ap, ◌∙◌, ◌↔◌, inl, inr, Bool, true, false, some, List, [],
  ◌∷◌, length, take, drop, arith, Text, text_eq, Map, IsMap, All, In, sum_of, max, Bool-cases,
}
use moe_assets_updater_next.Snapshot.{AssetBundleInfo}
use moe_assets_updater_next.Regions.{Regexes}
use moe_assets_updater_next.Execution.{DownloadTask}
use moe_assets_updater_next.Execution.Plan.{build_download_tasks}
use moe_assets_updater_next.Execution.Run.{Ran, ok, Tally, Fate, save_record, run_tasks, run_loop}
use moe_assets_updater_next.Execution.Run.Counted.{Uncancelled, succeeds}
use moe_assets_updater_next.Execution.Run.Reported.{outcome_weight, run_tasks-Reported}
use moe_assets_updater_next.Execution.Run.Again.{run_tasks-next_plan}
use moe_assets_updater_next.Execution.Execute.{
  ExecutionSummary, Context, Runtime, requires_cookies, before_tasks, no_summary, execute_tasks,
  ensure_not_cancelled, execute_with_filter, execute,
}

pub ok_injective {ℓ} : {A : Type ℓ} {a b : A} → ok a ≡ ok b → a ≡ b
ok_injective h = cc

outcomes-length :
    (fate : Fate) (tasks : List DownloadTask)
    → sum_of (outcome_weight fate (λ _. 1) (λ _. 0)) tasks
        + sum_of (outcome_weight fate (λ _. 0) (λ _. 1)) tasks
      ≡ length tasks
outcomes-length fate [] = omega arith
outcomes-length fate (t ∷ tasks) = elim (Bool-cases (succeeds fate t)) [
  | inl good ↦ rw good (omega (arith, outcomes-length fate tasks))
  | inr bad ↦ rw bad (omega (arith, outcomes-length fate tasks))
]

module _ (rx : Regexes) (context : Context) (runtime : Runtime) where
  abbrev plan_from : AssetBundleInfo → Map Text Text → List DownloadTask
  plan_from info record' =
      build_download_tasks rx context.provider context.filters info.bundles record'

  abbrev loop : List DownloadTask → Map Text Text → Ran Tally
  loop tasks loaded =
      run_tasks runtime.fate context.batch_save_size context.download_concurrency tasks
        (before_tasks loaded)

  run_no_tasks :
      (c : ℕ) (loaded : Map Text Text)
      → run_loop runtime.fate context.batch_save_size
          (2 * 0)
          (take c [])
          []
          (drop c [])
          (before_tasks loaded)
        ≡ ok (before_tasks loaded)
  unfolding run_loop
  run_no_tasks zero loaded = refl
  run_no_tasks (suc c) loaded = refl

  -- What an execution returns of the variables after the loop.
  Returns : Ran (ExecutionSummary × Map Text Text) → ℕ → Tally → Type 0
  Returns r queued s =
      (summary : ExecutionSummary) × (r ≡ ok (summary, s.downloaded_assets))
      × (summary.queued_downloads ≡ queued)
      × (summary.completed_downloads ≡ s.completed)
      × (summary.failed_downloads ≡ s.failed)

  execute_tasks-Returns :
      (discovered : ℕ) (tasks : List DownloadTask) (loaded : Map Text Text) (s : Tally)
      → loop tasks loaded ≡ ok s
      → runtime.is_cancelled 2 ≡ false
      → ((m : Map Text Text) → (b : Bool) × (runtime.sync_chart_hashes m ≡ some b))
      → runtime.fate.save_succeeds s.saves ≡ true
      → Returns (execute_tasks rx context runtime discovered tasks loaded) (length tasks) s
  unfolding execute_tasks run_tasks Returns save_record ensure_not_cancelled
  execute_tasks-Returns discovered [] loaded s e live synced saved =
      let same =
        ok_injective (sym (run_no_tasks (max context.download_concurrency 1) loaded) ∙ e) in
      (
        no_summary discovered,
        ap (λ (x : Tally). ok (no_summary discovered, x.downloaded_assets)) same,
        refl,
        ap (λ (x : Tally). x.completed) same,
        ap (λ (x : Tally). x.failed) same,
      )
  execute_tasks-Returns discovered (t ∷ tasks) loaded s e live synced saved =
      let (b, performed) = synced s.downloaded_assets in
      (
        record {
          discovered_bundles = discovered;
          queued_downloads = length (t ∷ tasks);
          completed_downloads = s.completed;
          failed_downloads = s.failed;
          updated_record_entries = length s.downloaded_assets;
          chart_hash_sync_performed = b;
        },
        rw (e, live, saved, performed) (rw saved refl),
        refl,
        refl,
        refl,
      )

  execute-tasks :
      (loaded : Map Text Text) (info : AssetBundleInfo)
      → ((n : ℕ) → runtime.is_cancelled n ≡ false)
      → context.has_record_file ≡ true
      → runtime.load_download_record ≡ some loaded
      → (requires_cookies context.provider ≡ true → runtime.cookies_fetched ≡ true)
      → runtime.fetch_asset_bundle_info ≡ some info
      → execute rx context runtime
        ≡ execute_tasks rx context runtime (length info.bundles) (plan_from info loaded) loaded
  unfolding execute execute_with_filter ensure_not_cancelled
  execute-tasks loaded info live has_file load cookies fetched =
      let a = live 0 in
      let b = live 1 in
      elim (Bool-cases (requires_cookies context.provider)) [
        | inl needed ↦ let c = cookies needed in simp (a, b, has_file, load, needed, c, fetched)
        | inr free ↦ simp (a, b, has_file, load, free, fetched)
      ]

  -- An execution returns when nothing cancels it or a bundle, its region has a record file that is loaded
  -- and at the end saved, the cookies that the region needs and the snapshot, a map without repeated
  -- names, are fetched, and the chart hashes are synchronised. It counts every planned bundle as
  -- completed or failed, and the plan that is made of the same snapshot and of the record it has saved
  -- is exactly the bundles that failed.
  pub execute-next_plan :
      (loaded : Map Text Text) (info : AssetBundleInfo)
      → ((n : ℕ) → runtime.is_cancelled n ≡ false)
      → context.has_record_file ≡ true
      → runtime.load_download_record ≡ some loaded
      → (requires_cookies context.provider ≡ true → runtime.cookies_fetched ≡ true)
      → runtime.fetch_asset_bundle_info ≡ some info
      → IsMap info.bundles
      → All (Uncancelled runtime.fate) (plan_from info loaded)
      → ((s : Tally)
          → loop (plan_from info loaded) loaded ≡ ok s
          → runtime.fate.save_succeeds s.saves ≡ true)
      → ((m : Map Text Text) → (b : Bool) × (runtime.sync_chart_hashes m ≡ some b))
      → (summary : ExecutionSummary) × (file : Map Text Text) × (execute rx context runtime
          ≡ ok (summary, file))
        × (summary.queued_downloads ≡ length (plan_from info loaded))
        × (summary.completed_downloads + summary.failed_downloads ≡ summary.queued_downloads)
        × ((t : DownloadTask)
            → In t (plan_from info file)
              ↔ (In t (plan_from info loaded) × (succeeds runtime.fate t ≡ false)))
  unfolding Returns
  execute-next_plan loaded info live has_file load cookies fetched h uncancelled saved synced =
      let tasks = plan_from info loaded in
      let (s, ended, next) =
        run_tasks-next_plan rx context.provider context.filters runtime.fate context.batch_save_size
          info.bundles (before_tasks loaded) context.download_concurrency h uncancelled in
      let (s', ended', _, completed, lost) =
        run_tasks-Reported runtime.fate context.batch_save_size context.download_concurrency tasks
          (before_tasks loaded) uncancelled in
      let same = ok_injective (sym ended' ∙ ended) in
      let (summary, returned, queued, c, f) =
        execute_tasks-Returns (length info.bundles) tasks loaded s ended (live 2) synced
          (saved s ended) in
      let c' = ap (λ (x : Tally). x.completed) same in
      let f' = ap (λ (x : Tally). x.failed) same in
      (
        summary,
        s.downloaded_assets,
        execute-tasks loaded info live has_file load cookies fetched ∙ returned,
        queued,
        omega (arith, queued, c, f, c', f', completed, lost, outcomes-length runtime.fate tasks),
        next,
      )
