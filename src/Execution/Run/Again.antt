-- ===== src/Execution/Run/Again.antt =====
-- What a second run downloads: the plan that is made from the record of a run.
use mathlib.Core.Path.{subst}
use moe_assets_updater_next.Prelude.{
  ℕ, ◌≡◌, ◌≢◌, refl, sym, ap, ◌∙◌, ◌↔◌, inl, inr, true, false, none, some, List, Text, text_eq, All,
  Bool-cases, Map, lookup, IsMap, In, All-In, All-imp,
}
use moe_assets_updater_next.Snapshot.{AssetBundleDetail}
use moe_assets_updater_next.Regions.{RegionFiltersConfig, RegionProviderConfig, Regexes}
use moe_assets_updater_next.Execution.{DownloadTask}
use moe_assets_updater_next.Execution.Plan.{task_of, hash_of, build_download_tasks}
use moe_assets_updater_next.Execution.Plan.Wanted.{Comes, build_download_tasks-IsPlan}
use moe_assets_updater_next.Execution.Run.{Tally, Fate, ok, run_tasks}
use moe_assets_updater_next.Execution.Run.Counted.{Uncancelled, succeeds}
use moe_assets_updater_next.Execution.Run.Standing.{Judged}
use moe_assets_updater_next.Execution.Run.Recorded.{run_tasks-Stands}

module _ (rx : Regexes) (provider : RegionProviderConfig) (filters : RegionFiltersConfig)
    (fate : Fate) (size : ℕ) where
  task_path :
      (name : Text) (detail : AssetBundleDetail)
      → (task_of rx provider filters name detail).bundle_path ≡ name
  unfolding task_of
  task_path name detail = refl

  -- What holds of the one task of a name holds of every task of the plan that has the name.
  sole_task :
      (downloaded : Map Text Text) (bundles : Map Text AssetBundleDetail)
      (P : DownloadTask → Type 0) (name : Text) (detail : AssetBundleDetail)
      → lookup name bundles ≡ some detail
      → P (task_of rx provider filters name detail)
      → (plan : List DownloadTask) → All (Comes rx provider filters downloaded bundles) plan
      → All (λ t. t.bundle_path ≡ name → P t) plan
  unfolding task_of
  sole_task downloaded bundles P name detail found p plan comes =
      All-imp (Comes rx provider filters downloaded bundles) (λ t. t.bundle_path ≡ name → P t)
        (λ t (n, d, f, w, e) here.
          let path : n ≡ name = sym (ap (λ (u : DownloadTask). u.bundle_path) e) ∙ here in
          let f' : lookup name bundles ≡ some d = subst (λ x. lookup x bundles ≡ some d) path f in
          let same : detail ≡ d = cc in
          let whole : task_of rx provider filters name detail ≡ t =
            ap (task_of rx provider filters name) same
            ∙ (ap (λ x. task_of rx provider filters x d) (sym path) ∙ sym e) in
          subst P (whole) p)
        plan comes

  -- The records before and after a run: a name whose tasks fail keeps its entry, and one whose tasks
  -- succeed has their hash.
  module _ (bundles : Map Text AssetBundleDetail) (h : IsMap bundles) (before after : Map Text Text)
      (kept : (name : Text)
        → All (Judged fate size name none) (build_download_tasks rx provider filters bundles before)
        → lookup name after ≡ lookup name before)
      (stored : (name hash : Text) (t : DownloadTask)
        → In t (build_download_tasks rx provider filters bundles before)
        → t.bundle_path ≡ name
        → All
            (Judged fate size name (some hash))
            (build_download_tasks rx provider filters bundles before)
        → lookup name after ≡ some hash) where
    abbrev plan : Map Text Text → List DownloadTask
    plan downloaded = build_download_tasks rx provider filters bundles downloaded

    -- A bundle that is recorded under its hash has no task.
    no_task :
        (name : Text) (detail : AssetBundleDetail)
        → lookup name bundles ≡ some detail
        → lookup name before ≡ some (hash_of provider detail)
        → All (Judged fate size name none) (plan before)
    no_task name detail found held =
        All-imp (Comes rx provider filters before bundles) (Judged fate size name none)
          (λ t (n, d, f, (clear, asked, fresh), e) here. elsewhere t n d f fresh e here)
          (plan before) (build_download_tasks-IsPlan rx provider filters before bundles h).comes
      where
        elsewhere :
            (t : DownloadTask) (n : Text) (d : AssetBundleDetail)
            → lookup n bundles ≡ some d
            → lookup n before ≢ some (hash_of provider d)
            → t ≡ task_of rx provider filters n d
            → t.bundle_path ≡ name
            → succeeds fate t ≡ false
        elsewhere t n d f fresh e here =
            let path : n ≡ name =
              sym (task_path n d) ∙ (sym (ap (λ (u : DownloadTask). u.bundle_path) e) ∙ here) in
            let f' : lookup name bundles ≡ some d =
              subst (λ x. lookup x bundles ≡ some d) (path) f in
            let same : detail ≡ d = cc in
            absurd (
              fresh (
                subst (λ x. lookup x before ≡ some (hash_of provider d)) (sym path)
                  (held ∙ ap (λ x. some (hash_of provider x)) same)))

    again-failed :
        (t : DownloadTask) → In t (plan after) → In t (plan before) × (succeeds fate t ≡ false)
    again-failed t again =
        let (name, detail, found, (clear, asked, fresh), e) =
          All-In (Comes rx provider filters after bundles) (plan after)
            (build_download_tasks-IsPlan rx provider filters after bundles h).comes again in
        let old = build_download_tasks-IsPlan rx provider filters before bundles h in
        let planned =
          old.complete name detail found
            (clear, asked, λ held. fresh (kept name (no_task name detail found held) ∙ held)) in
        (
          subst (λ u. In u (plan before)) (sym e) planned,
          elim (Bool-cases (succeeds fate t)) [
            | inr bad ↦ bad
            | inl good ↦ absurd (
                fresh (
                  stored name (hash_of provider detail) (task_of rx provider filters name detail)
                    planned (task_path name detail)
                    (sole_task before bundles
                      (λ u. (succeeds fate u ≡ true) × (u.bundle_hash ≡ hash_of provider detail))
                      name detail found
                      (subst (λ u. succeeds fate u ≡ true) (e) good, unfold task_of in refl)
                      (plan before) old.comes)))
          ],
        )

    failed-again :
        (t : DownloadTask) → In t (plan before) → succeeds fate t ≡ false → In t (plan after)
    failed-again t planned bad =
        let old = build_download_tasks-IsPlan rx provider filters before bundles h in
        let (name, detail, found, (clear, asked, fresh), e) =
          All-In (Comes rx provider filters before bundles) (plan before) old.comes planned in
        let same = kept name (
          sole_task before bundles (λ u. succeeds fate u ≡ false) name detail found
            (subst (λ u. succeeds fate u ≡ false) (e) bad) (plan before) old.comes) in
        let new =
          (build_download_tasks-IsPlan rx provider filters after bundles h).complete name detail
            found (clear, asked, λ held. fresh (sym same ∙ held)) in
        subst (λ u. In u (plan after)) (sym e) new

  -- The record of a run leads to a plan of exactly the tasks that failed.
  pub run_tasks-next_plan :
      (bundles : Map Text AssetBundleDetail) (start : Tally) (download_concurrency : ℕ)
      → IsMap bundles
      → All
          (Uncancelled fate)
          (build_download_tasks rx provider filters bundles start.downloaded_assets)
      → (s : Tally) × (run_tasks fate size download_concurrency
            (build_download_tasks rx provider filters bundles start.downloaded_assets)
            start
          ≡ ok s)
        × ((t : DownloadTask)
            → In t (build_download_tasks rx provider filters bundles s.downloaded_assets) ↔ (
                In t (build_download_tasks rx provider filters bundles start.downloaded_assets)
                × (succeeds fate t ≡ false)))
  run_tasks-next_plan bundles start download_concurrency h live =
      let (s, ended, kept, stored) =
        run_tasks-Stands fate size
          (build_download_tasks rx provider filters bundles start.downloaded_assets) start
          download_concurrency live in
      let before = start.downloaded_assets in
      (
        s,
        ended,
        λ t. (
          again-failed bundles h before s.downloaded_assets kept stored t,
          λ (planned, bad).
              failed-again bundles h before s.downloaded_assets kept stored t planned bad,
        ),
      )
