-- ===== src/Execution/Prefetch/Chosen.antt =====
-- The bundles of the 3D exporter and those of the downloads, and what a prefetch counts.
use mathlib.Core.Path.{subst}
use moe_assets_updater_next.Prelude.{
  ◌≡◌, ◌≢◌, refl, sym, ap, ◌∙◌, inl, inr, true, some, [], ◌∷◌, Text, text_eq, Map, lookup, IsMap,
  IsMap-lookup, All, All-imp, In, All-In, sort_by-All, Bool-cases,
}
use moe_assets_updater_next.Snapshot.{AssetBundleDetail}
use moe_assets_updater_next.Regions.{RegionFiltersConfig, RegionProviderConfig, Regexes}
use moe_assets_updater_next.Execution.{DownloadTask}
use moe_assets_updater_next.Execution.Plan.{hash_of, is_downloaded, task_of, build_download_tasks}
use moe_assets_updater_next.Execution.Plan.Wanted.{
  Comes, is_downloaded_iff, build_download_tasks-IsPlan,
}
use moe_assets_updater_next.Execution.Prefetch.{
  BundlePatterns, matches_haruki_3d_filters, haruki_3d_task_of, is_exported, haruki_3d_loop,
  build_haruki_3d_tasks,
}

module _ (rx : Regexes) (provider : RegionProviderConfig) (filters : RegionFiltersConfig)
    (patterns : BundlePatterns) (downloaded : Map Text Text) where
  -- The task of a bundle that the filters of the exporter match and that is recorded under its hash.
  abbrev pub Exported : Map Text AssetBundleDetail → DownloadTask → Type 0
  Exported bundles t =
      (name : Text) × (detail : AssetBundleDetail) × (lookup name bundles ≡ some detail)
      × (matches_haruki_3d_filters rx patterns name ≡ true)
      × (lookup name downloaded ≡ some (hash_of provider detail))
      × (t ≡ haruki_3d_task_of rx provider patterns name detail)

  haruki_3d_loop-Exported :
      (whole bundles : Map Text AssetBundleDetail)
      → All (λ b. lookup b.0 whole ≡ some b.1) bundles
      → All (Exported whole) (haruki_3d_loop rx provider patterns downloaded bundles)
  unfolding haruki_3d_loop is_exported
  haruki_3d_loop-Exported whole [] h = tt
  haruki_3d_loop-Exported whole ((name, detail) ∷ bundles) h =
      let rest = haruki_3d_loop-Exported whole bundles h.1 in
      elim (Bool-cases (matches_haruki_3d_filters rx patterns name)) [
        | inr other ↦ rw other rest
        | inl wanted ↦ elim (Bool-cases (is_downloaded downloaded name (hash_of provider detail))) [
          | inr fresh ↦ rw (wanted, fresh) rest
          | inl held ↦
              rw (wanted, held)
                (
                  (
                    name,
                    detail,
                    h.0,
                    wanted,
                    (is_downloaded_iff rx provider filters downloaded name
                          (hash_of provider detail)).0
                        held,
                    refl,
                  ),
                  rest,
                )
        ]
      ]

  pub build_haruki_3d_tasks-Exported :
      (bundles : Map Text AssetBundleDetail)
      → IsMap bundles
      → All (Exported bundles) (build_haruki_3d_tasks rx provider patterns bundles downloaded)
  unfolding build_haruki_3d_tasks
  build_haruki_3d_tasks-Exported bundles h =
      sort_by-All _ (Exported bundles) (haruki_3d_loop rx provider patterns downloaded bundles)
        (haruki_3d_loop-Exported bundles bundles (IsMap-lookup bundles h))

  -- In a snapshot without repeated names, a bundle that the 3D exporter is given is one that matches its
  -- filters and is recorded under its hash, and so it is not one of the planned downloads.
  pub build_haruki_3d_tasks-Apart :
      (bundles : Map Text AssetBundleDetail) (t : DownloadTask)
      → IsMap bundles
      → In t (build_haruki_3d_tasks rx provider patterns bundles downloaded)
      → (matches_haruki_3d_filters rx patterns t.bundle_path ≡ true)
        × (lookup t.bundle_path downloaded ≡ some t.bundle_hash)
        × All
            (λ u. t.bundle_path ≢ u.bundle_path)
            (build_download_tasks rx provider filters bundles downloaded)
  unfolding haruki_3d_task_of task_of
  build_haruki_3d_tasks-Apart bundles t h given =
      let (name, detail, found, wanted, held, e) =
        All-In (Exported bundles) (build_haruki_3d_tasks rx provider patterns bundles downloaded)
          (build_haruki_3d_tasks-Exported bundles h) given in
      let named = ap (λ (x : DownloadTask). x.bundle_path) e in
      (
        subst (λ p. matches_haruki_3d_filters rx patterns p ≡ true) (sym named) wanted,
        subst (λ (x : DownloadTask). lookup x.bundle_path downloaded ≡ some x.bundle_hash) (sym e)
            held,
        All-imp (Comes rx provider filters downloaded bundles) (λ u. t.bundle_path ≢ u.bundle_path)
            (λ u (n, d, f, (_, _, fresh), e') same.
              let path : name ≡ n =
                sym named ∙ (same ∙ ap (λ (x : DownloadTask). x.bundle_path) e') in
              let f' : lookup name bundles ≡ some d =
                subst (λ x. lookup x bundles ≡ some d) (sym path) f in
              let eq : detail ≡ d = cc in
              fresh (
                subst (λ x. lookup x downloaded ≡ some (hash_of provider d)) path
                  (held ∙ ap (λ x. some (hash_of provider x)) eq)))
            (build_download_tasks rx provider filters bundles downloaded)
            (build_download_tasks-IsPlan rx provider filters downloaded bundles h).comes,
      )
