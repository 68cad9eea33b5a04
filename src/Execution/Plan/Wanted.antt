-- ===== src/Execution/Plan/Wanted.antt =====
-- Which bundles are downloaded.
use moe_assets_updater_next.Prelude.{
  ◌≡◌, ◌≢◌, refl, ◌↔◌, inl, inr, true, false, some, [], List, ◌∷◌, arith, Text, text_eq, Ascending,
  All, In, In-cons, In-sort_by, sort_by-All, Bool-cases, Map, lookup, IsMap, IsMap-lookup,
  option_beq_iff, if◌then◌else◌, ◌=?◌, text_beq_iff,
}
use moe_assets_updater_next.Snapshot.{AssetBundleDetail, AssetCategory, start_app, on_demand, other}
use moe_assets_updater_next.Regions.{
  RegionFiltersConfig, RegionProviderConfig, Regexes, compile_patterns, matches_any,
}
use moe_assets_updater_next.Regions.Matches.{Matches, matches_any-Matches, Matches-matches_any}
use moe_assets_updater_next.Execution.{DownloadTask}
use moe_assets_updater_next.Execution.Plan.{
  task_leb, is_empty, hash_of, is_downloaded, category_patterns, should_download_bundle, is_planned,
  task_of, plan_loop, build_download_tasks,
}
use moe_assets_updater_next.Execution.Plan.Sorted.{Before, build_download_tasks-Ascending}

module _ (rx : Regexes) (provider : RegionProviderConfig) (filters : RegionFiltersConfig) where
  -- The patterns that ask for the bundles of a category.
  abbrev pub Asked : AssetCategory → Text → Type 0
  Asked start_app name = Matches rx filters.start_app name
  Asked on_demand name = Matches rx filters.on_demand name
  Asked (other _) name = ⊥

  -- The bundle is asked for, is not skipped, and is not recorded under the hash that it has.
  abbrev pub Wanted : Map Text Text → Text → AssetBundleDetail → Type 0
  Wanted downloaded name detail =
      (¬ Matches rx filters.skip name)
      × Asked detail.category name
      × (lookup name downloaded ≢ some (hash_of provider detail))

  should_download-any :
      (category : AssetCategory) (name : Text)
      → should_download_bundle rx provider filters category name
        ≡ matches_any rx (category_patterns rx provider filters category) name
  unfolding should_download_bundle
  should_download-any category name = by_list (category_patterns rx provider filters category) name
    where
      by_list :
          (rs : List rx.Regex) (name : Text)
          → (if is_empty rs then false else matches_any rx rs name) ≡ matches_any rx rs name
      by_list [] name = refl
      by_list (r ∷ rs) name = refl

  pub should_download-Asked :
      (category : AssetCategory) (name : Text)
      → (should_download_bundle rx provider filters category name ≡ true) ↔ Asked category name
  unfolding category_patterns matches_any
  should_download-Asked start_app name = rw (should_download-any start_app name) (
    λ h. matches_any-Matches rx filters.start_app name h,
    λ m. Matches-matches_any rx filters.start_app name m,
  )
  should_download-Asked on_demand name = rw (should_download-any on_demand name) (
    λ h. matches_any-Matches rx filters.on_demand name h,
    λ m. Matches-matches_any rx filters.on_demand name m,
  )
  should_download-Asked (other k) name =
      rw (should_download-any (other k) name) (λ h. absurd cc, λ m. absurd m)

  pub is_downloaded_iff :
      (downloaded : Map Text Text) (name hash : Text)
      → (is_downloaded downloaded name hash ≡ true) ↔ (lookup name downloaded ≡ some hash)
  unfolding is_downloaded
  is_downloaded_iff downloaded name hash = option_beq_iff (lookup name downloaded) (some hash)

  module _ (downloaded : Map Text Text) where
    is_planned-Wanted :
        (name : Text) (detail : AssetBundleDetail)
        → is_planned rx provider filters downloaded name detail ≡ true
        → Wanted downloaded name detail
    unfolding is_planned
    is_planned-Wanted name detail h = (
      λ m. absurd (ground (arith, h, Matches-matches_any rx filters.skip name m)),
      (should_download-Asked detail.category name).0 (ground (arith, h)),
      λ e.
          absurd
            (ground (arith, h, (is_downloaded_iff downloaded name (hash_of provider detail)).1 e)),
    )

    Wanted-is_planned :
        (name : Text) (detail : AssetBundleDetail)
        → Wanted downloaded name detail
        → is_planned rx provider filters downloaded name detail ≡ true
    unfolding is_planned
    Wanted-is_planned name detail (clear, asked, fresh) =
        let a = (should_download-Asked detail.category name).1 asked in
        elim (Bool-cases (matches_any rx (compile_patterns rx filters.skip) name)) [
          | inl hit ↦ absurd (clear (matches_any-Matches rx filters.skip name hit))
          | inr miss ↦ elim (Bool-cases (is_downloaded downloaded name (hash_of provider detail))) [
            | inl have ↦
                absurd
                  (fresh ((is_downloaded_iff downloaded name (hash_of provider detail)).0 have))
            | inr need ↦ rw (miss, a, need) refl
          ]
        ]

    -- A task of the plan is that of a wanted bundle.
    abbrev pub Comes : Map Text AssetBundleDetail → DownloadTask → Type 0
    Comes bundles t =
        (name : Text) × (detail : AssetBundleDetail) × (lookup name bundles ≡ some detail)
        × Wanted downloaded name detail
        × (t ≡ task_of rx provider filters name detail)

    plan_loop-Comes :
        (whole bundles : Map Text AssetBundleDetail)
        → All (λ b. lookup b.0 whole ≡ some b.1) bundles
        → All (Comes whole) (plan_loop rx provider filters downloaded bundles)
    unfolding plan_loop
    plan_loop-Comes whole [] h = tt
    plan_loop-Comes whole ((name, detail) ∷ bundles) h =
        let rest = plan_loop-Comes whole bundles h.1 in
        elim (Bool-cases (is_planned rx provider filters downloaded name detail)) [
          | inl planned ↦
              rw planned ((name, detail, h.0, is_planned-Wanted name detail planned, refl), rest)
          | inr skipped ↦ rw skipped rest
        ]

    plan_loop-In :
        (bundles : Map Text AssetBundleDetail) (name : Text) (detail : AssetBundleDetail)
        → lookup name bundles ≡ some detail
        → Wanted downloaded name detail
        → In
            (task_of rx provider filters name detail)
            (plan_loop rx provider filters downloaded bundles)
    unfolding plan_loop lookup
    plan_loop-In [] name detail h w = absurd cc
    plan_loop-In ((key, d) ∷ bundles) name detail h w = elim (Bool-cases (key =? name)) [
      | inl same ↦
          let found : d ≡ detail = ground (arith, h, same) in
          let here : key ≡ name = (text_beq_iff key name).0 same in
          let p : is_planned rx provider filters downloaded key d ≡ true =
            rw (here, found) (Wanted-is_planned name detail w) in
          rw p (0, rw (here, found) refl)
      | inr differs ↦
          let later = plan_loop-In bundles name detail (rw differs at h) w in
          elim (Bool-cases (is_planned rx provider filters downloaded key d)) [
            | inl planned ↦ rw planned (
                In-cons (task_of rx provider filters key d)
                  (plan_loop rx provider filters downloaded bundles) later)
            | inr skipped ↦ rw skipped later
          ]
    ]

    -- The plan of a snapshot: in order, and the tasks of the wanted bundles.
    pub record IsPlan (bundles : Map Text AssetBundleDetail) (plan : List DownloadTask)
        : Type 0 where
      pub ascending : Ascending Before plan
      pub comes : All (Comes bundles) plan
      pub complete :
          (name : Text) (detail : AssetBundleDetail)
          → lookup name bundles ≡ some detail
          → Wanted downloaded name detail
          → In (task_of rx provider filters name detail) plan

    -- The planned downloads of a snapshot, a map without repeated names, are those of the bundles that are
    -- asked for, not skipped, and not recorded under their hash, all of them, strictly ascending by
    -- priority and path.
    pub build_download_tasks-IsPlan :
        (bundles : Map Text AssetBundleDetail)
        → IsMap bundles
        → IsPlan bundles (build_download_tasks rx provider filters bundles downloaded)
    unfolding build_download_tasks
    build_download_tasks-IsPlan bundles h = record {
      ascending = build_download_tasks-Ascending rx provider filters downloaded bundles h;
      comes =
          sort_by-All task_leb (Comes bundles) (plan_loop rx provider filters downloaded bundles)
            (plan_loop-Comes bundles bundles (IsMap-lookup bundles h));
      complete = λ name detail found w.
          In-sort_by task_leb (plan_loop rx provider filters downloaded bundles)
            (plan_loop-In bundles name detail found w);
    }
