-- ===== src/Execution/Plan/Sorted.antt =====
-- The order of the planned downloads.
use moe_assets_updater_next.Prelude.{
  ◌≡◌, ◌≢◌, ◌<◌, ◌⊎◌, inl, inr, true, false, [], ◌∷◌, arith, Text, text_leb, text_leb_total,
  text_leb_trans, text_leb_antisymm, sort_by-Ascending, Ascending, Decides, All, Bool-cases, Map,
  lookup, IsMap, All-imp, sym, text_beq, text_beq_iff, ltb, none, text_eq,
}
use mathlib.Core.Path.{subst}
use moe_assets_updater_next.Snapshot.{AssetBundleDetail}
use moe_assets_updater_next.Regions.{RegionFiltersConfig, RegionProviderConfig, Regexes}
use moe_assets_updater_next.Execution.{DownloadTask}
use moe_assets_updater_next.Execution.Plan.{
  task_leb, is_planned, task_of, plan_loop, build_download_tasks,
}

-- The task of the lesser priority number is the earlier one, and among equals that of the lesser path.
abbrev pub Before : DownloadTask → DownloadTask → Type 0
Before a b =
    (a.priority < b.priority)
    ⊎ ((a.priority ≡ b.priority)
        × (text_leb a.bundle_path b.bundle_path ≡ true)
        × (a.bundle_path ≢ b.bundle_path))

Before-trans : (a b c : DownloadTask) → Before a b → Before b c → Before a c
Before-trans a b c (inl p) (inl q) = inl (omega arith)
Before-trans a b c (inl p) (inr q) = inl (omega (arith, q.0))
Before-trans a b c (inr p) (inl q) = inl (omega (arith, p.0))
Before-trans a b c (inr (p, s, n)) (inr (q, t, m)) = inr (
  omega (arith, p, q),
  text_leb_trans a.bundle_path b.bundle_path c.bundle_path s t,
  λ e. n (
      text_leb_antisymm a.bundle_path b.bundle_path s
        (subst (λ x. text_leb b.bundle_path x ≡ true) (sym e) t)),
)

task_leb-Decides :
    (a b : DownloadTask) → a.bundle_path ≢ b.bundle_path → Decides task_leb Before a b
unfolding task_leb
task_leb-Decides a b n = (λ h. upward a b n h, λ h. downward a b n h)
  where
    upward : (a b : DownloadTask) → a.bundle_path ≢ b.bundle_path → task_leb a b ≡ true → Before a b
    upward a b n h = elim (Bool-cases (ltb a.priority b.priority)) [
      | inl less ↦ inl (ground arith)
      | inr other ↦ inr (ground arith, ground arith, n)
    ]

    downward :
        (a b : DownloadTask) → a.bundle_path ≢ b.bundle_path → task_leb a b ≡ false → Before b a
    downward a b n h = elim (Bool-cases (ltb b.priority a.priority)) [
      | inl less ↦ inl (ground arith)
      | inr other ↦
          inr (
            ground arith,
            text_leb_total a.bundle_path b.bundle_path (ground arith),
            λ e. n (sym e),
          )
    ]

module _ (rx : Regexes) (provider : RegionProviderConfig) (filters : RegionFiltersConfig)
    (downloaded : Map Text Text) where
  Elsewhere : Text → DownloadTask → Type 0
  Elsewhere name t = name ≢ t.bundle_path

  -- The paths of the tasks are keys of the map.
  plan_loop-Elsewhere :
      (name : Text) (bundles : Map Text AssetBundleDetail)
      → lookup name bundles ≡ none
      → All (Elsewhere name) (plan_loop rx provider filters downloaded bundles)
  unfolding plan_loop lookup task_of Elsewhere
  plan_loop-Elsewhere name [] h = tt
  plan_loop-Elsewhere name ((key, detail) ∷ bundles) h = elim (Bool-cases (text_beq key name)) [
    | inl same ↦ absurd (ground (arith, h, same))
    | inr differs ↦
        let rest = plan_loop-Elsewhere name bundles (rw differs at h) in
        elim (Bool-cases (is_planned rx provider filters downloaded key detail)) [
          | inl planned ↦
              rw planned (λ e. absurd (ground (arith, (text_beq_iff key name).1 (sym e))), rest)
          | inr skipped ↦ rw skipped rest
        ]
  ]

  plan_loop-Decides :
      (bundles : Map Text AssetBundleDetail)
      → IsMap bundles
      → Ascending (Decides task_leb Before) (plan_loop rx provider filters downloaded bundles)
  unfolding plan_loop task_of Elsewhere
  plan_loop-Decides [] h = tt
  plan_loop-Decides ((name, detail) ∷ bundles) h =
      let rest = plan_loop-Decides bundles h.1 in
      elim (Bool-cases (is_planned rx provider filters downloaded name detail)) [
        | inl planned ↦ rw planned (
          All-imp (Elsewhere name)
              (Decides task_leb Before (task_of rx provider filters name detail))
              (λ t n. task_leb-Decides (task_of rx provider filters name detail) t n)
              (plan_loop rx provider filters downloaded bundles)
              (plan_loop-Elsewhere name bundles h.0),
          rest,
        )
        | inr skipped ↦ rw skipped rest
      ]

  pub build_download_tasks-Ascending :
      (bundles : Map Text AssetBundleDetail)
      → IsMap bundles
      → Ascending Before (build_download_tasks rx provider filters bundles downloaded)
  unfolding build_download_tasks
  build_download_tasks-Ascending bundles h =
      sort_by-Ascending task_leb Before Before-trans
        (plan_loop rx provider filters downloaded bundles) (plan_loop-Decides bundles h)
