-- ===== src/Execution/Run/Standing.antt =====
-- What the download record holds under one name, while some of the bundles of the name are left.
use moe_assets_updater_next.Prelude.{
  ℕ, zero, suc, ◌+◌, ◌<◌, ◌≡◌, refl, ap, inl, inr, true, false, Option, none, some, [], List, ◌∷◌,
  arith, Text, text_eq, text_beq_iff, ◌=?◌, sum_of, if◌then◌else◌, Bool-cases, lookup,
  lookup-insert, In,
}
use moe_assets_updater_next.Execution.{DownloadTask}
use moe_assets_updater_next.Execution.Run.{
  Tally, Fate, record_failed_bundle, record_completed_bundle, send_progress,
}
use moe_assets_updater_next.Execution.Run.Counted.{succeeds}
use moe_assets_updater_next.Execution.Run.Reported.{batch_save-Saves}

-- How often a name is left.
abbrev pub named : Text → DownloadTask → ℕ
named name t = if t.bundle_path =? name then 1 else 0

pub In-named :
    (name : Text) (t : DownloadTask) (tasks : List DownloadTask)
    → In t tasks
    → t.bundle_path ≡ name
    → 0 < sum_of (named name) tasks
In-named name t [] (i, e) h = absurd cc
In-named name t (u ∷ tasks) (zero, e) h =
    let same : u ≡ t = cc in
    let here = (text_beq_iff u.bundle_path name).1 (rw (same) h) in rw here (omega arith)
In-named name t (u ∷ tasks) (suc i, e) h = omega (arith, In-named name t tasks (i, e) h)

module _ (fate : Fate) (size : ℕ) where
  completed-lookup :
      (name : Text) (t : DownloadTask) (s : Tally)
      → lookup name (record_completed_bundle fate size t s).downloaded_assets
        ≡ (if t.bundle_path =? name then some t.bundle_hash else lookup name s.downloaded_assets)
  unfolding record_completed_bundle send_progress
  completed-lookup name t s =
      rw ((batch_save-Saves fate size _).downloaded)
        (lookup-insert t.bundle_path name t.bundle_hash s.downloaded_assets)

  failed-lookup :
      (name : Text) (t : DownloadTask) (s : Tally)
      → lookup name (record_failed_bundle t s).downloaded_assets ≡ lookup name s.downloaded_assets
  unfolding record_failed_bundle send_progress
  failed-lookup name t s = refl

  -- The bundles of a name all fail, or they all succeed and have one hash.
  abbrev pub Judged : Text → Option Text → DownloadTask → Type 0
  Judged name none t = t.bundle_path ≡ name → succeeds fate t ≡ false
  Judged name (some hash) t =
      t.bundle_path ≡ name → (succeeds fate t ≡ true) × (t.bundle_hash ≡ hash)

  -- What the record holds under the name, while so many of its bundles are left.
  abbrev pub Stands : Tally → Text → Option Text → ℕ → Tally → Type 0
  Stands start name none left s =
      lookup name s.downloaded_assets ≡ lookup name start.downloaded_assets
  Stands start name (some hash) left s = left ≡ 0 → lookup name s.downloaded_assets ≡ some hash

  pub Stands-completed :
      (start : Tally) (name : Text) (v : Option Text) (left : ℕ) (t : DownloadTask) (s : Tally)
      → Judged name v t
      → succeeds fate t ≡ true
      → Stands start name v (named name t + left) s
      → Stands start name v left (record_completed_bundle fate size t s)
  Stands-completed start name none left t s j e h = elim (Bool-cases (t.bundle_path =? name)) [
    | inl same ↦ let f = j ((text_beq_iff t.bundle_path name).0 same) in absurd cc
    | inr differs ↦ rw (completed-lookup name t s, differs) h
  ]
  Stands-completed start name (some hash) left t s j e h =
      elim (Bool-cases (t.bundle_path =? name)) [
        | inl same ↦
            let (_, hashed) = j ((text_beq_iff t.bundle_path name).0 same) in
            λ z. rw (completed-lookup name t s, same) (ap (λ x. some x) hashed)
        | inr differs ↦
            λ z. rw (completed-lookup name t s, differs) (h (rw differs (omega (arith, z))))
      ]

  pub Stands-failed :
      (start : Tally) (name : Text) (v : Option Text) (left : ℕ) (t : DownloadTask) (s : Tally)
      → Judged name v t
      → succeeds fate t ≡ false
      → Stands start name v (named name t + left) s
      → Stands start name v left (record_failed_bundle t s)
  Stands-failed start name none left t s j e h = rw (failed-lookup name t s) h
  Stands-failed start name (some hash) left t s j e h = elim (Bool-cases (t.bundle_path =? name)) [
    | inl same ↦ let (f, _) = j ((text_beq_iff t.bundle_path name).0 same) in absurd cc
    | inr differs ↦ λ z. rw (failed-lookup name t s) (h (rw differs (omega (arith, z))))
  ]
