-- ===== src/Execution/Run/Reported.antt =====
-- Each bundle of a run is reported and counted once.
use moe_assets_updater_next.Prelude.{
  ℕ, ◌+◌, ◌≡◌, refl, inl, inr, [], List, ◌∷◌, arith, Text, length, sum_of, sum_of-append, All,
  if◌then◌else◌, ltb, leb, ◌&&◌, Bool-cases, insert, text_eq,
}
use moe_assets_updater_next.Execution.{DownloadTask}
use moe_assets_updater_next.Execution.Run.{
  Tally, Fate, ok, record_failed_bundle, record_completed_bundle, run_tasks, ProgressUpdate,
  bundle_completed, bundle_failed, record_saved, send_progress, save_record, batch_save,
}
use moe_assets_updater_next.Execution.Run.Counted.{Uncancelled, succeeds, Counts, run_tasks-Counted}

-- What a completed bundle leaves, whether or not the record is saved.
abbrev update_weight : (Text → ℕ) → (Text → ℕ) → ProgressUpdate → ℕ
update_weight f g (bundle_completed path) = f path
update_weight f g (bundle_failed path) = g path
update_weight f g (record_saved n) = 0

-- The sum of a weight over the bundles reported as completed, with that of another over those reported as
-- failed.
abbrev pub reported : (Text → ℕ) → (Text → ℕ) → Tally → ℕ
reported f g s = sum_of (update_weight f g) s.sent

abbrev pub outcome_weight : Fate → (Text → ℕ) → (Text → ℕ) → DownloadTask → ℕ
outcome_weight fate f g t = if succeeds fate t then f t.bundle_path else g t.bundle_path

module _ (fate : Fate) (size : ℕ) where
  -- What the saves of a run leave as it is.
  pub record Saves (s s' : Tally) : Type 0 where
    pub downloaded : s'.downloaded_assets ≡ s.downloaded_assets
    pub completed : s'.completed ≡ s.completed
    pub failed : s'.failed ≡ s.failed
    pub reported_same : (f g : Text → ℕ) → reported f g s' ≡ reported f g s

  pub batch_save-Saves : (s : Tally) → Saves s (batch_save fate size s)
  unfolding batch_save save_record send_progress
  batch_save-Saves s = elim (Bool-cases (ltb 0 size && leb size s.pending_save_count)) [
    | inr unsaved ↦
        rw unsaved (record {
          downloaded = refl;
          completed = refl;
          failed = refl;
          reported_same = λ f g. refl;
        })
    | inl due ↦ elim (Bool-cases (fate.save_succeeds s.saves)) [
      | inl good ↦
          rw (due, good)
            (record {
              downloaded = refl;
              completed = refl;
              failed = refl;
              reported_same = λ f g. omega (
                arith,
                sum_of-append (update_weight f g) s.sent
                    (record_saved (length s.downloaded_assets) ∷ []),
              );
            })
      | inr bad ↦
          rw (due, bad)
            (record {
              downloaded = refl;
              completed = refl;
              failed = refl;
              reported_same = λ f g. refl;
            })
    ]
  ]

  completes-reported :
      (f g : Text → ℕ) (t : DownloadTask) (s : Tally)
      → reported f g (record_completed_bundle fate size t s) ≡ reported f g s + f t.bundle_path
  unfolding record_completed_bundle send_progress
  completes-reported f g t s = omega (
    arith,
    (batch_save-Saves (
          send_progress (bundle_completed t.bundle_path) (record s {
            completed = s.completed + 1;
            downloaded_assets = insert t.bundle_path t.bundle_hash s.downloaded_assets;
            pending_save_count = s.pending_save_count + 1;
          }))).reported_same
        f g,
    sum_of-append (update_weight f g) s.sent (bundle_completed t.bundle_path ∷ []),
  )

  reported-Counts : (f g : Text → ℕ) → Counts fate size (outcome_weight fate f g) (reported f g)
  unfolding record_failed_bundle send_progress
  reported-Counts f g = record {
    completes = λ t s e. rw e (completes-reported f g t s);
    fails = λ t s e. rw e (
        omega (arith, sum_of-append (update_weight f g) s.sent (bundle_failed t.bundle_path ∷ [])));
  }

  completed-Counts :
      Counts fate size (outcome_weight fate (λ _. 1) (λ _. 0)) (λ (s : Tally). s.completed)
  unfolding record_completed_bundle record_failed_bundle send_progress
  completed-Counts = record {
    completes = λ t s e. rw e (batch_save-Saves _).completed;
    fails = λ t s e. rw e (omega arith);
  }

  failed-Counts : Counts fate size (outcome_weight fate (λ _. 0) (λ _. 1)) (λ (s : Tally). s.failed)
  unfolding record_completed_bundle record_failed_bundle send_progress
  failed-Counts = record {
    completes = λ t s e. rw e (omega (arith, (batch_save-Saves _).failed));
    fails = λ t s e. rw e refl;
  }

  -- Unless a bundle is cancelled, the loop over the planned bundles ends, whatever the concurrency and the
  -- order in which its tasks end, and each bundle is reported and counted once: as completed when its
  -- download and its post-processing succeed, and as failed otherwise.
  pub run_tasks-Reported :
      (download_concurrency : ℕ) (tasks : List DownloadTask) (start : Tally)
      → All (Uncancelled fate) tasks
      → (s : Tally) × (run_tasks fate size download_concurrency tasks start ≡ ok s)
        × ((f g : Text → ℕ)
            → reported f g s ≡ reported f g start + sum_of (outcome_weight fate f g) tasks)
        × (s.completed ≡ start.completed + sum_of (outcome_weight fate (λ _. 1) (λ _. 0)) tasks)
        × (s.failed ≡ start.failed + sum_of (outcome_weight fate (λ _. 0) (λ _. 1)) tasks)
  run_tasks-Reported download_concurrency tasks start h =
      let (s, ended, counted) = run_tasks-Counted fate size tasks start download_concurrency h in
      (
        s,
        ended,
        λ f g. counted (outcome_weight fate f g) (reported f g) (reported-Counts f g),
        counted _ (λ (s : Tally). s.completed) completed-Counts,
        counted _ (λ (s : Tally). s.failed) failed-Counts,
      )
