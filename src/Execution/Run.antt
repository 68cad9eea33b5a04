-- ===== src/Execution/Run.antt =====
-- `execute_with_filter` of src/core/asset_execution.rs, from the planned downloads on. A bundle is downloaded
-- and then post-processed; what becomes of each is given, and so are the order in which the two sets of tasks
-- end and whether each save of the record succeeds. A job that waits for its post-processing stands here as
-- the task it was made of, whose path and hash it carries; the updates that only measure are left out.
pub mod Ends
pub mod Reported
pub mod Counted
pub mod Recorded
pub mod Standing
pub mod Again
use moe_assets_updater_next.Prelude.{
  ℕ, zero, suc, ◌+◌, ◌*◌, Bool, true, false, ◌&&◌, List, [], ◌∷◌, ◌++◌, length, take, drop, ltb,
  leb, if◌then◌else◌, Text, text_eq, Map, insert, join_next, max,
}
use moe_assets_updater_next.Execution.{DownloadTask}

-- What becomes of a download or of a post-processing: it succeeds, it ends with `Cancelled`, or with
-- another error.
pub data BundleOutcome : Type 0 where
  done cancelled failed : BundleOutcome

-- The updates of `ExecutionProgressUpdate` that report what became of a bundle or of a save.
pub data ProgressUpdate : Type 0 where
  bundle_completed bundle_failed : Text → ProgressUpdate
  record_saved : ℕ → ProgressUpdate

-- The variables of the function, with the file of the record, how often it was saved, and what was sent.
pub record Tally : Type 0 where
  pub downloaded_assets : Map Text Text
  pub completed : ℕ
  pub failed : ℕ
  pub pending_save_count : ℕ
  pub record_file : Map Text Text
  pub saves : ℕ
  pub sent : List ProgressUpdate

pub data ExecutionError : Type 0 where
  cancelled download_record chart_hashes task_filter asset_info missing_asset_save_dir :
      ExecutionError
  runtime_cookies unfinished : ExecutionError

pub data Ran {ℓ} (A : Type ℓ) : Type ℓ where
  ok : A → Ran A
  err : ExecutionError → Ran A

-- Which of two sets yields the next task, and which of its tasks.
pub record Pick : Type 0 where
  pub download_first : Bool
  pub index : ℕ

-- What a run meets.
pub record Fate : Type 0 where
  pub download : DownloadTask → BundleOutcome
  pub post_process : DownloadTask → BundleOutcome
  pub save_succeeds : ℕ → Bool
  pub pick : ℕ → Pick

unfoldable pub send_progress : ProgressUpdate → Tally → Tally
send_progress update s = record s { sent = s.sent ++ update ∷ [] }

-- `failed += 1`, and the update.
unfoldable pub record_failed_bundle : DownloadTask → Tally → Tally
unfolding send_progress
record_failed_bundle t s =
    send_progress (bundle_failed t.bundle_path) (record s { failed = s.failed + 1 })

module _ (fate : Fate) where
  -- `save_download_record_on_blocking_thread`: the file is written when the save succeeds.
  unfoldable pub save_record : Tally → Tally × Bool
  save_record s =
      let saved = fate.save_succeeds s.saves in
      (
        record s {
          record_file = if saved then s.downloaded_assets else s.record_file;
          saves = s.saves + 1;
        },
        saved,
      )

  -- The save in the middle of a run: its failure is logged.
  abbrev pub after_batch_save : Tally × Bool → Tally
  after_batch_save (s, saved) =
      let reported =
        if saved then send_progress (record_saved (length s.downloaded_assets)) s else s in
      record reported { pending_save_count = 0 }

  unfoldable pub batch_save : ℕ → Tally → Tally
  unfolding save_record send_progress
  batch_save batch_save_size s =
      if ltb 0 batch_save_size && leb batch_save_size s.pending_save_count
      then after_batch_save (save_record s)
      else s

  unfoldable pub record_completed_bundle : ℕ → DownloadTask → Tally → Tally
  unfolding batch_save send_progress insert
  record_completed_bundle batch_save_size t s = batch_save batch_save_size (
      send_progress (bundle_completed t.bundle_path) (record s {
        completed = s.completed + 1;
        downloaded_assets = insert t.bundle_path t.bundle_hash s.downloaded_assets;
        pending_save_count = s.pending_save_count + 1;
      }))

  module _ (batch_save_size : ℕ) where
    -- A download has ended; the rest of the loop takes the jobs that wait for post-processing.
    abbrev pub after_download :
        BundleOutcome
        → DownloadTask
        → List DownloadTask
        → Tally
        → (List DownloadTask → Tally → Ran Tally)
        → Ran Tally
    after_download done t posts s rest = rest (posts ++ t ∷ []) s
    after_download cancelled t posts s rest = err cancelled
    after_download failed t posts s rest = rest posts (record_failed_bundle t s)

    -- A post-processing has ended.
    abbrev pub after_post_process :
        BundleOutcome → DownloadTask → Tally → (Tally → Ran Tally) → Ran Tally
    after_post_process done t s rest = rest (record_completed_bundle batch_save_size t s)
    after_post_process cancelled t s rest = err cancelled
    after_post_process failed t s rest = rest (record_failed_bundle t s)

    -- The `while` over the two sets, on fuel; `pending` are the tasks not yet spawned.
    unfoldable pub run_loop :
        ℕ → List DownloadTask → List DownloadTask → List DownloadTask → Tally → Ran Tally
    unfolding join_next record_failed_bundle record_completed_bundle
    run_loop n [] [] pending s = ok s
    run_loop zero (j ∷ joins) posts pending s = err unfinished
    run_loop zero [] (p ∷ posts) pending s = err unfinished
    run_loop (suc n) (j ∷ joins) [] pending s =
        let r = join_next (fate.pick n).index j joins in
        after_download (fate.download r.0) r.0 [] s
          (λ posts s'. run_loop n (r.1 ++ take 1 pending) posts (drop 1 pending) s')
    run_loop (suc n) [] (p ∷ posts) pending s =
        let r = join_next (fate.pick n).index p posts in
        after_post_process (fate.post_process r.0) r.0 s (λ s'. run_loop n [] r.1 pending s')
    run_loop (suc n) (j ∷ joins) (p ∷ posts) pending s =
        let d = join_next (fate.pick n).index j joins in
        let q = join_next (fate.pick n).index p posts in
        let downloaded =
          after_download (fate.download d.0) d.0 (p ∷ posts) s
            (λ posts' s'. run_loop n (d.1 ++ take 1 pending) posts' (drop 1 pending) s') in
        let processed =
          after_post_process (fate.post_process q.0) q.0 s
            (λ s'. run_loop n (j ∷ joins) q.1 pending s') in
        if (fate.pick n).download_first then downloaded else processed

    -- The first tasks are spawned, and the loop runs: each task takes two rounds at most.
    unfoldable pub run_tasks : ℕ → List DownloadTask → Tally → Ran Tally
    unfolding run_loop
    run_tasks download_concurrency tasks s =
        let c = max download_concurrency 1 in
        run_loop (2 * length tasks) (take c tasks) [] (drop c tasks) s
