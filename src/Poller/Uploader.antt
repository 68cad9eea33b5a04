-- ===== src/Poller/Uploader.antt =====
-- `run_uploader`, `flush_batch`, `flush_metadata_only_commit` and `take_first_commit_extras` of
-- src/service/poller.rs. What the gateway and the file system do during the flush of a number is its
-- `Luck`; a cancellation is the end of the artefacts.
pub mod Paths
pub mod Delivered
pub mod Runs
use moe_assets_updater_next.Prelude.{
  text_leb, ℕ, zero, suc, ◌+◌, Bool, true, false, not, ◌&&◌, ◌||◌, Option, none, some, List, [],
  ◌∷◌, ◌++◌, ltb, leb, ◌==◌, if◌then◌else◌, length, Text, text_eq, Map, lookup, contains, extend,
}
use moe_assets_updater_next.Hip.Codec.{Placement}
use moe_assets_updater_next.Snapshot.{AssetBundleDetail, AssetBundleInfo}
use moe_assets_updater_next.Snapshot.Disk.{Disk, Faults, merge_snapshot}
use moe_assets_updater_next.Poller.{
  Result, ok, err, hip, execution, BundleArtefacts, CommitStats, CommitBundleCompletion, check_skip,
  Commit,
}
use moe_assets_updater_next.Poller.Cleanup.{
  RemoveFile, Pruned, has_failures, remove_committed_bundle_artefacts,
}
use moe_assets_updater_next.Poller.Transfers.{HipUploadFileJob}
use moe_assets_updater_next.Poller.Artefacts.{UploadOutcome, upload_bundle_artefacts}

-- `sort_by` on the path: a stable sort.
unfoldable pub insert_sorted :
    CommitBundleCompletion → List CommitBundleCompletion → List CommitBundleCompletion
unfolding text_leb
insert_sorted c [] = c ∷ []
insert_sorted c (d ∷ ds) =
    let rest = insert_sorted c ds in if text_leb c.path d.path then c ∷ d ∷ ds else d ∷ rest

unfoldable pub sort_by_path : List CommitBundleCompletion → List CommitBundleCompletion
unfolding insert_sorted
sort_by_path [] = []
sort_by_path (c ∷ cs) = insert_sorted c (sort_by_path cs)

unfoldable pub skip_completions : Map Text Text → List CommitBundleCompletion
skip_completions [] = []
skip_completions ((path, fingerprint) ∷ skipped) =
    record { path = path; fingerprint = fingerprint; source = check_skip }
    ∷ skip_completions skipped

-- What is shared with the filter: its two counters and the bundles that the check skipped.
pub record Skipped : Type 0 where
  pub layer1 : ℕ
  pub check : ℕ
  pub bundles : Map Text Text

-- The counters and completions of the first commit, and those of a later one.
unfoldable pub take_first_commit_extras : Bool → Skipped → (ℕ × ℕ) × List CommitBundleCompletion
unfolding sort_by_path skip_completions
take_first_commit_extras first_commit_pending skipped =
    if first_commit_pending
    then ((skipped.layer1, skipped.check), sort_by_path (skip_completions skipped.bundles))
    else ((0, 0), [])

pub record Luck (Bytes : Type 0) : Type 0 where
  pub connects : Bool
  pub is_file : Text → Bool
  pub upload : HipUploadFileJob → Option (Option Placement)
  pub schedule : ℕ → ℕ
  pub max_in_flight : ℕ
  pub commits : Bool
  pub faults : Faults Bytes
  pub remove_file : Text → RemoveFile
  pub prune : Text → Text → Pruned
  pub skipped : Skipped

-- What the cleanup after a commit comes to; `prune` is `prune_empty_parent_dirs` on the canonical forms of
-- its arguments.
abbrev pub cleanup_fails : {Bytes : Type 0} → Luck Bytes → List BundleArtefacts → List Text → Bool
cleanup_fails luck batch succeeded = has_failures (
    remove_committed_bundle_artefacts luck.remove_file luck.prune batch succeeded
      (record { removed_files = 0; removed_dirs = 0; failed_files = 0; failed_dirs = 0 }))

-- The variables of `run_uploader`, with the commits that the gateway has acknowledged, the last one
-- first, and the snapshot file.
pub record Uploader (Bytes : Type 0) : Type 0 where
  pub batch : List BundleArtefacts
  pub batch_bytes : ℕ
  pub processed_all : List Text
  pub batch_index : ℕ
  pub first_commit_pending : Bool
  pub session_open : Bool
  pub commits : List Commit
  pub disk : Disk Bytes

-- The settings that are read: the thresholds and `remove_local_after_upload`.
pub record Settings : Type 0 where
  pub commit_batch_bundles : ℕ
  pub commit_batch_bytes : ℕ
  pub remove_local : Bool

-- The details of the bundles that the new snapshot has.
unfoldable pub details_of : List Text → Map Text AssetBundleDetail → Map Text AssetBundleDetail
details_of [] bundles = []
details_of (name ∷ names) bundles = elim (lookup name bundles) [
  | none ↦ details_of names bundles
  | some detail ↦ (name, detail) ∷ details_of names bundles
]

module _ {Bytes : Type 0} (pack : AssetBundleInfo → Option Bytes)
    (unpack : Bytes → Option AssetBundleInfo) (settings : Settings)
    (new_info : AssetBundleInfo) where
  abbrev pub Step : Type 0
  Step = Uploader Bytes × Result (Unit {0})

  -- The snapshot is merged after a commit; a failure is only logged.
  unfoldable pub merge_committed :
      Faults Bytes → Map Text AssetBundleDetail → Disk Bytes → Disk Bytes
  unfolding merge_snapshot
  merge_committed faults [] disk = disk
  merge_committed faults (d ∷ details) disk =
      (merge_snapshot pack unpack faults new_info.version new_info.os (d ∷ details) disk).0

  -- From the commit of a batch on.
  unfoldable pub commit_batch : Luck Bytes → UploadOutcome → Uploader Bytes → Step
  unfolding take_first_commit_extras merge_committed details_of
  commit_batch luck outcome u =
      let extras = take_first_commit_extras u.first_commit_pending luck.skipped in
      let sent = record u { first_commit_pending = false; session_open = false } in
      if not luck.commits
      then (sent, err hip)
      else (let done = record sent {
        commits =
            record {
              bundle_count = length outcome.succeeded_bundles;
              stats = record {
                skipped_by_layer1 = extras.0.0;
                skipped_by_check = extras.0.1;
                uploaded_shared = outcome.stats.uploaded_shared;
                uploaded_override = outcome.stats.uploaded_override;
              };
              completed_bundles = extras.1 ++ outcome.completed_bundles;
            }
            ∷ u.commits;
        disk =
            merge_committed luck.faults (details_of outcome.succeeded_bundles new_info.bundles)
              u.disk;
      } in
          if settings.remove_local && cleanup_fails luck u.batch outcome.succeeded_bundles
          then (done, err execution)
          else (
            record done {
              processed_all = extend u.processed_all outcome.succeeded_bundles;
              batch = [];
              batch_bytes = 0;
            },
            ok tt,
          ))

  abbrev pub after_upload : Luck Bytes → Result UploadOutcome → Uploader Bytes → Step
  after_upload luck (err e) u = (u, err e)
  after_upload luck (ok outcome) u = commit_batch luck outcome u

  unfoldable pub flush_batch : Luck Bytes → Uploader Bytes → Step
  unfolding upload_bundle_artefacts commit_batch
  flush_batch luck u =
      if length u.batch == 0
      then (u, ok tt)
      else if not u.session_open && not luck.connects
      then (u, err hip)
      else after_upload luck
          (upload_bundle_artefacts luck.is_file luck.upload luck.schedule luck.max_in_flight
            u.batch)
          (record u { session_open = true })

  -- The commit without a batch, given the completions of the first commit.
  unfoldable pub commit_metadata :
      Luck Bytes → (ℕ × ℕ) × List CommitBundleCompletion → Uploader Bytes → Step
  commit_metadata luck (counters, []) u = (record u { session_open = false }, ok tt)
  commit_metadata luck (counters, c ∷ completed) u =
      if not u.session_open && not luck.connects
      then (u, err hip)
      else if not luck.commits
      then (record u { session_open = false }, err hip)
      else (
        record u {
          session_open = false;
          commits =
              record {
                bundle_count = 0;
                stats = record {
                  skipped_by_layer1 = counters.0;
                  skipped_by_check = counters.1;
                  uploaded_shared = 0;
                  uploaded_override = 0;
                };
                completed_bundles = c ∷ completed;
              }
              ∷ u.commits;
        },
        ok tt,
      )

  unfoldable pub flush_metadata_only_commit : Luck Bytes → Uploader Bytes → Step
  unfolding take_first_commit_extras commit_metadata
  flush_metadata_only_commit luck u =
      commit_metadata luck (take_first_commit_extras u.first_commit_pending luck.skipped)
        (record u { first_commit_pending = false })

  module _ (world : ℕ → Luck Bytes) (bytes_of : BundleArtefacts → ℕ) where
    -- One artefact: it joins the batch, which is flushed at a threshold.
    unfoldable pub receive : BundleArtefacts → Uploader Bytes → Step
    unfolding flush_batch
    receive art u =
        let batch_bytes = u.batch_bytes + bytes_of art in
        let batch = u.batch ++ art ∷ [] in
        let taken = record u { batch = batch; batch_bytes = batch_bytes } in
        if (ltb 0 settings.commit_batch_bundles && leb settings.commit_batch_bundles (length batch))
          || (ltb 0 settings.commit_batch_bytes && leb settings.commit_batch_bytes batch_bytes)
        then flush_batch (world (u.batch_index + 1))
            (record taken { batch_index = u.batch_index + 1 })
        else (taken, ok tt)

    -- After the loop.
    unfoldable pub finish_run : Uploader Bytes → Step
    unfolding flush_batch flush_metadata_only_commit
    finish_run u =
        if not (length u.batch == 0)
        then flush_batch (world (u.batch_index + 1)) (record u { batch_index = u.batch_index + 1 })
        else if u.first_commit_pending
        then flush_metadata_only_commit (world (u.batch_index + 1)) u
        else (record u { session_open = false }, ok tt)

    abbrev pub and_then : Step → (Uploader Bytes → Step) → Step
    and_then (u, err e) next = (u, err e)
    and_then (u, ok tt) next = next u

    unfoldable pub receive_all : List BundleArtefacts → Uploader Bytes → Step
    unfolding receive
    receive_all [] u = (u, ok tt)
    receive_all (art ∷ arts) u = and_then (receive art u) (λ v. receive_all arts v)

    abbrev pub new_uploader : Disk Bytes → Uploader Bytes
    new_uploader disk = record {
      batch = [];
      batch_bytes = 0;
      processed_all = [];
      batch_index = 0;
      first_commit_pending = true;
      session_open = false;
      commits = [];
      disk = disk;
    }

    -- The whole task; it returns `processed_all` of the state where it ends well.
    unfoldable pub run_uploader : List BundleArtefacts → Disk Bytes → Step
    unfolding receive_all finish_run
    run_uploader arts disk = and_then (receive_all arts (new_uploader disk)) finish_run
