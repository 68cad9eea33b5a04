-- ===== src/Poller/Artefacts.antt =====
-- `upload_bundle_artefacts` of src/service/poller.rs: the files of a batch are uploaded, and every bundle
-- of the batch is reported as completed. Which paths are files is given.
pub mod Completions
use moe_assets_updater_next.Prelude.{
  ℕ, ◌+◌, Bool, Option, none, some, List, [], ◌∷◌, ◌++◌, map, ◌==◌, if◌then◌else◌, Text, text_eq,
  Map, lookup, insert, remove, contains, add, extend,
}
use moe_assets_updater_next.Hip.Codec.{Placement}
use moe_assets_updater_next.Poller.{
  Result, ok, err, BundleArtefacts, CommitStats, CommitBundleCompletion, Source, zero_file,
  uploaded,
}
use moe_assets_updater_next.Poller.Transfers.{
  HipUploadFileJob, upload_hip_files_concurrently, count_shared, count_override,
}

-- The two maps and the jobs that the first loop fills.
pub record Collected : Type 0 where
  pub file_counts : Map Text ℕ
  pub fingerprints : Map Text Text
  pub jobs : List HipUploadFileJob

pub record UploadOutcome : Type 0 where
  pub stats : CommitStats
  pub succeeded_bundles : List Text
  pub completed_bundles : List CommitBundleCompletion

abbrev pub paths_of : List BundleArtefacts → List Text
paths_of [] = []
paths_of (b ∷ bundles) = b.bundle_path ∷ paths_of bundles

abbrev pub count_or_zero : Option ℕ → ℕ
count_or_zero none = 0
count_or_zero (some n) = n

abbrev pub fingerprint_or : Text → Option Text → Text
fingerprint_or hash none = hash
fingerprint_or hash (some fingerprint) = fingerprint

module _ (is_file : Text → Bool) where
  -- The jobs of one bundle, one for each file that is there.
  unfoldable pub jobs_of : BundleArtefacts → List Text → List HipUploadFileJob
  jobs_of b [] = []
  jobs_of b (file ∷ files) =
      let rest = jobs_of b files in
      if is_file file
      then record {
        bundle_path = b.bundle_path;
        bundle_hash = b.bundle_hash;
        export_root = b.export_root;
        file = file;
      }
        ∷ rest
      else rest

  unfoldable pub existing_files : List Text → ℕ
  existing_files [] = 0
  existing_files (file ∷ files) = (if is_file file then 1 else 0) + existing_files files

  unfoldable pub collect : List BundleArtefacts → Collected → Collected
  unfolding jobs_of existing_files
  collect [] c = c
  collect (b ∷ bundles) c = collect bundles (record {
    file_counts = insert b.bundle_path (existing_files b.files) c.file_counts;
    fingerprints = insert b.bundle_path b.bundle_hash c.fingerprints;
    jobs = c.jobs ++ jobs_of b b.files;
  })

-- The loop that reports the bundles; a fingerprint is taken out of its map.
unfoldable pub report :
    Map Text ℕ → List BundleArtefacts → Map Text Text → List CommitBundleCompletion
report counts [] fingerprints = []
report counts (b ∷ bundles) fingerprints =
    record {
      path = b.bundle_path;
      fingerprint = fingerprint_or b.bundle_hash (lookup b.bundle_path fingerprints);
      source = if count_or_zero (lookup b.bundle_path counts) == 0 then zero_file else uploaded;
    }
    ∷ report counts bundles (remove b.bundle_path fingerprints)

abbrev pub nothing_collected : Collected
nothing_collected = record { file_counts = []; fingerprints = []; jobs = [] }

-- The outcome, once the uploads have returned.
abbrev pub outcome_of : List BundleArtefacts → Collected → List (Option Placement) → UploadOutcome
outcome_of bundles c results = record {
  stats = record {
    skipped_by_layer1 = 0;
    skipped_by_check = 0;
    uploaded_shared = count_shared results;
    uploaded_override = count_override results;
  };
  succeeded_bundles = extend [] (paths_of bundles);
  completed_bundles = report c.file_counts bundles c.fingerprints;
}

abbrev pub after_uploads {ℓ} :
    {A : Type ℓ} → Result (List (Option Placement)) → (List (Option Placement) → A) → Result A
after_uploads (err e) f = err e
after_uploads (ok results) f = ok (f results)

unfoldable pub upload_bundle_artefacts :
    (Text → Bool)
    → (HipUploadFileJob → Option (Option Placement))
    → (ℕ → ℕ)
    → ℕ
    → List BundleArtefacts
    → Result UploadOutcome
unfolding collect upload_hip_files_concurrently report
upload_bundle_artefacts is_file upload schedule max_in_flight bundles =
    let c = collect is_file bundles nothing_collected in
    after_uploads (upload_hip_files_concurrently upload schedule c.jobs max_in_flight)
      (outcome_of bundles c)
