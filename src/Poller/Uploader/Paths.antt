-- ===== src/Poller/Uploader/Paths.antt =====
-- Which bundles a commit reports as uploaded.
use moe_assets_updater_next.Prelude.{
  text_leb, ℕ, ◌≡◌, refl, ap, ◌∙◌, Bool, true, false, Option, List, [], ◌∷◌, ◌++◌, ◌==◌,
  if◌then◌else◌, Text, text_eq, Map, ◌≢◌, Bool-cases, inl, inr, extend, All, lookup, remove,
}
use moe_assets_updater_next.Hip.Codec.{Placement}
use moe_assets_updater_next.Poller.{
  Result, ok, err, BundleArtefacts, CommitBundleCompletion, Source, check_skip, zero_file, uploaded,
  Commit,
}
use moe_assets_updater_next.Poller.Transfers.{HipUploadFileJob}
use moe_assets_updater_next.Poller.Artefacts.{
  Collected, UploadOutcome, paths_of, report, count_or_zero, collect, nothing_collected, outcome_of,
  after_uploads, upload_bundle_artefacts,
}
use moe_assets_updater_next.Poller.Uploader.{
  insert_sorted, sort_by_path, skip_completions, Skipped, take_first_commit_extras,
}

-- `check_skip` reports a bundle that was not uploaded.
abbrev pub with_source : Source → Text → List Text → List Text
with_source check_skip path paths = paths
with_source zero_file path paths = path ∷ paths
with_source uploaded path paths = path ∷ paths

abbrev pub uploaded_paths : List CommitBundleCompletion → List Text
uploaded_paths [] = []
uploaded_paths (c ∷ cs) = with_source c.source c.path (uploaded_paths cs)

-- The bundles of all commits, of which the last stands first.
abbrev pub committed : List Commit → List Text
committed [] = []
committed (c ∷ cs) = committed cs ++ uploaded_paths c.completed_bundles

with_source-append :
    (s : Source) (p : Text) (ps qs : List Text)
    → with_source s p (ps ++ qs) ≡ with_source s p ps ++ qs
with_source-append check_skip p ps qs = refl
with_source-append zero_file p ps qs = refl
with_source-append uploaded p ps qs = refl

pub uploaded_paths-append :
    (cs ds : List CommitBundleCompletion)
    → uploaded_paths (cs ++ ds) ≡ uploaded_paths cs ++ uploaded_paths ds
uploaded_paths-append [] ds = refl
uploaded_paths-append (c ∷ cs) ds =
    ap (with_source c.source c.path) (uploaded_paths-append cs ds)
    ∙ with_source-append c.source c.path (uploaded_paths cs) (uploaded_paths ds)

-- All of them were skipped by the check.
abbrev pub OnlySkipped : List CommitBundleCompletion → Type 0
OnlySkipped cs = All (λ c. c.source ≡ check_skip) cs

insert_sorted-OnlySkipped :
    (c : CommitBundleCompletion) (cs : List CommitBundleCompletion)
    → c.source ≡ check_skip
    → OnlySkipped cs
    → OnlySkipped (insert_sorted c cs)
unfolding insert_sorted
insert_sorted-OnlySkipped c [] e h = (e, tt)
insert_sorted-OnlySkipped c (d ∷ ds) e h = elim (Bool-cases (text_leb c.path d.path)) [
  | inl before ↦ rw before (e, h)
  | inr after ↦ rw after (h.0, insert_sorted-OnlySkipped c ds e h.1)
]

sort_by_path-OnlySkipped :
    (cs : List CommitBundleCompletion) → OnlySkipped cs → OnlySkipped (sort_by_path cs)
unfolding sort_by_path
sort_by_path-OnlySkipped [] h = tt
sort_by_path-OnlySkipped (c ∷ cs) h =
    insert_sorted-OnlySkipped c (sort_by_path cs) h.0 (sort_by_path-OnlySkipped cs h.1)

skip_completions-OnlySkipped : (skipped : Map Text Text) → OnlySkipped (skip_completions skipped)
unfolding skip_completions
skip_completions-OnlySkipped [] = tt
skip_completions-OnlySkipped ((path, fingerprint) ∷ skipped) =
    (refl, skip_completions-OnlySkipped skipped)

uploaded_paths-OnlySkipped :
    (cs : List CommitBundleCompletion) → OnlySkipped cs → uploaded_paths cs ≡ []
uploaded_paths-OnlySkipped [] h = refl
uploaded_paths-OnlySkipped (c ∷ cs) h =
    ap (λ s. with_source s c.path (uploaded_paths cs)) h.0 ∙ uploaded_paths-OnlySkipped cs h.1

pub uploaded_paths-extras :
    (first : Bool) (skipped : Skipped)
    → uploaded_paths (take_first_commit_extras first skipped).1 ≡ []
unfolding take_first_commit_extras
uploaded_paths-extras true skipped = uploaded_paths-OnlySkipped _ (
    sort_by_path-OnlySkipped (skip_completions skipped.bundles)
      (skip_completions-OnlySkipped skipped.bundles))
uploaded_paths-extras false skipped = refl

with_source_if :
    (b : Bool) (p : Text) (ps : List Text)
    → with_source (if b then zero_file else uploaded) p ps ≡ p ∷ ps
with_source_if true p ps = refl
with_source_if false p ps = refl

uploaded_paths-report :
    (counts : Map Text ℕ) (bundles : List BundleArtefacts) (fingerprints : Map Text Text)
    → uploaded_paths (report counts bundles fingerprints) ≡ paths_of bundles
unfolding report
uploaded_paths-report counts [] fingerprints = refl
uploaded_paths-report counts (b ∷ bundles) fingerprints =
    with_source_if (count_or_zero (lookup b.bundle_path counts) == 0) b.bundle_path _
    ∙ ap (λ ps. b.bundle_path ∷ ps)
        (uploaded_paths-report counts bundles (remove b.bundle_path fingerprints))

-- None of them was skipped by the check.
abbrev pub NoneSkipped : List CommitBundleCompletion → Type 0
NoneSkipped cs = All (λ c. c.source ≢ check_skip) cs

source_if : (b : Bool) → (if b then zero_file else uploaded) ≢ check_skip
source_if true e = cc
source_if false e = cc

report-NoneSkipped :
    (counts : Map Text ℕ) (bundles : List BundleArtefacts) (fingerprints : Map Text Text)
    → NoneSkipped (report counts bundles fingerprints)
unfolding report
report-NoneSkipped counts [] fingerprints = tt
report-NoneSkipped counts (b ∷ bundles) fingerprints = (
  source_if (count_or_zero (lookup b.bundle_path counts) == 0),
  report-NoneSkipped counts bundles (remove b.bundle_path fingerprints),
)

-- A batch that was uploaded reports its bundles, each once and in order.
pub record Reported (bundles : List BundleArtefacts) (outcome : UploadOutcome) : Type 0 where
  pub succeeded : outcome.succeeded_bundles ≡ extend [] (paths_of bundles)
  pub completed : uploaded_paths outcome.completed_bundles ≡ paths_of bundles
  pub none_skipped : NoneSkipped outcome.completed_bundles

outcome_of-Reported :
    (bundles : List BundleArtefacts) (c : Collected) (r : Result (List (Option Placement)))
    (outcome : UploadOutcome)
    → after_uploads r (outcome_of bundles c) ≡ ok outcome
    → Reported bundles outcome
outcome_of-Reported bundles c (err e) outcome h = absurd cc
outcome_of-Reported bundles c (ok results) outcome h =
    let same : outcome_of bundles c results ≡ outcome = cc in
    rw⁻¹ same (record {
      succeeded = refl;
      completed = uploaded_paths-report c.file_counts bundles c.fingerprints;
      none_skipped = report-NoneSkipped c.file_counts bundles c.fingerprints;
    })

pub upload_bundle_artefacts-Reported :
    (is_file : Text → Bool) (upload : HipUploadFileJob → Option (Option Placement))
    (schedule : ℕ → ℕ) (max_in_flight : ℕ) (bundles : List BundleArtefacts)
    (outcome : UploadOutcome)
    → upload_bundle_artefacts is_file upload schedule max_in_flight bundles ≡ ok outcome
    → Reported bundles outcome
unfolding upload_bundle_artefacts
upload_bundle_artefacts-Reported is_file upload schedule max_in_flight bundles outcome h =
    outcome_of-Reported bundles (collect is_file bundles nothing_collected) _ outcome h
