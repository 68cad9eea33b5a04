-- ===== src/Poller.antt =====
-- src/service/poller.rs: how one region is brought up to date. A path is a text, and an error is the
-- constructor of `PollError` that the source builds, without its text.
pub mod Transfers
pub mod Artefacts
pub mod Uploader
pub mod Snapshots
pub mod Watermarks
pub mod Cleanup
pub mod Attempt
pub mod Filters
mod Examples
use moe_assets_updater_next.Prelude.{ℕ, List, Text}

pub data PollError : Type 0 where
  config hip execution : PollError

pub data Result {ℓ} (A : Type ℓ) : Type ℓ where
  ok : A → Result A
  err : PollError → Result A

pub record BundleArtefacts : Type 0 where
  pub bundle_path : Text
  pub bundle_hash : Text
  pub export_root : Text
  pub files : List Text

pub record CommitStats : Type 0 where
  pub skipped_by_layer1 : ℕ
  pub skipped_by_check : ℕ
  pub uploaded_shared : ℕ
  pub uploaded_override : ℕ

-- The texts `check_skip`, `zero_file` and `uploaded`.
pub data Source : Type 0 where
  check_skip zero_file uploaded : Source

pub record CommitBundleCompletion : Type 0 where
  pub path : Text
  pub fingerprint : Text
  pub source : Source

-- What one COMMIT tells the gateway.
pub record Commit : Type 0 where
  pub bundle_count : ℕ
  pub stats : CommitStats
  pub completed_bundles : List CommitBundleCompletion
