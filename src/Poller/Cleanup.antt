-- ===== src/Poller/Cleanup.antt =====
-- The removal of local files in src/service/poller.rs: `resolve_region_cleanup_dir`,
-- `remove_region_work_dir_after_success`, `prune_empty_parent_dirs` and
-- `remove_committed_bundle_artefacts`. A canonical path is the list of its components, the last one
-- first, so that the root is the empty list; what the file system answers is given.
pub mod Guards
use moe_assets_updater_next.Prelude.{
  ℕ, zero, suc, ◌+◌, Bool, true, false, not, ◌&&◌, ◌||◌, Option, none, some, List, [], ◌∷◌, ltb,
  leb, length, ◌==◌, if◌then◌else◌, Text, ◌=?◌, text_eq, contains,
}
use moe_assets_updater_next.Poller.{Result, ok, err, config, execution, BundleArtefacts}

abbrev pub CanonicalPath : Type 0
CanonicalPath = List Text

-- `canonicalize`.
pub data Canonical : Type 0 where
  found : CanonicalPath → Canonical
  missing failed : Canonical

-- What the calls of one cleanup return: `canonicalize`, `metadata(..).is_dir()` and the working directory.
pub record FileSystem : Type 0 where
  pub canonical : Text → Canonical
  pub is_dir : CanonicalPath → Option Bool
  pub cwd : Option CanonicalPath
  pub removes : CanonicalPath → Bool

abbrev pub path_beq : CanonicalPath → CanonicalPath → Bool
path_beq [] [] = true
path_beq (a ∷ p) (b ∷ q) = (a =? b) && path_beq p q
path_beq [] (b ∷ q) = false
path_beq (a ∷ p) [] = false

-- `path.path_starts_with(base)`, by components: `base` is the path or one of the directories above it.
unfoldable pub path_starts_with : CanonicalPath → CanonicalPath → Bool
path_starts_with [] base = path_beq [] base
path_starts_with (a ∷ path) base = path_beq (a ∷ path) base || path_starts_with path base

-- `to_ascii_lowercase`.
unfoldable pub ascii_lowercase : Text → Text
ascii_lowercase [] = []
ascii_lowercase (c ∷ s) = (if leb 65 c && leb c 90 then c + 32 else c) ∷ ascii_lowercase s

abbrev pub is_prefix : Text → Text → Bool
is_prefix [] s = true
is_prefix (c ∷ p) [] = false
is_prefix (c ∷ p) (d ∷ s) = (c == d) && is_prefix p s

-- `haystack.contains(needle)`.
unfoldable pub contains_text : Text → Text → Bool
contains_text [] needle = is_prefix needle []
contains_text (c ∷ s) needle = is_prefix needle (c ∷ s) || contains_text s needle

-- What the configuration says of a region.
pub record RegionCleanup : Type 0 where
  pub remove_local_after_upload : Bool
  pub asset_save_dir : Option Text

module _ (to_str : Text → Option Text) (fs : FileSystem) where
  -- `file_name().and_then(to_str)`.
  abbrev pub dir_name : CanonicalPath → Option Text
  dir_name [] = none
  dir_name (name ∷ parent) = to_str name

  -- The last check: the directory has the region in its name.
  unfoldable pub check_name : Text → CanonicalPath → Option Text → Result (Option CanonicalPath)
  unfolding contains_text ascii_lowercase
  check_name region_name dir none = err config
  check_name region_name dir (some name) =
      if not (contains_text (ascii_lowercase name) (ascii_lowercase region_name))
      then err config
      else ok (some dir)

  unfoldable pub check_cwd :
      Text → CanonicalPath → Option CanonicalPath → Result (Option CanonicalPath)
  unfolding path_starts_with check_name
  check_cwd region_name dir none = err execution
  check_cwd region_name dir (some cwd) =
      if path_beq dir cwd || path_starts_with cwd dir
      then err config
      else check_name region_name dir (dir_name dir)

  unfoldable pub check_dir : Text → CanonicalPath → Option Bool → Result (Option CanonicalPath)
  unfolding check_cwd
  check_dir region_name dir none = err execution
  check_dir region_name dir (some is_dir) =
      if not is_dir
      then err config
      else if length dir == 0
      then err config
      else check_cwd region_name dir fs.cwd

  unfoldable pub check_canonical : Text → Canonical → Result (Option CanonicalPath)
  unfolding check_dir
  check_canonical region_name missing = ok none
  check_canonical region_name failed = err execution
  check_canonical region_name (found dir) = check_dir region_name dir (fs.is_dir dir)

  unfoldable pub resolve_region_cleanup_dir : Text → Text → Result (Option CanonicalPath)
  unfolding check_canonical
  resolve_region_cleanup_dir region_name configured_path =
      if length configured_path == 0
      then err config
      else check_canonical region_name (fs.canonical configured_path)

  -- The directory that is removed, with the result.
  abbrev pub Removal : Type 0
  Removal = Option CanonicalPath × Result (Unit {0})

  unfoldable pub remove_resolved : Result (Option CanonicalPath) → Removal
  remove_resolved (err e) = (none, err e)
  remove_resolved (ok none) = (none, ok tt)
  remove_resolved (ok (some dir)) = (some dir, if fs.removes dir then ok tt else err execution)

  unfoldable pub remove_save_dir : (Text → Text) → Text → Option Text → Removal
  unfolding remove_resolved resolve_region_cleanup_dir
  remove_save_dir trim region_name none = (none, ok tt)
  remove_save_dir trim region_name (some dir) =
      if length (trim dir) == 0
      then (none, ok tt)
      else remove_resolved (resolve_region_cleanup_dir region_name (trim dir))

  unfoldable pub remove_region_work_dir_after_success :
      (Text → Text) → Bool → Text → Option RegionCleanup → Removal
  unfolding remove_save_dir
  remove_region_work_dir_after_success trim hip_enabled region_name none = (none, ok tt)
  remove_region_work_dir_after_success trim hip_enabled region_name (some region) =
      if not hip_enabled
      then (none, ok tt)
      else if not region.remove_local_after_upload
      then (none, ok tt)
      else remove_save_dir trim region_name region.asset_save_dir

-- `remove_dir` of one directory.
pub data RemoveDir : Type 0 where
  gone absent not_empty refused : RemoveDir

-- What an upward walk did: the directories that it removed, the last one first, and whether it failed.
pub record Pruned : Type 0 where
  pub removed : List CanonicalPath
  pub fails : Bool

-- What the canonical form of a directory is: it may be gone, or it cannot be found out.
module _ (canonical : CanonicalPath → Canonical) (remove_dir : CanonicalPath → RemoveDir) where
  -- The answer of `remove_dir`, and the rest of the walk.
  abbrev pub after_remove : CanonicalPath → RemoveDir → Pruned → Pruned
  after_remove dir gone rest = record rest { removed = dir ∷ rest.removed }
  after_remove dir absent rest = rest
  after_remove dir not_empty rest = record { removed = []; fails = false }
  after_remove dir refused rest = record { removed = []; fails = true }

  -- `canonicalize` of the parent of a canonical path, which is that parent if it is there.
  abbrev pub after_canonical : Canonical → Pruned → Pruned
  after_canonical (found p) rest = rest
  after_canonical missing rest = record { removed = []; fails = false }
  after_canonical failed rest = record { removed = []; fails = true }

  -- The loop, from a canonical directory on.
  unfoldable pub climb : CanonicalPath → CanonicalPath → Pruned
  unfolding path_starts_with
  climb stop_root [] = record { removed = []; fails = false }
  climb stop_root (name ∷ parent) =
      let rest = after_canonical (canonical parent) (climb stop_root parent) in
      if path_beq (name ∷ parent) stop_root || not (path_starts_with (name ∷ parent) stop_root)
      then record { removed = []; fails = false }
      else after_remove (name ∷ parent) (remove_dir (name ∷ parent)) rest

  -- The first two steps of the walk, on the canonical form of the directory of the file.
  abbrev climb_from : CanonicalPath → Option Canonical → Pruned
  climb_from stop_root none = record { removed = []; fails = false }
  climb_from stop_root (some (found dir)) = climb stop_root dir
  climb_from stop_root (some missing) = record { removed = []; fails = false }
  climb_from stop_root (some failed) = record { removed = []; fails = true }

  -- Given the canonical forms of the root, and of the directory of the file if it has one.
  unfoldable pub prune_empty_parent_dirs : Canonical → Option Canonical → Pruned
  unfolding climb
  prune_empty_parent_dirs (found stop_root) dir = climb_from stop_root dir
  prune_empty_parent_dirs missing dir = record { removed = []; fails = false }
  prune_empty_parent_dirs failed dir = record { removed = []; fails = true }

pub record CleanupSummary : Type 0 where
  pub removed_files : ℕ
  pub removed_dirs : ℕ
  pub failed_files : ℕ
  pub failed_dirs : ℕ

unfoldable pub has_failures : CleanupSummary → Bool
has_failures summary = ltb 0 summary.failed_files || ltb 0 summary.failed_dirs

-- `remove_file` of one file.
pub data RemoveFile : Type 0 where
  file_gone file_absent file_refused : RemoveFile

module _ (remove_file : Text → RemoveFile) (prune : Text → Text → Pruned) where
  -- The counters after one file. A walk that fails counts none of its directories.
  unfoldable pub count_file : Text → Text → RemoveFile → CleanupSummary → CleanupSummary
  count_file file root file_gone summary =
      let s : CleanupSummary = record summary { removed_files = summary.removed_files + 1 } in
      if (prune file root).fails
      then record s { failed_dirs = s.failed_dirs + 1 }
      else record s { removed_dirs = s.removed_dirs + length (prune file root).removed }
  count_file file root file_absent summary = summary
  count_file file root file_refused summary = record summary {
    failed_files = summary.failed_files + 1;
  }

  unfoldable pub remove_files : Text → List Text → CleanupSummary → CleanupSummary
  unfolding count_file
  remove_files root [] summary = summary
  remove_files root (file ∷ files) summary =
      remove_files root files (count_file file root (remove_file file) summary)

  unfoldable pub remove_committed_bundle_artefacts :
      List BundleArtefacts → List Text → CleanupSummary → CleanupSummary
  unfolding remove_files contains
  remove_committed_bundle_artefacts [] succeeded summary = summary
  remove_committed_bundle_artefacts (bundle ∷ batch) succeeded summary =
      remove_committed_bundle_artefacts batch succeeded (
        if not (contains succeeded bundle.bundle_path)
        then summary
        else remove_files bundle.export_root bundle.files summary)
