-- ===== src/Snapshot.antt =====
-- src/core/bundle_diff.rs, with the data of src/core/asset_execution.rs that it reads: which
-- bundles changed since the last committed snapshot, and how a snapshot is carried on.
pub mod Classify
pub mod Resume
pub mod Disk
mod Examples
use moe_assets_updater_next.Prelude.{
  ℕ, ◌+◌, Bool, true, false, ◌&&◌, Option, none, some, List, [], ◌∷◌, ◌++◌, if◌then◌else◌, ◌=?◌,
  Text, text_eq, text_beq, Map, lookup, insert,
}
use moe_assets_updater_next.Prelude.Int.{ℤ, to_string, pos_part}

pub data AssetCategory : Type 0 where
  start_app on_demand : AssetCategory
  other : Text → AssetCategory

pub record AssetBundleDetail : Type 0 where
  pub bundle_name : Text
  pub cache_file_name : Text
  pub cache_directory_name : Text
  pub hash : Text
  pub category : AssetCategory
  pub crc : ℤ
  pub file_size : ℤ
  pub dependencies : List Text
  pub paths : List Text
  pub is_builtin : Bool
  pub is_relocate : Option Bool
  pub md5_hash : Option Text
  pub download_path : Option Text

pub record AssetBundleInfo : Type 0 where
  pub version : Option Text
  pub os : Option Text
  pub bundles : Map Text AssetBundleDetail

pub record ChangedBundle : Type 0 where
  pub bundle_name : Text
  pub fingerprint : Text
  pub size : ℕ

pub record DiffStats : Type 0 where
  pub added : ℕ
  pub changed : ℕ
  pub unchanged : ℕ
  pub removed : ℕ

pub record BundleDiff : Type 0 where
  pub changed : List ChangedBundle
  pub stats : DiffStats

-- The fingerprint and the size.
unfoldable pub fingerprint_for : AssetBundleDetail → Text × ℕ
fingerprint_for detail = (to_string detail.crc, pos_part detail.file_size)

-- The loop that fills `old_fp`.
unfoldable pub old_fingerprints : Map Text Text → Map Text AssetBundleDetail → Map Text Text
old_fingerprints fps [] = fps
old_fingerprints fps ((name, detail) ∷ bundles) =
    old_fingerprints (insert name (fingerprint_for detail).0 fps) bundles

abbrev pub changed_bundle : Text → AssetBundleDetail → ChangedBundle
changed_bundle name detail = record {
  bundle_name = name;
  fingerprint = (fingerprint_for detail).0;
  size = (fingerprint_for detail).1;
}

-- One round of the loop over the new bundles: `previous` is `old_fp.get(name)`.
unfoldable pub diff_step : Option Text → Text → AssetBundleDetail → BundleDiff → BundleDiff
diff_step none name detail d =
    let stats = d.stats in
    record {
      changed = d.changed ++ changed_bundle name detail ∷ [];
      stats = record stats { added = stats.added + 1 };
    }
diff_step (some previous) name detail d =
    let stats = d.stats in
    if previous =? (fingerprint_for detail).0
    then record d { stats = record stats { unchanged = stats.unchanged + 1 } }
    else record {
      changed = d.changed ++ changed_bundle name detail ∷ [];
      stats = record stats { changed = stats.changed + 1 };
    }

unfoldable pub diff_loop : Map Text Text → Map Text AssetBundleDetail → BundleDiff → BundleDiff
unfolding diff_step
diff_loop old_fp [] d = d
diff_loop old_fp ((name, detail) ∷ bundles) d =
    diff_loop old_fp bundles (diff_step (lookup name old_fp) name detail d)

-- The loop over the old names.
unfoldable pub count_removed : Map Text AssetBundleDetail → Map Text AssetBundleDetail → ℕ → ℕ
count_removed new [] removed = removed
count_removed new ((name, detail) ∷ old) removed =
    count_removed new old (elim (lookup name new) [ none ↦ removed + 1 | some _ ↦ removed ])

abbrev pub no_changes : BundleDiff
no_changes = record {
  changed = [];
  stats = record { added = 0; changed = 0; unchanged = 0; removed = 0 };
}

-- The bundles of `old`, none of which there are without a snapshot.
abbrev pub bundles_of : Option AssetBundleInfo → Map Text AssetBundleDetail
bundles_of none = []
bundles_of (some info) = info.bundles

unfoldable pub diff : Option AssetBundleInfo → AssetBundleInfo → BundleDiff
unfolding old_fingerprints diff_loop count_removed
diff old new =
    let d = diff_loop (old_fingerprints [] (bundles_of old)) new.bundles no_changes in
    let stats = d.stats in
    record d { stats = record stats { removed = count_removed new.bundles (bundles_of old) 0 } }

abbrev pub option_eq : Option Text → Option Text → Bool
option_eq none none = true
option_eq (some a) (some b) = a =? b
option_eq _ _ = false

-- The snapshot that `merge_snapshot` starts from: what is on disk, unless it is of another version
-- or system.
unfoldable pub merge_base : Option AssetBundleInfo → Option Text → Option Text → AssetBundleInfo
merge_base none new_version new_os = record { version = new_version; os = new_os; bundles = [] }
merge_base (some prev) new_version new_os =
    if option_eq prev.version new_version && option_eq prev.os new_os
    then prev
    else record { version = new_version; os = new_os; bundles = [] }

unfoldable pub insert_all :
    Map Text AssetBundleDetail → Map Text AssetBundleDetail → Map Text AssetBundleDetail
insert_all merged [] = merged
insert_all merged ((name, detail) ∷ entries) = insert_all (insert name detail merged) entries

unfoldable pub merge :
    Option AssetBundleInfo
    → Option Text
    → Option Text
    → Map Text AssetBundleDetail
    → AssetBundleInfo
unfolding merge_base insert_all
merge existing new_version new_os entries =
    let base = merge_base existing new_version new_os in
    record base { bundles = insert_all base.bundles entries }
