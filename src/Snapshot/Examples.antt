-- ===== src/Snapshot/Examples.antt =====
-- Concrete snapshots, as in the tests of src/core/bundle_diff.rs.
use moe_assets_updater_next.Prelude.{
  ◌≡◌, refl, true, false, Option, none, some, [], ◌∷◌, arith, codes, Text, text_eq, text_beq, Map,
  lookup, insert,
}
use moe_assets_updater_next.Prelude.Int.{ℤ, pos, to_string}
use moe_assets_updater_next.Snapshot.{
  AssetBundleDetail, AssetBundleInfo, start_app, diff, fingerprint_for, merge,
}
use moe_assets_updater_next.Snapshot.Classify.{select_changed, changed-diff}
use moe_assets_updater_next.Snapshot.Disk.{
  Disk, Faults, ok, err, rename, save_snapshot, SnapshotError, save_snapshot_atomic,
}

abbrev detail : ℤ → ℤ → AssetBundleDetail
detail crc size = record {
  bundle_name = [];
  cache_file_name = [];
  cache_directory_name = [];
  hash = [];
  category = start_app;
  crc = crc;
  file_size = size;
  dependencies = [];
  paths = [];
  is_builtin = false;
  is_relocate = none;
  md5_hash = none;
  download_path = none;
}

abbrev info : Map Text AssetBundleDetail → AssetBundleInfo
info bundles = record { version = some (codes "1"); os = none; bundles = bundles }

abbrev old_info : AssetBundleInfo
old_info =
    info ((codes "foo", detail (pos 100) (pos 10)) ∷ (codes "bar", detail (pos 200) (pos 20)) ∷ [])

abbrev new_info : AssetBundleInfo
new_info = info (
    (codes "foo", detail (pos 100) (pos 10))
    ∷ (codes "bar", detail (pos 999) (pos 20))
    ∷ (codes "baz", detail (pos 300) (pos 30))
    ∷ [])

abbrev committed : Map Text AssetBundleDetail
committed = (codes "bar", detail (pos 999) (pos 20)) ∷ []

diff_detects :
    (diff (some old_info) new_info).stats
    ≡ record { added = 1; changed = 1; unchanged = 1; removed = 0 }
unfolding diff fingerprint_for to_string lookup insert text_beq
diff_detects = refl

stale_version : (merge (some old_info) (some (codes "2")) none committed).bundles ≡ committed
unfolding merge insert text_beq
stale_version = refl

changed-diff_example :
    (diff (some old_info) new_info).changed ≡ select_changed old_info.bundles new_info.bundles
unfolding lookup text_beq
changed-diff_example =
    changed-diff (some old_info) new_info (refl, (refl, tt)) (omega arith) (omega arith)

-- The encoding is the identity here.
abbrev keep : AssetBundleInfo → Option AssetBundleInfo
keep i = some i

abbrev no_faults : Faults AssetBundleInfo
no_faults = record {
  mkdir_fails = false;
  read_fails = false;
  write_fails = false;
  left_by_write = none;
  rename_fails = false;
  remove_fails = false;
}

abbrev disk : Disk AssetBundleInfo
disk = record { target = some old_info; tmp = none }

failed_rename :
    save_snapshot keep keep (record no_faults { rename_fails = true }) new_info disk
    ≡ (disk, err rename)
unfolding save_snapshot
failed_rename = refl

save_snapshot_atomic_example :
    let (after, result) = save_snapshot keep keep no_faults new_info disk in
    (result ≡ ok tt → (after.target ≡ some new_info) × (after.tmp ≡ none))
    × ((e : SnapshotError) → result ≡ err e → after.target ≡ some old_info)
save_snapshot_atomic_example = save_snapshot_atomic keep keep no_faults new_info disk
