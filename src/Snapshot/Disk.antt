-- ===== src/Snapshot/Disk.antt =====
-- The snapshot file of src/core/bundle_diff.rs: the file itself and its `.tmp` sibling. The encoding
-- (msgpack and zstd) and the faults of the file system are parameters.
use moe_assets_updater_next.Prelude.{
  ◌≡◌, Bool, false, Option, none, some, arith, if◌then◌else◌, Text, Map, Option-cases, inl, inr,
}
use moe_assets_updater_next.Snapshot.{AssetBundleDetail, AssetBundleInfo, merge}

pub data SnapshotError : Type 0 where
  create_parent encode write_tmp rename read decode : SnapshotError

pub data Result {ℓ} (A : Type ℓ) : Type ℓ where
  ok : A → Result A
  err : SnapshotError → Result A

-- What the file holds, and what its `.tmp` sibling holds.
pub record Disk (Bytes : Type 0) : Type 0 where
  pub target : Option Bytes
  pub tmp : Option Bytes

-- Which operations of one call fail; a write that fails may leave anything in the sibling.
pub record Faults (Bytes : Type 0) : Type 0 where
  pub mkdir_fails : Bool
  pub read_fails : Bool
  pub write_fails : Bool
  pub left_by_write : Option Bytes
  pub rename_fails : Bool
  pub remove_fails : Bool

module _ {Bytes : Type 0} (pack : AssetBundleInfo → Option Bytes)
    (unpack : Bytes → Option AssetBundleInfo) where
  -- Write the sibling, then rename it over the file.
  unfoldable pub write_and_rename :
      Faults Bytes → Option Bytes → Disk Bytes → Disk Bytes × Result (Unit {0})
  write_and_rename faults none disk = (disk, err encode)
  write_and_rename faults (some bytes) disk =
      if faults.write_fails
      then (record disk { tmp = faults.left_by_write }, err write_tmp)
      else if faults.rename_fails
      then (record disk { tmp = if faults.remove_fails then some bytes else none }, err rename)
      else (record { target = some bytes; tmp = none }, ok tt)

  unfoldable pub save_snapshot :
      Faults Bytes → AssetBundleInfo → Disk Bytes → Disk Bytes × Result (Unit {0})
  unfolding write_and_rename
  save_snapshot faults info disk =
      if faults.mkdir_fails
      then (disk, err create_parent)
      else write_and_rename faults (pack info) disk

  abbrev decoded : Option AssetBundleInfo → Result (Option AssetBundleInfo)
  decoded none = err decode
  decoded (some info) = ok (some info)

  unfoldable pub load_snapshot : Faults Bytes → Option Bytes → Result (Option AssetBundleInfo)
  load_snapshot faults none = ok none
  load_snapshot faults (some bytes) = if faults.read_fails then err read else decoded (unpack bytes)

  unfoldable pub save_merged :
      Faults Bytes
      → Option Text
      → Option Text
      → Map Text AssetBundleDetail
      → Disk Bytes
      → Result (Option AssetBundleInfo)
      → Disk Bytes × Result (Unit {0})
  save_merged faults new_version new_os entries disk (err e) = (disk, err e)
  save_merged faults new_version new_os entries disk (ok existing) =
      save_snapshot faults (merge existing new_version new_os entries) disk

  unfoldable pub merge_snapshot :
      Faults Bytes
      → Option Text
      → Option Text
      → Map Text AssetBundleDetail
      → Disk Bytes
      → Disk Bytes × Result (Unit {0})
  unfolding save_merged
  merge_snapshot faults new_version new_os entries disk =
      save_merged faults new_version new_os entries disk (load_snapshot faults disk.target)

  -- Whatever fails, `save_snapshot` either succeeds, and then the file holds the packed snapshot and
  -- no sibling is left, or returns an error, and then the file is as it was.
  pub save_snapshot_atomic :
      (faults : Faults Bytes) (info : AssetBundleInfo) (disk : Disk Bytes)
      → let (after, result) = save_snapshot faults info disk in
        (result ≡ ok tt → (after.target ≡ pack info) × (after.tmp ≡ none))
        × ((e : SnapshotError) → result ≡ err e → after.target ≡ disk.target)
  unfolding save_snapshot
  save_snapshot_atomic faults info disk = (ground arith, λ e h. ground arith)

  pub load-save_snapshot :
      ((info : AssetBundleInfo) (bytes : Bytes) → pack info ≡ some bytes → unpack bytes ≡ some info)
      → (faults later : Faults Bytes) (info : AssetBundleInfo) (disk : Disk Bytes)
      → later.read_fails ≡ false
      → (save_snapshot faults info disk).1 ≡ ok tt
      → load_snapshot later (save_snapshot faults info disk).0.target ≡ ok (some info)
  unfolding save_snapshot load_snapshot
  load-save_snapshot law faults later info disk hr h = elim (Option-cases (pack info)) [
    | inl failed ↦ absurd (ground arith)
    | inr (bytes, packed) ↦ ground (arith, law info bytes packed)
  ]
