-- ===== src/Poller/Attempt/Resume.antt =====
-- What is left to do after an attempt that completed.
use moe_assets_updater_next.Prelude.{◌≡◌, false, Option, some, ◌++◌, text_eq, keys}
use moe_assets_updater_next.Snapshot.{AssetBundleInfo, bundles_of, changed_bundle, diff}
use moe_assets_updater_next.Snapshot
use moe_assets_updater_next.Snapshot.Disk.{Disk, Faults, load_snapshot}
use moe_assets_updater_next.Poller.{ok}
use moe_assets_updater_next.Poller.Artefacts.{paths_of}
use moe_assets_updater_next.Poller.Snapshots.Next.{select_unprocessed}
use moe_assets_updater_next.Poller.Watermarks
use moe_assets_updater_next.Poller.Attempt.{World, Env}

module _ {Bytes : Type 0} (env : Env Bytes) where
  -- The encoding is total, and unpacking undoes packing.
  abbrev pub Lossless : Type 0
  Lossless =
      (info : AssetBundleInfo)
      → (bytes : Bytes) × (env.pack info ≡ some bytes) × (env.unpack bytes ≡ some info)

  -- A save meets no fault.
  abbrev pub Saves : Faults Bytes → Type 0
  Saves faults =
      (faults.mkdir_fails ≡ false) × (faults.write_fails ≡ false) × (faults.rename_fails ≡ false)

  -- What the next poll finds in the file after the attempt.
  abbrev pub Resumed :
      World Bytes → AssetBundleInfo → Option AssetBundleInfo → Faults Bytes → Disk Bytes → Type 0
  Resumed w new_info old later disk =
      (saved : AssetBundleInfo) × (load_snapshot env.pack env.unpack later disk.target
        ≡ Snapshot.Disk.ok (some saved))
      × ((diff (some saved) new_info).changed
          ≡ select_unprocessed (bundles_of old) (paths_of w.artefacts ++ keys w.skipped)
              new_info.bundles)
