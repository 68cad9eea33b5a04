-- ===== src/Poller/Snapshots.antt =====
-- `build_next_snapshot` and `persist_processed_snapshot` of src/service/poller.rs: the snapshot that an
-- attempt leaves for the next `diff`.
pub mod Next
use moe_assets_updater_next.Prelude.{
  Bool, true, false, Option, none, some, List, [], ◌∷◌, if◌then◌else◌, Text, text_eq, Map, lookup,
  insert, contains,
}
use moe_assets_updater_next.Prelude.Int.{int_beq}
use moe_assets_updater_next.Snapshot.{AssetBundleDetail, AssetBundleInfo, bundles_of}
use moe_assets_updater_next.Snapshot.Disk.{Disk, Faults, save_snapshot}

-- Case B: `prev` is `old.bundles.get(name)`.
unfoldable pub carry_forward :
    Option AssetBundleDetail
    → Text
    → AssetBundleDetail
    → Map Text AssetBundleDetail
    → Map Text AssetBundleDetail
carry_forward none name detail carry = carry
carry_forward (some prev) name detail carry =
    if int_beq prev.crc detail.crc then insert name detail carry else carry

-- The loop over the new bundles.
unfoldable pub carry_loop :
    Map Text AssetBundleDetail
    → List Text
    → Map Text AssetBundleDetail
    → Map Text AssetBundleDetail
    → Map Text AssetBundleDetail
unfolding carry_forward contains
carry_loop old processed [] carry = carry
carry_loop old processed ((name, detail) ∷ new) carry = carry_loop old processed new (
    if contains processed name
    then insert name detail carry
    else carry_forward (lookup name old) name detail carry)

unfoldable pub build_next_snapshot :
    AssetBundleInfo → Option AssetBundleInfo → List Text → AssetBundleInfo
unfolding carry_loop
build_next_snapshot new_info old_info processed = record {
  version = new_info.version;
  os = new_info.os;
  bundles = carry_loop (bundles_of old_info) processed new_info.bundles [];
}

-- A failure is only logged.
unfoldable pub persist_processed_snapshot :
    {Bytes : Type 0}
    → (AssetBundleInfo → Option Bytes)
    → (Bytes → Option AssetBundleInfo)
    → Faults Bytes
    → AssetBundleInfo
    → Option AssetBundleInfo
    → List Text
    → Disk Bytes
    → Disk Bytes
unfolding save_snapshot build_next_snapshot
persist_processed_snapshot pack unpack faults new_info old_info processed disk =
    (save_snapshot pack unpack faults (build_next_snapshot new_info old_info processed) disk).0
