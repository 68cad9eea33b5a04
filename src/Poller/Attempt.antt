-- ===== src/Poller/Attempt.antt =====
-- `execute_once`, `retry_region_in_place`, `execute_once_attempt` and `handle_uploader_result` of
-- src/service/poller.rs: one region is brought up to date. What the network, the executor and the file
-- system do in the attempt of a number is its `World`.
pub mod Watermark
pub mod Resume
pub mod Retries
use moe_assets_updater_next.Prelude.{
  ℕ, zero, suc, ◌+◌, ◌-◌, ◌*◌, Bool, true, false, not, ◌&&◌, ◌||◌, Option, none, some, List, [],
  ◌∷◌, ◌++◌, ltb, length, ◌==◌, if◌then◌else◌, Text, ◌=?◌, text_eq, Map, keys, lookup, extend,
}
use moe_assets_updater_next.Snapshot.{AssetBundleInfo}
use moe_assets_updater_next.Snapshot.Disk.{Disk, Faults, load_snapshot, SnapshotError}
use moe_assets_updater_next.Poller.{
  Result, ok, err, PollError, config, hip, execution, BundleArtefacts, Commit,
}
use moe_assets_updater_next.Poller.Uploader.{
  Luck, Uploader, Settings, receive_all, new_uploader, run_uploader,
}
use moe_assets_updater_next.Poller.Snapshots.{persist_processed_snapshot}
use moe_assets_updater_next.Poller.Watermarks.{
  Regions, RegionWatermark, WatermarkStore, WriteFaults, get, set,
}
use moe_assets_updater_next.Poller.Watermarks
use moe_assets_updater_next.Snapshot
use moe_assets_updater_next.Poller.Cleanup.{
  FileSystem, RegionCleanup, remove_region_work_dir_after_success,
}

pub record CurrentVersionInfo : Type 0 where
  pub app_version : Option Text
  pub asset_version : Option Text
  pub asset_hash : Option Text

-- `unwrap_or_default`.
unfoldable pub or_default : Option Text → Text
or_default none = []
or_default (some text) = text

pub data RunOutcome : Type 0 where
  skipped_by_watermark completed : RunOutcome

-- What the poller changes: the snapshot file of the region, the watermarks, and the commits that the
-- gateway has acknowledged, the last one first.
pub record State (Bytes : Type 0) : Type 0 where
  pub disk : Disk Bytes
  pub watermarks : WatermarkStore
  pub commits : List Commit

-- What happens in one attempt. `discovered` is `summary.discovered_bundles` of an execution that succeeds;
-- `artefacts` are those that reach the uploader before the channel closes or the poller is cancelled, and
-- if it panics, before that; `skipped` is `check_skipped_bundles` at the end.
pub record World (Bytes : Type 0) : Type 0 where
  pub new_info : Option AssetBundleInfo
  pub load_faults : Faults Bytes
  pub check_connects : Bool
  pub executor_starts : Bool
  pub artefacts : List BundleArtefacts
  pub bytes_of : BundleArtefacts → ℕ
  pub luck : ℕ → Luck Bytes
  pub uploader_panics : Bool
  pub skipped : Map Text Text
  pub discovered : Option ℕ
  pub save_faults : Faults Bytes
  pub file_system : FileSystem
  pub watermark_faults : WriteFaults
  pub now : ℕ

-- `JoinHandle::await`: the result of the task, or that it panicked.
pub data Joined : Type 0 where
  finished : Result (List Text) → Joined
  panicked : Joined

unfoldable pub handle_uploader_result : Joined → List Text → List Text × Result (Unit {0})
handle_uploader_result (finished (ok uploaded)) processed = (extend processed uploaded, ok tt)
handle_uploader_result (finished (err e)) processed = (processed, err e)
handle_uploader_result panicked processed = (processed, err execution)

-- The `JoinHandle` of a step of the uploader.
abbrev pub returned : {Bytes : Type 0} → Uploader Bytes × Result (Unit {0}) → Joined
returned (u, ok tt) = finished (ok u.processed_all)
returned (u, err e) = finished (err e)

abbrev pub with_skipped : Result (Unit {0}) → Map Text Text → List Text → List Text
with_skipped (ok tt) skipped processed = extend processed (keys skipped)
with_skipped (err e) skipped processed = processed

-- The region and what is configured for it, with the codecs and the functions on texts of the libraries.
pub record Env (Bytes : Type 0) : Type 0 where
  pub pack : AssetBundleInfo → Option Bytes
  pub unpack : Bytes → Option AssetBundleInfo
  pub pack_regions : Regions → Option (List ℕ)
  pub unpack_regions : List ℕ → Option Regions
  pub to_str : Text → Option Text
  pub trim : Text → Text
  pub settings : Settings
  pub hip_enabled : Bool
  pub region : Text
  pub cleanup : Option RegionCleanup

module _ {Bytes : Type 0} (env : Env Bytes) where
  abbrev pub Ended : Type 0
  Ended = State Bytes × Result RunOutcome

  abbrev pub remove_work_dir : FileSystem → Result (Unit {0})
  remove_work_dir fs =
      (remove_region_work_dir_after_success env.to_str fs env.trim env.hip_enabled env.region
        env.cleanup).1

  module _ (current : CurrentVersionInfo) where
    unfoldable pub watermark_of : ℕ → ℕ → RegionWatermark
    unfolding or_default
    watermark_of discovered now = record {
      asset_version = or_default current.asset_version;
      asset_hash = or_default current.asset_hash;
      app_version = or_default current.app_version;
      bundle_count = discovered;
      committed_at = now;
    }

    abbrev pub stored : WatermarkStore × Watermarks.Result (Unit {0}) → State Bytes → Ended
    stored (watermarks, Watermarks.ok tt) s = (record s { watermarks = watermarks }, ok completed)
    stored (watermarks, Watermarks.err e) s = (record s { watermarks = watermarks }, err execution)

    abbrev pub after_work_dir : World Bytes → ℕ → Result (Unit {0}) → State Bytes → Ended
    after_work_dir w discovered (err e) s = (s, err e)
    after_work_dir w discovered (ok tt) s =
        stored
          (set env.pack_regions env.unpack_regions w.watermark_faults env.region
            (watermark_of discovered w.now) s.watermarks)
          s

    -- From the results of the execution and of the uploader on.
    unfoldable pub conclude : World Bytes → Option ℕ → Result (Unit {0}) → State Bytes → Ended
    unfolding set watermark_of remove_region_work_dir_after_success
    conclude w none uploaded s = (s, err execution)
    conclude w (some discovered) (err e) s = (s, err e)
    conclude w (some discovered) (ok tt) s =
        after_work_dir w discovered (remove_work_dir w.file_system) s

    -- The uploader, with `processed_bundles` and `uploader_result`; without a gateway there is none.
    unfoldable pub upload_all :
        World Bytes
        → AssetBundleInfo
        → Disk Bytes
        → Uploader Bytes × (List Text × Result (Unit {0}))
    unfolding run_uploader receive_all handle_uploader_result
    upload_all w new_info disk =
        let start = new_uploader env.pack env.unpack env.settings new_info w.luck w.bytes_of disk in
        if not env.hip_enabled
        then (start, ([], ok tt))
        else if w.uploader_panics
        then (
          (receive_all env.pack env.unpack env.settings new_info w.luck w.bytes_of w.artefacts
              start).0,
          handle_uploader_result panicked [],
        )
        else (let ran =
              run_uploader env.pack env.unpack env.settings new_info w.luck w.bytes_of w.artefacts
                disk in
            (ran.0, handle_uploader_result (returned ran) []))

    -- `processed_bundles` at the end.
    abbrev pub processed_bundles : World Bytes → List Text × Result (Unit {0}) → List Text
    processed_bundles w (processed, uploaded) =
        with_skipped uploaded (if env.hip_enabled then w.skipped else []) processed

    abbrev pub after_tasks :
        World Bytes
        → AssetBundleInfo
        → Option AssetBundleInfo
        → Uploader Bytes × (List Text × Result (Unit {0}))
        → State Bytes
        → Ended
    after_tasks w new_info old_info (u, tasks) s = conclude w w.discovered tasks.1 (record s {
      disk =
          persist_processed_snapshot env.pack env.unpack w.save_faults new_info old_info
            (processed_bundles w tasks) u.disk;
      commits = u.commits ++ s.commits;
    })

    unfoldable pub with_old :
        World Bytes
        → AssetBundleInfo
        → Snapshot.Disk.Result (Option AssetBundleInfo)
        → State Bytes
        → Ended
    unfolding conclude upload_all persist_processed_snapshot
    with_old w new_info (Snapshot.Disk.err e) s = (s, err execution)
    with_old w new_info (Snapshot.Disk.ok old_info) s =
        if env.hip_enabled && not w.check_connects
        then (s, err hip)
        else if not w.executor_starts
        then (s, err execution)
        else after_tasks w new_info old_info (upload_all w new_info s.disk) s

    abbrev pub with_new : World Bytes → Option AssetBundleInfo → State Bytes → Ended
    with_new w none s = (s, err execution)
    with_new w (some new_info) s =
        with_old w new_info (load_snapshot env.pack env.unpack w.load_faults s.disk.target) s

    unfoldable pub execute_once_attempt : World Bytes → State Bytes → Ended
    unfolding with_old load_snapshot
    execute_once_attempt w s = with_new w w.new_info s

    -- The end of the attempts, with the seconds slept between them.
    pub record Tried : Type 0 where
      pub state : State Bytes
      pub result : Result RunOutcome
      pub slept : List ℕ

    abbrev pub is_config : PollError → Bool
    is_config config = true
    is_config hip = false
    is_config execution = false

    -- `cancelled` is asked after an attempt, `interrupted` says whether the sleep after it was cut off.
    module _ (world : ℕ → World Bytes) (cancelled interrupted : ℕ → Bool) where
      abbrev pub after_attempt : ℕ → Ended → (State Bytes → Tried) → Tried
      after_attempt attempt (s, ok outcome) rest = record {
        state = s;
        result = ok outcome;
        slept = [];
      }
      after_attempt attempt (s, err e) rest =
          if ltb attempt 10 && not (is_config e) && not (cancelled attempt)
          then (if interrupted attempt
              then record { state = s; result = err e; slept = [] }
              else (let r = rest s in record r { slept = 5 * attempt ∷ r.slept }))
          else record { state = s; result = err e; slept = [] }

      -- The loop on fuel: at most `left` attempts, of which the next is number `attempt`.
      unfoldable pub retry_from : ℕ → ℕ → State Bytes → Tried
      unfolding execute_once_attempt
      retry_from zero attempt s = record { state = s; result = err execution; slept = [] }
      retry_from (suc left) attempt s =
          after_attempt attempt (execute_once_attempt (world attempt) s)
            (λ t. retry_from left (attempt + 1) t)

      unfoldable pub retry_region_in_place : State Bytes → Tried
      unfolding retry_from
      retry_region_in_place s = retry_from 10 1 s

    unfoldable pub is_current : RegionWatermark → Bool
    unfolding or_default
    is_current watermark =
        not (length watermark.asset_version == 0)
        && (watermark.asset_version =? or_default current.asset_version)
        && (watermark.asset_hash =? or_default current.asset_hash)

  -- What happens in one poll: `permit` is what the wait for a permit of the semaphore ends with, where
  -- `none` is the cancellation and `false` a closed semaphore.
  pub record Tick : Type 0 where
    pub region_known : Bool
    pub client_builds : Bool
    pub current : Option CurrentVersionInfo
    pub file_system : FileSystem
    pub permit : Option Bool
    pub world : ℕ → World Bytes
    pub cancelled : ℕ → Bool
    pub interrupted : ℕ → Bool

  abbrev pub skip : Result (Unit {0}) → State Bytes → Ended
  skip (ok tt) s = (s, ok skipped_by_watermark)
  skip (err e) s = (s, err e)

  abbrev pub with_permit : Tick → CurrentVersionInfo → Option Bool → State Bytes → Ended
  with_permit tick current none s = (s, ok skipped_by_watermark)
  with_permit tick current (some false) s = (s, err execution)
  with_permit tick current (some true) s =
      let tried = retry_region_in_place current tick.world tick.cancelled tick.interrupted s in
      (tried.state, tried.result)

  abbrev pub with_watermark :
      Tick → CurrentVersionInfo → Option RegionWatermark → State Bytes → Ended
  with_watermark tick current none s = with_permit tick current tick.permit s
  with_watermark tick current (some watermark) s =
      if is_current current watermark
      then skip (remove_work_dir tick.file_system) s
      else with_permit tick current tick.permit s

  abbrev pub with_current : Tick → Option CurrentVersionInfo → State Bytes → Ended
  with_current tick none s = (s, err execution)
  with_current tick (some current) s = with_watermark tick current (get env.region s.watermarks) s

  unfoldable pub execute_once : Tick → State Bytes → Ended
  unfolding is_current remove_region_work_dir_after_success retry_region_in_place get
  execute_once tick s =
      if not tick.region_known
      then (s, err config)
      else if not tick.client_builds
      then (s, err config)
      else with_current tick tick.current s
