-- ===== src/Poller/Attempt/Watermark.antt =====
-- When an attempt moves the watermark of its region.
use moe_assets_updater_next.Prelude.{
  ℕ, ◌≡◌, refl, sym, ap, ◌∙◌, ◌⊎◌, inl, inr, true, not, ◌&&◌, Option, none, some, List, [], ◌++◌,
  if◌then◌else◌, Text, ◌=?◌, text_eq, contains, append-nil, contains-extend, Bool-cases,
}
use moe_assets_updater_next.Snapshot.{AssetBundleInfo}
use moe_assets_updater_next.Snapshot
use moe_assets_updater_next.Snapshot.Disk.{Disk, load_snapshot}
use moe_assets_updater_next.Poller.{
  Result, ok, err, PollError, execution, hip, BundleArtefacts, Commit,
}
use moe_assets_updater_next.Poller.Artefacts.{paths_of}
use moe_assets_updater_next.Poller.Watermarks
use moe_assets_updater_next.Poller.Watermarks.{
  RegionWatermark, WatermarkStore, get, set, lookup-set,
}
use moe_assets_updater_next.Poller.Uploader.{Uploader}
use moe_assets_updater_next.Poller.Uploader.Paths.{committed}
use moe_assets_updater_next.Poller.Uploader.Delivered.{Flushed}
use moe_assets_updater_next.Poller.Uploader.Runs.{run_uploader-Flushed}
use moe_assets_updater_next.Poller.Attempt.{
  CurrentVersionInfo, RunOutcome, State, World, handle_uploader_result, returned, Env,
  remove_work_dir, watermark_of, stored, after_work_dir, conclude, upload_all, with_old, with_new,
  execute_once_attempt,
}

-- What is known of the uploader when it succeeds.
abbrev pub Uploaded : {Bytes : Type 0} → List BundleArtefacts → Uploader Bytes → List Text → Type 0
Uploaded arts u processed =
    (committed u.commits ≡ paths_of arts)
    × ((x : Text) → contains processed x ≡ contains (paths_of arts) x)

module _ {Bytes : Type 0} (env : Env Bytes) where
  joined-Uploaded :
      (arts : List BundleArtefacts) (ran : Uploader Bytes × Result (Unit {0}))
      → Flushed env.settings arts ran
      → (handle_uploader_result (returned ran) []).1 ≡ ok tt
      → Uploaded arts ran.0 (handle_uploader_result (returned ran) []).0
  unfolding handle_uploader_result contains
  joined-Uploaded arts (u, err e) f h = absurd cc
  joined-Uploaded arts (u, ok _) f h =
      let all : committed u.commits ≡ paths_of arts =
        sym (append-nil (committed u.commits))
        ∙ ap (λ (b : List BundleArtefacts). committed u.commits ++ paths_of b) (sym f.1)
        ∙ f.0.delivered in
      (
        all,
        λ x. contains-extend x [] u.processed_all ∙ f.0.processed x ∙ ap (λ ps. contains ps x) all,
      )

  -- If the task of the uploader succeeds, all that reached it is committed and processed.
  pub upload_all-Uploaded :
      (current : CurrentVersionInfo) (w : World Bytes) (new_info : AssetBundleInfo)
      (disk : Disk Bytes)
      → env.hip_enabled ≡ true
      → (upload_all env current w new_info disk).1.1 ≡ ok tt
      → Uploaded w.artefacts
          (upload_all env current w new_info disk).0
          (upload_all env current w new_info disk).1.0
  unfolding upload_all handle_uploader_result
  upload_all-Uploaded current w new_info disk on h = elim (Bool-cases w.uploader_panics) [
    | inl panics ↦ let e : err execution ≡ ok tt = rw (on, panics) at h in absurd cc
    | inr fine ↦
        rw (on, fine)
          (joined-Uploaded w.artefacts _
            (run_uploader-Flushed env.pack env.unpack env.settings new_info w.luck w.bytes_of
              w.artefacts disk)
            (rw (on, fine) at h))
  ]

  -- The watermark stands where it stood, and an error is returned.
  abbrev pub Unmoved : State Bytes → State Bytes × Result RunOutcome → Type 0
  Unmoved s ended = (ended.0.watermarks ≡ s.watermarks) × (e : PollError) × (ended.1 ≡ err e)

  -- The watermark of the region, and no other, is now that of the current version. The execution and the
  -- removal of the work directory succeeded, and, if there is a gateway, the commits of this attempt
  -- report every bundle that reached the uploader.
  pub record Moved (current : CurrentVersionInfo) (w : World Bytes) (s after : State Bytes)
      : Type 0 where
    pub discovered : ℕ
    pub executed : w.discovered ≡ some discovered
    pub removed : remove_work_dir env w.file_system ≡ ok tt
    pub watermarks :
        (other : Text)
        → get other after.watermarks ≡ (
            if env.region =? other
            then some (watermark_of env current discovered w.now)
            else get other s.watermarks)
    pub commits : List Commit
    pub acknowledged : after.commits ≡ commits ++ s.commits
    pub delivered : env.hip_enabled ≡ true → committed commits ≡ paths_of w.artefacts

  stored-watermarks :
      (current : CurrentVersionInfo) (p : WatermarkStore × Watermarks.Result (Unit {0}))
      (s : State Bytes)
      → ((stored env current p s).0.watermarks ≡ p.0)
        × ((stored env current p s).0.commits ≡ s.commits)
  stored-watermarks current (watermarks, Watermarks.ok _) s = (refl, refl)
  stored-watermarks current (watermarks, Watermarks.err e) s = (refl, refl)

  after_work_dir-Moved :
      (current : CurrentVersionInfo) (w : World Bytes) (n : ℕ) (r : Result (Unit {0}))
      (s : State Bytes)
      → Unmoved s (after_work_dir env current w n r s)
        ⊎ ((r ≡ ok tt)
            × ((other : Text)
                → get other (after_work_dir env current w n r s).0.watermarks ≡ (
                    if env.region =? other
                    then some (watermark_of env current n w.now)
                    else get other s.watermarks))
            × ((after_work_dir env current w n r s).0.commits ≡ s.commits))
  after_work_dir-Moved current w n (err e) s = inl (refl, e, refl)
  after_work_dir-Moved current w n (ok _) s =
      let p =
        set env.pack_regions env.unpack_regions w.watermark_faults env.region
          (watermark_of env current n w.now) s.watermarks in
      let (same, commits) = stored-watermarks current p s in
      inr (
        refl,
        λ other.
            ap (get other) same
            ∙ lookup-set env.pack_regions env.unpack_regions w.watermark_faults env.region other
                (watermark_of env current n w.now) s.watermarks,
        commits,
      )

  pub conclude-Moved :
      (current : CurrentVersionInfo) (w : World Bytes) (o : Option ℕ) (uploaded : Result (Unit {0}))
      (s : State Bytes)
      → Unmoved s (conclude env current w o uploaded s)
        ⊎ ((n : ℕ) × (o ≡ some n)
            × (uploaded ≡ ok tt)
            × (remove_work_dir env w.file_system ≡ ok tt)
            × ((other : Text)
                → get other (conclude env current w o uploaded s).0.watermarks ≡ (
                    if env.region =? other
                    then some (watermark_of env current n w.now)
                    else get other s.watermarks))
            × ((conclude env current w o uploaded s).0.commits ≡ s.commits))
  unfolding conclude
  conclude-Moved current w none uploaded s = inl (refl, execution, refl)
  conclude-Moved current w (some n) (err e) s = inl (refl, e, refl)
  conclude-Moved current w (some n) (ok _) s =
      elim (after_work_dir-Moved current w n (remove_work_dir env w.file_system) s) [
        | inl u ↦ inl u
        | inr (removed, moved, commits) ↦ inr (n, refl, refl, removed, moved, commits)
      ]

  with_old-Moved :
      (current : CurrentVersionInfo) (w : World Bytes) (new_info : AssetBundleInfo)
      (o : Snapshot.Disk.Result (Option AssetBundleInfo)) (s : State Bytes)
      → Unmoved s (with_old env current w new_info o s)
        ⊎ Moved current w s (with_old env current w new_info o s).0
  unfolding with_old
  with_old-Moved current w new_info (Snapshot.Disk.err e) s = inl (refl, execution, refl)
  with_old-Moved current w new_info (Snapshot.Disk.ok old_info) s =
      elim (Bool-cases (env.hip_enabled && not w.check_connects)) [
        | inl refused ↦ rw refused (inl (refl, hip, refl))
        | inr connected ↦ elim (Bool-cases (not w.executor_starts)) [
          | inl fails ↦ rw (connected, fails) (inl (refl, execution, refl))
          | inr starts ↦
              let (u, tasks) = upload_all env current w new_info s.disk in
              rw (connected, starts)
                (elim (conclude-Moved current w w.discovered tasks.1 _) [
                  | inl (same, e, failed) ↦ inl (same, e, failed)
                  | inr (n, executed, uploaded, removed, moved, commits) ↦ inr (record {
                    discovered = n;
                    executed = executed;
                    removed = removed;
                    watermarks = moved;
                    commits = u.commits;
                    acknowledged = commits;
                    delivered = λ on. (upload_all-Uploaded current w new_info s.disk on uploaded).0;
                  })
                ])
        ]
      ]

  -- An attempt moves the watermark of its region, and no other, to the current version only if the
  -- execution and the removal of the work directory succeeded, and, with a gateway, the commits that it
  -- added report every bundle that reached the uploader, each once and in order. Otherwise every watermark
  -- stands where it stood, and the attempt returns an error.
  pub execute_once_attempt-Moved :
      (current : CurrentVersionInfo) (w : World Bytes) (s : State Bytes)
      → Unmoved s (execute_once_attempt env current w s)
        ⊎ Moved current w s (execute_once_attempt env current w s).0
  unfolding execute_once_attempt
  execute_once_attempt-Moved current w s = with_new-Moved w.new_info
    where
      with_new-Moved :
          (o : Option AssetBundleInfo)
          → Unmoved s (with_new env current w o s)
            ⊎ Moved current w s (with_new env current w o s).0
      with_new-Moved none = inl (refl, execution, refl)
      with_new-Moved (some new_info) = with_old-Moved current w new_info _ s
