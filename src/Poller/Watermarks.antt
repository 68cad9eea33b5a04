-- ===== src/Poller/Watermarks.antt =====
-- src/service/watermark.rs: the version that each region has committed last, in memory and in a file
-- that is written aside and renamed. The encoding and the faults of the file system are parameters.
use moe_assets_updater_next.Prelude.{
  ℕ, ◌≤◌, ◌≡◌, refl, Bool, false, Option, none, some, List, [], arith, length, ◌==◌, if◌then◌else◌,
  ◌=?◌, Text, text_eq, Map, lookup, insert, lookup-insert, Option-cases, inl, inr,
}

pub record RegionWatermark : Type 0 where
  pub asset_version : Text
  pub asset_hash : Text
  pub app_version : Text
  pub bundle_count : ℕ
  pub committed_at : ℕ

pub data WatermarkError : Type 0 where
  create_parent encode write_tmp rename read decode : WatermarkError

pub data Result {ℓ} (A : Type ℓ) : Type ℓ where
  ok : A → Result A
  err : WatermarkError → Result A

abbrev pub Regions : Type 0
Regions = Map Text RegionWatermark

-- `inner` with the file at `path` and its sibling.
pub record WatermarkStore : Type 0 where
  pub regions : Regions
  pub file : Option (List ℕ)
  pub tmp : Option (List ℕ)

-- What fails in one call; a write that fails may leave anything in the sibling.
pub record WriteFaults : Type 0 where
  pub write_fails : Bool
  pub left_by_write : Option (List ℕ)
  pub rename_fails : Bool

unfoldable pub get : Text → WatermarkStore → Option RegionWatermark
unfolding lookup
get region store = lookup region store.regions

module _ (pack : Regions → Option (List ℕ)) (unpack : List ℕ → Option Regions) where
  abbrev decoded : Option Regions → Option (List ℕ) → Option (List ℕ) → Result WatermarkStore
  decoded none file tmp = err decode
  decoded (some regions) file tmp = ok (record { regions = regions; file = file; tmp = tmp })

  -- An empty file and no file are no regions.
  unfoldable pub open_store :
      Bool → Bool → Option (List ℕ) → Option (List ℕ) → Result WatermarkStore
  open_store mkdir_fails read_fails none tmp =
      if mkdir_fails
      then err create_parent
      else ok (record { regions = []; file = none; tmp = tmp })
  open_store mkdir_fails read_fails (some bytes) tmp =
      if mkdir_fails
      then err create_parent
      else if read_fails
      then err read
      else if length bytes == 0
      then ok (record { regions = []; file = some bytes; tmp = tmp })
      else decoded (unpack bytes) (some bytes) tmp

  unfoldable pub write_atomic :
      WriteFaults → Option (List ℕ) → WatermarkStore → WatermarkStore × Result (Unit {0})
  write_atomic faults none store = (store, err encode)
  write_atomic faults (some json) store =
      if faults.write_fails
      then (record store { tmp = faults.left_by_write }, err write_tmp)
      else if faults.rename_fails
      then (record store { tmp = some json }, err rename)
      else (record store { file = some json; tmp = none }, ok tt)

  unfoldable pub set :
      WriteFaults → Text → RegionWatermark → WatermarkStore → WatermarkStore × Result (Unit {0})
  unfolding write_atomic insert
  set faults region watermark store =
      let regions = insert region watermark store.regions in
      write_atomic faults (pack regions) (record store { regions = regions })

  -- What `set` leaves in memory, whether or not it fails.
  pub lookup-set :
      (faults : WriteFaults) (region other : Text) (watermark : RegionWatermark)
      (store : WatermarkStore)
      → get other (set faults region watermark store).0
        ≡ (if region =? other then some watermark else get other store)
  unfolding get set
  lookup-set faults region other watermark store =
      elim (Option-cases (pack (insert region watermark store.regions))) [
        | inl failed ↦ rw failed (lookup-insert region other watermark store.regions)
        | inr (json, packed) ↦
            rw packed (ground (arith, lookup-insert region other watermark store.regions))
      ]

  -- If unpacking undoes packing of the regions that `set` writes, and they do not pack to an empty file, a
  -- store opened after `set` returned has the new watermark of the region and the old ones of all others. If `set` fails, the file is as it
  -- was. In memory the watermark is the new one in either case.
  pub open-set :
      (faults : WriteFaults) (region : Text) (watermark : RegionWatermark) (store : WatermarkStore)
      → ((json : List ℕ)
          → pack (insert region watermark store.regions) ≡ some json
          → (1 ≤ length json) × (unpack json ≡ some (insert region watermark store.regions)))
      → let (after, result) = set faults region watermark store in
        (result ≡ ok tt
          → (reopened : WatermarkStore) × (open_store false false after.file after.tmp
              ≡ ok reopened)
            × ((other : Text)
                → get other reopened
                  ≡ (if region =? other then some watermark else get other store)))
        × ((e : WatermarkError) → result ≡ err e → after.file ≡ store.file)
        × ((other : Text)
            → get other after ≡ (if region =? other then some watermark else get other store))
  unfolding set get open_store
  open-set faults region watermark store law =
      elim (Option-cases (pack (insert region watermark store.regions))) [
        | inl failed ↦ rw failed (
          λ h. absurd cc,
          λ e h. refl,
          λ other. lookup-insert region other watermark store.regions,
        )
        | inr (json, packed) ↦
            let (full, back) = law json packed in
            rw packed (
              λ h. (
                record {
                  regions = insert region watermark store.regions;
                  file = some json;
                  tmp = none;
                },
                ground (arith, full, back),
                λ other. lookup-insert region other watermark store.regions,
              ),
              λ e h. ground arith,
              λ other. ground (arith, lookup-insert region other watermark store.regions),
            )
      ]
