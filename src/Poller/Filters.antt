-- ===== src/Poller/Filters.antt =====
-- `CombinedFilter` and `HipCheckFilter` of src/service/poller.rs: which planned downloads are dropped. The
-- counters are what the atomics hold; what the gateway replies to the check batch of a number is given.
pub mod Partition
use moe_assets_updater_next.Prelude.{
  ℕ, zero, suc, ◌+◌, Bool, true, false, Option, none, some, List, [], ◌∷◌, ◌++◌, map, max, length,
  take, drop, if◌then◌else◌, Text, text_eq, Map, lookup, insert, contains,
}
use moe_assets_updater_next.Prelude.Int.{ℤ, pos_part}
use moe_assets_updater_next.Snapshot.{AssetCategory}
use moe_assets_updater_next.Execution.{DownloadTask}
use moe_assets_updater_next.Hip.Codec.{CheckAction, CheckBatchItem, CheckAckItem}
use moe_assets_updater_next.Hip.Codec

-- The atomics and the map that the filters share with the poller, and the tasks that are kept.
pub record Filtered : Type 0 where
  pub keep : List DownloadTask
  pub layer1_skipped : ℕ
  pub skipped_counter : ℕ
  pub skipped_bundles : Map Text Text

-- `results.into_iter().map(..).collect()` into a `HashMap`.
unfoldable pub collect_decisions : List CheckAckItem → Map Text CheckAction → Map Text CheckAction
collect_decisions [] decisions = decisions
collect_decisions (item ∷ results) decisions =
    collect_decisions results (insert item.path item.action decisions)

-- One task, given the decision on it.
unfoldable pub decide : Option CheckAction → DownloadTask → Filtered → Filtered
decide none task f = record f { keep = f.keep ++ task ∷ [] }
decide (some Codec.upload) task f = record f { keep = f.keep ++ task ∷ [] }
decide (some Codec.skip) task f = record f {
  skipped_counter = f.skipped_counter + 1;
  skipped_bundles = insert task.bundle_path task.bundle_hash f.skipped_bundles;
}

unfoldable pub decide_chunk : Map Text CheckAction → List DownloadTask → Filtered → Filtered
unfolding decide lookup
decide_chunk decisions [] f = f
decide_chunk decisions (task ∷ chunk) f =
    decide_chunk decisions chunk (decide (lookup task.bundle_path decisions) task f)

module _ (region_name : Text)
    (check_batch : ℕ → List CheckBatchItem → Option (List CheckAckItem)) where
  unfoldable pub check_items : List DownloadTask → List CheckBatchItem
  check_items [] = []
  check_items (task ∷ chunk) =
      record {
        path = task.bundle_path;
        fingerprint = task.bundle_hash;
        size = pos_part task.file_size;
        provider = region_name;
      }
      ∷ check_items chunk

  -- The reply to one chunk, and the rest of the loop; `none` is the error of `check_batch`.
  abbrev pub after_check :
      Option (List CheckAckItem)
      → List DownloadTask
      → Filtered
      → (Filtered → Option Filtered)
      → Option Filtered
  after_check none chunk f rest = none
  after_check (some results) chunk f rest =
      rest (decide_chunk (collect_decisions results []) chunk f)

  -- `for chunk in tasks.chunks(check_batch_size)` on fuel, the number of tasks; the next chunk is
  -- number `n`.
  unfoldable pub check_chunks : ℕ → ℕ → ℕ → List DownloadTask → Filtered → Option Filtered
  unfolding decide_chunk collect_decisions check_items
  check_chunks size fuel n [] f = some f
  check_chunks size zero n (task ∷ tasks) f = none
  check_chunks size (suc fuel) n (task ∷ tasks) f =
      let chunk = take size (task ∷ tasks) in
      after_check (check_batch n (check_items chunk)) chunk f
        (λ g. check_chunks size fuel (n + 1) (drop size (task ∷ tasks)) g)

  -- `HipCheckFilter::filter`; the size is `check_batch_size.max(1)`.
  unfoldable pub hip_filter : ℕ → List DownloadTask → Filtered → Option Filtered
  unfolding check_chunks
  hip_filter check_batch_size tasks f =
      check_chunks (max check_batch_size 1) (length tasks) 0 tasks (record f { keep = [] })

  -- The loop of layer 1.
  unfoldable pub layer1_loop : List Text → List DownloadTask → Filtered → Filtered
  unfolding contains
  layer1_loop allow [] f = f
  layer1_loop allow (task ∷ tasks) f = layer1_loop allow tasks (
      if contains allow task.bundle_path
      then record f { keep = f.keep ++ task ∷ [] }
      else record f { layer1_skipped = f.layer1_skipped + 1 })

  -- `CombinedFilter::filter`: with a gateway only its check counts.
  unfoldable pub combined_filter :
      Bool → List Text → ℕ → List DownloadTask → Filtered → Option Filtered
  unfolding hip_filter layer1_loop
  combined_filter hip layer1_allow check_batch_size tasks f =
      let hip_kept = hip_filter check_batch_size tasks (record f { layer1_skipped = 0 }) in
      if hip
      then hip_kept
      else some (layer1_loop layer1_allow tasks (record f { keep = []; layer1_skipped = 0 }))
