-- ===== src/Poller/Transfers.antt =====
-- `upload_hip_files_concurrently` of src/service/poller.rs: the uploads of one batch, a bounded number of
-- them at a time. Which upload ends next is decided by a schedule; what each returns is given.
pub mod Complete
use moe_assets_updater_next.Prelude.{
  ℕ, zero, suc, ◌+◌, ◌-◌, ◌≤◌, ◌≡◌, refl, sym, ap, ◌∙◌, ◌⊎◌, inl, inr, Option, none, some, List, [],
  ◌∷◌, ◌++◌, map, min, max, length, take, drop, join_next, arith, Text, Option-cases, All,
}
use moe_assets_updater_next.Hip.Codec.{Placement, shared, override}
use moe_assets_updater_next.Poller.{Result, ok, err, hip}

pub record HipUploadFileJob : Type 0 where
  pub bundle_path : Text
  pub bundle_hash : Text
  pub export_root : Text
  pub file : Text

-- `joined.map_err(..)??`.
abbrev pub joined :
    Option (Option Placement)
    → (Option Placement → Result (List (Option Placement)))
    → Result (List (Option Placement))
joined none next = err hip
joined (some placement) next = next placement

module _ (upload : HipUploadFileJob → Option (Option Placement)) (schedule : ℕ → ℕ) where
  -- The loop `while let Some(joined)`, on fuel: `n` is the number of uploads yet to end.
  unfoldable pub join_loop :
      ℕ
      → List HipUploadFileJob
      → List HipUploadFileJob
      → List (Option Placement)
      → Result (List (Option Placement))
  unfolding join_next
  join_loop n [] pending results = ok results
  join_loop zero (j ∷ joins) pending results = err hip
  join_loop (suc n) (j ∷ joins) pending results =
      let r = join_next (schedule n) j joins in
      joined (upload r.0) (λ placement.
        join_loop n (r.1 ++ take 1 pending) (drop 1 pending) (results ++ placement ∷ []))

  unfoldable pub upload_hip_files_concurrently :
      List HipUploadFileJob → ℕ → Result (List (Option Placement))
  unfolding join_loop
  upload_hip_files_concurrently jobs max_concurrency =
      let concurrency = min (max max_concurrency 1) (length jobs) in
      join_loop (length jobs) (take concurrency jobs) (drop concurrency jobs) []

-- `stats.uploaded_shared` and `stats.uploaded_override` after the loop over the results.
unfoldable pub count_shared : List (Option Placement) → ℕ
count_shared [] = 0
count_shared (none ∷ ps) = 1 + count_shared ps
count_shared (some shared ∷ ps) = 1 + count_shared ps
count_shared (some override ∷ ps) = count_shared ps

unfoldable pub count_override : List (Option Placement) → ℕ
count_override [] = 0
count_override (none ∷ ps) = count_override ps
count_override (some shared ∷ ps) = count_override ps
count_override (some override ∷ ps) = 1 + count_override ps
