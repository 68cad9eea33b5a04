-- ===== src/Execution/Examples.antt =====
-- Two bundles under one root.
mod Runs
mod Fetches
use moe_assets_updater_next.Prelude.{◌≡◌, refl, [], ◌∷◌, codes, text_beq}
use moe_assets_updater_next.Execution.{
  ok, invalid_raw_bundle_path, split_slash, any_refused, rsplit_dot, stem_and_extension,
  with_bundle, set_last, raw_bundle_output_path,
}
use moe_assets_updater_next.Execution.Under.{Under, raw_bundle_output_path-Under}

stores_live :
    raw_bundle_output_path (codes "raw" ∷ []) (codes "live/2d.x")
    ≡ ok (codes "raw" ∷ codes "live" ∷ codes "2d.bundle" ∷ [])
unfolding raw_bundle_output_path split_slash any_refused set_last with_bundle stem_and_extension
    rsplit_dot text_beq
stores_live = refl

refuses_parent : raw_bundle_output_path [] (codes "live/../x") ≡ invalid_raw_bundle_path
unfolding raw_bundle_output_path split_slash any_refused text_beq
refuses_parent = refl

-- Two bundles get one file, as the extension of the name is replaced.
one_file_for_two :
    raw_bundle_output_path [] (codes "a.v1") ≡ raw_bundle_output_path [] (codes "a.v2")
unfolding raw_bundle_output_path split_slash any_refused set_last with_bundle stem_and_extension
    rsplit_dot text_beq
one_file_for_two = refl

raw_bundle_output_path-Under_example :
    Under
      (codes "raw" ∷ [])
      (codes "live/2d.x")
      (codes "raw" ∷ codes "live" ∷ codes "2d.bundle" ∷ [])
raw_bundle_output_path-Under_example =
    raw_bundle_output_path-Under (codes "raw" ∷ []) (codes "live/2d.x")
      (codes "raw" ∷ codes "live" ∷ codes "2d.bundle" ∷ []) stores_live
