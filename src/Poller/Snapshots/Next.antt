-- ===== src/Poller/Snapshots/Next.antt =====
-- What the next `diff` makes of the snapshot that an attempt leaves.
use moe_assets_updater_next.Prelude.{
  ◌≡◌, refl, ◌∙◌, ap, Bool, true, not, ◌&&◌, ◌||◌, Option, none, some, List, [], ◌∷◌, arith,
  if◌then◌else◌, All, Text, text_eq, text_beq_iff, lookup, insert, IsMap, lookup-insert,
  insert-IsMap, IsMap-lookup, contains, Bool-cases, inl, inr, Option-cases,
}
use moe_assets_updater_next.Prelude.Int.{int_beq, int_beq_iff}
use moe_assets_updater_next.Snapshot.{
  AssetBundleDetail, AssetBundleInfo, ChangedBundle, changed_bundle, diff, bundles_of,
}
use moe_assets_updater_next.Snapshot.Classify.{
  Bundles, InRange, is_changed, select_changed, changed-diff,
}
use moe_assets_updater_next.Snapshot.Resume.{insert-InRange}
use moe_assets_updater_next.Poller.Snapshots.{carry_forward, carry_loop, build_next_snapshot}

-- What is still to do: the bundles that are changed against `old` and were not processed.
abbrev pub select_unprocessed : Bundles → List Text → Bundles → List ChangedBundle
select_unprocessed old processed [] = []
select_unprocessed old processed ((name, detail) ∷ new) =
    if not (contains processed name) && is_changed old name detail
    then changed_bundle name detail ∷ select_unprocessed old processed new
    else select_unprocessed old processed new

module _ (old : Bundles) (processed : List Text) where
  abbrev is_kept : Text → AssetBundleDetail → Bool
  is_kept name detail = contains processed name || not (is_changed old name detail)

  -- One round keeps the bundle or leaves the map alone.
  carry_forward_lem :
      (name : Text) (detail : AssetBundleDetail) (carry : Bundles)
      → (if contains processed name
          then insert name detail carry
          else carry_forward (lookup name old) name detail carry)
        ≡ (if is_kept name detail then insert name detail carry else carry)
  unfolding carry_forward
  carry_forward_lem name detail carry = elim (Option-cases (lookup name old)) [
    | inl absent ↦ rw absent (ground arith)
    | inr (prev, found) ↦ rw found (ground arith)
  ]

  abbrev kept :
      Text → Option AssetBundleDetail → Option AssetBundleDetail → Option AssetBundleDetail
  kept name none carried = carried
  kept name (some detail) carried = if is_kept name detail then some detail else carried

  lookup-carry_loop :
      (k : Text) (new carry : Bundles)
      → IsMap new
      → lookup k (carry_loop old processed new carry) ≡ kept k (lookup k new) (lookup k carry)
  unfolding carry_loop lookup
  lookup-carry_loop k [] carry h = refl
  lookup-carry_loop k ((name, detail) ∷ new) carry h =
      rw (carry_forward_lem name detail carry) (elim (Bool-cases (is_kept name detail)) [
        | inl keep ↦ rw keep (
            ground (
              arith,
              lookup-carry_loop k new (insert name detail carry) h.1,
              lookup-insert name k detail carry,
              text_beq_iff name k,
            ))
        | inr drop_it ↦
            rw drop_it (ground (arith, lookup-carry_loop k new carry h.1, text_beq_iff name k))
      ])

  carry_loop-IsMap :
      (new carry : Bundles) → IsMap carry → IsMap (carry_loop old processed new carry)
  unfolding carry_loop
  carry_loop-IsMap [] carry h = h
  carry_loop-IsMap ((name, detail) ∷ new) carry h = carry_loop-IsMap new _ (
      rw (carry_forward_lem name detail carry) (elim (Bool-cases (is_kept name detail)) [
        | inl keep ↦ rw keep (insert-IsMap name detail carry h)
        | inr drop_it ↦ rw drop_it h
      ]))

  carry_loop-InRange :
      (new carry : Bundles)
      → InRange new
      → InRange carry
      → InRange (carry_loop old processed new carry)
  unfolding carry_loop
  carry_loop-InRange [] carry hn h = h
  carry_loop-InRange ((name, detail) ∷ new) carry hn h = carry_loop-InRange new _ hn.1 (
      rw (carry_forward_lem name detail carry) (elim (Bool-cases (is_kept name detail)) [
        | inl keep ↦ rw keep (insert-InRange name detail carry hn.0 h)
        | inr drop_it ↦ rw drop_it h
      ]))

  -- A bundle that is kept is unchanged against what is kept, and one that is not is absent from it.
  select-kept :
      (carried new : Bundles)
      → All (λ b. lookup b.0 carried ≡ (if is_kept b.0 b.1 then some b.1 else none)) new
      → select_changed carried new ≡ select_unprocessed old processed new
  select-kept carried [] h = refl
  select-kept carried ((name, detail) ∷ new) h =
      let same : int_beq detail.crc detail.crc ≡ true =
        (int_beq_iff detail.crc detail.crc).1 refl in
      elim (Bool-cases (is_kept name detail)) [
        | inl keep ↦
            let found : lookup name carried ≡ some detail = h.0 ∙ rw keep refl in
            rw (found, same) (select-kept carried new h.1 ∙ ground arith)
        | inr drop_it ↦
            let found : lookup name carried ≡ none = h.0 ∙ rw drop_it refl in
            rw found (
              ap (λ t. changed_bundle name detail ∷ t) (select-kept carried new h.1) ∙ ground arith)
      ]

carried-kept :
    (old : Bundles) (processed : List Text) (all new : Bundles)
    → IsMap all
    → All (λ b. lookup b.0 all ≡ some b.1) new
    → All
        (λ b.
          lookup b.0 (carry_loop old processed all [])
          ≡ (if is_kept old processed b.0 b.1 then some b.1 else none))
        new
carried-kept old processed all [] h p = tt
carried-kept old processed all ((name, detail) ∷ new) h p = (
  lookup-carry_loop old processed name all [] h
      ∙ ap (λ o. kept old processed name o (lookup {V = AssetBundleDetail} name [])) p.0
      ∙ unfold lookup in refl,
  carried-kept old processed all new h p.1,
)

-- After an attempt, the next `diff` lists exactly the bundles that are changed against the snapshot the
-- attempt started from and were not processed by it, in the order of the new snapshot. (The new snapshot
-- repeats no name, and checksums are in i64.)
pub diff-build_next_snapshot :
    (new : AssetBundleInfo) (old : Option AssetBundleInfo) (processed : List Text)
    → IsMap new.bundles
    → InRange new.bundles
    → (diff (some (build_next_snapshot new old processed)) new).changed
      ≡ select_unprocessed (bundles_of old) processed new.bundles
unfolding build_next_snapshot
diff-build_next_snapshot new old processed hm hr =
    changed-diff (some (build_next_snapshot new old processed)) new
      (carry_loop-IsMap (bundles_of old) processed new.bundles [] tt)
      (carry_loop-InRange (bundles_of old) processed new.bundles [] hr tt) hr
    ∙ select-kept (bundles_of old) processed _ new.bundles (
        carried-kept (bundles_of old) processed new.bundles new.bundles hm
          (IsMap-lookup new.bundles hm))
