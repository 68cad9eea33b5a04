-- ===== src/Snapshot/Classify.antt =====
-- Which bundles `diff` reports, described by their checksums.
use mathlib.Core.Path.{subst}
use mathlib.Core.Option.{some-injective}
use moe_assets_updater_next.Prelude.{
  ℕ, ◌+◌, ◌≡◌, refl, sym, ◌∙◌, ap, Bool, true, not, Option, none, some, List, [], ◌∷◌, ◌++◌, arith,
  if◌then◌else◌, append-nil, append_assoc, length, length-append, All, ◌=?◌, Text, text_eq,
  text_beq_iff, Map, lookup, insert, IsMap, lookup-insert, suc, Bool-cases, inl, inr, Option-cases,
}
use moe_assets_updater_next.Prelude.Int.{
  IsI64, to_string, to_string-injective, int_beq, int_beq_iff,
}
use moe_assets_updater_next.Snapshot.{
  AssetBundleDetail, AssetBundleInfo, ChangedBundle, BundleDiff, fingerprint_for, old_fingerprints,
  changed_bundle, diff_step, diff_loop, no_changes, bundles_of, diff,
}

abbrev pub Bundles : Type 0
Bundles = Map Text AssetBundleDetail

-- The checksums are `i64`.
abbrev pub InRange : Bundles → Type 0
InRange bundles = All (λ b. IsI64 b.1.crc) bundles

abbrev differs : Option AssetBundleDetail → AssetBundleDetail → Bool
differs none detail = true
differs (some previous) detail = not (int_beq previous.crc detail.crc)

-- A bundle is changed if the old snapshot lacks its name or holds another checksum for it.
abbrev pub is_changed : Bundles → Text → AssetBundleDetail → Bool
is_changed old name detail = differs (lookup name old) detail

-- The changed bundles of `new`, in the order of `new`.
abbrev pub select_changed : Bundles → Bundles → List ChangedBundle
select_changed old [] = []
select_changed old ((name, detail) ∷ new) =
    if is_changed old name detail
    then changed_bundle name detail ∷ select_changed old new
    else select_changed old new

abbrev or_else : Option AssetBundleDetail → Option Text → Option Text
or_else none fp = fp
or_else (some detail) fp = some (fingerprint_for detail).0

lookup-old_fingerprints :
    (name : Text) (fps : Map Text Text) (old : Bundles)
    → IsMap old
    → lookup name (old_fingerprints fps old) ≡ or_else (lookup name old) (lookup name fps)
unfolding old_fingerprints lookup
lookup-old_fingerprints name fps [] h = refl
lookup-old_fingerprints name fps ((k, d) ∷ old) h = ground (
  arith,
  lookup-old_fingerprints name (insert k (fingerprint_for d).0 fps) old h.1,
  lookup-insert k name (fingerprint_for d).0 fps,
  text_beq_iff k name,
)

All-lookup :
    (name : Text) (old : Bundles) {d : AssetBundleDetail}
    → InRange old
    → lookup name old ≡ some d
    → IsI64 d.crc
unfolding lookup
All-lookup name [] h e = cc
All-lookup name ((k, x) ∷ old) {d} h e = elim (Bool-cases (k =? name)) [
  | inl same ↦
      let found : some x ≡ some d = rw (← e) (rw (lookup, same)) in
      subst (λ t. IsI64 t.crc) (some-injective x d found) h.0
  | inr other ↦ All-lookup name old {d = d} h.1 (rw (← e) (rw (lookup, other)))
]

-- For checksums in range, the printed fingerprints agree exactly when the checksums do.
same_fingerprint :
    (a b : AssetBundleDetail)
    → IsI64 a.crc
    → IsI64 b.crc
    → ((fingerprint_for a).0 =? (fingerprint_for b).0) ≡ int_beq a.crc b.crc
unfolding fingerprint_for
same_fingerprint a b ha hb = elim (Bool-cases (int_beq a.crc b.crc)) [
  | inl same ↦ rw same ((text_beq_iff _ _).1 (ap to_string ((int_beq_iff a.crc b.crc).0 same)))
  | inr other ↦ ground (
    arith,
    text_beq_iff (to_string a.crc) (to_string b.crc),
    to_string-injective a.crc b.crc ha hb,
    int_beq_iff a.crc b.crc,
  )
]

-- One round appends the bundle exactly if it is changed.
changed-diff_step :
    (old : Bundles) (name : Text) (detail : AssetBundleDetail) (d : BundleDiff)
    → InRange old
    → IsI64 detail.crc
    → (diff_step (or_else (lookup name old) none) name detail d).changed
      ≡ d.changed ++ select_changed old ((name, detail) ∷ [])
unfolding diff_step
changed-diff_step old name detail d ho hd = elim (Option-cases (lookup name old)) [
  | inl absent ↦ rw absent
  | inr (previous, found) ↦
      rw (found, same_fingerprint previous detail (All-lookup name old ho found) hd)
        (elim (Bool-cases (int_beq previous.crc detail.crc)) [
          | inl same ↦ rw same (sym (append-nil d.changed))
          | inr other ↦ rw other
        ])
]

select-append :
    (old : Bundles) (name : Text) (detail : AssetBundleDetail) (new : Bundles)
    (front : List ChangedBundle)
    → front ++ select_changed old ((name, detail) ∷ []) ++ select_changed old new
      ≡ front ++ select_changed old ((name, detail) ∷ new)
select-append old name detail new front = elim (Bool-cases (is_changed old name detail)) [
  | inl c ↦ rw c (append_assoc front (changed_bundle name detail ∷ []) (select_changed old new))
  | inr u ↦ rw u (ap (λ t. t ++ select_changed old new) (append-nil front))
]

changed-diff_loop :
    (old : Bundles) (new : Bundles) (d : BundleDiff)
    → IsMap old
    → InRange old
    → InRange new
    → (diff_loop (old_fingerprints [] old) new d).changed ≡ d.changed ++ select_changed old new
unfolding diff_loop
changed-diff_loop old [] d hm ho hn = sym (append-nil d.changed)
changed-diff_loop old ((name, detail) ∷ new) d hm ho hn =
    changed-diff_loop old new _ hm ho hn.1
    ∙ rw (lookup-old_fingerprints name [] old hm, lookup_empty name)
        (rw (changed-diff_step old name detail d ho hn.0)
          (select-append old name detail new d.changed))
  where
    lookup_empty : (k : Text) → lookup {V = Text} k [] ≡ none
    lookup_empty k = unfold lookup in refl

-- For snapshots without repeated names and with checksums in i64, `diff` lists exactly the new
-- bundles whose name is not in the old snapshot or whose checksum is another there, in the order of
-- the new snapshot, each with the printed checksum as its fingerprint.
pub changed-diff :
    (old : Option AssetBundleInfo) (new : AssetBundleInfo)
    → IsMap (bundles_of old)
    → InRange (bundles_of old)
    → InRange new.bundles
    → (diff old new).changed ≡ select_changed (bundles_of old) new.bundles
unfolding diff
changed-diff old new hm ho hn = changed-diff_loop (bundles_of old) new.bundles no_changes hm ho hn

-- What the counters say of the new bundles.
record Counted (d : BundleDiff) (n : ℕ) : Type 0 where
  listed : length d.changed ≡ d.stats.added + d.stats.changed
  all : d.stats.added + d.stats.changed + d.stats.unchanged ≡ n

Counted-diff_step :
    (o : Option Text) (name : Text) (detail : AssetBundleDetail) (d : BundleDiff) (n : ℕ)
    → Counted d n
    → Counted (diff_step o name detail d) (n + 1)
unfolding diff_step
Counted-diff_step none name detail d n h =
    ground (arith, length-append d.changed (changed_bundle name detail ∷ []))
Counted-diff_step (some previous) name detail d n h =
    ground (arith, length-append d.changed (changed_bundle name detail ∷ []))

Counted-diff_loop :
    (fps : Map Text Text) (new : Bundles) (d : BundleDiff) (n : ℕ)
    → Counted d n
    → Counted (diff_loop fps new d) (n + length new)
unfolding diff_loop
Counted-diff_loop fps [] d n h = let e : n + 0 ≡ n = omega arith in rw e h
Counted-diff_loop fps ((name, detail) ∷ new) d n h =
    let e : n + suc (length new) ≡ n + 1 + length new = omega arith in
    rw e
      (Counted-diff_loop fps new _ (n + 1) (Counted-diff_step (lookup name fps) name detail d n h))

-- Whatever the snapshots, the counters of added and changed bundles add up to the bundles listed,
-- and with the unchanged ones to all bundles of the new snapshot.
pub stats-diff :
    (old : Option AssetBundleInfo) (new : AssetBundleInfo)
    → (length (diff old new).changed ≡ (diff old new).stats.added + (diff old new).stats.changed)
      × ((diff old new).stats.added + (diff old new).stats.changed + (diff old new).stats.unchanged
          ≡ length new.bundles)
unfolding diff
stats-diff old new =
    let h =
      Counted-diff_loop (old_fingerprints [] (bundles_of old)) new.bundles no_changes 0
        (omega arith) in
    (h.listed, omega (arith, h.all))
