-- ===== src/Snapshot/Resume.antt =====
-- What the next `diff` makes of a snapshot that `merge` carried on.
use moe_assets_updater_next.Prelude.{
  ◌≡◌, refl, Bool, true, false, not, ◌&&◌, Option, none, some, List, [], ◌∷◌, arith, if◌then◌else◌,
  All, ◌=?◌, Text, text_eq, text_beq_iff, lookup, insert, IsMap, lookup-insert, Bool-cases, inl,
  inr,
}
use moe_assets_updater_next.Prelude.Int.{IsI64}
use moe_assets_updater_next.Snapshot.{
  AssetBundleDetail, AssetBundleInfo, ChangedBundle, changed_bundle, merge_base, insert_all, merge,
}
use moe_assets_updater_next.Snapshot.Classify.{Bundles, InRange, is_changed}

abbrev pub or_old : Option AssetBundleDetail → Option AssetBundleDetail → Option AssetBundleDetail
or_old none old = old
or_old (some detail) old = some detail

pub lookup-insert_all :
    (name : Text) (merged entries : Bundles)
    → IsMap entries
    → lookup name (insert_all merged entries) ≡ or_old (lookup name entries) (lookup name merged)
unfolding insert_all lookup
lookup-insert_all name merged [] h = refl
lookup-insert_all name merged ((k, d) ∷ entries) h = ground (
  arith,
  lookup-insert_all name (insert k d merged) entries h.1,
  lookup-insert k name d merged,
  text_beq_iff k name,
)

pub insert-InRange :
    (k : Text) (d : AssetBundleDetail) (m : Bundles)
    → IsI64 d.crc
    → InRange m
    → InRange (insert k d m)
unfolding insert
insert-InRange k d [] hd h = (hd, tt)
insert-InRange k d ((j, x) ∷ m) hd h = elim (Bool-cases (j =? k)) [
  | inl same ↦ rw same (hd, h.1)
  | inr other ↦ rw other (h.0, insert-InRange k d m hd h.1)
]

abbrev pub contains_key : Text → Bundles → Bool
contains_key name entries = elim (lookup name entries) [ none ↦ false | some _ ↦ true ]

-- The bundles that are changed against `base` and not among `entries`.
abbrev pub select_left : Bundles → Bundles → Bundles → List ChangedBundle
select_left base entries [] = []
select_left base entries ((name, detail) ∷ new) =
    if not (contains_key name entries) && is_changed base name detail
    then changed_bundle name detail ∷ select_left base entries new
    else select_left base entries new

-- `entries` carry the details that `new` has under their names.
abbrev pub Agree : Bundles → Bundles → Type 0
Agree entries new = All (λ b. (d : AssetBundleDetail) → lookup b.0 entries ≡ some d → d ≡ b.1) new

-- `merge` keeps every bundle of the snapshot on disk that is of the same version and system, with the
-- details of `entries` put over it; of any other snapshot it keeps nothing.
pub lookup-merge :
    (existing : Option AssetBundleInfo) (version os : Option Text) (entries : Bundles) (name : Text)
    → IsMap entries
    → lookup name (merge existing version os entries).bundles
      ≡ or_old (lookup name entries) (lookup name (merge_base existing version os).bundles)
unfolding merge
lookup-merge existing version os entries name h =
    lookup-insert_all name (merge_base existing version os).bundles entries h
