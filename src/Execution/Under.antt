-- ===== src/Execution/Under.antt =====
-- A stored bundle lies under the root, under a name that tells its path.
pub mod Components
use mathlib.Core.Path.{subst}
use moe_assets_updater_next.Prelude.{
  ℕ, length-append, ◌≤◌, ◌≡◌, ◌≢◌, refl, sym, ap, ◌∙◌, true, false, Option, none, some, List, [],
  ◌∷◌, ◌++◌, arith, length, ◌==◌, ==_iff, ◌=?◌, Text, text_eq, text_beq_iff, option_eq,
  option_beq_iff, codes, All, All-append, Bool-cases, Option-cases, inl, inr,
}
use moe_assets_updater_next.Execution.{
  ok, invalid_raw_bundle_path, cons_head, split_slash, is_refused, any_refused, after_dot,
  rsplit_dot, name_parts, stem_and_extension, with_bundle, set_last, is_absolute,
  raw_bundle_output_path,
}
use moe_assets_updater_next.Execution.Under.Components.{
  join_slash, NoSlash, NonEmpty, split_slash-NonEmpty, join-split_slash, split_slash-NoSlash, Plain,
  any_refused-Plain, rsplit_dot-append, Stem, name_parts-Stem,
}

-- A name that ends in `.bundle`, as its extension.
pub record Bundled (name : Text) : Type 0 where
  pub plain : Plain name
  pub extension : (stem_and_extension name).1 ≡ some (codes "bundle")

-- A longer text is none of the refused components.
differs_long : (s t : Text) → length t ≤ 2 → (s ++ codes ".bundle" =? t) ≡ false
differs_long s t h = elim (Bool-cases (s ++ codes ".bundle" =? t)) [
  | inl same ↦
      let e : s ++ codes ".bundle" ≡ t = (text_beq_iff (s ++ codes ".bundle") t).0 same in
      absurd (omega (arith, ap length e, length-append s (codes ".bundle"), h))
  | inr other ↦ other
]

is_refused-append : (s : Text) → is_refused (s ++ codes ".bundle") ≡ false
is_refused-append s =
    let long : (length (s ++ codes ".bundle") == 0) ≡ false =
      ground (arith, length-append s (codes ".bundle")) in
    rw (long, differs_long s (codes ".") (omega arith), differs_long s (codes "..") (omega arith))
      refl

stem_and_extension-append :
    (stem : Text)
    → Stem stem
    → stem_and_extension (stem ++ codes ".bundle") ≡ (stem, some (codes "bundle"))
unfolding stem_and_extension
stem_and_extension-append [] h = absurd cc
stem_and_extension-append (c ∷ s) h =
    ap (name_parts ((c ∷ s) ++ codes ".bundle")) (rsplit_dot-append (c ∷ s))

bundle_NoSlash : NoSlash (codes ".bundle")
bundle_NoSlash = ground arith

Stem-NoSlash : (stem : Text) → Stem stem → NoSlash stem
Stem-NoSlash [] h = tt
Stem-NoSlash (c ∷ s) h = h

with_bundle-Bundled : (name : Text) → Plain name → Bundled (with_bundle name)
unfolding with_bundle
with_bundle-Bundled name h =
    let (stem, extension) = stem_and_extension name in
    elim (Bool-cases (extension =? some (codes "bundle"))) [
      | inl same ↦ rw same (record {
        plain = h;
        extension = (option_beq_iff extension (some (codes "bundle"))).0 same;
      })
      | inr other ↦
          let good : Stem stem =
            unfold stem_and_extension in name_parts-Stem name (rsplit_dot name) refl h in
          rw other (record {
            plain = record {
              no_slash =
                  All-append (λ c. c ≢ 47) stem (codes ".bundle") (Stem-NoSlash stem good)
                    bundle_NoSlash;
              named = is_refused-append stem;
            };
            extension = ap (λ (p : Text × Option Text). p.1) (stem_and_extension-append stem good);
          })
    ]

-- Where the path of a bundle comes to lie: under the root, in the directories of the path, which are plain
-- names, in a file whose name is the last one with the extension `bundle`.
pub record Under (root : List Text) (bundle_path : Text) (path : List Text) : Type 0 where
  pub directories : List Text
  pub name : Text
  pub spelled : join_slash (directories ++ name ∷ []) ≡ bundle_path
  pub placed : path ≡ root ++ (directories ++ with_bundle name ∷ [])
  pub plain : All Plain directories
  pub bundled : Bundled (with_bundle name)

set_last-split :
    (cs : List Text)
    → NonEmpty cs
    → (directories : List Text) × (name : Text) × (cs ≡ directories ++ name ∷ [])
      × (set_last cs ≡ directories ++ with_bundle name ∷ [])
unfolding set_last
set_last-split [] h = absurd cc
set_last-split (c ∷ []) h = ([], c, refl, refl)
set_last-split (c ∷ d ∷ cs) h =
    let (ds, name, e, f) = set_last-split (d ∷ cs) tt in
    (c ∷ ds, name, ap (λ t. c ∷ t) e, ap (λ t. c ∷ t) f)

All-split : (ds : List Text) (name : Text) → All Plain (ds ++ name ∷ []) → All Plain ds × Plain name
All-split [] name h = (tt, h.0)
All-split (d ∷ ds) name h = let (p, q) = All-split ds name h.1 in ((h.0, p), q)

-- A bundle that gets a path is stored under the root: the directories of its path are added to the root,
-- none of which is blank, `.` or `..` or has a slash, and the file has the last name of the path with the
-- extension `bundle`; put together with slashes, these names are the path of the bundle.
pub raw_bundle_output_path-Under :
    (root : List Text) (bundle_path : Text) (path : List Text)
    → raw_bundle_output_path root bundle_path ≡ ok path
    → Under root bundle_path path
unfolding raw_bundle_output_path
raw_bundle_output_path-Under root bundle_path path h = elim (Bool-cases (length bundle_path == 0)) [
  | inl blank ↦ let e : invalid_raw_bundle_path ≡ ok path = rw blank at h in absurd cc
  | inr given ↦ elim (Bool-cases (any_refused (split_slash bundle_path))) [
    | inl refused ↦
        let e : invalid_raw_bundle_path ≡ ok path = rw (given, refused) at h in absurd cc
    | inr fine ↦ elim (Bool-cases (is_absolute bundle_path)) [
      | inl absolute ↦
          let e : invalid_raw_bundle_path ≡ ok path = rw (given, fine, absolute) at h in absurd cc
      | inr relative ↦
          let e : ok (root ++ set_last (split_slash bundle_path)) ≡ ok path =
            rw (given, fine, relative) at h in
          let same : root ++ set_last (split_slash bundle_path) ≡ path = cc in
          let (ds, name, parts, last) =
            set_last-split (split_slash bundle_path) (split_slash-NonEmpty bundle_path) in
          let (plain, own) = All-split ds name (
            subst (All Plain) parts (
              any_refused-Plain (split_slash bundle_path) fine
                (split_slash-NoSlash bundle_path))) in
          record {
            directories = ds;
            name = name;
            spelled = ap join_slash (sym parts) ∙ join-split_slash bundle_path;
            placed = sym same ∙ ap (λ t. root ++ t) last;
            plain = plain;
            bundled = with_bundle-Bundled name own;
          }
    ]
  ]
]
