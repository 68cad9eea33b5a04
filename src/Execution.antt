-- ===== src/Execution.antt =====
-- src/core/asset_execution.rs: the task of a download, and `raw_bundle_output_path`, where a bundle is
-- stored as it came. A path is the list of its components.
pub mod Under
pub mod Plan
pub mod Run
pub mod Memory
pub mod Obfuscation
pub mod Execute
pub mod Prefetch
mod Examples
use moe_assets_updater_next.Prelude.Int.{ℤ}
use moe_assets_updater_next.Snapshot.{AssetCategory}
use moe_assets_updater_next.Prelude.{
  ℕ, Bool, true, false, not, ◌&&◌, ◌||◌, Option, none, some, List, [], ◌∷◌, ◌++◌, length, ◌==◌,
  if◌then◌else◌, ◌=?◌, Text, text_eq, option_eq, codes,
}

pub record DownloadTask : Type 0 where
  pub download_path : Text
  pub bundle_path : Text
  pub bundle_hash : Text
  pub category : AssetCategory
  pub file_size : ℤ
  pub priority : ℕ

pub data Result {ℓ} (A : Type ℓ) : Type ℓ where
  ok : A → Result A
  invalid_raw_bundle_path : Result A

abbrev pub cons_head : ℕ → List Text → List Text
cons_head c [] = (c ∷ []) ∷ []
cons_head c (w ∷ ws) = (c ∷ w) ∷ ws

-- `split('/')`.
unfoldable pub split_slash : Text → List Text
split_slash [] = [] ∷ []
split_slash (c ∷ s) = let rest = split_slash s in if c == 47 then [] ∷ rest else cons_head c rest

abbrev pub is_refused : Text → Bool
is_refused component =
    (length component == 0) || (component =? codes ".") || (component =? codes "..")

unfoldable pub any_refused : List Text → Bool
any_refused [] = false
any_refused (c ∷ cs) = is_refused c || any_refused cs

-- The parts of a name around its last dot.
abbrev pub after_dot : ℕ → Text → Option (Text × Text) → Option (Text × Text)
after_dot c s none = if c == 46 then some ([], s) else none
after_dot c s (some (before, after)) = some (c ∷ before, after)

unfoldable pub rsplit_dot : Text → Option (Text × Text)
rsplit_dot [] = none
rsplit_dot (c ∷ s) = after_dot c s (rsplit_dot s)

-- `file_stem` and `extension` of a name that is not `..`: a dot in front starts no extension.
abbrev pub name_parts : Text → Option (Text × Text) → Text × Option Text
name_parts name none = (name, none)
name_parts name (some ([], after)) = (name, none)
name_parts name (some (c ∷ before, after)) = (c ∷ before, some after)

unfoldable pub stem_and_extension : Text → Text × Option Text
unfolding rsplit_dot
stem_and_extension name = name_parts name (rsplit_dot name)

-- The end of the function: `set_extension("bundle")` unless that is the extension.
unfoldable pub with_bundle : Text → Text
unfolding stem_and_extension
with_bundle name =
    let (stem, extension) = stem_and_extension name in
    if extension =? some (codes "bundle") then name else stem ++ codes ".bundle"

unfoldable pub set_last : List Text → List Text
unfolding with_bundle
set_last [] = []
set_last (name ∷ []) = with_bundle name ∷ []
set_last (c ∷ d ∷ cs) = c ∷ set_last (d ∷ cs)

abbrev pub is_absolute : Text → Bool
is_absolute [] = false
is_absolute (c ∷ s) = c == 47

-- After the two tests, the components of the path are those of the split, all of them `Normal`.
unfoldable pub raw_bundle_output_path : List Text → Text → Result (List Text)
unfolding split_slash any_refused set_last
raw_bundle_output_path root bundle_path =
    if length bundle_path == 0
    then invalid_raw_bundle_path
    else if any_refused (split_slash bundle_path)
    then invalid_raw_bundle_path
    else if is_absolute bundle_path
    then invalid_raw_bundle_path
    else ok (root ++ set_last (split_slash bundle_path))
