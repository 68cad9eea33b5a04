-- ===== src/Regions.antt =====
-- src/core/regions.rs and the provider of a region in src/core/config.rs: the filters that a bundle's name
-- is tried against. A regular expression is what the crate `regex` makes of it.
pub mod Matches
use moe_assets_updater_next.Prelude.{
  ℕ, zero, suc, ◌+◌, Bool, true, false, ◌||◌, Option, none, some, List, [], ◌∷◌, if◌then◌else◌,
  Text, Map,
}

pub record RegionFiltersConfig : Type 0 where
  pub start_app : List Text
  pub on_demand : List Text
  pub skip : List Text
  pub priority : List Text

pub record ColorfulPalette : Type 0 where
  pub current_version_url : Option Text
  pub game_version_url_template : Option Text
  pub asset_info_url_template : Text
  pub asset_bundle_url_template : Text
  pub profile : Text
  pub profile_hashes : Map Text Text
  pub required_cookies : Bool
  pub cookie_bootstrap_url : Option Text

pub record Nuverse : Type 0 where
  pub current_version_url : Option Text
  pub asset_version_url : Text
  pub app_version : Text
  pub asset_info_url_template : Text
  pub asset_bundle_url_template : Text
  pub required_cookies : Bool
  pub cookie_bootstrap_url : Option Text

pub data RegionProviderConfig : Type 0 where
  colorful_palette : ColorfulPalette → RegionProviderConfig
  nuverse : Nuverse → RegionProviderConfig

-- `Regex::new(..).ok()` and `is_match` of the crate.
pub record Regexes : Type 1 where
  pub Regex : Type 0
  pub compile : Text → Option Regex
  pub is_match : Regex → Text → Bool

module _ (rx : Regexes) where
  abbrev pub and_compiled : Option rx.Regex → List rx.Regex → List rx.Regex
  and_compiled none rest = rest
  and_compiled (some r) rest = r ∷ rest

  unfoldable pub compile_patterns : List Text → List rx.Regex
  compile_patterns [] = []
  compile_patterns (p ∷ ps) = and_compiled (rx.compile p) (compile_patterns ps)

  unfoldable pub matches_any : List rx.Regex → Text → Bool
  matches_any [] name = false
  matches_any (r ∷ rs) name = rx.is_match r name || matches_any rs name

  -- `enumerate` counts from the given number.
  unfoldable pub find_match : ℕ → List rx.Regex → Text → Option ℕ
  find_match index [] name = none
  find_match index (r ∷ rs) name =
      let rest = find_match (suc index) rs name in if rx.is_match r name then some index else rest

  unfoldable pub first_match_index : List rx.Regex → Text → Option ℕ
  unfolding find_match
  first_match_index rs name = find_match 0 rs name
