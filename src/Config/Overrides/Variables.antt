-- ===== src/Config/Overrides/Variables.antt =====
-- The names of the environment variables, `parse_env_override_path`, and the loop of `apply_env_overrides`
-- over the variables in the order of their names.
use moe_assets_updater_next.Prelude.{
  ℕ, ◌≡◌, Bool, true, false, not, ◌&&◌, Option, none, some, List, [], ◌∷◌, ◌==◌, if◌then◌else◌,
  Text, codes,
}
use moe_assets_updater_next.Poller.Cleanup.{ascii_lowercase}
use moe_assets_updater_next.Config.Overrides.{Value, override_loop}

-- `strip_prefix`.
unfoldable pub strip_prefix : Text → Text → Option Text
strip_prefix [] s = some s
strip_prefix (c ∷ prefix) [] = none
strip_prefix (c ∷ prefix) (d ∷ s) = if c == d then strip_prefix prefix s else none

abbrev pub in_front : ℕ → List Text → List Text
in_front c [] = (c ∷ []) ∷ []
in_front c (w ∷ ws) = (c ∷ w) ∷ ws

-- A character of the text: `open'` says that the one before is an underscore of no pair.
abbrev pub segment_step : Bool → Bool → ℕ → List Text → List Text
segment_step true true c rest = [] ∷ rest
segment_step true false c rest = in_front 95 (in_front c rest)
segment_step false true c rest = rest
segment_step false false c rest = in_front c rest

unfoldable pub split_pairs : Bool → Text → List Text
split_pairs open' [] = if open' then (95 ∷ []) ∷ [] else [] ∷ []
split_pairs open' (c ∷ s) = segment_step open' (c == 95) c (split_pairs (not open' && (c == 95)) s)

-- The segments in lower case, unless one is empty.
abbrev pub with_segment : Text → Option (List Text) → Option (List Text)
with_segment [] rest = none
with_segment (c ∷ s) none = none
with_segment (c ∷ s) (some rest) = some (ascii_lowercase (c ∷ s) ∷ rest)

unfoldable pub lower_segments : List Text → Option (List Text)
lower_segments [] = some []
lower_segments (s ∷ ss) = with_segment s (lower_segments ss)

abbrev pub parse_rest : Option Text → Option (List Text)
parse_rest none = none
parse_rest (some []) = none
parse_rest (some (c ∷ s)) = lower_segments (split_pairs false (c ∷ s))

-- `none` is `InvalidConfigBootstrap`.
unfoldable pub parse_env_override_path : Text → Option (List Text)
unfolding strip_prefix lower_segments split_pairs
parse_env_override_path name = parse_rest (strip_prefix (codes "HARUKI__") name)

unfoldable pub apply_env_override : Value → List Text → Value → Option Value
unfolding override_loop
apply_env_override root [] value = none
apply_env_override root (segment ∷ path) value = some (override_loop (segment ∷ path) value root)

abbrev pub and_then_with {ℓ κ} : {A : Type ℓ} {B : Type κ} → Option A → (A → Option B) → Option B
and_then_with none f = none
and_then_with (some a) f = f a

-- `parse_env_override_value` is the parameter: what the YAML reader makes of the text, or the text.
module _ (parse_env_override_value : Text → Value) where
  unfoldable pub apply_env_overrides : List (Text × Text) → Value → Option Value
  unfolding parse_env_override_path apply_env_override
  apply_env_overrides [] root = some root
  apply_env_overrides ((name, raw_value) ∷ overrides) root =
      and_then_with (parse_env_override_path name) λ path.
        and_then_with (apply_env_override root path (parse_env_override_value raw_value))
          λ root'. apply_env_overrides overrides root'

-- The name of a variable is that of a path.
abbrev pub Parses : Text × Text → Type 0
Parses variable = (path : List Text) × (parse_env_override_path variable.0 ≡ some path)
