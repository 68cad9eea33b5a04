-- ===== src/Config/References.antt =====
-- `expand_env_references` of src/core/config.rs: `${env:NAME}` in the texts of the configuration is replaced by
-- a variable of the environment. `env_var` is `env::var` at the trimmed name.
pub mod Template
pub mod Reached
mod Examples
use moe_assets_updater_next.Prelude.{
  ℕ, zero, suc, Bool, true, false, Option, none, some, List, [], ◌∷◌, ◌++◌, ◌==◌, length,
  if◌then◌else◌, Text, codes,
}
use moe_assets_updater_next.Config.Overrides.{
  Value, null, bool, number, string, sequence, mapping, tagged, Values, nil, cons, Entries, empty,
  entry,
}

-- The text without a prefix, if it has it.
unfoldable pub after_prefix : Text → Text → Option Text
after_prefix [] s = some s
after_prefix (c ∷ prefix) [] = none
after_prefix (c ∷ prefix) (d ∷ s) = if d == c then after_prefix prefix s else none

abbrev pub marker : Text
marker = codes "${env:"

abbrev pub found_or : Option Text → ℕ → Option (Text × Text) → Option (Text × Text)
found_or (some after) c later = some ([], after)
found_or none c none = none
found_or none c (some (before, after)) = some (c ∷ before, after)

-- `find`: the text before the first occurrence and the text after it.
unfoldable pub split_at_first : Text → Text → Option (Text × Text)
unfolding after_prefix
split_at_first needle [] = none
split_at_first needle (c ∷ s) = found_or (after_prefix needle (c ∷ s)) c (split_at_first needle s)

abbrev pub prepend : Text → Text → Option Text → Option Text
prepend before value none = none
prepend before value (some rest) = some (before ++ (value ++ rest))

-- A variable that is missing is an error; else its value stands between what precedes and what follows.
abbrev pub with_value : Option Text → Text → Option Text → Option Text
with_value none before rest = none
with_value (some value) before rest = prepend before value rest

-- `none` is the error, `some none` that the text has no reference.
abbrev pub or_unchanged : Option (Text × Text) → Option Text → Option (Option Text)
or_unchanged none expanded = some none
or_unchanged (some _) none = none
or_unchanged (some _) (some expanded) = some (some expanded)

module _ (env_var : Text → Option Text) where
  -- From a marker on: the text before it, what follows it split at the brace, and the rest of the loop.
  abbrev pub after_marker : Text → Text → Option (Text × Text) → (Text → Option Text) → Option Text
  after_marker whole before none rest = some whole
  after_marker whole before (some (name, after)) rest =
      with_value (env_var name) before (rest after)

  abbrev pub at_marker : Text → Option (Text × Text) → (Text → Option Text) → Option Text
  at_marker whole none rest = some whole
  at_marker whole (some (before, after)) rest =
      after_marker whole before (split_at_first (codes "}") after) rest

  -- The loop, on fuel, from the cursor on; `none` is a missing variable.
  unfoldable pub expand_loop : ℕ → Text → Option Text
  unfolding split_at_first
  expand_loop zero raw = some raw
  expand_loop (suc n) raw = at_marker raw (split_at_first marker raw) (λ after. expand_loop n after)

  unfoldable pub expand_env_references_in_string : Text → Option (Option Text)
  unfolding expand_loop
  expand_env_references_in_string raw =
      or_unchanged (split_at_first marker raw) (expand_loop (length raw) raw)

abbrev pub replaced : Text → Option (Option Text) → Option Value
replaced raw none = none
replaced raw (some none) = some (string raw)
replaced raw (some (some expanded)) = some (string expanded)

abbrev pub map_value : (Value → Value) → Option Value → Option Value
map_value f none = none
map_value f (some v) = some (f v)

abbrev pub items_value : Option Values → Option Value
items_value none = none
items_value (some items) = some (sequence items)

abbrev pub entries_value : Option Entries → Option Value
entries_value none = none
entries_value (some m) = some (mapping m)

abbrev pub with_item : Option Value → Option Values → Option Values
with_item none items = none
with_item (some v) none = none
with_item (some v) (some items) = some (cons v items)

abbrev pub with_entry : Value → Option Value → Option Entries → Option Entries
with_entry k none m = none
with_entry k (some v) none = none
with_entry k (some v) (some m) = some (entry k v m)

-- The walk over the document; the keys of a mapping are left as they are.
module _ (env_var : Text → Option Text) where
  unfoldable mutual
    unfolding expand_env_references_in_string

    pub expand_env_references : Value → Option Value
    expand_env_references (string raw) = replaced raw (expand_env_references_in_string env_var raw)
    expand_env_references (sequence items) = items_value (expand_items items)
    expand_env_references (mapping m) = entries_value (expand_entries m)
    expand_env_references (tagged tag v) = map_value (tagged tag) (expand_env_references v)
    expand_env_references null = some null
    expand_env_references (bool b) = some (bool b)
    expand_env_references (number n) = some (number n)

    pub expand_items : Values → Option Values
    expand_items nil = some nil
    expand_items (cons v items) = with_item (expand_env_references v) (expand_items items)

    pub expand_entries : Entries → Option Entries
    expand_entries empty = some empty
    expand_entries (entry k v m) = with_entry k (expand_env_references v) (expand_entries m)
