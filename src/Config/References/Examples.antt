-- ===== src/Config/References/Examples.antt =====
-- References to one variable.
use moe_assets_updater_next.Prelude.{
  ◌≡◌, refl, Option, none, some, List, [], ◌∷◌, codes, Text, text_beq, arith, if◌then◌else◌,
}
use moe_assets_updater_next.Config.Overrides.{
  Value, null, string, sequence, mapping, nil, cons, empty, entry, parse_usize, digits_value,
  get_item, is_key, get_key,
}
use moe_assets_updater_next.Config.Overrides.Places.{value_at}
use moe_assets_updater_next.Config.References.{
  after_prefix, split_at_first, expand_loop, expand_env_references_in_string, expand_env_references,
  expand_items, expand_entries,
}
use moe_assets_updater_next.Config.References.Template.{
  Piece, print, meaning, result_of, expand_env_references_in_string-print,
}
use moe_assets_updater_next.Config.References.Reached.{value-expand_env_references}

abbrev home : Text → Option Text
home name = if text_beq name (codes "HOME") then some (codes "/h") else none

expands : expand_env_references_in_string home (codes "a${env:HOME}b") ≡ some (some (codes "a/hb"))
unfolding expand_env_references_in_string expand_loop split_at_first after_prefix text_beq
expands = refl

missing : expand_env_references_in_string home (codes "${env:X}") ≡ none
unfolding expand_env_references_in_string expand_loop split_at_first after_prefix text_beq
missing = refl

-- A reference that is not closed is kept.
open_end : expand_env_references_in_string home (codes "a${env:X") ≡ some (some (codes "a${env:X"))
unfolding expand_env_references_in_string expand_loop split_at_first after_prefix text_beq
open_end = refl

abbrev pieces : List Piece
pieces = (codes "a", codes "HOME") ∷ (codes "b", codes "HOME") ∷ []

expand_env_references_in_string-print_example :
    expand_env_references_in_string home (print pieces (codes "c"))
    ≡ result_of pieces (meaning home pieces (codes "c"))
expand_env_references_in_string-print_example =
    expand_env_references_in_string-print home pieces (codes "c") (omega arith) (omega arith)

abbrev root : Value
root = mapping (
    entry (string (codes "dirs")) (sequence (cons null (cons (string (codes "${env:HOME}")) nil)))
      empty)

abbrev expanded : Value
expanded =
    mapping
      (entry (string (codes "dirs")) (sequence (cons null (cons (string (codes "/h")) nil))) empty)

expands_root : expand_env_references home root ≡ some expanded
unfolding expand_env_references expand_items expand_entries expand_env_references_in_string
    expand_loop split_at_first after_prefix text_beq
expands_root = refl

second_dir : value_at (codes "dirs" ∷ codes "1" ∷ []) root ≡ some (string (codes "${env:HOME}"))
unfolding value_at get_key is_key text_beq parse_usize digits_value get_item
second_dir = refl

value-expand_env_references_example :
    (v : Value) × (expand_env_references home (string (codes "${env:HOME}")) ≡ some v)
    × (value_at (codes "dirs" ∷ codes "1" ∷ []) expanded ≡ some v)
value-expand_env_references_example =
    value-expand_env_references home (codes "dirs" ∷ codes "1" ∷ []) root expanded
      (string (codes "${env:HOME}")) expands_root second_dir
