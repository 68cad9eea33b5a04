-- ===== src/Config/Overrides/Examples.antt =====
-- Two variables over a small configuration.
use moe_assets_updater_next.Prelude.{◌≡◌, refl, some, [], ◌∷◌, codes, Text, text_beq}
use moe_assets_updater_next.Poller.Cleanup.{ascii_lowercase}
use moe_assets_updater_next.Config.Overrides.{
  Value, null, number, string, sequence, mapping, nil, cons, empty, entry, parse_usize,
  digits_value, pad, get_item, set_item, is_key, get_key, set_key, set_env_override_leaf,
  default_child, descend_env_override_path, override_loop,
}
use moe_assets_updater_next.Config.Overrides.Variables.{
  strip_prefix, split_pairs, lower_segments, parse_env_override_path, apply_env_override,
  apply_env_overrides,
}

-- `server: { port: 1 }`, `tags: [a, b]`.
abbrev root : Value
root = mapping (
    entry (string (codes "server"))
      (mapping (entry (string (codes "port")) (number (codes "1")) empty))
      (entry (string (codes "tags"))
        (sequence (cons (string (codes "a")) (cons (string (codes "b")) nil))) empty))

abbrev as_text : Text → Value
as_text raw = string raw

abbrev tag : Text × Text
tag = (codes "HARUKI__TAGS__3", codes "c")

abbrev host : Text × Text
host = (codes "HARUKI__server__BIND_host", codes "h")

-- The list grows to the index, and the mapping gets an entry; the port is kept.
abbrev after : Value
after = mapping (
    entry (string (codes "server"))
      (mapping (
        entry (string (codes "port")) (number (codes "1"))
          (entry (string (codes "bind_host")) (string (codes "h")) empty)))
      (entry (string (codes "tags"))
        (sequence (
          cons (string (codes "a"))
            (cons (string (codes "b")) (cons null (cons (string (codes "c")) nil)))))
        empty))

two_variables : apply_env_overrides as_text (tag ∷ host ∷ []) root ≡ some after
unfolding apply_env_overrides apply_env_override parse_env_override_path strip_prefix split_pairs
    lower_segments ascii_lowercase override_loop set_env_override_leaf descend_env_override_path
    default_child parse_usize digits_value pad get_item set_item is_key get_key set_key text_beq
two_variables = refl

-- A scalar on the way is replaced by a mapping.
replaces_scalar :
    override_loop (codes "x" ∷ codes "y" ∷ []) null (string (codes "s"))
    ≡ mapping (entry (string (codes "x")) (mapping (entry (string (codes "y")) null empty)) empty)
unfolding override_loop set_env_override_leaf descend_env_override_path default_child parse_usize
    digits_value set_key get_key is_key
replaces_scalar = refl
