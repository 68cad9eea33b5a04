-- ===== src/Config/Overrides.antt =====
-- `apply_env_overrides` of src/core/config.rs: the environment variables that replace values of the
-- configuration before it is read. What the YAML reader makes of a text is given; a mapping keeps its order.
pub mod Kept
pub mod Places
pub mod Variables
mod Examples
use moe_assets_updater_next.Prelude.{
  ℕ, zero, suc, ◌+◌, ◌-◌, ◌*◌, ◌^◌, Bool, true, false, ◌&&◌, ◌||◌, Option, none, some, List, [],
  ◌∷◌, ◌++◌, length, ltb, leb, ◌==◌, if◌then◌else◌, ◌=?◌, Text, text_eq, codes,
}

-- `Value` of the YAML crate, with its lists and mappings; a number is its text.
mutual
  pub data Value : Type 0 where
    null : Value
    bool : Bool → Value
    number : Text → Value
    string : Text → Value
    sequence : Values → Value
    mapping : Entries → Value
    tagged : Text → Value → Value

  pub data Values : Type 0 where
    nil : Values
    cons : Value → Values → Values

  pub data Entries : Type 0 where
    empty : Entries
    entry : Value → Value → Entries → Entries

-- `str::parse::<usize>`: digits, after a plus sign that may be left out, of a value below 2 ^ 64.
unfoldable pub digits_value : ℕ → Text → Option ℕ
digits_value n [] = if ltb n (2 ^ 64) then some n else none
digits_value n (c ∷ cs) =
    let rest = digits_value (n * 10 + (c - 48)) cs in if leb 48 c && leb c 57 then rest else none

unfoldable pub parse_usize : Text → Option ℕ
unfolding digits_value
parse_usize [] = none
parse_usize (c ∷ []) = digits_value 0 (c ∷ [])
parse_usize (c ∷ d ∷ cs) = if c == 43 then digits_value 0 (d ∷ cs) else digits_value 0 (c ∷ d ∷ cs)

-- `resize` where the list is shorter.
unfoldable pub pad : ℕ → Values → Values
pad zero items = items
pad (suc n) nil = cons null (pad n nil)
pad (suc n) (cons v items) = cons v (pad n items)

unfoldable pub get_item : ℕ → Values → Option Value
get_item i nil = none
get_item zero (cons v items) = some v
get_item (suc i) (cons v items) = get_item i items

unfoldable pub set_item : ℕ → Value → Values → Values
set_item i v nil = nil
set_item zero v (cons w items) = cons v items
set_item (suc i) v (cons w items) = cons w (set_item i v items)

-- Only a text is the key of a segment.
unfoldable pub is_key : Text → Value → Bool
is_key segment (string s) = s =? segment
is_key segment _ = false

unfoldable pub get_key : Text → Entries → Option Value
unfolding is_key
get_key segment empty = none
get_key segment (entry k v m) = if is_key segment k then some v else get_key segment m

-- `insert` of a mapping.
unfoldable pub set_key : Text → Value → Entries → Entries
unfolding is_key
set_key segment v empty = entry (string segment) v empty
set_key segment v (entry k w m) =
    let rest = set_key segment v m in if is_key segment k then entry k v m else entry k w rest

-- The entries, when the value is made a mapping.
abbrev pub entries_of : Value → Entries
entries_of (mapping m) = m
entries_of _ = empty

abbrev pub leaf_at_key : Text → Value → Value → Value
leaf_at_key segment value current = mapping (set_key segment value (entries_of current))

abbrev pub leaf_at : Option ℕ → Text → Value → Value → Value
leaf_at (some index) segment value (sequence items) =
    sequence (set_item index value (pad (suc index) items))
leaf_at (some index) segment value null = sequence (set_item index value (pad (suc index) nil))
leaf_at (some index) segment value current = leaf_at_key segment value current
leaf_at none segment value current = leaf_at_key segment value current

unfoldable pub set_env_override_leaf : Value → Text → Value → Value
unfolding parse_usize pad set_item set_key
set_env_override_leaf current segment value = leaf_at (parse_usize segment) segment value current

-- `default_child`.
abbrev pub empty_for : Option ℕ → Value
empty_for (some _) = sequence nil
empty_for none = mapping empty

unfoldable pub default_child : Text → Value
unfolding parse_usize
default_child next = empty_for (parse_usize next)

-- A null, or no item, makes room for the child.
abbrev pub item_or : Option Value → Value → Value
item_or none default = default
item_or (some null) default = default
item_or (some v) default = v

abbrev pub entry_or : Option Value → Value → Value
entry_or none default = default
entry_or (some v) default = v

-- The child that is descended to is changed by `f`.
abbrev pub change_item : ℕ → Text → (Value → Value) → Values → Value
change_item index next f items =
    let room = pad (suc index) items in
    sequence (set_item index (f (item_or (get_item index room) (default_child next))) room)

abbrev pub change_key : Text → Text → (Value → Value) → Value → Value
change_key segment next f current =
    let m = entries_of current in
    mapping (set_key segment (f (entry_or (get_key segment m) (default_child next))) m)

abbrev pub change_at : Option ℕ → Text → Text → (Value → Value) → Value → Value
change_at (some index) segment next f (sequence items) = change_item index next f items
change_at (some index) segment next f null = change_item index next f nil
change_at (some index) segment next f current = change_key segment next f current
change_at none segment next f current = change_key segment next f current

unfoldable pub descend_env_override_path : Value → Text → Text → (Value → Value) → Value
unfolding parse_usize pad get_item set_item get_key set_key default_child
descend_env_override_path current segment next f =
    change_at (parse_usize segment) segment next f current

-- The loop over the segments of a path. An index is below 2 ^ 64 - 1, so that a list of one item more exists.
unfoldable pub override_loop : List Text → Value → Value → Value
unfolding set_env_override_leaf descend_env_override_path
override_loop [] value current = current
override_loop (segment ∷ []) value current = set_env_override_leaf current segment value
override_loop (segment ∷ next ∷ path) value current =
    descend_env_override_path current segment next
      (λ child. override_loop (next ∷ path) value child)
