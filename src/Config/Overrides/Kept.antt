-- ===== src/Config/Overrides/Kept.antt =====
-- An override is found at its path, and what stands at other paths is kept.
use moe_assets_updater_next.Prelude.{
  ℕ, ◌≡◌, ◌≢◌, refl, ◌⊎◌, Option, none, some, List, [], ◌∷◌, Text, text_eq,
}
use moe_assets_updater_next.Config.Overrides.{
  Value, null, bool, number, string, sequence, mapping, tagged, nil, empty, parse_usize, get_item,
  get_key, entries_of, leaf_at, set_env_override_leaf, change_at, descend_env_override_path,
  override_loop,
}
use moe_assets_updater_next.Config.Overrides.Places.{child_at, value_at, get-set_item, get-set_key}

child-leaf_at :
    (o : Option ℕ) (segment : Text) (value current : Value)
    → child_at o segment (leaf_at o segment value current) ≡ some value
child-leaf_at (some i) s v (sequence items) = get-set_item i v items
child-leaf_at (some i) s v null = get-set_item i v nil
child-leaf_at (some i) s v (mapping m) = get-set_key s v m
child-leaf_at (some i) s v (bool b) = get-set_key s v empty
child-leaf_at (some i) s v (number n) = get-set_key s v empty
child-leaf_at (some i) s v (string x) = get-set_key s v empty
child-leaf_at (some i) s v (tagged n x) = get-set_key s v empty
child-leaf_at none s v current = get-set_key s v (entries_of current)

-- The child that is changed stands where it is looked for.
abbrev Changed : (Value → Value) → Option Value → Type 0
Changed f o = (child : Value) × (o ≡ some (f child))

child-change_at :
    (o : Option ℕ) (segment next : Text) (f : Value → Value) (current : Value)
    → Changed f (child_at o segment (change_at o segment next f current))
child-change_at (some i) s t f (sequence items) = (_, get-set_item i _ items)
child-change_at (some i) s t f null = (_, get-set_item i _ nil)
child-change_at (some i) s t f (mapping m) = (_, get-set_key s _ m)
child-change_at (some i) s t f (bool b) = (_, get-set_key s _ empty)
child-change_at (some i) s t f (number n) = (_, get-set_key s _ empty)
child-change_at (some i) s t f (string x) = (_, get-set_key s _ empty)
child-change_at (some i) s t f (tagged n x) = (_, get-set_key s _ empty)
child-change_at none s t f current = (_, get-set_key s _ (entries_of current))

-- Whatever the configuration holds, the value of an override stands at its path afterwards.
pub value-override_loop :
    (segment : Text) (path : List Text) (value current : Value)
    → value_at (segment ∷ path) (override_loop (segment ∷ path) value current) ≡ some value
unfolding override_loop set_env_override_leaf descend_env_override_path value_at
value-override_loop s [] value current = rw (child-leaf_at (parse_usize s) s value current) refl
value-override_loop s (t ∷ path) value current =
    let (child, e) =
      child-change_at (parse_usize s) s t (λ c. override_loop (t ∷ path) value c) current in
    rw e (value-override_loop t path value child)

-- Two paths part: at an item of a list by their indices, at an entry of a mapping by their names. Where
-- they still agree, both lead to a value that is there.
abbrev InChild : (Value → Type 0) → Option Value → Type 0
InChild P none = ⊥
InChild P (some v) = P v

unfoldable pub Apart : List Text → List Text → Value → Type 0
Apart (s ∷ p) (t ∷ q) (sequence items) =
    (i : ℕ) × (j : ℕ) × (parse_usize s ≡ some i)
    × (parse_usize t ≡ some j)
    × ((i ≢ j) ⊎ ((i ≡ j) × InChild (Apart p q) (get_item i items)))
Apart (s ∷ p) (t ∷ q) (mapping m) = (s ≢ t) ⊎ ((s ≡ t) × InChild (Apart p q) (get_key s m))
Apart _ _ _ = ⊥
