-- ===== src/Config/References/Reached.antt =====
-- Every value of the configuration is expanded, and none is moved.
use moe_assets_updater_next.Prelude.{
  ℕ, zero, suc, ◌≡◌, refl, inl, inr, Option, none, some, List, [], ◌∷◌, Text, text_eq, Bool-cases,
}
use moe_assets_updater_next.Config.Overrides.{
  Value, null, bool, number, string, sequence, mapping, tagged, Values, nil, cons, Entries, empty,
  entry, parse_usize, get_item, get_key, is_key,
}
use moe_assets_updater_next.Config.Overrides.Places.{child_at, value_at, then_at-some}
use moe_assets_updater_next.Config.References.{
  items_value, entries_value, with_item, with_entry, expand_env_references, expand_items,
  expand_entries,
}

with_item-some :
    (v : Option Value) (items : Option Values) {all : Values}
    → with_item v items ≡ some all
    → (w : Value) × (rest : Values) × (v ≡ some w) × (items ≡ some rest) × (all ≡ cons w rest)
with_item-some none items h = absurd cc
with_item-some (some v) none h = absurd cc
with_item-some (some v) (some items) h = (v, items, refl, refl, cc)

with_entry-some :
    (k : Value) (v : Option Value) (m : Option Entries) {all : Entries}
    → with_entry k v m ≡ some all
    → (w : Value) × (rest : Entries) × (v ≡ some w) × (m ≡ some rest) × (all ≡ entry k w rest)
with_entry-some k none m h = absurd cc
with_entry-some k (some v) none h = absurd cc
with_entry-some k (some v) (some m) h = (v, m, refl, refl, cc)

module _ (env_var : Text → Option Text) where
  -- What a value that was found becomes.
  abbrev pub Expands : Value → Option Value → Type 0
  Expands v found = (v' : Value) × (expand_env_references env_var v ≡ some v') × (found ≡ some v')

  expand_items-Expands :
      (i : ℕ) (items items' : Values) (v : Value)
      → expand_items env_var items ≡ some items'
      → get_item i items ≡ some v
      → Expands v (get_item i items')
  unfolding expand_items get_item
  expand_items-Expands i nil items' v h e = absurd cc
  expand_items-Expands zero (cons u items) items' v h e =
      let (w, rest, one, _, all) =
        with_item-some (expand_env_references env_var u) (expand_items env_var items) h in
      let same : u ≡ v = cc in (w, rw (← same) one, rw all refl)
  expand_items-Expands (suc i) (cons u items) items' v h e =
      let (w, rest, _, others, all) =
        with_item-some (expand_env_references env_var u) (expand_items env_var items) h in
      rw all (expand_items-Expands i items rest v others e)

  expand_entries-Expands :
      (s : Text) (m m' : Entries) (v : Value)
      → expand_entries env_var m ≡ some m'
      → get_key s m ≡ some v
      → Expands v (get_key s m')
  unfolding expand_entries get_key
  expand_entries-Expands s empty m' v h e = absurd cc
  expand_entries-Expands s (entry k u m) m' v h e =
      let (w, rest, one, others, all) =
        with_entry-some k (expand_env_references env_var u) (expand_entries env_var m) h in
      rw all (elim (Bool-cases (is_key s k)) [
        | inl here ↦
            let found : some u ≡ some v = rw here at e in
            let same : u ≡ v = cc in rw here (w, rw (← same) one, refl)
        | inr elsewhere ↦
            rw elsewhere (expand_entries-Expands s m rest v others (rw elsewhere at e))
      ])

  items_value-some :
      (items : Option Values) {v : Value}
      → items_value items ≡ some v
      → (all : Values) × (items ≡ some all) × (v ≡ sequence all)
  items_value-some none h = absurd cc
  items_value-some (some all) h = (all, refl, cc)

  entries_value-some :
      (m : Option Entries) {v : Value}
      → entries_value m ≡ some v
      → (all : Entries) × (m ≡ some all) × (v ≡ mapping all)
  entries_value-some none h = absurd cc
  entries_value-some (some all) h = (all, refl, cc)

  mapping-Expands :
      (s : Text) (m : Entries) (root' v : Value)
      → expand_env_references env_var (mapping m) ≡ some root'
      → get_key s m ≡ some v
      → (m' : Entries) × (root' ≡ mapping m') × Expands v (get_key s m')
  unfolding expand_env_references
  mapping-Expands s m root' v h e =
      let (m', walked, same) = entries_value-some (expand_entries env_var m) h in
      (m', same, expand_entries-Expands s m m' v walked e)

  child-Expands :
      (o : Option ℕ) (s : Text) (root root' v : Value)
      → expand_env_references env_var root ≡ some root'
      → child_at o s root ≡ some v
      → Expands v (child_at o s root')
  unfolding expand_env_references
  child-Expands (some i) s (sequence items) root' v h e =
      let (items', walked, same) = items_value-some (expand_items env_var items) h in
      rw same (expand_items-Expands i items items' v walked e)
  child-Expands none s (sequence items) root' v h e = absurd cc
  child-Expands none s (mapping m) root' v h e =
      let (m', same, found) = mapping-Expands s m root' v h e in rw same found
  child-Expands (some i) s (mapping m) root' v h e =
      let (m', same, found) = mapping-Expands s m root' v h e in rw same found
  child-Expands none s null root' v h e = absurd cc
  child-Expands (some i) s null root' v h e = absurd cc
  child-Expands none s (bool b) root' v h e = absurd cc
  child-Expands (some i) s (bool b) root' v h e = absurd cc
  child-Expands none s (number n) root' v h e = absurd cc
  child-Expands (some i) s (number n) root' v h e = absurd cc
  child-Expands none s (string x) root' v h e = absurd cc
  child-Expands (some i) s (string x) root' v h e = absurd cc
  child-Expands none s (tagged t x) root' v h e = absurd cc
  child-Expands (some i) s (tagged t x) root' v h e = absurd cc

  -- When the document is expanded, what stood at a path stands there expanded.
  pub value-expand_env_references :
      (path : List Text) (root root' v : Value)
      → expand_env_references env_var root ≡ some root'
      → value_at path root ≡ some v
      → (v' : Value) × (expand_env_references env_var v ≡ some v') × (value_at path root' ≡ some v')
  unfolding value_at
  value-expand_env_references [] root root' v h e =
      let same : root ≡ v = cc in (root', rw (← same) h, refl)
  value-expand_env_references (s ∷ path) root root' v h e =
      let (u, there, below) = then_at-some (value_at path) (child_at (parse_usize s) s root) e in
      let (u', expanded, found) = child-Expands (parse_usize s) s root root' u h there in
      let (v', e', k) = value-expand_env_references path u u' v expanded below in
      (v', e', rw found k)
