-- ===== src/Config/Overrides/Places.antt =====
-- What stands at a path of a configuration, and what a write to a list or a mapping does to it.
use moe_assets_updater_next.Prelude.{
  ℕ, zero, suc, ◌≡◌, ◌≢◌, refl, sym, ap, ◌∙◌, inl, inr, true, false, Option, none, some, List, [],
  ◌∷◌, ◌=?◌, Text, text_eq, text_beq_iff, =?_refl, Bool-cases,
}
use moe_assets_updater_next.Config.Overrides.{
  Value, null, bool, number, string, sequence, mapping, tagged, Values, nil, cons, Entries, empty,
  entry, parse_usize, pad, get_item, set_item, is_key, get_key, set_key,
}

-- What stands at a path: an item of a list by its index, or an entry of a mapping by its key.
abbrev pub child_at : Option ℕ → Text → Value → Option Value
child_at (some index) segment (sequence items) = get_item index items
child_at index segment (mapping m) = get_key segment m
child_at index segment _ = none

abbrev pub then_at : (Value → Option Value) → Option Value → Option Value
then_at next none = none
then_at next (some v) = next v

unfoldable pub value_at : List Text → Value → Option Value
value_at [] v = some v
value_at (segment ∷ path) v = then_at (value_at path) (child_at (parse_usize segment) segment v)

pub get-set_item :
    (i : ℕ) (v : Value) (items : Values) → get_item i (set_item i v (pad (suc i) items)) ≡ some v
unfolding get_item set_item pad
get-set_item zero v nil = refl
get-set_item zero v (cons w items) = refl
get-set_item (suc i) v nil = get-set_item i v nil
get-set_item (suc i) v (cons w items) = get-set_item i v items

pub get-set_item_other :
    (i j : ℕ) (v : Value) (items : Values) {w : Value}
    → i ≢ j
    → get_item j items ≡ some w
    → get_item j (set_item i v (pad (suc i) items)) ≡ some w
unfolding get_item set_item pad
get-set_item_other i j v nil h e = absurd cc
get-set_item_other zero zero v (cons u items) h e = absurd (h refl)
get-set_item_other zero (suc j) v (cons u items) h e = e
get-set_item_other (suc i) zero v (cons u items) h e = e
get-set_item_other (suc i) (suc j) v (cons u items) h e =
    get-set_item_other i j v items (λ s. h (ap suc s)) e

-- An item that stands in a list stands in the longer one.
pub get-pad :
    (n j : ℕ) (items : Values) {w : Value}
    → get_item j items ≡ some w
    → get_item j (pad n items) ≡ some w
unfolding get_item pad
get-pad n j nil e = absurd cc
get-pad zero j (cons u items) e = e
get-pad (suc n) zero (cons u items) e = e
get-pad (suc n) (suc j) (cons u items) e = get-pad n j items e

pub get-set_key :
    (segment : Text) (v : Value) (m : Entries) → get_key segment (set_key segment v m) ≡ some v
unfolding get_key set_key is_key
get-set_key segment v empty = rw (=?_refl segment) refl
get-set_key segment v (entry k w m) = elim (Bool-cases (is_key segment k)) [
  | inl same ↦ rw same (rw same refl)
  | inr differs ↦ rw differs (rw differs (get-set_key segment v m))
]

is_key_other : (s t : Text) (k : Value) → s ≢ t → is_key s k ≡ true → is_key t k ≡ false
unfolding is_key
is_key_other s t (string x) h e = elim (Bool-cases (x =? t)) [
  | inl same ↦ absurd (h (sym ((text_beq_iff x s).0 e) ∙ (text_beq_iff x t).0 same))
  | inr differs ↦ differs
]
is_key_other s t null h e = absurd cc
is_key_other s t (bool b) h e = absurd cc
is_key_other s t (number n) h e = absurd cc
is_key_other s t (sequence x) h e = absurd cc
is_key_other s t (mapping x) h e = absurd cc
is_key_other s t (tagged n x) h e = absurd cc

pub get-set_key_other :
    (s t : Text) (v : Value) (m : Entries) → s ≢ t → get_key t (set_key s v m) ≡ get_key t m
unfolding get_key set_key
get-set_key_other s t v empty h = elim (Bool-cases (is_key t (string s))) [
  | inl same ↦ absurd (h (unfold is_key in (text_beq_iff s t).0 same))
  | inr differs ↦ rw differs refl
]
get-set_key_other s t v (entry k w m) h = elim (Bool-cases (is_key s k)) [
  | inl same ↦ rw (same, is_key_other s t k h same) refl
  | inr differs ↦ elim (Bool-cases (is_key t k)) [
    | inl here ↦ rw (differs, here) refl
    | inr elsewhere ↦ rw (differs, elsewhere) (get-set_key_other s t v m h)
  ]
]

pub then_at-some :
    (next : Value → Option Value) (o : Option Value) {w : Value}
    → then_at next o ≡ some w
    → (u : Value) × (o ≡ some u) × (next u ≡ some w)
then_at-some next none h = absurd cc
then_at-some next (some u) h = (u, refl, h)
