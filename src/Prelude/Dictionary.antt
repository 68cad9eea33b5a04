-- ===== src/Prelude/Dictionary.antt =====
-- `HashMap` and `BTreeMap` as association lists: the order of the list is the order in which the
-- map is iterated. `IsMap` says that no key occurs twice.
use mathlib.Core.Path.{◌≡◌, refl}
use mathlib.Core.Option.{Option, none, some}
use mathlib.Core.List.{List, [], ◌∷◌}
use native.Mathlib.Omega.{arith}
use moe_assets_updater_next.Prelude.Tests.{if◌then◌else◌}
use moe_assets_updater_next.Prelude.Lists.{All}
use moe_assets_updater_next.Prelude.Equality.{Eq, ◌=?◌, =?_refl}

abbrev pub Map {ℓ κ} : Type ℓ → Type κ → Type (ℓ ⊔ κ)
Map K V = List (K × V)

module _ {ℓ κ} {K : Type ℓ} {V : Type κ} where
  abbrev pub keys : Map K V → List K
  keys [] = []
  keys ((k, v) ∷ m) = k ∷ keys m

module _ {ℓ κ} {K : Type ℓ} ⦃e : Eq K⦄ {V : Type κ} where
  unfoldable pub lookup : K → Map K V → Option V
  lookup k [] = none
  lookup k ((j, v) ∷ m) = if j =? k then some v else lookup k m

  unfoldable pub insert : K → V → Map K V → Map K V
  insert k v [] = (k, v) ∷ []
  insert k v ((j, w) ∷ m) = if j =? k then (k, v) ∷ m else (j, w) ∷ insert k v m

  unfoldable pub remove : K → Map K V → Map K V
  remove k [] = []
  remove k ((j, v) ∷ m) = if j =? k then remove k m else (j, v) ∷ remove k m

  abbrev pub IsMap : Map K V → Type κ
  IsMap [] = Unit {κ}
  IsMap ((k, v) ∷ m) = (lookup k m ≡ none) × IsMap m

  pub lookup-insert :
      (k j : K) (v : V) (m : Map K V)
      → lookup j (insert k v m) ≡ (if k =? j then some v else lookup j m)
  unfolding lookup insert
  lookup-insert k j v [] = refl
  lookup-insert k j v ((i, w) ∷ m) =
      ground (arith, e.beq_iff k j, e.beq_iff i k, e.beq_iff i j, lookup-insert k j v m)

  pub lookup-remove :
      (k j : K) (m : Map K V) → lookup j (remove k m) ≡ (if k =? j then none else lookup j m)
  unfolding lookup remove
  lookup-remove k j [] = ground arith
  lookup-remove k j ((i, w) ∷ m) =
      ground (arith, e.beq_iff k j, e.beq_iff i k, e.beq_iff i j, lookup-remove k j m)

  pub insert-IsMap : (k : K) (v : V) (m : Map K V) → IsMap m → IsMap (insert k v m)
  unfolding lookup insert
  insert-IsMap k v [] h = (refl, tt)
  insert-IsMap k v ((i, w) ∷ m) h =
      ground (arith, e.beq_iff i k, e.beq_iff k i, lookup-insert k i v m, insert-IsMap k v m h.1)

  -- Removing a key twice is removing it once, and an absent key is no change.
  pub remove_absent : (k : K) (m : Map K V) → lookup k m ≡ none → remove k m ≡ m
  unfolding lookup remove
  remove_absent k [] h = refl
  remove_absent k ((i, w) ∷ m) h = ground (arith, e.beq_iff i k, remove_absent k m)

  pub remove-IsMap : (k : K) (m : Map K V) → IsMap m → IsMap (remove k m)
  unfolding lookup remove
  remove-IsMap k [] h = tt
  remove-IsMap k ((i, w) ∷ m) h =
      ground (arith, e.beq_iff i k, e.beq_iff k i, lookup-remove k i m, remove-IsMap k m h.1)

  lookup-later :
      (k : K) (v : V) (m more : Map K V)
      → lookup k m ≡ none
      → All (λ b. lookup b.0 m ≡ some b.1) more
      → All (λ b. lookup b.0 ((k, v) ∷ m) ≡ some b.1) more
  unfolding lookup
  lookup-later k v m [] h p = tt
  lookup-later k v m ((j, w) ∷ more) h p =
      (ground (arith, e.beq_iff k j, h, p.0), lookup-later k v m more h p.1)

  -- A map without repeated keys finds each of its entries.
  pub IsMap-lookup : (m : Map K V) → IsMap m → All (λ b. lookup b.0 m ≡ some b.1) m
  unfolding lookup
  IsMap-lookup [] h = tt
  IsMap-lookup ((k, v) ∷ m) h = (rw (=?_refl k) refl, lookup-later k v m m h.0 (IsMap-lookup m h.1))
