-- ===== src/Prelude/Sets.antt =====
-- `HashSet` as a list without an order that matters: membership, insertion, `extend`.
use mathlib.Core.Path.{◌≡◌, refl}
use mathlib.Core.Bool.{Bool, true, false, ◌||◌}
use mathlib.Core.List.{List, [], ◌∷◌, ◌++◌}
use native.Mathlib.Omega.{arith}
use moe_assets_updater_next.Prelude.Tests.{if◌then◌else◌}
use moe_assets_updater_next.Prelude.Equality.{Eq, ◌=?◌}

module _ {ℓ} {A : Type ℓ} ⦃e : Eq A⦄ where
  unfoldable pub contains : List A → A → Bool
  contains [] a = false
  contains (b ∷ bs) a = if b =? a then true else contains bs a

  -- A set keeps one copy of each member.
  unfoldable pub add : A → List A → List A
  unfolding contains
  add a s = if contains s a then s else a ∷ s

  unfoldable pub extend : List A → List A → List A
  unfolding add
  extend s [] = s
  extend s (a ∷ more) = extend (add a s) more

  pub contains-add : (a b : A) (s : List A) → contains (add a s) b ≡ ((a =? b) || contains s b)
  unfolding add contains
  contains-add a b s = ground (arith, e.beq_iff a b)

  pub contains-extend :
      (b : A) (s more : List A) → contains (extend s more) b ≡ (contains s b || contains more b)
  unfolding extend contains
  contains-extend b s [] = ground arith
  contains-extend b s (a ∷ more) =
      ground (arith, contains-extend b (add a s) more, contains-add a b s)

  pub contains-append :
      (b : A) (s more : List A) → contains (s ++ more) b ≡ (contains s b || contains more b)
  unfolding contains
  contains-append b [] more = refl
  contains-append b (a ∷ s) more = ground (arith, contains-append b s more)
