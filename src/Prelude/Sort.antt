-- ===== src/Prelude/Sort.antt =====
-- Lists in which every element is related to all that follow, and the stable sort of a list.
use Prim.Native.Nat.{ℕ, zero, suc}
use mathlib.Core.Path.{◌≡◌, refl, subst}
use mathlib.Core.Logic.{inl, inr}
use mathlib.Core.Option.{Option, none, some}
use mathlib.Core.Bool.{Bool, true, false}
use mathlib.Core.List.{List, [], ◌∷◌}
use moe_assets_updater_next.Prelude.Tests.{if◌then◌else◌, Bool-cases}
use moe_assets_updater_next.Prelude.Lists.{All}

module _ {ℓ} {A : Type ℓ} where
  abbrev pub get_elem? : List A → ℕ → Option A
  get_elem? [] i = none
  get_elem? (x ∷ xs) zero = some x
  get_elem? (x ∷ xs) (suc i) = get_elem? xs i

  abbrev pub In : A → List A → Type ℓ
  In a xs = (i : ℕ) × (get_elem? xs i ≡ some a)

  abbrev pub Ascending : (A → A → Type 0) → List A → Type 0
  Ascending R [] = Unit {0}
  Ascending R (x ∷ xs) = All (R x) xs × Ascending R xs

  pub All-imp : (P Q : A → Type 0) → ((a : A) → P a → Q a) → (xs : List A) → All P xs → All Q xs
  All-imp P Q f [] h = tt
  All-imp P Q f (x ∷ xs) h = (f x h.0, All-imp P Q f xs h.1)

  pub In-cons : {a : A} (x : A) (xs : List A) → In a xs → In a (x ∷ xs)
  In-cons x xs (i, e) = (suc i, e)

  pub All-In : (P : A → Type 0) (xs : List A) {a : A} → All P xs → In a xs → P a
  All-In P [] h (i, e) = absurd cc
  All-In P (x ∷ xs) {a} h (zero, e) = let same : x ≡ a = cc in subst P (same) h.0
  All-In P (x ∷ xs) h (suc i, e) = All-In P xs h.1 (i, e)

module _ {A : Type 0} where
  pub All-In_self : (xs : List A) → All (λ x. In x xs) xs
  All-In_self [] = tt
  All-In_self (x ∷ xs) = (
    (0, refl),
    All-imp (λ y. In y xs) (λ y. In y (x ∷ xs)) (λ y. In-cons x xs) xs (All-In_self xs),
  )

-- `sort_by`: the elements that compare as equal keep their order.
module _ {ℓ} {A : Type ℓ} (leb : A → A → Bool) where
  unfoldable pub ordered_insert : A → List A → List A
  ordered_insert x [] = x ∷ []
  ordered_insert x (y ∷ ys) =
      let rest = ordered_insert x ys in if leb x y then x ∷ y ∷ ys else y ∷ rest

  unfoldable pub sort_by : List A → List A
  unfolding ordered_insert
  sort_by [] = []
  sort_by (x ∷ xs) = ordered_insert x (sort_by xs)

  ordered_insert-All :
      (P : A → Type 0) (x : A) (ys : List A) → P x → All P ys → All P (ordered_insert x ys)
  unfolding ordered_insert
  ordered_insert-All P x [] p h = (p, tt)
  ordered_insert-All P x (y ∷ ys) p h = elim (Bool-cases (leb x y)) [
    | inl first ↦ rw first (p, h)
    | inr later ↦ rw later (h.0, ordered_insert-All P x ys p h.1)
  ]

  pub sort_by-All : (P : A → Type 0) (xs : List A) → All P xs → All P (sort_by xs)
  unfolding sort_by
  sort_by-All P [] h = tt
  sort_by-All P (x ∷ xs) h = ordered_insert-All P x (sort_by xs) h.0 (sort_by-All P xs h.1)

  In-ordered_insert_self : (x : A) (ys : List A) → In x (ordered_insert x ys)
  unfolding ordered_insert
  In-ordered_insert_self x [] = (0, refl)
  In-ordered_insert_self x (y ∷ ys) = elim (Bool-cases (leb x y)) [
    | inl first ↦ rw first (0, refl)
    | inr later ↦ rw later (In-cons y (ordered_insert x ys) (In-ordered_insert_self x ys))
  ]

  In-ordered_insert : {a : A} (x : A) (ys : List A) → In a ys → In a (ordered_insert x ys)
  unfolding ordered_insert
  In-ordered_insert x [] (i, e) = absurd cc
  In-ordered_insert {a} x (y ∷ ys) (zero, e) = elim (Bool-cases (leb x y)) [
    | inl first ↦ rw first (1, e)
    | inr later ↦ rw later (0, e)
  ]
  In-ordered_insert {a} x (y ∷ ys) (suc i, e) = elim (Bool-cases (leb x y)) [
    | inl first ↦ rw first (suc (suc i), e)
    | inr later ↦ rw later (In-cons y (ordered_insert x ys) (In-ordered_insert x ys (i, e)))
  ]

  pub In-sort_by : {a : A} (xs : List A) → In a xs → In a (sort_by xs)
  unfolding sort_by
  In-sort_by [] (i, e) = absurd cc
  In-sort_by {a} (x ∷ xs) (zero, e) =
      let same : x ≡ a = cc in
      subst (λ b. In b (ordered_insert x (sort_by xs))) same (In-ordered_insert_self x (sort_by xs))
  In-sort_by (x ∷ xs) (suc i, e) = In-ordered_insert x (sort_by xs) (In-sort_by xs (i, e))

  -- The comparison of two elements tells how they are related.
  abbrev pub Decides : (A → A → Type 0) → A → A → Type 0
  Decides R x y = (leb x y ≡ true → R x y) × (leb x y ≡ false → R y x)

  module _ (R : A → A → Type 0) (trans : (a b c : A) → R a b → R b c → R a c) where
    ordered_insert-Ascending :
        (x : A) (ys : List A)
        → All (Decides R x) ys
        → Ascending R ys
        → Ascending R (ordered_insert x ys)
    unfolding ordered_insert
    ordered_insert-Ascending x [] d h = (tt, tt)
    ordered_insert-Ascending x (y ∷ ys) d h = elim (Bool-cases (leb x y)) [
      | inl first ↦
          let below = d.0.0 first in
          rw first ((below, All-imp (R y) (R x) (λ z r. trans x y z below r) ys h.0), h)
      | inr later ↦
          rw later
            (ordered_insert-All (R y) x ys (d.0.1 later) h.0, ordered_insert-Ascending x ys d.1 h.1)
    ]

    pub sort_by-Ascending : (xs : List A) → Ascending (Decides R) xs → Ascending R (sort_by xs)
    unfolding sort_by
    sort_by-Ascending [] d = tt
    sort_by-Ascending (x ∷ xs) d =
        ordered_insert-Ascending x (sort_by xs) (sort_by-All (Decides R x) xs d.0)
          (sort_by-Ascending xs d.1)
