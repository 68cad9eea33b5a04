-- ===== src/Prelude/Joins.antt =====
-- A `JoinSet`: a list of the tasks in flight, of which any may end next, with the sums of weights that
-- tell what is in a list whatever its order.
use Prim.Native.Nat.{ℕ, zero, suc, ◌+◌}
use mathlib.Core.Path.{◌≡◌, refl, ap}
use mathlib.Core.List.{List, [], ◌∷◌, ◌++◌}
use native.Mathlib.Omega.{arith}
use moe_assets_updater_next.Prelude.Lists.{All, length}

module _ {ℓ} {A : Type ℓ} where
  -- One of the tasks in flight, a nonempty list, and the others.
  unfoldable pub join_next : ℕ → A → List A → A × List A
  join_next zero j joins = (j, joins)
  join_next (suc i) j [] = (j, [])
  join_next (suc i) j (k ∷ joins) = let r = join_next i k joins in (r.0, j ∷ r.1)

  abbrev pub sum_of : (A → ℕ) → List A → ℕ
  sum_of f [] = 0
  sum_of f (a ∷ as') = f a + sum_of f as'

  pub sum_of-append : (f : A → ℕ) (xs ys : List A) → sum_of f (xs ++ ys) ≡ sum_of f xs + sum_of f ys
  sum_of-append f [] ys = omega arith
  sum_of-append f (x ∷ xs) ys = omega (arith, sum_of-append f xs ys)

  pub join_next-sum :
      (f : A → ℕ) (i : ℕ) (j : A) (js : List A)
      → sum_of f (j ∷ js) ≡ f (join_next i j js).0 + sum_of f (join_next i j js).1
  unfolding join_next
  join_next-sum f zero j js = refl
  join_next-sum f (suc i) j [] = refl
  join_next-sum f (suc i) j (k ∷ js) = omega (arith, join_next-sum f i k js)

  pub join_next-length : (i : ℕ) (j : A) (js : List A) → length (join_next i j js).1 ≡ length js
  unfolding join_next
  join_next-length zero j js = refl
  join_next-length (suc i) j [] = refl
  join_next-length (suc i) j (k ∷ js) = ap suc (join_next-length i k js)

  pub join_next-All :
      (P : A → Type 0) (i : ℕ) (j : A) (js : List A)
      → All P (j ∷ js)
      → P (join_next i j js).0 × All P (join_next i j js).1
  unfolding join_next
  join_next-All P zero j js h = h
  join_next-All P (suc i) j [] h = (h.0, tt)
  join_next-All P (suc i) j (k ∷ js) h = let (p, q) = join_next-All P i k js h.1 in (p, (h.0, q))

  pub All-join_next :
      (P : A → Type 0) (i : ℕ) (j : A) (js : List A)
      → P (join_next i j js).0
      → All P (join_next i j js).1
      → All P (j ∷ js)
  unfolding join_next
  All-join_next P zero j js p h = (p, h)
  All-join_next P (suc i) j [] p h = (p, tt)
  All-join_next P (suc i) j (k ∷ js) p h = (h.0, All-join_next P i k js p h.1)
