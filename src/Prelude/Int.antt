-- ===== src/Prelude/Int.antt =====
-- `i64` as an integer, and its `to_string`.
use native.Mathlib.Nat.{pow-suc}
use Prim.Native.Nat.{ℕ, zero, suc, ◌+◌, ◌-◌, ◌*◌, ◌/◌, ◌%◌, ◌^◌, ◌≤◌, ◌<◌}
use mathlib.Core.Path.{◌≡◌, refl, ap, sym, ◌∙◌}
use mathlib.Core.Logic.{◌≢◌, ◌↔◌}
use mathlib.Core.Bool.{Bool, true, false}
use mathlib.Core.List.{List, [], ◌∷◌, ◌++◌}
use native.Mathlib.Omega.{arith}
use moe_assets_updater_next.Prelude.Tests.{ltb, ◌==◌, if◌then◌else◌, Bool-cases}
use moe_assets_updater_next.Prelude.Lists.{All, All-append}
use mathlib.Core.Logic.{inl, inr}

-- `negsuc n` is -(n + 1).
pub data ℤ : Type 0 where
  pos : ℕ → ℤ
  negsuc : ℕ → ℤ

-- The range of `i64`.
abbrev pub IsI64 : ℤ → Type 0
IsI64 (pos n) = n < 2 ^ 63
IsI64 (negsuc n) = n < 2 ^ 63

-- `value.max(0) as u64`.
abbrev pub pos_part : ℤ → ℕ
pos_part (pos n) = n
pos_part (negsuc n) = 0

-- The digits of a number below 10 ^ fuel, most significant first.
decimal : ℕ → ℕ → List ℕ
decimal zero n = []
decimal (suc fuel) n =
    let front = decimal fuel (n / 10) in
    if ltb n 10 then (48 + n) ∷ [] else front ++ (48 + n % 10) ∷ []

-- Twenty digits are enough for 2 ^ 64.
unfoldable pub to_string : ℤ → List ℕ
unfolding decimal
to_string (pos n) = decimal 20 n
to_string (negsuc n) = 45 ∷ decimal 20 (n + 1)

value : ℕ → List ℕ → ℕ
value acc [] = acc
value acc (d ∷ ds) = value (acc * 10 + (d - 48)) ds

value-snoc :
    (acc : ℕ) (ds : List ℕ) (d : ℕ) → value acc (ds ++ d ∷ []) ≡ value acc ds * 10 + (d - 48)
unfolding value
value-snoc acc [] d = refl
value-snoc acc (x ∷ ds) d = value-snoc (acc * 10 + (x - 48)) ds d

value-decimal : (fuel n : ℕ) → n < 10 ^ fuel → value 0 (decimal fuel n) ≡ n
unfolding decimal
value-decimal zero n h = unfold value in omega arith
value-decimal (suc fuel) n h = elim (Bool-cases (ltb n 10)) [
  | inl small ↦ rw small (unfold value in omega arith)
  | inr large ↦
      let less : n / 10 < 10 ^ fuel = omega (arith, pow-suc 10 fuel) in
      rw
        (
          large,
          value-snoc 0 (decimal fuel (n / 10)) (48 + n % 10),
          value-decimal fuel (n / 10) less,
        )
        (omega arith)
]

decimal-digits : (fuel n : ℕ) → All (λ d. 48 ≤ d) (decimal fuel n)
unfolding decimal
decimal-digits zero n = tt
decimal-digits (suc fuel) n = elim (Bool-cases (ltb n 10)) [
  | inl small ↦ rw small (omega arith, tt)
  | inr large ↦ rw large (
      All-append (λ d. 48 ≤ d) (decimal fuel (n / 10)) _ (decimal-digits fuel (n / 10))
        (omega arith, tt))
]

decimal-injective : (m n : ℕ) → m < 10 ^ 20 → n < 10 ^ 20 → decimal 20 m ≡ decimal 20 n → m ≡ n
decimal-injective m n hm hn e = sym (value-decimal 20 m hm) ∙ ap (value 0) e ∙ value-decimal 20 n hn

decimal-ne-minus : (fuel n : ℕ) (ds : List ℕ) → decimal fuel n ≢ 45 ∷ ds
decimal-ne-minus fuel n ds e = absurd (omega (arith, front))
  where
    front : All (λ d. 48 ≤ d) (45 ∷ ds)
    front = rw e at (decimal-digits fuel n)

tail_eq : (d : ℕ) (xs ys : List ℕ) → d ∷ xs ≡ d ∷ ys → xs ≡ ys
tail_eq d xs ys e = cc

-- Two integers of 64 bits that print alike are equal.
pub to_string-injective : (a b : ℤ) → IsI64 a → IsI64 b → to_string a ≡ to_string b → a ≡ b
unfolding to_string
to_string-injective (pos m) (pos n) hm hn e =
    ap pos (decimal-injective m n (omega arith) (omega arith) e)
to_string-injective (pos m) (negsuc n) hm hn e =
    absurd (decimal-ne-minus 20 m (decimal 20 (n + 1)) e)
to_string-injective (negsuc m) (pos n) hm hn e =
    absurd (decimal-ne-minus 20 n (decimal 20 (m + 1)) (sym e))
to_string-injective (negsuc m) (negsuc n) hm hn e =
    let same : m + 1 ≡ n + 1 =
      decimal-injective (m + 1) (n + 1) (omega arith) (omega arith) (tail_eq 45 _ _ e) in
    ap negsuc (omega arith)

abbrev pub int_beq : ℤ → ℤ → Bool
int_beq (pos m) (pos n) = m == n
int_beq (pos m) (negsuc n) = false
int_beq (negsuc m) (pos n) = false
int_beq (negsuc m) (negsuc n) = m == n

pub int_beq_iff : (a b : ℤ) → (int_beq a b ≡ true) ↔ (a ≡ b)
int_beq_iff (pos m) (pos n) = ground arith
int_beq_iff (pos m) (negsuc n) = ground arith
int_beq_iff (negsuc m) (pos n) = ground arith
int_beq_iff (negsuc m) (negsuc n) = ground arith
