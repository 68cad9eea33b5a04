-- ===== src/Payload/Slice.antt =====
-- Slices of a payload, and the state of a cursor that moves over one.
use native.Mathlib.Nat.{suc-add}
use moe_assets_updater_next.Prelude.{
  ℕ, zero, suc, ◌+◌, ◌-◌, ◌≡◌, refl, ap, Bool, false, List, [], ◌∷◌, ◌++◌, arith, length, take,
  drop, length-append, take-append, drop-append, ltb, text_beq, length-take, length-drop, ◌≤◌,
}

-- `&payload[a..a + n]`, where the bounds have been checked.
abbrev pub slice : List ℕ → ℕ → ℕ → List ℕ
slice payload a n = take n (drop a payload)

abbrev pub starts_with : List ℕ → List ℕ → Bool
starts_with payload magic = text_beq (take (length magic) payload) magic

pub drop-drop : (a b : ℕ) (xs : List ℕ) → drop (a + b) xs ≡ drop b (drop a xs)
drop-drop zero b xs = ap (λ n. drop n xs) (omega arith)
drop-drop (suc a) b [] = rw suc-add (drop_nil b)
  where
    drop_nil : (n : ℕ) → [] ≡ drop {A = ℕ} n []
    drop_nil zero = refl
    drop_nil (suc n) = refl
drop-drop (suc a) b (x ∷ xs) = rw suc-add (drop-drop a b xs)

-- At the cursor the payload goes on with `tail`.
pub record At (payload : List ℕ) (cursor : ℕ) (tail : List ℕ) : Type 0 where
  pub ahead : drop cursor payload ≡ tail
  pub room : cursor + length tail ≡ length payload

pub At-slice :
    {payload : List ℕ} {cursor : ℕ} (n : ℕ) (xs tail : List ℕ)
    → length xs ≡ n
    → At payload cursor (xs ++ tail)
    → slice payload cursor n ≡ xs
At-slice n xs tail hn h = rw (h.ahead, ← hn) (take-append xs tail)

pub At-advance :
    {payload : List ℕ} {cursor : ℕ} (n : ℕ) (xs tail : List ℕ)
    → length xs ≡ n
    → At payload cursor (xs ++ tail)
    → At payload (cursor + n) tail
At-advance {payload} {cursor} n xs tail hn h = record {
  ahead = rw (drop-drop cursor n payload, h.ahead, ← hn) (drop-append xs tail);
  room = omega (arith, h.room, hn, length-append xs tail);
}

pub At-room :
    {payload : List ℕ} {cursor : ℕ} (n : ℕ) (xs tail : List ℕ)
    → length xs ≡ n
    → At payload cursor (xs ++ tail)
    → ltb (length payload - cursor) n ≡ false
At-room n xs tail hn h = ground (arith, h.room, length-append xs tail)

take-take : (m k : ℕ) (xs : List ℕ) → m ≤ k → take m (take k xs) ≡ take m xs
take-take zero k xs h = refl
take-take (suc m) zero xs h = absurd (omega arith)
take-take (suc m) (suc k) [] h = refl
take-take (suc m) (suc k) (x ∷ xs) h = ap (λ t. x ∷ t) (take-take m k xs (omega arith))

drop-take : (a n : ℕ) (xs : List ℕ) → drop a (take (a + n) xs) ≡ take n (drop a xs)
drop-take zero n xs = ap (λ k. take k xs) (omega arith)
drop-take (suc a) n [] = rw suc-add (take_nil n)
  where
    take_nil : (n : ℕ) → [] ≡ take {A = ℕ} n []
    take_nil zero = refl
    take_nil (suc n) = refl
drop-take (suc a) n (x ∷ xs) = rw suc-add (drop-take a n xs)

take-add : (a b : ℕ) (xs : List ℕ) → take (a + b) xs ≡ take a xs ++ take b (drop a xs)
take-add zero b xs = ap (λ k. take k xs) (omega arith)
take-add (suc a) b [] = rw suc-add (take_nil b)
  where
    take_nil : (n : ℕ) → [] ≡ take {A = ℕ} n []
    take_nil zero = refl
    take_nil (suc n) = refl
take-add (suc a) b (x ∷ xs) = rw suc-add (ap (λ t. x ∷ t) (take-add a b xs))

-- A slice of a slice, two neighbouring slices, and the length of a slice that fits.
pub slice-slice :
    (xs : List ℕ) (o m a n : ℕ) → a + n ≤ m → slice (slice xs o m) a n ≡ slice xs (o + a) n
slice-slice xs o m a n h =
    let split : m ≡ a + (m - a) = omega arith in
    rw (split, drop-take a (m - a) (drop o xs), drop-drop o a xs)
      (take-take n (m - a) (drop a (drop o xs)) (omega arith))

pub slice-add : (xs : List ℕ) (o a b : ℕ) → slice xs o (a + b) ≡ slice xs o a ++ slice xs (o + a) b
slice-add xs o a b = rw (drop-drop o a xs) (take-add a b (drop o xs))

pub length-slice : (xs : List ℕ) (o n : ℕ) → o + n ≤ length xs → length (slice xs o n) ≡ n
length-slice xs o n h = length-take n (drop o xs) (omega (arith, length-drop o xs))
