-- ===== src/Prelude/Bytes.antt =====
-- Fixed-width integers as bytes, in both orders: `to_le_bytes`, `from_le_bytes`, `to_be_bytes`,
-- `from_be_bytes` of the source's integer types, for `k` bytes.
use mathlib.Core.List.{reverse, reverse_aux, reverse-reverse}
use native.Mathlib.Nat.{pow-suc}
use moe_assets_updater_next.Prelude.Lists.{length, All, All-append}
use Prim.Native.Nat.{ℕ, zero, suc, ◌+◌, ◌*◌, ◌/◌, ◌%◌, ◌^◌, ◌<◌}
use mathlib.Core.Path.{◌≡◌, refl, ap, ◌∙◌}
use mathlib.Core.List.{List, [], ◌∷◌, ◌++◌}
use native.Mathlib.Omega.{arith}

abbrev pub IsByte : ℕ → Type 0
IsByte b = b < 256

abbrev pub IsBytes : List ℕ → Type 0
IsBytes = All IsByte

unfoldable pub le_bytes : ℕ → ℕ → List ℕ
le_bytes zero v = []
le_bytes (suc k) v = (v % 256) ∷ le_bytes k (v / 256)

unfoldable pub from_le : List ℕ → ℕ
from_le [] = 0
from_le (b ∷ bs) = b + 256 * from_le bs

unfoldable pub be_bytes : ℕ → ℕ → List ℕ
unfolding le_bytes
be_bytes k v = reverse (le_bytes k v)

unfoldable pub from_be : List ℕ → ℕ
unfolding from_le
from_be bs = from_le (reverse bs)

pub length-le_bytes : (k v : ℕ) → length (le_bytes k v) ≡ k
unfolding le_bytes
length-le_bytes zero v = refl
length-le_bytes (suc k) v = ap suc (length-le_bytes k (v / 256))

pub le_bytes-IsBytes : (k v : ℕ) → IsBytes (le_bytes k v)
unfolding le_bytes
le_bytes-IsBytes zero v = tt
le_bytes-IsBytes (suc k) v = (omega arith, le_bytes-IsBytes k (v / 256))

pub from_le-le_bytes : (k v : ℕ) → v < 256 ^ k → from_le (le_bytes k v) ≡ v
unfolding le_bytes from_le
from_le-le_bytes zero v h = omega arith
from_le-le_bytes (suc k) v h =
    let small : v / 256 < 256 ^ k = omega (arith, pow-suc 256 k) in
    omega (arith, from_le-le_bytes k (v / 256) small)

pub from_le-lt : (bs : List ℕ) → IsBytes bs → from_le bs < 256 ^ length bs
unfolding from_le
from_le-lt [] h = omega arith
from_le-lt (b ∷ bs) h = omega (arith, from_le-lt bs h.1, pow-suc 256 (length bs))

-- Reading and writing again gives the same bytes.
pub le_bytes-from_le : (bs : List ℕ) → IsBytes bs → le_bytes (length bs) (from_le bs) ≡ bs
unfolding le_bytes from_le
le_bytes-from_le [] h = refl
le_bytes-from_le (b ∷ bs) h =
    let lo : (b + 256 * from_le bs) % 256 ≡ b = omega arith in
    let hi : (b + 256 * from_le bs) / 256 ≡ from_le bs = omega arith in
    rw (lo, hi, le_bytes-from_le bs h.1)

length-reverse_aux {ℓ} :
    {A : Type ℓ} (xs ys : List A) → length (reverse_aux xs ys) ≡ length xs + length ys
length-reverse_aux [] ys = omega arith
length-reverse_aux (x ∷ xs) ys = omega (arith, length-reverse_aux xs (x ∷ ys))

length-reverse {ℓ} : {A : Type ℓ} (xs : List A) → length (reverse xs) ≡ length xs
length-reverse xs = omega (arith, length-reverse_aux xs [])

IsBytes-reverse_aux : (xs ys : List ℕ) → IsBytes xs → IsBytes ys → IsBytes (reverse_aux xs ys)
IsBytes-reverse_aux [] ys hx hy = hy
IsBytes-reverse_aux (x ∷ xs) ys hx hy = IsBytes-reverse_aux xs (x ∷ ys) hx.1 (hx.0, hy)

pub IsBytes-append : (xs ys : List ℕ) → IsBytes xs → IsBytes ys → IsBytes (xs ++ ys)
IsBytes-append xs ys hx hy = All-append IsByte xs ys hx hy

pub length-be_bytes : (k v : ℕ) → length (be_bytes k v) ≡ k
unfolding be_bytes
length-be_bytes k v = length-reverse (le_bytes k v) ∙ length-le_bytes k v

pub be_bytes-IsBytes : (k v : ℕ) → IsBytes (be_bytes k v)
unfolding be_bytes
be_bytes-IsBytes k v = IsBytes-reverse_aux (le_bytes k v) [] (le_bytes-IsBytes k v) tt

pub from_be-be_bytes : (k v : ℕ) → v < 256 ^ k → from_be (be_bytes k v) ≡ v
from_be-be_bytes k v h =
    unfold be_bytes from_be in rw (reverse-reverse (le_bytes k v)) (from_le-le_bytes k v h)

pub from_be-lt : (bs : List ℕ) → IsBytes bs → from_be bs < 256 ^ length bs
unfolding from_be
from_be-lt bs h =
    rw (length-reverse bs) at (from_le-lt (reverse bs) (IsBytes-reverse_aux bs [] h tt))

pub be_bytes-from_be : (bs : List ℕ) → IsBytes bs → be_bytes (length bs) (from_be bs) ≡ bs
be_bytes-from_be bs h =
    unfold be_bytes from_be in
    rw (← length-reverse bs, le_bytes-from_le (reverse bs) (IsBytes-reverse_aux bs [] h tt))
      (reverse-reverse bs)
