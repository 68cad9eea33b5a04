-- ===== src/Execution/Obfuscation.antt =====
-- `deobfuscate` of src/core/asset_execution.rs: what a downloaded bundle is once its header is taken off.
pub mod Inverse
use Prim.Native.Nat.{bit_xor}
use moe_assets_updater_next.Prelude.{
  ℕ, zero, suc, ◌%◌, Bool, true, false, ◌&&◌, Option, none, some, List, [], ◌∷◌, length, drop, ltb,
  ◌==◌, if◌then◌else◌, get_elem?,
}

abbrev pub simple_header : List ℕ
simple_header = 0x20 ∷ 0 ∷ 0 ∷ 0 ∷ []

abbrev pub xor_header : List ℕ
xor_header = 0x10 ∷ 0 ∷ 0 ∷ 0 ∷ []

-- `data.starts_with(..)`.
unfoldable pub begins_with : List ℕ → List ℕ → Bool
begins_with bytes [] = true
begins_with [] (h ∷ header) = false
begins_with (b ∷ bytes) (h ∷ header) = (b == h) && begins_with bytes header

abbrev pub pattern' : List ℕ
pattern' = 0xff ∷ 0xff ∷ 0xff ∷ 0xff ∷ 0xff ∷ 0 ∷ 0 ∷ 0 ∷ []

abbrev pub or_zero : Option ℕ → ℕ
or_zero none = 0
or_zero (some b) = b

-- The loop over `idx`: so many bytes are left, the next is number `idx`.
unfoldable pub xor_loop : ℕ → ℕ → List ℕ → List ℕ
xor_loop zero idx bytes = bytes
xor_loop (suc n) idx [] = []
xor_loop (suc n) idx (b ∷ bytes) =
    bit_xor b (or_zero (get_elem? pattern' (idx % 8))) ∷ xor_loop n (suc idx) bytes

unfoldable pub deobfuscate : List ℕ → List ℕ
unfolding begins_with xor_loop
deobfuscate bytes =
    if begins_with bytes simple_header
    then drop 4 bytes
    else if begins_with bytes xor_header
    then if ltb (length bytes) 132 then drop 4 bytes else xor_loop 128 0 (drop 4 bytes)
    else bytes
