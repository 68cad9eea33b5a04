-- ===== src/Execution/Obfuscation/Inverse.antt =====
-- The headers of a bundle are taken off as they are put on.
use Prim.Native.Nat.{bit_xor}
use moe_assets_updater_next.Prelude.{
  ℕ, zero, suc, ◌<◌, ◌≡◌, Bool, true, false, List, ◌++◌, length, ltb, ◌==◌, if◌then◌else◌,
}
use moe_assets_updater_next.Execution.Obfuscation.{simple_header, xor_header, begins_with, xor_loop}

-- The mask `k` is undone by itself at every number below the given one.
undone_to : ℕ → ℕ → Bool
undone_to k zero = true
undone_to k (suc top) =
    let lower = undone_to k top in if bit_xor (bit_xor top k) k == top then lower else false

-- A mask that is undone by itself.
abbrev Twice : ℕ → Type 0
Twice k = (x : ℕ) → x < 256 → bit_xor (bit_xor x k) k ≡ x

-- How a bundle is sent: as it is, behind a header, or with its first 128 bytes masked, if it has so many.
pub data Form : Type 0 where
  plain simple xored : Form

pub obfuscate : Form → List ℕ → List ℕ
obfuscate plain bytes = bytes
obfuscate simple bytes = simple_header ++ bytes
obfuscate xored bytes =
    xor_header ++ (if ltb (length bytes) 128 then bytes else xor_loop 128 0 bytes)

-- A bundle that is sent as it is has neither header.
abbrev pub Unambiguous : Form → List ℕ → Type 0
Unambiguous plain bytes =
    (begins_with bytes simple_header ≡ false) × (begins_with bytes xor_header ≡ false)
Unambiguous simple bytes = Unit {0}
Unambiguous xored bytes = Unit {0}
