-- ===== src/Payload/Bundle/RoundTrip.antt =====
-- The parser reads back what the writer wrote.
use moe_assets_updater_next.Prelude.{ℕ, ◌^◌, ◌<◌, ◌≡◌, true, List, [], ◌∷◌, ◌++◌, length, le_bytes}
use moe_assets_updater_next.Payload.Utf8.{is_utf8}
use moe_assets_updater_next.Payload.Bundle.{Entry, v2_magic, v2_version, v2_header_len}

-- An entry that the format can hold: a name in UTF-8, and lengths of four and eight bytes.
abbrev pub IsEntry : Entry → Type 0
IsEntry (name, bytes) = (is_utf8 name ≡ true) × (length name < 2 ^ 32) × (length bytes < 2 ^ 64)

-- The entries as the loops read them.
abbrev pub encoded : List Entry → List ℕ → List ℕ
encoded [] tail = tail
encoded ((name, bytes) ∷ entries) tail =
    le_bytes 4 (length name)
    ++ (le_bytes 8 (length bytes) ++ (name ++ (bytes ++ encoded entries tail)))

-- The header that the writer puts before the entries.
abbrev header : ℕ → ℕ → List ℕ → List ℕ
header count total tail =
    le_bytes 4 v2_magic
    ++ (le_bytes 2 v2_version
        ++ (le_bytes 2 v2_header_len ++ (le_bytes 4 count ++ (le_bytes 8 total ++ tail))))
