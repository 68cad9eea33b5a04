-- ===== src/Payload/Bundle.antt =====
-- Payload bundles: the writer of crates/assetstudio-ffi/src/native.rs and the parsers of
-- src/core/export_pipeline/implementation/payload.rs. `usize` has 64 bits.
pub mod RoundTrip
mod Examples
use moe_assets_updater_next.Prelude.{
  ℕ, zero, suc, ◌+◌, ◌-◌, ◌*◌, ◌%◌, ◌^◌, Bool, true, false, not, ◌&&◌, ◌||◌, Option, none, some,
  List, [], ◌∷◌, ◌++◌, ltb, leb, ◌==◌, if◌then◌else◌, length, take, drop, le_bytes, from_le,
  text_beq, codes, min,
}
use moe_assets_updater_next.Payload.Utf8.{is_utf8}
use moe_assets_updater_next.Payload.Slice.{slice, starts_with}

-- The messages of `ExportPipelineError::AssetStudioFfi` here.
pub data BundleError : Type 0 where
  unsupported_version : ℕ → BundleError
  invalid_header_length : ℕ → BundleError
  both_failed : BundleError → BundleError → BundleError
  invalid_magic entry_too_large truncated_name name_not_utf8 truncated_data : BundleError
  trailing_bytes : ℕ → BundleError
  byte_count_mismatch : ℕ → ℕ → BundleError
  truncated_u16 truncated_u32 truncated_u64 : BundleError
  bundle_too_large name_too_large : BundleError

pub data Result {ℓ} (A : Type ℓ) : Type ℓ where
  ok : A → Result A
  err : BundleError → Result A

infixl 5 ◌>>=◌ ◌>>◌
abbrev pub ◌>>=◌ {ℓ κ} :
    {Value : Type ℓ} {Next : Type κ} → Result Value → (Value → Result Next) → Result Next
err e >>= next = err e
ok value >>= next = next value

abbrev pub ◌>>◌ {ℓ} : {Next : Type ℓ} → Result (Unit {0}) → Result Next → Result Next
first >> next = first >>= λ done. next

-- `NATIVE_AOT_PAYLOAD_BUNDLE_V2_*` and the older magic.
abbrev pub v2_magic : ℕ
v2_magic = 0x42504148

abbrev pub v2_version : ℕ
v2_version = 2

abbrev pub v2_header_len : ℕ
v2_header_len = 20

abbrev pub usize_max : ℕ
usize_max = 2 ^ 64 - 1

-- A name and its bytes.
abbrev pub Entry : Type 0
Entry = List ℕ × List ℕ

-- Each reader returns the value and the new cursor.
unfoldable pub read_bundle_u16 : List ℕ → ℕ → Result (ℕ × ℕ)
read_bundle_u16 payload cursor =
    if ltb (length payload - cursor) 2
    then err truncated_u16
    else ok (from_le (slice payload cursor 2), cursor + 2)

unfoldable pub read_bundle_u32 : List ℕ → ℕ → Result (ℕ × ℕ)
read_bundle_u32 payload cursor =
    if ltb (length payload - cursor) 4
    then err truncated_u32
    else ok (from_le (slice payload cursor 4), cursor + 4)

unfoldable pub read_bundle_u64 : List ℕ → ℕ → Result (ℕ × ℕ)
read_bundle_u64 payload cursor =
    if ltb (length payload - cursor) 8
    then err truncated_u64
    else ok (from_le (slice payload cursor 8), cursor + 8)

-- The name that both loops cut out.
unfoldable pub read_name : List ℕ → ℕ → ℕ → Result (List ℕ × ℕ)
read_name payload cursor name_len =
    if ltb (length payload - cursor) name_len
    then err truncated_name
    else if is_utf8 (slice payload cursor name_len)
    then ok (slice payload cursor name_len, cursor + name_len)
    else err name_not_utf8

-- The data that both loops cut out; `usize::try_from(data_len)` comes first.
unfoldable pub read_data : List ℕ → ℕ → ℕ → Result (List ℕ × ℕ)
read_data payload cursor data_len =
    if ltb (length payload - cursor) data_len
    then err truncated_data
    else ok (slice payload cursor data_len, cursor + data_len)

abbrev pub as_usize : ℕ → Result (Unit {0})
as_usize n = if ltb usize_max n then err entry_too_large else ok tt

abbrev pub saturating_add : ℕ → ℕ → ℕ
saturating_add a b = min (a + b) (2 ^ 64 - 1)

unfoldable pub finish_payload_bundle_parse : List ℕ → ℕ → ℕ → Option ℕ → Result (Unit {0})
finish_payload_bundle_parse payload cursor observed none =
    if cursor == length payload then ok tt else err (trailing_bytes (length payload - cursor))
finish_payload_bundle_parse payload cursor observed (some expected) =
    if cursor == length payload
    then if observed == expected then ok tt else err (byte_count_mismatch expected observed)
    else err (trailing_bytes (length payload - cursor))

-- The loop of `parse_payload_bundle_interleaved_entries`: the entries, the cursor, and the count of
-- data bytes.
unfoldable pub interleaved_loop : List ℕ → ℕ → ℕ → List Entry → ℕ → Result (List Entry × ℕ × ℕ)
interleaved_loop payload zero cursor entries observed = ok (entries, cursor, observed)
interleaved_loop payload (suc count) cursor entries observed = do
  (name_len, c₁) ← read_bundle_u32 payload cursor
  (data_len, c₂) ← read_bundle_u64 payload c₁
  as_usize data_len
  (name, c₃) ← read_name payload c₂ name_len
  (bytes, c₄) ← read_data payload c₃ data_len
  interleaved_loop payload count c₄ (entries ++ (name, bytes) ∷ [])
      (saturating_add observed data_len)

unfoldable pub parse_payload_bundle_interleaved_entries :
    List ℕ → ℕ → ℕ → Option ℕ → Result (List Entry)
parse_payload_bundle_interleaved_entries payload cursor count expected = do
  (entries, end, observed) ← interleaved_loop payload count cursor [] 0
  finish_payload_bundle_parse payload end observed expected
  ok entries

-- The first loop of `parse_payload_bundle_grouped_entries`: the names with the lengths of the data.
unfoldable pub headers_loop :
    List ℕ → ℕ → ℕ → List (List ℕ × ℕ) → ℕ → Result (List (List ℕ × ℕ) × ℕ × ℕ)
headers_loop payload zero cursor headers observed = ok (headers, cursor, observed)
headers_loop payload (suc count) cursor headers observed = do
  (name_len, c₁) ← read_bundle_u32 payload cursor
  (data_len, c₂) ← read_bundle_u64 payload c₁
  (name, c₃) ← read_name payload c₂ name_len
  headers_loop payload count c₃ (headers ++ (name, data_len) ∷ [])
      (saturating_add observed data_len)

-- The second loop.
unfoldable pub data_loop : List ℕ → List (List ℕ × ℕ) → ℕ → List Entry → Result (List Entry × ℕ)
data_loop payload [] cursor entries = ok (entries, cursor)
data_loop payload ((name, data_len) ∷ headers) cursor entries = do
  as_usize data_len
  (bytes, c) ← read_data payload cursor data_len
  data_loop payload headers c (entries ++ (name, bytes) ∷ [])

unfoldable pub parse_payload_bundle_grouped_entries : List ℕ → ℕ → ℕ → Result (List Entry)
parse_payload_bundle_grouped_entries payload cursor count = do
  (headers, c, observed) ← headers_loop payload count cursor [] 0
  (entries, end) ← data_loop payload headers c []
  finish_payload_bundle_parse payload end observed none
  ok entries

-- The retry of a bundle of the first version as interleaved.
abbrev or_interleaved : List ℕ → ℕ → ℕ → Result (List Entry) → Result (List Entry)
or_interleaved payload cursor count (ok entries) = ok entries
or_interleaved payload cursor count (err grouped) =
    elim (parse_payload_bundle_interleaved_entries payload cursor count none) [
      | ok entries ↦ ok entries
      | err interleaved ↦ err (both_failed interleaved grouped)
    ]

unfoldable pub parse_payload_bundle_borrowed : List ℕ → Result (List Entry)
parse_payload_bundle_borrowed payload =
    if leb 4 (length payload) && from_le (slice payload 0 4) == v2_magic
    then (do
      (version, c₁) ← read_bundle_u16 payload 4
      if version == v2_version
          then (do
            (header_len, c₂) ← read_bundle_u16 payload c₁
            if ltb header_len v2_header_len || ltb (length payload) header_len
                then err (invalid_header_length header_len)
                else do
                  (count, c₃) ← read_bundle_u32 payload c₂
                  (expected, c₄) ← read_bundle_u64 payload c₃
                  parse_payload_bundle_interleaved_entries payload header_len count (some expected))
          else err (unsupported_version version))
    else if starts_with payload (codes "HARUKI_ASSET_PAYLOAD_BUNDLE_V1")
    then (do
      (count, c) ← read_bundle_u32 payload 30
      or_interleaved payload c count (parse_payload_bundle_grouped_entries payload c count))
    else err invalid_magic

-- The sum of the lengths.
abbrev pub data_bytes : List Entry → ℕ
data_bytes [] = 0
data_bytes ((name, bytes) ∷ entries) = length bytes + data_bytes entries

-- The loop that adds up `total_len`, by checked additions.
unfoldable pub total_len : ℕ → List Entry → Result ℕ
total_len total [] = ok total
total_len total ((name, bytes) ∷ entries) =
    if ltb usize_max (total + 4 + 8 + length name + length bytes)
    then err bundle_too_large
    else total_len (total + 4 + 8 + length name + length bytes) entries

-- The loop that writes the entries behind `bundle`.
unfoldable pub write_entries : List ℕ → List Entry → Result (List ℕ)
write_entries bundle [] = ok bundle
write_entries bundle ((name, bytes) ∷ entries) =
    if ltb (2 ^ 32 - 1) (length name)
    then err name_too_large
    else write_entries
        (bundle ++ le_bytes 4 (length name) ++ le_bytes 8 (length bytes) ++ name ++ bytes) entries

unfoldable pub write_native_payload_bundle : List Entry → Result (List ℕ)
write_native_payload_bundle [] = ok []
write_native_payload_bundle (entry ∷ entries) = do
  total ← total_len v2_header_len (entry ∷ entries)
  write_entries
      (le_bytes 4 v2_magic
        ++ le_bytes 2 v2_version
        ++ le_bytes 2 v2_header_len
        ++ le_bytes 4 (length (entry ∷ entries) % 2 ^ 32)
        ++ le_bytes 8 (data_bytes (entry ∷ entries) % 2 ^ 64))
      (entry ∷ entries)
