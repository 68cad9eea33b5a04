-- ===== src/Payload/Bundle/Examples.antt =====
-- A concrete bundle, written and parsed.
use moe_assets_updater_next.Prelude.{ℕ, ◌≡◌, refl, List, [], ◌∷◌, ◌++◌, codes, from_le, text_beq}
use moe_assets_updater_next.Payload.Utf8.{is_utf8}
use moe_assets_updater_next.Payload.Bundle.{
  Entry, ok, err, trailing_bytes, invalid_magic, read_bundle_u16, read_bundle_u32, read_bundle_u64,
  read_name, read_data, interleaved_loop, finish_payload_bundle_parse,
  parse_payload_bundle_interleaved_entries, headers_loop, data_loop,
  parse_payload_bundle_grouped_entries, parse_payload_bundle_borrowed, write_native_payload_bundle,
}

abbrev two_entries : List Entry
two_entries = (codes "12", 7 ∷ 8 ∷ 9 ∷ []) ∷ (codes "-4", []) ∷ []

abbrev two_bytes : List ℕ
two_bytes =
    codes "HAPB"
    ++ (2 ∷ 0 ∷ 20 ∷ 0 ∷ 2 ∷ 0 ∷ 0 ∷ 0 ∷ 3 ∷ 0 ∷ 0 ∷ 0 ∷ 0 ∷ 0 ∷ 0 ∷ 0 ∷ [])
    ++ (2 ∷ 0 ∷ 0 ∷ 0 ∷ 3 ∷ 0 ∷ 0 ∷ 0 ∷ 0 ∷ 0 ∷ 0 ∷ 0 ∷ b'1' ∷ b'2' ∷ 7 ∷ 8 ∷ 9 ∷ [])
    ++ (2 ∷ 0 ∷ 0 ∷ 0 ∷ 0 ∷ 0 ∷ 0 ∷ 0 ∷ 0 ∷ 0 ∷ 0 ∷ 0 ∷ b'-' ∷ b'4' ∷ [])

write_nothing : write_native_payload_bundle [] ≡ ok []
unfolding write_native_payload_bundle
write_nothing = refl

empty_is_no_bundle : parse_payload_bundle_borrowed [] ≡ err invalid_magic
unfolding parse_payload_bundle_borrowed text_beq
empty_is_no_bundle = refl

trailing_byte : parse_payload_bundle_borrowed (two_bytes ++ 0 ∷ []) ≡ err (trailing_bytes 1)
unfolding parse_payload_bundle_borrowed parse_payload_bundle_interleaved_entries interleaved_loop
    read_bundle_u16 read_bundle_u32 read_bundle_u64 read_name read_data finish_payload_bundle_parse
    is_utf8 from_le
trailing_byte = refl

-- The older layout: all names first, then all data.
abbrev grouped_bytes : List ℕ
grouped_bytes =
    codes "HARUKI_ASSET_PAYLOAD_BUNDLE_V1"
    ++ (2 ∷ 0 ∷ 0 ∷ 0 ∷ [])
    ++ (2 ∷ 0 ∷ 0 ∷ 0 ∷ 3 ∷ 0 ∷ 0 ∷ 0 ∷ 0 ∷ 0 ∷ 0 ∷ 0 ∷ b'1' ∷ b'2' ∷ [])
    ++ (2 ∷ 0 ∷ 0 ∷ 0 ∷ 0 ∷ 0 ∷ 0 ∷ 0 ∷ 0 ∷ 0 ∷ 0 ∷ 0 ∷ b'-' ∷ b'4' ∷ [])
    ++ (7 ∷ 8 ∷ 9 ∷ [])

parse_grouped : parse_payload_bundle_borrowed grouped_bytes ≡ ok two_entries
unfolding parse_payload_bundle_borrowed parse_payload_bundle_grouped_entries headers_loop data_loop
    read_bundle_u32 read_bundle_u64 read_name read_data finish_payload_bundle_parse is_utf8 from_le
    text_beq
parse_grouped = refl
