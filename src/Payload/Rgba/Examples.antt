-- ===== src/Payload/Rgba/Examples.antt =====
-- A concrete image of two rows, with padding.
use moe_assets_updater_next.Prelude.{
  ℕ, ◌+◌, ◌*◌, ◌≤◌, ◌≡◌, refl, List, [], ◌∷◌, ◌++◌, codes, length, from_le, text_beq, replicate,
}
use moe_assets_updater_next.Payload.Rgba.{
  NativeRgbaIr, ok, err, too_short, invalid_stride, header_len, parse_native_rgba_ir_payload,
  native_rgba_ir_contiguous_pixels,
}
use moe_assets_updater_next.Payload.Rgba.Rows.{rows, contiguous_pixels-parse}

-- One pixel a row, and `stride` bytes from row to row.
abbrev image : ℕ → List ℕ
image stride =
    codes "HARUKI_RGBAIR_V1"
    ++ (1 ∷ 0 ∷ 0 ∷ 0 ∷ 2 ∷ 0 ∷ 0 ∷ 0 ∷ stride ∷ 0 ∷ 0 ∷ 0 ∷ 1 ∷ 0 ∷ 0 ∷ 0 ∷ 9 ∷ 9 ∷ 9 ∷ 9 ∷ [])
    ++ (10 ∷ 11 ∷ 12 ∷ 13 ∷ 0 ∷ 20 ∷ 21 ∷ 22 ∷ 23 ∷ 0 ∷ [])

abbrev raw_image : NativeRgbaIr
raw_image = record {
  width = 1;
  height = 2;
  stride = 5;
  row_bytes = 4;
  pixels = 10 ∷ 11 ∷ 12 ∷ 13 ∷ 0 ∷ 20 ∷ 21 ∷ 22 ∷ 23 ∷ 0 ∷ [];
}

parse_image : parse_native_rgba_ir_payload (image 5) ≡ ok raw_image
unfolding parse_native_rgba_ir_payload from_le text_beq
parse_image = refl

padding_dropped :
    native_rgba_ir_contiguous_pixels raw_image ≡ 10 ∷ 11 ∷ 12 ∷ 13 ∷ 20 ∷ 21 ∷ 22 ∷ 23 ∷ []
unfolding native_rgba_ir_contiguous_pixels
padding_dropped = refl

narrow_stride : parse_native_rgba_ir_payload (image 3) ≡ err (invalid_stride 3 1)
unfolding parse_native_rgba_ir_payload from_le text_beq
narrow_stride = refl

short_payload : parse_native_rgba_ir_payload (replicate 35 0) ≡ err (too_short 35)
unfolding parse_native_rgba_ir_payload
short_payload = refl

contiguous_pixels-parse_example :
    (native_rgba_ir_contiguous_pixels raw_image ≡ rows (image 5) raw_image 2 0)
    × (length (native_rgba_ir_contiguous_pixels raw_image) ≡ 1 * 4 * 2)
    × (header_len + 5 * 2 ≤ length (image 5))
contiguous_pixels-parse_example = contiguous_pixels-parse (image 5) raw_image parse_image
