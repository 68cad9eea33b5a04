-- ===== src/Payload/Rgba.antt =====
-- The raw RGBA images of src/core/export_pipeline/implementation/payload.rs. `usize` has 64 bits,
-- so that its conversions from `u32` and the product with 4 cannot fail.
pub mod Rows
mod Examples
use moe_assets_updater_next.Prelude.{
  ℕ, zero, suc, ◌+◌, ◌-◌, ◌*◌, ◌≤◌, ◌<◌, ◌^◌, ◌≡◌, refl, Bool, not, List, [], ◌∷◌, ◌++◌, arith, ltb,
  ◌==◌, if◌then◌else◌, length, take, drop, from_le, codes,
}
use moe_assets_updater_next.Payload.Slice.{slice, starts_with}

pub data RgbaError : Type 0 where
  too_short : ℕ → RgbaError
  invalid_magic : RgbaError
  unsupported_pixel_format : ℕ → RgbaError
  invalid_width : ℕ → RgbaError
  invalid_stride : ℕ → ℕ → RgbaError
  too_large : RgbaError
  truncated : ℕ → ℕ → RgbaError

pub data Result {ℓ} (A : Type ℓ) : Type ℓ where
  ok : A → Result A
  err : RgbaError → Result A

abbrev pub header_len : ℕ
header_len = 36

abbrev pub usize_max : ℕ
usize_max = 2 ^ 64 - 1

pub record NativeRgbaIr : Type 0 where
  pub width : ℕ
  pub height : ℕ
  pub stride : ℕ
  pub row_bytes : ℕ
  pub pixels : List ℕ

abbrev read_u32 : List ℕ → ℕ → ℕ
read_u32 payload offset = from_le (slice payload offset 4)

-- The checks on the fields of the header.
unfoldable pub check_fields : List ℕ → ℕ → ℕ → ℕ → ℕ → Result NativeRgbaIr
check_fields payload width height stride pixel_format =
    if not (pixel_format == 1)
    then err (unsupported_pixel_format pixel_format)
    else if ltb usize_max (width * 4)
    then err (invalid_width width)
    else if ltb stride (width * 4)
    then err (invalid_stride stride width)
    else if ltb usize_max (stride * height + header_len)
    then err too_large
    else if ltb (length payload) (stride * height + header_len)
    then err (truncated (stride * height + header_len) (length payload))
    else ok (record {
      width = width;
      height = height;
      stride = stride;
      row_bytes = width * 4;
      pixels = slice payload header_len (stride * height);
    })

unfoldable pub parse_native_rgba_ir_payload : List ℕ → Result NativeRgbaIr
unfolding check_fields
parse_native_rgba_ir_payload payload =
    if ltb (length payload) header_len
    then err (too_short (length payload))
    else if not (starts_with payload (codes "HARUKI_RGBAIR_V1"))
    then err invalid_magic
    else check_fields payload (read_u32 payload 16) (read_u32 payload 20) (read_u32 payload 24)
        (read_u32 payload 28)

-- The loop `for y in 0..height`: `rows` rows are left, from row `y` on.
unfoldable pub rows_loop : NativeRgbaIr → ℕ → ℕ → List ℕ → List ℕ
rows_loop raw zero y pixels = pixels
rows_loop raw (suc rows) y pixels =
    rows_loop raw rows (y + 1) (pixels ++ slice raw.pixels (y * raw.stride) raw.row_bytes)

unfoldable pub native_rgba_ir_contiguous_pixels : NativeRgbaIr → List ℕ
unfolding rows_loop
native_rgba_ir_contiguous_pixels raw =
    if raw.stride == raw.row_bytes
    then take (raw.row_bytes * raw.height) raw.pixels
    else rows_loop raw raw.height 0 []
