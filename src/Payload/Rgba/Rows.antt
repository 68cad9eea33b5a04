-- ===== src/Payload/Rgba/Rows.antt =====
-- The pixels that the image is built from.
use native.Mathlib.Nat.{mul-le-mul_right}
use moe_assets_updater_next.Prelude.{
  ℕ, zero, suc, ◌+◌, ◌*◌, ◌≤◌, ◌≡◌, sym, ◌∙◌, List, [], ◌++◌, arith, length, length-append,
  append-nil, append_assoc, ◌==◌, Bool-cases, inl, inr, ==_iff,
}
use moe_assets_updater_next.Payload.Slice.{slice, slice-slice, slice-add, length-slice}
use moe_assets_updater_next.Payload.Rgba.{
  NativeRgbaIr, ok, header_len, parse_native_rgba_ir_payload, rows_loop,
  native_rgba_ir_contiguous_pixels,
}

-- What a parsed image promises of the payload that it was parsed from.
pub record Fits (payload : List ℕ) (raw : NativeRgbaIr) : Type 0 where
  pub row : raw.row_bytes ≡ raw.width * 4
  pub padded : raw.row_bytes ≤ raw.stride
  pub room : header_len + raw.stride * raw.height ≤ length payload
  pub cut : raw.pixels ≡ slice payload header_len (raw.stride * raw.height)

parse-Fits :
    (payload : List ℕ) (raw : NativeRgbaIr)
    → parse_native_rgba_ir_payload payload ≡ ok raw
    → Fits payload raw
unfolding parse_native_rgba_ir_payload
parse-Fits payload raw h = ground arith

-- The first `row_bytes` bytes of the rows from `y` on, straight from the payload.
abbrev pub rows : List ℕ → NativeRgbaIr → ℕ → ℕ → List ℕ
rows payload raw zero y = []
rows payload raw (suc count) y =
    slice payload (header_len + y * raw.stride) raw.row_bytes ++ rows payload raw count (y + 1)

module _ (payload : List ℕ) (raw : NativeRgbaIr) (fits : Fits payload raw) where
  -- A row that lies within the image is within the pixels.
  in_pixels : (y : ℕ) → suc y ≤ raw.height → y * raw.stride + raw.stride ≤ raw.stride * raw.height
  in_pixels y h = omega (arith, mul-le-mul_right raw.stride h)

  row-slice :
      (y : ℕ)
      → suc y ≤ raw.height
      → slice raw.pixels (y * raw.stride) raw.row_bytes
        ≡ slice payload (header_len + y * raw.stride) raw.row_bytes
  row-slice y h = rw fits.cut (
      slice-slice payload header_len (raw.stride * raw.height) (y * raw.stride) raw.row_bytes
        (omega (arith, in_pixels y h, fits.padded)))

  rows_loop-rows :
      (count y : ℕ) (acc : List ℕ)
      → y + count ≤ raw.height
      → rows_loop raw count y acc ≡ acc ++ rows payload raw count y
  unfolding rows_loop
  rows_loop-rows zero y acc h = sym (append-nil acc)
  rows_loop-rows (suc count) y acc h =
      rows_loop-rows count (y + 1) (acc ++ slice raw.pixels (y * raw.stride) raw.row_bytes)
        (omega arith)
      ∙ rw (row-slice y (omega arith)) (append_assoc acc _ _)

  length-rows :
      (count y : ℕ)
      → y + count ≤ raw.height
      → length (rows payload raw count y) ≡ raw.row_bytes * count
  length-rows zero y h = omega arith
  length-rows (suc count) y h =
      let inside : header_len + y * raw.stride + raw.row_bytes ≤ length payload =
        omega (arith, in_pixels y (omega arith), fits.padded, fits.room) in
      omega (
        arith,
        length-append (slice payload (header_len + y * raw.stride) raw.row_bytes)
            (rows payload raw count (y + 1)),
        length-slice payload (header_len + y * raw.stride) raw.row_bytes inside,
        length-rows count (y + 1) (omega arith),
      )

  -- With no padding the rows are one slice.
  rows-slice :
      raw.stride ≡ raw.row_bytes
      → (count y : ℕ)
      → rows payload raw count y
        ≡ slice payload (header_len + y * raw.stride) (raw.row_bytes * count)
  rows-slice e zero y = let none_left : raw.row_bytes * 0 ≡ 0 = omega arith in rw none_left
  rows-slice e (suc count) y =
      let next : header_len + (y + 1) * raw.stride ≡ header_len + y * raw.stride + raw.row_bytes =
        omega arith in
      let sum : raw.row_bytes * suc count ≡ raw.row_bytes + raw.row_bytes * count = omega arith in
      rw (rows-slice e count (y + 1), next, sum)
        (sym
          (slice-add payload (header_len + y * raw.stride) raw.row_bytes (raw.row_bytes * count)))

  contiguous-rows : native_rgba_ir_contiguous_pixels raw ≡ rows payload raw raw.height 0
  unfolding native_rgba_ir_contiguous_pixels
  contiguous-rows = elim (Bool-cases (raw.stride == raw.row_bytes)) [
    | inr padded ↦ rw padded (rows_loop-rows raw.height 0 [] (omega arith))
    | inl tight ↦
        let e : raw.stride ≡ raw.row_bytes = (==_iff raw.stride raw.row_bytes).0 tight in
        let n : ℕ = raw.row_bytes * raw.height in
        let whole : 0 + n ≤ raw.stride * raw.height = rw e (omega arith) in
        let start : header_len + 0 * raw.stride ≡ header_len = omega arith in
        rw (tight, rows-slice e raw.height 0, start, fits.cut)
          (slice-slice payload header_len (raw.stride * raw.height) 0 n whole)
  ]

-- The pixels that are made of a payload which parses are the first `width * 4` bytes of each of its
-- `height` rows, in order, as they stand in the payload behind the header; there are
-- `width * 4 * height` of them, and every row lies within the payload.
pub contiguous_pixels-parse :
    (payload : List ℕ) (raw : NativeRgbaIr)
    → parse_native_rgba_ir_payload payload ≡ ok raw
    → (native_rgba_ir_contiguous_pixels raw ≡ rows payload raw raw.height 0)
      × (length (native_rgba_ir_contiguous_pixels raw) ≡ raw.width * 4 * raw.height)
      × (header_len + raw.stride * raw.height ≤ length payload)
contiguous_pixels-parse payload raw h =
    let fits = parse-Fits payload raw h in
    let shape = contiguous-rows payload raw fits in
    (
      shape,
      rw shape (rw (length-rows payload raw fits raw.height 0 (omega arith), fits.row)),
      fits.room,
    )
