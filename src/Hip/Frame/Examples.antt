-- ===== src/Hip/Frame/Examples.antt =====
-- Concrete frames, as in the tests of src/core/hip/frame.rs, and the theorems at them.
use moe_assets_updater_next.Prelude.{
  ℕ, ◌≡◌, refl, List, [], ◌∷◌, ◌++◌, arith, codes, split_at?, be_bytes, from_be, replicate,
}
use moe_assets_updater_next.Hip.Error.{
  ok, err, frame_too_large, protocol, unknown_frame_type, zero_length,
}
use moe_assets_updater_next.Hip.Frame.{
  hello, to_u8, from_u8, Frame, max_default_frame_bytes, encode_frame, read_frame, write_frame,
}
use moe_assets_updater_next.Hip.Frame.RoundTrip.{read_frame-encode_frame}

abbrev hello_frame : Frame
hello_frame = record { frame_type = hello; payload = codes "hello" }

abbrev hello_bytes : List ℕ
hello_bytes = 0 ∷ 0 ∷ 0 ∷ 6 ∷ 1 ∷ codes "hello"

encode_hello : encode_frame hello_frame max_default_frame_bytes ≡ ok hello_bytes
unfolding encode_frame be_bytes to_u8
encode_hello = refl

write_hello : write_frame (7 ∷ []) hello_frame max_default_frame_bytes ≡ ok (7 ∷ hello_bytes)
unfolding write_frame be_bytes to_u8
write_hello = refl

read_hello : read_frame (hello_bytes ++ 9 ∷ []) max_default_frame_bytes ≡ ok (hello_frame, 9 ∷ [])
unfolding read_frame from_be from_u8 split_at?
read_hello = refl

rejects_oversized :
    encode_frame (record { frame_type = hello; payload = replicate 10 0 }) 4
    ≡ err (frame_too_large 11 4)
unfolding encode_frame
rejects_oversized = refl

rejects_declared :
    read_frame (255 ∷ 255 ∷ 255 ∷ 255 ∷ 1 ∷ []) max_default_frame_bytes
    ≡ err (frame_too_large 4294967295 max_default_frame_bytes)
unfolding read_frame from_be split_at?
rejects_declared = refl

rejects_zero : read_frame (0 ∷ 0 ∷ 0 ∷ 0 ∷ []) max_default_frame_bytes ≡ err (protocol zero_length)
unfolding read_frame from_be split_at?
rejects_zero = refl

rejects_gap : from_u8 0x0d ≡ err (protocol (unknown_frame_type 0x0d))
unfolding from_u8
rejects_gap = refl

read_frame-encode_frame_example :
    read_frame (hello_bytes ++ 9 ∷ []) max_default_frame_bytes ≡ ok (hello_frame, 9 ∷ [])
read_frame-encode_frame_example =
    read_frame-encode_frame hello_frame max_default_frame_bytes hello_bytes (9 ∷ []) encode_hello
      (omega arith)
