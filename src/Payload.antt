-- ===== src/Payload.antt =====
-- The binary payloads that the AssetStudio worker hands to the export pipeline.
pub mod Utf8
pub mod Slice
pub mod Bundle
pub mod Rgba
pub mod Claims
