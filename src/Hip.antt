-- ===== src/Hip.antt =====
-- The HIP/1 upload protocol (src/core/hip): frames on the wire, messages, the client session.
pub mod Error
pub mod Frame
pub mod Codec
pub mod Upload
pub mod Session
