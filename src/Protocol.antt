-- ===== src/Protocol.antt =====
-- internal/protocol: RESP values, their encoder and the decoder over a buffer.
pub mod Value
pub mod Number
pub mod Decode
pub mod Writer
pub mod Coerce
