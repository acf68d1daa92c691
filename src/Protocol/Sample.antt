-- ===== src/Protocol/Sample.antt =====
-- src/protocol/sample: the length-prefixed message protocol.
pub mod Codec
