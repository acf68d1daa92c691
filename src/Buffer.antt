-- ===== src/Buffer.antt =====
-- src/buffer: borrowed byte ranges, and the two receive buffers that the protocol sessions own.
pub mod View
pub mod Status
pub mod Sequence
pub mod Ring
pub mod Linear
mod Tests
