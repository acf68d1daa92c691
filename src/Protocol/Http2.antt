-- ===== src/Protocol/Http2.antt =====
-- src/protocol/http2: frames and header compression of HTTP/2.
pub mod Frames
pub mod Hpack
pub mod Outbound
