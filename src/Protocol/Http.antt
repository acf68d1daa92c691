-- ===== src/Protocol/Http.antt =====
-- src/protocol/http: how an HTTP/1.1 request is parsed.
pub mod Sizes
pub mod Parser
