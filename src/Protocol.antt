-- ===== src/Protocol.antt =====
-- src/protocol: the sample length-prefixed protocol, HTTP/1.1 and HTTP/2, and the choice between them.
pub mod Sample
pub mod Preface
pub mod Http
pub mod Http2
mod Tests
