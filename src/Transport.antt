-- ===== src/Transport.antt =====
-- src/transport: the bounded queue of what a connection has to send.
pub mod SendQueue
mod Tests
