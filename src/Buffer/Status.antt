-- ===== src/Buffer/Status.antt =====
-- src/buffer/buffer_status.h.
pub data BufferStatus : Type 0 where
  ready limit_exceeded : BufferStatus
