-- ===== src/Protocol/Http2/Frames/FrameFlags.antt =====
-- `enum class FrameFlags` of src/protocol/http2/http2_frames.h.
use iocp_http_runtime.Prelude.{ℕ}

abbrev pub end_stream : ℕ
end_stream = 0x01

abbrev pub ack : ℕ
ack = 0x01

abbrev pub end_headers : ℕ
end_headers = 0x04

abbrev pub padded : ℕ
padded = 0x08

abbrev pub priority : ℕ
priority = 0x20
