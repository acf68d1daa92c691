-- ===== src/Protocol/Http2/Frames/ErrorCode.antt =====
-- `enum class ErrorCode` of src/protocol/http2/http2_frames.h, of the codes that the code sends.
use iocp_http_runtime.Prelude.{ℕ}

abbrev pub no_error : ℕ
no_error = 0x00

abbrev pub protocol_error : ℕ
protocol_error = 0x01

abbrev pub compression_error : ℕ
compression_error = 0x09

abbrev pub enhance_your_calm : ℕ
enhance_your_calm = 0x0b
