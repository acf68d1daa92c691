-- ===== src/Protocol/Http2/Frames/FrameType.antt =====
-- `enum class FrameType` of src/protocol/http2/http2_frames.h, of the types that the code sends
-- or handles. The decoder casts any octet to it, so a type is an octet.
use iocp_http_runtime.Prelude.{ℕ}

abbrev pub data_frame : ℕ
data_frame = 0x00

abbrev pub headers : ℕ
headers = 0x01

abbrev pub rst_stream : ℕ
rst_stream = 0x03

abbrev pub settings : ℕ
settings = 0x04

abbrev pub ping : ℕ
ping = 0x06

abbrev pub goaway : ℕ
goaway = 0x07

abbrev pub window_update : ℕ
window_update = 0x08

abbrev pub continuation : ℕ
continuation = 0x09
