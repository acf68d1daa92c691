-- ===== src/Protocol/Http2/Frames.antt =====
-- src/protocol/http2/http2_frames.cpp, FrameCodec. A mask of low bits is the remainder, a right
-- shift the quotient by a power of two; `|` is the native operation.
pub mod FrameType
pub mod FrameFlags
pub mod ErrorCode
pub mod Header
pub mod Payloads
use iocp_http_runtime.Prelude.{
  ℕ, ◌+◌, ◌*◌, ◌/◌, ◌%◌, ◌^◌, List, [], ◌∷◌, ◌++◌, Bool, if◌then◌else◌, ltb, length, Option, none,
  some, Result, ok, throws, ◌>>=◌, bit_or, or_octets, octet,
}
use iocp_http_runtime.Buffer.Sequence.{BufferSequence, at}

pub record FrameHeader : Type 0 where
  pub length : ℕ
  pub type : ℕ
  pub flags : ℕ
  pub stream_id : ℕ

abbrev pub header_size : ℕ
header_size = 9

-- `MakeUint32`, on octets.
abbrev pub make_uint32 : ℕ → ℕ → ℕ → ℕ → ℕ
make_uint32 b0 b1 b2 b3 = or_octets b0 b1 b2 b3

-- `DecodeHeader`: `none` where it returns false.
unfoldable pub decode_header : BufferSequence → Result (Option FrameHeader)
decode_header input = if ltb input.size header_size then ok none else do
  b0 ← at input 0
  b1 ← at input 1
  b2 ← at input 2
  type ← at input 3
  flags ← at input 4
  b5 ← at input 5
  b6 ← at input 6
  b7 ← at input 7
  b8 ← at input 8
  ok (
      some (record {
        length = make_uint32 0 b0 b1 b2;
        type = type;
        flags = flags;
        stream_id = bit_or (bit_or (make_uint32 0 0 (b5 % 128) b6) (b7 * 2 ^ 8)) b8 % 2 ^ 31;
      }))

-- The four octets of a 32-bit number, the last one first in value.
abbrev pub octets32 : ℕ → List ℕ
octets32 value = octet value 24 ∷ octet value 16 ∷ octet value 8 ∷ value % 256 ∷ []

-- The same with the highest bit masked out, `(value >> 24) & 0x7f`.
abbrev pub octets31 : ℕ → List ℕ
octets31 value = value / 2 ^ 24 % 128 ∷ octet value 16 ∷ octet value 8 ∷ value % 256 ∷ []

unfoldable pub encode_header : FrameHeader → List ℕ
encode_header h =
    octet h.length 16 ∷ octet h.length 8 ∷ h.length % 256 ∷ h.type ∷ h.flags ∷ octets31 h.stream_id

unfoldable pub encode_setting : ℕ × ℕ → List ℕ
encode_setting (id, value) = octet id 8 ∷ id % 256 ∷ octets32 value

unfoldable pub settings_payload : List (ℕ × ℕ) → List ℕ
unfolding encode_setting
settings_payload [] = []
settings_payload (setting ∷ settings) = encode_setting setting ++ settings_payload settings

unfoldable pub encode_settings : List (ℕ × ℕ) → List ℕ
unfolding encode_header settings_payload
encode_settings settings =
    let payload = settings_payload settings in
    encode_header (record {
      length = length payload % 2 ^ 32;
      type = FrameType.settings;
      flags = 0;
      stream_id = 0;
    })
    ++ payload

unfoldable pub encode_goaway : ℕ → ℕ → List ℕ → List ℕ
unfolding encode_header
encode_goaway last_stream_id error_code debug_data =
    let payload = octets31 last_stream_id ++ (octets32 error_code ++ debug_data) in
    encode_header (record {
      length = length payload % 2 ^ 32;
      type = FrameType.goaway;
      flags = 0;
      stream_id = 0;
    })
    ++ payload

-- RST_STREAM and WINDOW_UPDATE give the payload alone.
unfoldable pub encode_rst_stream : ℕ → List ℕ
encode_rst_stream error_code = octets32 error_code

unfoldable pub encode_window_update : ℕ → List ℕ
encode_window_update window_size_increment =
    let masked = window_size_increment % 2 ^ 31 in octets31 masked

unfoldable pub ping_payload : ℕ → List ℕ
ping_payload opaque =
    octet opaque 56
    ∷ octet opaque 48
    ∷ octet opaque 40
    ∷ octet opaque 32
    ∷ octet opaque 24
    ∷ octet opaque 16
    ∷ octet opaque 8
    ∷ opaque % 256
    ∷ []

unfoldable pub encode_ping : ℕ → Bool → List ℕ
unfolding encode_header ping_payload
encode_ping opaque_data ack =
    let payload = ping_payload opaque_data in
    encode_header (record {
      length = length payload % 2 ^ 32;
      type = FrameType.ping;
      flags = if ack then FrameFlags.ack else 0;
      stream_id = 0;
    })
    ++ payload

unfoldable pub flatten : List (List ℕ) → List ℕ
flatten [] = []
flatten (frame ∷ frames) = frame ++ flatten frames
