-- ===== src/Protocol/Sample/Codec.antt =====
-- src/protocol/sample/length_prefixed_codec.cpp: `[4-byte body length][2-byte id][payload]`, big
-- endian. `BufferSequence::At` may throw, so the readers return a `Result`.
pub mod Decode
pub mod RoundTrip
use iocp_http_runtime.Prelude.{
  ℕ, ◌+◌, ◌-◌, ◌*◌, ◌%◌, ◌/◌, ◌^◌, List, [], ◌∷◌, ◌++◌, if◌then◌else◌, ltb, length, Result, ok,
  throws, invalid_argument, length_error, ◌>>=◌, bit_or, or_octets, octet,
}
use iocp_http_runtime.Buffer.View.{ByteView}
use iocp_http_runtime.Buffer.Sequence.{BufferSequence, at, copy_to}

pub record SampleMessage : Type 0 where
  pub id : ℕ
  pub payload : List ℕ

pub data FrameDecodeStatus : Type 0 where
  incomplete complete error : FrameDecodeStatus

pub data FrameDecodeError : Type 0 where
  no_error body_too_small payload_too_large : FrameDecodeError

pub record FrameDecodeResult : Type 0 where
  pub status : FrameDecodeStatus
  pub error : FrameDecodeError
  pub consumed_bytes : ℕ
  pub message : SampleMessage

abbrev pub no_message : SampleMessage
no_message = record { id = 0; payload = [] }

abbrev pub is_incomplete : FrameDecodeResult
is_incomplete = record {
  status = incomplete;
  error = no_error;
  consumed_bytes = 0;
  message = no_message;
}

abbrev pub is_error : FrameDecodeError → FrameDecodeResult
is_error e = record { status = error; error = e; consumed_bytes = 0; message = no_message }

abbrev pub length_prefix_bytes : ℕ
length_prefix_bytes = 4

abbrev pub message_id_bytes : ℕ
message_id_bytes = 2

abbrev pub frame_overhead_bytes : ℕ
frame_overhead_bytes = length_prefix_bytes + message_id_bytes

-- `ValidateMaximumPayload`, in the constructors of the decoder and of the encoder.
unfoldable pub validate_maximum_payload : ℕ → Result ℕ
validate_maximum_payload maximum_payload_bytes =
    if ltb (2 ^ 32 - 1 - frame_overhead_bytes) maximum_payload_bytes
    then throws invalid_argument
    else ok maximum_payload_bytes

unfoldable pub read_big_endian32 : BufferSequence → ℕ → Result ℕ
read_big_endian32 input offset = do
  a ← at input offset
  b ← at input (offset + 1)
  c ← at input (offset + 2)
  d ← at input (offset + 3)
  ok (or_octets a b c d)

unfoldable pub read_big_endian16 : BufferSequence → ℕ → Result ℕ
read_big_endian16 input offset = do
  a ← at input offset
  b ← at input (offset + 1)
  ok (bit_or (a * 2 ^ 8) b % 2 ^ 16)

abbrev pub write_big_endian32 : ℕ → List ℕ
write_big_endian32 value = octet value 24 ∷ octet value 16 ∷ octet value 8 ∷ value % 256 ∷ []

abbrev pub write_big_endian16 : ℕ → List ℕ
write_big_endian16 value = octet value 8 ∷ value % 256 ∷ []

-- The part of `Decode` behind the length checks.
unfoldable pub decode_message : BufferSequence → ℕ → ℕ → Result FrameDecodeResult
unfolding read_big_endian16
decode_message input payload_bytes total_bytes = do
  id ← read_big_endian16 input length_prefix_bytes
  payload ← copy_to input frame_overhead_bytes payload_bytes
  ok (record {
    status = complete;
    error = no_error;
    consumed_bytes = total_bytes;
    message = record { id = id; payload = payload };
  })

unfoldable pub decode_body : ℕ → BufferSequence → ℕ → Result FrameDecodeResult
unfolding decode_message
decode_body maximum_payload_bytes input body_bytes =
    if ltb body_bytes message_id_bytes
    then ok (is_error body_too_small)
    else let payload_bytes = body_bytes - message_id_bytes in
      let total_bytes = length_prefix_bytes + body_bytes in
      if ltb maximum_payload_bytes payload_bytes
      then ok (is_error payload_too_large)
      else if ltb input.size total_bytes
      then ok is_incomplete
      else decode_message input payload_bytes total_bytes

unfoldable pub decode : ℕ → BufferSequence → Result FrameDecodeResult
unfolding decode_body read_big_endian32
decode maximum_payload_bytes input =
    if ltb input.size length_prefix_bytes
    then ok is_incomplete
    else (read_big_endian32 input 0 >>= decode_body maximum_payload_bytes input)

unfoldable pub encode : ℕ → ℕ → ByteView → Result (List ℕ)
encode maximum_payload_bytes message_id payload =
    if ltb maximum_payload_bytes (length payload)
    then throws length_error
    else let body_bytes = message_id_bytes + length payload in
      ok (write_big_endian32 (body_bytes % 2 ^ 32) ++ (write_big_endian16 message_id ++ payload))
