-- ===== src/Protocol/Http2/Frames/Payloads.antt =====
-- The connection frames: SETTINGS, GOAWAY and PING.
use iocp_http_runtime.Prelude.{
  ℕ, ◌+◌, ◌*◌, ◌%◌, ◌^◌, ◌<◌, ◌≡◌, refl, ap, ◌∙◌, List, [], ◌∷◌, ◌++◌, arith, if◌then◌else◌, Bool,
  length, append_assoc, some, ok,
}
use iocp_http_runtime.Buffer.Sequence.{BufferSequence}
use iocp_http_runtime.Buffer.Sequence.Read.{bytes, IsSequence}
use iocp_http_runtime.Protocol.Http2.Frames.{
  FrameHeader, decode_header, encode_header, encode_setting, settings_payload, encode_settings,
  encode_goaway, encode_ping, ping_payload, octets31, octets32,
}
use iocp_http_runtime.Protocol.Http2.Frames.FrameType
use iocp_http_runtime.Protocol.Http2.Frames.FrameFlags
use iocp_http_runtime.Protocol.Http2.Frames.Header.{decode-encode_header}

-- A frame of stream 0 with that type, flags and payload length.
abbrev pub on_connection : ℕ → ℕ → ℕ → FrameHeader
on_connection type flags n = record { length = n; type = type; flags = flags; stream_id = 0 }

length-settings_payload :
    (settings : List (ℕ × ℕ)) → length (settings_payload settings) ≡ 6 * length settings
unfolding settings_payload encode_setting
length-settings_payload [] = refl
length-settings_payload (setting ∷ settings) = omega (arith, length-settings_payload settings)

framed :
    {s : BufferSequence} (type flags n : ℕ) (payload rest : List ℕ)
    → type < 256
    → flags < 256
    → n < 2 ^ 24
    → IsSequence s
    → bytes s ≡ (encode_header (on_connection type flags n) ++ payload) ++ rest
    → decode_header s ≡ ok (some (on_connection type flags n))
framed type flags n payload rest ht hf hn v e =
    decode-encode_header (on_connection type flags n) (payload ++ rest)
      (record { length_fits = hn; type_fits = ht; flags_fit = hf; stream_id_fits = omega arith })
      (omega arith) v (e ∙ append_assoc (encode_header (on_connection type flags n)) payload rest)

-- Of settings that take less than 2 ^ 24 octets, at six octets each, the header in front of the
-- encoded SETTINGS frame announces a SETTINGS frame of stream 0 with six octets for each setting, no
-- more and no fewer than follow.
pub encode_settings-announces :
    {s : BufferSequence} (settings : List (ℕ × ℕ)) (rest : List ℕ)
    → 6 * length settings < 2 ^ 24
    → IsSequence s
    → bytes s ≡ encode_settings settings ++ rest
    → (decode_header s ≡ ok (some (on_connection FrameType.settings 0 (6 * length settings))))
      × (length (encode_settings settings) ≡ 9 + 6 * length settings)
unfolding encode_settings encode_header
encode_settings-announces settings rest small v e = (
  framed FrameType.settings 0 (6 * length settings) (settings_payload settings) rest (omega arith)
      (omega arith) small v
      (e
        ∙ ap
            (λ n.
              (encode_header (on_connection FrameType.settings 0 n) ++ settings_payload settings)
              ++ rest)
            size),
  omega (arith, length-settings_payload settings),
)
  where
    size : length (settings_payload settings) % 2 ^ 32 ≡ 6 * length settings
    size = omega (arith, length-settings_payload settings)

-- The header in front of an encoded GOAWAY frame announces a GOAWAY frame of stream 0 with the
-- last stream id, the error code and the debug data.
pub encode_goaway-announces :
    {s : BufferSequence} (last_stream_id error_code : ℕ) (debug_data rest : List ℕ)
    → 8 + length debug_data < 2 ^ 24
    → IsSequence s
    → bytes s ≡ encode_goaway last_stream_id error_code debug_data ++ rest
    → (decode_header s ≡ ok (some (on_connection FrameType.goaway 0 (8 + length debug_data))))
      × (length (encode_goaway last_stream_id error_code debug_data) ≡ 17 + length debug_data)
unfolding encode_goaway encode_header
encode_goaway-announces last_stream_id error_code debug_data rest small v e = (
  framed FrameType.goaway 0 (8 + length debug_data) payload rest (omega arith) (omega arith) small v
      (e
        ∙ ap (λ n. (encode_header (on_connection FrameType.goaway 0 n) ++ payload) ++ rest)
            {x = length payload % 2 ^ 32} {y = 8 + length debug_data} (omega arith)),
  omega arith,
)
  where
    payload : List ℕ
    payload = octets31 last_stream_id ++ (octets32 error_code ++ debug_data)

-- The header in front of an encoded PING frame announces a PING frame of stream 0 with eight
-- octets, flagged as an acknowledgement exactly if it is one.
pub encode_ping-announces :
    {s : BufferSequence} (opaque_data : ℕ) (ack : Bool) (rest : List ℕ)
    → IsSequence s
    → bytes s ≡ encode_ping opaque_data ack ++ rest
    → decode_header s
      ≡ ok (some (on_connection FrameType.ping (if ack then FrameFlags.ack else 0) 8))
unfolding encode_ping ping_payload encode_header
encode_ping-announces opaque_data ack rest v e =
    framed FrameType.ping (if ack then FrameFlags.ack else 0) 8 (ping_payload opaque_data) rest
      (omega arith) (ground arith) (omega arith) v e
