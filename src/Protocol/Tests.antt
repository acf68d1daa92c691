-- ===== src/Protocol/Tests.antt =====
-- The codecs' theorems at inputs that meet their hypotheses.
use iocp_http_runtime.Prelude.{
  ℕ, ◌≡◌, ◌≢◌, ◌≤◌, refl, List, [], ◌∷◌, ◌++◌, arith, length, take, some, none, throws,
  runtime_error, ◌⊎◌, ◌<◌, ◌*◌, ◌^◌, ok, true,
}
use iocp_http_runtime.Buffer.Sequence.{BufferSequence}
use iocp_http_runtime.Buffer.Sequence.Read.{IsSequence, bytes}
use iocp_http_runtime.Protocol.Sample.Codec.{is_incomplete, decode, encode}
use iocp_http_runtime.Protocol.Sample.Codec.Decode.{frame_of, decode_refines}
use iocp_http_runtime.Protocol.Sample.Codec.RoundTrip.{
  frame, decoded, decode-encode, decode-prefix, encode-decode,
}
use iocp_http_runtime.Protocol.Http2.Frames.{
  FrameHeader, decode_header, encode_header, encode_settings, encode_setting, settings_payload,
  encode_goaway, encode_ping, ping_payload,
}
use iocp_http_runtime.Protocol.Http2.Frames.FrameType
use iocp_http_runtime.Protocol.Http2.Hpack.StaticTable.{TableEntry}
use iocp_http_runtime.Protocol.Http2.Hpack.Integers.{read_decoded_integer, encode_integer}
use iocp_http_runtime.Protocol.Http2.Hpack
use iocp_http_runtime.Protocol.Http.Sizes.{parse_decimal_size, parse_hex_size}
use iocp_http_runtime.Protocol.Http.Sizes.Exact.{parse_decimal_size-exact, parse_hex_size-exact}
use iocp_http_runtime.Protocol.Http2.Hpack.Lossless.{Coded, coder-lossless}
use iocp_http_runtime.Protocol.Http2.Hpack.Coder.{
  coder, encode_text, emit, shift_right, low_bits, walk, decode_octets, build_tree,
}
use iocp_http_runtime.Protocol.Http2.Hpack.Field.{Synced}
use iocp_http_runtime.Protocol.Http2.Hpack.Block.{decode-encode_block}
use iocp_http_runtime.Protocol.Http2.Hpack.RoundTrip.{read-encode_integer}
use iocp_http_runtime.Protocol.Http2.Hpack.Table.{
  HpackCodec, add_dynamic_entry, set_dynamic_table_size,
}
use iocp_http_runtime.Protocol.Http2.Hpack.Evict.{
  IsValid, trimmed, add_dynamic_entry-newest, set_dynamic_table_size-newest,
}
use iocp_http_runtime.Protocol.Http2.Frames.Payloads.{on_connection, encode_settings-announces}
use iocp_http_runtime.Protocol.Http2.Frames.Header.{
  FitsWire, decode-encode_header, decode-encode_header_lossy,
}

-- A frame of id 7 and payload 1 2, over two spans, with a byte of the next frame behind it.
abbrev first_span : List ℕ
first_span = 0 ∷ 0 ∷ 0 ∷ []

abbrev second_span : List ℕ
second_span = 4 ∷ 0 ∷ 7 ∷ 1 ∷ 2 ∷ 9 ∷ []

abbrev received : BufferSequence
received = record { first = first_span; second = second_span; segment_count = 2; size = 9 }

received-IsSequence : IsSequence received
received-IsSequence = record { sized = refl; flat_segments = refl }

decode_refines_example : decode 10 received ≡ ok (decoded 7 (1 ∷ 2 ∷ []))
unfolding frame_of
decode_refines_example = decode_refines 10 received-IsSequence (omega arith)

decode-encode_example :
    (encode 10 7 (1 ∷ 2 ∷ []) ≡ ok (frame 7 (1 ∷ 2 ∷ [])))
    × (decode 10 received ≡ ok (decoded 7 (1 ∷ 2 ∷ [])))
decode-encode_example =
    decode-encode 10 7 (1 ∷ 2 ∷ []) (9 ∷ []) (omega arith) (omega arith) (omega arith)
      received-IsSequence (omega arith) refl

abbrev partial : BufferSequence
partial = record { first = first_span; second = 4 ∷ 0 ∷ 7 ∷ []; segment_count = 2; size = 6 }

partial-IsSequence : IsSequence partial
partial-IsSequence = record { sized = refl; flat_segments = refl }

decode-prefix_example : decode 10 partial ≡ ok is_incomplete
decode-prefix_example =
    decode-prefix 10 7 (1 ∷ 2 ∷ []) 6 (omega arith) (omega arith) (omega arith) partial-IsSequence
      (omega arith) refl

encode-decode_example : (8 ≤ 9) × (encode 10 7 (1 ∷ 2 ∷ []) ≡ ok (take 8 (bytes received)))
encode-decode_example =
    encode-decode 10 received-IsSequence (omega arith) decode_refines_example refl

-- A HEADERS frame of stream 3, and one of stream 65537.
abbrev near : FrameHeader
near = record { length = 5; type = 1; flags = 4; stream_id = 3 }

abbrev far : FrameHeader
far = record near { stream_id = 65537 }

abbrev near_wire : List ℕ
near_wire = 0 ∷ 0 ∷ 5 ∷ 1 ∷ 4 ∷ 0 ∷ 0 ∷ 0 ∷ 3 ∷ []

abbrev far_wire : List ℕ
far_wire = 0 ∷ 0 ∷ 5 ∷ 1 ∷ 4 ∷ 0 ∷ 1 ∷ 0 ∷ 1 ∷ []

abbrev near_input : BufferSequence
near_input = record { first = near_wire; second = []; segment_count = 1; size = 9 }

near_input-IsSequence : IsSequence near_input
near_input-IsSequence = record { sized = refl; flat_segments = refl }

abbrev far_input : BufferSequence
far_input = record { first = far_wire; second = []; segment_count = 1; size = 9 }

far_input-IsSequence : IsSequence far_input
far_input-IsSequence = record { sized = refl; flat_segments = refl }

near-FitsWire : FitsWire near
near-FitsWire = record {
  length_fits = omega arith;
  type_fits = omega arith;
  flags_fit = omega arith;
  stream_id_fits = omega arith;
}

far-FitsWire : FitsWire far
far-FitsWire = record {
  length_fits = omega arith;
  type_fits = omega arith;
  flags_fit = omega arith;
  stream_id_fits = omega arith;
}

near-encoded : near_wire ≡ encode_header near ++ []
unfolding encode_header
near-encoded = refl

far-encoded : far_wire ≡ encode_header far ++ []
unfolding encode_header
far-encoded = refl

decode-encode_header_example : decode_header near_input ≡ ok (some near)
decode-encode_header_example =
    decode-encode_header near [] near-FitsWire (omega arith) near_input-IsSequence near-encoded

decode-encode_header_lossy_example : decode_header far_input ≢ ok (some far)
decode-encode_header_lossy_example =
    decode-encode_header_lossy far [] far-FitsWire (omega arith) far_input-IsSequence far-encoded

abbrev settings_wire : List ℕ
settings_wire = 0 ∷ 0 ∷ 6 ∷ 4 ∷ 0 ∷ 0 ∷ 0 ∷ 0 ∷ 0 ∷ 0 ∷ 4 ∷ 0 ∷ 0 ∷ 1 ∷ 0 ∷ []

abbrev settings_input : BufferSequence
settings_input = record { first = settings_wire; second = []; segment_count = 1; size = 15 }

settings_input-IsSequence : IsSequence settings_input
settings_input-IsSequence = record { sized = refl; flat_segments = refl }

abbrev window_setting : List (ℕ × ℕ)
window_setting = (4, 256) ∷ []

settings-encoded : settings_wire ≡ encode_settings window_setting ++ []
unfolding encode_settings encode_header settings_payload encode_setting
settings-encoded = refl

encode_settings-announces_example :
    (decode_header settings_input ≡ ok (some (on_connection FrameType.settings 0 6)))
    × (length (encode_settings window_setting) ≡ 15)
encode_settings-announces_example =
    encode_settings-announces window_setting [] (omega arith) settings_input-IsSequence
      settings-encoded

abbrev goaway_wire : List ℕ
goaway_wire = 0 ∷ 0 ∷ 9 ∷ 7 ∷ 0 ∷ 0 ∷ 0 ∷ 0 ∷ 0 ∷ 0 ∷ 0 ∷ 0 ∷ 3 ∷ 0 ∷ 0 ∷ 0 ∷ 1 ∷ 65 ∷ []

abbrev goaway_input : BufferSequence
goaway_input = record { first = goaway_wire; second = []; segment_count = 1; size = 18 }

goaway_input-IsSequence : IsSequence goaway_input
goaway_input-IsSequence = record { sized = refl; flat_segments = refl }

goaway-encoded : goaway_wire ≡ encode_goaway 3 1 (65 ∷ []) ++ []
unfolding encode_goaway encode_header
goaway-encoded = refl

abbrev ping_wire : List ℕ
ping_wire = 0 ∷ 0 ∷ 8 ∷ 6 ∷ 1 ∷ 0 ∷ 0 ∷ 0 ∷ 0 ∷ 0 ∷ 0 ∷ 0 ∷ 0 ∷ 0 ∷ 0 ∷ 0 ∷ 7 ∷ []

abbrev ping_input : BufferSequence
ping_input = record { first = ping_wire; second = []; segment_count = 1; size = 17 }

ping_input-IsSequence : IsSequence ping_input
ping_input-IsSequence = record { sized = refl; flat_segments = refl }

ping-encoded : ping_wire ≡ encode_ping 7 true ++ []
unfolding encode_ping ping_payload encode_header
ping-encoded = refl

read-encode_integer_example :
    read_decoded_integer (encode_integer (1 * 2 ^ 5) 1337 5 ++ 9 ∷ []) 5 ≡ ok (1337, 9 ∷ [])
read-encode_integer_example = read-encode_integer 5 1 1337 (9 ∷ []) (omega arith) (omega arith)

-- A table of two entries, 69 octets of 70.
abbrev codec_of_two : HpackCodec
codec_of_two = record {
  dynamic_table =
      record { name = 97 ∷ []; value = 98 ∷ 99 ∷ [] }
      ∷ record { name = 100 ∷ []; value = 101 ∷ [] }
      ∷ [];
  dynamic_table_size = 69;
  current_dynamic_table_limit = 70;
  pending_table_size_update = none;
  maximum_dynamic_table_size = 100;
  maximum_header_list_size = 200;
}

codec_of_two-IsValid : IsValid codec_of_two
codec_of_two-IsValid = record {
  accounted = refl;
  within = omega arith;
  configured = omega arith;
  addressable = omega arith;
}

abbrev new_entry : TableEntry
new_entry = record { name = 102 ∷ []; value = 103 ∷ [] }

add_dynamic_entry-newest_example :
    (add_dynamic_entry codec_of_two new_entry ≡ record codec_of_two {
      dynamic_table = new_entry ∷ record { name = 97 ∷ []; value = 98 ∷ 99 ∷ [] } ∷ [];
      dynamic_table_size = 69;
    })
    × IsValid (add_dynamic_entry codec_of_two new_entry)
add_dynamic_entry-newest_example =
    add_dynamic_entry-newest new_entry codec_of_two-IsValid (omega arith)

set_dynamic_table_size-newest_example :
    ((100 < 40) × (set_dynamic_table_size codec_of_two 40 ≡ throws runtime_error))
    ⊎ ((40 ≤ 100)
        × (codec' : HpackCodec) × (set_dynamic_table_size codec_of_two 40 ≡ ok codec')
        × (codec'
            ≡ trimmed
                (record codec_of_two {
                  current_dynamic_table_limit = 40;
                  pending_table_size_update = some 40;
                })
                codec_of_two.dynamic_table)
        × IsValid codec')
set_dynamic_table_size-newest_example = set_dynamic_table_size-newest 40 codec_of_two-IsValid

codecs-Synced : Synced codec_of_two codec_of_two
codecs-Synced = record {
  same_table = refl;
  same_limit = refl;
  codec_valid = codec_of_two-IsValid;
  peer_valid = codec_of_two-IsValid;
}

new_entry-Coded :
    Coded new_entry.name
    × Coded new_entry.value
    × (length (coder.encode new_entry.name) < 2 ^ 32)
    × (length (coder.encode new_entry.value) < 2 ^ 32)
unfolding encode_text emit shift_right
new_entry-Coded = (omega arith, omega arith, omega arith, omega arith)

-- The header is written as a literal first, and by its index in the dynamic table then.
decode-encode_block_example :
    let out = Hpack.encode coder codec_of_two (new_entry ∷ new_entry ∷ []) in
    (peer' : HpackCodec) × (Hpack.decode coder codec_of_two out.0
      ≡ ok (new_entry ∷ new_entry ∷ [], peer'))
    × Synced out.1 peer'
    × (peer'.maximum_header_list_size ≡ 200)
decode-encode_block_example =
    decode-encode_block (new_entry ∷ new_entry ∷ []) codecs-Synced refl
      (new_entry-Coded, (new_entry-Coded, tt)) (omega arith) (omega arith)

-- The text of f, ~ and octet 255.
coder-lossless_example :
    coder.decode (coder.encode (102 ∷ 126 ∷ 255 ∷ [])) ≡ some (102 ∷ 126 ∷ 255 ∷ [])
coder-lossless_example = coder-lossless (102 ∷ 126 ∷ 255 ∷ []) (omega arith)

-- The code of octet 220 begins with that of the octet 49.
octet_220_is_lost : coder.decode (coder.encode (220 ∷ [])) ≡ some (49 ∷ 204 ∷ [])
unfolding encode_text emit shift_right low_bits walk decode_octets build_tree
octet_220_is_lost = refl

-- The texts 4096 and 1fF.
parse_decimal_size-exact_example : parse_decimal_size (52 ∷ 48 ∷ 57 ∷ 54 ∷ []) ≡ some 4096
parse_decimal_size-exact_example = parse_decimal_size-exact (52 ∷ 48 ∷ 57 ∷ 54 ∷ [])

parse_hex_size-exact_example : parse_hex_size (49 ∷ 102 ∷ 70 ∷ []) ≡ some 511
parse_hex_size-exact_example = parse_hex_size-exact (49 ∷ 102 ∷ 70 ∷ [])
