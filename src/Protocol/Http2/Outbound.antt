-- ===== src/Protocol/Http2/Outbound.antt =====
-- src/protocol/http2/http2_outbound.cpp, H2OutboundScheduler: responses become frames as far as the
-- send windows of the peer allow. An operation returns the frames that it hands to the sender, in
-- order; a method that throws returns a Result. The windows are integers: Outbound.Windows keeps them
-- within 32 bits. The map of the streams is a list of pairs, in the order of its iteration.
pub mod Streams
pub mod Flush
pub mod Responses
pub mod Blocks
pub mod Windows
pub mod Invariant
pub mod Settings
pub mod Submit
pub mod Steps
pub mod Unanswered
mod Tests
use iocp_http_runtime.Prelude.{
  ℕ, zero, suc, ◌+◌, ◌%◌, ◌/◌, ◌^◌, min, List, [], ◌∷◌, ◌++◌, Bool, true, false, not, ◌&&◌, ◌||◌,
  ◌==◌, if◌then◌else◌, ltb, leb, length, take, drop, Option, none, some, Result, ok, throws,
  invalid_argument, ◌>>=◌, add_size, sub_size, ℤ, pos, pos_part, ◌+ℤ◌, ◌-ℤ◌, bit_or,
}
use iocp_http_runtime.Protocol.Http2.Outbound.Streams.{find, erase, assign}
use iocp_http_runtime.Protocol.Http2.Frames.{FrameHeader, encode_header}
use iocp_http_runtime.Protocol.Http2.Frames.FrameType
use iocp_http_runtime.Protocol.Http2.Frames.FrameFlags
use iocp_http_runtime.Protocol.Http2.Hpack.{HttpHeader, Huffman, encode, same_string}
use iocp_http_runtime.Protocol.Http2.Hpack.Table.{HpackCodec, set_dynamic_table_size}

abbrev pub maximum_window : ℕ
maximum_window = 0x7fffffff

pub record StreamOutput : Type 0 where
  pub window : ℤ
  pub body : List ℕ
  pub offset : ℕ
  pub response_submitted : Bool

pub record H2OutboundScheduler : Type 0 where
  pub closed : Bool
  pub connection_window : ℤ
  pub initial_window_size : ℕ
  pub maximum_frame_size : ℕ
  pub maximum_encoder_table_size : ℕ
  pub encoder : HpackCodec
  pub streams : List (ℕ × StreamOutput)

abbrev pub is_positive : ℤ → Bool
is_positive a = ltb 0 (pos_part a)

-- `window > kMaximumWindow`.
abbrev pub is_beyond : ℤ → Bool
is_beyond a = ltb maximum_window (pos_part a)

abbrev pub refuses_sizes : ℕ → ℕ → Bool
refuses_sizes initial_window_size maximum_frame_size =
    ltb maximum_window initial_window_size
    || (ltb maximum_frame_size 16384 || ltb 16777215 maximum_frame_size)

abbrev pub new_scheduler : ℕ → ℕ → HpackCodec → H2OutboundScheduler
new_scheduler initial_window_size maximum_frame_size encoder = record {
  closed = false;
  connection_window = pos 65535;
  initial_window_size = initial_window_size;
  maximum_frame_size = maximum_frame_size;
  maximum_encoder_table_size = encoder.maximum_dynamic_table_size;
  encoder = encoder;
  streams = [];
}

-- `encoder` is the codec made from the HPACK options; `frame_sender` tells whether there is one.
unfoldable pub init : Bool → ℕ → ℕ → HpackCodec → Result H2OutboundScheduler
init frame_sender initial_window_size maximum_frame_size encoder =
    if not frame_sender || refuses_sizes initial_window_size maximum_frame_size
    then throws invalid_argument
    else ok (new_scheduler initial_window_size maximum_frame_size encoder)

unfoldable pub open_stream : H2OutboundScheduler → ℕ → H2OutboundScheduler
open_stream s stream_id = if s.closed then s else elim (find stream_id s.streams) [
  | some stream ↦ s
  | none ↦ record s {
    streams =
        (
          stream_id,
          record {
            window = pos s.initial_window_size;
            body = [];
            offset = 0;
            response_submitted = false;
          },
        )
        ∷ s.streams;
  }
]

unfoldable pub close_stream : H2OutboundScheduler → ℕ → H2OutboundScheduler
close_stream s stream_id = record s { streams = erase stream_id s.streams }

unfoldable pub close : H2OutboundScheduler → H2OutboundScheduler
close s = record s { closed = true; streams = [] }

-- A frame with a header and a part of what it carries.
abbrev pub make_frame : ℕ → ℕ → ℕ → List ℕ → List ℕ
make_frame type flags stream_id payload =
    encode_header (record {
      length = length payload % 2 ^ 32;
      type = type;
      flags = flags;
      stream_id = stream_id;
    })
    ++ payload

-- How many octets a round of `FlushStreamLocked` sends. Where it sends, the four numbers are positive.
abbrev pub flush_bytes : ℕ → StreamOutput → ℤ → ℕ
flush_bytes maximum_frame_size stream connection_window =
    min
      (min (min (sub_size (length stream.body) stream.offset) (pos_part stream.window))
        (pos_part connection_window))
      maximum_frame_size

abbrev pub advance : StreamOutput → ℕ → StreamOutput
advance stream bytes = record stream {
  offset = add_size stream.offset bytes;
  window = stream.window -ℤ pos bytes;
}

-- The loop of `FlushStreamLocked`: the stream, the connection window and the frames.
unfoldable pub flush_loop : ℕ → ℕ → ℕ → StreamOutput → ℤ → StreamOutput × ℤ × List (List ℕ)
flush_loop zero stream_id maximum_frame_size stream connection_window =
    (stream, connection_window, [])
flush_loop (suc fuel) stream_id maximum_frame_size stream connection_window =
    let bytes = flush_bytes maximum_frame_size stream connection_window in
    let frame =
      make_frame FrameType.data_frame
        (if add_size stream.offset bytes == length stream.body then FrameFlags.end_stream else 0)
        stream_id (take bytes (drop stream.offset stream.body)) in
    let rest =
      flush_loop fuel stream_id maximum_frame_size (advance stream bytes)
        (connection_window -ℤ pos bytes) in
    if ltb stream.offset (length stream.body)
      && (is_positive stream.window && is_positive connection_window)
    then (rest.0, rest.1, frame ∷ rest.2)
    else (stream, connection_window, [])

-- `FlushStreamLocked`: each round sends an octet at least.
unfoldable pub flush_stream : ℕ → ℕ → StreamOutput → ℤ → StreamOutput × ℤ × List (List ℕ)
flush_stream stream_id maximum_frame_size stream connection_window =
    flush_loop (length stream.body) stream_id maximum_frame_size stream connection_window

abbrev pub is_done : StreamOutput → Bool
is_done stream = stream.offset == length stream.body

-- `FlushAllLocked`: a stream that is done leaves the map.
unfoldable pub flush_all :
    ℕ → List (ℕ × StreamOutput) → ℤ → List (ℕ × StreamOutput) × ℤ × List (List ℕ)
flush_all maximum_frame_size [] connection_window = ([], connection_window, [])
flush_all maximum_frame_size ((stream_id, stream) ∷ streams) connection_window =
    let flushed = flush_stream stream_id maximum_frame_size stream connection_window in
    let rest = flush_all maximum_frame_size streams flushed.1 in
    let others = flush_all maximum_frame_size streams connection_window in
    if stream.response_submitted
    then if is_done flushed.0
      then (rest.0, rest.1, flushed.2 ++ rest.2)
      else ((stream_id, flushed.0) ∷ rest.0, rest.1, flushed.2 ++ rest.2)
    else ((stream_id, stream) ∷ others.0, others.1, others.2)

-- Where `FlushStreamLocked` was called on a stream of the map: it is erased if it is done.
unfoldable pub flush_one :
    H2OutboundScheduler → ℕ → StreamOutput → H2OutboundScheduler × List (List ℕ)
flush_one s stream_id stream =
    let flushed = flush_stream stream_id s.maximum_frame_size stream s.connection_window in
    (
      record s {
        connection_window = flushed.1;
        streams =
            if is_done flushed.0
            then erase stream_id s.streams
            else assign stream_id flushed.0 s.streams;
      },
      flushed.2,
    )

unfoldable pub update_connection_window :
    H2OutboundScheduler → ℕ → Bool × List (List ℕ) × H2OutboundScheduler
update_connection_window s increment =
    if s.closed || (increment == 0 || is_beyond (s.connection_window +ℤ pos increment))
    then (false, [], s)
    else (let flushed =
          flush_all s.maximum_frame_size s.streams (s.connection_window +ℤ pos increment) in
        (true, flushed.2, record s { streams = flushed.0; connection_window = flushed.1 }))

unfoldable pub update_stream_window :
    H2OutboundScheduler → ℕ → ℕ → Bool × List (List ℕ) × H2OutboundScheduler
update_stream_window s stream_id increment = elim (find stream_id s.streams) [
  | none ↦ (false, [], s)
  | some stream ↦
      if s.closed || (increment == 0 || is_beyond (stream.window +ℤ pos increment))
      then (false, [], s)
      else (let flushed =
            flush_one s stream_id (record stream { window = stream.window +ℤ pos increment }) in
          (true, flushed.1, flushed.0))
]

-- The two loops of `ApplyPeerSettings` over the streams.
unfoldable pub overflows : ℤ → List (ℕ × StreamOutput) → Bool
overflows delta [] = false
overflows delta ((stream_id, stream) ∷ streams) =
    let rest = overflows delta streams in is_beyond (stream.window +ℤ delta) || rest

unfoldable pub shift_windows : ℤ → List (ℕ × StreamOutput) → List (ℕ × StreamOutput)
shift_windows delta [] = []
shift_windows delta ((stream_id, stream) ∷ streams) =
    (stream_id, record stream { window = stream.window +ℤ delta }) ∷ shift_windows delta streams

-- `ApplyPeerSettings` behind its guards.
abbrev pub take_settings :
    H2OutboundScheduler → ℕ → ℕ → HpackCodec → Bool × List (List ℕ) × H2OutboundScheduler
take_settings s initial_window_size maximum_frame_size encoder =
    let delta = pos initial_window_size -ℤ pos s.initial_window_size in
    let flushed =
      flush_all maximum_frame_size (shift_windows delta s.streams) s.connection_window in
    (
      true,
      flushed.2,
      record s {
        initial_window_size = initial_window_size;
        maximum_frame_size = maximum_frame_size;
        encoder = encoder;
        streams = flushed.0;
        connection_window = flushed.1;
      },
    )

unfoldable pub apply_peer_settings :
    H2OutboundScheduler → ℕ → ℕ → ℕ → Result (Bool × List (List ℕ) × H2OutboundScheduler)
apply_peer_settings s initial_window_size maximum_frame_size header_table_size =
    if refuses_sizes initial_window_size maximum_frame_size
      || (s.closed || overflows (pos initial_window_size -ℤ pos s.initial_window_size) s.streams)
    then ok (false, [], s)
    else (set_dynamic_table_size s.encoder (min header_table_size s.maximum_encoder_table_size)
        >>= (λ encoder. ok (take_settings s initial_window_size maximum_frame_size encoder)))
