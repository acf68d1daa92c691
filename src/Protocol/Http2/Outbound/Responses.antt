-- ===== src/Protocol/Http2/Outbound/Responses.antt =====
-- src/protocol/http2/http2_outbound.cpp: how a response becomes a header block, the block frames, and
-- the body queued data. `std::tolower` is that of the "C" locale.
use iocp_http_runtime.Prelude.{
  ℕ, zero, suc, ◌+◌, ◌%◌, ◌/◌, min, List, [], ◌∷◌, ◌++◌, Bool, true, false, not, ◌&&◌, ◌||◌, ◌==◌,
  if◌then◌else◌, ltb, leb, length, take, drop, map, none, some, add_size, sub_size, bit_or,
}
use iocp_http_runtime.Protocol.Http2.Frames.FrameType
use iocp_http_runtime.Protocol.Http2.Frames.FrameFlags
use iocp_http_runtime.Protocol.Http2.Hpack.{HttpHeader, Huffman, encode, same_string}
use iocp_http_runtime.Protocol.Http2.Hpack.Table.{HpackCodec}
use iocp_http_runtime.Protocol.Http2.Outbound.{
  StreamOutput, H2OutboundScheduler, make_frame, flush_one,
}
use iocp_http_runtime.Protocol.Http2.Outbound.Streams.{find, erase}

pub record HttpResponse : Type 0 where
  pub status_code : ℕ
  pub reason_phrase : List ℕ
  pub headers : List HttpHeader
  pub body : List ℕ
  pub close_connection : Bool

abbrev pub to_lower : ℕ → ℕ
to_lower c = if leb 65 c && leb c 90 then c + 32 else c

unfoldable pub lowercase : List ℕ → List ℕ
lowercase value = map to_lower value

-- "connection", "keep-alive", "proxy-connection", "transfer-encoding" and "upgrade".
abbrev connection_specific : List (List ℕ)
connection_specific =
    (99 ∷ 111 ∷ 110 ∷ 110 ∷ 101 ∷ 99 ∷ 116 ∷ 105 ∷ 111 ∷ 110 ∷ [])
    ∷ (107 ∷ 101 ∷ 101 ∷ 112 ∷ 45 ∷ 97 ∷ 108 ∷ 105 ∷ 118 ∷ 101 ∷ [])
    ∷ (112 ∷ 114 ∷ 111 ∷ 120 ∷ 121 ∷ 45 ∷ 99 ∷ 111 ∷ 110 ∷ 110 ∷ 101 ∷ 99 ∷ 116 ∷ 105 ∷ 111 ∷ 110
        ∷ [])
    ∷ (116 ∷ 114 ∷ 97 ∷ 110 ∷ 115 ∷ 102 ∷ 101 ∷ 114 ∷ 45 ∷ 101 ∷ 110 ∷ 99 ∷ 111 ∷ 100 ∷ 105 ∷ 110
        ∷ 103 ∷ [])
    ∷ (117 ∷ 112 ∷ 103 ∷ 114 ∷ 97 ∷ 100 ∷ 101 ∷ [])
    ∷ []

abbrev is_one_of : List ℕ → List (List ℕ) → Bool
is_one_of name [] = false
is_one_of name (other ∷ others) = same_string name other || is_one_of name others

unfoldable pub is_connection_specific : List ℕ → Bool
is_connection_specific name = is_one_of name connection_specific

-- Not empty, and no pseudo-header.
abbrev pub is_regular : List ℕ → Bool
is_regular [] = false
is_regular (c ∷ cs) = not (c == 58)

unfoldable pub regular_headers : List HttpHeader → List HttpHeader
regular_headers [] = []
regular_headers (header ∷ headers) =
    let name = lowercase header.name in
    let rest = regular_headers headers in
    if is_regular name && not (is_connection_specific name)
    then record header { name = name } ∷ rest
    else rest

-- `std::to_string`; five digits are enough for 16 bits.
unfoldable pub decimal : ℕ → ℕ → List ℕ
decimal zero n = []
decimal (suc fuel) n =
    let rest = decimal fuel (n / 10) in (if ltb n 10 then [] else rest) ++ (48 + n % 10) ∷ []

-- ":status" in front.
unfoldable pub response_headers : HttpResponse → List HttpHeader
unfolding decimal
response_headers response =
    record {
      name = 58 ∷ 115 ∷ 116 ∷ 97 ∷ 116 ∷ 117 ∷ 115 ∷ [];
      value = decimal 5 response.status_code;
    }
    ∷ regular_headers response.headers

-- The flags of a frame of a header block.
abbrev pub block_flags : Bool → Bool → ℕ
block_flags last end_stream =
    if last
    then if end_stream
      then bit_or FrameFlags.end_headers FrameFlags.end_stream
      else FrameFlags.end_headers
    else 0

abbrev pub block_bytes : ℕ → List ℕ → ℕ → ℕ
block_bytes maximum_frame_size block offset =
    min maximum_frame_size (sub_size (length block) offset)

-- The loop of `EncodeHeaderBlockLocked`, whose body runs once at least.
unfoldable pub block_loop : ℕ → ℕ → ℕ → Bool → List ℕ → ℕ → Bool → List (List ℕ)
block_loop zero stream_id maximum_frame_size end_stream block offset first = []
block_loop (suc fuel) stream_id maximum_frame_size end_stream block offset first =
    let bytes = block_bytes maximum_frame_size block offset in
    let next = add_size offset bytes in
    let rest = block_loop fuel stream_id maximum_frame_size end_stream block next false in
    make_frame (if first then FrameType.headers else FrameType.continuation)
      (block_flags (next == length block) end_stream) stream_id (take bytes (drop offset block))
    ∷ (if ltb next (length block) then rest else [])

-- The frames of a block that has been encoded. Each round but the last takes an octet at least.
unfoldable pub block_frames : ℕ → ℕ → Bool → List ℕ → List (List ℕ)
block_frames stream_id maximum_frame_size end_stream block =
    block_loop (suc (length block)) stream_id maximum_frame_size end_stream block 0 true

module _ (huffman : Huffman) where
  -- `EncodeHeaderBlockLocked`: the codec and the frames.
  unfoldable pub encode_header_block :
      ℕ → ℕ → HpackCodec → HttpResponse → Bool → HpackCodec × List (List ℕ)
  encode_header_block stream_id maximum_frame_size encoder response end_stream =
      let encoded = encode huffman encoder (response_headers response) in
      (encoded.1, block_frames stream_id maximum_frame_size end_stream encoded.0)

  -- `SubmitResponse` on a stream that waits for its response.
  unfoldable pub respond :
      H2OutboundScheduler → ℕ → StreamOutput → HttpResponse → H2OutboundScheduler × List (List ℕ)
  respond s stream_id stream response =
      let queued = record stream { response_submitted = true; body = response.body } in
      let block =
        encode_header_block stream_id s.maximum_frame_size s.encoder response
          (length response.body == 0) in
      let encoded = record s { encoder = block.0 } in
      let flushed = flush_one encoded stream_id queued in
      if length response.body == 0
      then (record encoded { streams = erase stream_id s.streams }, block.1)
      else (flushed.0, block.1 ++ flushed.1)

  unfoldable pub submit_response :
      H2OutboundScheduler → ℕ → HttpResponse → Bool × List (List ℕ) × H2OutboundScheduler
  submit_response s stream_id response = elim (find stream_id s.streams) [
    | none ↦ (false, [], s)
    | some stream ↦
        if s.closed || stream.response_submitted
        then (false, [], s)
        else (let done = respond s stream_id stream response in (true, done.1, done.0))
  ]
