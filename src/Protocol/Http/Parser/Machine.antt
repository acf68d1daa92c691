-- ===== src/Protocol/Http/Parser/Machine.antt =====
-- src/protocol/http/http_request_parser.cpp, `Parse`: one turn of its loop for each state, and the loop.
use iocp_http_runtime.Prelude.{
  ℕ, zero, suc, ◌-◌, ◌^◌, List, [], ◌++◌, Bool, true, false, not, ◌&&◌, ◌||◌, ◌==◌, if◌then◌else◌,
  ltb, leb, length, Option, none, some, Result, ok, ◌>>=◌, add_size, sub_size,
}
use iocp_http_runtime.Buffer.Sequence.{BufferSequence, copy_to}
use iocp_http_runtime.Protocol.Http.Sizes.{parse_hex_size}
use iocp_http_runtime.Protocol.Http.Parser.{
  HttpParseStatus, HttpParseError, State, HttpParseResult, HttpRequestParser, LineResult,
  empty_request, reset, fail, read_line,
}
use iocp_http_runtime.Protocol.Http.Parser.Text.{skip_chunk_extension}
use iocp_http_runtime.Protocol.Http.Parser.Headers.{
  is_nil, parse_request_line, parse_header_line, finalize_headers,
}

-- A turn of the loop goes on, or returns.
pub data Turn : Type 0 where
  again : HttpRequestParser → Turn
  answer : HttpParseResult → HttpRequestParser → Turn

abbrev pub empty_result : HttpParseResult
empty_result = record {
  status = HttpParseStatus.incomplete;
  error = HttpParseError.no_error;
  consumed_bytes = 0;
  request = empty_request;
  expect_continue = false;
}

-- The error that the parser has come to.
abbrev pub failed : HttpRequestParser → Turn
failed p = answer (record empty_result { status = HttpParseStatus.error; error = p.last_error }) p

abbrev pub failure : HttpRequestParser → HttpParseError → Turn
failure p reason = failed (fail p reason)

unfoldable pub complete_body : HttpRequestParser → BufferSequence → Result (List ℕ)
complete_body p input =
    if not (p.content_length == 0) && not p.has_chunked
    then copy_to input p.body_offset p.content_length
    else ok p.request.body

unfoldable pub complete : HttpRequestParser → BufferSequence → Result Turn
unfolding complete_body
complete p input = complete_body p input >>= (λ body. ok (
    answer
      (record empty_result {
        status = HttpParseStatus.complete;
        consumed_bytes =
            if p.has_chunked then p.scan_offset else add_size p.body_offset p.content_length;
        request = record p.request { body = body };
      })
      (reset p)))

unfoldable pub request_line_turn : HttpRequestParser → LineResult → Turn
request_line_turn p LineResult.incomplete = answer empty_result p
request_line_turn p LineResult.limit_exceeded = failure p HttpParseError.request_line_too_large
request_line_turn p LineResult.error = failure p HttpParseError.invalid_line_ending
request_line_turn p (LineResult.complete line) =
    let parsed = parse_request_line p line in
    if parsed.0 then again (record parsed.1 { state = State.headers }) else failed parsed.1

-- Behind `FinalizeHeaders`, with the offset of the body.
unfoldable pub body_turn : HttpRequestParser → BufferSequence → Result Turn
unfolding complete
body_turn p input =
    if p.expect_continue && not p.expect_continue_sent
    then (let told = record p { expect_continue_sent = true } in
        let told_result = record empty_result {
          status = HttpParseStatus.headers_complete;
          consumed_bytes = p.scan_offset;
          expect_continue = true;
        } in
        if p.has_chunked
        then ok (answer told_result (record told { state = State.chunk_head }))
        else if p.content_length == 0
        then complete told input
        else ok (answer told_result (record told { state = State.body })))
    else if p.has_chunked
    then ok (again (record p { state = State.chunk_head }))
    else if p.content_length == 0
    then complete p input
    else ok (again (record p { state = State.body }))

unfoldable pub header_line_turn : HttpRequestParser → List ℕ → Turn
header_line_turn p line =
    let parsed = parse_header_line p line in
    if leb p.options.maximum_header_count (length p.request.headers)
    then failure p HttpParseError.too_many_headers
    else if parsed.0
    then again parsed.1
    else failed parsed.1

unfoldable pub end_of_headers_turn : HttpRequestParser → BufferSequence → Result Turn
unfolding body_turn
end_of_headers_turn p input =
    let final = finalize_headers p in
    if final.0
    then body_turn (record final.1 { body_offset = final.1.scan_offset }) input
    else ok (failed final.1)

unfoldable pub headers_turn : HttpRequestParser → BufferSequence → LineResult → Result Turn
unfolding header_line_turn end_of_headers_turn
headers_turn p input LineResult.incomplete = ok (answer empty_result p)
headers_turn p input LineResult.limit_exceeded = ok (failure p HttpParseError.header_too_large)
headers_turn p input LineResult.error = ok (failure p HttpParseError.invalid_line_ending)
headers_turn p input (LineResult.complete line) =
    let wire_line_bytes = add_size (length line) 2 in
    let counted = record p { header_bytes = add_size p.header_bytes wire_line_bytes } in
    if ltb (sub_size p.options.maximum_header_bytes p.header_bytes) wire_line_bytes
    then ok (failure p HttpParseError.header_too_large)
    else if is_nil line
    then end_of_headers_turn counted input
    else ok (header_line_turn counted line)

abbrev pub sized_turn : HttpRequestParser → Option ℕ → Turn
sized_turn p none = failure p HttpParseError.invalid_content_length
sized_turn p (some size) = again (record p {
  chunk_size = size;
  chunk_body_offset = p.scan_offset;
  state = if size == 0 then State.chunk_trailer else State.chunk_body;
})

unfoldable pub chunk_size_turn : HttpRequestParser → List ℕ → Turn
chunk_size_turn p line = sized_turn p (parse_hex_size (skip_chunk_extension line))

-- A line above the limit has an empty value.
unfoldable pub chunk_head_turn : HttpRequestParser → LineResult → Turn
unfolding chunk_size_turn
chunk_head_turn p LineResult.incomplete = answer empty_result p
chunk_head_turn p LineResult.error = failure p HttpParseError.invalid_line_ending
chunk_head_turn p LineResult.limit_exceeded = chunk_size_turn p []
chunk_head_turn p (LineResult.complete line) = chunk_size_turn p line

-- The body is resized to hold the chunk, which `CopyTo` writes behind what is there.
unfoldable pub chunk_body_turn : HttpRequestParser → BufferSequence → Result Turn
chunk_body_turn p input =
    let chunk_end = add_size (add_size p.chunk_body_offset p.chunk_size) 2 in
    if ltb input.size chunk_end
    then ok (answer empty_result p)
    else if ltb p.options.maximum_body_bytes (add_size (length p.request.body) p.chunk_size)
    then ok (failure p HttpParseError.body_too_large)
    else (copy_to input p.chunk_body_offset p.chunk_size >>= (λ chunk. ok (
        again (record p {
          request = record p.request { body = p.request.body ++ chunk };
          scan_offset = chunk_end;
          line_start = chunk_end;
          state = State.chunk_head;
        }))))

unfoldable pub chunk_trailer_turn : HttpRequestParser → LineResult → Turn
chunk_trailer_turn p LineResult.incomplete = answer empty_result p
chunk_trailer_turn p LineResult.error = failure p HttpParseError.invalid_line_ending
chunk_trailer_turn p LineResult.limit_exceeded = again (record p { state = State.chunk_end })
chunk_trailer_turn p (LineResult.complete line) =
    if is_nil line then again (record p { state = State.chunk_end }) else again p

-- The state `failed` has no turn: the loop would go on for ever.
unfoldable pub turn : State → HttpRequestParser → BufferSequence → Result Turn
unfolding request_line_turn headers_turn chunk_head_turn chunk_body_turn chunk_trailer_turn complete
turn State.request_line p input =
    read_line p input p.options.maximum_request_line_bytes >>= (λ r. ok (request_line_turn r.1 r.0))
turn State.headers p input =
    read_line p input (
      if leb p.options.maximum_header_bytes p.header_bytes
      then 0
      else p.options.maximum_header_bytes - p.header_bytes)
    >>= (λ r. headers_turn r.1 input r.0)
turn State.body p input =
    if ltb (2 ^ 64 - 1 - p.content_length) p.body_offset
    then ok (failure p HttpParseError.body_too_large)
    else if ltb input.size (add_size p.body_offset p.content_length)
    then ok (answer empty_result p)
    else complete p input
turn State.chunk_head p input = read_line p input 256 >>= (λ r. ok (chunk_head_turn r.1 r.0))
turn State.chunk_body p input = chunk_body_turn p input
turn State.chunk_trailer p input =
    read_line p input p.options.maximum_header_bytes >>= (λ r. ok (chunk_trailer_turn r.1 r.0))
turn State.chunk_end p input = complete p input
turn State.failed p input = ok (again p)

-- The loop; `none` where the fuel does not suffice.
unfoldable pub parse_loop :
    ℕ → HttpRequestParser → BufferSequence → Result (Option (HttpParseResult × HttpRequestParser))
parse_loop zero p input = ok none
parse_loop (suc fuel) p input = turn p.state p input >>= (λ t. elim t [
  | again p' ↦ parse_loop fuel p' input
  | answer result p' ↦ ok (some (result, p'))
])

abbrev pub is_failed : State → Bool
is_failed State.request_line = false
is_failed State.headers = false
is_failed State.body = false
is_failed State.chunk_head = false
is_failed State.chunk_body = false
is_failed State.chunk_trailer = false
is_failed State.chunk_end = false
is_failed State.failed = true

unfoldable pub parse :
    ℕ → HttpRequestParser → BufferSequence → Result (Option (HttpParseResult × HttpRequestParser))
unfolding parse_loop
parse fuel p input =
    let refused = fail p HttpParseError.invalid_request_line in
    if is_failed p.state
    then ok (some (record empty_result { status = HttpParseStatus.error; error = p.last_error }, p))
    else if ltb input.size p.scan_offset || ltb input.size p.line_start
    then ok (
        some (
          record empty_result { status = HttpParseStatus.error; error = refused.last_error },
          refused,
        ))
    else parse_loop fuel p input
