-- ===== src/Protocol/Http/Parser/Tests.antt =====
-- Runs of the parser of src/protocol/http/http_request_parser.cpp at fixed inputs.
use iocp_http_runtime.Prelude.{
  ◌≡◌, ◌≢◌, refl, [], ◌∷◌, true, false, none, some, ok, throws, out_of_range, arith,
}
use iocp_http_runtime.Buffer.Sequence.{BufferSequence, at, copy_to}
use iocp_http_runtime.Buffer.Sequence.Read.{IsSequence}
use iocp_http_runtime.Protocol.Http.Parser.{
  HttpMethod, HttpRequestParser, HttpParserOptions, HttpParseStatus, HttpParseError, State,
  LineResult, empty_request, read_loop, read_line,
}
use iocp_http_runtime.Protocol.Http.Parser.Headers.{parse_request_line}
use iocp_http_runtime.Protocol.Http.Parser.Machine.{
  again, empty_result, turn, parse, parse_loop, complete, chunk_trailer_turn,
}
use iocp_http_runtime.Protocol.Http.Parser.Lines.{read_line_lem}
use iocp_http_runtime.Protocol.Http.Parser.Loop.{parse-ends}
use iocp_http_runtime.Protocol.Http.Parser.RequestLine.{parse_request_line_lem}
use iocp_http_runtime.Protocol.Http.Parser.Method.{known}

abbrev limits : HttpParserOptions
limits = record {
  maximum_request_line_bytes = 64;
  maximum_header_bytes = 4;
  maximum_header_count = 2;
  maximum_body_bytes = 8;
}

abbrev parser : HttpRequestParser
parser = record {
  options = limits;
  state = State.request_line;
  request = empty_request;
  line_start = 0;
  scan_offset = 0;
  header_bytes = 0;
  content_length = 0;
  body_offset = 0;
  chunk_size = 0;
  chunk_body_offset = 0;
  has_chunked = false;
  expect_continue = false;
  expect_continue_sent = false;
  last_error = HttpParseError.no_error;
}

-- "ab", CR, LF and "c", of which "a" was seen before.
abbrev arrived : BufferSequence
arrived = record { first = 97 ∷ 98 ∷ 13 ∷ 10 ∷ 99 ∷ []; second = []; segment_count = 1; size = 5 }

arrived-IsSequence : IsSequence arrived
arrived-IsSequence = record { sized = refl; flat_segments = refl }

read_line_lem_example :
    read_line (record parser { scan_offset = 1 }) arrived 2
    ≡ ok (LineResult.complete (97 ∷ 98 ∷ []), record parser { scan_offset = 4; line_start = 4 })
read_line_lem_example =
    read_line_lem (record parser { scan_offset = 1 }) [] (97 ∷ []) (98 ∷ []) (99 ∷ []) 2
      arrived-IsSequence refl refl refl (omega arith, omega arith, tt) (omega arith) (omega arith)

parse-ends_example : parse 7 parser arrived ≢ ok none
parse-ends_example = parse-ends 7 parser arrived (λ e. tt) (omega arith) (omega arith)

-- "GET /a?b HTTP/1.1".
parse_request_line_lem_example :
    parse_request_line parser
      (71 ∷ 69 ∷ 84 ∷ 32 ∷ 47 ∷ 97 ∷ 63 ∷ 98 ∷ 32 ∷ 72 ∷ 84 ∷ 84 ∷ 80 ∷ 47 ∷ 49 ∷ 46 ∷ 49 ∷ [])
    ≡ (
      true,
      record parser {
        request = record empty_request {
          method = HttpMethod.get;
          method_text = 71 ∷ 69 ∷ 84 ∷ [];
          target = 47 ∷ 97 ∷ 63 ∷ 98 ∷ [];
          path = 47 ∷ 97 ∷ [];
          query = 98 ∷ [];
        };
      },
    )
parse_request_line_lem_example =
    parse_request_line_lem parser 71 (69 ∷ 84 ∷ []) (97 ∷ []) (some (98 ∷ [])) (omega arith)
      (known (ground arith) refl) (omega arith) (omega arith)

-- The last chunk has been read, and a trailer line is above the limit: the request is complete, and
-- the trailer is left for the next one.
abbrev in_trailer : HttpRequestParser
in_trailer = record parser { state = State.chunk_trailer; has_chunked = true }

abbrev long_trailer : BufferSequence
long_trailer = record {
  first = 97 ∷ 58 ∷ 98 ∷ 98 ∷ 98 ∷ 98 ∷ 13 ∷ 10 ∷ [];
  second = [];
  segment_count = 1;
  size = 8;
}

long_trailer_completes :
    parse 4 in_trailer long_trailer
    ≡ ok (some (record empty_result { status = HttpParseStatus.complete }, parser))
unfolding parse parse_loop turn read_line read_loop chunk_trailer_turn complete at
long_trailer_completes = refl

-- A chunk of two octets that no CR and LF follow is taken all the same.
abbrev in_chunk : HttpRequestParser
in_chunk = record parser { state = State.chunk_body; has_chunked = true; chunk_size = 2 }

no_line_ending_needed :
    turn State.chunk_body in_chunk
      (record { first = 1 ∷ 2 ∷ 3 ∷ 4 ∷ []; second = []; segment_count = 1; size = 4 })
    ≡ ok (
        again (record in_chunk {
          request = record empty_request { body = 1 ∷ 2 ∷ [] };
          scan_offset = 4;
          line_start = 4;
          state = State.chunk_head;
        }))
unfolding turn copy_to
no_line_ending_needed = refl

-- A chunk of 2 ^ 64 - 1 octets behind one octet: the sums wrap around, and `CopyTo` throws.
chunk_size_wraps :
    turn State.chunk_body
      (record in_chunk {
        request = record empty_request { body = 5 ∷ [] };
        chunk_size = 0xffffffffffffffff;
      })
      (record { first = 1 ∷ 2 ∷ 3 ∷ 4 ∷ []; second = []; segment_count = 1; size = 4 })
    ≡ throws out_of_range
unfolding turn copy_to
chunk_size_wraps = refl
