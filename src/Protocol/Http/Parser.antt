-- ===== src/Protocol/Http/Parser.antt =====
-- src/protocol/http/http_request_parser.cpp, HttpRequestParser: its fields, and how it reads a line of
-- what has arrived so far. Text is the list of its octets.
pub mod Text
pub mod Headers
pub mod Machine
pub mod Lines
pub mod Progress
pub mod Turns
pub mod Termination
pub mod Loop
pub mod Method
pub mod RequestLine
mod Tests
use iocp_http_runtime.Prelude.{
  ℕ, zero, suc, ◌+◌, ◌-◌, List, [], ◌∷◌, Bool, true, false, ◌==◌, if◌then◌else◌, ltb, leb, ◌||◌,
  Result, ok, throws, invalid_argument, ◌>>=◌, add_size, sub_size,
}
use iocp_http_runtime.Buffer.Sequence.{BufferSequence, at, copy_to}

pub data HttpParseStatus : Type 0 where
  incomplete complete headers_complete error : HttpParseStatus

pub data HttpParseError : Type 0 where
  no_error invalid_line_ending request_line_too_large invalid_request_line unsupported_version
        invalid_target header_too_large too_many_headers invalid_header missing_host duplicate_host
        invalid_content_length duplicate_content_length unsupported_transfer_encoding
        body_too_large :
      HttpParseError

pub data HttpMethod : Type 0 where
  get post put delete patch head options unsupported : HttpMethod

pub data State : Type 0 where
  request_line headers body chunk_head chunk_body chunk_trailer chunk_end failed : State

pub record HttpHeader : Type 0 where
  pub name : List ℕ
  pub value : List ℕ

pub record HttpRequest : Type 0 where
  pub method : HttpMethod
  pub method_text : List ℕ
  pub target : List ℕ
  pub path : List ℕ
  pub query : List ℕ
  pub headers : List HttpHeader
  pub body : List ℕ
  pub keep_alive : Bool

abbrev pub empty_request : HttpRequest
empty_request = record {
  method = HttpMethod.unsupported;
  method_text = [];
  target = [];
  path = [];
  query = [];
  headers = [];
  body = [];
  keep_alive = true;
}

pub record HttpParserOptions : Type 0 where
  pub maximum_request_line_bytes : ℕ
  pub maximum_header_bytes : ℕ
  pub maximum_header_count : ℕ
  pub maximum_body_bytes : ℕ

pub record HttpParseResult : Type 0 where
  pub status : HttpParseStatus
  pub error : HttpParseError
  pub consumed_bytes : ℕ
  pub request : HttpRequest
  pub expect_continue : Bool

pub record HttpRequestParser : Type 0 where
  pub options : HttpParserOptions
  pub state : State
  pub request : HttpRequest
  pub line_start : ℕ
  pub scan_offset : ℕ
  pub header_bytes : ℕ
  pub content_length : ℕ
  pub body_offset : ℕ
  pub chunk_size : ℕ
  pub chunk_body_offset : ℕ
  pub has_chunked : Bool
  pub expect_continue : Bool
  pub expect_continue_sent : Bool
  pub last_error : HttpParseError

abbrev pub reset : HttpRequestParser → HttpRequestParser
reset p = record {
  options = p.options;
  state = State.request_line;
  request = empty_request;
  line_start = 0;
  scan_offset = 0;
  header_bytes = 0;
  content_length = 0;
  body_offset = 0;
  chunk_size = 0;
  chunk_body_offset = 0;
  has_chunked = false;
  expect_continue = false;
  expect_continue_sent = false;
  last_error = HttpParseError.no_error;
}

unfoldable pub init : HttpParserOptions → Result HttpRequestParser
init limits =
    if limits.maximum_request_line_bytes == 0
      || (ltb limits.maximum_header_bytes 2 || limits.maximum_header_count == 0)
    then throws invalid_argument
    else ok (record {
      options = limits;
      state = State.request_line;
      request = empty_request;
      line_start = 0;
      scan_offset = 0;
      header_bytes = 0;
      content_length = 0;
      body_offset = 0;
      chunk_size = 0;
      chunk_body_offset = 0;
      has_chunked = false;
      expect_continue = false;
      expect_continue_sent = false;
      last_error = HttpParseError.no_error;
    })

-- `Fail`: the new state; the answer is that error, with nothing consumed.
abbrev pub fail : HttpRequestParser → HttpParseError → HttpRequestParser
fail p reason = record p { state = State.failed; last_error = reason }

pub data LineResult : Type 0 where
  incomplete error limit_exceeded : LineResult
  complete : List ℕ → LineResult

-- Where the loop of `ReadLine` stops: the new scan offset, a bad line ending, the limit, or the
-- index of a CR that LF follows.
pub data Scan : Type 0 where
  waiting : ℕ → Scan
  bad_ending : Scan
  over_limit : Scan
  found : ℕ → Scan

-- What `ReadLine` does at a CR.
unfoldable pub read_cr : BufferSequence → ℕ → ℕ → ℕ → Result Scan
read_cr input line_start maximum_bytes index =
    if leb input.size (add_size index 1)
    then ok (waiting index)
    else (at input (add_size index 1) >>= (λ character.
        if character == 10
        then ok (if ltb maximum_bytes (sub_size index line_start) then over_limit else found index)
        else ok bad_ending))

-- The loop of `ReadLine`, a round for each octet from `index` on.
unfoldable pub read_loop : ℕ → BufferSequence → ℕ → ℕ → ℕ → Result Scan
unfolding read_cr
read_loop zero input line_start maximum_bytes index = ok (waiting input.size)
read_loop (suc fuel) input line_start maximum_bytes index =
    let rest = read_loop fuel input line_start maximum_bytes (add_size index 1) in
    at input index >>= (λ character.
      if character == 10
      then ok bad_ending
      else if character == 13
      then read_cr input line_start maximum_bytes index
      else if ltb maximum_bytes (add_size (sub_size index line_start) 1)
      then ok over_limit
      else rest)

-- `ReadLine` behind its loop.
unfoldable pub take_line :
    HttpRequestParser → BufferSequence → Scan → Result (LineResult × HttpRequestParser)
take_line p input (waiting offset) = ok (LineResult.incomplete, record p { scan_offset = offset })
take_line p input bad_ending = ok (LineResult.error, p)
take_line p input over_limit = ok (LineResult.limit_exceeded, p)
take_line p input (found index) =
    copy_to input p.line_start (sub_size index p.line_start) >>= (λ line. ok (
      LineResult.complete line,
      record p { scan_offset = add_size index 2; line_start = add_size index 2 },
    ))

unfoldable pub read_line :
    HttpRequestParser → BufferSequence → ℕ → Result (LineResult × HttpRequestParser)
unfolding read_loop take_line
read_line p input maximum_bytes =
    read_loop (input.size - p.scan_offset) input p.line_start maximum_bytes p.scan_offset
    >>= take_line p input
