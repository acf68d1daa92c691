-- ===== src/Protocol/Http/Parser/Headers.antt =====
-- src/protocol/http/http_request_parser.cpp: the request line, a header line, and the end of the headers.
use iocp_http_runtime.Prelude.{
  ℕ, ◌+◌, List, [], ◌∷◌, ◌++◌, Bool, true, false, not, ◌&&◌, ◌||◌, ◌==◌, if◌then◌else◌, ltb, Option,
  none, some, ◌⊎◌, inl, inr,
}
use iocp_http_runtime.Protocol.Http2.Hpack.{same_string}
use iocp_http_runtime.Protocol.Http.Sizes.{parse_decimal_size}
use iocp_http_runtime.Protocol.Http.Parser.{HttpRequestParser, HttpHeader, HttpParseError, fail}
use iocp_http_runtime.Protocol.Http.Parser.Text.{
  is_token_character, all, lowercase, trim_optional_whitespace, split_at, header_contains_token,
  parse_method,
}

abbrev pub is_nil : List ℕ → Bool
is_nil [] = true
is_nil (c ∷ cs) = false

abbrev pub has : ℕ → List ℕ → Bool
has d text = elim (split_at d text) [ none ↦ false | some parts ↦ true ]

abbrev pub starts_with : ℕ → List ℕ → Bool
starts_with d [] = false
starts_with d (c ∷ cs) = c == d

-- The three parts of a request line between its two spaces.
unfoldable pub split_request_line : List ℕ → Option (List ℕ × List ℕ × List ℕ)
split_request_line line = elim (split_at 32 line) [
  | none ↦ none
  | some (method, rest) ↦ elim (split_at 32 rest) [
    | none ↦ none
    | some (target, version) ↦
        if is_nil method || (is_nil target || (is_nil version || has 32 version))
        then none
        else some (method, target, version)
  ]
]

-- "HTTP/1.1".
abbrev pub version_text : List ℕ
version_text = 72 ∷ 84 ∷ 84 ∷ 80 ∷ 47 ∷ 49 ∷ 46 ∷ 49 ∷ []

abbrev pub path_of : List ℕ → List ℕ
path_of target = elim (split_at 63 target) [ none ↦ target | some (path, query) ↦ path ]

abbrev pub query_of : List ℕ → List ℕ → List ℕ
query_of old target = elim (split_at 63 target) [ none ↦ old | some (path, query) ↦ query ]

-- The request with its method and target.
abbrev pub take_target : HttpRequestParser → List ℕ → List ℕ → Bool × HttpRequestParser
take_target p method target =
    let named = record p {
      request = record p.request {
        method = parse_method method;
        method_text = method;
        target = target;
        path = path_of target;
      };
    } in
    if is_nil (path_of target) then (false, fail named HttpParseError.invalid_target) else (
      true,
      record named { request = record named.request { query = query_of p.request.query target } },
    )

unfoldable pub parse_request_line : HttpRequestParser → List ℕ → Bool × HttpRequestParser
parse_request_line p line = elim (split_request_line line) [
  | none ↦ (false, fail p HttpParseError.invalid_request_line)
  | some (method, target, version) ↦
      if not (all is_token_character method)
      then (false, fail p HttpParseError.invalid_request_line)
      else if not (same_string version version_text)
      then (false, fail p HttpParseError.unsupported_version)
      else if not (starts_with 47 target) || has 35 target
      then (false, fail p HttpParseError.invalid_target)
      else take_target p method target
]

-- No control character but a tab.
abbrev pub is_value_character : ℕ → Bool
is_value_character c = not ((ltb c 32 && not (c == 9)) || (c == 127))

unfoldable pub parse_header_line : HttpRequestParser → List ℕ → Bool × HttpRequestParser
parse_header_line p line = elim (split_at 58 line) [
  | none ↦ (false, fail p HttpParseError.invalid_header)
  | some (name, rest) ↦
      let value = trim_optional_whitespace rest in
      if is_nil name || (not (all is_token_character name) || not (all is_value_character value))
      then (false, fail p HttpParseError.invalid_header)
      else (
        true,
        record p {
          request = record p.request {
            headers = p.request.headers ++ record { name = lowercase name; value = value } ∷ [];
          };
        },
      )
]

-- What the loop of `FinalizeHeaders` keeps beside the fields.
pub record Counts : Type 0 where
  pub host_count : ℕ
  pub content_length_count : ℕ
  pub connection_close : Bool

-- "host", "content-length", "transfer-encoding", "connection", "expect"; "chunked", "close",
-- "100-continue".
abbrev host : List ℕ
host = 104 ∷ 111 ∷ 115 ∷ 116 ∷ []

abbrev content_length : List ℕ
content_length =
    99 ∷ 111 ∷ 110 ∷ 116 ∷ 101 ∷ 110 ∷ 116 ∷ 45 ∷ 108 ∷ 101 ∷ 110 ∷ 103 ∷ 116 ∷ 104 ∷ []

abbrev transfer_encoding : List ℕ
transfer_encoding =
    116 ∷ 114 ∷ 97 ∷ 110 ∷ 115 ∷ 102 ∷ 101 ∷ 114 ∷ 45 ∷ 101 ∷ 110 ∷ 99 ∷ 111 ∷ 100 ∷ 105 ∷ 110 ∷ 103
    ∷ []

abbrev connection : List ℕ
connection = 99 ∷ 111 ∷ 110 ∷ 110 ∷ 101 ∷ 99 ∷ 116 ∷ 105 ∷ 111 ∷ 110 ∷ []

abbrev expect : List ℕ
expect = 101 ∷ 120 ∷ 112 ∷ 101 ∷ 99 ∷ 116 ∷ []

abbrev chunked : List ℕ
chunked = 99 ∷ 104 ∷ 117 ∷ 110 ∷ 107 ∷ 101 ∷ 100 ∷ []

abbrev close_token : List ℕ
close_token = 99 ∷ 108 ∷ 111 ∷ 115 ∷ 101 ∷ []

abbrev continue_token : List ℕ
continue_token = 49 ∷ 48 ∷ 48 ∷ 45 ∷ 99 ∷ 111 ∷ 110 ∷ 116 ∷ 105 ∷ 110 ∷ 117 ∷ 101 ∷ []

-- A round of the loop: `inl` is the parser that has failed.
unfoldable pub finalize_header :
    HttpRequestParser → Counts → HttpHeader → HttpRequestParser ⊎ (HttpRequestParser × Counts)
finalize_header p k header =
    if same_string header.name host
    then if is_nil header.value
      then inl (fail p HttpParseError.missing_host)
      else inr (p, record k { host_count = k.host_count + 1 })
    else if same_string header.name content_length
    then elim (parse_decimal_size (trim_optional_whitespace header.value)) [
      | none ↦ inl (fail p HttpParseError.invalid_content_length)
      | some n ↦ inr (
        record p { content_length = n },
        record k { content_length_count = k.content_length_count + 1 },
      )
    ]
    else if same_string header.name transfer_encoding
    then if ltb 0 k.content_length_count
      then inl (fail p HttpParseError.invalid_content_length)
      else if header_contains_token (trim_optional_whitespace header.value) chunked
      then inr (record p { has_chunked = true }, k)
      else inl (fail p HttpParseError.unsupported_transfer_encoding)
    else if same_string header.name connection
    then inr (
      p,
      record k {
        connection_close = k.connection_close || header_contains_token header.value close_token;
      },
    )
    else if same_string header.name expect
    then inr (record p { expect_continue = header_contains_token header.value continue_token }, k)
    else inr (p, k)

unfoldable pub finalize_loop :
    List HttpHeader → HttpRequestParser → Counts → HttpRequestParser ⊎ (HttpRequestParser × Counts)
finalize_loop [] p k = inr (p, k)
finalize_loop (header ∷ headers) p k = elim (finalize_header p k header) [
  | inl failed ↦ inl failed
  | inr (p', k') ↦ finalize_loop headers p' k'
]

-- Behind the loop.
abbrev pub finalize_counts : HttpRequestParser → Counts → Bool × HttpRequestParser
finalize_counts p k =
    if k.host_count == 0
    then (false, fail p HttpParseError.missing_host)
    else if ltb 1 k.host_count
    then (false, fail p HttpParseError.duplicate_host)
    else if ltb 1 k.content_length_count
    then (false, fail p HttpParseError.duplicate_content_length)
    else if ltb p.options.maximum_body_bytes p.content_length
    then (false, fail p HttpParseError.body_too_large)
    else (true, record p { request = record p.request { keep_alive = not k.connection_close } })

abbrev pub no_counts : Counts
no_counts = record { host_count = 0; content_length_count = 0; connection_close = false }

unfoldable pub finalize_headers : HttpRequestParser → Bool × HttpRequestParser
finalize_headers p = elim (finalize_loop p.request.headers p no_counts) [
  | inl failed ↦ (false, failed)
  | inr (p', k) ↦ finalize_counts p' k
]
