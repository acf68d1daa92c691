-- ===== src/Protocol/Http/Parser/Turns.antt =====
-- The turns of the loop of `Parse` up to the end of the headers move the scan offset on.
use iocp_http_runtime.Prelude.{
  ℕ, ◌+◌, ◌-◌, ◌≤◌, ◌<◌, ◌≡◌, sym, ◌∙◌, subst, List, true, not, ◌==◌, ◌&&◌, if◌then◌else◌, if_elim,
  ltb, leb, length, Result, ok, add_size, sub_size, arith,
}
use iocp_http_runtime.Buffer.Sequence.{BufferSequence}
use iocp_http_runtime.Protocol.Http.Parser.Headers.{
  is_nil, parse_request_line, parse_header_line, finalize_headers,
}
use iocp_http_runtime.Protocol.Http.Parser.Machine.{
  Turn, again, answer, empty_result, failed, failure, request_line_turn, headers_turn,
  header_line_turn, end_of_headers_turn, body_turn, complete, complete_body,
}
use iocp_http_runtime.Protocol.Http.Parser.{
  HttpParseStatus, reset, HttpRequestParser, HttpParseResult, HttpParseError, State, LineResult,
}
use iocp_http_runtime.Protocol.Http.Parser.Progress.{
  bind_elim, Falls, Ready, rank_most, parse_request_line-scan, parse_header_line-scan,
  finalize_headers-scan,
}

-- The turns that are left from a scan offset on, where the state reads a line.
abbrev pub budget : ℕ → ℕ → ℕ
budget size scan = size - scan + 1

-- A line that was read makes up for any state.
pub again-Falls :
    (size scan : ℕ) (q : HttpRequestParser)
    → scan < q.scan_offset
    → q.scan_offset ≤ size
    → Ready q.state q
    → Falls size (budget size scan) (ok (again q))
again-Falls size scan q h k e = (k, omega (arith, rank_most q.state), e)

pub complete-Falls :
    (size m : ℕ) (p : HttpRequestParser) (input : BufferSequence) → Falls size m (complete p input)
unfolding complete
complete-Falls size m p input =
    bind_elim (Falls size m) (complete_body p input)
      (λ body. ok (
        answer
          (record empty_result {
            status = HttpParseStatus.complete;
            consumed_bytes =
                if p.has_chunked then p.scan_offset else add_size p.body_offset p.content_length;
            request = record p.request { body = body };
          })
          (reset p)))
      (λ e. tt) (λ body. tt)

pub request_line_turn-Falls :
    (size scan : ℕ) (p : HttpRequestParser) (line : List ℕ)
    → scan < p.scan_offset
    → p.scan_offset ≤ size
    → Falls size (budget size scan) (ok (request_line_turn p (LineResult.complete line)))
unfolding request_line_turn
request_line_turn-Falls size scan p line h k =
    let parsed = parse_request_line p line in
    let same = parse_request_line-scan p line in
    if_elim (λ t. Falls size (budget size scan) (ok t)) parsed.0
      (again (record parsed.1 { state = State.headers })) (failed parsed.1)
      (λ y.
        again-Falls size scan (record parsed.1 { state = State.headers }) (omega (arith, same))
          (omega (arith, same)) tt)
      (λ n. tt)

header_line_turn-Falls :
    (size scan : ℕ) (p : HttpRequestParser) (line : List ℕ)
    → scan < p.scan_offset
    → p.scan_offset ≤ size
    → p.state ≡ State.headers
    → Falls size (budget size scan) (ok (header_line_turn p line))
unfolding header_line_turn
header_line_turn-Falls size scan p line h k e =
    let parsed = parse_header_line p line in
    let same = parse_header_line-scan p line in
    let P = λ (t : Turn). Falls size (budget size scan) (ok t) in
    if_elim P (leb p.options.maximum_header_count (length p.request.headers))
      (failure p HttpParseError.too_many_headers)
      (if parsed.0 then again parsed.1 else failed parsed.1) (λ many. tt)
      (λ few.
        if_elim P parsed.0 (again parsed.1) (failed parsed.1)
          (λ y.
            again-Falls size scan parsed.1 (omega (arith, same.0)) (omega (arith, same.0))
              (subst (λ st. Ready st parsed.1) (sym (same.1 y ∙ e)) tt))
          (λ n. tt))

body_turn-Falls :
    (size scan : ℕ) (p : HttpRequestParser) (input : BufferSequence)
    → scan < p.scan_offset
    → p.scan_offset ≤ size
    → Falls size (budget size scan) (body_turn p input)
unfolding body_turn
body_turn-Falls size scan p input h k =
    let P = λ (t : Result Turn). Falls size (budget size scan) t in
    let told : HttpRequestParser = record p { expect_continue_sent = true } in
    let told_result : HttpParseResult = record empty_result {
      status = HttpParseStatus.headers_complete;
      consumed_bytes = p.scan_offset;
      expect_continue = true;
    } in
    let told_body = ok (answer told_result (record told { state = State.body })) in
    let told_chunks = ok (answer told_result (record told { state = State.chunk_head })) in
    let body = ok (again (record p { state = State.body })) in
    let chunks = ok (again (record p { state = State.chunk_head })) in
    if_elim P (p.expect_continue && not p.expect_continue_sent)
      (if p.has_chunked
        then told_chunks
        else if p.content_length == 0
        then complete told input
        else told_body)
      (if p.has_chunked then chunks else if p.content_length == 0 then complete p input else body)
      (λ y.
        if_elim P p.has_chunked told_chunks
          (if p.content_length == 0 then complete told input else told_body) (λ c. tt)
          (λ n.
            if_elim P (p.content_length == 0) (complete told input) told_body
              (λ z. complete-Falls size (budget size scan) told input) (λ z. tt)))
      (λ n.
        if_elim P p.has_chunked chunks (if p.content_length == 0 then complete p input else body)
          (λ c. again-Falls size scan (record p { state = State.chunk_head }) h k tt)
          (λ c.
            if_elim P (p.content_length == 0) (complete p input) body
              (λ z. complete-Falls size (budget size scan) p input)
              (λ z. again-Falls size scan (record p { state = State.body }) h k tt)))

end_of_headers_turn-Falls :
    (size scan : ℕ) (p : HttpRequestParser) (input : BufferSequence)
    → scan < p.scan_offset
    → p.scan_offset ≤ size
    → Falls size (budget size scan) (end_of_headers_turn p input)
unfolding end_of_headers_turn
end_of_headers_turn-Falls size scan p input h k =
    let final = finalize_headers p in
    let same = finalize_headers-scan p in
    let next : HttpRequestParser = record final.1 { body_offset = final.1.scan_offset } in
    if_elim (λ t. Falls size (budget size scan) t) final.0 (body_turn next input)
      (ok (failed final.1))
      (λ y. body_turn-Falls size scan next input (omega (arith, same)) (omega (arith, same)))
      (λ n. tt)

pub headers_turn-Falls :
    (size scan : ℕ) (p : HttpRequestParser) (input : BufferSequence) (line : List ℕ)
    → scan < p.scan_offset
    → p.scan_offset ≤ size
    → p.state ≡ State.headers
    → Falls size (budget size scan) (headers_turn p input (LineResult.complete line))
unfolding headers_turn
headers_turn-Falls size scan p input line h k e =
    let P = λ (t : Result Turn). Falls size (budget size scan) t in
    let wire_line_bytes = add_size (length line) 2 in
    let counted : HttpRequestParser = record p {
      header_bytes = add_size p.header_bytes wire_line_bytes;
    } in
    if_elim P (ltb (sub_size p.options.maximum_header_bytes p.header_bytes) wire_line_bytes)
      (ok (failure p HttpParseError.header_too_large))
      (if is_nil line
        then end_of_headers_turn counted input
        else ok (header_line_turn counted line))
      (λ long. tt)
      (λ fits.
        if_elim P (is_nil line) (end_of_headers_turn counted input)
          (ok (header_line_turn counted line))
          (λ y. end_of_headers_turn-Falls size scan counted input h k)
          (λ n. header_line_turn-Falls size scan counted line h k e))
