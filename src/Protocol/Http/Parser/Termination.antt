-- ===== src/Protocol/Http/Parser/Termination.antt =====
-- Every turn of the loop of `Parse` moves the scan offset on or is one of the last two.
use iocp_http_runtime.Prelude.{
  ℕ, ◌+◌, ◌-◌, ◌^◌, ◌≤◌, ◌<◌, ◌≡◌, refl, sym, ◌∙◌, subst, List, [], ◌++◌, Bool, true, false, ◌==◌,
  ◌||◌, if◌then◌else◌, if_elim, ltb, leb, length, Option, none, some, Result, ok, throws,
  out_of_range, ◌>>=◌, add_size, arith,
}
use iocp_http_runtime.Buffer.Sequence.{BufferSequence, copy_to, copy_segments, segments}
use iocp_http_runtime.Protocol.Http.Sizes.{parse_hex_size}
use iocp_http_runtime.Protocol.Http.Parser.Text.{skip_chunk_extension, split_at}
use iocp_http_runtime.Protocol.Http.Parser.Headers.{is_nil}
use iocp_http_runtime.Protocol.Http.Parser.Machine.{
  Turn, again, answer, empty_result, failure, request_line_turn, headers_turn, complete, sized_turn,
  chunk_size_turn, chunk_head_turn, chunk_body_turn, chunk_trailer_turn, turn,
}
use iocp_http_runtime.Protocol.Http.Parser.{
  HttpRequestParser, HttpParseError, State, LineResult, read_line,
}
use iocp_http_runtime.Protocol.Http.Parser.Progress.{Moves, read_line-Moves, rank, Falls, Ready}
use iocp_http_runtime.Protocol.Http.Parser.Turns.{
  budget, again-Falls, complete-Falls, request_line_turn-Falls, headers_turn-Falls,
}

-- The state behind a chunk header.
chunk_state-Ready :
    (b : Bool) (p : HttpRequestParser)
    → p.chunk_body_offset ≡ p.scan_offset
    → Ready (if b then State.chunk_trailer else State.chunk_body) p
chunk_state-Ready true p e = tt
chunk_state-Ready false p e = e

sized_turn-Falls :
    (size scan : ℕ) (p : HttpRequestParser) (parsed : Option ℕ)
    → scan < p.scan_offset
    → p.scan_offset ≤ size
    → Falls size (budget size scan) (ok (sized_turn p parsed))
sized_turn-Falls size scan p none h k = tt
sized_turn-Falls size scan p (some n) h k =
    let next : HttpRequestParser = record p {
      chunk_size = n;
      chunk_body_offset = p.scan_offset;
      state = if n == 0 then State.chunk_trailer else State.chunk_body;
    } in
    again-Falls size scan next h k (chunk_state-Ready (n == 0) next refl)

chunk_size_turn-Falls :
    (size scan : ℕ) (p : HttpRequestParser) (line : List ℕ)
    → scan < p.scan_offset
    → p.scan_offset ≤ size
    → Falls size (budget size scan) (ok (chunk_size_turn p line))
unfolding chunk_size_turn
chunk_size_turn-Falls size scan p line h k =
    sized_turn-Falls size scan p (parse_hex_size (skip_chunk_extension line)) h k

-- A chunk header above its limit has no digits.
chunk_size_turn-nil :
    (size m : ℕ) (p : HttpRequestParser) → Falls size m (ok (chunk_size_turn p []))
unfolding chunk_size_turn skip_chunk_extension split_at parse_hex_size
chunk_size_turn-nil size m p = tt

chunk_body_turn-Falls :
    (p : HttpRequestParser) (input : BufferSequence)
    → p.scan_offset ≤ input.size
    → input.size < 2 ^ 63
    → p.chunk_body_offset ≡ p.scan_offset
    → Falls input.size (budget input.size p.scan_offset) (chunk_body_turn p input)
unfolding chunk_body_turn copy_to
chunk_body_turn-Falls p input h small e =
    let P = λ (t : Result Turn). Falls input.size (budget input.size p.scan_offset) t in
    let chunk_end = add_size (add_size p.chunk_body_offset p.chunk_size) 2 in
    let next = λ (chunk : List ℕ). ok (
      again (record p {
        request = record p.request { body = p.request.body ++ chunk };
        scan_offset = chunk_end;
        line_start = chunk_end;
        state = State.chunk_head;
      })) in
    let past =
      ltb input.size p.chunk_body_offset || ltb (input.size - p.chunk_body_offset) p.chunk_size in
    let chunk = copy_segments (segments input) p.chunk_size p.chunk_body_offset [] in
    let copied = if past then throws out_of_range else ok chunk in
    if_elim P (ltb input.size chunk_end) (ok (answer empty_result p))
      (if ltb p.options.maximum_body_bytes (add_size (length p.request.body) p.chunk_size)
        then ok (failure p HttpParseError.body_too_large)
        else copied >>= next)
      (λ short. tt)
      (λ arrived.
        if_elim P (ltb p.options.maximum_body_bytes (add_size (length p.request.body) p.chunk_size))
          (ok (failure p HttpParseError.body_too_large)) (copied >>= next) (λ large. tt)
          (λ fits.
            if_elim (λ (c : Result (List ℕ)). P (c >>= next)) past (throws out_of_range) (ok chunk)
              (λ bad. tt)
              (λ good. (ground (arith, arrived), ground (arith, arrived, good, e), tt))))

chunk_trailer_turn-Falls :
    (size scan : ℕ) (p : HttpRequestParser) (line : List ℕ)
    → scan < p.scan_offset
    → p.scan_offset ≤ size
    → p.state ≡ State.chunk_trailer
    → Falls size (budget size scan) (ok (chunk_trailer_turn p (LineResult.complete line)))
unfolding chunk_trailer_turn
chunk_trailer_turn-Falls size scan p line h k e =
    if_elim (λ t. Falls size (budget size scan) (ok t)) (is_nil line)
      (again (record p { state = State.chunk_end })) (again p)
      (λ y. again-Falls size scan (record p { state = State.chunk_end }) h k tt)
      (λ n. again-Falls size scan p h k (subst (λ st. Ready st p) (sym e) tt))

-- What follows a call of `ReadLine`, by its answers.
after_line :
    (size m : ℕ) (p : HttpRequestParser) (r : Result (LineResult × HttpRequestParser))
    (k : HttpRequestParser → LineResult → Result Turn)
    → Moves size p r
    → ((q : HttpRequestParser) → Falls size m (k q LineResult.incomplete))
    → ((q : HttpRequestParser) → Falls size m (k q LineResult.error))
    → Falls size m (k p LineResult.limit_exceeded)
    → ((q : HttpRequestParser) (line : List ℕ)
        → p.scan_offset < q.scan_offset
        → q.scan_offset ≤ size
        → q.state ≡ p.state
        → Falls size m (k q (LineResult.complete line)))
    → Falls size m (r >>= (λ a. k a.1 a.0))
after_line size m p (throws failure) k moves w e l c = tt
after_line size m p (ok (LineResult.incomplete, q)) k moves w e l c = w q
after_line size m p (ok (LineResult.error, q)) k moves w e l c = e q
after_line size m p (ok (LineResult.limit_exceeded, q)) k moves w e l c =
    subst (λ t. Falls size m (k t LineResult.limit_exceeded)) (sym moves) l
after_line size m p (ok (LineResult.complete line, q)) k moves w e l c =
    c q line moves.0 moves.1 moves.2

abbrev header_room : HttpRequestParser → ℕ
header_room p =
    if leb p.options.maximum_header_bytes p.header_bytes
    then 0
    else p.options.maximum_header_bytes - p.header_bytes

body_state-Falls :
    (m : ℕ) (p : HttpRequestParser) (input : BufferSequence)
    → Falls input.size m (turn State.body p input)
unfolding turn
body_state-Falls m p input =
    let P = λ (t : Result Turn). Falls input.size m t in
    if_elim P (ltb (2 ^ 64 - 1 - p.content_length) p.body_offset)
      (ok (failure p HttpParseError.body_too_large))
      (if ltb input.size (add_size p.body_offset p.content_length)
        then ok (answer empty_result p)
        else complete p input)
      (λ y. tt)
      (λ n.
        if_elim P (ltb input.size (add_size p.body_offset p.content_length))
          (ok (answer empty_result p)) (complete p input) (λ y. tt)
          (λ n. complete-Falls input.size m p input))

pub turn-budget :
    (s : State) (p : HttpRequestParser) (input : BufferSequence)
    → p.state ≡ s
    → Ready s p
    → p.scan_offset ≤ input.size
    → input.size < 2 ^ 63
    → Falls input.size (input.size - p.scan_offset + rank s) (turn s p input)
unfolding turn request_line_turn headers_turn chunk_head_turn chunk_trailer_turn
turn-budget State.request_line p input e ready h small =
    after_line input.size _ p (read_line p input p.options.maximum_request_line_bytes)
      (λ q r. ok (request_line_turn q r)) (read_line-Moves p input _ h small) (λ q. tt) (λ q. tt) tt
      (λ q line k l same. request_line_turn-Falls input.size p.scan_offset q line k l)
turn-budget State.headers p input e ready h small =
    after_line input.size _ p (read_line p input (header_room p)) (λ q r. headers_turn q input r)
      (read_line-Moves p input _ h small) (λ q. tt) (λ q. tt) tt
      (λ q line k l same. headers_turn-Falls input.size p.scan_offset q input line k l (same ∙ e))
turn-budget State.body p input e ready h small = body_state-Falls _ p input
turn-budget State.chunk_head p input e ready h small =
    after_line input.size _ p (read_line p input 256) (λ q r. ok (chunk_head_turn q r))
      (read_line-Moves p input _ h small) (λ q. tt) (λ q. tt) (chunk_size_turn-nil input.size _ p)
      (λ q line k l same. chunk_size_turn-Falls input.size p.scan_offset q line k l)
turn-budget State.chunk_body p input e ready h small = chunk_body_turn-Falls p input h small ready
turn-budget State.chunk_trailer p input e ready h small =
    after_line input.size _ p (read_line p input p.options.maximum_header_bytes)
      (λ q r. ok (chunk_trailer_turn q r)) (read_line-Moves p input _ h small) (λ q. tt) (λ q. tt)
      (h, omega arith, tt)
      (λ q line k l same. chunk_trailer_turn-Falls input.size p.scan_offset q line k l (same ∙ e))
turn-budget State.chunk_end p input e ready h small = complete-Falls input.size _ p input
turn-budget State.failed p input e ready h small = ground arith
