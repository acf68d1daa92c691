-- ===== src/Protocol/Http/Parser/Loop.antt =====
-- The loop of `Parse` ends: as many turns as there are octets, and two more, are enough.
use iocp_http_runtime.Prelude.{
  ℕ, zero, suc, ◌+◌, ◌^◌, ◌≤◌, ◌<◌, ◌≡◌, ◌≢◌, refl, true, false, ◌||◌, if◌then◌else◌, if_elim, ltb,
  Option, none, some, Result, ok, throws, ◌>>=◌, arith,
}
use iocp_http_runtime.Buffer.Sequence.{BufferSequence}
use iocp_http_runtime.Protocol.Http.Parser.{
  HttpParseStatus, HttpParseError, HttpParseResult, HttpRequestParser, fail,
}
use iocp_http_runtime.Protocol.Http.Parser.Machine.{
  Turn, again, answer, empty_result, is_failed, turn, parse_loop, parse,
}
use iocp_http_runtime.Protocol.Http.Parser.Progress.{Ready, rank_most, turns_left, Falls}
use iocp_http_runtime.Protocol.Http.Parser.Termination.{turn-budget}

-- The fuel sufficed.
abbrev Ends : Result (Option (HttpParseResult × HttpRequestParser)) → Type 0
Ends (throws failure) = Unit
Ends (ok none) = true ≡ false
Ends (ok (some result)) = Unit

turn-Ends :
    (size m fuel : ℕ) (input : BufferSequence) (t : Result Turn)
    → Falls size m t
    → ((q : HttpRequestParser) → Falls size m (ok (again q)) → Ends (parse_loop fuel q input))
    → Ends (
        t >>= (λ t. elim t [
          | again p' ↦ parse_loop fuel p' input
          | answer result p' ↦ ok (some (result, p'))
        ]))
turn-Ends size m fuel input (throws failure) f k = tt
turn-Ends size m fuel input (ok (again q)) f k = k q f
turn-Ends size m fuel input (ok (answer result q)) f k = tt

parse_loop-Ends :
    (fuel : ℕ) (p : HttpRequestParser) (input : BufferSequence)
    → Ready p.state p
    → p.scan_offset ≤ input.size
    → input.size < 2 ^ 63
    → turns_left input.size p < fuel
    → Ends (parse_loop fuel p input)
unfolding parse_loop
parse_loop-Ends zero p input ready h small enough = absurd (omega arith)
parse_loop-Ends (suc fuel) p input ready h small enough =
    turn-Ends input.size (turns_left input.size p) fuel input (turn p.state p input)
      (turn-budget p.state p input refl ready h small)
      (λ q f. parse_loop-Ends fuel q input f.2 f.0 small (omega (arith, f.1)))

Ends-some : (r : Result (Option (HttpParseResult × HttpRequestParser))) → Ends r → r ≢ ok none
Ends-some (throws failure) e = ground arith
Ends-some (ok none) e = absurd (ground (arith, e))
Ends-some (ok (some result)) e = ground arith

-- `Parse` comes to an end on any input below 2 ^ 63 octets, from any state but one in which a chunk
-- would begin elsewhere than at the scan offset: it takes no more turns than there are octets, and
-- two more.
pub parse-ends :
    (fuel : ℕ) (p : HttpRequestParser) (input : BufferSequence)
    → (is_failed p.state ≡ false → Ready p.state p)
    → input.size < 2 ^ 63
    → input.size + 2 ≤ fuel
    → parse fuel p input ≢ ok none
unfolding parse
parse-ends fuel p input ready small enough =
    let refused = fail p HttpParseError.invalid_request_line in
    let result : HttpParseError → HttpParseResult =
      λ reason. record empty_result { status = HttpParseStatus.error; error = reason } in
    let past = ltb input.size p.scan_offset || ltb input.size p.line_start in
    let refusal : Result (Option (HttpParseResult × HttpRequestParser)) =
      ok (some (result refused.last_error, refused)) in
    Ends-some _ (
      if_elim Ends (is_failed p.state) (ok (some (result p.last_error, p)))
        (if past then refusal else parse_loop fuel p input) (λ y. tt)
        (λ n.
          if_elim Ends past refusal (parse_loop fuel p input) (λ y. tt)
            (λ within.
              parse_loop-Ends fuel p input (ready n) (ground (arith, within)) small
                (omega (arith, rank_most p.state)))))
