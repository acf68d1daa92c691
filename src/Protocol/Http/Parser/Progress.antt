-- ===== src/Protocol/Http/Parser/Progress.antt =====
-- How far `ReadLine` moves the scan offset, and that the parsers of its lines leave it.
use iocp_http_runtime.Prelude.{
  ℕ, zero, suc, ◌+◌, ◌-◌, ◌^◌, ◌≤◌, ◌<◌, ◌≡◌, refl, subst, List, [], ◌∷◌, Bool, true, false, ◌==◌,
  if◌then◌else◌, if_elim, ltb, leb, Result, ok, throws, ◌>>=◌, add_size, sub_size, arith, ◌⊎◌, inl,
  inr,
}
use iocp_http_runtime.Buffer.Sequence.{BufferSequence, at, copy_to}
use iocp_http_runtime.Protocol.Http.Parser.Headers.{
  Counts, no_counts, parse_request_line, parse_header_line, finalize_header, finalize_loop,
  finalize_counts, finalize_headers,
}
use iocp_http_runtime.Protocol.Http.Parser.Machine.{Turn, again, answer}
use iocp_http_runtime.Protocol.Http.Parser.{
  HttpHeader, HttpRequestParser, State, LineResult, Scan, waiting, found, read_cr, read_loop,
  take_line, read_line,
}

-- Where a scan stops: at or behind where it began, and with a whole line before the end.
abbrev Ahead : ℕ → ℕ → Result Scan → Type 0
Ahead size index (throws failure) = Unit
Ahead size index (ok (waiting offset)) = (index ≤ offset) × (offset ≤ size)
Ahead size index (ok Scan.bad_ending) = Unit
Ahead size index (ok Scan.over_limit) = Unit
Ahead size index (ok (found cr)) = (index ≤ cr) × (cr + 2 ≤ size)

Ahead-later : (size i j : ℕ) (r : Result Scan) → i ≤ j → Ahead size j r → Ahead size i r
Ahead-later size i j (throws failure) h a = tt
Ahead-later size i j (ok (waiting offset)) h a = (omega (arith, a.0), a.1)
Ahead-later size i j (ok Scan.bad_ending) h a = tt
Ahead-later size i j (ok Scan.over_limit) h a = tt
Ahead-later size i j (ok (found cr)) h a = (omega (arith, a.0), a.1)

pub bind_elim {ℓ κ} :
    {A B : Type ℓ} (P : Result B → Type κ) (r : Result A) (k : A → Result B)
    → ((e : _) → P (throws e))
    → ((a : A) → P (k a))
    → P (r >>= k)
bind_elim P (ok a) k h g = g a
bind_elim P (throws e) k h g = h e

read_cr-Ahead :
    (input : BufferSequence) (start maximum index : ℕ)
    → index < input.size
    → input.size < 2 ^ 63
    → Ahead input.size index (read_cr input start maximum index)
unfolding read_cr
read_cr-Ahead input start maximum index h small =
    let over = ltb maximum (sub_size index start) in
    let next = λ (c : ℕ).
      if c == 10 then ok (if over then Scan.over_limit else found index) else ok Scan.bad_ending in
    if_elim (Ahead input.size index) (leb input.size (add_size index 1)) (ok (waiting index))
      (at input (add_size index 1) >>= next) (λ last. (omega arith, omega arith))
      (λ more.
        bind_elim (Ahead input.size index) (at input (add_size index 1)) next (λ e. tt)
          (λ c.
            if_elim (Ahead input.size index) (c == 10)
              (ok (if over then Scan.over_limit else found index)) (ok Scan.bad_ending)
              (λ lf.
                if_elim (λ s. Ahead input.size index (ok s)) over Scan.over_limit (found index)
                  (λ long. tt) (λ fits. (omega arith, ground (arith, more))))
              (λ other. tt)))

read_loop-Ahead :
    (fuel : ℕ) (input : BufferSequence) (start maximum index : ℕ)
    → fuel + index ≡ input.size
    → input.size < 2 ^ 63
    → Ahead input.size index (read_loop fuel input start maximum index)
unfolding read_loop
read_loop-Ahead zero input start maximum index e small = (omega arith, omega arith)
read_loop-Ahead (suc fuel) input start maximum index e small =
    let rest = read_loop fuel input start maximum (add_size index 1) in
    let plain = λ (c : ℕ).
      if ltb maximum (add_size (sub_size index start) 1) then ok Scan.over_limit else rest in
    let next = λ (c : ℕ).
      if c == 10
      then ok Scan.bad_ending
      else if c == 13
      then read_cr input start maximum index
      else plain c in
    bind_elim (Ahead input.size index) (at input index) next (λ e. tt)
      (λ c.
        if_elim (Ahead input.size index) (c == 10) (ok Scan.bad_ending)
          (if c == 13 then read_cr input start maximum index else plain c) (λ lf. tt)
          (λ other.
            if_elim (Ahead input.size index) (c == 13) (read_cr input start maximum index) (plain c)
              (λ cr. read_cr-Ahead input start maximum index (omega arith) small)
              (λ text.
                if_elim (Ahead input.size index) (ltb maximum (add_size (sub_size index start) 1))
                  (ok Scan.over_limit) rest (λ long. tt)
                  (λ short. Ahead-later input.size index (add_size index 1) rest (omega arith) (
                    read_loop-Ahead fuel input start maximum (add_size index 1) (omega arith)
                      small)))))

-- What a read line does to the scan offset.
abbrev pub Moves : ℕ → HttpRequestParser → Result (LineResult × HttpRequestParser) → Type 0
Moves size p (throws failure) = Unit
Moves size p (ok (LineResult.incomplete, p')) = Unit
Moves size p (ok (LineResult.error, p')) = Unit
Moves size p (ok (LineResult.limit_exceeded, p')) = p' ≡ p
Moves size p (ok (LineResult.complete line, p')) =
    (p.scan_offset < p'.scan_offset) × (p'.scan_offset ≤ size) × (p'.state ≡ p.state)

take_line-Moves :
    (p : HttpRequestParser) (input : BufferSequence) (scan : Result Scan)
    → Ahead input.size p.scan_offset scan
    → input.size < 2 ^ 63
    → Moves input.size p (scan >>= take_line p input)
unfolding take_line
take_line-Moves p input (throws failure) a small = tt
take_line-Moves p input (ok (waiting offset)) a small = tt
take_line-Moves p input (ok Scan.bad_ending) a small = tt
take_line-Moves p input (ok Scan.over_limit) a small = refl
take_line-Moves p input (ok (found cr)) a small =
    bind_elim (Moves input.size p) (copy_to input p.line_start (sub_size cr p.line_start))
      (λ line. ok (
        LineResult.complete line,
        record p { scan_offset = add_size cr 2; line_start = add_size cr 2 },
      ))
      (λ e. tt) (λ line. (omega (arith, a.0, a.1), omega (arith, a.0, a.1), refl))

pub read_line-Moves :
    (p : HttpRequestParser) (input : BufferSequence) (maximum : ℕ)
    → p.scan_offset ≤ input.size
    → input.size < 2 ^ 63
    → Moves input.size p (read_line p input maximum)
unfolding read_line
read_line-Moves p input maximum h small =
    take_line-Moves p input _
      (read_loop-Ahead (input.size - p.scan_offset) input p.line_start maximum p.scan_offset
        (omega arith) small)
      small

abbrev pub rank : State → ℕ
rank State.request_line = 1
rank State.headers = 1
rank State.body = 1
rank State.chunk_head = 1
rank State.chunk_body = 1
rank State.chunk_trailer = 1
rank State.chunk_end = 0
rank State.failed = 1

-- How many turns are left at most.
abbrev pub turns_left : ℕ → HttpRequestParser → ℕ
turns_left size p = size - p.scan_offset + rank p.state

-- What the states rely on; no turn but a failing one ends in the state `failed`.
abbrev pub Ready : State → HttpRequestParser → Type 0
Ready State.request_line p = Unit
Ready State.headers p = Unit
Ready State.body p = Unit
Ready State.chunk_head p = Unit
Ready State.chunk_body p = p.chunk_body_offset ≡ p.scan_offset
Ready State.chunk_trailer p = Unit
Ready State.chunk_end p = Unit
Ready State.failed p = true ≡ false

abbrev pub Falls : ℕ → ℕ → Result Turn → Type 0
Falls size m (throws failure) = Unit
Falls size m (ok (answer result p)) = Unit
Falls size m (ok (again p)) = (p.scan_offset ≤ size) × (turns_left size p < m) × Ready p.state p

pub rank_most : (s : State) → rank s ≤ 1
rank_most State.request_line = omega arith
rank_most State.headers = omega arith
rank_most State.body = omega arith
rank_most State.chunk_head = omega arith
rank_most State.chunk_body = omega arith
rank_most State.chunk_trailer = omega arith
rank_most State.chunk_end = omega arith
rank_most State.failed = omega arith

pub parse_request_line-scan :
    (p : HttpRequestParser) (line : List ℕ)
    → (parse_request_line p line).1.scan_offset ≡ p.scan_offset
unfolding parse_request_line
parse_request_line-scan p line = ground arith

pub parse_header_line-scan :
    (p : HttpRequestParser) (line : List ℕ)
    → ((parse_header_line p line).1.scan_offset ≡ p.scan_offset)
      × ((parse_header_line p line).0 ≡ true → (parse_header_line p line).1.state ≡ p.state)
unfolding parse_header_line
parse_header_line-scan p line = (ground arith, λ h. ground arith)

abbrev SameScan : ℕ → HttpRequestParser ⊎ (HttpRequestParser × Counts) → Type 0
SameScan scan (inl p) = p.scan_offset ≡ scan
SameScan scan (inr (p, k)) = p.scan_offset ≡ scan

finalize_header-SameScan :
    (p : HttpRequestParser) (k : Counts) (header : HttpHeader)
    → SameScan p.scan_offset (finalize_header p k header)
unfolding finalize_header
finalize_header-SameScan p k header = ground arith

finalize_loop-SameScan :
    (headers : List HttpHeader) (p : HttpRequestParser) (k : Counts)
    → SameScan p.scan_offset (finalize_loop headers p k)
unfolding finalize_loop
finalize_loop-SameScan [] p k = refl
finalize_loop-SameScan (header ∷ headers) p k =
    go (finalize_header p k header) (finalize_header-SameScan p k header)
      (finalize_loop-SameScan headers)
  where
    go :
        (r : HttpRequestParser ⊎ (HttpRequestParser × Counts))
        → SameScan p.scan_offset r
        → ((p' : HttpRequestParser) (k' : Counts)
            → SameScan p'.scan_offset (finalize_loop headers p' k'))
        → SameScan p.scan_offset
            (elim r [ inl failed ↦ inl failed | inr (p', k') ↦ finalize_loop headers p' k' ])
    go (inl failed) s f = s
    go (inr (p', k')) s f = subst (λ n. SameScan n (finalize_loop headers p' k')) s (f p' k')

pub finalize_headers-scan :
    (p : HttpRequestParser) → (finalize_headers p).1.scan_offset ≡ p.scan_offset
unfolding finalize_headers
finalize_headers-scan p =
    go (finalize_loop p.request.headers p no_counts)
      (finalize_loop-SameScan p.request.headers p no_counts)
  where
    go :
        (r : HttpRequestParser ⊎ (HttpRequestParser × Counts))
        → SameScan p.scan_offset r
        → (elim r as (λ _. Bool × HttpRequestParser) [
          | inl failed ↦ (false, failed)
          | inr (p', k) ↦ finalize_counts p' k
        ]).1.scan_offset
          ≡ p.scan_offset
    go (inl failed) s = s
    go (inr (p', k)) s = ground arith
