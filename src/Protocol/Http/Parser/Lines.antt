-- ===== src/Protocol/Http/Parser/Lines.antt =====
-- What `ReadLine` makes of the octets that have arrived, wherever the last call stopped.
use iocp_http_runtime.Prelude.{
  ℕ, zero, suc, ◌+◌, ◌-◌, ◌^◌, ◌≤◌, ◌<◌, ◌≡◌, ◌≢◌, refl, sym, ap, ◌∙◌, subst, List, [], ◌∷◌, ◌++◌,
  append_assoc, length, length-append, get_elem?, take, drop, some, ok, ◌>>=◌, arith,
}
use iocp_http_runtime.Buffer.Sequence.{BufferSequence, at, copy_to}
use iocp_http_runtime.Buffer.Sequence.Read.{bytes, IsSequence, at-bytes, copy_to-bytes}
use iocp_http_runtime.Protocol.Http.Parser.{
  HttpRequestParser, LineResult, found, read_cr, read_loop, take_line, read_line,
}

-- No octet of a line is CR or LF.
abbrev pub IsText : List ℕ → Type 0
IsText [] = Unit
IsText (c ∷ cs) = (c ≢ 10) × (c ≢ 13) × IsText cs

get_elem?-middle :
    (xs : List ℕ) (y : ℕ) (ys : List ℕ) → get_elem? (xs ++ y ∷ ys) (length xs) ≡ some y
get_elem?-middle [] y ys = refl
get_elem?-middle (x ∷ xs) y ys = get_elem?-middle xs y ys

at-middle :
    {s : BufferSequence} (before : List ℕ) (c : ℕ) (behind : List ℕ)
    → IsSequence s
    → bytes s ≡ before ++ c ∷ behind
    → at s (length before) ≡ ok c
at-middle {s} before c behind v e =
    at-bytes (length before) v
    ∙ ground (arith, ap (λ ys. get_elem? ys (length before)) e, get_elem?-middle before c behind)

snoc_assoc : (xs : List ℕ) (y : ℕ) (ys : List ℕ) → xs ++ y ∷ ys ≡ (xs ++ y ∷ []) ++ ys
snoc_assoc [] y ys = refl
snoc_assoc (x ∷ xs) y ys = ap (λ zs. x ∷ zs) (snoc_assoc xs y ys)

-- Over the text of a line, from anywhere in it, up to the CR and LF at its end.
read_loop_line :
    (rest : List ℕ) (fuel start maximum : ℕ) (before behind : List ℕ) {s : BufferSequence}
    → IsSequence s
    → bytes s ≡ before ++ (rest ++ 13 ∷ 10 ∷ behind)
    → IsText rest
    → start ≤ length before
    → length before + length rest ≤ start + maximum
    → s.size < 2 ^ 63
    → length rest < fuel
    → read_loop fuel s start maximum (length before) ≡ ok (found (length before + length rest))
unfolding read_loop read_cr
read_loop_line rest zero start maximum before behind v e text h fit small enough =
    absurd (omega arith)
read_loop_line [] (suc fuel) start maximum before behind {s} v e text h fit small enough = ground (
  arith,
  v.sized,
  ap length e,
  length-append before (13 ∷ 10 ∷ behind),
  at-middle before 13 (10 ∷ behind) v e,
  lf,
)
  where
    lf : at s (length before + 1) ≡ ok 10
    lf =
        ap (at s) {x = length before + 1} {y = length (before ++ 13 ∷ [])}
          (omega (arith, length-append before (13 ∷ [])))
        ∙ at-middle (before ++ 13 ∷ []) 10 behind v (e ∙ snoc_assoc before 13 (10 ∷ behind))
read_loop_line (c ∷ rest) (suc fuel) start maximum before behind {s} v e text h fit small enough =
    let longer : length (before ++ c ∷ []) ≡ length before + 1 =
      omega (arith, length-append before (c ∷ [])) in
    let step : read_loop fuel s start maximum (length before + 1)
        ≡ ok (found (length before + 1 + length rest)) =
      subst (λ n. read_loop fuel s start maximum n ≡ ok (found (n + length rest))) longer
        (read_loop_line rest fuel start maximum (before ++ c ∷ []) behind v
          (e ∙ snoc_assoc before c (rest ++ 13 ∷ 10 ∷ behind)) text.2 (omega (arith, longer))
          (omega (arith, longer)) small (omega arith)) in
    ground (
      arith,
      v.sized,
      ap length e,
      length-append before (c ∷ (rest ++ 13 ∷ 10 ∷ behind)),
      at-middle before c (rest ++ 13 ∷ 10 ∷ behind) v e,
      step,
    )

slice_middle :
    (before line behind : List ℕ)
    → take (length line) (drop (length before) (before ++ (line ++ behind))) ≡ line
slice_middle [] [] behind = refl
slice_middle [] (c ∷ line) behind = ap (λ cs. c ∷ cs) (slice_middle [] line behind)
slice_middle (c ∷ before) line behind = slice_middle before line behind

-- Behind the loop: the line is copied out, and the next one begins behind its LF.
take_line-found :
    (p : HttpRequestParser) (before line behind : List ℕ) {s : BufferSequence}
    → IsSequence s
    → bytes s ≡ before ++ (line ++ 13 ∷ 10 ∷ behind)
    → p.line_start ≡ length before
    → s.size < 2 ^ 63
    → take_line p s (found (length before + length line))
      ≡ ok (
        LineResult.complete line,
        record p {
          scan_offset = length before + length line + 2;
          line_start = length before + length line + 2;
        },
      )
unfolding take_line
take_line-found p before line behind {s} v e start small =
    let size =
      ap length e
      ∙ length-append before (line ++ 13 ∷ 10 ∷ behind)
      ∙ ap (λ n. length before + n) (length-append line (13 ∷ 10 ∷ behind)) in
    let copied : copy_to s (length before) (length line) ≡ ok line =
      copy_to-bytes (length before) (length line) v
      ∙ ground (
        arith,
        size,
        ap (λ ys. take (length line) (drop (length before) ys)) e,
        slice_middle before line (13 ∷ 10 ∷ behind),
      ) in
    ground (arith, size, v.sized, start, copied)

-- `ReadLine` finds the line at the line start that CR and LF end, if it has no CR or LF of its own
-- and is within the limit, wherever in it or at its end the last call stopped: it answers the line,
-- and the next line begins behind the LF.
pub read_line_lem :
    (p : HttpRequestParser) (before seen rest behind : List ℕ) (maximum : ℕ) {s : BufferSequence}
    → IsSequence s
    → bytes s ≡ before ++ ((seen ++ rest) ++ 13 ∷ 10 ∷ behind)
    → p.line_start ≡ length before
    → p.scan_offset ≡ length before + length seen
    → IsText rest
    → length (seen ++ rest) ≤ maximum
    → s.size < 2 ^ 63
    → read_line p s maximum
      ≡ ok (
        LineResult.complete (seen ++ rest),
        record p {
          scan_offset = length before + length (seen ++ rest) + 2;
          line_start = length before + length (seen ++ rest) + 2;
        },
      )
unfolding read_line
read_line_lem p before seen rest behind maximum {s} v e start scan text fit small =
    let flat : bytes s ≡ (before ++ seen) ++ (rest ++ 13 ∷ 10 ∷ behind) =
      e
      ∙ ap (λ ys. before ++ ys) (append_assoc seen rest (13 ∷ 10 ∷ behind))
      ∙ sym (append_assoc before seen (rest ++ 13 ∷ 10 ∷ behind)) in
    let joint = length-append before seen in
    let whole = length-append seen rest in
    let size =
      ap length flat
      ∙ length-append (before ++ seen) (rest ++ 13 ∷ 10 ∷ behind)
      ∙ ap (λ n. length (before ++ seen) + n) (length-append rest (13 ∷ 10 ∷ behind)) in
    let scanned =
      read_loop_line rest (s.size - p.scan_offset) p.line_start maximum (before ++ seen) behind v
        flat text (omega (arith, joint, start)) (omega (arith, joint, whole, start, fit)) small
        (omega (arith, size, v.sized, joint, scan)) in
    ap (λ r. r >>= take_line p s)
      (ap (read_loop (s.size - p.scan_offset) s p.line_start maximum) (scan ∙ sym joint)
        ∙ scanned
        ∙ ap (λ n. ok (found n)) (omega (arith, joint, whole)))
    ∙ take_line-found p before (seen ++ rest) behind v e start small
