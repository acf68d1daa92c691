-- ===== src/Protocol/Http2/Outbound/Blocks.antt =====
-- What `EncodeHeaderBlockLocked` sends of a header block.
use iocp_http_runtime.Prelude.{
  ℕ, zero, suc, ◌+◌, ◌-◌, ◌^◌, ◌≤◌, ◌<◌, ◌≡◌, inl, inr, refl, sym, ap, ◌∙◌, subst, List, [], ◌∷◌,
  ◌++◌, append-nil, Bool, true, false, ◌==◌, if◌then◌else◌, ltb, length, take, drop, take_all,
  take-append-drop, length-take, length-drop, drop-drop, Bool-cases, add_size, arith,
}
use iocp_http_runtime.Protocol.Http2.Outbound.{make_frame}
use iocp_http_runtime.Protocol.Http2.Outbound.Flush.{joined}
use iocp_http_runtime.Protocol.Http2.Outbound.Responses.{
  block_flags, block_bytes, block_loop, block_frames,
}

-- HEADERS is 0x01, CONTINUATION 0x09; END_HEADERS is 0x04 and END_STREAM 0x01.
abbrev pub wire_type : Bool → ℕ
wire_type first = if first then 0x01 else 0x09

abbrev pub last_flags : Bool → ℕ
last_flags end_stream = if end_stream then 0x05 else 0x04

-- A HEADERS frame and CONTINUATION frames behind it that carry these chunks; the flags are all on
-- the last one.
abbrev pub header_frames : ℕ → Bool → Bool → List (List ℕ) → List (List ℕ)
header_frames stream_id end_stream first [] = []
header_frames stream_id end_stream first (chunk ∷ []) =
    make_frame (wire_type first) (last_flags end_stream) stream_id chunk ∷ []
header_frames stream_id end_stream first (chunk ∷ next ∷ chunks) =
    make_frame (wire_type first) 0 stream_id chunk
    ∷ header_frames stream_id end_stream false (next ∷ chunks)

header_frames-more :
    (stream_id : ℕ) (end_stream first : Bool) (chunk : List ℕ) (chunks : List (List ℕ))
    → 0 < length chunks
    → make_frame (wire_type first) 0 stream_id chunk
        ∷ header_frames stream_id end_stream false chunks
      ≡ header_frames stream_id end_stream first (chunk ∷ chunks)
header_frames-more stream_id end_stream first chunk [] h = absurd (omega arith)
header_frames-more stream_id end_stream first chunk (next ∷ chunks) h = refl

abbrev pub AllAtMost : ℕ → List (List ℕ) → Type 0
AllAtMost maximum [] = Unit
AllAtMost maximum (chunk ∷ chunks) = (length chunk ≤ maximum) × AllAtMost maximum chunks

pub record Carries (stream_id maximum : ℕ) (end_stream first : Bool) (block : List ℕ)
    (frames : List (List ℕ)) : Type 0 where
  pub chunks : List (List ℕ)
  pub framed : frames ≡ header_frames stream_id end_stream first chunks
  pub whole : joined chunks ≡ block
  pub fit : AllAtMost maximum chunks
  pub some_frame : 0 < length chunks

-- A round with more behind it.
carry_more :
    (stream_id maximum : ℕ) (end_stream first : Bool) (block : List ℕ) (offset bytes : ℕ)
    (rest : List (List ℕ))
    → bytes ≤ maximum
    → Carries stream_id maximum end_stream false (drop (offset + bytes) block) rest
    → Carries stream_id maximum end_stream first
        (drop offset block)
        (make_frame (wire_type first) 0 stream_id (take bytes (drop offset block)) ∷ rest)
carry_more stream_id maximum end_stream first block offset bytes rest h c = record {
  chunks = take bytes (drop offset block) ∷ c.chunks;
  framed =
      ap (λ fs. make_frame (wire_type first) 0 stream_id (take bytes (drop offset block)) ∷ fs)
        c.framed
      ∙ header_frames-more stream_id end_stream first (take bytes (drop offset block)) c.chunks
          c.some_frame;
  whole =
      ap (λ ys. take bytes (drop offset block) ++ ys) (c.whole ∙ sym (drop-drop bytes offset block))
      ∙ take-append-drop bytes (drop offset block);
  fit = (ground (arith, length-take bytes (drop offset block)), c.fit);
  some_frame = omega arith;
}

-- The last round.
carry_last :
    (stream_id maximum : ℕ) (end_stream first : Bool) (block : List ℕ) (offset bytes : ℕ)
    → bytes ≤ maximum
    → length block ≤ offset + bytes
    → Carries stream_id maximum end_stream first (drop offset block) (
        make_frame
          (wire_type first)
          (last_flags end_stream)
          stream_id
          (take bytes (drop offset block))
        ∷ [])
carry_last stream_id maximum end_stream first block offset bytes h k = record {
  chunks = take bytes (drop offset block) ∷ [];
  framed = refl;
  whole =
      append-nil (take bytes (drop offset block))
      ∙ take_all bytes (drop offset block) (omega (arith, length-drop offset block));
  fit = (ground (arith, length-take bytes (drop offset block)), tt);
  some_frame = omega arith;
}

block_loop_lem :
    (fuel stream_id maximum : ℕ) (end_stream : Bool) (block : List ℕ) (offset : ℕ) (first : Bool)
    → offset ≤ length block
    → length block < 2 ^ 63
    → 0 < maximum
    → length block - offset < fuel
    → Carries stream_id maximum end_stream first
        (drop offset block)
        (block_loop fuel stream_id maximum end_stream block offset first)
unfolding block_loop
block_loop_lem zero stream_id maximum end_stream block offset first le small h k =
    absurd (omega arith)
block_loop_lem (suc fuel) stream_id maximum end_stream block offset first le small h k =
    let bytes = block_bytes maximum block offset in
    let next = add_size offset bytes in
    let next_eq : next ≡ offset + bytes = ground arith in
    let rest = block_loop fuel stream_id maximum end_stream block next false in
    let frame = λ (flags : ℕ).
      make_frame (wire_type first) flags stream_id (take bytes (drop offset block)) in
    elim (Bool-cases (ltb next (length block))) [
      | inl more ↦
          subst
            (λ (p : Bool × Bool).
              Carries stream_id maximum end_stream first (drop offset block)
                (frame (block_flags p.0 end_stream) ∷ (if p.1 then rest else [])))
            {x = (false, true)} {y = (next == length block, ltb next (length block))}
            (ground (arith, more))
            (carry_more stream_id maximum end_stream first block offset bytes rest (ground arith) (
              subst (λ n. Carries stream_id maximum end_stream false (drop n block) rest) next_eq
                (block_loop_lem fuel stream_id maximum end_stream block next false
                  (ground (arith, more)) small h (ground (arith, more)))))
      | inr last ↦
          subst
            (λ (p : Bool × Bool).
              Carries stream_id maximum end_stream first (drop offset block)
                (frame (block_flags p.0 end_stream) ∷ (if p.1 then rest else [])))
            {x = (true, false)} {y = (next == length block, ltb next (length block))}
            (ground (arith, last))
            (carry_last stream_id maximum end_stream first block offset bytes (ground arith)
              (ground (arith, last)))
    ]

-- A header block below 2 ^ 63 octets is sent, for a frame size above zero, as a HEADERS frame and
-- CONTINUATION frames directly behind it, none above the frame size, whose payloads are the block in
-- order; the last of them, and only that one, has the flag END_HEADERS (0x4), and END_STREAM (0x1) if
-- there is no body.
pub block_frames_lem :
    (stream_id maximum : ℕ) (end_stream : Bool) (block : List ℕ)
    → length block < 2 ^ 63
    → 0 < maximum
    → Carries stream_id maximum end_stream true block
        (block_frames stream_id maximum end_stream block)
unfolding block_frames
block_frames_lem stream_id maximum end_stream block small h =
    block_loop_lem (suc (length block)) stream_id maximum end_stream block 0 true (omega arith)
      small h (omega arith)
