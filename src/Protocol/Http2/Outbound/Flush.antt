-- ===== src/Protocol/Http2/Outbound/Flush.antt =====
-- What `FlushStreamLocked` sends of a response body.
use iocp_http_runtime.Prelude.{
  ℕ, zero, suc, ◌+◌, ◌-◌, ◌^◌, ◌≤◌, ◌<◌, ◌≡◌, ◌≢◌, inl, inr, refl, sym, ap, ap₂, ◌∙◌, min, List, [],
  ◌∷◌, ◌++◌, Bool, false, ◌&&◌, ◌==◌, if◌then◌else◌, ltb, length, take, drop, length-take,
  length-drop, drop-drop, take-nil, Bool-cases, add_size, ℤ, pos, pos_part, ◌-ℤ◌, -ℤ_within,
  sub-sub, sub_zero, arith,
}
use iocp_http_runtime.Protocol.Http2.Frames.FrameType
use iocp_http_runtime.Protocol.Http2.Frames.FrameFlags
use iocp_http_runtime.Protocol.Http2.Outbound.{
  StreamOutput, is_positive, make_frame, flush_bytes, advance, flush_loop, flush_stream, is_done,
}

-- DATA frames that carry these chunks; the last one ends the stream, if any does.
abbrev pub data_frames : ℕ → Bool → List (List ℕ) → List (List ℕ)
data_frames stream_id ends [] = []
data_frames stream_id ends (chunk ∷ []) =
    make_frame FrameType.data_frame (if ends then FrameFlags.end_stream else 0) stream_id chunk ∷ []
data_frames stream_id ends (chunk ∷ next ∷ chunks) =
    make_frame FrameType.data_frame 0 stream_id chunk ∷ data_frames stream_id ends (next ∷ chunks)

abbrev pub joined : List (List ℕ) → List ℕ
joined [] = []
joined (chunk ∷ chunks) = chunk ++ joined chunks

-- No chunk is empty, and each fits a frame.
abbrev pub AllFit : ℕ → List (List ℕ) → Type 0
AllFit maximum [] = Unit
AllFit maximum (chunk ∷ chunks) =
    (0 < length chunk) × (length chunk ≤ maximum) × AllFit maximum chunks

-- As much as is left of the body and as both windows allow.
abbrev pub allowance : StreamOutput → ℤ → ℕ
allowance s window = min (min (length s.body - s.offset) (pos_part s.window)) (pos_part window)

pub record Flushes (stream_id maximum : ℕ) (s : StreamOutput) (window : ℤ)
    (r : StreamOutput × ℤ × List (List ℕ)) : Type 0 where
  pub stream : r.0 ≡ record s {
    offset = s.offset + allowance s window;
    window = s.window -ℤ pos (allowance s window);
  }
  pub connection_window : r.1 ≡ window -ℤ pos (allowance s window)
  pub chunks : List (List ℕ)
  pub frames : r.2 ≡ data_frames stream_id (is_done r.0) chunks
  pub sent : joined chunks ≡ take (allowance s window) (drop s.offset s.body)
  pub fit : AllFit maximum chunks

abbrev IsSized : StreamOutput → Type 0
IsSized s = (s.offset ≤ length s.body) × (length s.body < 2 ^ 63)

-- Where the loop ends.
flush_end :
    (stream_id maximum : ℕ) (s : StreamOutput) (window : ℤ)
    → IsSized s
    → allowance s window ≡ 0
    → Flushes stream_id maximum s window (s, window, [])
flush_end stream_id maximum s window v e = record {
  stream =
      ap₂ (λ o w. record s { offset = o; window = w }) (ground (arith, e))
        (sym (sub_zero s.window) ∙ ap (λ n. s.window -ℤ pos n) (sym e));
  connection_window = sym (sub_zero window) ∙ ap (λ n. window -ℤ pos n) (sym e);
  chunks = [];
  frames = refl;
  sent = sym (ap (λ n. take n (drop s.offset s.body)) e);
  fit = tt;
}

take-split : (m n : ℕ) (xs : List ℕ) → take m xs ++ take n (drop m xs) ≡ take (m + n) xs
take-split zero n xs = ap (λ k. take k xs) {x = n} {y = 0 + n} (omega arith)
take-split (suc m) n [] = take-nil n ∙ sym (take-nil (suc m + n))
take-split (suc m) n (x ∷ xs) =
    ap (λ ys. x ∷ ys) (take-split m n xs)
    ∙ ap (λ k. take k (x ∷ xs)) {x = suc (m + n)} {y = suc m + n} (omega arith)

take-join :
    (m n : ℕ) (o : ℕ) (xs : List ℕ)
    → take m (drop o xs) ++ take n (drop (o + m) xs) ≡ take (m + n) (drop o xs)
take-join m n o xs =
    ap (λ ys. take m (drop o xs) ++ take n ys) (sym (drop-drop m o xs)) ∙ take-split m n (drop o xs)

data_frames-more :
    (stream_id : ℕ) (ends first_ends : Bool) (chunk : List ℕ) (chunks : List (List ℕ))
    → (chunks ≡ [] → first_ends ≡ ends)
    → (chunks ≢ [] → first_ends ≡ false)
    → make_frame FrameType.data_frame
          (if first_ends then FrameFlags.end_stream else 0)
          stream_id
          chunk
        ∷ data_frames stream_id ends chunks
      ≡ data_frames stream_id ends (chunk ∷ chunks)
data_frames-more stream_id ends first_ends chunk [] h k =
    ap
      (λ b.
        make_frame FrameType.data_frame (if b then FrameFlags.end_stream else 0) stream_id chunk
        ∷ [])
      (h refl)
data_frames-more stream_id ends first_ends chunk (next ∷ chunks) h k =
    ap
      (λ b.
        make_frame FrameType.data_frame (if b then FrameFlags.end_stream else 0) stream_id chunk
        ∷ data_frames stream_id ends (next ∷ chunks))
      (k (λ e. ground arith))

joined_nil :
    (maximum : ℕ) (chunks : List (List ℕ))
    → AllFit maximum chunks
    → joined chunks ≡ []
    → chunks ≡ []
joined_nil maximum [] f e = refl
joined_nil maximum ((octet ∷ chunk) ∷ chunks) f e = ground arith
joined_nil maximum ([] ∷ chunks) f e = absurd (omega arith)

-- A round that sends, and what the rounds behind it do.
module _ (stream_id maximum : ℕ) (s : StreamOutput) (window : ℤ) (v : IsSized s) (h : 0 < maximum)
    (left : s.offset < length s.body) (allowed : 0 < pos_part s.window)
    (free : 0 < pos_part window) where
  abbrev sending : ℕ
  sending = flush_bytes maximum s window

  abbrev rest_allowance : ℕ
  rest_allowance = allowance (advance s sending) (window -ℤ pos sending)

  sending_some : 0 < sending
  sending_some = ground (arith, v)

  sending_most : sending ≤ maximum
  sending_most = ground arith

  sending_fits :
      (s.offset + sending ≤ length s.body)
      × (sending ≤ pos_part s.window)
      × (sending ≤ pos_part window)
  sending_fits = ground (arith, v)

  next_offset : (advance s sending).offset ≡ s.offset + sending
  next_offset = ground (arith, v, sending_fits)

  allowance-advance : sending + rest_allowance ≡ allowance s window
  allowance-advance = ground (
    arith,
    v,
    sending_fits,
    next_offset,
    -ℤ_within s.window sending (sending_fits.1),
    -ℤ_within window sending (sending_fits.2),
  )

  next-IsSized : IsSized (advance s sending)
  next-IsSized = (ground (arith, next_offset, sending_fits), v.1)

  flush_more :
      (r : StreamOutput × ℤ × List (List ℕ))
      → Flushes stream_id maximum (advance s sending) (window -ℤ pos sending) r
      → Flushes stream_id maximum s window (
        r.0,
        r.1,
        make_frame FrameType.data_frame
              (if add_size s.offset sending == length s.body then FrameFlags.end_stream else 0)
              stream_id
              (take sending (drop s.offset s.body))
            ∷ r.2,
      )
  flush_more r f = record {
    stream =
        f.stream
        ∙ ap₂ (λ o w. record s { offset = o; window = w })
            (ground (arith, next_offset, allowance-advance))
            (sub-sub s.window sending rest_allowance
              ∙ ap (λ n. s.window -ℤ pos n) allowance-advance);
    connection_window =
        f.connection_window
        ∙ sub-sub window sending rest_allowance
        ∙ ap (λ n. window -ℤ pos n) allowance-advance;
    chunks = take sending (drop s.offset s.body) ∷ f.chunks;
    frames =
        ap
          (λ fs.
            make_frame FrameType.data_frame
              (if add_size s.offset sending == length s.body then FrameFlags.end_stream else 0)
              stream_id (take sending (drop s.offset s.body))
            ∷ fs)
          f.frames
        ∙ data_frames-more stream_id (is_done r.0) (add_size s.offset sending == length s.body)
            (take sending (drop s.offset s.body)) f.chunks none_left more_left;
    sent =
        ap (λ ys. take sending (drop s.offset s.body) ++ ys)
          (f.sent ∙ ap (λ o. take rest_allowance (drop o s.body)) next_offset)
        ∙ take-join sending rest_allowance s.offset s.body
        ∙ ap (λ n. take n (drop s.offset s.body)) allowance-advance;
    fit = (ground (arith, taken, sending_some), ground (arith, taken, sending_most), f.fit);
  }
    where
      taken : length (take sending (drop s.offset s.body)) ≡ sending
      taken = ground (
        arith,
        length-take sending (drop s.offset s.body),
        length-drop s.offset s.body,
        sending_fits,
      )

      sent_rest : length (joined f.chunks) ≡ rest_allowance
      sent_rest =
          ap length f.sent
          ∙ ground (
            arith,
            length-take rest_allowance (drop (advance s sending).offset s.body),
            length-drop (advance s sending).offset s.body,
          )

      none_left : f.chunks ≡ [] → (add_size s.offset sending == length s.body) ≡ is_done r.0
      none_left e =
          ap (λ o. o == length s.body)
            (ground (
              arith,
              sent_rest,
              ap (λ cs. length (joined cs)) e,
              next_offset,
              ap (λ t. t.offset) f.stream,
            ))
          ∙ ap (λ n. r.0.offset == n) (sym (ap (λ t. length t.body) f.stream))

      more_left : f.chunks ≢ [] → (add_size s.offset sending == length s.body) ≡ false
      more_left n = elim (Bool-cases (add_size s.offset sending == length s.body)) [
        | inr e ↦ e
        | inl e ↦ absurd (
            n (
              joined_nil maximum f.chunks f.fit (
                f.sent
                ∙ ap (λ k. take k (drop (advance s sending).offset s.body)) {x = rest_allowance}
                    {y = 0} (ground (arith, e)))))
      ]

flush_loop_lem :
    (fuel stream_id maximum : ℕ) (s : StreamOutput) (window : ℤ)
    → IsSized s
    → 0 < maximum
    → length s.body - s.offset ≤ fuel
    → Flushes stream_id maximum s window (flush_loop fuel stream_id maximum s window)
unfolding flush_loop
flush_loop_lem zero stream_id maximum s window v h k =
    flush_end stream_id maximum s window v (ground arith)
flush_loop_lem (suc fuel) stream_id maximum s window v h k =
    elim (Bool-cases
      (ltb s.offset (length s.body) && (is_positive s.window && is_positive window))) [
        | inl on ↦ rw on (
            flush_more stream_id maximum s window v h (ground (arith, on)) (ground (arith, on))
              (ground (arith, on)) _
              (flush_loop_lem fuel stream_id maximum (advance s (flush_bytes maximum s window))
                (window -ℤ pos (flush_bytes maximum s window))
                (next-IsSized stream_id maximum s window v h (ground (arith, on))
                  (ground (arith, on)) (ground (arith, on)))
                h
                (ground (
                  arith,
                  on,
                  next_offset stream_id maximum s window v h (ground (arith, on))
                      (ground (arith, on)) (ground (arith, on)),
                  sending_some stream_id maximum s window v h (ground (arith, on))
                      (ground (arith, on)) (ground (arith, on)),
                ))))
        | inr off ↦ rw off (flush_end stream_id maximum s window v (ground (arith, off)))
      ]

-- `FlushStreamLocked` on a stream whose offset is within its body: the payloads of its DATA frames
-- are, in order, exactly as many of the next octets of the body as both windows allow, none of them
-- empty or above the frame size; the last frame ends the stream exactly if it sends the last octet;
-- the offset goes up and both windows go down by what was sent.
pub flush_stream_lem :
    (stream_id maximum : ℕ) (s : StreamOutput) (window : ℤ)
    → s.offset ≤ length s.body
    → length s.body < 2 ^ 63
    → 0 < maximum
    → Flushes stream_id maximum s window (flush_stream stream_id maximum s window)
unfolding flush_stream
flush_stream_lem stream_id maximum s window le small h =
    flush_loop_lem (length s.body) stream_id maximum s window (le, small) h (omega arith)
