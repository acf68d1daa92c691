-- ===== src/Protocol/Http2/Outbound/Windows.antt =====
-- What H2OutboundScheduler keeps: windows within 32 bits, and no stream waits that could send.
use iocp_http_runtime.Prelude.{
  ℕ, ◌+◌, ◌-◌, ◌^◌, ◌≤◌, ◌<◌, ◌≡◌, ◌⊎◌, inl, inr, sym, subst, min, List, [], ◌∷◌, ◌++◌, true, false,
  if◌then◌else◌, length, if_elim, ℤ, pos, pos_part, neg_part, ◌-ℤ◌, one_part, -ℤ_within, arith,
}
use iocp_http_runtime.Protocol.Http2.Outbound.{
  StreamOutput, maximum_window, is_done, flush_stream, flush_all,
}
use iocp_http_runtime.Protocol.Http2.Outbound.Flush.{allowance, flush_stream_lem}
use iocp_http_runtime.Protocol.Http2.Outbound.Streams.{Each}

-- A stream's window is at most `kMaximumWindow`, and not further below the initial window than that;
-- the offset is within the body, and there is no body before the response.
pub record IsBounded (initial : ℕ) (s : StreamOutput) : Type 0 where
  pub offset_within : s.offset ≤ length s.body
  pub body_size : length s.body < 2 ^ 63
  pub above : pos_part s.window ≤ maximum_window
  pub unsent : s.response_submitted ≡ false → (s.offset ≡ 0) × (length s.body ≡ 0)
  pub below : initial + neg_part s.window ≤ pos_part s.window + maximum_window

-- A response that is not sent whole waits for one of the two windows.
abbrev pub Waits : ℤ → StreamOutput → Type 0
Waits window s =
    s.response_submitted ≡ true
    → (s.offset < length s.body) × ((pos_part s.window ≡ 0) ⊎ (pos_part window ≡ 0))

-- The connection window is not negative, and at most `kMaximumWindow`.
abbrev pub IsWindow : ℤ → Type 0
IsWindow window = (neg_part window ≡ 0) × (pos_part window ≤ maximum_window)

abbrev pub IsSpent : ℤ → ℤ → Type 0
IsSpent old new = IsWindow new × (pos_part new ≤ pos_part old)

pub Waits-less :
    (old new : ℤ) → pos_part new ≤ pos_part old → (s : StreamOutput) → Waits old s → Waits new s
Waits-less old new h s w e = ((w e).0, elim (w e).1 [ inl z ↦ inl z | inr z ↦ inr (ground arith) ])

-- What `FlushStreamLocked` leaves.
pub record IsFlushed (initial : ℕ) (s : StreamOutput) (window : ℤ)
    (r : StreamOutput × ℤ × List (List ℕ)) : Type 0 where
  pub bounded : IsBounded initial r.0
  pub spent : IsSpent window r.1
  pub blocked :
      is_done r.0 ≡ false
      → (r.0.offset < length r.0.body) × ((pos_part r.0.window ≡ 0) ⊎ (pos_part r.1 ≡ 0))

least : (a b c : ℕ) → min (min a b) c < a → (min (min a b) c ≡ b) ⊎ (min (min a b) c ≡ c)
least a b c h = ground arith

pub flush_stream-IsFlushed :
    (initial id maximum : ℕ) (s : StreamOutput) (window : ℤ)
    → IsBounded initial s
    → IsWindow window
    → 0 < maximum
    → initial ≤ maximum_window
    → IsFlushed initial s window (flush_stream id maximum s window)
flush_stream-IsFlushed initial id maximum s window b w h small =
    let r = flush_stream id maximum s window in
    let f = flush_stream_lem id maximum s window b.offset_within b.body_size h in
    let a = allowance s window in
    let within = -ℤ_within s.window a (omega arith) in
    let left = -ℤ_within window a (omega arith) in
    let after : StreamOutput = record s { offset = s.offset + a; window = s.window -ℤ pos a } in
    let spent : IsSpent window (window -ℤ pos a) =
      ((ground (arith, left, w), ground (arith, left, w)), ground (arith, left)) in
    let result : IsFlushed initial s window (after, window -ℤ pos a, r.2) = record {
      bounded = record {
        offset_within = omega (arith, b.offset_within);
        body_size = b.body_size;
        unsent = λ e. (omega (arith, (b.unsent e).0, (b.unsent e).1), (b.unsent e).1);
        above = omega (arith, within.0, b.above);
        below = ground (arith, within.0, within.1, b.below, one_part s.window);
      };
      spent = spent;
      blocked = λ e. (
        ground (arith, b.offset_within),
        elim (least (length s.body - s.offset) (pos_part s.window) (pos_part window)
            (ground (arith, b.offset_within))) [
              | inl z ↦ inl (ground (arith, within.0))
              | inr z ↦ inr (ground (arith, left.0))
            ],
      );
    } in
    subst (λ t. IsFlushed initial s window (t, r.1, r.2)) (sym f.stream)
      (subst (λ c. IsFlushed initial s window (after, c, r.2)) (sym f.connection_window) result)

-- What `FlushAllLocked` leaves.
pub record AllFlushed (initial : ℕ) (window : ℤ) (r : List (ℕ × StreamOutput) × ℤ × List (List ℕ))
    : Type 0 where
  pub bounded : Each (IsBounded initial) r.0
  pub spent : IsSpent window r.1
  pub waits : Each (Waits r.1) r.0

flush_all-more :
    (initial maximum id : ℕ) (s : StreamOutput) (streams : List (ℕ × StreamOutput)) (window : ℤ)
    → IsBounded initial s
    → IsFlushed initial s window (flush_stream id maximum s window)
    → (let next = (flush_stream id maximum s window).1 in
        AllFlushed initial next (flush_all maximum streams next))
    → AllFlushed initial window (flush_all maximum streams window)
    → AllFlushed initial window (flush_all maximum ((id, s) ∷ streams) window)
unfolding flush_all
flush_all-more initial maximum id s streams window b flushed rest others =
    let r = flush_stream id maximum s window in
    let after = flush_all maximum streams r.1 in
    let same = flush_all maximum streams window in
    let spent : IsSpent window after.1 =
      (rest.spent.0, omega (arith, rest.spent.1, flushed.spent.1)) in
    let gone : List (ℕ × StreamOutput) × ℤ × List (List ℕ) = (after.0, after.1, r.2 ++ after.2) in
    let kept : List (ℕ × StreamOutput) × ℤ × List (List ℕ) =
      ((id, r.0) ∷ after.0, after.1, r.2 ++ after.2) in
    if_elim (AllFlushed initial window) s.response_submitted (if is_done r.0 then gone else kept)
      ((id, s) ∷ same.0, same.1, same.2)
      (λ y.
        if_elim (AllFlushed initial window) (is_done r.0) gone kept
          (λ done. record { bounded = rest.bounded; spent = spent; waits = rest.waits })
          (λ more. record {
            bounded = (flushed.bounded, rest.bounded);
            spent = spent;
            waits =
                (Waits-less r.1 after.1 rest.spent.1 r.0 (λ e. flushed.blocked more), rest.waits);
          }))
      (λ n. record {
        bounded = (b, others.bounded);
        spent = others.spent;
        waits = ((λ e. ground (arith, n, e)), others.waits);
      })

pub flush_all-AllFlushed :
    (initial maximum : ℕ) (streams : List (ℕ × StreamOutput)) (window : ℤ)
    → Each (IsBounded initial) streams
    → IsWindow window
    → 0 < maximum
    → initial ≤ maximum_window
    → AllFlushed initial window (flush_all maximum streams window)
unfolding flush_all
flush_all-AllFlushed initial maximum [] window b w h small = record {
  bounded = tt;
  spent = (w, omega arith);
  waits = tt;
}
flush_all-AllFlushed initial maximum ((id, s) ∷ streams) window b w h small =
    let f = flush_stream-IsFlushed initial id maximum s window b.0 w h small in
    flush_all-more initial maximum id s streams window b.0 f
      (flush_all-AllFlushed initial maximum streams _ b.1 f.spent.0 h small)
      (flush_all-AllFlushed initial maximum streams window b.1 w h small)
