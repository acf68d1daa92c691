-- ===== src/Protocol/Http2/Outbound/Unanswered.antt =====
-- What `UpdateStreamWindow` does to a stream that waits for its response.
use iocp_http_runtime.Prelude.{
  ℕ, ◌<◌, ◌≡◌, refl, ap, ◌∙◌, List, [], Bool, true, false, ◌||◌, ◌==◌, if_elim, some, ℤ, pos, ◌+ℤ◌,
  arith,
}
use iocp_http_runtime.Protocol.Http2.Outbound.{
  StreamOutput, H2OutboundScheduler, is_beyond, is_done, flush_stream, flush_one,
  update_stream_window,
}
use iocp_http_runtime.Protocol.Http2.Outbound.Flush.{flush_stream_lem}
use iocp_http_runtime.Protocol.Http2.Outbound.Windows.{IsBounded}
use iocp_http_runtime.Protocol.Http2.Outbound.Invariant.{IsValid, raised-IsBounded}
use iocp_http_runtime.Protocol.Http2.Outbound.Streams.{find, erase, Each-find}

-- A stream without a body is done at once.
flush_stream-empty :
    (id maximum initial : ℕ) (s : StreamOutput) (window : ℤ)
    → IsBounded initial s
    → s.response_submitted ≡ false
    → 0 < maximum
    → is_done (flush_stream id maximum s window).0 ≡ true
flush_stream-empty id maximum initial s window b new h =
    let f = flush_stream_lem id maximum s window b.offset_within b.body_size h in
    ap is_done f.stream ∙ ground (arith, (b.unsent new).0, (b.unsent new).1)

update_done :
    (s : H2OutboundScheduler) (id : ℕ) (stream : StreamOutput)
    → is_done (flush_stream id s.maximum_frame_size stream s.connection_window).0 ≡ true
    → (flush_one s id stream).0.streams ≡ erase id s.streams
unfolding flush_one
update_done s id stream e = rw e refl

abbrev Drops : ℕ → List (ℕ × StreamOutput) → Bool × List (List ℕ) × H2OutboundScheduler → Type 0
Drops id streams r = (r.0 ≡ true) × (r.2.streams ≡ erase id streams)

-- A window update that is taken on a stream whose response has not been submitted drops the stream:
-- the scheduler knows it no more.
pub update_stream_window-drops :
    (s : H2OutboundScheduler) (id increment : ℕ) (stream : StreamOutput)
    → IsValid s
    → find id s.streams ≡ some stream
    → stream.response_submitted ≡ false
    → s.closed ≡ false
    → 0 < increment
    → is_beyond (stream.window +ℤ pos increment) ≡ false
    → ((update_stream_window s id increment).0 ≡ true)
      × ((update_stream_window s id increment).2.streams ≡ erase id s.streams)
unfolding update_stream_window
update_stream_window-drops s id increment stream v e new open_now some_increment within =
    let b = Each-find (IsBounded s.initial_window_size) id s.streams v.bounded e in
    let window = stream.window +ℤ pos increment in
    let raised : StreamOutput = record stream { window = window } in
    let flushed = flush_one s id raised in
    let dropped = update_done s id raised (
      flush_stream-empty id s.maximum_frame_size s.initial_window_size raised s.connection_window
        (raised-IsBounded s.initial_window_size stream increment b within) new v.frame_size) in
    rw (e, update_stream_window)
      (if_elim (Drops id s.streams) (s.closed || (increment == 0 || is_beyond window))
        (false, [], s) (true, flushed.1, flushed.0) (λ bad. ground (arith, bad, open_now, within))
        (λ good. (refl, dropped)))
