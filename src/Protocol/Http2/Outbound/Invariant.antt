-- ===== src/Protocol/Http2/Outbound/Invariant.antt =====
-- The window updates, and the opening and closing of streams, keep the invariant of H2OutboundScheduler.
use iocp_http_runtime.Prelude.{
  ℕ, ◌≤◌, ◌<◌, ◌≡◌, inl, inr, refl, subst, List, [], Bool, true, false, not, ◌||◌, ◌==◌, Result, ok,
  throws, invalid_argument, if_elim, Option-cases, ℤ, pos, ◌+ℤ◌, +ℤ_parts, one_part, arith,
}
use iocp_http_runtime.Protocol.Http2.Hpack.Table.{HpackCodec}
use iocp_http_runtime.Protocol.Http2.Outbound.{
  StreamOutput, H2OutboundScheduler, maximum_window, refuses_sizes, is_beyond, is_done,
  new_scheduler, init, open_stream, close_stream, close, flush_stream, flush_all, flush_one,
  update_connection_window, update_stream_window,
}
use iocp_http_runtime.Protocol.Http2.Outbound.Windows.{
  IsBounded, Waits, IsWindow, Waits-less, flush_stream-IsFlushed, flush_all-AllFlushed,
}
use iocp_http_runtime.Protocol.Http2.Outbound.Streams.{
  find, Each, Each-find, Each-erase, Each-assign, Each-map,
}

pub record IsValid (s : H2OutboundScheduler) : Type 0 where
  pub connection : IsWindow s.connection_window
  pub initial : s.initial_window_size ≤ maximum_window
  pub frame_size : 0 < s.maximum_frame_size
  pub bounded : Each (IsBounded s.initial_window_size) s.streams
  pub waits : Each (Waits s.connection_window) s.streams

abbrev IsOk : Result H2OutboundScheduler → Type 0
IsOk (ok s) = IsValid s
IsOk (throws failure) = Unit

-- For the answer, the frames and the new state of an operation.
abbrev pub Keeps : Bool × List (List ℕ) × H2OutboundScheduler → Type 0
Keeps r = IsValid r.2

pub init-IsValid :
    (sender : Bool) (initial maximum : ℕ) (encoder : HpackCodec) {s : H2OutboundScheduler}
    → init sender initial maximum encoder ≡ ok s
    → IsValid s
unfolding init
init-IsValid sender initial maximum encoder {s} e = subst IsOk e (
    if_elim IsOk (not sender || refuses_sizes initial maximum) (throws invalid_argument)
      (ok (new_scheduler initial maximum encoder)) (λ bad. tt)
      (λ good. record {
        connection = (refl, omega arith);
        initial = ground (arith, good);
        frame_size = ground (arith, good);
        bounded = tt;
        waits = tt;
      }))

pub open_stream-IsValid :
    (s : H2OutboundScheduler) (id : ℕ) → IsValid s → IsValid (open_stream s id)
unfolding open_stream
open_stream-IsValid s id v =
    if_elim IsValid s.closed _ _ (λ y. v)
      (λ n. elim (Option-cases (find id s.streams)) [
        | inl e ↦ rw e (record {
          connection = v.connection;
          initial = v.initial;
          frame_size = v.frame_size;
          bounded = (
            record {
              offset_within = omega arith;
              body_size = omega arith;
              unsent = λ e. (refl, refl);
              above = v.initial;
              below = omega (arith, v.initial);
            },
            v.bounded,
          );
          waits = ((λ e. ground arith), v.waits);
        })
        | inr (stream, e) ↦ rw e v
      ])

pub close_stream-IsValid :
    (s : H2OutboundScheduler) (id : ℕ) → IsValid s → IsValid (close_stream s id)
unfolding close_stream
close_stream-IsValid s id v = record {
  connection = v.connection;
  initial = v.initial;
  frame_size = v.frame_size;
  bounded = Each-erase _ id s.streams v.bounded;
  waits = Each-erase _ id s.streams v.waits;
}

pub close-IsValid : (s : H2OutboundScheduler) → IsValid s → IsValid (close s)
unfolding close
close-IsValid s v = record {
  connection = v.connection;
  initial = v.initial;
  frame_size = v.frame_size;
  bounded = tt;
  waits = tt;
}

pub flush_one-IsValid :
    (s : H2OutboundScheduler) (id : ℕ) (stream : StreamOutput)
    → IsValid s
    → IsBounded s.initial_window_size stream
    → IsValid (flush_one s id stream).0
unfolding flush_one
flush_one-IsValid s id stream v b =
    let r = flush_stream id s.maximum_frame_size stream s.connection_window in
    let f =
      flush_stream-IsFlushed s.initial_window_size id s.maximum_frame_size stream
        s.connection_window b v.connection v.frame_size v.initial in
    let waits = Each-map _ _ (Waits-less s.connection_window r.1 f.spent.1) s.streams v.waits in
    record {
      connection = f.spent.0;
      initial = v.initial;
      frame_size = v.frame_size;
      bounded =
          if_elim (Each (IsBounded s.initial_window_size)) (is_done r.0) _ _
            (λ done. Each-erase _ id s.streams v.bounded)
            (λ more. Each-assign _ id r.0 s.streams v.bounded f.bounded);
      waits =
          if_elim (Each (Waits r.1)) (is_done r.0) _ _ (λ done. Each-erase _ id s.streams waits)
            (λ more. Each-assign _ id r.0 s.streams waits (λ e. f.blocked more));
    }

-- A window after an increment that does not take it beyond the maximum.
raised-IsWindow :
    (window : ℤ) (increment : ℕ)
    → IsWindow window
    → is_beyond (window +ℤ pos increment) ≡ false
    → IsWindow (window +ℤ pos increment)
raised-IsWindow window increment w h = (
  ground (arith, w.0, +ℤ_parts window (pos increment), one_part (window +ℤ pos increment)),
  ground (arith, h),
)

pub raised-IsBounded :
    (initial : ℕ) (stream : StreamOutput) (increment : ℕ)
    → IsBounded initial stream
    → is_beyond (stream.window +ℤ pos increment) ≡ false
    → IsBounded initial (record stream { window = stream.window +ℤ pos increment })
raised-IsBounded initial stream increment b h = record {
  offset_within = b.offset_within;
  body_size = b.body_size;
  unsent = b.unsent;
  above = ground (arith, h);
  below = omega (arith, b.below, +ℤ_parts stream.window (pos increment));
}

pub update_connection_window-IsValid :
    (s : H2OutboundScheduler) (increment : ℕ)
    → IsValid s
    → IsValid (update_connection_window s increment).2
unfolding update_connection_window
update_connection_window-IsValid s increment v =
    let window = s.connection_window +ℤ pos increment in
    let r = flush_all s.maximum_frame_size s.streams window in
    if_elim Keeps (s.closed || (increment == 0 || is_beyond window)) (false, [], s)
      (true, r.2, record s { streams = r.0; connection_window = r.1 }) (λ bad. v)
      (λ good.
        let f =
          flush_all-AllFlushed s.initial_window_size s.maximum_frame_size s.streams window v.bounded
            (raised-IsWindow s.connection_window increment v.connection (ground (arith, good)))
            v.frame_size v.initial in
        record {
          connection = f.spent.0;
          initial = v.initial;
          frame_size = v.frame_size;
          bounded = f.bounded;
          waits = f.waits;
        })

pub update_stream_window-IsValid :
    (s : H2OutboundScheduler) (id increment : ℕ)
    → IsValid s
    → IsValid (update_stream_window s id increment).2
unfolding update_stream_window
update_stream_window-IsValid s id increment v = elim (Option-cases (find id s.streams)) [
  | inl e ↦ rw (e, update_stream_window) v
  | inr (stream, e) ↦
      let b = Each-find (IsBounded s.initial_window_size) id s.streams v.bounded e in
      let window = stream.window +ℤ pos increment in
      let flushed = flush_one s id (record stream { window = window }) in
      rw (e, update_stream_window)
        (if_elim Keeps (s.closed || (increment == 0 || is_beyond window)) (false, [], s)
          (true, flushed.1, flushed.0) (λ bad. v)
          (λ good.
            flush_one-IsValid s id (record stream { window = window }) v
              (raised-IsBounded s.initial_window_size stream increment b (ground (arith, good)))))
]
