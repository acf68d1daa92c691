-- ===== src/Protocol/Http2/Outbound/Settings.antt =====
-- `ApplyPeerSettings` keeps the invariant of H2OutboundScheduler.
use iocp_http_runtime.Prelude.{
  ℕ, ◌≡◌, min, List, [], ◌∷◌, Bool, false, ◌||◌, Result, ok, throws, ◌>>=◌, if_elim, pos, ◌-ℤ◌,
  +ℤ_parts, -ℤ_parts, arith,
}
use iocp_http_runtime.Protocol.Http2.Hpack.Table.{HpackCodec, set_dynamic_table_size}
use iocp_http_runtime.Protocol.Http2.Outbound.{
  StreamOutput, H2OutboundScheduler, refuses_sizes, overflows, shift_windows, take_settings,
  apply_peer_settings,
}
use iocp_http_runtime.Protocol.Http2.Outbound.Windows.{IsBounded, flush_all-AllFlushed}
use iocp_http_runtime.Protocol.Http2.Outbound.Streams.{Each}
use iocp_http_runtime.Protocol.Http2.Outbound.Invariant.{IsValid, Keeps}

shift_windows-IsBounded :
    (old new : ℕ) (streams : List (ℕ × StreamOutput))
    → Each (IsBounded old) streams
    → overflows (pos new -ℤ pos old) streams ≡ false
    → Each (IsBounded new) (shift_windows (pos new -ℤ pos old) streams)
unfolding overflows shift_windows
shift_windows-IsBounded old new [] b h = tt
shift_windows-IsBounded old new ((id, s) ∷ streams) b h =
    let delta = pos new -ℤ pos old in
    (
      record {
        offset_within = b.0.offset_within;
        body_size = b.0.body_size;
        unsent = b.0.unsent;
        above = ground (arith, h);
        below = omega (arith, b.0.below, +ℤ_parts s.window delta, -ℤ_parts (pos new) (pos old));
      },
      shift_windows-IsBounded old new streams b.1 (ground (arith, h)),
    )

take_settings-IsValid :
    (s : H2OutboundScheduler) (initial maximum : ℕ) (encoder : HpackCodec)
    → IsValid s
    → refuses_sizes initial maximum ≡ false
    → overflows (pos initial -ℤ pos s.initial_window_size) s.streams ≡ false
    → IsValid (take_settings s initial maximum encoder).2
take_settings-IsValid s initial maximum encoder v sizes windows =
    let delta = pos initial -ℤ pos s.initial_window_size in
    let f =
      flush_all-AllFlushed initial maximum (shift_windows delta s.streams) s.connection_window
        (shift_windows-IsBounded s.initial_window_size initial s.streams v.bounded windows)
        v.connection (ground (arith, sizes)) (ground (arith, sizes)) in
    record {
      connection = f.spent.0;
      initial = ground (arith, sizes);
      frame_size = ground (arith, sizes);
      bounded = f.bounded;
      waits = f.waits;
    }

abbrev pub KeepsOk : Result (Bool × List (List ℕ) × H2OutboundScheduler) → Type 0
KeepsOk (ok r) = Keeps r
KeepsOk (throws failure) = Unit

resized-IsValid :
    (s : H2OutboundScheduler) (initial maximum : ℕ) (resized : Result HpackCodec)
    → IsValid s
    → refuses_sizes initial maximum ≡ false
    → overflows (pos initial -ℤ pos s.initial_window_size) s.streams ≡ false
    → KeepsOk (resized >>= (λ encoder. ok (take_settings s initial maximum encoder)))
resized-IsValid s initial maximum (ok encoder) v sizes windows =
    take_settings-IsValid s initial maximum encoder v sizes windows
resized-IsValid s initial maximum (throws failure) v sizes windows = tt

pub apply_peer_settings-IsValid :
    (s : H2OutboundScheduler) (initial maximum table_size : ℕ)
    → IsValid s
    → KeepsOk (apply_peer_settings s initial maximum table_size)
unfolding apply_peer_settings
apply_peer_settings-IsValid s initial maximum table_size v =
    let delta = pos initial -ℤ pos s.initial_window_size in
    let resized = set_dynamic_table_size s.encoder (min table_size s.maximum_encoder_table_size) in
    if_elim KeepsOk (refuses_sizes initial maximum || (s.closed || overflows delta s.streams))
      (ok (false, [], s)) (resized >>= (λ encoder. ok (take_settings s initial maximum encoder)))
      (λ bad. v)
      (λ good.
        resized-IsValid s initial maximum resized v (ground (arith, good)) (ground (arith, good)))
