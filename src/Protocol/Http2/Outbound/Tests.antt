-- ===== src/Protocol/Http2/Outbound/Tests.antt =====
-- Runs of the scheduler of src/protocol/http2/http2_outbound.cpp at fixed inputs.
use iocp_http_runtime.Prelude.{
  ◌≡◌, refl, [], ◌∷◌, true, false, none, some, ok, pos, ◌+ℤ◌, ◌-ℤ◌, arith,
}
use iocp_http_runtime.Execution.Runs.{Reach, here, next}
use iocp_http_runtime.Protocol.Http2.Frames.{encode_header}
use iocp_http_runtime.Protocol.Http2.Hpack.{Huffman}
use iocp_http_runtime.Protocol.Http2.Hpack.Table.{HpackCodec}
use iocp_http_runtime.Protocol.Http2.Outbound.{
  StreamOutput, H2OutboundScheduler, new_scheduler, init, open_stream, update_stream_window,
  flush_loop, update_connection_window, flush_stream, is_beyond,
}
use iocp_http_runtime.Protocol.Http2.Outbound.Streams.{find, erase}
use iocp_http_runtime.Protocol.Http2.Outbound.Responses.{block_frames}
use iocp_http_runtime.Protocol.Http2.Outbound.Flush.{Flushes, flush_stream_lem}
use iocp_http_runtime.Protocol.Http2.Outbound.Blocks.{Carries, block_frames_lem}
use iocp_http_runtime.Protocol.Http2.Outbound.Invariant.{IsValid, init-IsValid, open_stream-IsValid}
use iocp_http_runtime.Protocol.Http2.Outbound.Steps.{
  Step, opened, connection_updated, Reach-IsValid,
}
use iocp_http_runtime.Protocol.Http2.Outbound.Unanswered.{update_stream_window-drops}

-- Two of four octets were sent; the stream may send one, the connection three.
abbrev half_sent : StreamOutput
half_sent = record {
  window = pos 1;
  body = 5 ∷ 6 ∷ 7 ∷ 8 ∷ [];
  offset = 2;
  response_submitted = true;
}

one_octet :
    (flush_stream 1 16384 half_sent (pos 3)).2 ≡ (0 ∷ 0 ∷ 1 ∷ 0 ∷ 0 ∷ 0 ∷ 0 ∷ 0 ∷ 1 ∷ 7 ∷ []) ∷ []
unfolding flush_stream flush_loop encode_header ◌-ℤ◌
one_octet = refl

flush_stream_lem_example :
    Flushes 1 16384 half_sent (pos 3) (flush_stream 1 16384 half_sent (pos 3))
flush_stream_lem_example =
    flush_stream_lem 1 16384 half_sent (pos 3) (omega arith) (omega arith) (omega arith)

block_frames_lem_example :
    Carries 1 2 true true (5 ∷ 6 ∷ 7 ∷ []) (block_frames 1 2 true (5 ∷ 6 ∷ 7 ∷ []))
block_frames_lem_example = block_frames_lem 1 2 true (5 ∷ 6 ∷ 7 ∷ []) (omega arith) (omega arith)

abbrev plain : Huffman
plain = record { encode = λ xs. xs; decode = λ xs. some xs }

abbrev codec : HpackCodec
codec = record {
  dynamic_table = [];
  dynamic_table_size = 0;
  current_dynamic_table_limit = 4096;
  pending_table_size_update = none;
  maximum_dynamic_table_size = 4096;
  maximum_header_list_size = 8192;
}

abbrev fresh : H2OutboundScheduler
fresh = new_scheduler 65535 16384 codec

fresh_accepted : init true 65535 16384 codec ≡ ok fresh
unfolding init
fresh_accepted = refl

one_stream_reached : Reach (Step plain) fresh (update_connection_window (open_stream fresh 1) 10).2
one_stream_reached = next (next here (opened fresh 1)) (connection_updated (open_stream fresh 1) 10)

Reach-IsValid_example : IsValid (update_connection_window (open_stream fresh 1) 10).2
Reach-IsValid_example = Reach-IsValid plain true 65535 16384 codec fresh_accepted one_stream_reached

abbrev one_open : H2OutboundScheduler
one_open = record fresh {
  streams =
      (1, record { window = pos 65535; body = []; offset = 0; response_submitted = false }) ∷ [];
}

one_open-IsValid : IsValid one_open
unfolding open_stream find
one_open-IsValid = open_stream-IsValid fresh 1 (init-IsValid true 65535 16384 codec fresh_accepted)

stream_1_found :
    find 1 one_open.streams
    ≡ some (record { window = pos 65535; body = []; offset = 0; response_submitted = false })
unfolding find
stream_1_found = refl

window_raised : is_beyond (pos 65535 +ℤ pos 10) ≡ false
unfolding ◌+ℤ◌
window_raised = refl

update_stream_window-drops_example :
    ((update_stream_window one_open 1 10).0 ≡ true)
    × ((update_stream_window one_open 1 10).2.streams ≡ erase 1 one_open.streams)
update_stream_window-drops_example =
    update_stream_window-drops one_open 1 10
      (record { window = pos 65535; body = []; offset = 0; response_submitted = false })
      one_open-IsValid stream_1_found refl refl (omega arith) window_raised
