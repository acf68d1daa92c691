-- ===== src/Protocol/Http2/Outbound/Steps.antt =====
-- Every state that the operations of H2OutboundScheduler reach.
use iocp_http_runtime.Prelude.{ℕ, ◌^◌, ◌<◌, ◌≡◌, subst, List, Bool, length, ok}
use iocp_http_runtime.Execution.Runs.{Reach, Reach-keeps}
use iocp_http_runtime.Protocol.Http2.Hpack.{Huffman}
use iocp_http_runtime.Protocol.Http2.Hpack.Table.{HpackCodec}
use iocp_http_runtime.Protocol.Http2.Outbound.{
  H2OutboundScheduler, init, open_stream, close_stream, close, update_connection_window,
  update_stream_window, apply_peer_settings,
}
use iocp_http_runtime.Protocol.Http2.Outbound.Responses.{HttpResponse, submit_response}
use iocp_http_runtime.Protocol.Http2.Outbound.Invariant.{
  IsValid, init-IsValid, open_stream-IsValid, close_stream-IsValid, close-IsValid,
  update_connection_window-IsValid, update_stream_window-IsValid,
}
use iocp_http_runtime.Protocol.Http2.Outbound.Settings.{KeepsOk, apply_peer_settings-IsValid}
use iocp_http_runtime.Protocol.Http2.Outbound.Submit.{submit_response-IsValid}

module _ (huffman : Huffman) where
  -- The calls of the session, and of the peer through it. A body fits an allocation.
  pub data Step : H2OutboundScheduler → H2OutboundScheduler → Type 0 where
    opened : (s : H2OutboundScheduler) (id : ℕ) → Step s (open_stream s id)
    closed_stream : (s : H2OutboundScheduler) (id : ℕ) → Step s (close_stream s id)
    shut : (s : H2OutboundScheduler) → Step s (close s)
    submitted :
        (s : H2OutboundScheduler) (id : ℕ) (response : HttpResponse)
        → length response.body < 2 ^ 63
        → Step s (submit_response huffman s id response).2
    settled :
        (s : H2OutboundScheduler) (initial maximum table_size : ℕ)
        (r : Bool × List (List ℕ) × H2OutboundScheduler)
        → apply_peer_settings s initial maximum table_size ≡ ok r
        → Step s r.2
    connection_updated :
        (s : H2OutboundScheduler) (increment : ℕ) → Step s (update_connection_window s increment).2
    stream_updated :
        (s : H2OutboundScheduler) (id increment : ℕ)
        → Step s (update_stream_window s id increment).2

  Step-IsValid : {s t : H2OutboundScheduler} → Step s t → IsValid s → IsValid t
  Step-IsValid (opened s id) v = open_stream-IsValid s id v
  Step-IsValid (closed_stream s id) v = close_stream-IsValid s id v
  Step-IsValid (shut s) v = close-IsValid s v
  Step-IsValid (submitted s id response small) v =
      submit_response-IsValid huffman s id response v small
  Step-IsValid (settled s initial maximum table_size r e) v =
      subst KeepsOk e (apply_peer_settings-IsValid s initial maximum table_size v)
  Step-IsValid (connection_updated s increment) v = update_connection_window-IsValid s increment v
  Step-IsValid (stream_updated s id increment) v = update_stream_window-IsValid s id increment v

  -- In every state that a new scheduler can be brought to, the connection window is between 0 and
  -- 2 ^ 31 - 1; every stream's window is at most that, and at most that much below the initial
  -- window; offsets are within bodies; and a response that is not sent whole waits because its own
  -- window or the connection's is used up.
  pub Reach-IsValid :
      (sender : Bool) (initial maximum : ℕ) (encoder : HpackCodec) {s t : H2OutboundScheduler}
      → init sender initial maximum encoder ≡ ok s
      → Reach Step s t
      → IsValid t
  Reach-IsValid sender initial maximum encoder e r =
      Reach-keeps IsValid (λ s t. Step-IsValid) (init-IsValid sender initial maximum encoder e) r
