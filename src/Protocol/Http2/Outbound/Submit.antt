-- ===== src/Protocol/Http2/Outbound/Submit.antt =====
-- `SubmitResponse` keeps the invariant of H2OutboundScheduler.
use iocp_http_runtime.Prelude.{
  ℕ, ◌^◌, ◌<◌, ◌≡◌, inl, inr, List, [], ◌++◌, true, false, ◌||◌, ◌==◌, length, if_elim,
  Option-cases, arith,
}
use iocp_http_runtime.Protocol.Http2.Hpack.{Huffman}
use iocp_http_runtime.Protocol.Http2.Outbound.{StreamOutput, H2OutboundScheduler, flush_one}
use iocp_http_runtime.Protocol.Http2.Outbound.Responses.{
  HttpResponse, encode_header_block, respond, submit_response,
}
use iocp_http_runtime.Protocol.Http2.Outbound.Windows.{IsBounded}
use iocp_http_runtime.Protocol.Http2.Outbound.Streams.{find, erase, Each-find, Each-erase}
use iocp_http_runtime.Protocol.Http2.Outbound.Invariant.{IsValid, Keeps, flush_one-IsValid}

module _ (huffman : Huffman) where
  respond-IsValid :
      (s : H2OutboundScheduler) (id : ℕ) (stream : StreamOutput) (response : HttpResponse)
      → IsValid s
      → IsBounded s.initial_window_size stream
      → stream.response_submitted ≡ false
      → length response.body < 2 ^ 63
      → IsValid (respond huffman s id stream response).0
  unfolding respond
  respond-IsValid s id stream response v b new small =
      let block =
        encode_header_block huffman id s.maximum_frame_size s.encoder response
          (length response.body == 0) in
      let encoded : H2OutboundScheduler = record s { encoder = block.0 } in
      let queued : StreamOutput = record stream {
        response_submitted = true;
        body = response.body;
      } in
      let v' : IsValid encoded = record {
        connection = v.connection;
        initial = v.initial;
        frame_size = v.frame_size;
        bounded = v.bounded;
        waits = v.waits;
      } in
      let flushed = flush_one encoded id queued in
      if_elim (λ (r : H2OutboundScheduler × List (List ℕ)). IsValid r.0) (length response.body == 0)
        (record encoded { streams = erase id s.streams }, block.1) (flushed.0, block.1 ++ flushed.1)
        (λ empty. record {
          connection = v.connection;
          initial = v.initial;
          frame_size = v.frame_size;
          bounded = Each-erase _ id s.streams v.bounded;
          waits = Each-erase _ id s.streams v.waits;
        })
        (λ some_body. flush_one-IsValid encoded id queued v' (record {
          offset_within = omega (arith, (b.unsent new).0);
          body_size = small;
          unsent = λ e. ground (arith, e);
          above = b.above;
          below = b.below;
        }))

  pub submit_response-IsValid :
      (s : H2OutboundScheduler) (id : ℕ) (response : HttpResponse)
      → IsValid s
      → length response.body < 2 ^ 63
      → IsValid (submit_response huffman s id response).2
  unfolding submit_response
  submit_response-IsValid s id response v small = elim (Option-cases (find id s.streams)) [
    | inl e ↦ rw (e, submit_response) v
    | inr (stream, e) ↦
        let b = Each-find (IsBounded s.initial_window_size) id s.streams v.bounded e in
        let done = respond huffman s id stream response in
        rw (e, submit_response)
          (if_elim Keeps (s.closed || stream.response_submitted) (false, [], s)
            (true, done.1, done.0) (λ bad. v)
            (λ good. respond-IsValid s id stream response v b (ground (arith, good)) small))
  ]
