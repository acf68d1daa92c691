-- ===== src/Lib.antt =====
-- A model of the core of the IOCP HTTP runtime: what moves bytes between a socket and a protocol.
--
-- A connection reads into a receive buffer, hands the protocol session a view of what is readable,
-- and lets it consume what it has decoded; what the session sends goes to the send queue, which
-- gathers slices for the socket and consumes what was transferred. On top stand the protocols: a
-- length-prefixed sample protocol, HTTP/1.1 and HTTP/2.
--
-- Buffer      src/buffer. View: ByteView and MutableByteView; a constant view is the list of its
--             bytes, a mutable one a range of its storage. Sequence: BufferSequence and
--             MutableBufferSequence. Ring: RingReceiveBuffer; Ring.Spec is the bounded byte queue
--             that it promises, Ring.Client sequences of calls. Linear: ReceiveBuffer.
-- Transport   src/transport/send_queue.cpp. SendQueue: the queue and its operations; Pending what
--             it has left to send, and its invariant; Admission, Gather, Round
--             and Consume the proofs.
-- Protocol    Sample.Codec: src/protocol/sample/length_prefixed_codec.cpp. Http2.Frames:
--             src/protocol/http2/http2_frames.cpp. Http2.Hpack: src/protocol/http2/http2_hpack.cpp,
--             with StaticTable, Integers, Table, HuffmanTable and Coder (the Huffman coder) as its
--             parts, and RoundTrip, Evict, Search, Literal, Field, Block, CoderBits, Written, Walks
--             and Lossless as its proofs. Http2.Outbound:
--             src/protocol/http2/http2_outbound.cpp; Streams is the map of its streams, Responses
--             its header blocks and SubmitResponse, the others its proofs. Http.Sizes and Http.Parser:
--             src/protocol/http/http_request_parser.cpp; Text its functions on text, Headers the
--             request line and the headers, Machine the states of Parse, the others its proofs.
--             Preface: src/protocol/preface_protocol_bootstrap.cpp, over any kind of session.
-- Execution   src/execution. Queue: the fields and critical sections that the two executors share,
--             with the history of a queue (Ledger). Manual: ManualExecutor. Serial: SerialExecutor.
--             Worlds are their states with the history and the threads between two critical
--             sections; the steps are the critical sections, interleaved in any order, and for Serial
--             also the loss of an accepted call of Drain. Runs: sequences of steps.
-- Prelude     Tests, lists, words, results and bits that the others share.
--
-- A class is a record of its fields and a method a function from the object to the new object; a
-- method that throws returns a Result, and `undefined` in it stands for undefined behaviour. An
-- octet is a number; a size_t wraps at 2 ^ 64 (add_size, sub_size, mul_size), a 32-bit number at
-- 2 ^ 32. Bounds: the theorems on the receive buffers take a maximum capacity below 2 ^ 63, that
-- is, below what an allocation can reach, so the doubling loop does not wrap. Fuel: 65 rounds of
-- that loop (each doubles a capacity of 1 at least), as many rounds of Consume as there are bytes,
-- five octets of an HPACK integer behind its prefix, one representation for each octet of a header
-- block, one eviction for each entry, one turn of Parse for each octet and two more: every round
-- makes that much progress.
--
-- Not modelled: sockets, completion ports and threads; allocation failure; the getters that only
-- read a field, and snapshots; logging. The sessions behind the preface are an interface, with the
-- laws that they keep what they are fed and answer Ready. The rest of HTTP/1.1 (router, encoder, session), the
-- HTTP/2 session and the timers are not modelled, nor the thread pool and the completion-port
-- executor. The conditions on which a thread waits for the end of an executor are left out: they
-- are notified in the critical section that sets Stopped, or directly behind it. Frames are handed
-- to the sender in the order in which they were made, as one thread does it.
pub mod Prelude
pub mod Buffer
pub mod Transport
pub mod Protocol
pub mod Execution
