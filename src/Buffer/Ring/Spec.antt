-- ===== src/Buffer/Ring/Spec.antt =====
-- What a receive buffer promises, free of storage and offsets: a queue of at most `maximum` bytes.
use iocp_http_runtime.Prelude.{
  ℕ, ◌+◌, List, ◌++◌, if◌then◌else◌, ltb, length, drop, Result, ok, throws, out_of_range,
}
use iocp_http_runtime.Buffer.Status.{BufferStatus, ready, limit_exceeded}

abbrev pub ByteQueue : Type 0
ByteQueue = List ℕ

abbrev pub append : ℕ → ByteQueue → List ℕ → BufferStatus × ByteQueue
append maximum q bytes =
    if ltb maximum (length q + length bytes) then (limit_exceeded, q) else (ready, q ++ bytes)

abbrev pub consume : ByteQueue → ℕ → Result ByteQueue
consume q n = if ltb (length q) n then throws out_of_range else ok (drop n q)
