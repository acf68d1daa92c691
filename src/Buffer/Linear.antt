-- ===== src/Buffer/Linear.antt =====
-- src/buffer/receive_buffer.cpp, ReceiveBuffer: a buffer whose readable bytes are one run of its
-- vector. The vector is the list of its bytes; the doubling loop is that of RingReceiveBuffer.
pub mod Refine
use iocp_http_runtime.Prelude.{
  ℕ, ◌-◌, max, List, ◌++◌, if◌then◌else◌, ltb, leb, ◌==◌, ◌&&◌, Bool, not, length, take, drop,
  replicate, write_at, Result, ok, throws, invalid_argument, out_of_range, ◌>>=◌, add_size,
  sub_size,
}
use iocp_http_runtime.Buffer.View.{ByteView, MutableByteView}
use iocp_http_runtime.Buffer.Status.{BufferStatus, ready, limit_exceeded}
use iocp_http_runtime.Buffer.Ring.{next_capacity_loop}

pub record ReceiveBuffer : Type 0 where
  pub storage : List ℕ
  pub maximum_capacity : ℕ
  pub read_offset : ℕ
  pub write_offset : ℕ

unfoldable pub init : ℕ → ℕ → Result ReceiveBuffer
init initial_capacity maximum_capacity =
    if initial_capacity == 0
    then throws invalid_argument
    else if ltb maximum_capacity initial_capacity
    then throws invalid_argument
    else ok (record {
      storage = replicate initial_capacity 0;
      maximum_capacity = maximum_capacity;
      read_offset = 0;
      write_offset = 0;
    })

abbrev pub readable_bytes : ReceiveBuffer → ℕ
readable_bytes r = sub_size r.write_offset r.read_offset

abbrev pub capacity : ReceiveBuffer → ℕ
capacity r = length r.storage

abbrev pub writable_bytes : ReceiveBuffer → ℕ
writable_bytes r = sub_size (capacity r) r.write_offset

abbrev pub readable_view : ReceiveBuffer → ByteView
readable_view r = take (readable_bytes r) (drop r.read_offset r.storage)

abbrev pub writable_view : ReceiveBuffer → MutableByteView
writable_view r = record { offset = r.write_offset; size = writable_bytes r }

-- `memmove` of the readable bytes to the front; the rest of the vector is as it was.
unfoldable pub compact : ReceiveBuffer → ReceiveBuffer
compact r = record r {
  storage = if readable_bytes r == 0 then r.storage else write_at r.storage 0 (readable_view r);
  read_offset = 0;
  write_offset = readable_bytes r;
}

-- `std::vector::resize`: the bytes that are added are 0.
abbrev pub resize : List ℕ → ℕ → List ℕ
resize storage n = take n storage ++ replicate (n - length storage) 0

-- The part of `EnsureWritable` behind the compaction.
unfoldable pub enlarge : ReceiveBuffer → ℕ → BufferStatus × ReceiveBuffer
enlarge r required_capacity =
    let next = next_capacity_loop 65 r.maximum_capacity required_capacity (capacity r) in
    (ready, record r { storage = resize r.storage (max next required_capacity) })

unfoldable pub ensure_writable : ReceiveBuffer → ℕ → BufferStatus × ReceiveBuffer
unfolding compact enlarge
ensure_writable r minimum_bytes =
    if leb minimum_bytes (writable_bytes r)
    then (ready, r)
    else if ltb (sub_size r.maximum_capacity (readable_bytes r)) minimum_bytes
    then (limit_exceeded, r)
    else let compacted = if r.read_offset == 0 then r else compact r in
      if not (r.read_offset == 0) && leb minimum_bytes (writable_bytes compacted)
      then (ready, compacted)
      else enlarge compacted (add_size (readable_bytes r) minimum_bytes)

unfoldable pub commit : ReceiveBuffer → ℕ → Result ReceiveBuffer
commit r bytes =
    if ltb (writable_bytes r) bytes
    then throws out_of_range
    else ok (record r { write_offset = add_size r.write_offset bytes })

unfoldable pub consume : ReceiveBuffer → ℕ → Result ReceiveBuffer
consume r bytes =
    if ltb (readable_bytes r) bytes
    then throws out_of_range
    else let read_offset = add_size r.read_offset bytes in
      if read_offset == r.write_offset
      then ok (record r { read_offset = 0; write_offset = 0 })
      else ok (record r { read_offset = read_offset })

-- What `Append` does behind `EnsureWritable`.
unfoldable pub append_status :
    BufferStatus → ReceiveBuffer → ByteView → BufferStatus × ReceiveBuffer
append_status limit_exceeded r bytes = (limit_exceeded, r)
append_status ready r bytes = if length bytes == 0 then (ready, r) else (
  ready,
  record r {
    storage = write_at r.storage r.write_offset bytes;
    write_offset = add_size r.write_offset (length bytes);
  },
)

unfoldable pub append : ReceiveBuffer → ByteView → BufferStatus × ReceiveBuffer
unfolding append_status
append r bytes =
    let ensured = ensure_writable r (length bytes) in append_status ensured.0 ensured.1 bytes

unfoldable pub clear : ReceiveBuffer → ReceiveBuffer
clear r = record r { read_offset = 0; write_offset = 0 }

abbrev pub empty : ReceiveBuffer → Bool
empty r = readable_bytes r == 0
