-- ===== src/Buffer/Ring.antt =====
-- src/buffer/ring_receive_buffer.cpp, RingReceiveBuffer. A method that may throw returns a
-- `Result`; one that changes the object returns the new one. The vector is the list of its bytes.
pub mod Spec
pub mod Valid
pub mod Grow
pub mod Write
pub mod Refine
pub mod Queue
pub mod Client
use iocp_http_runtime.Prelude.{
  ℕ, zero, suc, ◌+◌, ◌-◌, ◌*◌, ◌/◌, ◌%◌, min, max, List, ◌++◌, if◌then◌else◌, ltb, leb, ◌==◌, true,
  false, length, take, drop, replicate, Bool, Result, ok, throws, invalid_argument, out_of_range,
  ◌>>=◌, add_size, sub_size, mul_size,
}
use iocp_http_runtime.Buffer.View.{ByteView, MutableByteView}
use iocp_http_runtime.Buffer.Sequence.{
  BufferSequence, empty_sequence, of_views, copy_to, MutableBufferSequence, empty_mutable,
  of_mutable_views, copy_from,
}
use iocp_http_runtime.Buffer.Status.{BufferStatus, ready, limit_exceeded}

pub record RingReceiveBuffer : Type 0 where
  pub storage : List ℕ
  pub maximum_capacity : ℕ
  pub read_offset : ℕ
  pub readable_bytes : ℕ

unfoldable pub init : ℕ → ℕ → Result RingReceiveBuffer
init initial_capacity maximum_capacity =
    if initial_capacity == 0
    then throws invalid_argument
    else if ltb maximum_capacity initial_capacity
    then throws invalid_argument
    else ok (record {
      storage = replicate initial_capacity 0;
      maximum_capacity = maximum_capacity;
      read_offset = 0;
      readable_bytes = 0;
    })

abbrev pub capacity : RingReceiveBuffer → ℕ
capacity r = length r.storage

abbrev pub writable_bytes : RingReceiveBuffer → ℕ
writable_bytes r = sub_size (capacity r) r.readable_bytes

abbrev pub write_offset : RingReceiveBuffer → ℕ
write_offset r = add_size r.read_offset r.readable_bytes % capacity r

abbrev pub empty : RingReceiveBuffer → Bool
empty r = r.readable_bytes == 0

unfoldable pub readable_sequence : RingReceiveBuffer → BufferSequence
readable_sequence r =
    if r.readable_bytes == 0
    then empty_sequence
    else let first_bytes = min r.readable_bytes (sub_size (capacity r) r.read_offset) in
      let second_bytes = sub_size r.readable_bytes first_bytes in
      of_views (take first_bytes (drop r.read_offset r.storage)) (take second_bytes r.storage)

unfoldable pub writable_sequence : RingReceiveBuffer → MutableBufferSequence
writable_sequence r =
    if writable_bytes r == 0
    then empty_mutable
    else let first_bytes = min (writable_bytes r) (sub_size (capacity r) (write_offset r)) in
      let second_bytes = sub_size (writable_bytes r) first_bytes in
      of_mutable_views (record { offset = write_offset r; size = first_bytes })
        (record { offset = 0; size = second_bytes })

-- `Grow`: the readable bytes move to the front of a new vector, whose other bytes are 0.
unfoldable pub grow : RingReceiveBuffer → ℕ → Result RingReceiveBuffer
grow r new_capacity = do
  moved ← copy_to (readable_sequence r) 0 r.readable_bytes
  ok (record r {
    storage = moved ++ replicate (new_capacity - r.readable_bytes) 0;
    read_offset = 0;
  })

-- The doubling loop, with fuel. The callers give 65 rounds, more than a size has bits.
unfoldable pub next_capacity_loop : ℕ → ℕ → ℕ → ℕ → ℕ
next_capacity_loop zero maximum required next = next
next_capacity_loop (suc fuel) maximum required next =
    let doubled = next_capacity_loop fuel maximum required (mul_size next 2) in
    if ltb next required then if ltb (maximum / 2) next then maximum else doubled else next

unfoldable pub ensure_writable : RingReceiveBuffer → ℕ → Result (BufferStatus × RingReceiveBuffer)
ensure_writable r minimum_bytes =
    if leb minimum_bytes (writable_bytes r)
    then ok (ready, r)
    else if ltb (sub_size r.maximum_capacity r.readable_bytes) minimum_bytes
    then ok (limit_exceeded, r)
    else let required = add_size r.readable_bytes minimum_bytes in
      let next = next_capacity_loop 65 r.maximum_capacity required (capacity r) in
      (grow r (max next required) >>= λ grown. ok (ready, grown))

unfoldable pub commit : RingReceiveBuffer → ℕ → Result RingReceiveBuffer
commit r bytes =
    if ltb (writable_bytes r) bytes
    then throws out_of_range
    else ok (record r { readable_bytes = add_size r.readable_bytes bytes })

unfoldable pub consume : RingReceiveBuffer → ℕ → Result RingReceiveBuffer
consume r bytes =
    if ltb r.readable_bytes bytes
    then throws out_of_range
    else if bytes == r.readable_bytes
    then ok (record r { read_offset = 0; readable_bytes = 0 })
    else ok (record r {
      read_offset = add_size r.read_offset bytes % capacity r;
      readable_bytes = sub_size r.readable_bytes bytes;
    })

-- What `Append` does behind `EnsureWritable`.
unfoldable pub append_status :
    BufferStatus → RingReceiveBuffer → ByteView → Result (BufferStatus × RingReceiveBuffer)
append_status limit_exceeded r bytes = ok (limit_exceeded, r)
append_status ready r bytes = do
  written ← copy_from (writable_sequence r) bytes r.storage
  committed ← commit (record r { storage = written }) (length bytes)
  ok (ready, committed)

unfoldable pub append : RingReceiveBuffer → ByteView → Result (BufferStatus × RingReceiveBuffer)
unfolding append_status
append r bytes = do
  ensured ← ensure_writable r (length bytes)
  append_status ensured.0 ensured.1 bytes

unfoldable pub clear : RingReceiveBuffer → RingReceiveBuffer
clear r = record r { read_offset = 0; readable_bytes = 0 }
