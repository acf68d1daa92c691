-- ===== src/Transport/SendQueue.antt =====
-- src/transport/send_queue.cpp, SendQueue. A shared buffer is the list of its bytes, or `none` for
-- a null pointer; allocation never fails here. A method that changes the object returns the new one.
pub mod Pending
pub mod Round
pub mod Consume
pub mod Gather
pub mod Admission
use mathlib.Core.Option
use iocp_http_runtime.Prelude.{
  ℕ, zero, suc, ◌+◌, ◌-◌, min, List, [], ◌∷◌, ◌++◌, if◌then◌else◌, ltb, leb, ◌==◌, ◌||◌, ◌&&◌, Bool,
  true, false, Option, none, some, length, get_elem?, set, drop, Result, ok, throws,
  invalid_argument, add_size, sub_size,
}

abbrev pub SharedSendBuffer : Type 0
SharedSendBuffer = Option (List ℕ)

pub record SendSlice : Type 0 where
  pub buffer : SharedSendBuffer
  pub offset : ℕ
  pub size : ℕ

pub record SendGather : Type 0 where
  pub slices : List SendSlice
  pub total_bytes : ℕ

pub data SendConsumeResult : Type 0 where
  progress item_completed invalid : SendConsumeResult

-- The queue holds no null buffer.
pub record Segment : Type 0 where
  pub buffer : List ℕ
  pub offset : ℕ

pub record Batch : Type 0 where
  pub segments : List Segment
  pub next_segment : ℕ

pub record SendQueue : Type 0 where
  pub maximum_items : ℕ
  pub maximum_bytes : ℕ
  pub batches : List Batch
  pub item_count : ℕ
  pub queued_bytes : ℕ

unfoldable pub init : ℕ → ℕ → Result SendQueue
init maximum_items maximum_bytes =
    if maximum_items == 0 || maximum_bytes == 0
    then throws invalid_argument
    else ok (record {
      maximum_items = maximum_items;
      maximum_bytes = maximum_bytes;
      batches = [];
      item_count = 0;
      queued_bytes = 0;
    })

-- The admission loop of `TryPushBatch`: the counts of the batch, or a refusal.
unfoldable pub admit : SendQueue → List SharedSendBuffer → ℕ → ℕ → Option (ℕ × ℕ)
admit q [] batch_items batch_bytes = some (batch_items, batch_bytes)
admit q (none ∷ buffers) batch_items batch_bytes = none
admit q (some buffer ∷ buffers) batch_items batch_bytes = elim (length buffer == 0) [
  | true ↦ admit q buffers batch_items batch_bytes
  | false ↦
      elim ((batch_items == sub_size q.maximum_items q.item_count)
        || ltb (sub_size (sub_size q.maximum_bytes q.queued_bytes) batch_bytes) (length buffer)) [
          | true ↦ none
          | false ↦ admit q buffers (add_size batch_items 1) (add_size batch_bytes (length buffer))
        ]
]

-- The segments that the admitted buffers become; an empty buffer is left out.
unfoldable pub segments_of : List SharedSendBuffer → List Segment
segments_of [] = []
segments_of (none ∷ buffers) = segments_of buffers
segments_of (some buffer ∷ buffers) =
    let rest = segments_of buffers in
    if length buffer == 0 then rest else record { buffer = buffer; offset = 0 } ∷ rest

unfoldable pub enqueue : SendQueue → List SharedSendBuffer → ℕ → ℕ → Bool × SendQueue
unfolding segments_of
enqueue q buffers batch_items batch_bytes = if batch_items == 0 then (true, q) else (
  true,
  record q {
    batches = q.batches ++ record { segments = segments_of buffers; next_segment = 0 } ∷ [];
    item_count = add_size q.item_count batch_items;
    queued_bytes = add_size q.queued_bytes batch_bytes;
  },
)

unfoldable pub try_push_batch : SendQueue → List SharedSendBuffer → Bool × SendQueue
unfolding enqueue admit
try_push_batch q buffers = elim (admit q buffers 0 0) [
  | none ↦ (false, q)
  | some (batch_items, batch_bytes) ↦ enqueue q buffers batch_items batch_bytes
]

unfoldable pub try_push : SendQueue → SharedSendBuffer → Bool × SendQueue
unfolding try_push_batch
try_push q buffer = try_push_batch q (buffer ∷ [])

abbrev pub empty_slice : SendSlice
empty_slice = record { buffer = none; offset = 0; size = 0 }

-- `batch.segments[batch.next_segment]`; `none` for an index out of range, which is undefined.
abbrev pub current : Batch → Option Segment
current b = get_elem? b.segments b.next_segment

unfoldable pub front : List Batch → Option SendSlice
front [] = some empty_slice
front (b ∷ _) = elim (current b) [
  | none ↦ none
  | some s ↦ some (record {
    buffer = some s.buffer;
    offset = s.offset;
    size = sub_size (length s.buffer) s.offset;
  })
]

-- The inner loop of `Gather`, over the segments from `next_segment` on.
unfoldable pub gather_segments : ℕ → ℕ → List Segment → SendGather → SendGather
gather_segments maximum_segments maximum_bytes [] g = g
gather_segments maximum_segments maximum_bytes (s ∷ segments) g =
    elim (ltb (length g.slices) maximum_segments && ltb g.total_bytes maximum_bytes) [
      | false ↦ g
      | true ↦
          let remaining = sub_size (length s.buffer) s.offset in
          let bytes = min remaining (sub_size maximum_bytes g.total_bytes) in
          gather_segments maximum_segments maximum_bytes segments (record {
            slices =
                g.slices ++ record { buffer = some s.buffer; offset = s.offset; size = bytes } ∷ [];
            total_bytes = add_size g.total_bytes bytes;
          })
    ]

unfoldable pub gather_batches : ℕ → ℕ → List Batch → SendGather → SendGather
unfolding gather_segments
gather_batches maximum_segments maximum_bytes [] g = g
gather_batches maximum_segments maximum_bytes (b ∷ batches) g =
    let g' = gather_segments maximum_segments maximum_bytes (drop b.next_segment b.segments) g in
    elim ((length g'.slices == maximum_segments) || (g'.total_bytes == maximum_bytes)) [
      | true ↦ g'
      | false ↦ gather_batches maximum_segments maximum_bytes batches g'
    ]

abbrev pub empty_gather : SendGather
empty_gather = record { slices = []; total_bytes = 0 }

unfoldable pub gather : SendQueue → ℕ → ℕ → SendGather
unfolding gather_batches
gather q maximum_segments maximum_bytes =
    if (maximum_segments == 0) || ((maximum_bytes == 0) || (length q.batches == 0))
    then empty_gather
    else gather_batches maximum_segments maximum_bytes q.batches empty_gather

-- One round of the loop of `Consume`: the batches, the item count and the queued bytes after it,
-- the bytes left to consume, and whether a segment has been completed.
pub record Consuming : Type 0 where
  pub batches : List Batch
  pub item_count : ℕ
  pub queued_bytes : ℕ
  pub left : ℕ
  pub completed : Bool

-- What the round does to the front batch `b`, whose current segment is `s`.
unfoldable pub consume_segment : Batch → Segment → List Batch → Consuming → Consuming
consume_segment b s rest c =
    let remaining = sub_size (length s.buffer) s.offset in
    let consumed = min c.left remaining in
    let offset = add_size s.offset consumed in
    let segments = set b.segments b.next_segment (record s { offset = offset }) in
    let next = add_size b.next_segment 1 in
    if offset == length s.buffer
    then record {
      batches =
          if next == length segments
          then rest
          else record { segments = segments; next_segment = next } ∷ rest;
      item_count = sub_size c.item_count 1;
      queued_bytes = sub_size c.queued_bytes consumed;
      left = sub_size c.left consumed;
      completed = true;
    }
    else record {
      batches = record b { segments = segments } ∷ rest;
      item_count = c.item_count;
      queued_bytes = sub_size c.queued_bytes consumed;
      left = sub_size c.left consumed;
      completed = c.completed;
    }

-- `none`: an access out of range, or no more fuel.
unfoldable pub consume_loop : ℕ → Consuming → Option Consuming
consume_loop zero c = if c.left == 0 then some c else none
consume_loop (suc fuel) c = elim (c.left == 0) [
  | true ↦ some c
  | false ↦ elim c.batches [
    | [] ↦ none
    | b ∷ rest ↦ elim (current b) [
      | none ↦ none
      | some s ↦ consume_loop fuel (consume_segment b s rest c)
    ]
  ]
]

-- Whether the queue now stands at the start of a buffer, or is empty.
unfoldable pub at_boundary : List Batch → Bool
at_boundary [] = true
at_boundary (b ∷ _) = elim (current b) [ none ↦ false | some s ↦ s.offset == 0 ]

unfoldable pub finish : SendQueue → Consuming → SendConsumeResult × SendQueue
unfolding at_boundary
finish q c = (
  if c.completed && at_boundary c.batches then item_completed else progress,
  record q { batches = c.batches; item_count = c.item_count; queued_bytes = c.queued_bytes },
)

-- The fuel is the number of bytes: each round consumes one at least.
unfoldable pub consume : SendQueue → ℕ → Option (SendConsumeResult × SendQueue)
unfolding finish
consume q transferred_bytes =
    if (length q.batches == 0) || ((transferred_bytes == 0) || ltb q.queued_bytes transferred_bytes)
    then some (invalid, q)
    else Option.map (finish q) (
        consume_loop transferred_bytes (record {
          batches = q.batches;
          item_count = q.item_count;
          queued_bytes = q.queued_bytes;
          left = transferred_bytes;
          completed = false;
        }))

unfoldable pub clear : SendQueue → SendQueue
clear q = record q { batches = []; item_count = 0; queued_bytes = 0 }
