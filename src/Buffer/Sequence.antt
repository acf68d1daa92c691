-- ===== src/Buffer/Sequence.antt =====
-- src/buffer/buffer_sequence.h: at most two spans read, or written, as one logical sequence.
pub mod Read
pub mod Write
use iocp_http_runtime.Prelude.{
  ℕ, zero, suc, ◌+◌, ◌-◌, min, List, [], ◌∷◌, ◌++◌, if◌then◌else◌, ltb, leb, ◌==◌, ◌||◌, true,
  false, length, take, drop, write_at, Result, ok, throws, out_of_range,
}
use iocp_http_runtime.Buffer.View.{ByteView, MutableByteView, index}

-- `segments_` is an array of two, with empty views where nothing was added.
pub record BufferSequence : Type 0 where
  pub first : ByteView
  pub second : ByteView
  pub segment_count : ℕ
  pub size : ℕ

abbrev pub empty_sequence : BufferSequence
empty_sequence = record { first = []; second = []; segment_count = 0; size = 0 }

-- `segments_[segment_count_++] = segment`. The constructors call it twice at most.
abbrev place : ℕ → ByteView → BufferSequence → BufferSequence
place zero segment s = record s { first = segment }
place (suc _) segment s = record s { second = segment }

unfoldable pub add : BufferSequence → ByteView → BufferSequence
add s segment = if length segment == 0 then s else record (place s.segment_count segment s) {
  segment_count = s.segment_count + 1;
  size = s.size + length segment;
}

unfoldable pub of_view : ByteView → BufferSequence
unfolding add
of_view first = add empty_sequence first

unfoldable pub of_views : ByteView → ByteView → BufferSequence
unfolding add
of_views first second = add (add empty_sequence first) second

abbrev pub segments : BufferSequence → List ByteView
segments s = take s.segment_count (s.first ∷ s.second ∷ [])

unfoldable pub segment : BufferSequence → ℕ → Result ByteView
segment s i =
    if leb s.segment_count i
    then throws out_of_range
    else if i == 0
    then ok s.first
    else ok s.second

unfoldable pub at : BufferSequence → ℕ → Result ℕ
at s i =
    if leb s.size i
    then throws out_of_range
    else if ltb i (length s.first)
    then index s.first i
    else index s.second (i - length s.first)

-- The loop of `CopyTo`: `out` is what the destination of `n` bytes holds so far, `copied` bytes.
unfoldable pub copy_segments : List ByteView → ℕ → ℕ → List ℕ → List ℕ
copy_segments [] n source_offset out = out
copy_segments (seg ∷ segs) n source_offset out = elim (ltb (length out) n) [
  | false ↦ out
  | true ↦ elim (leb (length seg) source_offset) [
    | true ↦ copy_segments segs n (source_offset - length seg) out
    | false ↦
        copy_segments segs n 0
          (out ++ take (min (length seg - source_offset) (n - length out)) (drop source_offset seg))
  ]
]

-- What `CopyTo` leaves in a destination of `n` bytes.
unfoldable pub copy_to : BufferSequence → ℕ → ℕ → Result (List ℕ)
unfolding copy_segments
copy_to s offset n =
    if ltb s.size offset || ltb (s.size - offset) n
    then throws out_of_range
    else ok (copy_segments (segments s) n offset [])

pub record MutableBufferSequence : Type 0 where
  pub first : MutableByteView
  pub second : MutableByteView
  pub segment_count : ℕ
  pub size : ℕ

abbrev pub empty_view : MutableByteView
empty_view = record { offset = 0; size = 0 }

abbrev pub empty_mutable : MutableBufferSequence
empty_mutable = record { first = empty_view; second = empty_view; segment_count = 0; size = 0 }

abbrev place_mutable : ℕ → MutableByteView → MutableBufferSequence → MutableBufferSequence
place_mutable zero segment s = record s { first = segment }
place_mutable (suc _) segment s = record s { second = segment }

unfoldable pub add_mutable : MutableBufferSequence → MutableByteView → MutableBufferSequence
add_mutable s segment =
    if segment.size == 0 then s else record (place_mutable s.segment_count segment s) {
      segment_count = s.segment_count + 1;
      size = s.size + segment.size;
    }

unfoldable pub of_mutable_views : MutableByteView → MutableByteView → MutableBufferSequence
unfolding add_mutable
of_mutable_views first second = add_mutable (add_mutable empty_mutable first) second

abbrev pub mutable_segments : MutableBufferSequence → List MutableByteView
mutable_segments s = take s.segment_count (s.first ∷ s.second ∷ [])

-- The loop of `CopyFrom`, on the storage that the segments are ranges of.
unfoldable pub fill_segments : List MutableByteView → List ℕ → ℕ → List ℕ → List ℕ
fill_segments [] source copied storage = storage
fill_segments (seg ∷ segs) source copied storage = elim (ltb copied (length source)) [
  | false ↦ storage
  | true ↦
      let bytes = min seg.size (length source - copied) in
      fill_segments segs source (copied + bytes)
        (write_at storage seg.offset (take bytes (drop copied source)))
]

-- `CopyFrom`: the storage after it.
unfoldable pub copy_from : MutableBufferSequence → List ℕ → List ℕ → Result (List ℕ)
unfolding fill_segments
copy_from s source storage =
    if ltb s.size (length source)
    then throws out_of_range
    else ok (fill_segments (mutable_segments s) source 0 storage)
