-- ===== src/Buffer/Sequence/Write.antt =====
-- Writing through a `MutableBufferSequence`: `CopyFrom` fills the first range, then the second.
use iocp_http_runtime.Prelude.{
  ℕ, ◌+◌, ◌-◌, ◌≤◌, ◌≡◌, List, arith, length, take, drop, write_at, write_at-nil, take_all,
  drop_all, length-drop, min, ok,
}
use iocp_http_runtime.Buffer.View.{MutableByteView}
use iocp_http_runtime.Buffer.Sequence.{of_mutable_views, copy_from}

-- The storage after `CopyFrom`, where the source fits in the two ranges.
pub copy_from-views :
    (a b : MutableByteView) (source storage : List ℕ)
    → length source ≤ a.size + b.size
    → copy_from (of_mutable_views a b) source storage
      ≡ ok (write_at (write_at storage a.offset (take a.size source)) b.offset (drop a.size source))
unfolding copy_from of_mutable_views
copy_from-views a b source storage h = ground (
  arith,
  write_at-nil storage a.offset,
  write_at-nil (write_at storage a.offset (take a.size source)) b.offset,
  take_all a.size source,
  drop_all a.size source,
  take_all (length source) source,
  take_all (min b.size (length source - a.size)) (drop a.size source),
  length-drop a.size source,
)
