-- ===== src/Buffer/Ring/Queue.antt =====
-- Append and Consume of a RingReceiveBuffer beside those of the bounded queue.
use iocp_http_runtime.Prelude.{
  ℕ, ◌+◌, ◌-◌, ◌%◌, ◌≤◌, ◌<◌, ◌≡◌, sym, ap, ◌∙◌, min, List, ◌++◌, arith, ltb, ◌==◌, ==→eq,
  Bool-cases, inl, inr, ok, throws, out_of_range, length, take, drop, sub_size, add_size,
  get_elem?-injective, get_elem?-drop, drop_all, ltb-false→le, ltb→lt, take_all,
}
use iocp_http_runtime.Buffer.Status.{ready, limit_exceeded}
use iocp_http_runtime.Buffer.View.{MutableByteView}
use iocp_http_runtime.Buffer.Sequence.{copy_from, of_mutable_views}
use iocp_http_runtime.Buffer.Sequence.Write.{copy_from-views}
use iocp_http_runtime.Buffer.Ring.{
  RingReceiveBuffer, capacity, writable_bytes, write_offset, writable_sequence, ensure_writable,
  commit, consume, append, append_status,
}
use iocp_http_runtime.Buffer.Ring.Valid.{
  IsValid, contents, get_elem?-contents, around, write_offset-around, mod-around,
}
use iocp_http_runtime.Buffer.Ring.Write.{
  lay, length-lay, extended, extended-IsValid, contents-extended,
}
use iocp_http_runtime.Buffer.Ring.Refine.{
  Holds, Holds-length, ensure_writable-ready, ensure_writable-limit,
}
use iocp_http_runtime.Buffer.Ring.Spec
use iocp_http_runtime.Buffer.Ring.Spec.{ByteQueue}

-- A range that ends before the bytes do cuts them where the whole room does.
take-min-room : (w room : ℕ) (bs : List ℕ) → length bs ≤ w → take (min w room) bs ≡ take room bs
take-min-room w room bs h = elim (Bool-cases (ltb w room)) [
  | inl less ↦
      ap (λ k. take k bs) {x = min w room} {y = w} (omega (arith, ltb→lt _ _ less))
      ∙ (take_all w bs h ∙ sym (take_all room bs (omega (arith, ltb→lt _ _ less))))
  | inr more ↦
      ap (λ k. take k bs) {x = min w room} {y = room} (omega (arith, ltb-false→le _ _ more))
]

drop-min-room : (w room : ℕ) (bs : List ℕ) → length bs ≤ w → drop (min w room) bs ≡ drop room bs
drop-min-room w room bs h = elim (Bool-cases (ltb w room)) [
  | inl less ↦
      ap (λ k. drop k bs) {x = min w room} {y = w} (omega (arith, ltb→lt _ _ less))
      ∙ (drop_all w bs h ∙ sym (drop_all room bs (omega (arith, ltb→lt _ _ less))))
  | inr more ↦
      ap (λ k. drop k bs) {x = min w room} {y = room} (omega (arith, ltb-false→le _ _ more))
]

module _ {r : RingReceiveBuffer} (v : IsValid r) where
  abbrev to_end : MutableByteView
  to_end = record {
    offset = write_offset r;
    size = min (writable_bytes r) (sub_size (capacity r) (write_offset r));
  }

  abbrev from_start : MutableByteView
  from_start = record { offset = 0; size = sub_size (writable_bytes r) to_end.size }

  -- Without room both ranges are empty, and an empty range is no segment.
  writable_sequence-views : writable_sequence r ≡ of_mutable_views to_end from_start
  unfolding writable_sequence of_mutable_views
  writable_sequence-views = ground arith

  -- What `CopyFrom` writes through `WritableSequence`.
  copy_from-lay :
      (bs : List ℕ)
      → r.readable_bytes + length bs ≤ length r.storage
      → copy_from (writable_sequence r) bs r.storage ≡ ok (lay r.storage (write_offset r) bs)
  copy_from-lay bs fits = rw (
    writable_sequence-views,
    copy_from-views to_end from_start bs r.storage (omega arith),
    takes,
    drops,
  )
    where
      room : ℕ
      room = length r.storage - write_offset r

      end : to_end.size ≡ min (writable_bytes r) room
      end = omega (arith, write_offset-around v)

      takes : take to_end.size bs ≡ take room bs
      takes = ap (λ k. take k bs) end ∙ take-min-room (writable_bytes r) room bs (omega arith)

      drops : drop to_end.size bs ≡ drop room bs
      drops = ap (λ k. drop k bs) end ∙ drop-min-room (writable_bytes r) room bs (omega arith)

append_status-ready :
    {r : RingReceiveBuffer} (v : IsValid r) (bs : List ℕ)
    (fits : r.readable_bytes + length bs ≤ length r.storage)
    → append_status ready r bs ≡ ok (ready, extended v bs fits)
unfolding append_status commit
append_status-ready {r} v bs fits = ground (
  arith,
  copy_from-lay v bs fits,
  length-lay r.storage (write_offset r) bs (omega (arith, write_offset-around v)) (omega arith),
)

append-ready :
    {maximum : ℕ} {q : ByteQueue} {r : RingReceiveBuffer} (bs : List ℕ)
    → Holds maximum q r
    → length q + length bs ≤ maximum
    → (r' : RingReceiveBuffer) × (append r bs ≡ ok (ready, r')) × Holds maximum (q ++ bs) r'
unfolding append
append-ready {maximum} {q} {r} bs h room = (
  extended w bs fits,
  rw (got.1, append) (append_status-ready w bs fits),
  record {
    valid = extended-IsValid w bs fits;
    limit = got.2.limit;
    holds = contents-extended w bs fits ∙ ap (λ xs. xs ++ bs) got.2.holds;
  },
)
  where
    got :
        (r' : RingReceiveBuffer) × (ensure_writable r (length bs) ≡ ok (ready, r'))
        × Holds maximum q r'
        × (length q + length bs ≤ length r'.storage)
    got = ensure_writable-ready (length bs) h room

    w : IsValid got.0
    w = got.2.valid

    fits : got.0.readable_bytes + length bs ≤ length got.0.storage
    fits = omega (arith, got.3, Holds-length got.2)

append-limit :
    {maximum : ℕ} {q : ByteQueue} {r : RingReceiveBuffer} (bs : List ℕ)
    → Holds maximum q r
    → maximum < length q + length bs
    → append r bs ≡ ok (limit_exceeded, r)
unfolding append append_status
append-limit {r = r} bs h past = rw (ensure_writable-limit (length bs) h past, append)

-- `Append` answers as the bounded queue does, and leaves the buffer holding its queue.
pub append_refines :
    {maximum : ℕ} {q : ByteQueue} {r : RingReceiveBuffer} (bs : List ℕ)
    → Holds maximum q r
    → (r' : RingReceiveBuffer) × (append r bs ≡ ok ((Spec.append maximum q bs).0, r'))
      × Holds maximum (Spec.append maximum q bs).1 r'
append_refines {maximum} {q} {r} bs h = elim (Bool-cases (ltb maximum (length q + length bs))) [
  | inl past ↦ rw past (r, append-limit bs h (ltb→lt _ _ past), h)
  | inr fits ↦ rw fits (append-ready bs h (ltb-false→le _ _ fits))
]

module _ {maximum : ℕ} {q : ByteQueue} {r : RingReceiveBuffer} (n : ℕ) (h : Holds maximum q r)
    (within : n < length q) where
  abbrev advanced : RingReceiveBuffer
  advanced = record r {
    read_offset = add_size r.read_offset n % capacity r;
    readable_bytes = sub_size r.readable_bytes n;
  }

  offset-around : advanced.read_offset ≡ around (length r.storage) (r.read_offset + n)
  offset-around =
      ap (λ x. x % length r.storage) {x = add_size r.read_offset n} (omega (arith, Holds-length h))
      ∙ mod-around (length r.storage) (r.read_offset + n) (omega arith)
          (omega (arith, Holds-length h))

  left : advanced.readable_bytes ≡ r.readable_bytes - n
  left = omega (arith, Holds-length h)

  advanced-IsValid : IsValid advanced
  advanced-IsValid = ground (arith, offset-around, left, Holds-length h)

  contents-advanced : contents advanced ≡ drop n q
  contents-advanced = get_elem?-injective (contents advanced) (drop n q) λ i. ground (
    arith,
    get_elem?-contents {r = advanced} i advanced-IsValid,
    get_elem?-drop n q i,
    get_elem?-contents (n + i) h.valid,
    h.holds,
    Holds-length h,
    offset-around,
    left,
  )

-- `Consume` of at most the held bytes drops that many off the front, and the buffer stays valid.
pub consume-within :
    {maximum : ℕ} {q : ByteQueue} {r : RingReceiveBuffer} (n : ℕ)
    → Holds maximum q r
    → n ≤ length q
    → (r' : RingReceiveBuffer) × (consume r n ≡ ok r') × Holds maximum (drop n q) r'
unfolding consume
consume-within {maximum} {q} {r} n h within = elim (Bool-cases (n == r.readable_bytes)) [
  | inl all ↦ (
    record r { read_offset = 0; readable_bytes = 0 },
    ground arith,
    record {
      valid = omega arith;
      limit = h.limit;
      holds = sym (drop_all n q (omega (arith, Holds-length h, ==→eq _ _ all)));
    },
  )
  | inr part ↦
      let less : n < length q = ground (arith, Holds-length h) in
      (
        advanced n h less,
        ground (arith, Holds-length h),
        record {
          valid = advanced-IsValid n h less;
          limit = h.limit;
          holds = contents-advanced n h less;
        },
      )
]

-- `Consume` of more bytes than are held throws.
pub consume-past :
    {maximum : ℕ} {q : ByteQueue} {r : RingReceiveBuffer} (n : ℕ)
    → Holds maximum q r
    → length q < n
    → consume r n ≡ throws out_of_range
unfolding consume
consume-past n h past = ground (arith, Holds-length h)
