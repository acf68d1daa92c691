-- ===== src/Buffer/Ring/Refine.antt =====
-- A RingReceiveBuffer beside the bounded byte queue of `Spec`: construction and growth.
use iocp_http_runtime.Prelude.{
  ℕ, ◌+◌, ◌-◌, ◌^◌, ◌≤◌, ◌<◌, ◌≡◌, refl, sym, ap, ◌∙◌, max, List, [], ◌++◌, arith, leb, leb→le,
  leb-false→lt, Bool-cases, inl, inr, ok, length, take, replicate, length-append, length-replicate,
  take-append, append_assoc, append-nil, take_all, add_size,
}
use iocp_http_runtime.Buffer.Status.{ready, limit_exceeded}
use iocp_http_runtime.Buffer.Sequence.Read.{copy_to-bytes}
use iocp_http_runtime.Buffer.Ring.{
  RingReceiveBuffer, capacity, writable_bytes, grow, ensure_writable, next_capacity_loop, init,
}
use iocp_http_runtime.Buffer.Ring.Valid.{
  IsValid, contents, length-contents, readable_sequence-contents,
}
use iocp_http_runtime.Buffer.Ring.Grow.{next_capacity_loop_bounds}
use iocp_http_runtime.Buffer.Ring.Spec.{ByteQueue}

-- The buffer is valid, has that maximum, and its readable bytes are the queue.
pub record Holds (maximum : ℕ) (q : ByteQueue) (r : RingReceiveBuffer) : Type 0 where
  pub valid : IsValid r
  pub limit : r.maximum_capacity ≡ maximum
  pub holds : contents r ≡ q

pub Holds-length :
    {maximum : ℕ} {q : ByteQueue} {r : RingReceiveBuffer}
    → Holds maximum q r
    → r.readable_bytes ≡ length q
Holds-length h = sym (length-contents h.valid) ∙ ap length h.holds

-- A buffer constructed with an initial capacity of 1 at least and a maximum no smaller, below
-- 2 ^ 63, is valid and empty.
pub init-Holds :
    (initial maximum : ℕ)
    → 0 < initial
    → initial ≤ maximum
    → maximum < 2 ^ 63
    → (r : RingReceiveBuffer) × (init initial maximum ≡ ok r) × Holds maximum [] r
unfolding init
init-Holds initial maximum a b c = (
  record {
    storage = replicate initial 0;
    maximum_capacity = maximum;
    read_offset = 0;
    readable_bytes = 0;
  },
  ground arith,
  record { valid = omega (arith, length-replicate {A = ℕ} initial 0); limit = refl; holds = refl },
)

take-length-append : (xs ys : List ℕ) (n : ℕ) → length xs ≡ n → take n (xs ++ ys) ≡ xs
take-length-append xs ys n e =
    rw (take-append n xs ys, take_all n xs (omega arith))
      (ap (λ k. xs ++ take k ys) none_left ∙ append-nil xs)
  where
    none_left : n - length xs ≡ 0
    none_left = omega arith

-- `Grow` moves the readable bytes to the front of a larger vector.
grow-Holds :
    {maximum : ℕ} {q : ByteQueue} {r : RingReceiveBuffer} (size : ℕ)
    → Holds maximum q r
    → 0 < size
    → r.readable_bytes ≤ size
    → size ≤ maximum
    → (r' : RingReceiveBuffer) × (grow r size ≡ ok r')
      × Holds maximum q r'
      × (length r'.storage ≡ size)
unfolding grow
grow-Holds {maximum} {q} {r} size h p fits small =
    (grown, granted, record { valid = grown-IsValid; limit = h.limit; holds = same }, size_lem)
  where
    rest : List ℕ
    rest = replicate (size - r.readable_bytes) 0

    grown : RingReceiveBuffer
    grown = record r { storage = contents r ++ rest; read_offset = 0 }

    size_lem : length (contents r ++ rest) ≡ size
    size_lem = omega (
      arith,
      length-append (contents r) rest,
      length-contents h.valid,
      length-replicate {A = ℕ} (size - r.readable_bytes) 0,
    )

    grown-IsValid : IsValid grown
    grown-IsValid = omega (arith, size_lem)

    same : contents grown ≡ q
    same =
        ap (take r.readable_bytes) (append_assoc (contents r) rest (contents r ++ rest))
        ∙ take-length-append (contents r) (rest ++ (contents r ++ rest)) r.readable_bytes
            (length-contents h.valid)
        ∙ h.holds

    granted : grow r size ≡ ok grown
    granted =
        let seq = readable_sequence-contents h.valid in
        ground (
          arith,
          copy_to-bytes 0 r.readable_bytes seq.0,
          seq.1,
          length-contents h.valid,
          take_all r.readable_bytes (contents r),
        )

-- A request within the limit is met, and the bytes stay.
pub ensure_writable-ready :
    {maximum : ℕ} {q : ByteQueue} {r : RingReceiveBuffer} (n : ℕ)
    → Holds maximum q r
    → length q + n ≤ maximum
    → (r' : RingReceiveBuffer) × (ensure_writable r n ≡ ok (ready, r'))
      × Holds maximum q r'
      × (length q + n ≤ length r'.storage)
unfolding ensure_writable
ensure_writable-ready {maximum} {q} {r} n h room = elim (Bool-cases (leb n (writable_bytes r))) [
  | inl enough ↦
      (r, rw (enough, ensure_writable), h, omega (arith, leb→le _ _ enough, Holds-length h))
  | inr short ↦
      let grew = more (leb-false→lt _ _ short) in
      (
        grew.0,
        ground (arith, h.limit, Holds-length h, grew.1, short),
        grew.2,
        omega (arith, grew.3, reached),
      )
]
  where
    required : ℕ
    required = add_size r.readable_bytes n

    next : ℕ
    next = next_capacity_loop 65 r.maximum_capacity required (capacity r)

    required-eq : required ≡ length q + n
    required-eq = omega (arith, Holds-length h, h.limit)

    bounds : (required ≤ next) × (next ≤ r.maximum_capacity)
    bounds =
        next_capacity_loop_bounds 65 r.maximum_capacity required (capacity r) (omega arith)
          (omega (arith, h.limit, Holds-length h)) (omega arith) (omega arith)

    reached : length q + n ≤ max next required
    reached = omega (arith, required-eq)

    more :
        writable_bytes r < n
        → (r' : RingReceiveBuffer) × (grow r (max next required) ≡ ok r')
          × Holds maximum q r'
          × (length r'.storage ≡ max next required)
    more short =
        grow-Holds (max next required) h (omega (arith, reached))
          (omega (arith, reached, Holds-length h)) (omega (arith, bounds, required-eq, h.limit))

-- A request past the limit is refused, and changes nothing.
pub ensure_writable-limit :
    {maximum : ℕ} {q : ByteQueue} {r : RingReceiveBuffer} (n : ℕ)
    → Holds maximum q r
    → maximum < length q + n
    → ensure_writable r n ≡ ok (limit_exceeded, r)
unfolding ensure_writable
ensure_writable-limit {maximum} {q} {r} n h past = ground (arith, Holds-length h, h.limit)
