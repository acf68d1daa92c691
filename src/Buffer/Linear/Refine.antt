-- ===== src/Buffer/Linear/Refine.antt =====
-- A ReceiveBuffer beside the bounded byte queue.
use iocp_http_runtime.Prelude.{
  ℕ, ◌+◌, ◌-◌, ◌^◌, ◌≤◌, ◌<◌, ◌≡◌, refl, sym, ap, ◌∙◌, max, List, [], ◌∷◌, ◌++◌, arith,
  if◌then◌else◌, ltb, leb, leb→le, leb-false→lt, ltb→lt, ltb-false→le, ◌==◌, ==→eq, Bool-cases, inl,
  inr, ok, throws, out_of_range, length, take, drop, replicate, length-append, length-take,
  length-drop, length-replicate, drop_all, write_at, add_size, get_elem?, get_elem?-take,
  get_elem?-drop, get_elem?-append, get_elem?-none, get_elem?-write_at, get_elem?-injective,
  length-write_at, none, false, append-nil, ◌⊎◌,
}
use iocp_http_runtime.Buffer.Status.{ready, limit_exceeded}
use iocp_http_runtime.Buffer.Linear.{
  ReceiveBuffer, init, capacity, readable_bytes, writable_bytes, readable_view, compact, resize,
  enlarge, ensure_writable, append, append_status, consume,
}
use iocp_http_runtime.Buffer.Ring.{next_capacity_loop}
use iocp_http_runtime.Buffer.Ring.Grow.{next_capacity_loop_bounds}
use iocp_http_runtime.Buffer.Ring.Spec
use iocp_http_runtime.Buffer.Ring.Spec.{ByteQueue}

pub record IsValid (r : ReceiveBuffer) : Type 0 where
  pub some_storage : 0 < length r.storage
  pub bounded : length r.storage ≤ r.maximum_capacity
  pub addressable : r.maximum_capacity < 2 ^ 63
  pub ordered : r.read_offset ≤ r.write_offset
  pub write_in : r.write_offset ≤ length r.storage

-- The buffer is valid, has that maximum, and shows the queue as its readable bytes.
pub record Holds (maximum : ℕ) (q : ByteQueue) (r : ReceiveBuffer) : Type 0 where
  pub valid : IsValid r
  pub limit : r.maximum_capacity ≡ maximum
  pub holds : readable_view r ≡ q

readable_bytes_lem :
    {r : ReceiveBuffer} → IsValid r → readable_bytes r ≡ r.write_offset - r.read_offset
readable_bytes_lem v = omega (arith, v)

Holds-length :
    {maximum : ℕ} {q : ByteQueue} {r : ReceiveBuffer}
    → Holds maximum q r
    → readable_bytes r ≡ length q
Holds-length {r = r} h = omega (
  arith,
  ap length h.holds,
  length-take (readable_bytes r) (drop r.read_offset r.storage),
  length-drop r.read_offset r.storage,
  h.valid,
)

get_elem?-readable_view :
    {r : ReceiveBuffer} (i : ℕ)
    → IsValid r
    → get_elem? (readable_view r) i ≡ (
        if ltb i (r.write_offset - r.read_offset)
        then get_elem? r.storage (r.read_offset + i)
        else none)
get_elem?-readable_view {r} i v = ground (
  arith,
  readable_bytes_lem v,
  get_elem?-take (readable_bytes r) (drop r.read_offset r.storage) i,
  get_elem?-drop r.read_offset r.storage i,
)

-- A valid buffer whose bytes stand where those of `q` do holds `q`.
holds_of :
    {r : ReceiveBuffer} (q : ByteQueue)
    → IsValid r
    → ((i : ℕ)
        → get_elem? q i ≡ (
            if ltb i (r.write_offset - r.read_offset)
            then get_elem? r.storage (r.read_offset + i)
            else none))
    → readable_view r ≡ q
holds_of {r} q v same =
    get_elem?-injective (readable_view r) q λ i. get_elem?-readable_view i v ∙ sym (same i)

module _ {maximum : ℕ} {q : ByteQueue} {r : ReceiveBuffer} (h : Holds maximum q r) where
  get_elem?-Holds :
      (i : ℕ)
      → get_elem? q i ≡ (
          if ltb i (r.write_offset - r.read_offset)
          then get_elem? r.storage (r.read_offset + i)
          else none)
  get_elem?-Holds i = ap (λ xs. get_elem? xs i) (sym h.holds) ∙ get_elem?-readable_view i h.valid

  -- `Compact` keeps the bytes and the size of the vector, and frees all the room behind them.
  compact-Holds :
      Holds maximum q (compact r)
      × (length (compact r).storage ≡ length r.storage)
      × ((compact r).read_offset ≡ 0)
      × ((compact r).write_offset ≡ length q)
  unfolding compact
  compact-Holds = (
    record { valid = valid; limit = h.limit; holds = holds_of q valid same },
    size,
    refl,
    Holds-length h,
  )
    where
      moved : List ℕ
      moved = if readable_bytes r == 0 then r.storage else write_at r.storage 0 (readable_view r)

      long : length (readable_view r) ≡ r.write_offset - r.read_offset
      long = omega (arith, ap length h.holds, Holds-length h, h.valid)

      size : length moved ≡ length r.storage
      size =
          ground
            (arith, length-write_at r.storage 0 (readable_view r) (omega (arith, h.valid, long)))

      valid : IsValid (compact r)
      valid = omega (arith, h.valid, size)

      same :
          (i : ℕ)
          → get_elem? q i ≡ (if ltb i (readable_bytes r - 0) then get_elem? moved (0 + i) else none)
      same i = ground (
        arith,
        get_elem?-Holds i,
        get_elem?-readable_view i h.valid,
        get_elem?-write_at r.storage 0 (readable_view r) i (omega (arith, h.valid, long)),
        long,
        h.valid,
      )

  -- Growth makes the room that was asked for, behind the bytes of a compact buffer.
  enlarge-Holds :
      (n : ℕ)
      → r.read_offset ≡ 0
      → 0 < n
      → length q + n ≤ maximum
      → (r' : ReceiveBuffer) × (enlarge r (add_size (readable_bytes r) n) ≡ (ready, r'))
        × Holds maximum q r'
        × (r'.write_offset + n ≤ length r'.storage)
  unfolding enlarge
  enlarge-Holds n front some_asked room = (
    record r { storage = resize r.storage size },
    refl,
    record { valid = valid; limit = h.limit; holds = holds_of q valid same },
    omega (arith, grown, required_lem),
  )
    where
      required : ℕ
      required = add_size (readable_bytes r) n

      next : ℕ
      next = next_capacity_loop 65 r.maximum_capacity required (capacity r)

      size : ℕ
      size = max next required

      required_lem : (required ≡ length q + n) × (r.write_offset ≡ length q)
      required_lem = omega (arith, Holds-length h, h.valid, h.limit, front)

      bounds : (required ≤ next) × (next ≤ r.maximum_capacity)
      bounds =
          next_capacity_loop_bounds 65 r.maximum_capacity required (capacity r)
            (omega (arith, h.valid)) (omega (arith, required_lem, h.limit)) (omega (arith, h.valid))
            (omega (arith, h.valid))

      grown : length (resize r.storage size) ≡ size
      grown = omega (
        arith,
        length-append (take size r.storage) (replicate (size - length r.storage) 0),
        length-take size r.storage,
        length-replicate {A = ℕ} (size - length r.storage) 0,
      )

      valid : IsValid (record r { storage = resize r.storage size })
      valid = omega (arith, h.valid, grown, bounds, required_lem)

      same :
          (i : ℕ)
          → get_elem? q i ≡ (
              if ltb i (r.write_offset - r.read_offset)
              then get_elem? (resize r.storage size) (r.read_offset + i)
              else none)
      same i = ground (
        arith,
        get_elem?-Holds i,
        get_elem?-append (take size r.storage) (replicate (size - length r.storage) 0)
            (r.read_offset + i),
        get_elem?-take size r.storage (r.read_offset + i),
        length-take size r.storage,
        h.valid,
        bounds,
        required_lem,
      )

-- A request within the limit is met, and the bytes stay.
ensure_writable-ready :
    {maximum : ℕ} {q : ByteQueue} {r : ReceiveBuffer} (n : ℕ)
    → Holds maximum q r
    → length q + n ≤ maximum
    → (r' : ReceiveBuffer) × (ensure_writable r n ≡ (ready, r'))
      × Holds maximum q r'
      × (r'.write_offset + n ≤ length r'.storage)
unfolding ensure_writable
ensure_writable-ready {maximum} {q} {r} n h room = elim (Bool-cases (leb n (writable_bytes r))) [
  | inl enough ↦
      (r, rw (enough, ensure_writable) refl, h, omega (arith, leb→le _ _ enough, h.valid))
  | inr short ↦ elim (Bool-cases (r.read_offset == 0)) [
    | inl front ↦
        let more =
          enlarge-Holds h n (==→eq _ _ front) (omega (arith, leb-false→lt _ _ short)) room in
        (more.0, ground (arith, h.limit, Holds-length h, more.1), more.2, more.3)
    | inr moved ↦ behind short moved (compact-Holds h)
  ]
]
  where
    behind :
        leb n (writable_bytes r) ≡ false
        → (r.read_offset == 0) ≡ false
        → Holds maximum q (compact r)
          × (length (compact r).storage ≡ length r.storage)
          × ((compact r).read_offset ≡ 0)
          × ((compact r).write_offset ≡ length q)
        → (r' : ReceiveBuffer) × (ensure_writable r n ≡ (ready, r'))
          × Holds maximum q r'
          × (r'.write_offset + n ≤ length r'.storage)
    behind short moved (k, size, front, full) =
        elim (Bool-cases (leb n (writable_bytes (compact r)))) [
          | inl enough ↦ (
            compact r,
            ground (arith, h.limit, Holds-length h, short, moved, enough),
            k,
            omega (arith, leb→le _ _ enough, k.valid),
          )
          | inr tight ↦
              let more = enlarge-Holds k n front (omega (arith, leb-false→lt _ _ short)) room in
              (
                more.0,
                ground
                    (arith, h.limit, Holds-length h, Holds-length k, short, moved, tight, more.1),
                more.2,
                more.3,
              )
        ]

-- A request past the limit is refused, and changes nothing.
ensure_writable-limit :
    {maximum : ℕ} {q : ByteQueue} {r : ReceiveBuffer} (n : ℕ)
    → Holds maximum q r
    → maximum < length q + n
    → ensure_writable r n ≡ (limit_exceeded, r)
unfolding ensure_writable
ensure_writable-limit {maximum} {q} {r} n h past = ground (arith, Holds-length h, h.limit, h.valid)

length-nil : (bs : List ℕ) → length bs ≡ 0 → bs ≡ []
length-nil [] e = refl
length-nil (b ∷ bs) e = absurd (omega arith)

-- Writing at the write offset appends.
append_status-Holds :
    {maximum : ℕ} {q : ByteQueue} {r : ReceiveBuffer} (bs : List ℕ)
    → Holds maximum q r
    → r.write_offset + length bs ≤ length r.storage
    → (r' : ReceiveBuffer) × (append_status ready r bs ≡ (ready, r')) × Holds maximum (q ++ bs) r'
unfolding append_status
append_status-Holds {maximum} {q} {r} bs h fits = elim (Bool-cases (length bs == 0)) [
  | inl none_given ↦ (
    r,
    rw none_given refl,
    record {
      valid = h.valid;
      limit = h.limit;
      holds =
          h.holds ∙ sym (ap (λ xs. q ++ xs) (length-nil bs (==→eq _ _ none_given)) ∙ append-nil q);
    },
  )
  | inr given ↦ (
    written,
    rw given refl,
    record { valid = valid; limit = h.limit; holds = holds_of (q ++ bs) valid same },
  )
]
  where
    written : ReceiveBuffer
    written = record r {
      storage = write_at r.storage r.write_offset bs;
      write_offset = add_size r.write_offset (length bs);
    }

    size : length (write_at r.storage r.write_offset bs) ≡ length r.storage
    size = length-write_at r.storage r.write_offset bs fits

    valid : IsValid written
    valid = omega (arith, h.valid, size)

    same :
        (i : ℕ)
        → get_elem? (q ++ bs) i ≡ (
            if ltb i (written.write_offset - r.read_offset)
            then get_elem? written.storage (r.read_offset + i)
            else none)
    same i = ground (
      arith,
      get_elem?-append q bs i,
      get_elem?-Holds h i,
      Holds-length h,
      get_elem?-none bs (i - length q),
      get_elem?-write_at r.storage r.write_offset bs (r.read_offset + i) fits,
      h.valid,
    )

-- `Append` answers as the bounded queue does, and leaves the buffer holding its queue.
pub linear_append_refines :
    {maximum : ℕ} {q : ByteQueue} {r : ReceiveBuffer} (bs : List ℕ)
    → Holds maximum q r
    → (r' : ReceiveBuffer) × (append r bs ≡ ((Spec.append maximum q bs).0, r'))
      × Holds maximum (Spec.append maximum q bs).1 r'
unfolding append append_status
linear_append_refines {maximum} {q} {r} bs h =
    elim (Bool-cases (ltb maximum (length q + length bs))) [
      | inl past ↦
          rw past (r, rw (ensure_writable-limit (length bs) h (ltb→lt _ _ past), append) refl, h)
      | inr fits ↦
          let got = ensure_writable-ready (length bs) h (ltb-false→le _ _ fits) in
          let out = append_status-Holds bs got.2 got.3 in
          rw fits (out.0, rw (got.1, append) out.1, out.2)
    ]

-- `Consume` on a valid buffer throws if fewer bytes are held, and else drops that many off the
-- front, and the buffer stays valid.
pub linear_consume_refines :
    {maximum : ℕ} {q : ByteQueue} {r : ReceiveBuffer} (n : ℕ)
    → Holds maximum q r
    → ((length q < n) × (consume r n ≡ throws out_of_range))
      ⊎ ((n ≤ length q)
          × (r' : ReceiveBuffer) × (consume r n ≡ ok r')
          × Holds maximum (drop n q) r')
unfolding consume
linear_consume_refines {maximum} {q} {r} n h = elim (Bool-cases (ltb (length q) n)) [
  | inl past ↦ inl (ltb→lt _ _ past, ground (arith, Holds-length h))
  | inr within ↦
      let out = consumed (ltb-false→le _ _ within) in
      inr (ltb-false→le _ _ within, out.0, out.1, out.2)
]
  where
    consumed :
        n ≤ length q → (r' : ReceiveBuffer) × (consume r n ≡ ok r') × Holds maximum (drop n q) r'
    consumed within = elim (Bool-cases (r.read_offset + n == r.write_offset)) [
      | inl all ↦ (
        record r { read_offset = 0; write_offset = 0 },
        ground (arith, Holds-length h, h.valid),
        record {
          valid = omega (arith, h.valid);
          limit = h.limit;
          holds = sym (drop_all n q (omega (arith, Holds-length h, h.valid, ==→eq _ _ all)));
        },
      )
      | inr part ↦ (
        record r { read_offset = r.read_offset + n },
        ground (arith, Holds-length h, h.valid),
        record {
          valid = omega (arith, h.valid, Holds-length h);
          limit = h.limit;
          holds =
              holds_of {r = record r { read_offset = r.read_offset + n }} (drop n q)
                (omega (arith, h.valid, Holds-length h))
                λ i.
                  ground (
                    arith,
                    get_elem?-drop n q i,
                    get_elem?-Holds h (n + i),
                    h.valid,
                    Holds-length h,
                  );
        },
      )
    ]

-- A buffer constructed with an initial capacity of 1 at least and a maximum no smaller, below
-- 2 ^ 63, is valid and empty.
pub linear_init-Holds :
    (initial maximum : ℕ)
    → 0 < initial
    → initial ≤ maximum
    → maximum < 2 ^ 63
    → (r : ReceiveBuffer) × (init initial maximum ≡ ok r) × Holds maximum [] r
unfolding init
linear_init-Holds initial maximum a b c = (
  record {
    storage = replicate initial 0;
    maximum_capacity = maximum;
    read_offset = 0;
    write_offset = 0;
  },
  ground arith,
  record { valid = omega (arith, length-replicate {A = ℕ} initial 0); limit = refl; holds = refl },
)
