-- ===== src/Buffer/Ring/Valid.antt =====
-- The invariant of RingReceiveBuffer, and the bytes that a valid one holds.
use native.Mathlib.Nat.{mod-eq_of_lt, mod-eq-sub-mod}
use iocp_http_runtime.Prelude.{
  ℕ, ◌+◌, ◌-◌, ◌%◌, ◌^◌, ◌≤◌, ◌<◌, ◌≡◌, refl, ap, ap₂, ◌∙◌, sym, min, List, [], ◌++◌, arith, none,
  if◌then◌else◌, ltb, ◌==◌, ==→eq, Bool-cases, inl, inr, length, take, drop, get_elem?,
  length-append, length-take, length-drop, take-append, drop-append, take-min, get_elem?-take,
  get_elem?-drop, get_elem?-append, add_size, sub_size,
}
use iocp_http_runtime.Buffer.Sequence.Read.{bytes, IsSequence, bytes-of_views, of_views-IsSequence}
use iocp_http_runtime.Buffer.Ring.{
  RingReceiveBuffer, capacity, writable_bytes, write_offset, readable_sequence,
}

pub record IsValid (r : RingReceiveBuffer) : Type 0 where
  pub some_storage : 0 < length r.storage
  pub bounded : length r.storage ≤ r.maximum_capacity
  pub addressable : r.maximum_capacity < 2 ^ 63
  pub offset_in : r.read_offset < length r.storage
  pub readable_in : r.readable_bytes ≤ length r.storage

-- The readable bytes in order: the storage laid out twice, read from the offset on.
abbrev pub contents : RingReceiveBuffer → List ℕ
contents r = take r.readable_bytes (drop r.read_offset (r.storage ++ r.storage))

pub length-contents : {r : RingReceiveBuffer} → IsValid r → length (contents r) ≡ r.readable_bytes
length-contents {r} v = omega (
  arith,
  length-take r.readable_bytes (drop r.read_offset (r.storage ++ r.storage)),
  length-drop r.read_offset (r.storage ++ r.storage),
  length-append r.storage r.storage,
)

-- A position past the end of the storage goes on at its start.
abbrev pub around : ℕ → ℕ → ℕ
around cap x = if ltb x cap then x else x - cap

pub mod-around : (cap x : ℕ) → 0 < cap → x < cap + cap → x % cap ≡ around cap x
mod-around cap x p h = elim (Bool-cases (ltb x cap)) [
  | inl e ↦ rw e (mod-eq_of_lt (ground arith))
  | inr e ↦ ground (
    arith,
    mod-eq-sub-mod {n = x} {m = cap} (ground arith),
    mod-eq_of_lt {n = x - cap} {m = cap} (ground arith),
  )
]

pub get_elem?-contents :
    {r : RingReceiveBuffer} (i : ℕ)
    → IsValid r
    → get_elem? (contents r) i ≡ (
        if ltb i r.readable_bytes
        then get_elem? r.storage (around (length r.storage) (r.read_offset + i))
        else none)
get_elem?-contents {r} i v = ground (
  arith,
  get_elem?-take r.readable_bytes (drop r.read_offset (r.storage ++ r.storage)) i,
  get_elem?-drop r.read_offset (r.storage ++ r.storage) i,
  get_elem?-append r.storage r.storage (r.read_offset + i),
)

-- No sum or difference of a valid buffer wraps.
pub write_offset-around :
    {r : RingReceiveBuffer}
    → IsValid r
    → write_offset r ≡ around (length r.storage) (r.read_offset + r.readable_bytes)
write_offset-around {r} v =
    let e : add_size r.read_offset r.readable_bytes ≡ r.read_offset + r.readable_bytes =
      omega arith in
    ap (λ x. x % length r.storage) e
    ∙ mod-around (length r.storage) (r.read_offset + r.readable_bytes) (omega arith) (omega arith)

pub writable_bytes-sub :
    {r : RingReceiveBuffer} → IsValid r → writable_bytes r ≡ length r.storage - r.readable_bytes
writable_bytes-sub v = omega arith

contents-empty : (r : RingReceiveBuffer) → r.readable_bytes ≡ 0 → contents r ≡ []
contents-empty r e = ap (λ n. take n (drop r.read_offset (r.storage ++ r.storage))) e

-- The two spans, as `ReadableSequence` cuts them.
spans-contents :
    {r : RingReceiveBuffer}
    → IsValid r
    → let first = min r.readable_bytes (sub_size (capacity r) r.read_offset) in
      take first (drop r.read_offset r.storage) ++ take (sub_size r.readable_bytes first) r.storage
      ≡ contents r
spans-contents {r} v =
    ap₂ (λ i j. take i (drop r.read_offset r.storage) ++ take j r.storage) first second
    ∙ sym doubled
  where
    room : ℕ
    room = length (drop r.read_offset r.storage)

    first : min r.readable_bytes (sub_size (capacity r) r.read_offset) ≡ min room r.readable_bytes
    first = omega (arith, length-drop r.read_offset r.storage)

    second :
        sub_size r.readable_bytes (min r.readable_bytes (sub_size (capacity r) r.read_offset))
        ≡ r.readable_bytes - room
    second = omega (arith, length-drop r.read_offset r.storage)

    none_left : r.read_offset - length r.storage ≡ 0
    none_left = omega arith

    doubled :
        contents r
        ≡ take (min room r.readable_bytes) (drop r.read_offset r.storage)
          ++ take (r.readable_bytes - room) r.storage
    doubled =
        rw (drop-append r.read_offset r.storage r.storage, none_left, take-min)
          (take-append r.readable_bytes (drop r.read_offset r.storage) r.storage)

-- The spans that `ReadableSequence` hands out show the readable bytes in order.
pub readable_sequence-contents :
    {r : RingReceiveBuffer}
    → IsValid r
    → IsSequence (readable_sequence r) × (bytes (readable_sequence r) ≡ contents r)
unfolding readable_sequence
readable_sequence-contents {r} v = elim (Bool-cases (r.readable_bytes == 0)) [
  | inl e ↦
      rw (e, readable_sequence)
        (record { sized = refl; flat_segments = refl }, sym (contents-empty r (==→eq _ _ e)))
  | inr e ↦
      rw (e, readable_sequence) (of_views-IsSequence _ _, bytes-of_views _ _ ∙ spans-contents v)
]
