-- ===== src/Buffer/Sequence/Read.antt =====
-- Reading a `BufferSequence`: `At` and `CopyTo` see the two spans as one run of bytes.
use iocp_http_runtime.Prelude.{
  ℕ, ◌+◌, ◌-◌, ◌≤◌, ◌<◌, ◌≡◌, refl, ap, ap₂, ◌∙◌, min, List, [], ◌∷◌, ◌++◌, arith, if◌then◌else◌,
  ltb, leb, Bool-cases, inl, inr, length, take, drop, get_elem?, length-append, length-take,
  length-drop, take-append, drop-append, take-min, drop_all, append-nil, append_assoc,
  get_elem?-append, get_elem?-some, get_elem?-none, take-nil, drop-nil, ok, throws, out_of_range,
  some, none,
}
use iocp_http_runtime.Buffer.View.{ByteView}
use iocp_http_runtime.Buffer.Sequence.{
  BufferSequence, segments, of_views, at, copy_segments, copy_to,
}

-- The logical bytes.
abbrev pub bytes : BufferSequence → List ℕ
bytes s = s.first ++ s.second

abbrev pub flat : List ByteView → List ℕ
flat [] = []
flat (seg ∷ segs) = seg ++ flat segs

-- What every constructor establishes.
pub record IsSequence (s : BufferSequence) : Type 0 where
  pub sized : s.size ≡ length (bytes s)
  pub flat_segments : flat (segments s) ≡ bytes s

pub bytes-of_views : (a b : ByteView) → bytes (of_views a b) ≡ a ++ b
unfolding of_views
bytes-of_views [] [] = refl
bytes-of_views [] (y ∷ b) = ground (arith, append-nil (y ∷ b))
bytes-of_views (x ∷ a) [] = ground arith
bytes-of_views (x ∷ a) (y ∷ b) = ground arith

pub of_views-IsSequence : (a b : ByteView) → IsSequence (of_views a b)
unfolding of_views
of_views-IsSequence [] [] = record { sized = refl; flat_segments = refl }
of_views-IsSequence [] (y ∷ b) = record {
  sized = ground (arith, append-nil b);
  flat_segments = ground (arith, append-nil b);
}
of_views-IsSequence (x ∷ a) [] = record {
  sized = ground (arith, append-nil a);
  flat_segments = ground (arith, append-nil a);
}
of_views-IsSequence (x ∷ a) (y ∷ b) = record {
  sized = ground (arith, length-append a (y ∷ b));
  flat_segments = ground (arith, append-nil b);
}

-- `At` returns the byte of the logical run at that index, and throws `out_of_range` at and past
-- its end; it never reads outside a span.
pub at-bytes :
    {s : BufferSequence} (i : ℕ)
    → IsSequence s
    → at s i ≡ elim (get_elem? (bytes s) i) [ none ↦ throws out_of_range | some b ↦ ok b ]
unfolding at
at-bytes {s} i v = ground (
  arith,
  v.sized,
  get_elem?-append s.first s.second i,
  get_elem?-none (bytes s) i,
  get_elem?-some (bytes s) i,
  length-append s.first s.second,
)

-- One segment: what the loop takes of it, and what it leaves to the next ones.
take-drop-append :
    (k o : ℕ) (seg rest : List ℕ)
    → o < length seg
    → take k (drop o (seg ++ rest))
      ≡ take (min (length seg - o) k) (drop o seg) ++ take (k - min (length seg - o) k) rest
take-drop-append k o seg rest h =
    let e : min (length seg - o) k ≡ min (length (drop o seg)) k =
      omega (arith, length-drop o seg) in
    rw
      (
        drop-append o seg rest,
        take-append k (drop o seg) (drop (o - length seg) rest),
        e,
        take-min k (drop o seg),
      )
      (ap₂ (λ i j. take k (drop o seg) ++ take i (drop j rest)) left none_skipped)
  where
    left : k - length (drop o seg) ≡ k - min (length (drop o seg)) k
    left = omega arith

    none_skipped : o - length seg ≡ 0
    none_skipped = omega arith

drop-skip :
    (o : ℕ) (seg rest : List ℕ) → length seg ≤ o → drop o (seg ++ rest) ≡ drop (o - length seg) rest
drop-skip o seg rest h =
    drop-append o seg rest ∙ ap (λ xs. xs ++ drop (o - length seg) rest) (drop_all o seg h)

-- The loop appends to `out` what is left of the run, as far as the destination goes.
copy_segments_lem :
    (segs : List ByteView) (n offset : ℕ) (out : List ℕ)
    → copy_segments segs n offset out ≡ out ++ take (n - length out) (drop offset (flat segs))
unfolding copy_segments
copy_segments_lem [] n offset out = rw (drop-nil, take-nil, append-nil)
copy_segments_lem (seg ∷ segs) n offset out = elim (Bool-cases (ltb (length out) n)) [
  | inl more ↦ elim (Bool-cases (leb (length seg) offset)) [
    | inl skipped ↦ ground (
      arith,
      copy_segments_lem segs n (offset - length seg) out,
      drop-skip offset seg (flat segs),
    )
    | inr inside ↦
        let b = min (length seg - offset) (n - length out) in
        let chunk = take b (drop offset seg) in
        ground (
          arith,
          copy_segments_lem segs n 0 (out ++ chunk),
          take-drop-append (n - length out) offset seg (flat segs),
          length-append out chunk,
          length-take b (drop offset seg),
          length-drop offset seg,
          append_assoc out chunk (take (n - length (out ++ chunk)) (flat segs)),
        )
  ]
  | inr full ↦ ground (arith, append-nil out)
]

-- `CopyTo` fills the destination with the bytes from `offset` on, all `n` of them, and throws
-- `out_of_range` exactly if the run does not reach that far.
pub copy_to-bytes :
    {s : BufferSequence} (offset n : ℕ)
    → IsSequence s
    → copy_to s offset n ≡ (
        if leb (offset + n) (length (bytes s))
        then ok (take n (drop offset (bytes s)))
        else throws out_of_range)
unfolding copy_to
copy_to-bytes {s} offset n v =
    ground (arith, v.sized, v.flat_segments, copy_segments_lem (segments s) n offset [])
