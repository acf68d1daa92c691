-- ===== src/Transport/SendQueue/Gather.antt =====
-- `Gather` and the bytes that are pending.
use iocp_http_runtime.Prelude.{
  ℕ, ◌+◌, ◌-◌, ◌^◌, ◌≤◌, ◌<◌, ◌≡◌, refl, sym, ap, ap₂, ◌∙◌, min, ◌⊎◌, inl, inr, List, [], ◌∷◌, ◌++◌,
  arith, length, take, drop, none, some, Bool-cases, ◌==◌, ltb, ltb→lt, ltb-false→le, ◌&&◌, ◌||◌,
  length-append, length-drop, append-nil, append_assoc, take-append, take_all, sub_size, add_size,
}
use iocp_http_runtime.Transport.SendQueue.{
  Segment, Batch, SendQueue, SendSlice, SendGather, SharedSendBuffer, gather_segments,
  gather_batches, gather, empty_gather,
}
use iocp_http_runtime.Transport.SendQueue.Pending.{
  unsent, rest_of, pending, AllLive, AllBatches, IsValid,
}

abbrev pub contents : SharedSendBuffer → List ℕ
contents none = []
contents (some buffer) = buffer

-- The bytes that a send of the slices would hand to the socket.
abbrev pub sent : List SendSlice → List ℕ
sent [] = []
sent (s ∷ slices) = take s.size (drop s.offset (contents s.buffer)) ++ sent slices

sent-append : (xs ys : List SendSlice) → sent (xs ++ ys) ≡ sent xs ++ sent ys
sent-append [] ys = refl
sent-append (x ∷ xs) ys =
    ap (λ bs. take x.size (drop x.offset (contents x.buffer)) ++ bs) (sent-append xs ys)
    ∙ sym (append_assoc (take x.size (drop x.offset (contents x.buffer))) (sent xs) (sent ys))

-- From `g` to `g'` a prefix of `rest` was added, within the limits, and as much as they allow.
record Adds (slices bytes : ℕ) (rest : List ℕ) (g g' : SendGather) : Type 0 where
  grows : g.total_bytes ≤ g'.total_bytes
  within : g'.total_bytes - g.total_bytes ≤ length rest
  prefix : sent g'.slices ≡ sent g.slices ++ take (g'.total_bytes - g.total_bytes) rest
  slices_bounded : length g'.slices ≤ slices
  bytes_bounded : g'.total_bytes ≤ bytes
  greedy :
      (length g'.slices ≡ slices)
      ⊎ (g'.total_bytes ≡ bytes)
      ⊎ (g'.total_bytes - g.total_bytes ≡ length rest)

-- Nothing is added where a limit is reached, or nothing is left.
Adds-none :
    {slices bytes : ℕ} {rest : List ℕ} {g : SendGather}
    → length g.slices ≤ slices
    → g.total_bytes ≤ bytes
    → (length g.slices ≡ slices) ⊎ (g.total_bytes ≡ bytes) ⊎ (0 ≡ length rest)
    → Adds slices bytes rest g g
Adds-none {rest = rest} {g = g} a b stop = record {
  grows = omega arith;
  within = omega arith;
  prefix = sym (
      ap (λ k. sent g.slices ++ take k rest) {x = g.total_bytes - g.total_bytes} {y = 0}
        (omega arith)
      ∙ append-nil (sent g.slices));
  slices_bounded = a;
  bytes_bounded = b;
  greedy = ground (arith, stop);
}

-- A part that was cut ends at the byte limit; a whole one is followed by what the rest gives.
cut-append :
    (n k t : ℕ) (part rest : List ℕ)
    → t ≡ n + k
    → (n ≡ length part) ⊎ ((n ≤ length part) × (k ≡ 0))
    → take n part ++ take k rest ≡ take t (part ++ rest)
cut-append n k t part rest e (inl whole) = sym (
    take-append t part rest
    ∙ ap₂ (λ xs j. xs ++ take j rest) {u = t - length part} {v = k}
        (take_all t part (omega arith) ∙ sym (take_all n part (omega arith))) (omega arith))
cut-append n k t part rest e (inr cut) = sym (
    take-append t part rest
    ∙ ap₂ (λ i j. take i part ++ take j rest) {x = t} {y = n} {u = t - length part} {v = k}
        (omega arith) (omega arith))

-- A round of the inner loop: the slice of one segment.
module _ (slices bytes : ℕ) {limit : ℕ} (small : bytes < 2 ^ 64) (limited : limit < 2 ^ 64)
    (s : Segment) (segments : List Segment) (g : SendGather) (live : AllLive limit (s ∷ segments))
    (open_slices : length g.slices < slices) (open_bytes : g.total_bytes < bytes) where
  abbrev n : ℕ
  n = min (sub_size (length s.buffer) s.offset) (sub_size bytes g.total_bytes)

  abbrev part : List ℕ
  part = drop s.offset s.buffer

  abbrev slice : SendSlice
  slice = record { buffer = some s.buffer; offset = s.offset; size = n }

  abbrev next : SendGather
  next = record { slices = g.slices ++ slice ∷ []; total_bytes = add_size g.total_bytes n }

  n_lem : n ≡ min (length part) (bytes - g.total_bytes)
  n_lem = omega (arith, length-drop s.offset s.buffer, live.0, live.1)

  next_total : next.total_bytes ≡ g.total_bytes + n
  next_total = omega (arith, n_lem)

  next_slices : length next.slices ≤ slices
  next_slices = omega (arith, length-append g.slices (slice ∷ []))

  sent-next : sent next.slices ≡ sent g.slices ++ take n part
  sent-next =
      sent-append g.slices (slice ∷ []) ∙ ap (λ xs. sent g.slices ++ xs) (append-nil (take n part))

  whole_or_cut :
      {g' : SendGather}
      → Adds slices bytes (unsent segments) next g'
      → (n ≡ length part) ⊎ ((n ≤ length part) × (g'.total_bytes - next.total_bytes ≡ 0))
  whole_or_cut {g'} r = elim (Bool-cases (ltb (bytes - g.total_bytes) (length part))) [
    | inl cut ↦
        inr
          (omega (arith, n_lem), omega (arith, n_lem, next_total, r.bytes_bounded, ltb→lt _ _ cut))
    | inr whole ↦ inl (omega (arith, n_lem, ltb-false→le _ _ whole))
  ]

  added :
      {g' : SendGather}
      → Adds slices bytes (unsent segments) next g'
      → Adds slices bytes (part ++ unsent segments) g g'
  added {g'} r = record {
    grows = omega (arith, next_total, r.grows);
    within =
        omega (arith, next_total, n_lem, r.within, r.grows, length-append part (unsent segments));
    prefix =
        r.prefix
        ∙ ap (λ xs. xs ++ take (g'.total_bytes - next.total_bytes) (unsent segments)) sent-next
        ∙ append_assoc (sent g.slices) (take n part)
            (take (g'.total_bytes - next.total_bytes) (unsent segments))
        ∙ ap (λ xs. sent g.slices ++ xs)
            (cut-append n (g'.total_bytes - next.total_bytes) (g'.total_bytes - g.total_bytes) part
              (unsent segments) (omega (arith, next_total, r.grows)) (whole_or_cut r));
    slices_bounded = r.slices_bounded;
    bytes_bounded = r.bytes_bounded;
    greedy = ground (
      arith,
      r.greedy,
      r.grows,
      r.bytes_bounded,
      n_lem,
      next_total,
      length-append part (unsent segments),
    );
  }

module _ (slices bytes limit : ℕ) (small : bytes < 2 ^ 64) (limited : limit < 2 ^ 64) where
  gather_segments-Adds :
      (segments : List Segment) (g : SendGather)
      → AllLive limit segments
      → length g.slices ≤ slices
      → g.total_bytes ≤ bytes
      → Adds slices bytes (unsent segments) g (gather_segments slices bytes segments g)
  unfolding gather_segments
  gather_segments-Adds [] g live a b = Adds-none a b (inr (inr refl))
  gather_segments-Adds (s ∷ segments) g live a b =
      elim (Bool-cases (ltb (length g.slices) slices && ltb g.total_bytes bytes)) [
        | inr stop ↦ rw (stop, gather_segments) (Adds-none a b (ground arith))
        | inl go ↦
            let p : length g.slices < slices = ground arith in
            let q : g.total_bytes < bytes = ground arith in
            rw (go, gather_segments)
              (added slices bytes small limited s segments g live p q (
                gather_segments-Adds segments _ live.2
                  (next_slices slices bytes small limited s segments g live p q)
                  (omega (arith, n_lem slices bytes small limited s segments g live p q))))
      ]

  -- The loop over the batches, of which the first was gathered already.
  Adds-append :
      {part rest : List ℕ} {g h g' : SendGather}
      → Adds slices bytes part g h
      → h.total_bytes - g.total_bytes ≡ length part
      → Adds slices bytes rest h g'
      → Adds slices bytes (part ++ rest) g g'
  Adds-append {part} {rest} {g} {h} {g'} a whole r = record {
    grows = omega (arith, a.grows, r.grows);
    within = omega (arith, whole, r.within, a.grows, r.grows, length-append part rest);
    prefix =
        r.prefix
        ∙ ap (λ xs. xs ++ take (g'.total_bytes - h.total_bytes) rest) a.prefix
        ∙ append_assoc (sent g.slices) (take (h.total_bytes - g.total_bytes) part)
            (take (g'.total_bytes - h.total_bytes) rest)
        ∙ ap (λ xs. sent g.slices ++ xs)
            (cut-append (h.total_bytes - g.total_bytes) (g'.total_bytes - h.total_bytes)
              (g'.total_bytes - g.total_bytes) part rest (omega (arith, a.grows, r.grows))
              (inl whole));
    slices_bounded = r.slices_bounded;
    bytes_bounded = r.bytes_bounded;
    greedy = ground (arith, r.greedy, whole, a.grows, r.grows, length-append part rest);
  }

  Adds-stop :
      {part : List ℕ} (rest : List ℕ) {g h : SendGather}
      → Adds slices bytes part g h
      → (length h.slices ≡ slices) ⊎ (h.total_bytes ≡ bytes)
      → Adds slices bytes (part ++ rest) g h
  Adds-stop {part} rest {g} {h} a stop = record {
    grows = a.grows;
    within = omega (arith, a.within, length-append part rest);
    prefix =
        a.prefix
        ∙ ap (λ xs. sent g.slices ++ xs)
            (sym (append-nil (take (h.total_bytes - g.total_bytes) part))
              ∙ cut-append (h.total_bytes - g.total_bytes) 0 (h.total_bytes - g.total_bytes) part
                  rest (omega arith) (inr (a.within, refl)));
    slices_bounded = a.slices_bounded;
    bytes_bounded = a.bytes_bounded;
    greedy = ground (arith, stop);
  }

  gather_batches-Adds :
      (batches : List Batch) (g : SendGather)
      → AllBatches limit batches
      → length g.slices ≤ slices
      → g.total_bytes ≤ bytes
      → Adds slices bytes (pending batches) g (gather_batches slices bytes batches g)
  unfolding gather_batches
  gather_batches-Adds [] g live a b = Adds-none a b (inr (inr refl))
  gather_batches-Adds (f ∷ batches) g live a b =
      elim (Bool-cases ((length h.slices == slices) || (h.total_bytes == bytes))) [
        | inl stop ↦ rw (stop, gather_batches) (Adds-stop (pending batches) front (ground arith))
        | inr go ↦
            rw (go, gather_batches)
              (Adds-append front (ground (arith, front.greedy))
                (gather_batches-Adds batches h live.1 front.slices_bounded front.bytes_bounded))
      ]
    where
      h : SendGather
      h = gather_segments slices bytes (rest_of f) g

      front : Adds slices bytes (unsent (rest_of f)) g h
      front = gather_segments-Adds (rest_of f) g live.0.live a b

no_batches : (bs : List Batch) → length bs ≡ 0 → 0 ≡ length (pending bs)
no_batches [] h = refl
no_batches (b ∷ bs) h = absurd (omega arith)

gather-Adds :
    {q : SendQueue} (slices bytes : ℕ)
    → IsValid q
    → bytes < 2 ^ 64
    → Adds slices bytes (pending q.batches) empty_gather (gather q slices bytes)
unfolding gather
gather-Adds {q} slices bytes v small =
    elim (Bool-cases ((slices == 0) || ((bytes == 0) || (length q.batches == 0)))) [
      | inl none_asked ↦
          rw (none_asked, gather)
            (Adds-none (omega arith) (omega arith) (ground (arith, no_batches q.batches)))
      | inr some_asked ↦
          rw (some_asked, gather)
            (gather_batches-Adds slices bytes q.maximum_bytes small v.bytes_size q.batches
              empty_gather v.batches_live (omega arith) (omega arith))
    ]

-- On a valid queue, Gather hands out slices whose bytes are the first `total_bytes` pending ones,
-- no more slices and bytes than the limits, and as much as the limits and the queue allow: it
-- stops at a limit, or with all that is queued.
pub gather_lem :
    {q : SendQueue} (slices bytes : ℕ)
    → IsValid q
    → bytes < 2 ^ 64
    → let g = gather q slices bytes in
      (sent g.slices ≡ take g.total_bytes (pending q.batches))
      × (length g.slices ≤ slices)
      × (g.total_bytes ≤ bytes)
      × (g.total_bytes ≤ q.queued_bytes)
      × ((length g.slices ≡ slices) ⊎ (g.total_bytes ≡ bytes) ⊎ (g.total_bytes ≡ q.queued_bytes))
gather_lem {q} slices bytes v small =
    let r = gathered in
    (
      r.prefix ∙ ap (λ k. take k (pending q.batches)) {y = total} (omega arith),
      r.slices_bounded,
      r.bytes_bounded,
      omega (arith, r.within, v.queued),
      ground (arith, r.greedy, v.queued),
    )
  where
    total : ℕ
    total = (gather q slices bytes).total_bytes

    gathered : Adds slices bytes (pending q.batches) empty_gather (gather q slices bytes)
    gathered = gather-Adds slices bytes v small
