-- ===== src/Transport/SendQueue/Consume.antt =====
-- `Consume` and the bytes that are pending.
use iocp_http_runtime.Prelude.{
  ℕ, zero, suc, ◌≤◌, ◌<◌, ◌≡◌, refl, ap, ap₂, ◌∙◌, List, [], ◌∷◌, arith, length, drop,
  get_elem?-some, some, Bool-cases, inl, inr, ◌==◌, ==→eq, ==-false→ne, ◌≢◌, false, length-drop,
  drop-drop,
}
use iocp_http_runtime.Transport.SendQueue.{
  Segment, Batch, SendQueue, SendConsumeResult, invalid, consume, Consuming, current,
  consume_segment, finish, consume_loop,
}
use iocp_http_runtime.Transport.SendQueue.Pending.{pending, AllBatches, IsValid}
use iocp_http_runtime.Transport.SendQueue.Round.{Inv, out, round-Inv}

-- A queue that has bytes left has a segment in front.
front_segment :
    (limit : ℕ) (bs : List Batch)
    → AllBatches limit bs
    → bs ≢ []
    → (b : Batch) × (rest : List Batch) × (s : Segment) × (bs ≡ b ∷ rest) × (current b ≡ some s)
front_segment limit [] live busy = absurd (busy refl)
front_segment limit (b ∷ rest) live busy =
    let s = get_elem?-some b.segments b.next_segment live.0.some_left in (b, rest, s.0, refl, s.1)

consume_loop-round :
    (fuel : ℕ) (c : Consuming) (b : Batch) (rest : List Batch) (s : Segment)
    → (c.left == 0) ≡ false
    → c.batches ≡ b ∷ rest
    → current b ≡ some s
    → consume_loop (suc fuel) c ≡ consume_loop fuel (consume_segment b s rest c)
unfolding consume_loop
consume_loop-round fuel c b rest s busy e f = ground arith

-- With fuel for the bytes that are left, the loop ends with none left.
consume_loop_lem :
    (fuel : ℕ) {limit most : ℕ} {c : Consuming}
    → Inv limit most c
    → c.left ≤ fuel
    → (c' : Consuming) × (consume_loop fuel c ≡ some c')
      × Inv limit most c'
      × (pending c'.batches ≡ drop c.left (pending c.batches))
unfolding out
consume_loop_lem zero {c = c} inv h = (
  c,
  unfold consume_loop in ground arith,
  inv,
  ap (λ k. drop k (pending c.batches)) {x = 0} {y = c.left} (omega arith),
)
consume_loop_lem (suc fuel) {limit} {most} {c} inv h = elim (Bool-cases (c.left == 0)) [
  | inl none_left ↦ (
    c,
    unfold consume_loop in rw (none_left, consume_loop) refl,
    inv,
    ap (λ k. drop k (pending c.batches)) {x = 0} {y = c.left} (omega (arith, ==→eq _ _ none_left)),
  )
  | inr more ↦
      let busy = ==-false→ne _ _ more in
      let f = front_segment limit c.batches inv.live (nonempty busy) in
      let round = round-Inv inv f.3 f.4 busy in
      let later = consume_loop_lem fuel round.0 (omega (arith, round.2, round.3)) in
      (
        later.0,
        consume_loop-round fuel c f.0 f.1 f.2 more f.3 f.4 ∙ later.1,
        later.2,
        later.3
            ∙ ap₂ drop round.2 round.1
            ∙ drop-drop _ _ (pending c.batches)
            ∙ ap (λ k. drop k (pending c.batches)) (omega arith),
      )
]
  where
    nonempty : c.left ≢ 0 → c.batches ≢ []
    nonempty busy e = absurd (omega (arith, busy, inv.enough, inv.queued, ap length (ap pending e)))

abbrev start_of : SendQueue → ℕ → Consuming
start_of q n = record {
  batches = q.batches;
  item_count = q.item_count;
  queued_bytes = q.queued_bytes;
  left = n;
  completed = false;
}

consume-accepted :
    (q : SendQueue) (n : ℕ) (c' : Consuming)
    → 0 < n
    → n ≤ q.queued_bytes
    → 0 < length q.batches
    → consume_loop n (start_of q n) ≡ some c'
    → consume q n ≡ some ((finish q c').0, (finish q c').1)
unfolding consume
consume-accepted q n c' p h some_batch e = ground arith

finish-ne-invalid : (q : SendQueue) (c' : Consuming) → (finish q c').0 ≢ invalid
unfolding finish
finish-ne-invalid q c' = ground arith

some_batch : {q : SendQueue} → IsValid q → 0 < q.queued_bytes → 0 < length q.batches
some_batch {q} v h = nonempty q.batches (omega (arith, v.queued))
  where
    nonempty : (bs : List Batch) → 0 < length (pending bs) → 0 < length bs
    nonempty [] k = k
    nonempty (b ∷ bs) k = omega arith

-- On a valid queue, Consume of at most the queued bytes (and one at least) is never undefined: it
-- answers progress or item_completed, leaves the queue valid under the same limits, and what is
-- pending is what was pending without its first `n` bytes.
pub consume_lem :
    {q : SendQueue} (n : ℕ)
    → IsValid q
    → 0 < n
    → n ≤ q.queued_bytes
    → (r : SendConsumeResult) × (q' : SendQueue) × (consume q n ≡ some (r, q'))
      × (r ≢ invalid)
      × IsValid q'
      × (pending q'.batches ≡ drop n (pending q.batches))
      × (q'.maximum_items ≡ q.maximum_items)
      × (q'.maximum_bytes ≡ q.maximum_bytes)
unfolding finish
consume_lem {q} n v p h = (
  (finish q c').0,
  (finish q c').1,
  consume-accepted q n c' p h (some_batch v (omega arith)) looped.1,
  finish-ne-invalid q c',
  record {
    items_size = v.items_size;
    bytes_size = v.bytes_size;
    batches_live = looped.2.live;
    counted = looped.2.counted;
    queued = looped.2.queued;
    items_bounded = looped.2.items_bounded;
    bytes_bounded = omega (
      arith,
      looped.2.queued,
      ap length looped.3,
      length-drop n (pending q.batches),
      v.queued,
      v.bytes_bounded,
    );
  },
  looped.3,
  refl,
  refl,
)
  where
    looped :
        (c' : Consuming) × (consume_loop n (start_of q n) ≡ some c')
        × Inv q.maximum_bytes q.maximum_items c'
        × (pending c'.batches ≡ drop n (pending q.batches))
    looped =
        consume_loop_lem n
          (record {
            limit_size = v.bytes_size;
            live = v.batches_live;
            counted = v.counted;
            queued = v.queued;
            queued_size = omega arith;
            most_size = v.items_size;
            items_bounded = v.items_bounded;
            enough = h;
          })
          (omega arith)

    c' : Consuming
    c' = looped.0
