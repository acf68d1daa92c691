-- ===== src/Transport/SendQueue/Round.antt =====
-- A round of the loop of `Consume`: what it does to the front batch, and what it keeps.
use iocp_http_runtime.Prelude.{
  ℕ, suc, ◌+◌, ◌-◌, ◌^◌, ◌≤◌, ◌<◌, ◌≡◌, sym, ap, ap₂, subst, append_assoc, ◌∙◌, min, List, [], ◌∷◌,
  ◌++◌, arith, length, drop, set, some, Bool-cases, inl, inr, ◌==◌, ==→eq, ==-false→ne, ◌≢◌, Bool,
  true, false, length-append, length-drop, length-set, drop-get_elem?, drop-set_self, drop-set_past,
  drop-append, drop-drop, drop_all, sub_size, add_size, if◌then◌else◌,
}
use iocp_http_runtime.Transport.SendQueue.{Segment, Batch, Consuming, current, consume_segment}
use iocp_http_runtime.Transport.SendQueue.Pending.{
  unsent, rest_of, pending, items, AllLive, IsLive, AllBatches,
}

-- What the loop keeps.
pub record Inv (limit most : ℕ) (c : Consuming) : Type 0 where
  pub limit_size : limit < 2 ^ 64
  pub live : AllBatches limit c.batches
  pub counted : c.item_count ≡ items c.batches
  pub queued : c.queued_bytes ≡ length (pending c.batches)
  pub queued_size : c.queued_bytes < 2 ^ 64
  pub most_size : most < 2 ^ 64
  pub items_bounded : c.item_count ≤ most
  pub enough : c.left ≤ c.queued_bytes

module _ {limit most : ℕ} {b : Batch} {s : Segment} {rest : List Batch} {c : Consuming}
    (inv : Inv limit most c) (at_front : c.batches ≡ b ∷ rest)
    (at_segment : current b ≡ some s) where
  abbrev consumed : ℕ
  consumed = min c.left (length s.buffer - s.offset)

  abbrev behind : List Segment
  behind = drop (suc b.next_segment) b.segments

  opened : rest_of b ≡ s ∷ behind
  opened = drop-get_elem? b.segments b.next_segment at_segment

  alive : IsLive limit b × AllBatches limit rest
  alive = subst (AllBatches limit) at_front inv.live

  segment_alive : AllLive limit (s ∷ behind)
  segment_alive = subst (AllLive limit) opened alive.0.live

  abbrev tail : List ℕ
  tail = unsent behind ++ pending rest

  pending_front : pending c.batches ≡ drop s.offset s.buffer ++ tail
  pending_front =
      ap pending at_front
      ∙ ap (λ xs. unsent xs ++ pending rest) opened
      ∙ append_assoc (drop s.offset s.buffer) (unsent behind) (pending rest)

  items_front : items c.batches ≡ suc (length behind) + items rest
  items_front = ap items at_front ∙ ap (λ xs. length xs + items rest) opened

  sizes : consumed ≤ c.left × (c.left ≤ length (drop s.offset s.buffer) + length tail)
  sizes = omega (
    arith,
    inv.enough,
    inv.queued,
    ap length pending_front,
    length-append (drop s.offset s.buffer) tail,
  )

  -- Taking the bytes of the round off the front.
  pending_after : drop consumed (pending c.batches) ≡ drop (s.offset + consumed) s.buffer ++ tail
  pending_after =
      ap (drop consumed) pending_front
      ∙ drop-append consumed (drop s.offset s.buffer) tail
      ∙ ap₂ ◌++◌ (drop-drop consumed s.offset s.buffer) (
          ap (λ k. drop k tail) {x = consumed - length (drop s.offset s.buffer)} {y = 0}
            (omega (arith, length-drop s.offset s.buffer)))

  queued_after : c.queued_bytes - consumed ≡ length (drop (s.offset + consumed) s.buffer ++ tail)
  queued_after =
      ap (λ n. n - consumed) inv.queued
      ∙ sym (length-drop consumed (pending c.batches))
      ∙ ap length pending_after

  unfoldable pub out : Consuming
  out = consume_segment b s rest c

  -- The numbers of the round do not wrap.
  no_wrap :
      (sub_size (length s.buffer) s.offset ≡ length s.buffer - s.offset)
      × (add_size s.offset consumed ≡ s.offset + consumed)
      × (add_size b.next_segment 1 ≡ suc b.next_segment)
      × (sub_size c.item_count 1 ≡ c.item_count - 1)
      × (sub_size c.queued_bytes consumed ≡ c.queued_bytes - consumed)
      × (sub_size c.left consumed ≡ c.left - consumed)
  no_wrap = ground (
    arith, segment_alive.0, segment_alive.1, alive.0.some_left, alive.0.countable, inv, items_front,
  )

  abbrev moved : Segment
  moved = record s { offset = s.offset + consumed }

  abbrev moved_segments : List Segment
  moved_segments = set b.segments b.next_segment moved

  -- The three ways in which a round leaves the front batch.
  after : List Batch
  after =
      if s.offset + consumed == length s.buffer
      then (if suc b.next_segment == length b.segments
          then rest
          else record { segments = moved_segments; next_segment = suc b.next_segment } ∷ rest)
      else record { segments = moved_segments; next_segment = b.next_segment } ∷ rest

  out-after :
      (out.batches ≡ after)
      × (out.left ≡ c.left - consumed)
      × (out.queued_bytes ≡ c.queued_bytes - consumed)
      × (out.item_count
          ≡ (if s.offset + consumed == length s.buffer then c.item_count - 1 else c.item_count))
  unfolding out consume_segment after
  out-after = ground (arith, no_wrap, length-set b.segments b.next_segment moved)

  -- The front batch with its segment moved on, and with its segment done.
  abbrev partial : Batch
  partial = record { segments = moved_segments; next_segment = b.next_segment }

  abbrev advanced : Batch
  advanced = record { segments = moved_segments; next_segment = suc b.next_segment }

  rest_of-partial : rest_of partial ≡ moved ∷ behind
  rest_of-partial = drop-set_self b.segments b.next_segment moved alive.0.some_left

  rest_of-advanced : rest_of advanced ≡ behind
  rest_of-advanced = drop-set_past b.segments b.next_segment moved

  same_length : length moved_segments ≡ length b.segments
  same_length = length-set b.segments b.next_segment moved

  -- What is to show of the batches that the round leaves.
  abbrev Leaves : Bool → List Batch → Type 0
  Leaves done bs =
      (pending bs ≡ drop consumed (pending c.batches))
      × AllBatches limit bs
      × (items bs ≡ (if done then items c.batches - 1 else items c.batches))

  Leaves-partial : s.offset + consumed ≢ length s.buffer → Leaves false (partial ∷ rest)
  Leaves-partial more = (
    ap (λ xs. unsent xs ++ pending rest) rest_of-partial
        ∙ append_assoc (drop (s.offset + consumed) s.buffer) (unsent behind) (pending rest)
        ∙ sym pending_after,
    (
      record {
        some_left = omega (arith, same_length, alive.0.some_left);
        countable = omega (arith, same_length, alive.0.countable);
        live =
            subst (AllLive limit) (sym rest_of-partial)
              (omega (arith, segment_alive.0), segment_alive.1, segment_alive.2);
      },
      alive.1,
    ),
    omega (arith, ap length rest_of-partial, items_front),
  )

  Leaves-advanced :
      s.offset + consumed ≡ length s.buffer
      → suc b.next_segment ≢ length b.segments
      → Leaves true (advanced ∷ rest)
  Leaves-advanced done more = (
    ap (λ xs. unsent xs ++ pending rest) rest_of-advanced
        ∙ sym (
            pending_after
            ∙ ap (λ xs. xs ++ tail) (drop_all (s.offset + consumed) s.buffer (omega arith))),
    (
      record {
        some_left = omega (arith, same_length, alive.0.some_left);
        countable = omega (arith, same_length, alive.0.countable);
        live = subst (AllLive limit) (sym rest_of-advanced) segment_alive.2;
      },
      alive.1,
    ),
    omega (arith, ap length rest_of-advanced, items_front),
  )

  Leaves-last :
      s.offset + consumed ≡ length s.buffer
      → suc b.next_segment ≡ length b.segments
      → Leaves true rest
  Leaves-last done last = (
    sym (
        pending_after
        ∙ ap (λ xs. xs ++ tail) (drop_all (s.offset + consumed) s.buffer (omega arith))
        ∙ ap (λ xs. unsent xs ++ pending rest) none_behind),
    alive.1,
    omega (arith, ap length none_behind, items_front),
  )
    where
      none_behind : behind ≡ []
      none_behind = drop_all (suc b.next_segment) b.segments (omega arith)

  after-Leaves : Leaves (s.offset + consumed == length s.buffer) after
  unfolding after
  after-Leaves = elim (Bool-cases (s.offset + consumed == length s.buffer)) [
    | inl done ↦ elim (Bool-cases (suc b.next_segment == length b.segments)) [
      | inl last ↦ rw (done, last) (Leaves-last (==→eq _ _ done) (==→eq _ _ last))
      | inr more ↦ rw (done, more) (Leaves-advanced (==→eq _ _ done) (==-false→ne _ _ more))
    ]
    | inr more ↦ rw more (Leaves-partial (==-false→ne _ _ more))
  ]

  -- One round keeps the invariant and takes a byte at least.
  pub round-Inv :
      c.left ≢ 0
      → Inv limit most out
        × (pending out.batches ≡ drop consumed (pending c.batches))
        × (out.left ≡ c.left - consumed)
        × (0 < consumed)
  round-Inv busy = (
    record {
      limit_size = inv.limit_size;
      live = subst (AllBatches limit) (sym out-after.0) after-Leaves.1;
      counted = counts;
      queued = out-after.2 ∙ queued_after ∙ ap length (sym pending_after ∙ sym moved_on);
      queued_size = omega (arith, out-after.2, inv.queued_size);
      most_size = inv.most_size;
      items_bounded = ground (arith, out-after.3, inv.items_bounded);
      enough = omega (arith, out-after.1, out-after.2, inv.enough);
    },
    moved_on,
    out-after.1,
    omega (arith, segment_alive.0),
  )
    where
      moved_on : pending out.batches ≡ drop consumed (pending c.batches)
      moved_on = ap pending out-after.0 ∙ after-Leaves.0

      counts : out.item_count ≡ items out.batches
      counts = ground (arith, out-after.3, inv.counted, after-Leaves.2, ap items out-after.0)
