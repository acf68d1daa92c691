-- ===== src/Transport/SendQueue/Admission.antt =====
-- `TryPushBatch`, on the batches that fit and on the others.
use iocp_http_runtime.Prelude.{
  ℕ, suc, ◌+◌, ◌≤◌, ◌≡◌, ◌≢◌, refl, sym, ap, ◌∙◌, List, [], ◌∷◌, ◌++◌, arith, length, none, some,
  Bool, true, false, ◌&&◌, Bool-cases, inl, inr, ◌==◌, ==→eq, ==-false→ne, leb, length-append,
  append-nil, add_size, if◌then◌else◌,
}
use iocp_http_runtime.Transport.SendQueue.{
  Batch, SendQueue, SharedSendBuffer, admit, segments_of, enqueue, try_push_batch,
}
use iocp_http_runtime.Transport.SendQueue.Pending.{
  unsent, pending, AllLive, IsValid, pending-append, items-append, AllBatches-append,
}

-- The bytes of a batch in order, and how many of its buffers are not empty.
abbrev pub payload : List SharedSendBuffer → List ℕ
payload [] = []
payload (none ∷ buffers) = payload buffers
payload (some buffer ∷ buffers) = buffer ++ payload buffers

abbrev pub filled : List SharedSendBuffer → ℕ
filled [] = 0
filled (none ∷ buffers) = filled buffers
filled (some buffer ∷ buffers) = if length buffer == 0 then filled buffers else suc (filled buffers)

abbrev pub no_null : List SharedSendBuffer → Bool
no_null [] = true
no_null (none ∷ buffers) = false
no_null (some buffer ∷ buffers) = no_null buffers

-- The batch is sound, and the queue has room for its items and for its bytes.
abbrev pub fits : SendQueue → List SharedSendBuffer → Bool
fits q buffers =
    no_null buffers
    && (leb (q.item_count + filled buffers) q.maximum_items
        && leb (q.queued_bytes + length (payload buffers)) q.maximum_bytes)

-- The loop counts the batch, or refuses it at the first buffer that does not fit.
admit_lem :
    {q : SendQueue} (buffers : List SharedSendBuffer) (i n : ℕ)
    → IsValid q
    → q.item_count + i ≤ q.maximum_items
    → q.queued_bytes + n ≤ q.maximum_bytes
    → admit q buffers i n ≡ (
        if no_null buffers
          && (leb (q.item_count + (i + filled buffers)) q.maximum_items
              && leb (q.queued_bytes + (n + length (payload buffers))) q.maximum_bytes)
        then some (i + filled buffers, n + length (payload buffers))
        else none)
unfolding admit
admit_lem {q} [] i n v hi hn = ground arith
admit_lem {q} (none ∷ buffers) i n v hi hn = refl
admit_lem {q} (some buffer ∷ buffers) i n v hi hn = ground (
  arith,
  admit_lem buffers i n v hi hn,
  admit_lem buffers (add_size i 1) (add_size n (length buffer)) v,
  length-append buffer (payload buffers),
)

unsent-segments_of :
    (buffers : List SharedSendBuffer) → unsent (segments_of buffers) ≡ payload buffers
unfolding segments_of
unsent-segments_of [] = refl
unsent-segments_of (none ∷ buffers) = unsent-segments_of buffers
unsent-segments_of (some [] ∷ buffers) = ground (arith, unsent-segments_of buffers)
unsent-segments_of (some (x ∷ buffer) ∷ buffers) = ground (arith, unsent-segments_of buffers)

length-segments_of :
    (buffers : List SharedSendBuffer) → length (segments_of buffers) ≡ filled buffers
unfolding segments_of
length-segments_of [] = refl
length-segments_of (none ∷ buffers) = length-segments_of buffers
length-segments_of (some buffer ∷ buffers) = ground (arith, length-segments_of buffers)

segments_of-AllLive :
    (limit : ℕ) (buffers : List SharedSendBuffer)
    → length (payload buffers) ≤ limit
    → AllLive limit (segments_of buffers)
unfolding segments_of
segments_of-AllLive limit [] h = tt
segments_of-AllLive limit (none ∷ buffers) h = segments_of-AllLive limit buffers h
segments_of-AllLive limit (some buffer ∷ buffers) h =
    let fewer : length (payload buffers) ≤ limit =
      omega (arith, length-append buffer (payload buffers)) in
    ground (arith, segments_of-AllLive limit buffers fewer, length-append buffer (payload buffers))

payload-nil : (buffers : List SharedSendBuffer) → filled buffers ≡ 0 → payload buffers ≡ []
payload-nil [] h = refl
payload-nil (none ∷ buffers) h = payload-nil buffers h
payload-nil (some [] ∷ buffers) h = payload-nil buffers (ground arith)
payload-nil (some (x ∷ buffer) ∷ buffers) h = absurd (ground arith)

-- What an admitted batch leaves: a valid queue under the same limits, with the bytes at its end.
pub record Pushed (q : SendQueue) (buffers : List SharedSendBuffer) (q' : SendQueue) : Type 0 where
  pub valid : IsValid q'
  pub appended : pending q'.batches ≡ pending q.batches ++ payload buffers
  pub same_items : q'.maximum_items ≡ q.maximum_items
  pub same_bytes : q'.maximum_bytes ≡ q.maximum_bytes

module _ {q : SendQueue} (v : IsValid q) (buffers : List SharedSendBuffer)
    (room : (q.item_count + filled buffers ≤ q.maximum_items)
      × (q.queued_bytes + length (payload buffers) ≤ q.maximum_bytes)) where
  abbrev batch : Batch
  batch = record { segments = segments_of buffers; next_segment = 0 }

  abbrev extended : SendQueue
  extended = record q {
    batches = q.batches ++ batch ∷ [];
    item_count = add_size q.item_count (filled buffers);
    queued_bytes = add_size q.queued_bytes (length (payload buffers));
  }

  pending-extended : pending extended.batches ≡ pending q.batches ++ payload buffers
  pending-extended =
      pending-append q.batches (batch ∷ [])
      ∙ ap (λ xs. pending q.batches ++ xs)
          (append-nil (unsent (segments_of buffers)) ∙ unsent-segments_of buffers)

  extended-IsValid : filled buffers ≢ 0 → IsValid extended
  extended-IsValid some_filled = record {
    items_size = v.items_size;
    bytes_size = v.bytes_size;
    batches_live = AllBatches-append q.maximum_bytes q.batches (batch ∷ []) v.batches_live (
      record {
        some_left = omega (arith, length-segments_of buffers);
        countable = omega (arith, length-segments_of buffers, v.items_size);
        live = segments_of-AllLive q.maximum_bytes buffers (omega (arith, room.1));
      },
      tt,
    );
    counted = omega (
      arith,
      items-append q.batches (batch ∷ []),
      length-segments_of buffers,
      v.counted,
      v.items_size,
      room,
    );
    queued = omega (
      arith,
      ap length pending-extended,
      length-append (pending q.batches) (payload buffers),
      v.queued,
      v.bytes_size,
      room,
    );
    items_bounded = omega (arith, v.items_size, room);
    bytes_bounded = omega (arith, v.bytes_size, room);
  }

  enqueue-Pushed :
      (q' : SendQueue) × (enqueue q buffers (filled buffers) (length (payload buffers))
        ≡ (true, q'))
      × Pushed q buffers q'
  unfolding enqueue
  enqueue-Pushed = elim (Bool-cases (filled buffers == 0)) [
    | inl none_filled ↦ (
      q,
      ground arith,
      record {
        valid = v;
        appended = sym (
            ap (λ xs. pending q.batches ++ xs) (payload-nil buffers (==→eq _ _ none_filled))
            ∙ append-nil (pending q.batches));
        same_items = refl;
        same_bytes = refl;
      },
    )
    | inr some_filled ↦ (
      extended,
      ground arith,
      record {
        valid = extended-IsValid (==-false→ne _ _ some_filled);
        appended = pending-extended;
        same_items = refl;
        same_bytes = refl;
      },
    )
  ]

-- A batch with no null buffer, for whose items and bytes the queue has room, is taken: its bytes
-- are appended in order, and the queue stays valid under the same limits.
pub try_push_batch-fits :
    {q : SendQueue} (buffers : List SharedSendBuffer)
    → IsValid q
    → fits q buffers ≡ true
    → (q' : SendQueue) × (try_push_batch q buffers ≡ (true, q')) × Pushed q buffers q'
unfolding try_push_batch
try_push_batch-fits {q} buffers v h =
    let out = enqueue-Pushed v buffers (room_of h) in (out.0, ground (arith, counted, out.1), out.2)
  where
    room_of :
        fits q buffers ≡ true
        → (q.item_count + filled buffers ≤ q.maximum_items)
          × (q.queued_bytes + length (payload buffers) ≤ q.maximum_bytes)
    room_of e = ground arith

    counted : admit q buffers 0 0 ≡ some (filled buffers, length (payload buffers))
    counted = ground (arith, admit_lem buffers 0 0 v (omega (arith, v)) (omega (arith, v)))

-- Any other batch is refused as a whole, and the queue does not change.
pub try_push_batch-refused :
    {q : SendQueue} (buffers : List SharedSendBuffer)
    → IsValid q
    → fits q buffers ≡ false
    → try_push_batch q buffers ≡ (false, q)
unfolding try_push_batch
try_push_batch-refused {q} buffers v h =
    ground (arith, admit_lem buffers 0 0 v (omega (arith, v)) (omega (arith, v)))
