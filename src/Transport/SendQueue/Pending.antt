-- ===== src/Transport/SendQueue/Pending.antt =====
-- What a SendQueue still has to send, in order, and its invariant.
use iocp_http_runtime.Prelude.{
  ℕ, ◌+◌, ◌^◌, ◌≤◌, ◌<◌, ◌≡◌, refl, ap, ◌∙◌, List, [], ◌∷◌, ◌++◌, arith, length, drop, append_assoc,
}
use iocp_http_runtime.Transport.SendQueue.{Segment, Batch, SendQueue}

-- The bytes that the segments have left.
abbrev pub unsent : List Segment → List ℕ
unsent [] = []
unsent (s ∷ segments) = drop s.offset s.buffer ++ unsent segments

abbrev pub rest_of : Batch → List Segment
rest_of b = drop b.next_segment b.segments

abbrev pub pending : List Batch → List ℕ
pending [] = []
pending (b ∷ batches) = unsent (rest_of b) ++ pending batches

abbrev pub items : List Batch → ℕ
items [] = 0
items (b ∷ batches) = length (rest_of b) + items batches

-- Every segment has a byte left, and no buffer is longer than the byte limit.
abbrev pub AllLive : ℕ → List Segment → Type 0
AllLive limit [] = Unit {0}
AllLive limit (s ∷ segments) =
    (s.offset < length s.buffer) × (length s.buffer ≤ limit) × AllLive limit segments

pub record IsLive (limit : ℕ) (b : Batch) : Type 0 where
  pub some_left : b.next_segment < length b.segments
  pub countable : length b.segments < 2 ^ 64
  pub live : AllLive limit (rest_of b)

abbrev pub AllBatches : ℕ → List Batch → Type 0
AllBatches limit [] = Unit {0}
AllBatches limit (b ∷ batches) = IsLive limit b × AllBatches limit batches

pub record IsValid (q : SendQueue) : Type 0 where
  pub items_size : q.maximum_items < 2 ^ 64
  pub bytes_size : q.maximum_bytes < 2 ^ 64
  pub batches_live : AllBatches q.maximum_bytes q.batches
  pub counted : q.item_count ≡ items q.batches
  pub queued : q.queued_bytes ≡ length (pending q.batches)
  pub items_bounded : q.item_count ≤ q.maximum_items
  pub bytes_bounded : q.queued_bytes ≤ q.maximum_bytes

pub pending-append : (bs cs : List Batch) → pending (bs ++ cs) ≡ pending bs ++ pending cs
pending-append [] cs = refl
pending-append (b ∷ bs) cs =
    ap (λ xs. unsent (rest_of b) ++ xs) (pending-append bs cs)
    ∙ append_sym (unsent (rest_of b)) (pending bs) (pending cs)
  where
    append_sym : (xs ys zs : List ℕ) → xs ++ (ys ++ zs) ≡ (xs ++ ys) ++ zs
    append_sym xs ys zs = rw append_assoc

pub items-append : (bs cs : List Batch) → items (bs ++ cs) ≡ items bs + items cs
items-append [] cs = omega arith
items-append (b ∷ bs) cs = omega (arith, items-append bs cs)

pub AllBatches-append :
    (limit : ℕ) (bs cs : List Batch)
    → AllBatches limit bs
    → AllBatches limit cs
    → AllBatches limit (bs ++ cs)
AllBatches-append limit [] cs h k = k
AllBatches-append limit (b ∷ bs) cs h k = (h.0, AllBatches-append limit bs cs h.1 k)
