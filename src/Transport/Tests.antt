-- ===== src/Transport/Tests.antt =====
-- The send queue's theorems at inputs that meet their hypotheses.
use iocp_http_runtime.Prelude.{
  ◌≡◌, ◌≢◌, ◌≤◌, ◌⊎◌, refl, List, [], ◌∷◌, arith, length, take, some, true, false,
}
use iocp_http_runtime.Transport.SendQueue.{
  SharedSendBuffer, SendQueue, SendConsumeResult, invalid, consume, gather, try_push_batch,
}
use iocp_http_runtime.Transport.SendQueue.Pending.{pending, IsValid}
use iocp_http_runtime.Transport.SendQueue.Consume.{consume_lem}
use iocp_http_runtime.Transport.SendQueue.Gather.{sent, gather_lem}
use iocp_http_runtime.Transport.SendQueue.Admission.{
  Pushed, try_push_batch-fits, try_push_batch-refused,
}

-- A batch of two buffers, the first of them sent in part.
abbrev waiting : SendQueue
waiting = record {
  maximum_items = 3;
  maximum_bytes = 8;
  batches =
      record {
        segments =
            record { buffer = 1 ∷ 2 ∷ []; offset = 1 }
            ∷ record { buffer = 3 ∷ 4 ∷ []; offset = 0 }
            ∷ [];
        next_segment = 0;
      }
      ∷ [];
  item_count = 2;
  queued_bytes = 3;
}

waiting-IsValid : IsValid waiting
waiting-IsValid = record {
  items_size = omega arith;
  bytes_size = omega arith;
  batches_live = (
    record {
      some_left = omega arith;
      countable = omega arith;
      live = (omega arith, omega arith, (omega arith, omega arith, tt));
    },
    tt,
  );
  counted = refl;
  queued = refl;
  items_bounded = omega arith;
  bytes_bounded = omega arith;
}

consume_lem_example :
    (r : SendConsumeResult) × (q' : SendQueue) × (consume waiting 2 ≡ some (r, q'))
    × (r ≢ invalid)
    × IsValid q'
    × (pending q'.batches ≡ 4 ∷ [])
    × (q'.maximum_items ≡ 3)
    × (q'.maximum_bytes ≡ 8)
consume_lem_example = consume_lem 2 waiting-IsValid (omega arith) (omega arith)

gather_lem_example :
    let g = gather waiting 2 2 in
    (sent g.slices ≡ take g.total_bytes (2 ∷ 3 ∷ 4 ∷ []))
    × (length g.slices ≤ 2)
    × (g.total_bytes ≤ 2)
    × (g.total_bytes ≤ 3)
    × ((length g.slices ≡ 2) ⊎ (g.total_bytes ≡ 2) ⊎ (g.total_bytes ≡ 3))
gather_lem_example = gather_lem 2 2 waiting-IsValid (omega arith)

abbrev small_batch : List SharedSendBuffer
small_batch = some (5 ∷ 6 ∷ []) ∷ some [] ∷ []

abbrev large_batch : List SharedSendBuffer
large_batch = some (5 ∷ []) ∷ some (6 ∷ []) ∷ []

try_push_batch-fits_example :
    (q' : SendQueue) × (try_push_batch waiting small_batch ≡ (true, q'))
    × Pushed waiting small_batch q'
try_push_batch-fits_example = try_push_batch-fits small_batch waiting-IsValid refl

try_push_batch-refused_example : try_push_batch waiting large_batch ≡ (false, waiting)
try_push_batch-refused_example = try_push_batch-refused large_batch waiting-IsValid refl
