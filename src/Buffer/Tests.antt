-- ===== src/Buffer/Tests.antt =====
-- Runs of the buffers on small inputs, and the theorems at inputs that meet their hypotheses.
use iocp_http_runtime.Prelude.{
  ◌≡◌, ◌≤◌, ◌<◌, ◌⊎◌, refl, List, [], ◌∷◌, ok, throws, out_of_range, arith, length,
}
use iocp_http_runtime.Buffer.Status.{ready, limit_exceeded}
use iocp_http_runtime.Buffer.Sequence.{
  BufferSequence, copy_from, of_mutable_views, copy_to, of_views, at,
}
use iocp_http_runtime.Buffer.Sequence.Read.{IsSequence, bytes, at-bytes, copy_to-bytes}
use iocp_http_runtime.Buffer.Sequence.Write.{copy_from-views}
use iocp_http_runtime.Buffer.Ring.{
  RingReceiveBuffer, next_capacity_loop, grow, ensure_writable, append, append_status, commit,
  writable_sequence, readable_sequence,
}
use iocp_http_runtime.Buffer.Ring.Valid.{readable_sequence-contents}
use iocp_http_runtime.Buffer.Ring.Grow.{next_capacity_loop_bounds}
use iocp_http_runtime.Buffer.Ring.Refine.{Holds, ensure_writable-ready}
use iocp_http_runtime.Buffer.Linear
use iocp_http_runtime.Buffer.Linear.Refine
use iocp_http_runtime.Buffer.Linear.{ReceiveBuffer}
use iocp_http_runtime.Buffer.Linear.Refine.{
  linear_append_refines, linear_consume_refines, linear_init-Holds,
}
use iocp_http_runtime.Buffer.Ring.Client.{
  appends, consumes, Call, run, spec_call, spec_run, run_refines, status, done, rejected,
}

-- Two bytes, round the end of three.
abbrev wrapped : RingReceiveBuffer
wrapped = record {
  storage = 9 ∷ 7 ∷ 8 ∷ [];
  maximum_capacity = 5;
  read_offset = 2;
  readable_bytes = 2;
}

wrapped-Holds : Holds 5 (8 ∷ 9 ∷ []) wrapped
wrapped-Holds = record { valid = omega arith; limit = refl; holds = refl }

abbrev script : List Call
script = appends (1 ∷ 2 ∷ []) ∷ consumes 1 ∷ appends (3 ∷ 4 ∷ 5 ∷ []) ∷ consumes 9 ∷ []

append-wrapped :
    append wrapped (1 ∷ [])
    ≡ ok (ready, record wrapped { storage = 9 ∷ 1 ∷ 8 ∷ []; readable_bytes = 3 })
unfolding append append_status ensure_writable writable_sequence copy_from of_mutable_views commit
append-wrapped = refl

append-grows :
    append wrapped (1 ∷ 2 ∷ [])
    ≡ ok (
      ready,
      record {
        storage = 8 ∷ 9 ∷ 1 ∷ 2 ∷ 0 ∷ [];
        maximum_capacity = 5;
        read_offset = 0;
        readable_bytes = 4;
      },
    )
unfolding append append_status ensure_writable writable_sequence copy_from of_mutable_views commit
    next_capacity_loop grow copy_to readable_sequence of_views
append-grows = refl

run_refines_example :
    (r' : RingReceiveBuffer) × (run wrapped script
      ≡ ok (status ready ∷ done ∷ status limit_exceeded ∷ rejected ∷ [], r'))
    × Holds 5 (9 ∷ 1 ∷ 2 ∷ []) r'
unfolding spec_run spec_call
run_refines_example = run_refines script wrapped-Holds

ensure_writable-ready_example :
    (r' : RingReceiveBuffer) × (ensure_writable wrapped 3 ≡ ok (ready, r'))
    × Holds 5 (8 ∷ 9 ∷ []) r'
    × (5 ≤ length r'.storage)
ensure_writable-ready_example = ensure_writable-ready 3 wrapped-Holds (omega arith)

readable_sequence-contents_example :
    IsSequence (readable_sequence wrapped) × (bytes (readable_sequence wrapped) ≡ 8 ∷ 9 ∷ [])
readable_sequence-contents_example = readable_sequence-contents wrapped-Holds.valid

next_capacity_loop_bounds_example :
    (7 ≤ next_capacity_loop 2 8 7 3) × (next_capacity_loop 2 8 7 3 ≤ 8)
next_capacity_loop_bounds_example =
    next_capacity_loop_bounds 2 8 7 3 (omega arith) (omega arith) (omega arith) (omega arith)

abbrev spans : BufferSequence
spans = record { first = 1 ∷ 2 ∷ []; second = 3 ∷ []; segment_count = 2; size = 3 }

spans-IsSequence : IsSequence spans
spans-IsSequence = record { sized = refl; flat_segments = refl }

at-bytes_example : at spans 2 ≡ ok 3
at-bytes_example = at-bytes 2 spans-IsSequence

copy_to-bytes_example : copy_to spans 1 2 ≡ ok (2 ∷ 3 ∷ [])
copy_to-bytes_example = copy_to-bytes 1 2 spans-IsSequence

copy_from-views_example :
    copy_from
      (of_mutable_views (record { offset = 2; size = 1 }) (record { offset = 0; size = 2 }))
      (5 ∷ 6 ∷ [])
      (1 ∷ 2 ∷ 3 ∷ [])
    ≡ ok (6 ∷ 2 ∷ 5 ∷ [])
copy_from-views_example =
    copy_from-views (record { offset = 2; size = 1 }) (record { offset = 0; size = 2 }) (5 ∷ 6 ∷ [])
      (1 ∷ 2 ∷ 3 ∷ []) (omega arith)

-- Two bytes at the end of a vector of three.
abbrev shifted : ReceiveBuffer
shifted = record {
  storage = 7 ∷ 8 ∷ 9 ∷ [];
  maximum_capacity = 5;
  read_offset = 1;
  write_offset = 3;
}

shifted-Holds : Linear.Refine.Holds 5 (8 ∷ 9 ∷ []) shifted
shifted-Holds = record { valid = omega arith; limit = refl; holds = refl }

linear_append_refines_example :
    (r' : ReceiveBuffer) × (Linear.append shifted (1 ∷ 2 ∷ []) ≡ (ready, r'))
    × Linear.Refine.Holds 5 (8 ∷ 9 ∷ 1 ∷ 2 ∷ []) r'
linear_append_refines_example = linear_append_refines (1 ∷ 2 ∷ []) shifted-Holds

linear_consume_refines_example :
    ((2 < 1) × (Linear.consume shifted 1 ≡ throws out_of_range))
    ⊎ ((1 ≤ 2)
        × (r' : ReceiveBuffer) × (Linear.consume shifted 1 ≡ ok r')
        × Linear.Refine.Holds 5 (9 ∷ []) r')
linear_consume_refines_example = linear_consume_refines 1 shifted-Holds
