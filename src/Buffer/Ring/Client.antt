-- ===== src/Buffer/Ring/Client.antt =====
-- Sequences of calls on a RingReceiveBuffer, against the same calls on the bounded queue.
use iocp_http_runtime.Prelude.{
  ℕ, ◌≡◌, refl, List, [], ◌∷◌, arith, if◌then◌else◌, ltb, ltb→lt, ltb-false→le, Bool-cases, inl,
  inr, Result, ok, throws, out_of_range, ◌>>=◌, length, drop,
}
use iocp_http_runtime.Buffer.Status.{BufferStatus}
use iocp_http_runtime.Buffer.Ring.{RingReceiveBuffer, append, consume, clear}
use iocp_http_runtime.Buffer.Ring.Refine.{Holds}
use iocp_http_runtime.Buffer.Ring.Queue.{append_refines, consume-within, consume-past}
use iocp_http_runtime.Buffer.Ring.Spec
use iocp_http_runtime.Buffer.Ring.Spec.{ByteQueue}

pub data Call : Type 0 where
  appends : List ℕ → Call
  consumes : ℕ → Call
  clears : Call

pub data Reply : Type 0 where
  status : BufferStatus → Reply
  done rejected : Reply

-- A client that catches the exception of `Consume`.
abbrev pub caught :
    RingReceiveBuffer → Result RingReceiveBuffer → Result (Reply × RingReceiveBuffer)
caught r (ok r') = ok (done, r')
caught r (throws out_of_range) = ok (rejected, r)
caught r (throws e) = throws e

unfoldable pub call : RingReceiveBuffer → Call → Result (Reply × RingReceiveBuffer)
call r (appends bs) = append r bs >>= λ out. ok (status out.0, out.1)
call r (consumes n) = caught r (consume r n)
call r clears = ok (done, clear r)

unfoldable pub run : RingReceiveBuffer → List Call → Result (List Reply × RingReceiveBuffer)
run r [] = ok ([], r)
run r (c ∷ cs) = do first ← call r c; rest ← run first.1 cs; ok (first.0 ∷ rest.0, rest.1)

module _ (maximum : ℕ) where
  unfoldable pub spec_call : ByteQueue → Call → Reply × ByteQueue
  spec_call q (appends bs) = let (s, q') = Spec.append maximum q bs in (status s, q')
  spec_call q (consumes n) = if ltb (length q) n then (rejected, q) else (done, drop n q)
  spec_call q clears = (done, [])

  unfoldable pub spec_run : ByteQueue → List Call → List Reply × ByteQueue
  spec_run q [] = ([], q)
  spec_run q (c ∷ cs) =
      let first = spec_call q c in let rest = spec_run first.1 cs in (first.0 ∷ rest.0, rest.1)

module _ {maximum : ℕ} where
  call_refines :
      {q : ByteQueue} {r : RingReceiveBuffer} (c : Call)
      → Holds maximum q r
      → (r' : RingReceiveBuffer) × (call r c ≡ ok ((spec_call maximum q c).0, r'))
        × Holds maximum (spec_call maximum q c).1 r'
  unfolding call spec_call clear
  call_refines {q} {r} (appends bs) h =
      let out = append_refines bs h in (out.0, ground (arith, out.1), out.2)
  call_refines {q} {r} (consumes n) h = elim (Bool-cases (ltb (length q) n)) [
    | inl past ↦ rw past (r, ground (arith, consume-past n h (ltb→lt _ _ past)), h)
    | inr within ↦
        let out = consume-within n h (ltb-false→le _ _ within) in
        rw within (out.0, ground (arith, out.1), out.2)
  ]
  call_refines {q} {r} clears h = (
    record r { read_offset = 0; readable_bytes = 0 },
    refl,
    record { valid = ground (arith, h.valid); limit = h.limit; holds = refl },
  )

  -- Any sequence of Append, Consume and Clear on a valid buffer never fails, gives the replies of
  -- the bounded queue of its contents, and leaves a valid buffer that holds what the queue holds.
  pub run_refines :
      (cs : List Call) {q : ByteQueue} {r : RingReceiveBuffer}
      → Holds maximum q r
      → (r' : RingReceiveBuffer) × (run r cs ≡ ok ((spec_run maximum q cs).0, r'))
        × Holds maximum (spec_run maximum q cs).1 r'
  unfolding run spec_run
  run_refines [] {q} {r} h = (r, refl, h)
  run_refines (c ∷ cs) {q} {r} h =
      let first = call_refines c h in
      let rest = run_refines cs {q = (spec_call maximum q c).1} {r = first.0} first.2 in
      (rest.0, rw (first.1, rest.1) refl, rest.2)
