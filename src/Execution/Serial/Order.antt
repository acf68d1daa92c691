-- ===== src/Execution/Serial/Order.antt =====
-- A SerialExecutor runs one task at a time, in the order of the posts, and forgets none.
use iocp_http_runtime.Prelude.{
  ℕ, zero, suc, ◌+◌, ◌-◌, ◌≤◌, ◌≡◌, ◌≢◌, refl, sym, ap, ◌∙◌, subst, List, [], ◌∷◌, ◌++◌, append-nil,
  append_assoc, Bool, true, false, none, some, ok, arith,
}
use iocp_http_runtime.Execution.Types.{ExecutionState}
use iocp_http_runtime.Execution.Runs.{Reach, here, next, Reach-keeps, Reach-trans}
use iocp_http_runtime.Execution.Queue.{new_queue, move_to_stopped, pop_front}
use iocp_http_runtime.Execution.Queue.Ledger.{Phase, Accounts}
use iocp_http_runtime.Execution.Queue.Steps.{
  start, finish, new_queue-Accounts, complete-tasks, move_to_stopped-tasks, pop_front-tasks,
}
use iocp_http_runtime.Execution.Serial.{SerialExecutor, init, take_task, drain_one, end_one}
use iocp_http_runtime.Execution.Serial.Worlds.{
  World, first, Work, Step, call_drain, begin_task, leave, end_task,
}
use iocp_http_runtime.Execution.Serial.Invariant.{
  drains, IsSound, one_drain-few, Work-IsSound, Step-IsSound,
}

abbrev new_executor : ℕ → SerialExecutor
new_executor maximum = record { queue = new_queue maximum; drain_scheduled = false }

init_ok :
    (underlying : Bool) (maximum : ℕ) {s : SerialExecutor}
    → init underlying maximum ≡ ok s
    → s ≡ new_executor maximum
unfolding init
init_ok underlying maximum e = ground arith

first-IsSound : (maximum : ℕ) → IsSound (first (new_executor maximum))
first-IsSound maximum = record {
  accounts = new_queue-Accounts maximum;
  one_drain = refl;
  none_forgotten = λ off. refl;
}

pub Reach-IsSound :
    (underlying : Bool) (maximum : ℕ) {s : SerialExecutor} {w : World}
    → init underlying maximum ≡ ok s
    → Reach Step (first s) w
    → IsSound w
Reach-IsSound underlying maximum e r =
    Reach-keeps IsSound (λ t u. Step-IsSound)
      (subst (λ s. IsSound (first s)) (sym (init_ok underlying maximum e)) (first-IsSound maximum))
      r

waits-drains : (b : Bool) (n live : ℕ) → b ≢ false → n + live ≡ drains b → n + live ≡ 1
waits-drains true n live h e = omega arith
waits-drains false n live h e = absurd (h refl)

-- In every state that threads can bring a new SerialExecutor to, whatever the executor below answers:
-- the accepted tasks are, in the order of their posts, those that were started, those that a stop
-- cancelled and those that wait, within the bound, and the counters agree; at most one task runs;
-- and where a task waits there is one call of `Drain`, which the executor below has taken on, or
-- which is under way, unless the executor below has dropped it.
pub Reach-in_order :
    (underlying : Bool) (maximum : ℕ) {s : SerialExecutor} {w : World}
    → init underlying maximum ≡ ok s
    → Reach Step (first s) w
    → Accounts w.executor.queue w.ledger
      × (w.ledger.live ≤ 1)
      × (w.executor.queue.tasks ≢ [] → w.posted + w.waiting + w.lost + w.ledger.live ≡ 1)
Reach-in_order underlying maximum {w = w} e r =
    let h = Reach-IsSound underlying maximum e r in
    (
      h.accounts,
      ground (
        arith,
        one_drain-few w.executor.drain_scheduled (w.posted + w.waiting + w.lost) w.ledger.live
            h.one_drain,
      ),
      λ full.
          waits-drains w.executor.drain_scheduled (w.posted + w.waiting + w.lost) w.ledger.live
            (λ off. full (h.none_forgotten off)) h.one_drain,
    )

-- Where the calls of `Drain` end.
record Emptied (w v : World) (tasks : List ℕ) : Type 0 where
  worked : Reach Work w v
  sound : IsSound v
  idle : v.ledger.live ≡ 0
  empty : v.executor.queue.tasks ≡ []
  started : v.ledger.started ≡ w.ledger.started ++ tasks
  same_accepted : v.ledger.accepted ≡ w.ledger.accepted
  same_cancelled : v.ledger.cancelled ≡ w.ledger.cancelled

begin_next :
    (w : World) (task : ℕ) (rest : List ℕ)
    → w.executor.queue.tasks ≡ task ∷ rest
    → drain_one w.executor
      ≡ (some task, record w.executor { queue = pop_front w.executor.queue task rest })
unfolding drain_one
begin_next w task rest e = ap (λ ts. take_task ts w.executor) e

leave_next :
    (w : World)
    → w.executor.queue.tasks ≡ []
    → drain_one w.executor
      ≡ (none, record { queue = move_to_stopped w.executor.queue; drain_scheduled = false })
unfolding drain_one
leave_next w e = ap (λ ts. take_task ts w.executor) e

drain_all :
    (tasks : List ℕ) (w : World)
    → w.executor.queue.tasks ≡ tasks
    → w.waiting ≡ 1
    → w.ledger.live ≡ 0
    → IsSound w
    → (v : World) × Emptied w v tasks
unfolding end_one
drain_all [] w e wait idle h =
    let left =
      leave w (record { queue = move_to_stopped w.executor.queue; drain_scheduled = false })
        (ground arith) (leave_next w e) in
    (
      _,
      record {
        worked = next here left;
        sound = Work-IsSound left h;
        idle = idle;
        empty = move_to_stopped-tasks w.executor.queue ∙ e;
        started = sym (append-nil w.ledger.started);
        same_accepted = refl;
        same_cancelled = refl;
      },
    )
drain_all (task ∷ rest) w e wait idle h =
    let q = pop_front w.executor.queue task rest in
    let begun =
      begin_task w task (record w.executor { queue = q }) (ground arith)
        (begin_next w task rest e) in
    let w1 : World = record w {
      executor = record w.executor { queue = q };
      ledger = start w.ledger task;
      waiting = w.waiting - 1;
    } in
    let ended = end_task w1 (ground arith) in
    let w2 : World = record w1 {
      executor = end_one w1.executor;
      ledger = finish w1.ledger;
      waiting = w1.waiting + 1;
    } in
    let r =
      drain_all rest w2 (complete-tasks q ∙ pop_front-tasks w.executor.queue task rest)
        (ground arith) (ground arith) (Work-IsSound ended (Work-IsSound begun h)) in
    (
      r.0,
      record {
        worked = Reach-trans (next (next here begun) ended) r.1.worked;
        sound = r.1.sound;
        idle = r.1.idle;
        empty = r.1.empty;
        started = r.1.started ∙ append_assoc w.ledger.started (task ∷ []) rest;
        same_accepted = r.1.same_accepted;
        same_cancelled = r.1.same_cancelled;
      },
    )

-- A call that was taken on begins first, and a running task comes to its end.
drain_from :
    (n m : ℕ) (w : World)
    → w.ledger.live ≡ n
    → w.posted ≡ m
    → m + w.waiting + n ≡ 1
    → IsSound w
    → (v : World) × Emptied w v w.executor.queue.tasks
unfolding end_one
drain_from zero zero w e p k h = drain_all w.executor.queue.tasks w refl (ground arith) e h
drain_from zero (suc m) w e p k h =
    let called = call_drain w (ground arith) in
    let w1 : World = record w { posted = w.posted - 1; waiting = w.waiting + 1 } in
    let r = drain_all w.executor.queue.tasks w1 refl (ground arith) e (Work-IsSound called h) in
    (
      r.0,
      record {
        worked = Reach-trans (next here called) r.1.worked;
        sound = r.1.sound;
        idle = r.1.idle;
        empty = r.1.empty;
        started = r.1.started;
        same_accepted = r.1.same_accepted;
        same_cancelled = r.1.same_cancelled;
      },
    )
drain_from (suc n) m w e p k h =
    let ended = end_task w (ground arith) in
    let w1 : World = record w {
      executor = end_one w.executor;
      ledger = finish w.ledger;
      waiting = w.waiting + 1;
    } in
    let r =
      drain_all w.executor.queue.tasks w1 (complete-tasks w.executor.queue) (ground arith)
        (ground arith) (Work-IsSound ended h) in
    (
      r.0,
      record {
        worked = Reach-trans (next here ended) r.1.worked;
        sound = r.1.sound;
        idle = r.1.idle;
        empty = r.1.empty;
        started = r.1.started;
        same_accepted = r.1.same_accepted;
        same_cancelled = r.1.same_cancelled;
      },
    )

drain_scheduled-Emptied :
    (b : Bool) (w : World)
    → w.executor.drain_scheduled ≡ b
    → w.lost ≡ 0
    → IsSound w
    → (v : World) × Emptied w v w.executor.queue.tasks
drain_scheduled-Emptied true w e kept h =
    drain_from w.ledger.live w.posted w refl refl (ground (arith, h.one_drain ∙ ap drains e)) h
drain_scheduled-Emptied false w e kept h =
    let empty = h.none_forgotten e in
    let none_live = h.one_drain ∙ ap drains e in
    (
      w,
      record {
        worked = here;
        sound = h;
        idle = ground arith;
        empty = empty;
        started = sym (append-nil w.ledger.started) ∙ ap (λ ts. w.ledger.started ++ ts) (sym empty);
        same_accepted = refl;
        same_cancelled = refl;
      },
    )

Phase-not_stopping :
    (s : ExecutionState) (cancelled : List ℕ) → Phase s [] cancelled 0 → s ≢ ExecutionState.stopping
Phase-not_stopping ExecutionState.running cancelled p = ground arith
Phase-not_stopping ExecutionState.stopping cancelled p = ground arith
Phase-not_stopping ExecutionState.stopped cancelled p = ground arith

-- From every such state in which the executor below has dropped no call of `Drain`, the call that is
-- there, taken on or under way, can run all the tasks that wait, in order, without anything from
-- outside: then every accepted task was started or cancelled, all that started have finished, and the
-- executor is not left Stopping.
pub Reach-drains :
    (underlying : Bool) (maximum : ℕ) {s : SerialExecutor} {w : World}
    → init underlying maximum ≡ ok s
    → Reach Step (first s) w
    → w.lost ≡ 0
    → (v : World) × Reach Work w v
      × (v.ledger.started ≡ w.ledger.started ++ w.executor.queue.tasks)
      × (v.ledger.accepted ≡ v.ledger.started ++ v.ledger.cancelled)
      × (v.ledger.cancelled ≡ w.ledger.cancelled)
      × (v.ledger.live ≡ 0)
      × (v.executor.queue.state ≢ ExecutionState.stopping)
Reach-drains underlying maximum {w = w} e r kept =
    let d =
      drain_scheduled-Emptied w.executor.drain_scheduled w refl kept
        (Reach-IsSound underlying maximum e r) in
    let v = d.0 in
    let a = d.1.sound.accounts in
    let l = v.ledger in
    (
      v,
      d.1.worked,
      d.1.started,
      a.0.fifo
          ∙ ap (λ ts. l.started ++ (l.cancelled ++ ts)) d.1.empty
          ∙ ap (λ ts. l.started ++ ts) (append-nil l.cancelled),
      d.1.same_cancelled,
      d.1.idle,
      Phase-not_stopping v.executor.queue.state l.cancelled (
          subst (λ n. Phase v.executor.queue.state [] l.cancelled n) d.1.idle
            (subst (λ ts. Phase v.executor.queue.state ts l.cancelled l.live) d.1.empty a.1)),
    )
