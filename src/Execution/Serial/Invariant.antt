-- ===== src/Execution/Serial/Invariant.antt =====
-- In every state of a SerialExecutor, the fields agree with the history, and at most one task runs.
use iocp_http_runtime.Prelude.{
  ℕ, ◌+◌, ◌-◌, ◌≤◌, ◌<◌, ◌≡◌, ◌≢◌, inl, inr, refl, sym, ap, ◌∙◌, subst, List, [], ◌∷◌, ◌++◌, Bool,
  true, false, Option, none, some, Result, ok, throws, Bool-cases, arith,
}
use iocp_http_runtime.Execution.Types.{SubmitStatus, ExecutionState}
use iocp_http_runtime.Execution.Queue.{TaskQueue, admission, push_back, pop_front}
use iocp_http_runtime.Execution.Queue.Ledger.{
  Ledger, Phase-Loose, Accounts, move_to_stopped-Accounts,
}
use iocp_http_runtime.Execution.Queue.Steps.{
  start, push_back-Accounts, pop_front-Accounts, complete-Accounts, complete-tasks, stop-Accounts,
  stop-tasks, move_to_stopped-tasks,
}
use iocp_http_runtime.Execution.Serial.{
  pop_back, answers, asks, schedule, admit, begin_post, take_task, drain_one, end_one, stop_serial,
}
use iocp_http_runtime.Execution.Serial.Worlds.{
  World, Work, Step, call_drain, begin_task, leave, end_task, work, submit, stop_with, lose_drain,
  after_post,
}

-- How many calls of `Drain` there are, by `drain_scheduled_`.
abbrev pub drains : Bool → ℕ
drains true = 1
drains false = 0

pub record IsSound (w : World) : Type 0 where
  pub accounts : Accounts w.executor.queue w.ledger
  pub one_drain : w.posted + w.waiting + w.lost + w.ledger.live ≡ drains w.executor.drain_scheduled
  pub none_forgotten : w.executor.drain_scheduled ≡ false → w.executor.queue.tasks ≡ []

pop_back-push : (tasks : List ℕ) (task : ℕ) → pop_back (tasks ++ task ∷ []) ≡ tasks
pop_back-push [] task = refl
pop_back-push (a ∷ []) task = refl
pop_back-push (a ∷ b ∷ rest) task = ap (λ ts. a ∷ ts) (pop_back-push (b ∷ rest) task)

-- The queue is as before the push, but for its state.
closed-Accounts :
    (q : TaskQueue) (l : Ledger) (task : ℕ)
    → Accounts q l
    → q.tasks ≡ []
    → l.live ≡ 0
    → Accounts
        (record q { tasks = pop_back (q.tasks ++ task ∷ []); state = ExecutionState.stopped })
        l
closed-Accounts q l task a e idle =
    subst (λ ts. Accounts (record q { tasks = ts; state = ExecutionState.stopped }) l)
      (sym (pop_back-push q.tasks task))
      (
        record {
          fifo = a.0.fifo;
          bounded = a.0.bounded;
          running = a.0.running;
          few = a.0.few;
          counted = a.0.counted;
          completed = a.0.completed;
          dropped = a.0.dropped;
        },
        (e, idle),
      )

taken_back-Accounts :
    (q : TaskQueue) (l : Ledger) (task : ℕ)
    → Accounts q l
    → Accounts (record q { tasks = pop_back (q.tasks ++ task ∷ []) }) l
taken_back-Accounts q l task a =
    subst (λ ts. Accounts (record q { tasks = ts }) l) (sym (pop_back-push q.tasks task)) a

pub one_drain-few : (b : Bool) (n live : ℕ) → n + live ≡ drains b → n + live ≤ 1
one_drain-few true n live e = omega arith
one_drain-few false n live e = omega arith

settle-IsSound :
    (reply : Result SubmitStatus) (w : World) (task : ℕ)
    → IsSound w
    → w.executor.drain_scheduled ≡ false
    → admission w.executor.queue.state w.executor.queue ≡ none
    → IsSound (
        after_post reply w task
          (asks (record { queue = push_back w.executor.queue task; drain_scheduled = true })))
settle-IsSound (throws failure) w task h off e = record {
  accounts = taken_back-Accounts w.executor.queue w.ledger task h.accounts;
  one_drain = ground (arith, h.one_drain, off);
  none_forgotten = λ k. pop_back-push w.executor.queue.tasks task ∙ h.none_forgotten off;
}
settle-IsSound (ok SubmitStatus.accepted) w task h off e = record {
  accounts = push_back-Accounts w.executor.queue w.ledger task h.accounts e;
  one_drain = ground (arith, h.one_drain, off);
  none_forgotten = λ k. ground arith;
}
settle-IsSound (ok SubmitStatus.saturated) w task h off e = record {
  accounts = taken_back-Accounts w.executor.queue w.ledger task h.accounts;
  one_drain = ground (arith, h.one_drain, off);
  none_forgotten = λ k. pop_back-push w.executor.queue.tasks task ∙ h.none_forgotten off;
}
settle-IsSound (ok SubmitStatus.stopped) w task h off e = record {
  accounts =
      closed-Accounts w.executor.queue w.ledger task h.accounts (h.none_forgotten off)
        (ground (arith, h.one_drain, off));
  one_drain = ground (arith, h.one_drain, off);
  none_forgotten = λ k. pop_back-push w.executor.queue.tasks task ∙ h.none_forgotten off;
}

refused-IsSound :
    (status : SubmitStatus) (reply : Result SubmitStatus) (w : World) (task : ℕ)
    → IsSound w
    → status ≢ SubmitStatus.accepted
    → IsSound (after_post reply w task (answers (ok status) w.executor))
refused-IsSound SubmitStatus.accepted reply w task h n = absurd (n refl)
refused-IsSound SubmitStatus.stopped reply w task h n = record {
  accounts = h.accounts;
  one_drain = ground (arith, h.one_drain);
  none_forgotten = h.none_forgotten;
}
refused-IsSound SubmitStatus.saturated reply w task h n = record {
  accounts = h.accounts;
  one_drain = ground (arith, h.one_drain);
  none_forgotten = h.none_forgotten;
}

admission_refuses :
    (state : ExecutionState) (q : TaskQueue) (status : SubmitStatus)
    → admission state q ≡ some status
    → status ≢ SubmitStatus.accepted
admission_refuses ExecutionState.running q status e = ground arith
admission_refuses ExecutionState.stopping q status e = ground arith
admission_refuses ExecutionState.stopped q status e = ground arith

admit-IsSound :
    (r : Option SubmitStatus) (reply : Result SubmitStatus) (w : World) (task : ℕ)
    → IsSound w
    → admission w.executor.queue.state w.executor.queue ≡ r
    → IsSound (after_post reply w task (admit r w.executor task))
admit-IsSound (some status) reply w task h e =
    refused-IsSound status reply w task h
      (admission_refuses w.executor.queue.state w.executor.queue status e)
admit-IsSound none reply w task h e = elim (Bool-cases w.executor.drain_scheduled) [
  | inl on ↦
      subst (λ b. IsSound (after_post reply w task (schedule b w.executor task))) (sym on)
        (record {
          accounts = push_back-Accounts w.executor.queue w.ledger task h.accounts e;
          one_drain = ground (arith, h.one_drain);
          none_forgotten = λ k. ground arith;
        })
  | inr off ↦
      subst (λ b. IsSound (after_post reply w task (schedule b w.executor task))) (sym off)
        (settle-IsSound reply w task h off e)
]

-- A call of `Drain` that finds a task runs it, one that finds none is gone.
begun-IsSound :
    (tasks : List ℕ) (w : World) (task : ℕ)
    → IsSound w
    → w.executor.queue.tasks ≡ tasks
    → 0 < w.waiting
    → (take_task tasks w.executor).0 ≡ some task
    → IsSound (record w {
      executor = (take_task tasks w.executor).1;
      ledger = start w.ledger task;
      waiting = w.waiting - 1;
    })
begun-IsSound [] w task h e wait k = ground arith
begun-IsSound (front ∷ rest) w task h e wait k =
    let few =
      one_drain-few w.executor.drain_scheduled (w.posted + w.waiting + w.lost) w.ledger.live
        h.one_drain in
    subst
      (λ t. IsSound (record w {
        executor = record w.executor { queue = pop_front w.executor.queue front rest };
        ledger = start w.ledger t;
        waiting = w.waiting - 1;
      }))
      (ground arith)
      (record {
        accounts =
            pop_front-Accounts w.executor.queue w.ledger front rest h.accounts e (ground arith);
        one_drain = ground (arith, h.one_drain);
        none_forgotten = λ off. ground (arith, h.none_forgotten off);
      })

left-IsSound :
    (tasks : List ℕ) (w : World)
    → IsSound w
    → w.executor.queue.tasks ≡ tasks
    → 0 < w.waiting
    → (take_task tasks w.executor).0 ≡ none
    → IsSound (record w { executor = (take_task tasks w.executor).1; waiting = w.waiting - 1 })
left-IsSound [] w h e wait k = record {
  accounts = move_to_stopped-Accounts w.executor.queue w.ledger h.accounts.0 (
      Phase-Loose w.executor.queue.state w.executor.queue.tasks w.ledger.cancelled w.ledger.live
        h.accounts.1);
  one_drain = ground (
    arith,
    one_drain-few w.executor.drain_scheduled (w.posted + w.waiting + w.lost) w.ledger.live
        h.one_drain,
  );
  none_forgotten = λ off. move_to_stopped-tasks w.executor.queue ∙ e;
}
left-IsSound (front ∷ rest) w h e wait k = ground arith

pub Work-IsSound : {w v : World} → Work w v → IsSound w → IsSound v
unfolding drain_one end_one
Work-IsSound (call_drain w h) a = record {
  accounts = a.accounts;
  one_drain = ground (arith, a.one_drain);
  none_forgotten = a.none_forgotten;
}
Work-IsSound (begin_task w task s wait e) h =
    subst
      (λ s'.
        IsSound (record w { executor = s'; ledger = start w.ledger task; waiting = w.waiting - 1 }))
      (ap (λ r. r.1) e) (begun-IsSound w.executor.queue.tasks w task h refl wait (ap (λ r. r.0) e))
Work-IsSound (leave w s wait e) h =
    subst (λ s'. IsSound (record w { executor = s'; waiting = w.waiting - 1 })) (ap (λ r. r.1) e)
      (left-IsSound w.executor.queue.tasks w h refl wait (ap (λ r. r.0) e))
Work-IsSound (end_task w live) h = record {
  accounts = complete-Accounts w.executor.queue w.ledger h.accounts live;
  one_drain = ground (arith, h.one_drain);
  none_forgotten = λ off. complete-tasks w.executor.queue ∙ h.none_forgotten off;
}

pub Step-IsSound : {w v : World} → Step w v → IsSound w → IsSound v
unfolding begin_post stop_serial
Step-IsSound (work k) h = Work-IsSound k h
Step-IsSound (submit w task reply) h =
    admit-IsSound (admission w.executor.queue.state w.executor.queue) reply w task h refl
Step-IsSound (stop_with w mode) h = record {
  accounts = stop-Accounts w.executor.queue w.ledger mode h.accounts;
  one_drain = h.one_drain;
  none_forgotten = λ off. stop-tasks w.executor.queue mode (h.none_forgotten off);
}
Step-IsSound (lose_drain w h) a = record {
  accounts = a.accounts;
  one_drain = ground (arith, a.one_drain);
  none_forgotten = a.none_forgotten;
}
