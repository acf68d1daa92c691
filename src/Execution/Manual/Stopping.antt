-- ===== src/Execution/Manual/Stopping.antt =====
-- A ManualExecutor that is told to stop comes to its end.
use iocp_http_runtime.Prelude.{
  ℕ, zero, suc, ◌≡◌, refl, sym, ap, ◌∙◌, subst, List, [], ◌∷◌, ◌++◌, append-nil, append_assoc, Bool,
  true, false, some, ok, arith,
}
use iocp_http_runtime.Execution.Types.{ExecutionState}
use iocp_http_runtime.Execution.Runs.{Reach, here, next, Reach-trans}
use iocp_http_runtime.Execution.Queue.{TaskQueue, move_to_stopped, pop_front, complete}
use iocp_http_runtime.Execution.Queue.Ledger.{Phase}
use iocp_http_runtime.Execution.Queue.Steps.{start, finish, complete-tasks, pop_front-tasks}
use iocp_http_runtime.Execution.Manual.{init, begin_one, take_task}
use iocp_http_runtime.Execution.Manual.Worlds.{World, first, Work, Step, begin_task, end_task}
use iocp_http_runtime.Execution.Manual.Invariant.{IsSound, Work-IsSound, Reach-Accounts}

abbrev pub is_running : ExecutionState → Bool
is_running ExecutionState.running = true
is_running ExecutionState.stopping = false
is_running ExecutionState.stopped = false

pub complete-ends :
    (q : TaskQueue) → is_running q.state ≡ false → is_running (complete q).state ≡ false
unfolding complete move_to_stopped
complete-ends q e = ground arith

pub pop_front-ends :
    (q : TaskQueue) (task : ℕ) (rest : List ℕ)
    → is_running q.state ≡ false
    → is_running (pop_front q task rest).state ≡ false
unfolding pop_front
pop_front-ends q task rest e = e

-- Where the work of the threads ends: all that was pending has been started, and no more.
pub record Ended (w v : World) : Type 0 where
  pub worked : Reach Work w v
  pub idle : v.ledger.live ≡ 0
  pub ending : is_running v.queue.state ≡ false
  pub sound : IsSound v
  pub same_accepted : v.ledger.accepted ≡ w.ledger.accepted
  pub same_cancelled : v.ledger.cancelled ≡ w.ledger.cancelled

finish_live :
    (n : ℕ) (w : World)
    → w.ledger.live ≡ n
    → IsSound w
    → is_running w.queue.state ≡ false
    → (v : World) × Ended w v
      × (v.queue.tasks ≡ w.queue.tasks)
      × (v.ledger.started ≡ w.ledger.started)
finish_live zero w e a h = (
  w,
  record {
    worked = here;
    idle = e;
    ending = h;
    sound = a;
    same_accepted = refl;
    same_cancelled = refl;
  },
  refl,
  refl,
)
finish_live (suc n) w e a h =
    let st = end_task w (ground arith) in
    let r =
      finish_live n (record { queue = complete w.queue; ledger = finish w.ledger }) (ground arith)
        (Work-IsSound st a) (complete-ends w.queue h) in
    (
      r.0,
      record {
        worked = Reach-trans (next here st) r.1.worked;
        idle = r.1.idle;
        ending = r.1.ending;
        sound = r.1.sound;
        same_accepted = r.1.same_accepted;
        same_cancelled = r.1.same_cancelled;
      },
      r.2 ∙ complete-tasks w.queue,
      r.3,
    )

begin_next :
    (w : World) (task : ℕ) (rest : List ℕ)
    → w.queue.tasks ≡ task ∷ rest
    → begin_one w.queue ≡ (some task, pop_front w.queue task rest)
unfolding begin_one
begin_next w task rest e = ap (λ ts. take_task ts w.queue) e

run_pending :
    (tasks : List ℕ) (w : World)
    → w.queue.tasks ≡ tasks
    → w.ledger.live ≡ 0
    → IsSound w
    → is_running w.queue.state ≡ false
    → (v : World) × Ended w v
      × (v.queue.tasks ≡ [])
      × (v.ledger.started ≡ w.ledger.started ++ tasks)
run_pending [] w e idle a h = (
  w,
  record {
    worked = here;
    idle = idle;
    ending = h;
    sound = a;
    same_accepted = refl;
    same_cancelled = refl;
  },
  e,
  sym (append-nil w.ledger.started),
)
run_pending (task ∷ rest) w e idle a h =
    let q = pop_front w.queue task rest in
    let begun = begin_task w task q (begin_next w task rest e) (ground arith) in
    let w1 : World = record { queue = q; ledger = start w.ledger task } in
    let ended = end_task w1 (ground arith) in
    let r =
      run_pending rest (record { queue = complete q; ledger = finish w1.ledger })
        (complete-tasks q ∙ pop_front-tasks w.queue task rest) (ground arith)
        (Work-IsSound ended (Work-IsSound begun a))
        (complete-ends q (pop_front-ends w.queue task rest h)) in
    (
      r.0,
      record {
        worked = Reach-trans (next (next here begun) ended) r.1.worked;
        idle = r.1.idle;
        ending = r.1.ending;
        sound = r.1.sound;
        same_accepted = r.1.same_accepted;
        same_cancelled = r.1.same_cancelled;
      },
      r.2,
      r.3 ∙ append_assoc w.ledger.started (task ∷ []) rest,
    )

-- An executor that is stopping has work left, so one without work has stopped.
Phase-stopped :
    (s : ExecutionState) (cancelled : List ℕ)
    → Phase s [] cancelled 0
    → is_running s ≡ false
    → s ≡ ExecutionState.stopped
Phase-stopped ExecutionState.running cancelled p e = ground arith
Phase-stopped ExecutionState.stopping cancelled p e = ground arith
Phase-stopped ExecutionState.stopped cancelled p e = refl

-- Once a stop has been asked for, the threads inside `RunOne` can bring the executor to Stopped
-- without anything from outside, whatever happened before: they start all the tasks that wait, in
-- order, and finish every task that was started.
pub Reach-stops :
    (maximum : ℕ) {q : TaskQueue} {w : World}
    → init maximum ≡ ok q
    → Reach Step (first q) w
    → is_running w.queue.state ≡ false
    → (v : World) × Reach Work w v
      × (v.queue.state ≡ ExecutionState.stopped)
      × (v.ledger.started ≡ w.ledger.started ++ w.queue.tasks)
      × (v.ledger.accepted ≡ v.ledger.started ++ v.ledger.cancelled)
      × (v.ledger.cancelled ≡ w.ledger.cancelled)
      × (v.ledger.live ≡ 0)
Reach-stops maximum {w = w} e r h =
    let f = finish_live w.ledger.live w refl (Reach-Accounts maximum e r) h in
    let p = run_pending f.0.queue.tasks f.0 refl f.1.idle f.1.sound f.1.ending in
    let v = p.0 in
    (
      v,
      Reach-trans f.1.worked p.1.worked,
      Phase-stopped v.queue.state v.ledger.cancelled
          (subst (λ n. Phase v.queue.state [] v.ledger.cancelled n) p.1.idle
            (subst (λ ts. Phase v.queue.state ts v.ledger.cancelled v.ledger.live) p.2 p.1.sound.1))
          p.1.ending,
      p.3 ∙ ap (λ ts. ts ++ f.0.queue.tasks) f.3 ∙ ap (λ ts. w.ledger.started ++ ts) f.2,
      p.1.sound.0.fifo
          ∙ ap (λ ts. v.ledger.started ++ (v.ledger.cancelled ++ ts)) p.2
          ∙ ap (λ ts. v.ledger.started ++ ts) (append-nil v.ledger.cancelled),
      p.1.same_cancelled ∙ f.1.same_cancelled,
      p.1.idle,
    )
