-- ===== src/Execution/Queue/Ledger.antt =====
-- The history of a task queue of src/execution, kept beside its fields: which tasks were accepted,
-- started and cancelled, and how many of the started ones still run.
use iocp_http_runtime.Prelude.{
  ℕ, ◌+◌, ◌%◌, ◌≤◌, ◌<◌, ◌≡◌, ◌⊎◌, inl, inr, refl, List, [], ◌∷◌, ◌++◌, true, ◌&&◌, ◌==◌, length,
  Bool-cases, size_mod, arith,
}
use iocp_http_runtime.Execution.Types.{ExecutionState}
use iocp_http_runtime.Execution.Queue.{TaskQueue, is_stopping, is_empty, move_to_stopped}

pub record Ledger : Type 0 where
  pub accepted : List ℕ
  pub started : List ℕ
  pub cancelled : List ℕ
  pub live : ℕ
  pub finished : ℕ

abbrev pub no_history : Ledger
no_history = record { accepted = []; started = []; cancelled = []; live = 0; finished = 0 }

-- The fields agree with the history.
pub record Books (q : TaskQueue) (l : Ledger) : Type 0 where
  pub fifo : l.accepted ≡ l.started ++ (l.cancelled ++ q.tasks)
  pub bounded : length q.tasks ≤ q.maximum_pending_tasks
  pub running : q.running_tasks ≡ l.live
  pub few : l.live < size_mod
  pub counted : length l.started ≡ l.live + l.finished
  pub completed : q.completed_tasks ≡ l.finished % size_mod
  pub dropped : q.cancelled_tasks ≡ length l.cancelled % size_mod

-- What each state says of the pending tasks; a queue that is stopping has work left.
abbrev pub Phase : ExecutionState → List ℕ → List ℕ → ℕ → Type 0
Phase ExecutionState.running tasks cancelled live = cancelled ≡ []
Phase ExecutionState.stopping tasks cancelled live =
    ((cancelled ≡ []) ⊎ (tasks ≡ [])) × (is_empty tasks ≡ true → 0 < live)
Phase ExecutionState.stopped tasks cancelled live = (tasks ≡ []) × (live ≡ 0)

abbrev pub Accounts : TaskQueue → Ledger → Type 0
Accounts q l = Books q l × Phase q.state q.tasks l.cancelled l.live

-- The same before `MoveToStoppedIfDrainedLocked`: a queue that is stopping may have no work left.
abbrev pub Loose : ExecutionState → List ℕ → List ℕ → ℕ → Type 0
Loose ExecutionState.running tasks cancelled live = cancelled ≡ []
Loose ExecutionState.stopping tasks cancelled live = (cancelled ≡ []) ⊎ (tasks ≡ [])
Loose ExecutionState.stopped tasks cancelled live = (tasks ≡ []) × (live ≡ 0)

is_empty-true : (tasks : List ℕ) → is_empty tasks ≡ true → tasks ≡ []
is_empty-true [] e = refl
is_empty-true (task ∷ tasks) e = ground arith

pub Phase-Loose :
    (s : ExecutionState) (tasks cancelled : List ℕ) (live : ℕ)
    → Phase s tasks cancelled live
    → Loose s tasks cancelled live
Phase-Loose ExecutionState.running tasks cancelled live p = p
Phase-Loose ExecutionState.stopping tasks cancelled live p = p.0
Phase-Loose ExecutionState.stopped tasks cancelled live p = p

move_to_stopped-Phase :
    (s : ExecutionState) (q : TaskQueue) (cancelled : List ℕ) (live : ℕ)
    → q.state ≡ s
    → q.running_tasks ≡ live
    → Loose s q.tasks cancelled live
    → let q' = move_to_stopped q in Phase q'.state q'.tasks cancelled live
unfolding move_to_stopped
move_to_stopped-Phase ExecutionState.running q cancelled live e r p = rw e p
move_to_stopped-Phase ExecutionState.stopping q cancelled live e r p =
    rw e (elim (Bool-cases (is_empty q.tasks && q.running_tasks == 0)) [
      | inl y ↦ rw y (is_empty-true q.tasks (ground arith), ground arith)
      | inr n ↦ rw n (p, λ h. ground arith)
    ])
move_to_stopped-Phase ExecutionState.stopped q cancelled live e r p = rw e p

pub move_to_stopped-Accounts :
    (q : TaskQueue) (l : Ledger)
    → Books q l
    → Loose q.state q.tasks l.cancelled l.live
    → Accounts (move_to_stopped q) l
unfolding move_to_stopped
move_to_stopped-Accounts q l b p = (
  elim (Bool-cases (is_stopping q.state && (is_empty q.tasks && q.running_tasks == 0))) [
    | inl y ↦ rw y (record {
      fifo = b.fifo;
      bounded = b.bounded;
      running = b.running;
      few = b.few;
      counted = b.counted;
      completed = b.completed;
      dropped = b.dropped;
    })
    | inr n ↦ rw n b
  ],
  move_to_stopped-Phase q.state q l.cancelled l.live refl b.running p,
)
