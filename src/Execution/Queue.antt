-- ===== src/Execution/Queue.antt =====
-- What src/execution/manual_executor.cpp and src/execution/serial_executor.cpp have in common: the
-- fields that both classes declare, and the critical sections that both spell alike.
pub mod Ledger
pub mod Steps
use iocp_http_runtime.Prelude.{
  ℕ, List, [], ◌∷◌, ◌++◌, Bool, true, false, ◌&&◌, ◌==◌, if◌then◌else◌, leb, length, Option, none,
  some, add_size, sub_size,
}
use iocp_http_runtime.Execution.Types.{
  SubmitStatus, StopMode, ExecutionState, drain, cancel_pending,
}

pub record TaskQueue : Type 0 where
  pub maximum_pending_tasks : ℕ
  pub tasks : List ℕ
  pub state : ExecutionState
  pub stop_mode : StopMode
  pub running_tasks : ℕ
  pub completed_tasks : ℕ
  pub cancelled_tasks : ℕ

abbrev pub new_queue : ℕ → TaskQueue
new_queue maximum_pending_tasks = record {
  maximum_pending_tasks = maximum_pending_tasks;
  tasks = [];
  state = ExecutionState.running;
  stop_mode = drain;
  running_tasks = 0;
  completed_tasks = 0;
  cancelled_tasks = 0;
}

abbrev pub is_stopping : ExecutionState → Bool
is_stopping ExecutionState.running = false
is_stopping ExecutionState.stopping = true
is_stopping ExecutionState.stopped = false

abbrev pub is_empty : List ℕ → Bool
is_empty [] = true
is_empty (task ∷ tasks) = false

-- `MoveToStoppedIfDrainedLocked`: who waits for the end is notified in the same critical section.
unfoldable pub move_to_stopped : TaskQueue → TaskQueue
move_to_stopped q =
    if is_stopping q.state && (is_empty q.tasks && q.running_tasks == 0)
    then record q { state = ExecutionState.stopped }
    else q

-- The two tests of `Post` behind the lock: `none` where the task may be pushed.
abbrev pub admission : ExecutionState → TaskQueue → Option SubmitStatus
admission ExecutionState.running q =
    if leb q.maximum_pending_tasks (length q.tasks) then some SubmitStatus.saturated else none
admission ExecutionState.stopping q = some SubmitStatus.stopped
admission ExecutionState.stopped q = some SubmitStatus.stopped

abbrev pub push_back : TaskQueue → ℕ → TaskQueue
push_back q task = record q { tasks = q.tasks ++ task ∷ [] }

-- The pending task at the front begins to run.
unfoldable pub pop_front : TaskQueue → ℕ → List ℕ → TaskQueue
pop_front q task rest = record q { tasks = rest; running_tasks = add_size q.running_tasks 1 }

-- The critical section behind `Execute`.
unfoldable pub complete : TaskQueue → TaskQueue
unfolding move_to_stopped
complete q = move_to_stopped (record q {
  running_tasks = sub_size q.running_tasks 1;
  completed_tasks = add_size q.completed_tasks 1;
})

-- The mode that `Stop` leaves, by the state in which it is called.
abbrev pub stop_mode_after : ExecutionState → StopMode → StopMode → StopMode
stop_mode_after ExecutionState.running old new = new
stop_mode_after ExecutionState.stopping old drain = old
stop_mode_after ExecutionState.stopping old cancel_pending = cancel_pending
stop_mode_after ExecutionState.stopped old new = old

abbrev pub cancel_if : StopMode → TaskQueue → TaskQueue
cancel_if drain q = q
cancel_if cancel_pending q = record q {
  cancelled_tasks = add_size q.cancelled_tasks (length q.tasks);
  tasks = [];
}

-- `Stop`, in a state that is not Stopped.
unfoldable pub stop_live : TaskQueue → StopMode → TaskQueue
unfolding move_to_stopped
stop_live q mode =
    let after = stop_mode_after q.state q.stop_mode mode in
    move_to_stopped
      (cancel_if after (record q { state = ExecutionState.stopping; stop_mode = after }))

abbrev pub stop_in : ExecutionState → TaskQueue → StopMode → TaskQueue
stop_in ExecutionState.running q mode = stop_live q mode
stop_in ExecutionState.stopping q mode = stop_live q mode
stop_in ExecutionState.stopped q mode = q

unfoldable pub stop : TaskQueue → StopMode → TaskQueue
stop q mode = stop_in q.state q mode
