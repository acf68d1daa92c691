-- ===== src/Execution/Manual.antt =====
-- src/execution/manual_executor.cpp, ManualExecutor. `RunOne` is two critical sections, before and
-- behind `Execute`, which runs the task without the lock and swallows what it throws.
pub mod Worlds
pub mod Invariant
pub mod Stopping
use iocp_http_runtime.Prelude.{
  ℕ, List, [], ◌∷◌, Bool, true, false, ◌==◌, if◌then◌else◌, Option, none, some, Result, ok, throws,
  invalid_argument,
}
use iocp_http_runtime.Execution.Types.{SubmitStatus, Task}
use iocp_http_runtime.Execution.Queue.{
  TaskQueue, new_queue, admission, push_back, pop_front, complete, move_to_stopped,
}

unfoldable pub init : ℕ → Result TaskQueue
init maximum_pending_tasks =
    if maximum_pending_tasks == 0
    then throws invalid_argument
    else ok (new_queue maximum_pending_tasks)

abbrev pub admit : Option SubmitStatus → TaskQueue → ℕ → SubmitStatus × TaskQueue
admit (some status) q task = (status, q)
admit none q task = (SubmitStatus.accepted, push_back q task)

unfoldable pub post : TaskQueue → Task → Result (SubmitStatus × TaskQueue)
post q none = throws invalid_argument
post q (some task) = ok (admit (admission q.state q) q task)

-- `RunOne` up to `Execute`: the task that the thread goes on with, if there is one.
abbrev pub take_task : List ℕ → TaskQueue → Task × TaskQueue
take_task [] q = (none, move_to_stopped q)
take_task (task ∷ rest) q = (some task, pop_front q task rest)

unfoldable pub begin_one : TaskQueue → Task × TaskQueue
begin_one q = take_task q.tasks q

-- `RunOne`, where `execute` is what the task does to the executor that runs it.
unfoldable pub run_one : (ℕ → TaskQueue → TaskQueue) → TaskQueue → Bool × TaskQueue
run_one execute q = elim (begin_one q).0 [
  | none ↦ (false, (begin_one q).1)
  | some task ↦ (true, complete (execute task (begin_one q).1))
]
