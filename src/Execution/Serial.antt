-- ===== src/Execution/Serial.antt =====
-- src/execution/serial_executor.cpp, SerialExecutor. The executor below it is known by what its `Post`
-- answers; a task that it accepts calls `Drain` once. `Drain` is two critical sections, before and
-- behind `Execute`, until it finds no task.
pub mod Worlds
pub mod Invariant
pub mod Order
use iocp_http_runtime.Prelude.{
  ℕ, List, [], ◌∷◌, Bool, true, false, ◌==◌, if◌then◌else◌, Option, none, some, Result, ok, throws,
  invalid_argument,
}
use iocp_http_runtime.Execution.Types.{SubmitStatus, StopMode, ExecutionState, Task}
use iocp_http_runtime.Execution.Queue.{
  TaskQueue, new_queue, admission, push_back, pop_front, complete, move_to_stopped, stop,
}

pub record SerialExecutor : Type 0 where
  pub queue : TaskQueue
  pub drain_scheduled : Bool

-- `underlying` tells whether there is an executor below.
unfoldable pub init : Bool → ℕ → Result SerialExecutor
init underlying maximum_pending_tasks =
    if underlying
    then if maximum_pending_tasks == 0
      then throws invalid_argument
      else ok (record { queue = new_queue maximum_pending_tasks; drain_scheduled = false })
    else throws invalid_argument

abbrev pub pop_back : List ℕ → List ℕ
pop_back [] = []
pop_back (task ∷ []) = []
pop_back (task ∷ next ∷ rest) = task ∷ pop_back (next ∷ rest)

-- The task that was just pushed is taken back, and no drain is scheduled.
abbrev pub take_back : SerialExecutor → SerialExecutor
take_back s = record {
  queue = record s.queue { tasks = pop_back s.queue.tasks };
  drain_scheduled = false;
}

-- What `Post` does with the answer of the executor below.
abbrev pub settle : Result SubmitStatus → SerialExecutor → Result SubmitStatus × SerialExecutor
settle (throws failure) s = (throws failure, take_back s)
settle (ok SubmitStatus.accepted) s = (ok SubmitStatus.accepted, s)
settle (ok SubmitStatus.saturated) s = (ok SubmitStatus.saturated, take_back s)
settle (ok SubmitStatus.stopped) s = (
  ok SubmitStatus.stopped,
  record {
    queue = record s.queue { tasks = pop_back s.queue.tasks; state = ExecutionState.stopped };
    drain_scheduled = false;
  },
)

-- How far `Post` comes by itself: it answers, or it asks the executor below to run `Drain`.
pub data Stage : Type 0 where
  answers : Result SubmitStatus → SerialExecutor → Stage
  asks : SerialExecutor → Stage

-- Where the task has been pushed, by `drain_scheduled_`.
abbrev pub schedule : Bool → SerialExecutor → ℕ → Stage
schedule true s task =
    answers (ok SubmitStatus.accepted) (record s { queue = push_back s.queue task })
schedule false s task = asks (record { queue = push_back s.queue task; drain_scheduled = true })

abbrev pub admit : Option SubmitStatus → SerialExecutor → ℕ → Stage
admit (some status) s task = answers (ok status) s
admit none s task = schedule s.drain_scheduled s task

-- `Post` up to the call of `underlying_->Post`.
unfoldable pub begin_post : SerialExecutor → Task → Stage
begin_post s none = answers (throws invalid_argument) s
begin_post s (some task) = admit (admission s.queue.state s.queue) s task

abbrev pub resolve : Result SubmitStatus → Stage → Result SubmitStatus × SerialExecutor
resolve reply (answers answer s) = (answer, s)
resolve reply (asks s) = settle reply s

unfoldable pub post :
    Result SubmitStatus → SerialExecutor → Task → Result SubmitStatus × SerialExecutor
post reply s task = resolve reply (begin_post s task)

-- `Drain` up to `Execute`, or up to its return.
abbrev pub take_task : List ℕ → SerialExecutor → Task × SerialExecutor
take_task [] s = (none, record { queue = move_to_stopped s.queue; drain_scheduled = false })
take_task (task ∷ rest) s = (some task, record s { queue = pop_front s.queue task rest })

unfoldable pub drain_one : SerialExecutor → Task × SerialExecutor
drain_one s = take_task s.queue.tasks s

-- `Drain` behind `Execute`, back to the head of the loop.
unfoldable pub end_one : SerialExecutor → SerialExecutor
end_one s = record s { queue = complete s.queue }

unfoldable pub stop_serial : SerialExecutor → StopMode → SerialExecutor
stop_serial s mode = record s { queue = stop s.queue mode }
