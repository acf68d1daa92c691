-- ===== src/Execution/Tests.antt =====
-- Runs of the executors of src/execution at fixed inputs.
use iocp_http_runtime.Prelude.{
  ℕ, ◌+◌, ◌≤◌, ◌≡◌, ◌≢◌, refl, [], ◌∷◌, ◌++◌, true, false, some, ok, throws, runtime_error, arith,
}
use iocp_http_runtime.Execution.Types.{SubmitStatus, ExecutionState, drain}
use iocp_http_runtime.Execution.Runs.{Reach, here, next}
use iocp_http_runtime.Execution.Queue.{
  TaskQueue, new_queue, push_back, pop_front, stop, stop_live, move_to_stopped,
}
use iocp_http_runtime.Execution.Queue.Ledger.{no_history, Accounts}
use iocp_http_runtime.Execution.Manual
use iocp_http_runtime.Execution.Manual.Worlds as ManualWorlds
use iocp_http_runtime.Execution.Manual.Invariant.{Reach-Accounts}
use iocp_http_runtime.Execution.Manual.Stopping.{Reach-stops}
use iocp_http_runtime.Execution.Serial
use iocp_http_runtime.Execution.Serial.{SerialExecutor}
use iocp_http_runtime.Execution.Serial.Worlds as SerialWorlds
use iocp_http_runtime.Execution.Serial.Order.{Reach-in_order, Reach-drains}

-- Tasks 7 and 8 are posted, the first of them is running when the executor is told to drain.
abbrev two_posted : TaskQueue
two_posted = push_back (push_back (new_queue 2) 7) 8

abbrev halfway : ManualWorlds.World
halfway = record {
  queue = record two_posted { tasks = 8 ∷ []; state = ExecutionState.stopping; running_tasks = 1 };
  ledger = record no_history { accepted = 7 ∷ 8 ∷ []; started = 7 ∷ []; live = 1 };
}

halfway_reached : Reach ManualWorlds.Step (ManualWorlds.first (new_queue 2)) halfway
unfolding Manual.post Manual.begin_one pop_front stop stop_live move_to_stopped
halfway_reached =
    next
      (next
        (next
          (next here
            (ManualWorlds.submit _ 7 SubmitStatus.accepted (push_back (new_queue 2) 7) refl))
          (ManualWorlds.submit _ 8 SubmitStatus.accepted two_posted refl))
        (ManualWorlds.work
          (ManualWorlds.begin_task _ 7 (pop_front two_posted 7 (8 ∷ [])) refl (omega arith))))
      (ManualWorlds.stop_with _ drain)

two_tasks_accepted : Manual.init 2 ≡ ok (new_queue 2)
unfolding Manual.init
two_tasks_accepted = refl

full_refuses : Manual.post two_posted (some 9) ≡ ok (SubmitStatus.saturated, two_posted)
unfolding Manual.post
full_refuses = refl

Reach-Accounts_example : Accounts halfway.queue halfway.ledger
Reach-Accounts_example = Reach-Accounts 2 two_tasks_accepted halfway_reached

Reach-stops_example :
    (v : ManualWorlds.World) × Reach ManualWorlds.Work halfway v
    × (v.queue.state ≡ ExecutionState.stopped)
    × (v.ledger.started ≡ 7 ∷ 8 ∷ [])
    × (v.ledger.accepted ≡ v.ledger.started ++ v.ledger.cancelled)
    × (v.ledger.cancelled ≡ [])
    × (v.ledger.live ≡ 0)
Reach-stops_example = Reach-stops 2 two_tasks_accepted halfway_reached refl

-- The executor below accepts the drain of task 7, which is running when task 8 comes.
abbrev serial : ℕ → SerialExecutor
serial n = record { queue = new_queue n; drain_scheduled = false }

abbrev one_running : SerialWorlds.World
one_running = record {
  executor = record {
    queue = record (new_queue 2) { tasks = 8 ∷ []; running_tasks = 1 };
    drain_scheduled = true;
  };
  ledger = record no_history { accepted = 7 ∷ 8 ∷ []; started = 7 ∷ []; live = 1 };
  posted = 0;
  waiting = 0;
  lost = 0;
}

one_running_reached : Reach SerialWorlds.Step (SerialWorlds.first (serial 2)) one_running
unfolding Serial.begin_post Serial.drain_one pop_front
one_running_reached =
    next
      (next
        (next (next here (SerialWorlds.submit _ 7 (ok SubmitStatus.accepted)))
          (SerialWorlds.work (SerialWorlds.call_drain _ (omega arith))))
        (SerialWorlds.work (
          SerialWorlds.begin_task _ 7
            (record { queue = pop_front (push_back (new_queue 2) 7) 7 []; drain_scheduled = true })
            (omega arith) refl)))
      (SerialWorlds.submit _ 8 (throws runtime_error))

-- A drain that the executor below dropped leaves the flag set, and the task in the queue.
drain_lost : Reach SerialWorlds.Step (SerialWorlds.first (serial 2)) (record {
  executor = record { queue = push_back (new_queue 2) 7; drain_scheduled = true };
  ledger = record no_history { accepted = 7 ∷ [] };
  posted = 0;
  waiting = 0;
  lost = 1;
})
unfolding Serial.begin_post
drain_lost =
    next (next here (SerialWorlds.submit _ 7 (ok SubmitStatus.accepted)))
      (SerialWorlds.lose_drain _ (omega arith))

serial_accepted : Serial.init true 2 ≡ ok (serial 2)
unfolding Serial.init
serial_accepted = refl

Reach-in_order_example :
    Accounts one_running.executor.queue one_running.ledger
    × (one_running.ledger.live ≤ 1)
    × (one_running.executor.queue.tasks ≢ []
        → one_running.posted + one_running.waiting + one_running.lost + one_running.ledger.live ≡ 1)
Reach-in_order_example = Reach-in_order true 2 serial_accepted one_running_reached

Reach-drains_example :
    (v : SerialWorlds.World) × Reach SerialWorlds.Work one_running v
    × (v.ledger.started ≡ 7 ∷ 8 ∷ [])
    × (v.ledger.accepted ≡ v.ledger.started ++ v.ledger.cancelled)
    × (v.ledger.cancelled ≡ [])
    × (v.ledger.live ≡ 0)
    × (v.executor.queue.state ≢ ExecutionState.stopping)
Reach-drains_example = Reach-drains true 2 serial_accepted one_running_reached refl
