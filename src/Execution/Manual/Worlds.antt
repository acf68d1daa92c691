-- ===== src/Execution/Manual/Worlds.antt =====
-- A ManualExecutor that any number of threads use: its queue, the history, and the steps.
use iocp_http_runtime.Prelude.{ℕ, ◌+◌, ◌<◌, ◌≡◌, none, some, ok, size_mod}
use iocp_http_runtime.Execution.Types.{SubmitStatus, StopMode}
use iocp_http_runtime.Execution.Queue.{TaskQueue, complete, stop}
use iocp_http_runtime.Execution.Queue.Ledger.{Ledger, no_history}
use iocp_http_runtime.Execution.Queue.Steps.{accept, start, finish, discard, removed}
use iocp_http_runtime.Execution.Manual.{post, begin_one}

pub record World : Type 0 where
  pub queue : TaskQueue
  pub ledger : Ledger

abbrev pub first : TaskQueue → World
first queue = record { queue = queue; ledger = no_history }

-- What the caller of `Post` has learnt.
abbrev pub note : SubmitStatus → Ledger → ℕ → Ledger
note SubmitStatus.accepted l task = accept l task
note SubmitStatus.stopped l task = l
note SubmitStatus.saturated l task = l

-- What the threads inside `RunOne` do. No more of them are there than `std::size_t` counts.
pub data Work : World → World → Type 0 where
  begin_task :
      (w : World) (task : ℕ) (q : TaskQueue)
      → begin_one w.queue ≡ (some task, q)
      → w.ledger.live + 1 < size_mod
      → Work w (record { queue = q; ledger = start w.ledger task })
  find_none :
      (w : World) (q : TaskQueue)
      → begin_one w.queue ≡ (none, q)
      → Work w (record { queue = q; ledger = w.ledger })
  end_task :
      (w : World)
      → 0 < w.ledger.live
      → Work w (record { queue = complete w.queue; ledger = finish w.ledger })

pub data Step : World → World → Type 0 where
  work : {w v : World} → Work w v → Step w v
  submit :
      (w : World) (task : ℕ) (status : SubmitStatus) (q : TaskQueue)
      → post w.queue (some task) ≡ ok (status, q)
      → Step w (record { queue = q; ledger = note status w.ledger task })
  stop_with :
      (w : World) (mode : StopMode)
      → Step w (record {
        queue = stop w.queue mode;
        ledger = discard w.ledger (removed w.queue.tasks (stop w.queue mode).tasks);
      })
