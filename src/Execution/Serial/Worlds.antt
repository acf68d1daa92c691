-- ===== src/Execution/Serial/Worlds.antt =====
-- A SerialExecutor that any number of threads post to: its fields, the history, and the calls of
-- `Drain`: those that the executor below has taken on, those at the head of the loop, and those that
-- the executor below has dropped.
use iocp_http_runtime.Prelude.{ℕ, ◌+◌, ◌-◌, ◌<◌, ◌≡◌, none, some, Result, ok, throws}
use iocp_http_runtime.Execution.Types.{SubmitStatus, StopMode}
use iocp_http_runtime.Execution.Queue.Ledger.{Ledger, no_history}
use iocp_http_runtime.Execution.Queue.Steps.{accept, start, finish, discard, removed}
use iocp_http_runtime.Execution.Serial.{
  SerialExecutor, Stage, answers, asks, resolve, begin_post, drain_one, end_one, stop_serial,
}

pub record World : Type 0 where
  pub executor : SerialExecutor
  pub ledger : Ledger
  pub posted : ℕ
  pub waiting : ℕ
  pub lost : ℕ

abbrev pub first : SerialExecutor → World
first executor = record {
  executor = executor;
  ledger = no_history;
  posted = 0;
  waiting = 0;
  lost = 0;
}

-- What the caller of `Post` has learnt.
abbrev pub note : Result SubmitStatus → Ledger → ℕ → Ledger
note (ok SubmitStatus.accepted) l task = accept l task
note (ok SubmitStatus.stopped) l task = l
note (ok SubmitStatus.saturated) l task = l
note (throws failure) l task = l

-- The calls of `Drain` that the executor below has taken on by its reply.
abbrev pub taken_on : Result SubmitStatus → ℕ
taken_on (ok SubmitStatus.accepted) = 1
taken_on (ok SubmitStatus.stopped) = 0
taken_on (ok SubmitStatus.saturated) = 0
taken_on (throws failure) = 0

-- Only where it was asked.
abbrev pub posted_drains : Result SubmitStatus → Stage → ℕ
posted_drains reply (answers answer s) = 0
posted_drains reply (asks s) = taken_on reply

-- The world behind a `Post` that came to a stage, with the reply of the executor below.
abbrev pub after_post : Result SubmitStatus → World → ℕ → Stage → World
after_post reply w task stage =
    let r = resolve reply stage in
    record w {
      executor = r.1;
      ledger = note r.0 w.ledger task;
      posted = w.posted + posted_drains reply stage;
    }

-- What the calls of `Drain` do, and the executor below when it runs one.
pub data Work : World → World → Type 0 where
  call_drain :
      (w : World)
      → 0 < w.posted
      → Work w (record w { posted = w.posted - 1; waiting = w.waiting + 1 })
  begin_task :
      (w : World) (task : ℕ) (s : SerialExecutor)
      → 0 < w.waiting
      → drain_one w.executor ≡ (some task, s)
      → Work w (record w { executor = s; ledger = start w.ledger task; waiting = w.waiting - 1 })
  leave :
      (w : World) (s : SerialExecutor)
      → 0 < w.waiting
      → drain_one w.executor ≡ (none, s)
      → Work w (record w { executor = s; waiting = w.waiting - 1 })
  end_task :
      (w : World)
      → 0 < w.ledger.live
      → Work w (record w {
        executor = end_one w.executor;
        ledger = finish w.ledger;
        waiting = w.waiting + 1;
      })

-- Besides: a post, with any reply of the executor below; a stop; and the executor below drops a call
-- of `Drain` that it has taken on but not begun, as one that is stopped with CancelPending does.
pub data Step : World → World → Type 0 where
  work : {w v : World} → Work w v → Step w v
  submit :
      (w : World) (task : ℕ) (reply : Result SubmitStatus)
      → Step w (after_post reply w task (begin_post w.executor (some task)))
  stop_with :
      (w : World) (mode : StopMode)
      → Step w (record w {
        executor = stop_serial w.executor mode;
        ledger =
            discard w.ledger
              (removed w.executor.queue.tasks (stop_serial w.executor mode).queue.tasks);
      })
  lose_drain :
      (w : World) → 0 < w.posted → Step w (record w { posted = w.posted - 1; lost = w.lost + 1 })
