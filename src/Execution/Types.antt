-- ===== src/Execution/Types.antt =====
-- src/execution/executor.h: the answers and states of an executor. A task is a number that names the
-- callable; an empty `std::function` is `none`.
use iocp_http_runtime.Prelude.{ℕ, Option}

pub data SubmitStatus : Type 0 where
  accepted stopped saturated : SubmitStatus

pub data StopMode : Type 0 where
  drain cancel_pending : StopMode

pub data ExecutionState : Type 0 where
  running stopping stopped : ExecutionState

abbrev pub Task : Type 0
Task = Option ℕ
