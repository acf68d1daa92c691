-- ===== src/Execution/Queue/Steps.antt =====
-- What the critical sections of src/execution do to the fields and the history of a task queue.
use iocp_http_runtime.Prelude.{
  ℕ, ◌+◌, ◌-◌, ◌<◌, ◌≡◌, subst, ◌⊎◌, inl, inr, refl, sym, List, [], ◌∷◌, ◌++◌, length,
  length-append, append_assoc, append-nil, size_mod, ap, ◌∙◌, none, arith,
}
use iocp_http_runtime.Execution.Types.{StopMode, ExecutionState, drain, cancel_pending}
use iocp_http_runtime.Execution.Queue.{
  TaskQueue, new_queue, move_to_stopped, admission, push_back, pop_front, complete, stop_mode_after,
  cancel_if, stop_live, stop_in, stop,
}
use iocp_http_runtime.Execution.Queue.Ledger.{
  Ledger, no_history, Books, Phase, Accounts, Loose, move_to_stopped-Accounts,
}

pub new_queue-Accounts : (maximum : ℕ) → Accounts (new_queue maximum) no_history
new_queue-Accounts maximum = (
  record {
    fifo = refl;
    bounded = omega arith;
    running = refl;
    few = omega arith;
    counted = refl;
    completed = refl;
    dropped = refl;
  },
  refl,
)

abbrev pub accept : Ledger → ℕ → Ledger
accept l task = record l { accepted = l.accepted ++ task ∷ [] }

admission-none :
    (s : ExecutionState) (q : TaskQueue)
    → admission s q ≡ none
    → (s ≡ ExecutionState.running) × (length q.tasks < q.maximum_pending_tasks)
admission-none ExecutionState.running q e = ground arith
admission-none ExecutionState.stopping q e = ground arith
admission-none ExecutionState.stopped q e = ground arith

pub push_back-Accounts :
    (q : TaskQueue) (l : Ledger) (task : ℕ)
    → Accounts q l
    → admission q.state q ≡ none
    → Accounts (push_back q task) (accept l task)
push_back-Accounts q l task a e =
    let h = admission-none q.state q e in
    (
      record {
        fifo =
            ap (λ ts. ts ++ task ∷ []) a.0.fifo
            ∙ append_assoc l.started (l.cancelled ++ q.tasks) (task ∷ [])
            ∙ ap (λ ts. l.started ++ ts) (append_assoc l.cancelled q.tasks (task ∷ []));
        bounded = ground (arith, length-append q.tasks (task ∷ []));
        running = a.0.running;
        few = a.0.few;
        counted = a.0.counted;
        completed = a.0.completed;
        dropped = a.0.dropped;
      },
      subst (λ s. Phase s (q.tasks ++ task ∷ []) l.cancelled l.live) (sym h.0)
          (subst (λ s. Phase s q.tasks l.cancelled l.live) h.0 a.1),
    )

abbrev pub start : Ledger → ℕ → Ledger
start l task = record l { started = l.started ++ task ∷ []; live = l.live + 1 }

-- Nothing was cancelled while a task is pending.
Phase-pending :
    (s : ExecutionState) (task : ℕ) (rest cancelled : List ℕ) (live : ℕ)
    → Phase s (task ∷ rest) cancelled live
    → (cancelled ≡ []) × Phase s rest [] (live + 1)
Phase-pending ExecutionState.running task rest cancelled live p = ground arith
Phase-pending ExecutionState.stopping task rest cancelled live p = ground arith
Phase-pending ExecutionState.stopped task rest cancelled live p = ground arith

pub pop_front-Accounts :
    (q : TaskQueue) (l : Ledger) (task : ℕ) (rest : List ℕ)
    → Accounts q l
    → q.tasks ≡ task ∷ rest
    → l.live + 1 < size_mod
    → Accounts (pop_front q task rest) (start l task)
unfolding pop_front
pop_front-Accounts q l task rest a e few =
    let h =
      Phase-pending q.state task rest l.cancelled l.live
        (subst (λ ts. Phase q.state ts l.cancelled l.live) e a.1) in
    (
      record {
        fifo =
            a.0.fifo
            ∙ ap (λ ts. l.started ++ (l.cancelled ++ ts)) e
            ∙ ap (λ ts. l.started ++ (ts ++ task ∷ rest)) h.0
            ∙ sym (append_assoc l.started (task ∷ []) rest)
            ∙ ap (λ ts. (l.started ++ task ∷ []) ++ (ts ++ rest)) (sym h.0);
        bounded = ground (arith, a.0.bounded);
        running = ground (arith, a.0.running);
        few = few;
        counted = ground (arith, a.0.counted, length-append l.started (task ∷ []));
        completed = a.0.completed;
        dropped = a.0.dropped;
      },
      subst (λ ts. Phase q.state rest ts (l.live + 1)) (sym h.0) h.1,
    )

abbrev pub finish : Ledger → Ledger
finish l = record l { live = l.live - 1; finished = l.finished + 1 }

Loose-finish :
    (s : ExecutionState) (tasks cancelled : List ℕ) (live : ℕ)
    → Phase s tasks cancelled live
    → Loose s tasks cancelled (live - 1)
Loose-finish ExecutionState.running tasks cancelled live p = p
Loose-finish ExecutionState.stopping tasks cancelled live p = p.0
Loose-finish ExecutionState.stopped tasks cancelled live p = ground arith

pub complete-Accounts :
    (q : TaskQueue) (l : Ledger) → Accounts q l → 0 < l.live → Accounts (complete q) (finish l)
unfolding complete
complete-Accounts q l a h =
    move_to_stopped-Accounts _ _
      (record {
        fifo = a.0.fifo;
        bounded = a.0.bounded;
        running = ground (arith, a.0.running, a.0.few);
        few = ground (arith, a.0.few);
        counted = ground (arith, a.0.counted);
        completed = ground (arith, a.0.completed);
        dropped = a.0.dropped;
      })
      (Loose-finish q.state q.tasks l.cancelled l.live a.1)

-- The tasks that a call of `Stop` takes out of the queue.
abbrev pub removed : List ℕ → List ℕ → List ℕ
removed tasks [] = tasks
removed tasks (task ∷ rest) = []

abbrev pub discard : Ledger → List ℕ → Ledger
discard l tasks = record l { cancelled = l.cancelled ++ tasks }

pub removed_all : (tasks : List ℕ) → removed tasks tasks ≡ []
removed_all [] = refl
removed_all (task ∷ tasks) = refl

-- `Stop` once the mode is settled, up to `MoveToStoppedIfDrainedLocked`.
cancel_if-Books :
    (mode : StopMode) (q : TaskQueue) (l : Ledger)
    → Books q l
    → Books (cancel_if mode q) (discard l (removed q.tasks (cancel_if mode q).tasks))
cancel_if-Books drain q l b = rw (removed_all q.tasks, append-nil l.cancelled) b
cancel_if-Books cancel_pending q l b = record {
  fifo = b.fifo ∙ ap (λ ts. l.started ++ ts) (sym (append-nil (l.cancelled ++ q.tasks)));
  bounded = omega arith;
  running = b.running;
  few = b.few;
  counted = b.counted;
  completed = b.completed;
  dropped = ground (arith, b.dropped, length-append l.cancelled q.tasks);
}

Phase-Loose-stopping :
    (s : ExecutionState) (tasks cancelled : List ℕ) (live : ℕ)
    → Phase s tasks cancelled live
    → (cancelled ≡ []) ⊎ (tasks ≡ [])
Phase-Loose-stopping ExecutionState.running tasks cancelled live p = inl p
Phase-Loose-stopping ExecutionState.stopping tasks cancelled live p = p.0
Phase-Loose-stopping ExecutionState.stopped tasks cancelled live p = inr p.0

cancel_if-Loose :
    (mode : StopMode) (q : TaskQueue) (cancelled : List ℕ)
    → (cancelled ≡ []) ⊎ (q.tasks ≡ [])
    → let tasks = (cancel_if mode q).tasks in
      (cancelled ++ removed q.tasks tasks ≡ []) ⊎ (tasks ≡ [])
cancel_if-Loose drain q cancelled h = rw (removed_all q.tasks, append-nil cancelled) h
cancel_if-Loose cancel_pending q cancelled h = inr refl

cancel_if-state : (mode : StopMode) (q : TaskQueue) → (cancel_if mode q).state ≡ q.state
cancel_if-state drain q = refl
cancel_if-state cancel_pending q = refl

cancel_if-tasks : (mode : StopMode) (q : TaskQueue) → q.tasks ≡ [] → (cancel_if mode q).tasks ≡ []
cancel_if-tasks drain q e = e
cancel_if-tasks cancel_pending q e = refl

pub move_to_stopped-tasks : (q : TaskQueue) → (move_to_stopped q).tasks ≡ q.tasks
unfolding move_to_stopped
move_to_stopped-tasks q = ground arith

pub stop_live-Accounts :
    (q : TaskQueue) (l : Ledger) (mode : StopMode)
    → Accounts q l
    → Accounts (stop_live q mode) (discard l (removed q.tasks (stop_live q mode).tasks))
unfolding stop_live
stop_live-Accounts q l mode a =
    let after = stop_mode_after q.state q.stop_mode mode in
    let q1 = record q { state = ExecutionState.stopping; stop_mode = after } in
    let b : Books q1 l = record {
      fifo = a.0.fifo;
      bounded = a.0.bounded;
      running = a.0.running;
      few = a.0.few;
      counted = a.0.counted;
      completed = a.0.completed;
      dropped = a.0.dropped;
    } in
    let tasks = (cancel_if after q1).tasks in
    subst (λ ts. Accounts (move_to_stopped (cancel_if after q1)) (discard l (removed q.tasks ts)))
      (sym (move_to_stopped-tasks (cancel_if after q1)))
      (move_to_stopped-Accounts (cancel_if after q1) (discard l (removed q.tasks tasks))
        (cancel_if-Books after q1 l b)
        (subst (λ s. Loose s tasks (l.cancelled ++ removed q.tasks tasks) l.live)
          (sym (cancel_if-state after q1))
          (cancel_if-Loose after q1 l.cancelled
            (Phase-Loose-stopping q.state q.tasks l.cancelled l.live a.1))))

stop_in_cases :
    (s : ExecutionState) (q : TaskQueue) (mode : StopMode)
    → (stop_in s q mode ≡ q) ⊎ (stop_in s q mode ≡ stop_live q mode)
stop_in_cases ExecutionState.running q mode = inr refl
stop_in_cases ExecutionState.stopping q mode = inr refl
stop_in_cases ExecutionState.stopped q mode = inl refl

pub stop-Accounts :
    (q : TaskQueue) (l : Ledger) (mode : StopMode)
    → Accounts q l
    → Accounts (stop q mode) (discard l (removed q.tasks (stop q mode).tasks))
unfolding stop
stop-Accounts q l mode a = elim (stop_in_cases q.state q mode) [
  | inl e ↦
      subst (λ q'. Accounts q' (discard l (removed q.tasks q'.tasks))) (sym e)
        (rw (removed_all q.tasks, append-nil l.cancelled) a)
  | inr e ↦
      subst (λ q'. Accounts q' (discard l (removed q.tasks q'.tasks))) (sym e)
        (stop_live-Accounts q l mode a)
]

pub complete-tasks : (q : TaskQueue) → (complete q).tasks ≡ q.tasks
unfolding complete
complete-tasks q = move_to_stopped-tasks _

stop_live-tasks : (q : TaskQueue) (mode : StopMode) → q.tasks ≡ [] → (stop_live q mode).tasks ≡ []
unfolding stop_live
stop_live-tasks q mode e =
    let after = stop_mode_after q.state q.stop_mode mode in
    move_to_stopped-tasks _
    ∙ cancel_if-tasks after (record q { state = ExecutionState.stopping; stop_mode = after }) e

stop_in-tasks :
    (s : ExecutionState) (q : TaskQueue) (mode : StopMode)
    → q.tasks ≡ []
    → (stop_in s q mode).tasks ≡ []
stop_in-tasks ExecutionState.running q mode e = stop_live-tasks q mode e
stop_in-tasks ExecutionState.stopping q mode e = stop_live-tasks q mode e
stop_in-tasks ExecutionState.stopped q mode e = e

pub stop-tasks : (q : TaskQueue) (mode : StopMode) → q.tasks ≡ [] → (stop q mode).tasks ≡ []
unfolding stop
stop-tasks q mode e = stop_in-tasks q.state q mode e

pub pop_front-tasks :
    (q : TaskQueue) (task : ℕ) (rest : List ℕ) → (pop_front q task rest).tasks ≡ rest
unfolding pop_front
pop_front-tasks q task rest = refl
