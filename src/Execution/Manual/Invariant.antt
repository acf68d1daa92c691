-- ===== src/Execution/Manual/Invariant.antt =====
-- In every state of a ManualExecutor, the fields agree with the history.
use iocp_http_runtime.Prelude.{
  ℕ, ◌+◌, ◌<◌, ◌≡◌, ◌≢◌, refl, sym, ap, subst, List, [], ◌∷◌, Option, none, some, ok, size_mod,
  arith,
}
use iocp_http_runtime.Execution.Types.{SubmitStatus, ExecutionState}
use iocp_http_runtime.Execution.Runs.{Reach, Reach-keeps}
use iocp_http_runtime.Execution.Queue.{TaskQueue, new_queue, admission, pop_front}
use iocp_http_runtime.Execution.Queue.Ledger.{
  Ledger, Phase-Loose, Accounts, move_to_stopped-Accounts,
}
use iocp_http_runtime.Execution.Queue.Steps.{
  start, new_queue-Accounts, push_back-Accounts, pop_front-Accounts, complete-Accounts,
  stop-Accounts,
}
use iocp_http_runtime.Execution.Manual.{init, post, admit, begin_one, take_task}
use iocp_http_runtime.Execution.Manual.Worlds.{
  World, first, note, Work, Step, begin_task, find_none, end_task, work, submit, stop_with,
}

init_ok : (maximum : ℕ) {q : TaskQueue} → init maximum ≡ ok q → q ≡ new_queue maximum
unfolding init
init_ok maximum e = ground arith

admit-Accounts :
    (r : Option SubmitStatus) (q : TaskQueue) (l : Ledger) (task : ℕ)
    → Accounts q l
    → admission q.state q ≡ r
    → r ≢ some SubmitStatus.accepted
    → Accounts (admit r q task).1 (note (admit r q task).0 l task)
admit-Accounts none q l task a e n = push_back-Accounts q l task a e
admit-Accounts (some SubmitStatus.accepted) q l task a e n = absurd (n refl)
admit-Accounts (some SubmitStatus.stopped) q l task a e n = a
admit-Accounts (some SubmitStatus.saturated) q l task a e n = a

admission_refuses :
    (s : ExecutionState) (q : TaskQueue) → admission s q ≢ some SubmitStatus.accepted
admission_refuses ExecutionState.running q e = ground arith
admission_refuses ExecutionState.stopping q e = ground arith
admission_refuses ExecutionState.stopped q e = ground arith

post_ok :
    (q : TaskQueue) (task : ℕ) {status : SubmitStatus} {q' : TaskQueue}
    → post q (some task) ≡ ok (status, q')
    → admit (admission q.state q) q task ≡ (status, q')
unfolding post
post_ok q task e = ground arith

take_task-Accounts :
    (tasks : List ℕ) (q : TaskQueue) (l : Ledger) (task : ℕ)
    → Accounts q l
    → q.tasks ≡ tasks
    → (take_task tasks q).0 ≡ some task
    → l.live + 1 < size_mod
    → Accounts (take_task tasks q).1 (start l task)
take_task-Accounts [] q l task a e h few = ground arith
take_task-Accounts (front ∷ rest) q l task a e h few =
    subst (λ t. Accounts (pop_front q front rest) (start l t)) (ground arith)
      (pop_front-Accounts q l front rest a e few)

take_task-idle :
    (tasks : List ℕ) (q : TaskQueue) (l : Ledger)
    → Accounts q l
    → (take_task tasks q).0 ≡ none
    → Accounts (take_task tasks q).1 l
take_task-idle [] q l a h =
    move_to_stopped-Accounts q l a.0 (Phase-Loose q.state q.tasks l.cancelled l.live a.1)
take_task-idle (front ∷ rest) q l a h = ground arith

abbrev pub IsSound : World → Type 0
IsSound w = Accounts w.queue w.ledger

pub Work-IsSound : {w v : World} → Work w v → IsSound w → IsSound v
unfolding begin_one
Work-IsSound (begin_task w task q e few) a =
    subst (λ q'. Accounts q' (start w.ledger task)) (ap (λ r. r.1) e)
      (take_task-Accounts w.queue.tasks w.queue w.ledger task a refl (ap (λ r. r.0) e) few)
Work-IsSound (find_none w q e) a =
    subst (λ q'. Accounts q' w.ledger) (ap (λ r. r.1) e)
      (take_task-idle w.queue.tasks w.queue w.ledger a (ap (λ r. r.0) e))
Work-IsSound (end_task w h) a = complete-Accounts w.queue w.ledger a h

pub Step-IsSound : {w v : World} → Step w v → IsSound w → IsSound v
Step-IsSound (work k) a = Work-IsSound k a
Step-IsSound (submit w task status q e) a =
    let h = post_ok w.queue task e in
    subst (λ r. Accounts r.1 (note r.0 w.ledger task)) h
      (admit-Accounts (admission w.queue.state w.queue) w.queue w.ledger task a refl
        (admission_refuses w.queue.state w.queue))
Step-IsSound (stop_with w mode) a = stop-Accounts w.queue w.ledger mode a

-- In every state that threads can bring a new executor to, the accepted tasks are, in the order of
-- their posts, those that were started, those that a stop cancelled and those that wait; no more
-- wait than the bound; the counters agree with the history; a stopped executor has nothing left to
-- do, and one that is stopping has.
pub Reach-Accounts :
    (maximum : ℕ) {q : TaskQueue} {w : World}
    → init maximum ≡ ok q
    → Reach Step (first q) w
    → IsSound w
Reach-Accounts maximum e r =
    Reach-keeps IsSound (λ t u. Step-IsSound)
      (subst (λ q. IsSound (first q)) (sym (init_ok maximum e)) (new_queue-Accounts maximum)) r
