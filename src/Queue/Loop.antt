-- ===== src/Queue/Loop.antt =====
-- The loop of TaskQueue.Start of pkg/task/queue/task_queue.go, which joins waitForTask and processOne. Panics are those
-- that processOne recovers from.
use shell_operator.Base.{
  if◌then◌else◌, List, Option, ℕ, Bool, some, none, nat_key, string_key, [], ◌∷◌,
}
use shell_operator.Task.{Task}
use shell_operator.Queue.Status.{TaskQueueStatus, idle, stop, status_set}
use shell_operator.Queue.State.{Runtime, TaskQueue, with_status}
use shell_operator.Queue.Worker.{Handler, Processed, process_one}
use shell_operator.Queue.Waiting.{Durations, Wait, WaitEvent, Waited, answers, waits, wait_for_task}

-- What one turn meets: the context, what Length and GetFirst answer when the wait begins, the events of the wait, what
-- others do to the queue until it ends, and the handler with what others do while it runs.
pub record Round : Type 0 where
  pub context_done : Bool
  pub first_length : ℕ
  pub first_head : Option Task
  pub events : List WaitEvent
  pub meanwhile : TaskQueue → TaskQueue
  pub handler : Handler

-- How a turn ends: the worker stops since it has got no task, it exits, it has run a task and goes on after a
-- delay, or it still waits.
pub data Turn : Type 0 where
  stops exits : TaskQueue → Turn
  goes_on : Task → ℕ → TaskQueue → Turn
  waits_on : TaskQueue → Turn

abbrev pub turn_of : Task → Processed → Turn
turn_of t p = if p.exits then exits p.queue else goes_on t p.sleep_delay p.queue

-- The end of the wait, with the status that it leaves.
unfoldable pub after_wait : Runtime → Handler → TaskQueue → Waited × TaskQueueStatus → Turn
unfolding process_one
after_wait world handler q (answers none, s) = stops (with_status (λ _. status_set stop s) q)
after_wait world handler q (answers (some t), s) =
    turn_of t (process_one world handler t (with_status (λ _. s) q))
after_wait world handler q (waits n s, _) = waits_on (with_status (λ _. s) q)

module _ (world : Runtime) (durations : Durations) (delay_on_empty : ℕ) where
  abbrev pub wait_of : ℕ → TaskQueue → Wait
  wait_of delay q = record { on_empty = delay_on_empty; sleep_delay = delay; original = q.status }

  unfoldable pub turn : Round → ℕ → TaskQueue → Turn
  unfolding after_wait wait_for_task
  turn r delay q = after_wait world r.handler (r.meanwhile q) (
      wait_for_task durations (wait_of delay q) r.context_done r.first_length r.first_head r.events)

  abbrev with_run : Task → List Task × Turn → List Task × Turn
  with_run t (ts, end) = (t ∷ ts, end)

  -- The tasks that were run, and the last turn; after the last round the next wait begins.
  unfoldable pub work : List Round → ℕ → TaskQueue → List Task × Turn
  unfolding turn
  work [] delay q = ([], waits_on q)
  work (r ∷ rs) delay q = elim (turn r delay q) [
    | stops q' ↦ ([], stops q')
    | exits q' ↦ ([], exits q')
    | waits_on q' ↦ ([], waits_on q')
    | goes_on t delay' q' ↦ with_run t (work rs delay' q')
  ]

  -- The goroutine of Start: the queue is idle, and the first wait asks for no delay.
  unfoldable pub start : List Round → TaskQueue → List Task × Turn
  unfolding work
  start rounds q = work rounds 0 (with_status (status_set idle) q)
