-- ===== src/Queue/Settled.antt =====
-- What one step of the worker, TaskQueue.processOne of pkg/task/queue/task_queue.go, leaves behind.
use shell_operator.Base.{
  ℕ, Bool, ◌≡◌, string_key, if◌then◌else◌, List, ◌∷◌, ◌++◌, Option, none, some, true, false,
  nat_key, ◌+◌, ◌↔◌, Bool-cases, refl, arith, inl, inr, All, ◌≢◌,
}
use shell_operator.Task.{Task, task_has_id, failure_count_of, is_processing, change}
use shell_operator.Storage.{success, fail, keep, get_snapshot}
use shell_operator.Storage.Index.{IsIndexed}
use shell_operator.Storage.Order.{process_result-snapshot}
use shell_operator.Queue.State.{Runtime, TaskQueue}
use shell_operator.Queue.Worker.{
  TaskResult, HandlerOutcome, returns, panics, Handler, Processed, before_handler, recover_panic,
  apply_status, apply_delay, run_after_handle, after_handler, process_one,
}

run_after_handle-exits :
    (world : Runtime) (f : Option (TaskQueue → Bool × TaskQueue)) (t : Task) (p : ℕ × TaskQueue)
    → (run_after_handle world f t p).exits ≡ false
unfolding run_after_handle recover_panic
run_after_handle-exits world none t p = refl
run_after_handle-exits world (some f) t p = ground arith

after_handler-exits :
    (world : Runtime) (t : Task) (o : HandlerOutcome) (q : TaskQueue)
    → ((after_handler world t (o, q)).exits ≡ true)
      ↔ ((res : TaskResult) × (o ≡ returns res) × (q.cancelled ≡ true))
unfolding after_handler recover_panic
after_handler-exits world t panics q = (λ h. absurd (cc), λ (r, e, c). absurd (cc))
after_handler-exits world t (returns res) q =
    (λ h. (res, refl, still h), λ (r, e, c). rw (c, after_handler))
  where
    still : (after_handler world t (returns res, q)).exits ≡ true → q.cancelled ≡ true
    still h = elim (Bool-cases q.cancelled) [
      | inl c ↦ c
      | inr c ↦ cc (
        run_after_handle-exits world res.after_handle t
            (apply_delay world res.delay_before_next_task (apply_status world res.status res t q)),
        rw (c, after_handler) at h,
      )
    ]

module _ (world : Runtime) (handler : Handler) (t : Task) (q : TaskQueue) where
  -- The queue as the handler and the other goroutines leave it.
  abbrev pub handled : HandlerOutcome × TaskQueue
  handled = handler t (before_handler world t q)

  abbrev pub processed : Processed
  processed = process_one world handler t q

  -- A task that fails, with a result without AfterHandle and while the queue is not cancelled: the tasks stay as
  -- they are, its failure count grows by one, its processing mark is cleared, the worker goes on, and the delay is the
  -- backoff for the old failure count, unless the result asks for a delay of its own.
  pub process_one-fail :
      (res : TaskResult) (q' : TaskQueue)
      → handled ≡ (returns res, q')
      → q'.cancelled ≡ false
      → res.status ≡ fail
      → res.after_handle ≡ none
      → (processed.queue.storage ≡ q'.storage)
        × (failure_count_of t processed.queue.heap ≡ failure_count_of t q'.heap + 1)
        × (is_processing t processed.queue.heap ≡ false)
        × (processed.exits ≡ false)
        × (processed.sleep_delay ≡ (
            if nat_key.same res.delay_before_next_task 0
            then q'.exponential_backoff (failure_count_of t q'.heap)
            else res.delay_before_next_task))
  unfolding process_one after_handler apply_status apply_delay run_after_handle change
  process_one-fail res q' h c s a = ground arith

  -- A task that succeeds leaves the queue, its after tasks take its place, head tasks come first and tail tasks
  -- last; its mark is cleared and the delay is that of the result. The result has no AfterHandle, the queue is not
  -- cancelled, its index is complete, and no after task has the id of the task.
  pub process_one-success :
      (res : TaskResult) (q' : TaskQueue) (pre post : List Task)
      → handled ≡ (returns res, q')
      → q'.cancelled ≡ false
      → res.status ≡ success
      → res.after_handle ≡ none
      → IsIndexed q'.storage
      → get_snapshot q'.storage ≡ pre ++ t ∷ post
      → All (λ a. a.id ≢ t.id) res.new_tasks.after_tasks
      → (get_snapshot processed.queue.storage
          ≡ (res.new_tasks.head_tasks ++ (pre ++ (res.new_tasks.after_tasks ++ post)))
            ++ res.new_tasks.tail_tasks)
        × (is_processing t processed.queue.heap ≡ false)
        × (processed.exits ≡ false)
        × (processed.sleep_delay ≡ res.delay_before_next_task)
  unfolding process_one after_handler apply_status apply_delay run_after_handle change
  process_one-success res q' pre post h c s a v e apart =
      ground (arith, process_result-snapshot q'.storage pre post t res.new_tasks v e apart)

  -- A task that is kept stays in its place, its after tasks come right behind it, head tasks come
  -- first and tail tasks last; its mark is cleared and the delay is that of the result. The result
  -- has no AfterHandle, the queue is not cancelled, its index is complete, and no after task has
  -- the id of the task.
  pub process_one-keep :
      (res : TaskResult) (q' : TaskQueue) (pre post : List Task)
      → handled ≡ (returns res, q')
      → q'.cancelled ≡ false
      → res.status ≡ keep
      → res.after_handle ≡ none
      → IsIndexed q'.storage
      → get_snapshot q'.storage ≡ pre ++ t ∷ post
      → All (λ a. a.id ≢ t.id) res.new_tasks.after_tasks
      → (get_snapshot processed.queue.storage
          ≡ (res.new_tasks.head_tasks ++ (pre ++ t ∷ (res.new_tasks.after_tasks ++ post)))
            ++ res.new_tasks.tail_tasks)
        × (is_processing t processed.queue.heap ≡ false)
        × (processed.exits ≡ false)
        × (processed.sleep_delay ≡ res.delay_before_next_task)
  unfolding process_one after_handler apply_status apply_delay run_after_handle change
  process_one-keep res q' pre post h c s a v e apart =
      ground (arith, process_result-snapshot q'.storage pre post t res.new_tasks v e apart)

  -- Whatever the handler answers, processOne exits exactly if the handler returned and the context is done.
  pub process_one-exits :
      (processed.exits ≡ true)
      ↔ ((res : TaskResult) × (handled.0 ≡ returns res) × (handled.1.cancelled ≡ true))
  unfolding process_one
  process_one-exits = after_handler-exits world t handled.0 handled.1

  -- When a handler returns a result without AfterHandle, the counter stays as the handler leaves it, although a
  -- success takes the task out of the queue and a result may put new tasks in.
  pub process_one-counter :
      (res : TaskResult) (q' : TaskQueue)
      → handled ≡ (returns res, q')
      → res.after_handle ≡ none
      → processed.queue.tasks_counter ≡ q'.tasks_counter
  unfolding process_one after_handler apply_status apply_delay run_after_handle
  process_one-counter res q' h a = ground arith
