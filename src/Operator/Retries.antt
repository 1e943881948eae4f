-- ===== src/Operator/Retries.antt =====
-- A hook of pkg/shell-operator/operator.go that fails, in the worker of its queue, pkg/task/queue/task_queue.go.
use shell_operator.Base.{
  ◌∙◌, ◌⊎◌, ◌+◌, String, ◌≡◌, false, true, some, none, string_key, arith, refl, nat_key,
}
use shell_operator.Task.{Task, HookMetadata, hook, metadata_of, failure_count_of, change}
use shell_operator.Storage.{fail}
use shell_operator.Queue.{
  Runtime, TaskQueue, TaskResult, Handler, returns, process_one, before_handler, after_handler,
  apply_status, apply_delay, run_after_handle,
}
use shell_operator.Queue.Settled.{process_one-fail, handled, processed}
use shell_operator.Operator.Attempts.{Operator, task_handle_hook_run, hook_run_handler, result_of}
use shell_operator.Operator.Runs.{task_handle_hook_run-settles}

process_one-fail_metadata :
    (world : Runtime) (handler : Handler) (t : Task) (q : TaskQueue) (res : TaskResult)
    (q' : TaskQueue)
    → handled world handler t q ≡ (returns res, q')
    → q'.cancelled ≡ false
    → res.status ≡ fail
    → res.after_handle ≡ none
    → metadata_of t (processed world handler t q).queue.heap ≡ metadata_of t q'.heap
unfolding process_one after_handler apply_status apply_delay run_after_handle change
process_one-fail_metadata world handler t q res q' h c s a = ground arith

-- If the worker of a queue runs a hook for a task that fails and is not allowed to, the task waits in the queue as
-- taskHandleHookRun has left it, its failure count has grown by one, the worker goes on after the backoff
-- delay, and the task holds the binding contexts with which the hook has run, for the retry.
pub process_one-hook_failed :
    (world : Runtime) (op : Operator) (t : Task) (q : TaskQueue) (m : HookMetadata)
    (version : String)
    → let q' = before_handler world t q in
      let a = task_handle_hook_run op t q' in
      let p = process_one world (hook_run_handler op) t q in
      metadata_of t q'.heap ≡ hook m
      → op.get_hook m.hook_name ≡ some version
      → op.rate_limit_wait m.hook_name ≡ true
      → a.status ≡ some fail
      → a.queue.cancelled ≡ false
      → (p.queue.storage ≡ a.queue.storage)
        × (failure_count_of t p.queue.heap ≡ failure_count_of t a.queue.heap + 1)
        × (p.exits ≡ false)
        × (p.sleep_delay ≡ a.queue.exponential_backoff (failure_count_of t a.queue.heap))
        × ((m' : HookMetadata) × (metadata_of t p.queue.heap ≡ hook m')
            × ((a.ran_with ≡ none) ⊎ (a.ran_with ≡ some m')))
unfolding hook_run_handler
process_one-hook_failed world op t q m version h g r s c =
    let q' = before_handler world t q in
    let a = task_handle_hook_run op t q' in
    let e : handled world (hook_run_handler op) t q ≡ (returns (result_of fail), a.queue) =
      rw (s, hook_run_handler) refl in
    let (st, fc, _, ex, sl) =
      process_one-fail world (hook_run_handler op) t q (result_of fail) a.queue e c refl refl in
    let (m', held, with, _) = task_handle_hook_run-settles op t q' m version fail h g r s in
    (
      st,
      fc,
      ex,
      sl,
      (
        m',
        process_one-fail_metadata world (hook_run_handler op) t q (result_of fail) a.queue e c refl
              refl
            ∙ held,
        with,
      ),
    )
