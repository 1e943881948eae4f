-- ===== src/Queue/Worker.antt =====
-- TaskQueue.processOne of pkg/task/queue/task_queue.go, and the result of pkg/task/queue/task_result.go.
use Prim.Native.String.{◌++◌ as append}
use shell_operator.Base.{
  ℕ, Bool, string_key, if◌then◌else◌, Option, none, some, true, false, nat_key,
}
use shell_operator.Task.{
  Task, task_has_id, set_processing, increment_failure_count, failure_count_of,
}
use shell_operator.Storage
use shell_operator.Storage.{TaskStatus, success, fail, repeat, keep, other, NewTasks}
use shell_operator.Counter.{is_any_cap_reached, get_reached_cap}
use shell_operator.Queue.Status.{idle, running_task, stop, repeat_task, status_set, status_set_text}
use shell_operator.Queue.State.{Runtime, TaskQueue, with_heap, with_status, with_storage}
use shell_operator.Queue.Merge.{compaction}

-- `after_handle` may change the queue; it answers whether it ended without a panic.
pub record TaskResult : Type 0 where
  pub status : TaskStatus
  pub new_tasks : NewTasks Task
  pub delay_before_next_task : ℕ
  pub after_handle : Option (TaskQueue → Bool × TaskQueue)

pub data HandlerOutcome : Type 0 where
  returns : TaskResult → HandlerOutcome
  panics : HandlerOutcome

-- A handler, together with all that other goroutines do to the queue while it runs.
abbrev pub Handler : Type 0
Handler = Task → TaskQueue → HandlerOutcome × TaskQueue

-- What processOne answers: the delay before the next task, and whether the worker exits.
pub record Processed : Type 0 where
  pub sleep_delay : ℕ
  pub exits : Bool
  pub queue : TaskQueue

-- The compaction before the handler runs.
unfoldable pub compact_before : Runtime → TaskQueue → TaskQueue
compact_before world q =
    if is_any_cap_reached q.tasks_counter
    then compaction world (get_reached_cap q.tasks_counter) q
    else q

-- The handler's queue state: the task is marked, and the status says so.
unfoldable pub before_handler : Runtime → Task → TaskQueue → TaskQueue
unfolding compact_before
before_handler world t q =
    with_status (status_set running_task)
      (with_heap (set_processing true t) (compact_before world q))

-- The deferred recover.
unfoldable pub recover_panic : Runtime → Task → TaskQueue → Processed
recover_panic world t q =
    let q' = with_heap (increment_failure_count t) (with_heap (set_processing false t) q) in
    let delay = q.exponential_backoff (failure_count_of t q'.heap) in
    record {
      sleep_delay = delay;
      exits = false;
      queue =
          with_status
            (status_set_text (append "sleep after panic for " (world.duration_string delay))) q';
    }

-- The switch over the status of the result. The failure count is read before it grows.
unfoldable pub apply_status : Runtime → TaskStatus → TaskResult → Task → TaskQueue → ℕ × TaskQueue
apply_status world success res t q = (
  0,
  with_status (status_set idle) (
      with_heap (set_processing false t)
        (with_storage (Storage.process_result success res.new_tasks t) q)),
)
apply_status world keep res t q = (
  0,
  with_status (status_set idle) (
      with_heap (set_processing false t)
        (with_storage (Storage.process_result keep res.new_tasks t) q)),
)
apply_status world fail res t q =
    let delay = q.exponential_backoff (failure_count_of t q.heap) in
    (
      delay,
      with_status (status_set_text (append "sleep after fail for " (world.duration_string delay)))
          (with_heap (increment_failure_count t) (with_heap (set_processing false t) q)),
    )
apply_status world repeat res t q =
    (q.delay_on_repeat, with_status (status_set repeat_task) (with_heap (set_processing false t) q))
apply_status world (other s) res t q = (0, q)

-- A delay that the result asks for replaces the one chosen before.
unfoldable pub apply_delay : Runtime → ℕ → ℕ × TaskQueue → ℕ × TaskQueue
apply_delay world d (delay, q) =
    if nat_key.same d 0
    then (delay, q)
    else (d, with_status (status_set_text (append "sleep for " (world.duration_string d))) q)

unfoldable pub run_after_handle :
    Runtime → Option (TaskQueue → Bool × TaskQueue) → Task → ℕ × TaskQueue → Processed
unfolding recover_panic
run_after_handle world none t (delay, q) = record { sleep_delay = delay; exits = false; queue = q }
run_after_handle world (some f) t (delay, q) =
    let (ended, q') = f q in
    if ended
    then record { sleep_delay = delay; exits = false; queue = q' }
    else recover_panic world t q'

unfoldable pub after_handler : Runtime → Task → HandlerOutcome × TaskQueue → Processed
unfolding recover_panic apply_status apply_delay run_after_handle
after_handler world t (panics, q) = recover_panic world t q
after_handler world t (returns res, q) =
    if q.cancelled
    then record { sleep_delay = 0; exits = true; queue = with_status (status_set stop) q }
    else run_after_handle world res.after_handle t
        (apply_delay world res.delay_before_next_task (apply_status world res.status res t q))

unfoldable pub process_one : Runtime → Handler → Task → TaskQueue → Processed
unfolding before_handler after_handler
process_one world handler t q = after_handler world t (handler t (before_handler world t q))
