-- ===== src/Operator/Attempts.antt =====
-- taskHandleHookRun of pkg/shell-operator/operator.go, as a whole.
use shell_operator.Base.{
  List, if◌then◌else◌, Bool, Option, String, true, some, none, nat_key, [], string_key,
}
use shell_operator.Task.{
  Task, HookMetadata, hook_metadata, metadata_of, is_synchronization, update_failure_message,
}
use shell_operator.Storage.{TaskStatus, success, fail, repeat}
use shell_operator.Queue.{
  TaskQueue, with_heap, TaskResult, HandlerOutcome, Handler, returns, panics,
}
use shell_operator.Operator.HookRun.{Runner, HookHandled, handle_run_hook, should_run_hook, prepare}

-- A hook is seen by the version of its configuration. `rate_limit_wait` tells whether RateLimitWait ends well.
pub record Operator : Type 0 where
  pub runner : Runner
  pub get_hook : String → Option String
  pub rate_limit_wait : String → Bool

-- What one call has done. No status: it has panicked. `ran_with` is the metadata of the run of the hook, if
-- it was run, and `unlocked` the monitors given to UnlockKubernetesEventsFor.
pub record Attempt : Type 0 where
  pub status : Option TaskStatus
  pub queue : TaskQueue
  pub ran_with : Option HookMetadata
  pub handled : Option HookHandled
  pub unlocked : List String

abbrev pub answers_only : Option TaskStatus → TaskQueue → Attempt
answers_only s q = record { status = s; queue = q; ran_with = none; handled = none; unlocked = [] }

-- `isSynchronization && res.Status == queue.Success`
abbrev pub to_unlock : Bool → TaskStatus → HookMetadata → List String
to_unlock true success m = m.monitor_ids
to_unlock _ _ m = []

abbrev pub status_after : Option String → HookMetadata → TaskStatus
status_after none m = success
status_after (some msg) m = if m.allow_failure then success else fail

abbrev pub note_failure : Option String → HookMetadata → Task → TaskQueue → TaskQueue
note_failure none m t q = q
note_failure (some msg) m t q =
    if m.allow_failure then q else with_heap (update_failure_message msg t) q

-- The run of the hook, with the metadata after the combination.
unfoldable pub run_prepared :
    Operator → Bool → Task → Option (HookMetadata × TaskQueue) → TaskQueue → Attempt
run_prepared op sync t none q = answers_only none q
run_prepared op sync t (some (m, q)) _ =
    let h = handle_run_hook op.runner m in
    let s = status_after h.error m in
    record {
      status = some s;
      queue = note_failure h.error m t q;
      ran_with = some m;
      handled = some h;
      unlocked = to_unlock sync s m;
    }

unfoldable pub handle_hook : Operator → String → HookMetadata → Task → TaskQueue → Attempt
unfolding run_prepared
handle_hook op version m t q =
    if should_run_hook version m
    then run_prepared op (is_synchronization m) t (prepare version m t q) q
    else record (answers_only (some success) q) {
      unlocked = to_unlock (is_synchronization m) success m;
    }

unfoldable pub task_handle_hook_run : Operator → Task → TaskQueue → Attempt
task_handle_hook_run op t q = elim (hook_metadata (metadata_of t q.heap)) [
  | none ↦ answers_only (some fail) q
  | some m ↦ elim (op.get_hook m.hook_name) [
    | none ↦ answers_only (some fail) q
    | some version ↦
        if op.rate_limit_wait m.hook_name
        then handle_hook op version m t q
        else answers_only (some repeat) q
  ]
]

-- The handler that the registry finds for tasks of type HookRun, as the worker of a queue calls it.
abbrev pub result_of : TaskStatus → TaskResult
result_of s = record {
  status = s;
  new_tasks = record { head_tasks = []; tail_tasks = []; after_tasks = [] };
  delay_before_next_task = 0;
  after_handle = none;
}

abbrev outcome_of : Option TaskStatus → HandlerOutcome
outcome_of none = panics
outcome_of (some s) = returns (result_of s)

unfoldable pub hook_run_handler : Operator → Handler
hook_run_handler op t q = let a = task_handle_hook_run op t q in (outcome_of a.status, a.queue)
