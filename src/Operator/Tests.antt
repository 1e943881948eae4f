-- ===== src/Operator/Tests.antt =====
-- Runs of the task handlers of pkg/shell-operator/operator.go.
use shell_operator.Combine.{gather_others, other_tasks, combine_binding_context_for_hook}
use shell_operator.Base.{
  Bool, ◌+◌, ◌++◌, ◌⊎◌, String, ◌≡◌, ℕ, false, true, some, none, nat_key, refl, [], ◌∷◌, string_key,
}
use shell_operator.Task.{
  HookMetadata, hook, metadata_of, failure_count_of, is_synchronization, contexts_of,
  monitor_ids_of, change,
}
use shell_operator.Storage
use shell_operator.Storage.{success, fail, add_last_one}
use shell_operator.Contexts.{compact_adjacent}
use shell_operator.Queue.{delete_func, Runtime, TaskQueue, before_handler, process_one}
use shell_operator.Combine.Samples.{waiting_task, context, task, metadata, queue}
use shell_operator.Combine.Ids.{take_while}
use shell_operator.Operator.HookRun.{
  ran, Runner, HookResult, PatchOperation, failed, operations, handle_run_hook, should_run_hook,
  should_combine, prepare,
}
use shell_operator.Operator.Attempts.{
  Operator, task_handle_hook_run, hook_run_handler, handle_hook, run_prepared,
}
use shell_operator.Operator.Runs.{
  IsUnlocked, IsRefused, handle_run_hook-failed, task_handle_hook_run-settles,
  task_handle_hook_run-contexts,
}
use shell_operator.Operator.Retries.{process_one-hook_failed}

abbrev patch : ℕ → String → Bool → PatchOperation
patch n s b = record { number = n; is_patch = true; subresource = s; ignore_hook_error = b }

abbrev left_behind : HookResult
left_behind = record {
  kubernetes_patch_bytes = "patches";
  metrics = "";
  admission_response = none;
  conversion_response = none;
}

-- The hook fails, and leaves two patches.
abbrev failing : Runner
failing = record {
  run = λ m. failed (some left_behind) "exit 1";
  parse_operations = λ s. operations (patch 1 "/status" true ∷ patch 2 "" false ∷ []);
  execute_operations = λ ops. none;
  apply_metrics = λ s. none;
}

abbrev operator : Operator
operator = record { runner = failing; get_hook = λ name. some "v1"; rate_limit_wait = λ name. true }

handle_run_hook-failed_example : IsRefused (handle_run_hook failing metadata)
handle_run_hook-failed_example =
    handle_run_hook-failed failing metadata (some left_behind) "exit 1" refl

status_patch_only : (handle_run_hook failing metadata).executed ≡ patch 1 "/status" true ∷ []
unfolding handle_run_hook
status_patch_only = refl

abbrev synchronization : HookMetadata
synchronization = record metadata {
  binding_context = record (context "pods") { event_type = "Synchronization" } ∷ [];
}

-- The queue, with the metadata of a Synchronization in every task.
abbrev synchronizing : TaskQueue
synchronizing = record queue { heap = λ p. record waiting_task { metadata = hook synchronization } }

abbrev no_output : HookResult
no_output = record {
  kubernetes_patch_bytes = "";
  metrics = "";
  admission_response = none;
  conversion_response = none;
}

abbrev succeeding : Operator
succeeding = record operator { runner = record failing { run = λ m. ran no_output } }

succeeding_attempt :
    let a = task_handle_hook_run succeeding (task 0 "1") synchronizing in
    (a.status ≡ some success) × (a.unlocked ≡ "monitor" ∷ "monitor" ∷ "monitor" ∷ [])
unfolding task_handle_hook_run handle_hook run_prepared should_run_hook is_synchronization prepare
    combine_binding_context_for_hook other_tasks Storage.add_last add_last_one handle_run_hook
    gather_others
succeeding_attempt = (refl, refl)

task_handle_hook_run-settles_example :
    let a = task_handle_hook_run succeeding (task 0 "1") synchronizing in
    (m' : HookMetadata) × (metadata_of (task 0 "1") a.queue.heap ≡ hook m')
    × ((a.ran_with ≡ none) ⊎ (a.ran_with ≡ some m'))
    × IsUnlocked (is_synchronization synchronization) success m'.monitor_ids a.unlocked
task_handle_hook_run-settles_example =
    task_handle_hook_run-settles succeeding (task 0 "1") synchronizing synchronization "v1" success
      refl refl refl succeeding_attempt.0

task_handle_hook_run-contexts_example :
    (task_handle_hook_run operator (task 0 "1") queue).ran_with
    ≡ some (record metadata {
      binding_context =
          compact_adjacent
            (metadata.binding_context ++ contexts_of queue.heap (task 1 "2" ∷ task 2 "3" ∷ []));
      monitor_ids =
          metadata.monitor_ids ++ monitor_ids_of queue.heap (task 1 "2" ∷ task 2 "3" ∷ []);
    })
unfolding take_while should_run_hook should_combine Storage.add_last add_last_one is_synchronization
task_handle_hook_run-contexts_example =
    task_handle_hook_run-contexts operator (task 0 "1") queue metadata (task 1 "2")
      (task 2 "3" ∷ []) refl refl refl refl refl refl

abbrev world : Runtime
world = record {
  range_groups = λ m. m;
  range_contexts = λ m. m;
  left_contexts = λ t cs. cs;
  left_monitor_ids = λ t ids. ids;
  duration_string = λ n. "5s";
}

abbrev marked : TaskQueue
marked = before_handler world (task 0 "1") queue

marked_metadata : metadata_of (task 0 "1") marked.heap ≡ hook metadata
unfolding before_handler change
marked_metadata = refl

marked_status : (task_handle_hook_run operator (task 0 "1") marked).status ≡ some fail
unfolding task_handle_hook_run handle_hook run_prepared before_handler change should_run_hook
    is_synchronization prepare combine_binding_context_for_hook other_tasks Storage.add_last
    add_last_one handle_run_hook
marked_status = refl

marked_cancelled : (task_handle_hook_run operator (task 0 "1") marked).queue.cancelled ≡ false
unfolding task_handle_hook_run handle_hook run_prepared before_handler change should_run_hook
    is_synchronization prepare combine_binding_context_for_hook other_tasks Storage.add_last
    add_last_one handle_run_hook delete_func
marked_cancelled = refl

process_one-hook_failed_example :
    let a = task_handle_hook_run operator (task 0 "1") marked in
    let p = process_one world (hook_run_handler operator) (task 0 "1") queue in
    (p.queue.storage ≡ a.queue.storage)
    × (failure_count_of (task 0 "1") p.queue.heap ≡ failure_count_of (task 0 "1") a.queue.heap + 1)
    × (p.exits ≡ false)
    × (p.sleep_delay ≡ a.queue.exponential_backoff (failure_count_of (task 0 "1") a.queue.heap))
    × ((m' : HookMetadata) × (metadata_of (task 0 "1") p.queue.heap ≡ hook m')
        × ((a.ran_with ≡ none) ⊎ (a.ran_with ≡ some m')))
process_one-hook_failed_example =
    process_one-hook_failed world operator (task 0 "1") queue metadata "v1" marked_metadata refl
      refl marked_status marked_cancelled
