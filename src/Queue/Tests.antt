-- ===== src/Queue/Tests.antt =====
-- Steps of a worker of pkg/task/queue/task_queue.go at a concrete queue.
use mathlib.Core.List.Permᴰ
use shell_operator.Base.{
  ℕ, ◌≡◌, string_key, nat_key, [], ◌∷◌, none, String, true, false, refl, ◌+◌, insert, differ,
}
use shell_operator.LinkedList.Sequence.{push_back}
use shell_operator.Task.{
  BindingContext, Task, TaskState, no_metadata, HookMetadata, hook, task_has_id, is_processing,
}
use shell_operator.Storage
use shell_operator.Storage.{
  TaskStorage, NewTasks, TaskStatus, success, get_snapshot, new_task_storage, add_last_one,
}
use shell_operator.Storage.Index.{IsIndexed}
use shell_operator.Storage.Unique.{add_last-IsIndexed}
use shell_operator.Counter.{NameSet, new_task_counter}
use shell_operator.Queue.Status.{new_task_queue_status}
use shell_operator.Queue.State.{Runtime, TaskQueue}
use shell_operator.Queue.Worker.{TaskResult, returns, panics, Handler, before_handler}
use shell_operator.Queue.Merge.{mergeable, compaction}
use shell_operator.Queue.Groups.{first_of_hooks}
use shell_operator.Queue.Compacted.{compaction-snapshot}
use shell_operator.Queue.Settled.{handled, processed, process_one-success}

abbrev world : Runtime
world = record {
  range_groups = λ m. m;
  range_contexts = λ m. m;
  left_contexts = λ t cs. [];
  left_monitor_ids = λ t ids. ids;
  duration_string = λ n. "5s";
}

abbrev task : ℕ → String → Task
task p name = record {
  pointer = p;
  id = name;
  task_type = "HookRun";
  queue_name = "main";
  compaction_id = "hook.sh";
}

abbrev idle_task : TaskState
idle_task = record {
  failure_count = 2;
  failure_message = "";
  processing = false;
  metadata = no_metadata;
}

abbrev hook_run : NameSet
hook_run = ("HookRun", tt) ∷ []

abbrev two : TaskStorage Task
two = Storage.add_last (task 0 "1" ∷ task 1 "2" ∷ []) new_task_storage

two-IsIndexed : IsIndexed two
two-IsIndexed =
    add_last-IsIndexed (task 0 "1" ∷ task 1 "2" ∷ []) new_task_storage
      (refl, (differ "2" "1" refl, tt), (refl, tt, tt))
      (record {
        sound = record { distinct = tt; below = tt; indexed = λ id e p. cc };
        complete = λ e l. absurd l;
      })

abbrev queue : TaskQueue
queue = record {
  name = "main";
  storage = two;
  tasks_counter = new_task_counter hook_run;
  compactable_types = hook_run;
  status = new_task_queue_status;
  heap = λ p. idle_task;
  cancelled = false;
  delay_on_repeat = 25;
  exponential_backoff = λ n. 5 + n;
  compacted = [];
}

abbrev added : NewTasks Task
added = record { head_tasks = task 2 "3" ∷ []; tail_tasks = []; after_tasks = task 3 "4" ∷ [] }

abbrev result : TaskStatus → TaskResult
result status = record {
  status = status;
  new_tasks = added;
  delay_before_next_task = 0;
  after_handle = none;
}

abbrev answers : TaskStatus → Handler
answers status t q = (returns (result status), q)

abbrev breaks : Handler
breaks t q = (panics, q)

abbrev seen : TaskQueue
seen = (handled world breaks (task 0 "1") queue).1

process_one-success_example :
    (get_snapshot (processed world (answers success) (task 0 "1") queue).queue.storage
      ≡ task 2 "3" ∷ task 3 "4" ∷ task 1 "2" ∷ [])
    × (is_processing (task 0 "1") (processed world (answers success) (task 0 "1") queue).queue.heap
        ≡ false)
    × ((processed world (answers success) (task 0 "1") queue).exits ≡ false)
    × ((processed world (answers success) (task 0 "1") queue).sleep_delay ≡ 0)
unfolding before_handler Storage.add_last add_last_one
process_one-success_example =
    process_one-success world (answers success) (task 0 "1") queue (result success) seen []
      (task 1 "2" ∷ []) refl refl refl refl two-IsIndexed refl (differ "4" "1" refl, tt)

abbrev pods_context : BindingContext
pods_context = record {
  version = "v1";
  binding_type = "kubernetes";
  include_snapshots = [];
  group = "pods";
  binding = "pods";
  event_type = "Event";
  watch_event = none;
  from_version = "";
  to_version = "";
}

abbrev metadata_for : String → HookMetadata
metadata_for name = record {
  hook_name = name;
  binding = "pods";
  group = "";
  binding_type = "kubernetes";
  binding_context = pods_context ∷ [];
  allow_failure = false;
  monitor_ids = name ∷ [];
  execute_on_synchronization = true;
}

-- Every task of this queue runs the hook `hook.sh`.
abbrev hooks_queue : TaskQueue
hooks_queue = record queue {
  heap = λ p. record {
    failure_count = 0;
    failure_message = "";
    processing = false;
    metadata = hook (metadata_for "hook.sh");
  };
}

compaction-snapshot_example :
    get_snapshot (compaction world [] hooks_queue).storage ≡ task 0 "1" ∷ []
unfolding first_of_hooks mergeable Storage.add_last add_last_one push_back insert
compaction-snapshot_example =
    compaction-snapshot world [] hooks_queue (λ m. Permᴰ.refl m) two-IsIndexed.sound
