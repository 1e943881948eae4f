-- ===== src/Combine/Samples.antt =====
-- A queue of three tasks of one hook, for runs of pkg/shell-operator/combine_binding_context.go and of what calls it.
use shell_operator.Base.{none, differ, refl, ℕ, string_key, nat_key, [], ◌∷◌, String, true, false}
use shell_operator.Task.{Task, TaskState, hook, HookMetadata, BindingContext, task_has_id}
use shell_operator.Storage
use shell_operator.Storage.{TaskStorage, new_task_storage}
use shell_operator.Storage.Index.{IsIndexed}
use shell_operator.Storage.Unique.{add_last-IsIndexed}
use shell_operator.Counter.{new_task_counter}
use shell_operator.Queue.{TaskQueue}
use shell_operator.Queue.Status.{new_task_queue_status}

abbrev pub task : ℕ → String → Task
task p name = record {
  pointer = p;
  id = name;
  task_type = "HookRun";
  queue_name = "main";
  compaction_id = "hook.sh";
}

abbrev pub context : String → BindingContext
context group = record {
  version = "v1";
  binding_type = "kubernetes";
  include_snapshots = [];
  group = group;
  binding = "pods";
  event_type = "Event";
  watch_event = none;
  from_version = "";
  to_version = "";
}

abbrev pub metadata : HookMetadata
metadata = record {
  hook_name = "hook.sh";
  binding = "pods";
  group = "pods";
  binding_type = "kubernetes";
  binding_context = context "pods" ∷ [];
  allow_failure = false;
  monitor_ids = "monitor" ∷ [];
  execute_on_synchronization = true;
}

abbrev pub waiting_task : TaskState
waiting_task = record {
  failure_count = 0;
  failure_message = "";
  processing = false;
  metadata = hook metadata;
}

abbrev pub three : TaskStorage Task
three = Storage.add_last (task 0 "1" ∷ task 1 "2" ∷ task 2 "3" ∷ []) new_task_storage

pub three-IsIndexed : IsIndexed three
three-IsIndexed =
    add_last-IsIndexed (task 0 "1" ∷ task 1 "2" ∷ task 2 "3" ∷ []) new_task_storage
      (
        refl,
        (differ "2" "1" refl, (differ "3" "1" refl, tt)),
        (refl, (differ "3" "2" refl, tt), (refl, tt, tt)),
      )
      (record {
        sound = record { distinct = tt; below = tt; indexed = λ id e p. cc };
        complete = λ e l. absurd l;
      })

abbrev pub queue : TaskQueue
queue = record {
  name = "main";
  storage = three;
  tasks_counter = new_task_counter [];
  compactable_types = [];
  status = new_task_queue_status;
  heap = λ p. waiting_task;
  cancelled = false;
  delay_on_repeat = 25;
  exponential_backoff = λ n. n;
  compacted = [];
}
