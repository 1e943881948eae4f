-- ===== src/QueueSet/Tests.antt =====
-- pkg/task/queue/queue_set.go at a concrete set.
use mathlib.Core.Option
use shell_operator.Base.{
  insert, some, nat_key, refl, false, ◌≡◌, string_key, List, [], ◌∷◌, String, ℕ,
}
use shell_operator.Task.{Task, no_metadata}
use shell_operator.Storage
use shell_operator.Storage.{add_last_one, get_snapshot, new_task_storage}
use shell_operator.Counter.{new_task_counter}
use shell_operator.Queue
use shell_operator.Queue.{Runtime, TaskQueue}
use shell_operator.Queue.Status.{new_task_queue_status}
use shell_operator.QueueSet.{
  TaskQueueSet, new_task_queue_set, add_queue, get_by_name, add_tail_tasks,
}

abbrev world : Runtime
world = record {
  range_groups = λ m. m;
  range_contexts = λ m. m;
  left_contexts = λ t cs. cs;
  left_monitor_ids = λ t ids. ids;
  duration_string = λ n. "";
}

abbrev task : ℕ → String → String → Task
task p id queue = record {
  pointer = p;
  id = id;
  task_type = "HookRun";
  queue_name = queue;
  compaction_id = "";
}

abbrev empty_queue : String → TaskQueue
empty_queue name = record {
  name = name;
  storage = new_task_storage;
  tasks_counter = new_task_counter [];
  compactable_types = [];
  status = new_task_queue_status;
  heap = λ p. record {
    failure_count = 0;
    failure_message = "";
    processing = false;
    metadata = no_metadata;
  };
  cancelled = false;
  delay_on_repeat = 25;
  exponential_backoff = λ n. n;
  compacted = [];
}

abbrev two_queues : TaskQueueSet
two_queues = add_queue (empty_queue "other") (add_queue (empty_queue "main") new_task_queue_set)

abbrev tasks : List Task
tasks = task 0 "1" "main" ∷ task 1 "2" "other" ∷ task 2 "3" "main" ∷ task 3 "4" "nowhere" ∷ []

main_tasks :
    Option.map
      (λ q. get_snapshot q.storage)
      (get_by_name "main" (add_tail_tasks world tasks two_queues))
    ≡ some (task 0 "1" "main" ∷ task 2 "3" "main" ∷ [])
unfolding add_tail_tasks add_queue insert Storage.add_last Queue.add_last add_last_one
main_tasks = refl
