-- ===== src/Events/Tests.antt =====
-- Events that become tasks, pkg/shell-operator/manager_events_handler.go. A monitor is its kind, and the cron library counts jobs.
use shell_operator.Base.{
  delete, insert, ◌+◌, ◌≡◌, map, List, ℕ, String, false, true, some, none, nat_key, string_key,
  arith, refl, [], ◌∷◌,
}
use mathlib.Core.Option
use shell_operator.Task.{Task, Heap}
use shell_operator.Schedule.{CronLibrary}
use shell_operator.Queue.{Runtime, with_heap}
use shell_operator.QueueSet.{TaskQueueSet, new_task_queue_set, add_queue, get_by_name}
use shell_operator.QueueSet.Tails.{added_to}
use shell_operator.Bindings.{MonitorCalls, OnKubernetesEventConfig, World, added_event}
use shell_operator.Combine.Samples.{queue}
use shell_operator.Schedule.Links.{
  disable_schedules, enable_schedules, ScheduleConfig, ScheduleController, enable_schedule_bindings,
  disable_schedule_bindings,
}
use shell_operator.Events.{
  named_infos, created, LinkedHook, kube_event, schedule_event, create_tasks_from_event,
  store_states, handle_one_event,
}
use shell_operator.Events.Dispatched.{AreFor, handle_one_event-queues}

abbrev kinds_only : MonitorCalls String String
kinds_only = record {
  new_monitor = λ id kind version. some kind;
  start = λ m. m;
  stop = λ m. m;
  enable = λ m. m;
  snapshot = λ m. ([], m);
}

abbrev pods : String → OnKubernetesEventConfig
pods name = record {
  binding_name = "pods";
  allow_failure = false;
  monitor_id = "m1";
  include_snapshots_from = [];
  queue = name;
  group = "";
  execute_hook_on_synchronization = true;
}

abbrev linked_world : OnKubernetesEventConfig → World String
linked_world c = record {
  monitors = (c.monitor_id, "Pod") ∷ [];
  stopped = [];
  sent = [];
  kinds = [];
  bindings = c ∷ [];
  links = (c.monitor_id, c) ∷ [];
}

abbrev hourly : ScheduleConfig
hourly = record {
  binding_name = "hourly";
  schedule_entry = record { crontab = "0 * * * *"; id = "e1" };
  include_snapshots_from = [];
  allow_failure = true;
  queue = "main";
  group = "";
}

abbrev counting : CronLibrary ℕ
counting = record { add_func = λ tab n. (some (n + 1), n + 1); remove_job = λ id n. n }

abbrev no_schedules : ScheduleController ℕ
no_schedules = record {
  schedule_links = [];
  schedule_bindings = hourly ∷ [];
  schedule_manager = record { cron = 0; entries = [] };
}

abbrev hooks : ScheduleController ℕ → List (LinkedHook String)
hooks s =
    record { hook_name = "a.sh"; kubernetes = some (linked_world (pods "main")); schedules = none }
    ∷ record {
      hook_name = "b.sh";
      kubernetes = some (linked_world (pods "other"));
      schedules = some s.schedule_links;
    }
    ∷ []

abbrev runtime : Runtime
runtime = record {
  range_groups = λ m. m;
  range_contexts = λ m. m;
  left_contexts = λ t cs. cs;
  left_monitor_ids = λ t ids. ids;
  duration_string = λ n. "5s";
}

abbrev new_names : ℕ → ℕ × String
new_names i = (100 + i, "new")

new_names-distinct : (j k : ℕ) → (new_names j).0 ≡ (new_names k).0 → j ≡ k
new_names-distinct j k h = omega arith

abbrev one_queue : TaskQueueSet
one_queue = add_queue queue new_task_queue_set

handle_one_event-queues_example :
    let hs = hooks no_schedules in
    let stored =
      store_states kinds_only
        (λ m. m)
        new_names
        (create_tasks_from_event kinds_only
          (λ m. m)
          new_names
          (kube_event (added_event "m1"))
          hs) in
    (ts : List Task) × (get_by_name "main" (
        handle_one_event kinds_only
          (λ m. m)
          new_names
          runtime
          hs
          (kube_event (added_event "m1"))
          one_queue)
      ≡ added_to runtime ts (Option.map (with_heap stored) (get_by_name "main" one_queue)))
    × ((h : Heap) → AreFor (added_event "m1") (("a.sh", pods "main") ∷ []) ts (stored h))
handle_one_event-queues_example =
    handle_one_event-queues kinds_only (λ m. m) new_names runtime (hooks no_schedules)
      (added_event "m1") one_queue "main" new_names-distinct

-- A schedule event finds the hook while its bindings are enabled.
enabled_hooks :
    map
      (λ t. t.1.hook_name)
      (create_tasks_from_event kinds_only
        (λ m. m)
        new_names
        (schedule_event "0 * * * *")
        (hooks (enable_schedule_bindings counting no_schedules)))
    ≡ "b.sh" ∷ []
unfolding created named_infos enable_schedules insert
enabled_hooks = refl

disabled_hooks :
    create_tasks_from_event kinds_only
      (λ m. m)
      new_names
      (schedule_event "0 * * * *")
      (hooks (disable_schedule_bindings counting (enable_schedule_bindings counting no_schedules)))
    ≡ []
unfolding created named_infos disable_schedules enable_schedules delete insert
disabled_hooks = refl
