-- ===== src/Operator/StartTests.antt =====
-- Tasks of type EnableKubernetesBindings, pkg/shell-operator/operator.go, in a queue with one more task. The hook has one
-- binding, and a monitor is its kind.
use shell_operator.Base.{
  All, ◌++◌, ◌≡◌, ◌==◌, if◌then◌else◌, ◌+◌, ℕ, String, inl, false, true, some, nat_key, string_key,
  arith, refl, [], ◌∷◌,
}
use shell_operator.Task.{task_has_id, hook, metadata_of, change}
use shell_operator.Storage
use shell_operator.Storage.{get_snapshot, add_last_one}
use shell_operator.Storage.Index.{IsIndexed}
use shell_operator.Queue.{Runtime, TaskQueue, before_handler, process_one}
use shell_operator.Bindings.{MonitorCalls, OnKubernetesEventConfig, World}
use shell_operator.Bindings.Single.{IsLive}
use shell_operator.Combine.Samples.{three-IsIndexed, task, metadata, queue}
use shell_operator.Operator.Enabling.{
  Found, controller, no_hook, task_handle_enable_kubernetes_bindings,
  enable_kubernetes_bindings_handler,
}
use shell_operator.Operator.Synchronized.{
  sync_tasks, HoldSynchronizations, process_one-synchronizes,
}

abbrev kinds_only : MonitorCalls String String
kinds_only = record {
  new_monitor = λ id kind version. some kind;
  start = λ m. m;
  stop = λ m. m;
  enable = λ m. m;
  snapshot = λ m. ([], m);
}

abbrev pods : OnKubernetesEventConfig
pods = record {
  binding_name = "pods";
  allow_failure = false;
  monitor_id = "m1";
  include_snapshots_from = [];
  queue = "main";
  group = "";
  execute_hook_on_synchronization = true;
}

abbrev no_monitors : World String
no_monitors = record {
  monitors = [];
  stopped = [];
  sent = [];
  kinds = ("m1", ("Pod", "v1")) ∷ [];
  bindings = pods ∷ [];
  links = [];
}

abbrev new_names : ℕ → ℕ × String
new_names i = (100 + i, "new")

abbrev one_hook : String → Found
one_hook name = if name == "hook.sh" then controller true else no_hook

abbrev runtime : Runtime
runtime = record {
  range_groups = λ m. m;
  range_contexts = λ m. m;
  left_contexts = λ t cs. cs;
  left_monitor_ids = λ t ids. ids;
  duration_string = λ n. "5s";
}

abbrev marked : TaskQueue
marked = before_handler runtime (task 0 "1") queue

marked_metadata : metadata_of (task 0 "1") marked.heap ≡ hook metadata
unfolding before_handler change
marked_metadata = refl

marked_cancelled : marked.cancelled ≡ false
unfolding before_handler
marked_cancelled = refl

marked-IsIndexed : IsIndexed marked.storage
unfolding before_handler
marked-IsIndexed = three-IsIndexed

marked_snapshot : get_snapshot marked.storage ≡ [] ++ task 0 "1" ∷ task 1 "2" ∷ task 2 "3" ∷ []
unfolding before_handler Storage.add_last add_last_one
marked_snapshot = refl

new_names-distinct : (j k : ℕ) → (new_names j).0 ≡ (new_names k).0 → j ≡ k
new_names-distinct j k h = omega arith

process_one-synchronizes_example :
    let a =
      task_handle_enable_kubernetes_bindings kinds_only new_names "" one_hook no_monitors
        (task 0 "1")
        marked in
    let p =
      process_one runtime
        (enable_kubernetes_bindings_handler kinds_only new_names "" one_hook no_monitors)
        (task 0 "1")
        queue in
    (get_snapshot p.queue.storage
      ≡ sync_tasks "hook.sh" new_names 0 (pods ∷ []) ++ ([] ++ task 1 "2" ∷ task 2 "3" ∷ []))
    × HoldSynchronizations "hook.sh" new_names 0 (pods ∷ []) p.queue.heap
    × (p.exits ≡ false)
    × (p.sleep_delay ≡ 0)
    × All (IsLive kinds_only a.world) (pods ∷ [])
process_one-synchronizes_example =
    process_one-synchronizes kinds_only new_names "" one_hook no_monitors (refl, tt) (inl refl, tt)
      (("Pod", refl), tt) runtime (task 0 "1") queue metadata [] (task 1 "2" ∷ task 2 "3" ∷ [])
      new_names-distinct refl marked_metadata marked_cancelled marked-IsIndexed marked_snapshot
