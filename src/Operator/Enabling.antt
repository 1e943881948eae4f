-- ===== src/Operator/Enabling.antt =====
-- taskHandleEnableKubernetesBindings of pkg/shell-operator/operator.go, with the tasks of
-- pkg/shell-operator/hook_task_factory.go and the registry of pkg/shell-operator/task_handler_registry.go.
use shell_operator.Base.{
  insert, ◌+◌, lookup, ℕ, List, Option, Bool, String, false, true, some, none, nat_key, string_key,
  [], ◌∷◌,
}
use shell_operator.Task.{
  Task, TaskState, HookMetadata, Heap, hook, hook_metadata, metadata_of, change,
  on_kubernetes_event, update_failure_message,
}
use shell_operator.Storage.{fail, success}
use shell_operator.Queue.{
  TaskQueue, TaskResult, HandlerOutcome, Handler, returns, panics, with_heap,
}
use shell_operator.Bindings.{
  MonitorCalls, BindingExecutionInfo, OnKubernetesEventConfig, Outcome, World, answers, errs,
  panics, enable_kubernetes_bindings,
}
use shell_operator.Operator.Attempts.{result_of}

abbrev pub hook_run_type : String
hook_run_type = "HookRun"

abbrev pub enable_kubernetes_bindings_type : String
enable_kubernetes_bindings_type = "EnableKubernetesBindings"

-- What the operator finds under the name of a hook; a controller has bindings of Kubernetes or not.
pub data Found : Type 0 where
  no_hook no_controller : Found
  controller : Bool → Found

abbrev pub sync_metadata : String → BindingExecutionInfo → OnKubernetesEventConfig → HookMetadata
sync_metadata name info c = record {
  hook_name = name;
  binding = info.binding;
  group = info.group;
  binding_type = on_kubernetes_event;
  binding_context = info.binding_context;
  allow_failure = info.allow_failure;
  monitor_ids = c.monitor_id ∷ [];
  execute_on_synchronization = c.execute_hook_on_synchronization;
}

-- NewSyncHookRunTask makes a task with a new address and a new id.
abbrev pub sync_task : String → ℕ × String → Task
sync_task name new = record {
  pointer = new.0;
  id = new.1;
  task_type = hook_run_type;
  queue_name = "main";
  compaction_id = name;
}

abbrev pub new_state : HookMetadata → TaskState
new_state m = record {
  failure_count = 0;
  failure_message = "";
  processing = false;
  metadata = hook m;
}

-- `new i` is the address and the id of the new task number `i`. None: an info has no configuration of a
-- monitor, which NewSyncHookRunTask reads.
module _ (name : String) (new : ℕ → ℕ × String) where
  abbrev with_task : Task → Option (List Task × Heap) → Option (List Task × Heap)
  with_task t none = none
  with_task t (some (ts, h)) = some (t ∷ ts, h)

  unfoldable pub create_tasks : ℕ → List BindingExecutionInfo → Heap → Option (List Task × Heap)
  unfolding change
  create_tasks i [] h = some ([], h)
  create_tasks i (info ∷ infos) h = elim info.kubernetes_binding [
    | none ↦ none
    | some c ↦
        let t = sync_task name (new i) in
        with_task t
          (create_tasks (i + 1) infos (change (λ _. new_state (sync_metadata name info c)) t h))
  ]

-- What one call has done. No result: it has panicked.
pub record EnableAttempt (M : Type 0) : Type 0 where
  pub result : Option TaskResult
  pub queue : TaskQueue
  pub world : World M

abbrev pub created_result : List Task → TaskResult
created_result ts = record (result_of success) {
  new_tasks = record { head_tasks = ts; tail_tasks = []; after_tasks = [] };
}

abbrev outcome_of_result : Option TaskResult → HandlerOutcome
outcome_of_result none = HandlerOutcome.panics
outcome_of_result (some r) = returns r

-- `new` is as above, and `message` the text of an error.
module _ {M R : Type 0} (calls : MonitorCalls M R) (new : ℕ → ℕ × String) (message : String) where
  -- HandleEnableKubernetesBindings of the hook's controller.
  unfoldable pub handle_enable_kubernetes_bindings :
      Bool → World M → Outcome (List BindingExecutionInfo) × World M
  handle_enable_kubernetes_bindings true w = enable_kubernetes_bindings calls w
  handle_enable_kubernetes_bindings false w = (answers [], w)

  abbrev after_creation : TaskQueue → World M → Option (List Task × Heap) → EnableAttempt M
  after_creation q w none = record { result = none; queue = q; world = w }
  after_creation q w (some (ts, h)) = record {
    result = some (created_result ts);
    queue = with_heap (λ _. h) q;
    world = w;
  }

  unfoldable pub after_enable :
      String → Task → TaskQueue → Outcome (List BindingExecutionInfo) × World M → EnableAttempt M
  unfolding create_tasks
  after_enable name t q (answers infos, w) =
      after_creation q w (create_tasks name new 0 infos q.heap)
  after_enable name t q (errs, w) = record {
    result = some (result_of fail);
    queue = with_heap (update_failure_message message t) q;
    world = w;
  }
  after_enable name t q (panics, w) = record { result = none; queue = q; world = w }

  abbrev refused : TaskQueue → World M → EnableAttempt M
  refused q w = record { result = some (result_of fail); queue = q; world = w }

  unfoldable pub task_handle_enable_kubernetes_bindings :
      (String → Found) → World M → Task → TaskQueue → EnableAttempt M
  unfolding after_enable handle_enable_kubernetes_bindings
  task_handle_enable_kubernetes_bindings get_hook w t q =
      elim (hook_metadata (metadata_of t q.heap)) [
        | none ↦ refused q w
        | some m ↦ elim (get_hook m.hook_name) [
          | no_hook ↦ refused q w
          | no_controller ↦ refused q w
          | controller has ↦ after_enable m.hook_name t q (handle_enable_kubernetes_bindings has w)
        ]
      ]

  -- The handler as a worker calls it, with the monitors as they are then.
  unfoldable pub enable_kubernetes_bindings_handler : (String → Found) → World M → Handler
  unfolding task_handle_enable_kubernetes_bindings
  enable_kubernetes_bindings_handler get_hook w t q =
      let a = task_handle_enable_kubernetes_bindings get_hook w t q in
      (outcome_of_result a.result, a.queue)

-- The registry of handlers by the types of tasks.
abbrev pub TaskHandlerRegistry : Type 0
TaskHandlerRegistry = List (String × Handler)

abbrev pub register : String → Handler → TaskHandlerRegistry → TaskHandlerRegistry
register type handler r = insert type handler r

-- Handle, and taskHandler of the operator, which fails a task of an unknown type.
unfoldable pub task_handler : TaskHandlerRegistry → Handler
task_handler r t q = elim (lookup t.task_type r) [
  | none ↦ (returns (result_of fail), q)
  | some handler ↦ handler t q
]
