-- ===== src/Events.antt =====
-- How an event becomes tasks: the callbacks that pkg/shell-operator/operator.go gives to pkg/shell-operator/manager_events_handler.go,
-- over pkg/hook/hook_manager.go, pkg/hook/controller/schedule_bindings_controller.go and hook_task_factory.go.
pub mod Dispatched
mod Tests
use shell_operator.Base.{
  ◌++◌, ◌+◌, if◌then◌else◌, Option, map, ℕ, List, String, false, some, none, nat_key, string_key,
  arith, [], ◌∷◌,
}
use shell_operator.Task.{Task, HookMetadata, Heap, on_kubernetes_event, change}
use shell_operator.Schedule.Links.{LinkOrder, ScheduleLink, can_handle_crontab, handle_crontab}
use shell_operator.Queue.{Runtime, with_heap}
use shell_operator.QueueSet.{TaskQueueSet, add_tail_tasks}
use shell_operator.Bindings.{
  MonitorCalls, World, EventNotice, BindingExecutionInfo, can_handle_event, handle_event,
}
use shell_operator.Snapshots.{type_schedule}
use shell_operator.Operator.Enabling.{hook_run_type, new_state}

-- A hook as events find it. A controller is none where Go has nil.
pub record LinkedHook (M : Type 0) : Type 0 where
  pub hook_name : String
  pub kubernetes : Option (World M)
  pub schedules : Option (List (String × ScheduleLink))

pub data Event : Type 0 where
  kube_event : EventNotice → Event
  schedule_event : String → Event

abbrev pub binding_type_of : Event → String
binding_type_of (kube_event ev) = on_kubernetes_event
binding_type_of (schedule_event crontab) = type_schedule

-- NewHookRunTask, for a new address and a new id.
abbrev pub hook_run_task : ℕ × String → String → BindingExecutionInfo → Task
hook_run_task new name info = record {
  pointer = new.0;
  id = new.1;
  task_type = hook_run_type;
  queue_name = info.queue_name;
  compaction_id = name;
}

abbrev pub hook_run_metadata : String → String → BindingExecutionInfo → HookMetadata
hook_run_metadata type name info = record {
  hook_name = name;
  binding = info.binding;
  group = info.group;
  binding_type = type;
  binding_context = info.binding_context;
  allow_failure = info.allow_failure;
  monitor_ids = [];
  execute_on_synchronization = false;
}

module _ {M R : Type 0} (calls : MonitorCalls M R) (range_links : LinkOrder) where
  -- What one hook is to run for an event of Kubernetes: CanHandleKubeEvent, and HandleKubeEventWithFormTask.
  abbrev pub kube_infos : EventNotice → Option (World M) → List BindingExecutionInfo
  kube_infos ev none = []
  kube_infos ev (some w) = if can_handle_event calls ev w then handle_event calls ev w ∷ [] else []

  -- The same for a schedule event: CanHandleScheduleEvent, and HandleScheduleEventWithFormTasks.
  abbrev pub schedule_infos :
      String → Option (List (String × ScheduleLink)) → List BindingExecutionInfo
  schedule_infos crontab none = []
  schedule_infos crontab (some links) =
      if can_handle_crontab crontab links then handle_crontab range_links crontab links else []

  unfoldable pub infos_of : Event → LinkedHook M → List BindingExecutionInfo
  unfolding handle_crontab
  infos_of (kube_event ev) h = kube_infos ev h.kubernetes
  infos_of (schedule_event crontab) h = schedule_infos crontab h.schedules

  -- The hooks in order, each with what it is to run.
  unfoldable pub named_infos : Event → List (LinkedHook M) → List (String × BindingExecutionInfo)
  unfolding infos_of
  named_infos ev [] = []
  named_infos ev (h ∷ hs) = map (λ info. (h.hook_name, info)) (infos_of ev h) ++ named_infos ev hs

  module _ (new : ℕ → ℕ × String) where
    -- The tasks in order, `new i` being the address and the id of the one with number `i`.
    unfoldable pub created :
        String → ℕ → List (String × BindingExecutionInfo) → List (Task × HookMetadata)
    created type i [] = []
    created type i ((name, info) ∷ infos) =
        (hook_run_task (new i) name info, hook_run_metadata type name info)
        ∷ created type (i + 1) infos

    -- CreateTasksFromKubeEvent and HandleCreateTasksFromScheduleEvent.
    abbrev pub create_tasks_from_event : Event → List (LinkedHook M) → List (Task × HookMetadata)
    create_tasks_from_event ev hs = created (binding_type_of ev) 0 (named_infos ev hs)

    -- New objects for the tasks.
    unfoldable pub store_states : List (Task × HookMetadata) → Heap → Heap
    unfolding change
    store_states [] h = h
    store_states ((t, m) ∷ ts) h = store_states ts (change (λ _. new_state m) t h)

    abbrev pub seen_by_queues : (Heap → Heap) → TaskQueueSet → TaskQueueSet
    seen_by_queues f s = record s { queues = map (λ e. (e.0, with_heap f e.1)) s.queues }

    -- One turn of the loop of Start, for hooks in the order of GetHooksInOrder.
    unfoldable pub handle_one_event :
        Runtime → List (LinkedHook M) → Event → TaskQueueSet → TaskQueueSet
    unfolding store_states
    handle_one_event runtime hs ev s =
        let ts = create_tasks_from_event ev hs in
        add_tail_tasks runtime (map (λ t. t.0) ts) (seen_by_queues (store_states ts) s)
