-- ===== src/Bindings.antt =====
-- pkg/hook/controller/kubernetes_bindings_controller.go, over the monitors that pkg/kube_events_manager/kube_events_manager.go
-- keeps by their ids. A monitor is an interface. The configuration of a monitor is shared by pointer, so its kind
-- and version stand in a store of their own.
pub mod Single
pub mod Enable
pub mod Update
mod Tests
use mathlib.Core.Option
use shell_operator.Base.{
  ◌&&◌, ◌++◌, delete, has_key, ◌==◌, Option, map, if◌then◌else◌, insert, lookup, Bool, List, String,
  false, some, none, nat_key, arith, [], ◌∷◌, string_key,
}
use shell_operator.Task.{BindingContext, on_kubernetes_event, type_synchronization}
use shell_operator.Watch.{WatchEventType, added, type_event}

-- `new_monitor` is NewMonitor with CreateInformers, for an id, a kind and a version. `snapshot` answers the
-- objects, and changes what informers hold back.
pub record MonitorCalls (M R : Type 0) : Type 0 where
  pub new_monitor : String → String → String → Option M
  pub start : M → M
  pub stop : M → M
  pub enable : M → M
  pub snapshot : M → List R × M

pub record OnKubernetesEventConfig : Type 0 where
  pub binding_name : String
  pub allow_failure : Bool
  pub monitor_id : String
  pub include_snapshots_from : List String
  pub queue : String
  pub group : String
  pub execute_hook_on_synchronization : Bool

pub record BindingExecutionInfo : Type 0 where
  pub binding_context : List BindingContext
  pub include_snapshots : List String
  pub allow_failure : Bool
  pub queue_name : String
  pub binding : String
  pub group : String
  pub kubernetes_binding : Option OnKubernetesEventConfig

-- What an event says, without its objects.
pub record EventNotice : Type 0 where
  pub monitor_id : String
  pub event_type : String
  pub watch_events : List WatchEventType

-- The manager of monitors, the controller of one hook's bindings, and the kinds and versions in the configurations of
-- monitors. `stopped` keeps the monitors that have been stopped, `sent` the events put into the manager's channel.
pub record World (M : Type 0) : Type 0 where
  pub monitors : List (String × M)
  pub stopped : List M
  pub sent : List EventNotice
  pub kinds : List (String × (String × String))
  pub bindings : List OnKubernetesEventConfig
  pub links : List (String × OnKubernetesEventConfig)

-- `panics` is a call on a nil monitor.
pub data Outcome {ℓ} (A : Type ℓ) : Type ℓ where
  answers : A → Outcome A
  errs panics : Outcome A

abbrev event_context : String → Option WatchEventType → OnKubernetesEventConfig → BindingContext
event_context type watch_event c = record {
  version = "";
  binding_type = on_kubernetes_event;
  include_snapshots = c.include_snapshots_from;
  group = c.group;
  binding = c.binding_name;
  event_type = type;
  watch_event = watch_event;
  from_version = "";
  to_version = "";
}

-- One context for a Synchronization, and one for each watch event of an Event, with that event.
unfoldable pub convert_kube_event_to_binding_context :
    EventNotice → OnKubernetesEventConfig → List BindingContext
convert_kube_event_to_binding_context ev c =
    if ev.event_type == type_synchronization
    then event_context ev.event_type none c ∷ []
    else if ev.event_type == type_event
    then map (λ e. event_context ev.event_type (some e) c) ev.watch_events
    else []

abbrev no_info : BindingExecutionInfo
no_info = record {
  binding_context = [];
  include_snapshots = [];
  allow_failure = false;
  queue_name = "";
  binding = "";
  group = "";
  kubernetes_binding = none;
}

abbrev pub info_of : EventNotice → OnKubernetesEventConfig → BindingExecutionInfo
info_of ev c = record {
  binding_context = convert_kube_event_to_binding_context ev c;
  include_snapshots = c.include_snapshots_from;
  allow_failure = c.allow_failure;
  queue_name = c.queue;
  binding = c.binding_name;
  group = c.group;
  kubernetes_binding = some c;
}

abbrev pub synchronization_of : String → EventNotice
synchronization_of id = record {
  monitor_id = id;
  event_type = type_synchronization;
  watch_events = [];
}

abbrev pub added_event : String → EventNotice
added_event id = record { monitor_id = id; event_type = type_event; watch_events = added ∷ [] }

abbrev kind_of : String → List (String × (String × String)) → String × String
kind_of id kinds = elim (lookup id kinds) [ none ↦ ("", "") | some k ↦ k ]

module _ {M R : Type 0} (calls : MonitorCalls M R) where
  -- kubeEventsManager.AddMonitor, which replaces a monitor of the same id.
  unfoldable pub add_monitor : String → World M → Option (World M)
  add_monitor id w =
      let (kind, version) = kind_of id w.kinds in
      elim (calls.new_monitor id kind version) [
        | none ↦ none
        | some m ↦ some (record w { monitors = insert id m w.monitors })
      ]

  abbrev pub has_monitor : String → World M → Bool
  has_monitor id w = has_key id w.monitors

  abbrev pub get_monitor : String → World M → Option M
  get_monitor id w = lookup id w.monitors

  -- kubeEventsManager.StartMonitor: none if there is no monitor to start.
  unfoldable pub start_monitor : String → World M → Option (World M)
  start_monitor id w =
      Option.map (λ m. record w { monitors = insert id (calls.start m) w.monitors })
        (get_monitor id w)

  unfoldable pub stop_monitor : String → World M → World M
  stop_monitor id w = elim (get_monitor id w) [
    | none ↦ w
    | some m ↦ record w { monitors = delete id w.monitors; stopped = calls.stop m ∷ w.stopped }
  ]

  abbrev pub can_handle_event : EventNotice → World M → Bool
  can_handle_event ev w = has_key ev.monitor_id w.links

  unfoldable pub handle_event : EventNotice → World M → BindingExecutionInfo
  handle_event ev w = elim (lookup ev.monitor_id w.links) [ none ↦ no_info | some c ↦ info_of ev c ]

  abbrev set_link : OnKubernetesEventConfig → World M → World M
  set_link c w = record w { links = insert c.monitor_id c w.links }

  -- A monitor for one binding, unless it has a link and a monitor.
  unfoldable pub enable_binding : OnKubernetesEventConfig → World M → Outcome (World M)
  unfolding add_monitor start_monitor
  enable_binding c w =
      if has_key c.monitor_id w.links && has_monitor c.monitor_id w
      then answers w
      else elim (add_monitor c.monitor_id w) [
        | none ↦ errs
        | some w' ↦ elim (start_monitor c.monitor_id (set_link c w')) [
          | none ↦ panics
          | some w'' ↦ answers w''
        ]
      ]

  abbrev pub with_info :
      BindingExecutionInfo
      → Outcome (List BindingExecutionInfo) × World M
      → Outcome (List BindingExecutionInfo) × World M
  with_info info (answers infos, w) = (answers (info ∷ infos), w)
  with_info info (errs, w) = (errs, w)
  with_info info (panics, w) = (panics, w)

  -- The loop; on an error, what the bindings before it have changed stays.
  unfoldable pub enable_loop :
      List OnKubernetesEventConfig → World M → Outcome (List BindingExecutionInfo) × World M
  unfolding enable_binding handle_event
  enable_loop [] w = (answers [], w)
  enable_loop (c ∷ cs) w = elim (enable_binding c w) [
    | errs ↦ (errs, w)
    | panics ↦ (panics, w)
    | answers w' ↦ with_info (handle_event (synchronization_of c.monitor_id) w') (enable_loop cs w')
  ]

  unfoldable pub enable_kubernetes_bindings :
      World M → Outcome (List BindingExecutionInfo) × World M
  unfolding enable_loop
  enable_kubernetes_bindings w = enable_loop w.bindings w

  unfoldable pub stop_all : List String → World M → World M
  stop_all [] w = w
  stop_all (id ∷ ids) w = stop_all ids (stop_monitor id w)

  unfoldable pub disable_kubernetes_bindings : World M → World M
  unfolding stop_all
  disable_kubernetes_bindings w = stop_all (map (λ e. e.0) w.links) (record w { links = [] })

  -- A missing monitor is only reported.
  unfoldable pub unlock_events_for : String → World M → World M
  unlock_events_for id w = elim (get_monitor id w) [
    | none ↦ w
    | some m ↦ record w { monitors = insert id (calls.enable m) w.monitors }
  ]

  -- UnlockEvents: a missing monitor is a nil interface, on which the call panics.
  unfoldable pub unlock_all : List (String × OnKubernetesEventConfig) → World M → Outcome (World M)
  unlock_all [] w = answers w
  unlock_all ((id, c) ∷ ls) w = elim (get_monitor id w) [
    | none ↦ panics
    | some m ↦ unlock_all ls (record w { monitors = insert id (calls.enable m) w.monitors })
  ]

  unfoldable pub unlock_events : World M → Outcome (World M)
  unfolding unlock_all
  unlock_events w = unlock_all w.links w

  -- The monitor is made anew, and its events are passed on at once.
  unfoldable pub update_monitor : String → String → String → World M → Outcome (Unit {0}) × World M
  update_monitor id kind version w = elim (lookup id w.links) [
    | none ↦ (answers tt, w)
    | some c ↦
        let w' = record (stop_monitor id w) { kinds = insert id (kind, version) w.kinds } in
        elim (add_monitor id w') [
          | none ↦ (errs, w')
          | some new ↦
              let w'' = record new { sent = new.sent ++ added_event id ∷ [] } in
              elim (start_monitor id w'') [
                | none ↦ (panics, w'')
                | some started ↦ (answers tt, unlock_events_for id started)
              ]
        ]
  ]
