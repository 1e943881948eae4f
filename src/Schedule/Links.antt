-- ===== src/Schedule/Links.antt =====
-- pkg/hook/controller/schedule_bindings_controller.go: the schedules of one hook, over the manager of schedules.
use shell_operator.Base.{
  ◌==◌, keep, any, map, Bool, delete, insert, List, String, none, nat_key, string_key, [], ◌∷◌,
}
use shell_operator.Task.{BindingContext}
use shell_operator.Schedule.{CronLibrary, ScheduleEntry, ScheduleManager, add_entry, remove_entry}
use shell_operator.Bindings.{BindingExecutionInfo}
use shell_operator.Snapshots.{type_schedule}

-- A schedule binding of a hook, and the link that is made for it.
pub record ScheduleConfig : Type 0 where
  pub binding_name : String
  pub schedule_entry : ScheduleEntry
  pub include_snapshots_from : List String
  pub allow_failure : Bool
  pub queue : String
  pub group : String

pub record ScheduleLink : Type 0 where
  pub binding_name : String
  pub crontab : String
  pub include_snapshots : List String
  pub allow_failure : Bool
  pub queue_name : String
  pub group : String

pub record ScheduleController (C : Type 0) : Type 0 where
  pub schedule_links : List (String × ScheduleLink)
  pub schedule_bindings : List ScheduleConfig
  pub schedule_manager : ScheduleManager C

abbrev pub link_of : ScheduleConfig → ScheduleLink
link_of c = record {
  binding_name = c.binding_name;
  crontab = c.schedule_entry.crontab;
  include_snapshots = c.include_snapshots_from;
  allow_failure = c.allow_failure;
  queue_name = c.queue;
  group = c.group;
}

abbrev schedule_context : ScheduleLink → BindingContext
schedule_context l = record {
  version = "";
  binding_type = type_schedule;
  include_snapshots = l.include_snapshots;
  group = l.group;
  binding = l.binding_name;
  event_type = "";
  watch_event = none;
  from_version = "";
  to_version = "";
}

abbrev pub schedule_info : ScheduleLink → BindingExecutionInfo
schedule_info l = record {
  binding_context = schedule_context l ∷ [];
  include_snapshots = l.include_snapshots;
  allow_failure = l.allow_failure;
  queue_name = l.queue_name;
  binding = l.binding_name;
  group = l.group;
  kubernetes_binding = none;
}

module _ {C : Type 0} (lib : CronLibrary C) where
  abbrev pub enable_schedule : ScheduleConfig → ScheduleController C → ScheduleController C
  enable_schedule c s = record s {
    schedule_links = insert c.schedule_entry.id (link_of c) s.schedule_links;
    schedule_manager = add_entry lib c.schedule_entry s.schedule_manager;
  }

  unfoldable pub enable_schedules :
      List ScheduleConfig → ScheduleController C → ScheduleController C
  enable_schedules [] s = s
  enable_schedules (c ∷ cs) s = enable_schedules cs (enable_schedule c s)

  abbrev pub enable_schedule_bindings : ScheduleController C → ScheduleController C
  enable_schedule_bindings s = enable_schedules s.schedule_bindings s

  abbrev pub disable_schedule : ScheduleConfig → ScheduleController C → ScheduleController C
  disable_schedule c s = record s {
    schedule_links = delete c.schedule_entry.id s.schedule_links;
    schedule_manager = remove_entry lib c.schedule_entry s.schedule_manager;
  }

  unfoldable pub disable_schedules :
      List ScheduleConfig → ScheduleController C → ScheduleController C
  disable_schedules [] s = s
  disable_schedules (c ∷ cs) s = disable_schedules cs (disable_schedule c s)

  abbrev pub disable_schedule_bindings : ScheduleController C → ScheduleController C
  disable_schedule_bindings s = disable_schedules s.schedule_bindings s

-- The order in which Go walks the map of links.
abbrev pub LinkOrder : Type 0
LinkOrder = List (String × ScheduleLink) → List (String × ScheduleLink)

abbrev pub can_handle_crontab : String → List (String × ScheduleLink) → Bool
can_handle_crontab crontab = any (λ e. e.1.crontab == crontab)

unfoldable pub handle_crontab :
    LinkOrder → String → List (String × ScheduleLink) → List BindingExecutionInfo
handle_crontab range_links crontab links =
    map (λ e. schedule_info e.1) (keep (λ e. e.1.crontab == crontab) (range_links links))
