-- ===== src/Task.antt =====
-- pkg/task/task.go and pkg/hook/task_metadata/task_metadata.go, with the binding contexts of
-- pkg/hook/binding_context/binding_context.go that a task carries.
use shell_operator.Base.{
  ◌≡◌, ◌≢◌, arith, ◌++◌, ℕ, Bool, ◌==◌, string_key, nat_key, if◌then◌else◌, List, [], ◌∷◌, Option,
  none, some, String, false, ◌+◌, ◌&&◌,
}
use shell_operator.Storage.{HasId}
use shell_operator.Watch.{WatchEventType}

abbrev pub on_kubernetes_event : String
on_kubernetes_event = "kubernetes"

abbrev pub type_synchronization : String
type_synchronization = "Synchronization"

-- Left out are the jq filter, whether all snapshots are included, and the objects, snapshots and reviews that
-- are shown to the hook.
pub record BindingContext : Type 0 where
  pub version : String
  pub binding_type : String
  pub include_snapshots : List String
  pub group : String
  pub binding : String
  pub event_type : String
  pub watch_event : Option WatchEventType
  pub from_version : String
  pub to_version : String

unfoldable pub context_is_synchronization : BindingContext → Bool
context_is_synchronization bc =
    bc.binding_type == on_kubernetes_event && bc.event_type == type_synchronization

pub record HookMetadata : Type 0 where
  pub hook_name : String
  pub binding : String
  pub group : String
  pub binding_type : String
  pub binding_context : List BindingContext
  pub allow_failure : Bool
  pub monitor_ids : List String
  pub execute_on_synchronization : Bool

abbrev pub set_binding_context : List BindingContext → HookMetadata → HookMetadata
set_binding_context cs m = record m { binding_context = cs }

abbrev pub set_monitor_ids : List String → HookMetadata → HookMetadata
set_monitor_ids ids m = record m { monitor_ids = ids }

-- Synchronization contexts are not combined with others, so the first one is enough.
unfoldable pub is_synchronization : HookMetadata → Bool
unfolding context_is_synchronization
is_synchronization m = elim m.binding_context [ [] ↦ false | c ∷ cs ↦ context_is_synchronization c ]

-- The `interface{}` of a task: nil, hook metadata with all the accessors, or a value with none.
pub data Metadata : Type 0 where
  no_metadata : Metadata
  hook : HookMetadata → Metadata
  opaque : String → Metadata

-- HookMetadataAccessor, and the type assertions to the accessors' interfaces.
abbrev pub hook_metadata : Metadata → Option HookMetadata
hook_metadata (hook m) = some m
hook_metadata _ = none

-- A task is a pointer. Its id, type, queue and compaction id are fixed once it is in a queue;
-- the rest is kept at its address in a heap, where every holder of the pointer sees changes.
pub record Task : Type 0 where
  pub pointer : ℕ
  pub id : String
  pub task_type : String
  pub queue_name : String
  pub compaction_id : String

instance abbrev pub task_has_id : HasId Task
task_has_id = record { get_id = λ t. t.id }

pub record TaskState : Type 0 where
  pub failure_count : ℕ
  pub failure_message : String
  pub processing : Bool
  pub metadata : Metadata

abbrev pub Heap : Type 0
Heap = ℕ → TaskState

-- A change of the object that a task points to.
unfoldable pub change : (TaskState → TaskState) → Task → Heap → Heap
change f t h p = if p == t.pointer then f (h p) else h p

pub change_apart :
    (s : TaskState) (t : Task) (h : Heap) (p : ℕ) → p ≢ t.pointer → change (λ _. s) t h p ≡ h p
unfolding change
change_apart s t h p n = ground (arith, nat_key.same_iff p t.pointer)

pub change_self : (s : TaskState) (t : Task) (h : Heap) → change (λ _. s) t h t.pointer ≡ s
unfolding change
change_self s t h = ground (arith, nat_key.same_iff t.pointer t.pointer)

abbrev pub set_processing : Bool → Task → Heap → Heap
set_processing b = change (λ s. record s { processing = b })

abbrev pub increment_failure_count : Task → Heap → Heap
increment_failure_count = change (λ s. record s { failure_count = s.failure_count + 1 })

abbrev pub update_failure_message : String → Task → Heap → Heap
update_failure_message msg = change (λ s. record s { failure_message = msg })

abbrev pub update_metadata : Metadata → Task → Heap → Heap
update_metadata m = change (λ s. record s { metadata = m })

abbrev pub metadata_of : Task → Heap → Metadata
metadata_of t h = (h t.pointer).metadata

abbrev pub is_processing : Task → Heap → Bool
is_processing t h = (h t.pointer).processing

abbrev pub failure_count_of : Task → Heap → ℕ
failure_count_of t h = (h t.pointer).failure_count

-- The binding contexts and the monitor ids of tasks, in their order.
unfoldable pub contexts_of : Heap → List Task → List BindingContext
contexts_of h [] = []
contexts_of h (x ∷ xs) = elim (hook_metadata (metadata_of x h)) [
  | none ↦ contexts_of h xs
  | some m ↦ m.binding_context ++ contexts_of h xs
]

unfoldable pub monitor_ids_of : Heap → List Task → List String
monitor_ids_of h [] = []
monitor_ids_of h (x ∷ xs) = elim (hook_metadata (metadata_of x h)) [
  | none ↦ monitor_ids_of h xs
  | some m ↦ m.monitor_ids ++ monitor_ids_of h xs
]
