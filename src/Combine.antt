-- ===== src/Combine.antt =====
-- combineBindingContextForHook of pkg/shell-operator/combine_binding_context.go: before a hook runs, the tasks behind it
-- that run the same hook are dropped, and their binding contexts are handed to the one run. The queue that
-- the caller passes is the one that GetByName finds under the task's queue name.
pub mod Ids
pub mod Dropped
pub mod Samples
mod Tests
use shell_operator.Base.{
  Bool, ◌==◌, string_key, if◌then◌else◌, List, [], ◌∷◌, Option, none, some, String, true, false,
  ◌&&◌, lookup, insert,
}
use shell_operator.Task.{
  Task, Heap, BindingContext, HookMetadata, no_metadata, opaque, hook, hook_metadata, metadata_of,
  task_has_id,
}
use shell_operator.Storage.{get_snapshot}
use shell_operator.Contexts.{compact_adjacent}
use shell_operator.Queue.{TaskQueue, Gathered, gather, delete_func}

pub record CombineResult : Type 0 where
  pub binding_contexts : List BindingContext
  pub monitor_ids : List String

-- `panics`: the metadata of the task has no hook name, and the type assertion fails.
pub data CombineOutcome : Type 0 where
  panics nothing : CombineOutcome
  combines : CombineResult → CombineOutcome

-- A panic on metadata without a hook name ends the walk too, as IterateSnapshot recovers from it.
abbrev pub is_same_hook : Heap → Task → String → Task → Bool
is_same_hook h t name x = elim (hook_metadata (metadata_of x h)) [
  | none ↦ false
  | some m ↦ m.hook_name == name && (t.task_type == x.task_type)
]

-- The tasks that the walk over the snapshot collects.
unfoldable pub other_tasks : Heap → Task → String → List Task → List Task
other_tasks h t name [] = []
other_tasks h t name (x ∷ xs) =
    let others = other_tasks h t name xs in
    if x.id == t.id then others else if is_same_hook h t name x then x ∷ others else []

abbrev pub gather_found : Option HookMetadata → Gathered → Gathered
gather_found none g = g
gather_found (some m) g = gather m g

unfoldable pub gather_others : Heap → List Task → Gathered → Gathered
gather_others h [] g = g
gather_others h (x ∷ xs) g = gather_others h xs (gather_found (hook_metadata (metadata_of x h)) g)

-- `tasksFilter[tsk.GetId()] = false`
unfoldable pub refuse_all : List Task → List (String × Bool) → List (String × Bool)
refuse_all [] m = m
refuse_all (x ∷ xs) m = refuse_all xs (insert x.id false m)

abbrev pub found_or_true : Option Bool → Bool
found_or_true none = true
found_or_true (some b) = b

-- The callback that DeleteFunc is given.
unfoldable pub stays_in_queue : Task → List Task → Task → Bool
unfolding refuse_all
stays_in_queue t others x = found_or_true (lookup x.id (refuse_all others (insert t.id true [])))

abbrev pub combined : Heap → HookMetadata → List Task → CombineResult
combined h m others =
    let all =
      gather_others h others
        (record { contexts = m.binding_context; monitor_ids = m.monitor_ids }) in
    record { binding_contexts = compact_adjacent all.contexts; monitor_ids = all.monitor_ids }

abbrev pub combine_others : HookMetadata → List Task → Task → TaskQueue → CombineOutcome × TaskQueue
combine_others m [] t q = (nothing, q)
combine_others m (x ∷ xs) t q =
    (combines (combined q.heap m (x ∷ xs)), delete_func (stays_in_queue t (x ∷ xs)) q)

unfoldable pub combine_binding_context_for_hook : TaskQueue → Task → CombineOutcome × TaskQueue
combine_binding_context_for_hook q t = elim (metadata_of t q.heap) [
  | no_metadata ↦ (nothing, q)
  | opaque s ↦ (panics, q)
  | hook m ↦ combine_others m (other_tasks q.heap t m.hook_name (get_snapshot q.storage)) t q
]
