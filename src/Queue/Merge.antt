-- ===== src/Queue/Merge.antt =====
-- TaskQueue.compaction of pkg/task/queue/task_queue.go. The metadata that a compaction starts from is taken to refer
-- to no pooled slice, as that of new tasks does; what the merges of one compaction do to one another by the pools
-- is in `left_contexts` and `left_monitor_ids`.
use shell_operator.Base.{
  ◌==◌, any, length, Bool, string_key, if◌then◌else◌, List, [], ◌∷◌, ◌++◌, Option, none, some,
  String, ◌&&◌, not, lookup, insert, has_key, ltb, map,
}
use shell_operator.LinkedList.Sequence.{Element}
use shell_operator.Task.{
  Task, HookMetadata, hook, hook_metadata, set_binding_context, set_monitor_ids, metadata_of,
  is_processing, update_metadata, BindingContext, task_has_id,
}
use shell_operator.Storage.{storage_length, remove_element}
use shell_operator.Counter.{NameSet, is_empty, remove as counter_remove, reset_reached_cap}
use shell_operator.Contexts.{compact_binding_contexts}
use shell_operator.Queue.State.{CompactionGroup, Runtime, TaskQueue, with_counter}

-- The metadata of a task that the first pass takes into a group.
unfoldable pub mergeable : NameSet → TaskQueue → Task → Option HookMetadata
mergeable ids q t =
    if not (has_key t.task_type q.compactable_types)
    then none
    else if not (is_empty ids) && not (has_key t.compaction_id ids)
    then none
    else if is_processing t q.heap
    then none
    else hook_metadata (metadata_of t q.heap)

unfoldable pub add_to_group :
    String → Element Task → List (String × CompactionGroup) → List (String × CompactionGroup)
add_to_group name e gs = elim (lookup name gs) [
  | none ↦ insert name (record { target = e; to_merge = [] }) gs
  | some g ↦ insert name (record g { to_merge = g.to_merge ++ e ∷ [] }) gs
]

abbrev pub add_mergeable :
    Option HookMetadata
    → Element Task
    → List (String × CompactionGroup)
    → List (String × CompactionGroup)
add_mergeable none e gs = gs
add_mergeable (some m) e gs = add_to_group m.hook_name e gs

unfoldable pub collect_groups :
    NameSet
    → TaskQueue
    → List (Element Task)
    → List (String × CompactionGroup)
    → List (String × CompactionGroup)
unfolding mergeable add_to_group
collect_groups ids q [] gs = gs
collect_groups ids q (e ∷ es) gs =
    collect_groups ids q es (add_mergeable (mergeable ids q e.value) e gs)

unfoldable pub drop_merged : Element Task → TaskQueue → TaskQueue
unfolding remove_element counter_remove
drop_merged e q = record q {
  storage = (remove_element e q.storage).1;
  tasks_counter = counter_remove e.value q.tasks_counter;
}

-- What has been gathered from a group so far.
pub record Gathered : Type 0 where
  pub contexts : List BindingContext
  pub monitor_ids : List String

abbrev pub gather : HookMetadata → Gathered → Gathered
gather m g = record {
  contexts = g.contexts ++ m.binding_context;
  monitor_ids = g.monitor_ids ++ m.monitor_ids;
}

unfoldable pub merge_elements : List (Element Task) → Gathered → TaskQueue → Gathered × TaskQueue
unfolding drop_merged
merge_elements [] g q = (g, q)
merge_elements (e ∷ es) g q = elim (hook_metadata (metadata_of e.value q.heap)) [
  | none ↦ merge_elements es g q
  | some m ↦ merge_elements es (gather m g) (drop_merged e q)
]

-- compactBindingContexts answers a slice of its own, and not the pooled one.
unfoldable pub is_copied : List BindingContext → Bool
is_copied cs = not (ltb (length cs) 2) && any (λ c. not (c.group == "")) cs

abbrev pub stored_contexts : Runtime → Task → List BindingContext → List BindingContext
stored_contexts world t all =
    let cs = compact_binding_contexts world.range_contexts all in
    if is_copied all then cs else world.left_contexts t cs

unfoldable pub store_merged :
    Runtime → CompactionGroup → HookMetadata → Gathered × TaskQueue → TaskQueue
unfolding compact_binding_contexts
store_merged world g m (all, q) = record q {
  heap =
      update_metadata
        (hook (
          set_monitor_ids (world.left_monitor_ids g.target.value all.monitor_ids)
            (set_binding_context (stored_contexts world g.target.value all.contexts) m)))
        g.target.value q.heap;
  compacted = q.compacted ++ (map (λ e. e.value) g.to_merge, g.target.value) ∷ [];
}

unfoldable pub merge_into : Runtime → CompactionGroup → Option HookMetadata → TaskQueue → TaskQueue
unfolding merge_elements store_merged
merge_into world g none q = q
merge_into world g (some m) q = store_merged world g m (
    merge_elements g.to_merge (record { contexts = m.binding_context; monitor_ids = m.monitor_ids })
      q)

unfoldable pub merge_group : Runtime → CompactionGroup → TaskQueue → TaskQueue
unfolding merge_into
merge_group world g q =
    if is_empty g.to_merge
    then q
    else merge_into world g (hook_metadata (metadata_of g.target.value q.heap)) q

unfoldable pub merge_groups : Runtime → List (String × CompactionGroup) → TaskQueue → TaskQueue
unfolding merge_group
merge_groups world [] q = q
merge_groups world ((name, g) ∷ gs) q = merge_groups world gs (merge_group world g q)

unfoldable pub compaction : Runtime → NameSet → TaskQueue → TaskQueue
unfolding collect_groups merge_groups
compaction world ids q =
    if ltb (storage_length q.storage) 2
    then q
    else with_counter reset_reached_cap (
        merge_groups world (world.range_groups (collect_groups ids q q.storage.items.elements []))
          q)
