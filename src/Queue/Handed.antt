-- ===== src/Queue/Handed.antt =====
-- The second pass of TaskQueue.compaction (pkg/task/queue/task_queue.go): what the task that stays is handed.
use mathlib.Core.List.{append-nil, append_assoc}
use shell_operator.Base.{
  ◌≡◌, string_key, nat_key, List, [], ◌∷◌, ◌++◌, Option, none, some, String, false, refl,
  Option-cases, inl, inr, ap, ◌∙◌, sym,
}
use shell_operator.LinkedList.Sequence.{Element, values}
use shell_operator.Task.{
  Task, HookMetadata, hook, hook_metadata, metadata_of, Heap, update_metadata, contexts_of,
  monitor_ids_of, set_binding_context, set_monitor_ids,
}
use shell_operator.Counter.{is_empty}
use shell_operator.Queue.State.{CompactionGroup, Runtime, TaskQueue}
use shell_operator.Queue.Merge.{
  stored_contexts, drop_merged, Gathered, gather, merge_elements, store_merged, merge_group,
}
use shell_operator.Queue.Merged.{merge_elements-some, merge_group-some, drop_merged-heap}

abbrev pub name_in : Option HookMetadata → Option String
name_in none = none
name_in (some m) = some m.hook_name

abbrev pub name_of : Heap → Task → Option String
name_of h t = name_in (hook_metadata (metadata_of t h))

merge_elements-none :
    (e : Element Task) (es : List (Element Task)) (g : Gathered) (q : TaskQueue)
    → hook_metadata (metadata_of e.value q.heap) ≡ none
    → merge_elements (e ∷ es) g q ≡ merge_elements es g q
unfolding merge_elements
merge_elements-none e es g q h = rw (h, merge_elements) refl

-- The merge of a group's elements gathers their contexts and monitor ids, and touches no task's object.
merge_elements-gathered :
    (es : List (Element Task)) (g : Gathered) (q : TaskQueue)
    → ((merge_elements es g q).0.contexts ≡ g.contexts ++ contexts_of q.heap (values es))
      × ((merge_elements es g q).0.monitor_ids ≡ g.monitor_ids ++ monitor_ids_of q.heap (values es))
      × ((merge_elements es g q).1.heap ≡ q.heap)
unfolding contexts_of monitor_ids_of
merge_elements-gathered [] g q =
    unfold merge_elements in (sym (append-nil g.contexts), sym (append-nil g.monitor_ids), refl)
merge_elements-gathered (e ∷ es) g q =
    elim (Option-cases (hook_metadata (metadata_of e.value q.heap))) [
      | inl h ↦
          let (a, b, c) = merge_elements-gathered es g q in
          let step = merge_elements-none e es g q h in
          rw (h, contexts_of, monitor_ids_of)
            (
              ap (λ r. r.0.contexts) step ∙ a,
              ap (λ r. r.0.monitor_ids) step ∙ b,
              ap (λ r. r.1.heap) step ∙ c,
            )
      | inr (m, h) ↦
          let (a, b, c) = merge_elements-gathered es (gather m g) (drop_merged e q) in
          let step = merge_elements-some e es g q m h in
          let heap = drop_merged-heap e q in
          rw (h, contexts_of, monitor_ids_of)
            (
              ap (λ r. r.0.contexts) step
                  ∙ a
                  ∙ ap (λ r. (g.contexts ++ m.binding_context) ++ contexts_of r (values es)) heap
                  ∙ append_assoc g.contexts m.binding_context (contexts_of q.heap (values es)),
              ap (λ r. r.0.monitor_ids) step
                  ∙ b
                  ∙ ap (λ r. (g.monitor_ids ++ m.monitor_ids) ++ monitor_ids_of r (values es)) heap
                  ∙ append_assoc g.monitor_ids m.monitor_ids (monitor_ids_of q.heap (values es)),
              ap (λ r. r.1.heap) step ∙ c ∙ heap,
            )
    ]

-- The metadata that the first task of a hook ends with: the contexts of all its tasks, compacted, and their monitor
-- ids, where the slices are pooled as they are left.
abbrev pub merged : Runtime → Task → Heap → List Task → HookMetadata → HookMetadata
merged world t h ts m =
    set_monitor_ids (world.left_monitor_ids t (m.monitor_ids ++ monitor_ids_of h ts))
      (set_binding_context (stored_contexts world t (m.binding_context ++ contexts_of h ts)) m)

-- One group's merge changes the object of its first task, and none else.
pub merge_group-heap :
    (world : Runtime) (g : CompactionGroup) (q : TaskQueue) (m : HookMetadata)
    → is_empty g.to_merge ≡ false
    → hook_metadata (metadata_of g.target.value q.heap) ≡ some m
    → (merge_group world g q).heap
      ≡ update_metadata
          (hook (merged world g.target.value q.heap (values g.to_merge) m))
          g.target.value
          q.heap
unfolding store_merged
merge_group-heap world g q m e h =
    let start : Gathered = record { contexts = m.binding_context; monitor_ids = m.monitor_ids } in
    let (a, b, c) = merge_elements-gathered g.to_merge start q in
    ap (λ r. r.heap) (merge_group-some world g q m e h) ∙ rw (a, b, c) refl
