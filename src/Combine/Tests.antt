-- ===== src/Combine/Tests.antt =====
-- combineBindingContextForHook of pkg/shell-operator/combine_binding_context.go at a concrete queue.
use shell_operator.Base.{◌≡◌, ◌==◌, string_key, nat_key, [], ◌∷◌, refl, keep, insert}
use shell_operator.LinkedList.Sequence.{push_back}
use shell_operator.Task.{contexts_of, monitor_ids_of, task_has_id}
use shell_operator.Storage
use shell_operator.Storage.{get_snapshot, add_last_one}
use shell_operator.Contexts.{compact_adjacent}
use shell_operator.Combine.{combines, combine_binding_context_for_hook}
use shell_operator.Combine.Samples.{task, context, metadata, queue, three-IsIndexed}
use shell_operator.Combine.Ids.{take_while, drop_while, without_task}
use shell_operator.Combine.Dropped.{combine-snapshot, combine-contexts}

combine-snapshot_example :
    (without_task
        (task 0 "1")
        (get_snapshot (combine_binding_context_for_hook queue (task 0 "1")).1.storage)
      ≡ [])
    × (keep
          (λ x. x.id == "1")
          (get_snapshot (combine_binding_context_for_hook queue (task 0 "1")).1.storage)
        ≡ task 0 "1" ∷ [])
unfolding drop_while Storage.add_last add_last_one push_back insert
combine-snapshot_example = combine-snapshot queue (task 0 "1") metadata refl three-IsIndexed

combine-contexts_example :
    (combine_binding_context_for_hook queue (task 0 "1")).0
    ≡ combines (record {
      binding_contexts = context "pods" ∷ [];
      monitor_ids = "monitor" ∷ "monitor" ∷ "monitor" ∷ [];
    })
unfolding take_while contexts_of monitor_ids_of compact_adjacent Storage.add_last add_last_one
    push_back insert
combine-contexts_example =
    combine-contexts queue (task 0 "1") metadata (task 1 "2") (task 2 "3" ∷ []) refl refl
