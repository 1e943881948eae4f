-- ===== src/Combine/Dropped.antt =====
-- combineBindingContextForHook of pkg/shell-operator/combine_binding_context.go: which tasks it drops, and what it hands
-- to the hook's run.
use mathlib.Core.List.{append-nil, append_assoc}
use shell_operator.Base.{
  keep-keep, keep-cong, ◌⊎◌, ◌≡◌, Bool, ◌==◌, string_key, nat_key, if◌then◌else◌, List, [], ◌∷◌,
  ◌++◌, some, String, true, false, ◌&&◌, not, lookup, insert, any, keep, refl, sym, arith, eq_iff,
  Option-cases, Bool-cases, inl, inr, ap, ◌∙◌, lookup-insert, subst,
}
use shell_operator.Task.{
  contexts_of, monitor_ids_of, Task, Heap, HookMetadata, hook, hook_metadata, metadata_of,
  task_has_id,
}
use shell_operator.Storage.{get_snapshot}
use shell_operator.Storage.Index.{IsSound, IsIndexed}
use shell_operator.Storage.Order.{delete_func-survivors, survivors}
use shell_operator.Counter
use shell_operator.Counter.{TaskCounter}
use shell_operator.Contexts.{compact_adjacent}
use shell_operator.Queue.{TaskQueue, Gathered, gather, delete_func, delete_or_keep}
use shell_operator.Combine.{
  nothing, combines, is_same_hook, other_tasks, gather_others, refuse_all, stays_in_queue, combined,
  combine_binding_context_for_hook,
}
use shell_operator.Combine.Ids.{
  HasDistinctIds, distinct_ids, HasDistinctIds-keep, take_while, drop_while, take-drop,
  without_task, is_not_among, keep_rest, any-take_while,
}

survivors-keep :
    (fn : Task → Bool) (ts : List Task) (c : TaskCounter)
    → survivors (delete_or_keep fn) ts c ≡ keep fn ts
unfolding survivors
survivors-keep fn [] c = refl
survivors-keep fn (t ∷ ts) c =
    ground (arith, survivors-keep fn ts c, survivors-keep fn ts (Counter.remove t c))

-- TaskQueue.DeleteFunc lets exactly the tasks stay that the callback accepts.
pub delete_func-keep :
    (fn : Task → Bool) (q : TaskQueue)
    → IsSound q.storage
    → get_snapshot (delete_func fn q).storage ≡ keep fn (get_snapshot q.storage)
unfolding delete_func
delete_func-keep fn q v =
    (delete_func-survivors (delete_or_keep fn) q.tasks_counter q.storage v).0
    ∙ survivors-keep fn (get_snapshot q.storage) q.tasks_counter

lookup-refuse_all :
    (k : String) (ts : List Task) (m : List (String × Bool))
    → lookup k (refuse_all ts m) ≡ (if any (λ o. o.id == k) ts then some false else lookup k m)
unfolding refuse_all
lookup-refuse_all k [] m = refl
lookup-refuse_all k (t ∷ ts) m =
    ground (arith, lookup-refuse_all k ts (insert t.id false m), lookup-insert t.id k false m)

stays-any :
    (t : Task) (others : List Task) (x : Task)
    → stays_in_queue t others x ≡ not (any (λ o. o.id == x.id) others)
unfolding stays_in_queue
stays-any t others x =
    ground
      (arith, lookup-refuse_all x.id others (insert t.id true []), lookup-insert t.id x.id true [])

other_tasks-take_while :
    (h : Heap) (t : Task) (name : String) (ts : List Task)
    → other_tasks h t name ts ≡ take_while (is_same_hook h t name) (without_task t ts)
unfolding other_tasks take_while
other_tasks-take_while h t name [] = refl
other_tasks-take_while h t name (x ∷ xs) = ground (arith, other_tasks-take_while h t name xs)

any-same :
    (t x : Task) (xs : List Task)
    → (x.id == t.id) ≡ true
    → any (λ o. o.id == x.id) xs ≡ any (λ o. o.id == t.id) xs
any-same t x xs e = ground (arith, eq_iff x.id t.id)

-- What the deletion leaves: the task itself, and what does not belong to the collected beginning.
module _ (t : Task) (p : Task → Bool) (ts : List Task) (d : HasDistinctIds ts) where
  abbrev found : List Task
  found = take_while p (without_task t ts)

  deletion-others : without_task t (keep (is_not_among found) ts) ≡ drop_while p (without_task t ts)
  deletion-others =
      keep-keep (λ x. not (x.id == t.id)) (is_not_among found)
        (λ x. is_not_among found x && not (x.id == t.id)) ts (λ x. refl)
      ∙ sym (
          keep-keep (is_not_among found) (λ x. not (x.id == t.id))
            (λ x. is_not_among found x && not (x.id == t.id)) ts (λ x. ground arith))
      ∙ ap (keep (is_not_among found)) (sym (take-drop p (without_task t ts)))
      ∙ keep_rest found (drop_while p (without_task t ts)) (
          subst HasDistinctIds (sym (take-drop p (without_task t ts)))
            (HasDistinctIds-keep (λ x. not (x.id == t.id)) ts d))

  deletion-task :
      keep (λ x. x.id == t.id) (keep (is_not_among found) ts) ≡ keep (λ x. x.id == t.id) ts
  deletion-task =
      keep-keep (λ x. x.id == t.id) (is_not_among found) (λ x. x.id == t.id) ts
        (λ x. elim (Bool-cases (x.id == t.id)) [
          | inl e ↦ ground (arith, any-same t x found e, any-take_while t p ts)
          | inr e ↦ ground arith
        ])

combine-none :
    (q : TaskQueue) (t : Task) (m : HookMetadata)
    → metadata_of t q.heap ≡ hook m
    → other_tasks q.heap t m.hook_name (get_snapshot q.storage) ≡ []
    → combine_binding_context_for_hook q t ≡ (nothing, q)
unfolding combine_binding_context_for_hook
combine-none q t m h e = rw (h, e, combine_binding_context_for_hook)

combine-some :
    (q : TaskQueue) (t : Task) (m : HookMetadata) (x : Task) (xs : List Task)
    → metadata_of t q.heap ≡ hook m
    → other_tasks q.heap t m.hook_name (get_snapshot q.storage) ≡ x ∷ xs
    → combine_binding_context_for_hook q t
      ≡ (combines (combined q.heap m (x ∷ xs)), delete_func (stays_in_queue t (x ∷ xs)) q)
unfolding combine_binding_context_for_hook
combine-some q t m x xs h e = rw (h, e, combine_binding_context_for_hook)

List-cases : (ts : List Task) → (ts ≡ []) ⊎ ((x : Task) × (xs : List Task) × (ts ≡ x ∷ xs))
List-cases [] = inl refl
List-cases (x ∷ xs) = inr (x, xs, refl)

drop_nothing : (p : Task → Bool) (ts : List Task) → take_while p ts ≡ [] → drop_while p ts ≡ ts
drop_nothing p ts e = ap (λ r. r ++ drop_while p ts) (sym e) ∙ take-drop p ts

-- The combination for a task with hook metadata, in a queue whose index is complete: of the other tasks, the longest
-- beginning that runs the same hook and has the same task type leaves the queue, the rest stays in order, and
-- the task itself stays.
pub combine-snapshot :
    (q : TaskQueue) (t : Task) (m : HookMetadata)
    → metadata_of t q.heap ≡ hook m
    → IsIndexed q.storage
    → (without_task t (get_snapshot (combine_binding_context_for_hook q t).1.storage)
        ≡ drop_while (is_same_hook q.heap t m.hook_name) (without_task t (get_snapshot q.storage)))
      × (keep (λ x. x.id == t.id) (get_snapshot (combine_binding_context_for_hook q t).1.storage)
          ≡ keep (λ x. x.id == t.id) (get_snapshot q.storage))
combine-snapshot q t m h v =
    let p = is_same_hook q.heap t m.hook_name in
    let ts = get_snapshot q.storage in
    let taken = other_tasks-take_while q.heap t m.hook_name ts in
    elim (List-cases (other_tasks q.heap t m.hook_name ts)) [
      | inl e ↦
          let step = ap (λ r. get_snapshot r.1.storage) (combine-none q t m h e) in
          (
            ap (without_task t) step ∙ sym (drop_nothing p (without_task t ts) (sym taken ∙ e)),
            ap (keep (λ x. x.id == t.id)) step,
          )
      | inr (x, xs, e) ↦
          let d =
            distinct_ids q.storage.items.elements q.storage.id_index v.sound.distinct v.complete in
          let step =
            ap (λ r. get_snapshot r.1.storage) (combine-some q t m x xs h e)
            ∙ delete_func-keep (stays_in_queue t (x ∷ xs)) q v.sound
            ∙ keep-cong (stays_in_queue t (x ∷ xs)) (is_not_among (x ∷ xs)) ts
                (stays-any t (x ∷ xs))
            ∙ ap (λ r. keep (is_not_among r) ts) (sym e ∙ taken) in
          (
            ap (without_task t) step ∙ deletion-others t p ts d,
            ap (keep (λ y. y.id == t.id)) step ∙ deletion-task t p ts d,
          )
    ]

gather_others-all :
    (h : Heap) (xs : List Task) (g : Gathered)
    → ((gather_others h xs g).contexts ≡ g.contexts ++ contexts_of h xs)
      × ((gather_others h xs g).monitor_ids ≡ g.monitor_ids ++ monitor_ids_of h xs)
unfolding gather_others contexts_of monitor_ids_of
gather_others-all h [] g = (sym (append-nil g.contexts), sym (append-nil g.monitor_ids))
gather_others-all h (x ∷ xs) g = elim (Option-cases (hook_metadata (metadata_of x h))) [
  | inl e ↦
      let (a, b) = gather_others-all h xs g in
      rw (e, gather_others, contexts_of, monitor_ids_of) (a, b)
  | inr (m, e) ↦
      let (a, b) = gather_others-all h xs (gather m g) in
      rw (e, gather_others, contexts_of, monitor_ids_of)
        (
          a ∙ append_assoc g.contexts m.binding_context (contexts_of h xs),
          b ∙ append_assoc g.monitor_ids m.monitor_ids (monitor_ids_of h xs),
        )
]

-- If there are tasks to combine, the run is handed the binding contexts of the task and, after them, those of every
-- dropped task in queue order, compacted where neighbours share a group, and all their monitor ids.
pub combine-contexts :
    (q : TaskQueue) (t : Task) (m : HookMetadata) (x : Task) (xs : List Task)
    → metadata_of t q.heap ≡ hook m
    → take_while (is_same_hook q.heap t m.hook_name) (without_task t (get_snapshot q.storage))
      ≡ x ∷ xs
    → (combine_binding_context_for_hook q t).0
      ≡ combines (record {
        binding_contexts = compact_adjacent (m.binding_context ++ contexts_of q.heap (x ∷ xs));
        monitor_ids = m.monitor_ids ++ monitor_ids_of q.heap (x ∷ xs);
      })
combine-contexts q t m x xs h e =
    let start : Gathered = record { contexts = m.binding_context; monitor_ids = m.monitor_ids } in
    let (a, b) = gather_others-all q.heap (x ∷ xs) start in
    ap (λ r. r.0)
      (combine-some q t m x xs h
        (other_tasks-take_while q.heap t m.hook_name (get_snapshot q.storage) ∙ e))
    ∙ rw (a, b) refl
