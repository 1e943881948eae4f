-- ===== src/Operator/Runs.antt =====
-- What taskHandleHookRun of pkg/shell-operator/operator.go does with the tasks it combines, with errors and with monitors.
use shell_operator.Base.{
  sym, ◌++◌, subst, ◌∙◌, Bool, ap, ◌⊎◌, Option-cases, ◌==◌, Bool-cases, ◌≢◌, keep, ◌≡◌, String, All,
  Option, List, inr, inl, false, true, some, none, nat_key, arith, refl, [], ◌∷◌, string_key,
}
use shell_operator.Task.{
  update_metadata, Task, HookMetadata, metadata_of, is_synchronization, hook, change, contexts_of,
  task_has_id, monitor_ids_of,
}
use shell_operator.Storage.{TaskStatus, success, fail, repeat, other, get_snapshot}
use shell_operator.Contexts.{compact_adjacent}
use shell_operator.Queue.{TaskQueue, with_heap}
use shell_operator.Combine.{
  combines, nothing, panics, is_same_hook, combine_binding_context_for_hook, CombineOutcome,
}
use shell_operator.Combine.Ids.{take_while, without_task}
use shell_operator.Combine.Dropped.{combine-contexts}
use shell_operator.Operator.HookRun.{
  some_or, Parsed, Runner, HookResult, failed, operations, malformed, HookHandled, PatchOperation,
  handle_run_hook, should_run_hook, prepare, take_combined, should_combine, is_status_patch,
  after_failure, combined_metadata,
}
use shell_operator.Operator.Attempts.{
  status_after, note_failure, Operator, Attempt, task_handle_hook_run, handle_hook, run_prepared,
  to_unlock,
}

keep-All :
    (ops : List PatchOperation) → All (λ o. is_status_patch o ≡ true) (keep is_status_patch ops)
keep-All [] = tt
keep-All (o ∷ os) = elim (Bool-cases (is_status_patch o)) [
  | inl q ↦ rw q (q, keep-All os)
  | inr q ↦ rw q (keep-All os)
]

abbrev pub IsRefused : HookHandled → Type 0
IsRefused h =
    (h.error ≢ none)
    × All (λ o. is_status_patch o ≡ true) h.executed
    × (h.applied ≡ [])
    × (h.admission_prop ≡ none)
    × (h.conversion_prop ≡ none)

parsed-cases :
    (p : Parsed PatchOperation)
    → ((msg : String) × (p ≡ malformed msg)) ⊎ ((ops : List PatchOperation) × (p ≡ operations ops))
parsed-cases (malformed msg) = inl (msg, refl)
parsed-cases (operations ops) = inr (ops, refl)

executed-IsRefused :
    (r : Runner) (ops : List PatchOperation) (result : HookResult) (err : String)
    → (result.kubernetes_patch_bytes == "") ≡ false
    → r.parse_operations result.kubernetes_patch_bytes ≡ operations ops
    → IsRefused (after_failure r (some result) err)
unfolding after_failure
executed-IsRefused r ops result err b p =
    elim (Option-cases (r.execute_operations (keep is_status_patch ops))) [
      | inl q ↦ rw (b, p, q, after_failure) (λ q. cc, keep-All ops, refl, refl, refl)
      | inr (msg, q) ↦ rw (b, p, q, after_failure) (λ q. cc, keep-All ops, refl, refl, refl)
    ]

after_failure-IsRefused :
    (r : Runner) (result : Option HookResult) (err : String)
    → IsRefused (after_failure r result err)
unfolding after_failure
after_failure-IsRefused r none err = (λ q. cc, tt, refl, refl, refl)
after_failure-IsRefused r (some result) err =
    elim (Bool-cases (result.kubernetes_patch_bytes == "")) [
      | inl b ↦ rw (b, after_failure) (λ q. cc, tt, refl, refl, refl)
      | inr b ↦ elim (parsed-cases (r.parse_operations result.kubernetes_patch_bytes)) [
        | inl (msg, p) ↦ rw (b, p, after_failure) (λ q. cc, tt, refl, refl, refl)
        | inr (ops, p) ↦ executed-IsRefused r ops result err b p
      ]
    ]

-- If the hook fails, handleRunHook answers an error, keeps no response and applies no metrics, and all
-- operations that it executes are patches of the status that ignore errors of the hook.
pub handle_run_hook-failed :
    (r : Runner) (m : HookMetadata) (result : Option HookResult) (err : String)
    → r.run m ≡ failed result err
    → IsRefused (handle_run_hook r m)
unfolding handle_run_hook
handle_run_hook-failed r m result err e =
    rw (e, handle_run_hook) (after_failure-IsRefused r result err)

combine_nothing :
    (q : TaskQueue) (t : Task)
    → (combine_binding_context_for_hook q t).0 ≡ nothing
    → (combine_binding_context_for_hook q t).1 ≡ q
unfolding combine_binding_context_for_hook
combine_nothing q t h = ground arith

-- The task's object holds the metadata that the hook is to run with.
abbrev Holds : Task → Option (HookMetadata × TaskQueue) → Type 0
Holds t none = Unit
Holds t (some (m, q)) = metadata_of t q.heap ≡ hook m

update_metadata_self :
    (m : HookMetadata) (t : Task) (q : TaskQueue)
    → metadata_of t (with_heap (update_metadata (hook m) t) q).heap ≡ hook m
unfolding change
update_metadata_self m t q = ground (arith, nat_key.same_iff t.pointer t.pointer)

take_combined-Holds :
    (m : HookMetadata) (t : Task) (o : CombineOutcome) (q q' : TaskQueue)
    → metadata_of t q.heap ≡ hook m
    → (o ≡ nothing → q' ≡ q)
    → Holds t (take_combined m t (o, q'))
unfolding take_combined
take_combined-Holds m t panics q q' h n = tt
take_combined-Holds m t nothing q q' h n = ap (λ x. metadata_of t x.heap) (n refl) ∙ h
take_combined-Holds m t (combines r) q q' h n = update_metadata_self (combined_metadata r m) t q'

prepare-Holds :
    (version : String) (m : HookMetadata) (t : Task) (q : TaskQueue)
    → metadata_of t q.heap ≡ hook m
    → Holds t (prepare version m t q)
unfolding prepare
prepare-Holds version m t q h = elim (Bool-cases (version == "v1")) [
  | inr v ↦ rw (v, prepare) h
  | inl v ↦ elim (Option-cases (should_combine m)) [
    | inl s ↦ rw (v, s, prepare) tt
    | inr (true, s) ↦
        let (o, q') = combine_binding_context_for_hook q t in
        rw (v, s, prepare) (take_combined-Holds m t o q q' h (combine_nothing q t))
    | inr (false, s) ↦ rw (v, s, prepare) h
  ]
]

-- The monitors of the metadata are unlocked after a successful Synchronization, and none otherwise.
abbrev pub IsUnlocked : Bool → TaskStatus → List String → List String → Type 0
IsUnlocked sync s monitor_ids unlocked =
    ((sync ≡ true) × (s ≡ success) × (unlocked ≡ monitor_ids))
    ⊎ (((sync ≡ false) ⊎ (s ≢ success)) × (unlocked ≡ []))

to_unlock-IsUnlocked :
    (sync : Bool) (s : TaskStatus) (m : HookMetadata)
    → IsUnlocked sync s m.monitor_ids (to_unlock sync s m)
to_unlock-IsUnlocked false s m = inr (inl refl, refl)
to_unlock-IsUnlocked true success m = inl (refl, refl, refl)
to_unlock-IsUnlocked true fail m = inr (inr (λ e. cc), refl)
to_unlock-IsUnlocked true repeat m = inr (inr (λ e. cc), refl)
to_unlock-IsUnlocked true TaskStatus.keep m = inr (inr (λ e. cc), refl)
to_unlock-IsUnlocked true (other x) m = inr (inr (λ e. cc), refl)

-- What an attempt leaves of the task's metadata, and which monitors it unlocks.
abbrev IsSettled : Bool → Task → Attempt → Type 0
IsSettled sync t a =
    (s : TaskStatus)
    → a.status ≡ some s
    → (m : HookMetadata) × (metadata_of t a.queue.heap ≡ hook m)
      × ((a.ran_with ≡ none) ⊎ (a.ran_with ≡ some m))
      × IsUnlocked sync s m.monitor_ids a.unlocked

note_failure-metadata :
    (e : Option String) (m m' : HookMetadata) (t : Task) (q : TaskQueue)
    → metadata_of t q.heap ≡ hook m'
    → metadata_of t (note_failure e m t q).heap ≡ hook m'
unfolding change
note_failure-metadata none m m' t q h = h
note_failure-metadata (some msg) m m' t q h = ground arith

run_prepared-IsSettled :
    (op : Operator) (sync : Bool) (t : Task) (p : Option (HookMetadata × TaskQueue)) (q : TaskQueue)
    → Holds t p
    → IsSettled sync t (run_prepared op sync t p q)
unfolding run_prepared
run_prepared-IsSettled op sync t none q h s e = cc
run_prepared-IsSettled op sync t (some (m, q')) q h s e =
    let h' = handle_run_hook op.runner m in
    let same : status_after h'.error m ≡ s = ground arith in
    (
      m,
      note_failure-metadata h'.error m m t q' h,
      inr refl,
      subst (λ x. IsUnlocked sync x m.monitor_ids (to_unlock sync (status_after h'.error m) m)) same
          (to_unlock-IsUnlocked sync (status_after h'.error m) m),
    )

handle_hook-IsSettled :
    (op : Operator) (version : String) (m : HookMetadata) (t : Task) (q : TaskQueue)
    → metadata_of t q.heap ≡ hook m
    → IsSettled (is_synchronization m) t (handle_hook op version m t q)
unfolding handle_hook
handle_hook-IsSettled op version m t q h = elim (Bool-cases (should_run_hook version m)) [
  | inl b ↦
      rw (b, handle_hook)
        (run_prepared-IsSettled op (is_synchronization m) t (prepare version m t q) q
          (prepare-Holds version m t q h))
  | inr b ↦
      rw (b, handle_hook)
        (λ s e.
          let same : success ≡ s = ground arith in
          let sync = is_synchronization m in
          (
            m,
            h,
            inl refl,
            subst (λ x. IsUnlocked sync x m.monitor_ids (to_unlock sync success m)) same
                (to_unlock-IsUnlocked sync success m),
          ))
]

task_handle_hook_run-known :
    (op : Operator) (t : Task) (q : TaskQueue) (m : HookMetadata) (version : String)
    → metadata_of t q.heap ≡ hook m
    → op.get_hook m.hook_name ≡ some version
    → op.rate_limit_wait m.hook_name ≡ true
    → task_handle_hook_run op t q ≡ handle_hook op version m t q
unfolding task_handle_hook_run
task_handle_hook_run-known op t q m version h g r = rw (h, g, r, task_handle_hook_run) refl

-- For a task with hook metadata, a hook that is known and a rate limit that lets it run: if
-- taskHandleHookRun answers a status, then the task is left with the metadata with which the hook has run,
-- if it has run, so a retry has all the binding contexts that were combined; and if the task was a
-- Synchronization and the status is Success, the events of all monitors in that metadata are unlocked, in their
-- order, and else none.
pub task_handle_hook_run-settles :
    (op : Operator) (t : Task) (q : TaskQueue) (m : HookMetadata) (version : String)
    (s : TaskStatus)
    → metadata_of t q.heap ≡ hook m
    → op.get_hook m.hook_name ≡ some version
    → op.rate_limit_wait m.hook_name ≡ true
    → (task_handle_hook_run op t q).status ≡ some s
    → let a = task_handle_hook_run op t q in
      (m' : HookMetadata) × (metadata_of t a.queue.heap ≡ hook m')
      × ((a.ran_with ≡ none) ⊎ (a.ran_with ≡ some m'))
      × IsUnlocked (is_synchronization m) s m'.monitor_ids a.unlocked
task_handle_hook_run-settles op t q m version s h g r e =
    let x = task_handle_hook_run-known op t q m version h g r in
    subst (IsSettled (is_synchronization m) t) (sym x) (handle_hook-IsSettled op version m t q h) s
      e

some_or-append : (xs ys : List String) → some_or (xs ++ ys) xs ≡ xs ++ ys
some_or-append [] [] = refl
some_or-append [] (y ∷ ys) = refl
some_or-append (x ∷ xs) ys = refl

-- For a version v1 hook that is known and may run, and a task that may be combined, with tasks of the same hook
-- right behind it: the hook runs with the task's binding contexts and then those of these tasks, in
-- their order, of which one that is followed by one of its group is left out, and with all their monitors.
pub task_handle_hook_run-contexts :
    (op : Operator) (t : Task) (q : TaskQueue) (m : HookMetadata) (x : Task) (xs : List Task)
    → metadata_of t q.heap ≡ hook m
    → op.get_hook m.hook_name ≡ some "v1"
    → op.rate_limit_wait m.hook_name ≡ true
    → should_run_hook "v1" m ≡ true
    → should_combine m ≡ some true
    → take_while (is_same_hook q.heap t m.hook_name) (without_task t (get_snapshot q.storage))
      ≡ x ∷ xs
    → (task_handle_hook_run op t q).ran_with
      ≡ some (record m {
        binding_context = compact_adjacent (m.binding_context ++ contexts_of q.heap (x ∷ xs));
        monitor_ids = m.monitor_ids ++ monitor_ids_of q.heap (x ∷ xs);
      })
unfolding handle_hook run_prepared prepare take_combined
task_handle_hook_run-contexts op t q m x xs h g r run c e =
    ap (λ a. a.ran_with) (task_handle_hook_run-known op t q m "v1" h g r)
    ∙ rw (run, c, combine-contexts q t m x xs h e, handle_hook)
        (rw (some_or-append m.monitor_ids (monitor_ids_of q.heap (x ∷ xs))) refl)
