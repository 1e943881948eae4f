-- ===== src/Operator/Synchronized.antt =====
-- The tasks that enabling the bindings of a hook puts into its queue: pkg/shell-operator/operator.go, with the controller of
-- pkg/hook/controller and the worker of pkg/task/queue/task_queue.go.
use mathlib.Core.List.{append-nil}
use shell_operator.Base.{
  sym, subst, ◌++◌, All, ◌∙◌, ap, ◌<◌, ◌≢◌, ◌+◌, List, ℕ, ◌≡◌, String, false, true, some, none,
  nat_key, string_key, arith, refl, [], ◌∷◌,
}
use shell_operator.Task.{
  Task, HookMetadata, Heap, hook, task_has_id, metadata_of, change, change_apart, change_self,
}
use shell_operator.Storage.{success, get_snapshot}
use shell_operator.Storage.Index.{IsIndexed}
use shell_operator.Queue.{
  Runtime, TaskQueue, TaskResult, Handler, returns, process_one, before_handler, after_handler,
  apply_status, apply_delay, run_after_handle, with_heap,
}
use shell_operator.Queue.Settled.{process_one-success, handled, processed}
use shell_operator.Bindings.{
  MonitorCalls, World, OnKubernetesEventConfig, enable_kubernetes_bindings,
}
use shell_operator.Bindings.Single.{
  shown_context, Configs, AreDistinct, IsLinkedOrNot, CanCreate, IsLive, synchronization_infos,
}
use shell_operator.Bindings.Enable.{enable_kubernetes_bindings-answers}
use shell_operator.Operator.Enabling.{
  Found, controller, new_state, create_tasks, after_enable, handle_enable_kubernetes_bindings,
  task_handle_enable_kubernetes_bindings, created_result, enable_kubernetes_bindings_handler,
  EnableAttempt,
}

module _ (name : String) (new : ℕ → ℕ × String) where
  -- A task for the main queue that runs the hook.
  abbrev pub run_task : ℕ → Task
  run_task i = record {
    pointer = (new i).0;
    id = (new i).1;
    task_type = "HookRun";
    queue_name = "main";
    compaction_id = name;
  }

  -- One task for each binding, in their order.
  abbrev pub sync_tasks : ℕ → Configs → List Task
  sync_tasks i [] = []
  sync_tasks i (c ∷ cs) = run_task i ∷ sync_tasks (i + 1) cs

  -- What the task of a binding holds: its one Synchronization, its settings and its one monitor.
  abbrev pub sync_metadata_of : OnKubernetesEventConfig → HookMetadata
  sync_metadata_of c = record {
    hook_name = name;
    binding = c.binding_name;
    group = c.group;
    binding_type = "kubernetes";
    binding_context = shown_context "Synchronization" none c ∷ [];
    allow_failure = c.allow_failure;
    monitor_ids = c.monitor_id ∷ [];
    execute_on_synchronization = c.execute_hook_on_synchronization;
  }

  -- Each task holds the Synchronization of its binding.
  abbrev pub HoldSynchronizations : ℕ → Configs → Heap → Type 0
  HoldSynchronizations i [] h = Unit
  HoldSynchronizations i (c ∷ cs) h =
      (metadata_of (run_task i) h ≡ hook (sync_metadata_of c)) × HoldSynchronizations (i + 1) cs h

  abbrev sync_heap : ℕ → Configs → Heap → Heap
  sync_heap i [] h = h
  sync_heap i (c ∷ cs) h =
      sync_heap (i + 1) cs (change (λ _. new_state (sync_metadata_of c)) (run_task i) h)

  create_tasks-sync :
      (i : ℕ) (cs : Configs) (h : Heap)
      → create_tasks name new i (synchronization_infos cs) h
        ≡ some (sync_tasks i cs, sync_heap i cs h)
  unfolding create_tasks
  create_tasks-sync i [] h = refl
  create_tasks-sync i (c ∷ cs) h =
      let h' = change (λ _. new_state (sync_metadata_of c)) (run_task i) h in
      rw (create_tasks-sync (i + 1) cs h') refl

  module _ (fresh : (j k : ℕ) → (new j).0 ≡ (new k).0 → j ≡ k) where
    sync_heap-earlier :
        (i j : ℕ) (cs : Configs) (h : Heap) → j < i → sync_heap i cs h (new j).0 ≡ h (new j).0
    sync_heap-earlier i j [] h l = refl
    sync_heap-earlier i j (c ∷ cs) h l =
        let t = run_task i in
        let s = new_state (sync_metadata_of c) in
        let n : (new j).0 ≢ (new i).0 = λ p. let q = fresh j i p in omega arith in
        sync_heap-earlier (i + 1) j cs (change (λ _. s) t h) (omega arith)
        ∙ change_apart s t h (new j).0 n

    HoldSynchronizations-created :
        (i : ℕ) (cs : Configs) (h : Heap) → HoldSynchronizations i cs (sync_heap i cs h)
    HoldSynchronizations-created i [] h = tt
    HoldSynchronizations-created i (c ∷ cs) h =
        let t = run_task i in
        let s = new_state (sync_metadata_of c) in
        let h' = change (λ _. s) t h in
        (
          ap (λ x. x.metadata)
              (sync_heap-earlier (i + 1) i cs h' (omega arith) ∙ change_self s t h),
          HoldSynchronizations-created (i + 1) cs h',
        )

  HoldSynchronizations-kept :
      (i : ℕ) (cs : Configs) (h h' : Heap)
      → ((x : Task) → metadata_of x h' ≡ metadata_of x h)
      → HoldSynchronizations i cs h
      → HoldSynchronizations i cs h'
  HoldSynchronizations-kept i [] h h' k d = tt
  HoldSynchronizations-kept i (c ∷ cs) h h' k d =
      (k (run_task i) ∙ d.0, HoldSynchronizations-kept (i + 1) cs h h' k d.1)

process_one-success_metadata :
    (world : Runtime) (handler : Handler) (t x : Task) (q : TaskQueue) (res : TaskResult)
    (q' : TaskQueue)
    → handled world handler t q ≡ (returns res, q')
    → q'.cancelled ≡ false
    → res.status ≡ success
    → res.after_handle ≡ none
    → metadata_of x (processed world handler t q).queue.heap ≡ metadata_of x q'.heap
unfolding process_one after_handler apply_status apply_delay run_after_handle change
process_one-success_metadata world handler t x q res q' h c s a = ground arith

module _ {M R : Type 0} (calls : MonitorCalls M R) (new : ℕ → ℕ × String) (message : String)
    (get_hook : String → Found) (w : World M) (distinct : AreDistinct w.bindings)
    (linked : All (IsLinkedOrNot w.links) w.bindings)
    (can_create : All (CanCreate calls w.kinds) w.bindings) where
  abbrev enabled_attempt : String → TaskQueue → EnableAttempt M
  enabled_attempt name q = record {
    result = some (created_result (sync_tasks name new 0 w.bindings));
    queue = with_heap (sync_heap name new 0 w.bindings) q;
    world = (enable_kubernetes_bindings calls w).1;
  }

  after_enable-creates :
      (name : String) (t : Task) (q : TaskQueue)
      → after_enable calls new message name t q
          (handle_enable_kubernetes_bindings calls new message true w)
        ≡ enabled_attempt name q
  unfolding after_enable handle_enable_kubernetes_bindings
  after_enable-creates name t q =
      let (e, _, _, _) = enable_kubernetes_bindings-answers calls w distinct linked can_create in
      let c = create_tasks-sync name new 0 w.bindings q.heap in rw (e, after_enable, c) refl

  enables :
      (t : Task) (q : TaskQueue) (m : HookMetadata)
      → metadata_of t q.heap ≡ hook m
      → get_hook m.hook_name ≡ controller true
      → task_handle_enable_kubernetes_bindings calls new message get_hook w t q
        ≡ enabled_attempt m.hook_name q
  unfolding task_handle_enable_kubernetes_bindings
  enables t q m h g =
      rw (h, task_handle_enable_kubernetes_bindings, g) (after_enable-creates m.hook_name t q)

  -- For a task with metadata of a hook whose bindings can be enabled: when the worker runs it, and finds it in a
  -- queue that is not cancelled and has a complete index, the task leaves the queue. First in the queue stands one new
  -- task for each binding, in their order, which runs the hook with the Synchronization of its
  -- binding; the others stay in order. The worker goes on at once, and every binding has a link and a monitor. New
  -- tasks have addresses of their own.
  pub process_one-synchronizes :
      (runtime : Runtime) (t : Task) (q : TaskQueue) (m : HookMetadata) (pre post : List Task)
      → ((j k : ℕ) → (new j).0 ≡ (new k).0 → j ≡ k)
      → get_hook m.hook_name ≡ controller true
      → let q' = before_handler runtime t q in
        let p =
          process_one runtime
            (enable_kubernetes_bindings_handler calls new message get_hook w)
            t
            q in
        let a = task_handle_enable_kubernetes_bindings calls new message get_hook w t q' in
        metadata_of t q'.heap ≡ hook m
        → q'.cancelled ≡ false
        → IsIndexed q'.storage
        → get_snapshot q'.storage ≡ pre ++ t ∷ post
        → (get_snapshot p.queue.storage ≡ sync_tasks m.hook_name new 0 w.bindings ++ (pre ++ post))
          × HoldSynchronizations m.hook_name new 0 w.bindings p.queue.heap
          × (p.exits ≡ false)
          × (p.sleep_delay ≡ 0)
          × All (IsLive calls a.world) w.bindings
  unfolding enable_kubernetes_bindings_handler
  process_one-synchronizes runtime t q m pre post fresh g h c v e =
      let q' = before_handler runtime t q in
      let handler = enable_kubernetes_bindings_handler calls new message get_hook w in
      let a = enables t q' m h g in
      let res = created_result (sync_tasks m.hook_name new 0 w.bindings) in
      let q'' = with_heap (sync_heap m.hook_name new 0 w.bindings) q' in
      let r : handled runtime handler t q ≡ (returns res, q'') =
        rw (a, enable_kubernetes_bindings_handler) refl in
      let (s, _, x, d) =
        process_one-success runtime handler t q res q'' pre post r c refl refl v e tt in
      let (_, live, _, _) = enable_kubernetes_bindings-answers calls w distinct linked can_create in
      (
        s ∙ append-nil (sync_tasks m.hook_name new 0 w.bindings ++ (pre ++ post)),
        HoldSynchronizations-kept m.hook_name new 0 w.bindings q''.heap
            (processed runtime handler t q).queue.heap
            (λ y. process_one-success_metadata runtime handler t y q res q'' r c refl refl)
            (HoldSynchronizations-created m.hook_name new fresh 0 w.bindings q'.heap),
        x,
        d,
        subst (λ y. All (IsLive calls y.world) w.bindings) (sym a) live,
      )
