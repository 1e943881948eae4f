-- ===== src/Events/Dispatched.antt =====
-- The tasks that an event of Kubernetes puts into the queues: pkg/shell-operator/manager_events_handler.go with what it calls.
use shell_operator.Base.{
  if◌then◌else◌, eq_iff, sym, ◌≢◌, subst, ◌<◌, has_key, Option-cases, ◌+◌, Bool-cases, ◌==◌, ◌∙◌,
  ◌++◌, keep, ap, All, map, lookup, ◌≡◌, Option, ℕ, List, String, inr, inl, false, true, some, none,
  nat_key, string_key, arith, refl, [], ◌∷◌,
}
use mathlib.Core.Option
use shell_operator.Task.{
  BindingContext, Task, HookMetadata, Heap, hook, metadata_of, on_kubernetes_event, change,
  change_apart, change_self,
}
use shell_operator.Queue.{Runtime, TaskQueue, with_heap}
use shell_operator.QueueSet.{TaskQueueSet, get_by_name}
use shell_operator.QueueSet.Tails.{added_to, meant_for, add_tail_tasks-lookup}
use shell_operator.Bindings.{
  convert_kube_event_to_binding_context, MonitorCalls, World, EventNotice, BindingExecutionInfo,
  OnKubernetesEventConfig, info_of, can_handle_event, handle_event,
}
use shell_operator.Operator.Enabling.{new_state}
use shell_operator.Schedule.Links.{LinkOrder}
use shell_operator.Bindings.Single.{shown_context}
use shell_operator.Events.{
  LinkedHook, kube_event, hook_run_task, hook_run_metadata, infos_of, named_infos, created,
  create_tasks_from_event, store_states, seen_by_queues, handle_one_event,
}

-- A binding, with the name of its hook.
abbrev pub NamedBinding : Type 0
NamedBinding = String × OnKubernetesEventConfig

abbrev with_link : String → Option OnKubernetesEventConfig → List NamedBinding → List NamedBinding
with_link name none bs = bs
with_link name (some c) bs = (name, c) ∷ bs

module _ {M : Type 0} where
  abbrev link_in : String → Option (World M) → Option OnKubernetesEventConfig
  link_in id none = none
  link_in id (some w) = lookup id w.links

  -- The bindings that are linked to a monitor, in the order of their hooks.
  abbrev pub linked_to : String → List (LinkedHook M) → List NamedBinding
  linked_to id [] = []
  linked_to id (h ∷ hs) = with_link h.hook_name (link_in id h.kubernetes) (linked_to id hs)

abbrev pub named_info : EventNotice → NamedBinding → String × BindingExecutionInfo
named_info ev b = (b.0, info_of ev b.1)

-- What a binding is to show for an event: a context for each watch event, or one Synchronization.
abbrev pub shown_contexts : EventNotice → OnKubernetesEventConfig → List BindingContext
shown_contexts ev c =
    if ev.event_type == "Event"
    then map (λ e. shown_context "Event" (some e) c) ev.watch_events
    else if ev.event_type == "Synchronization"
    then shown_context "Synchronization" none c ∷ []
    else []

abbrev pub event_metadata : EventNotice → NamedBinding → HookMetadata
event_metadata ev b = record {
  hook_name = b.0;
  binding = b.1.binding_name;
  group = b.1.group;
  binding_type = "kubernetes";
  binding_context = shown_contexts ev b.1;
  allow_failure = b.1.allow_failure;
  monitor_ids = [];
  execute_on_synchronization = false;
}

converted_contexts :
    (ev : EventNotice) (c : OnKubernetesEventConfig)
    → convert_kube_event_to_binding_context ev c ≡ shown_contexts ev c
unfolding convert_kube_event_to_binding_context
converted_contexts ev c = elim (Bool-cases (ev.event_type == "Event")) [
  | inl e ↦
      let s = (eq_iff ev.event_type "Event").0 e in
      rw (s, convert_kube_event_to_binding_context) refl
  | inr e ↦ elim (Bool-cases (ev.event_type == "Synchronization")) [
    | inl y ↦
        let s = (eq_iff ev.event_type "Synchronization").0 y in
        rw (s, convert_kube_event_to_binding_context) refl
    | inr y ↦ rw (e, y, convert_kube_event_to_binding_context) refl
  ]
]

-- The metadata that the code makes for the task of a binding.
hook_run_metadata-event :
    (ev : EventNotice) (b : NamedBinding)
    → hook_run_metadata on_kubernetes_event b.0 (info_of ev b.1) ≡ event_metadata ev b
hook_run_metadata-event ev b =
    ap (λ cs. record (event_metadata ev b) { binding_context = cs }) (converted_contexts ev b.1)

-- The tasks are those for the bindings, one by one: they run a hook, in the queue of the binding, with the event's
-- contexts.
abbrev pub AreFor : EventNotice → List NamedBinding → List Task → Heap → Type 0
AreFor ev [] [] h = Unit
AreFor ev (b ∷ bs) (t ∷ ts) h =
    (t.task_type ≡ "HookRun")
    × (t.queue_name ≡ b.1.queue)
    × (t.compaction_id ≡ b.0)
    × (metadata_of t h ≡ hook (event_metadata ev b))
    × AreFor ev bs ts h
AreFor ev _ _ h = ⊥

lookup-with_heap :
    (name : String) (f : Heap → Heap) (qs : List (String × TaskQueue))
    → lookup name (map (λ e. (e.0, with_heap f e.1)) qs) ≡ Option.map (with_heap f) (lookup name qs)
lookup-with_heap name f [] = refl
lookup-with_heap name f ((n, q) ∷ qs) = elim (Bool-cases (n == name)) [
  | inl e ↦ rw e refl
  | inr e ↦ rw e (lookup-with_heap name f qs)
]

module _ {M R : Type 0} (calls : MonitorCalls M R) (range_links : LinkOrder) where
  infos_of-link :
      (ev : EventNotice) (h : LinkedHook M) (bs : List NamedBinding)
      → map (λ info. (h.hook_name, info)) (infos_of calls range_links (kube_event ev) h)
          ++ map (named_info ev) bs
        ≡ map (named_info ev) (with_link h.hook_name (link_in ev.monitor_id h.kubernetes) bs)
  unfolding infos_of handle_event
  infos_of-link ev h bs = elim (Option-cases h.kubernetes) [
    | inl e ↦ rw (e, infos_of, link_in) refl
    | inr (w, e) ↦ elim (Option-cases (lookup ev.monitor_id w.links)) [
      | inl l ↦
          let b : can_handle_event calls ev w ≡ false = rw (l, has_key) refl in
          rw (e, infos_of, link_in, l, b) refl
      | inr (c, l) ↦
          let b : can_handle_event calls ev w ≡ true = rw (l, has_key) refl in
          rw (e, infos_of, link_in, l, b, handle_event) refl
    ]
  ]

  named_infos-linked :
      (ev : EventNotice) (hs : List (LinkedHook M))
      → named_infos calls range_links (kube_event ev) hs
        ≡ map (named_info ev) (linked_to ev.monitor_id hs)
  unfolding named_infos
  named_infos-linked ev [] = refl
  named_infos-linked ev (h ∷ hs) =
      ap
        (λ r. map (λ info. (h.hook_name, info)) (infos_of calls range_links (kube_event ev) h) ++ r)
        (named_infos-linked ev hs)
      ∙ infos_of-link ev h (linked_to ev.monitor_id hs)

  module _ (new : ℕ → ℕ × String) where
    abbrev made : EventNotice → ℕ → List NamedBinding → List (Task × HookMetadata)
    made ev i bs = created calls range_links new on_kubernetes_event i (map (named_info ev) bs)

    abbrev Holds : Heap → Task × HookMetadata → Type 0
    Holds h t = metadata_of t.0 h ≡ hook t.1

    AreFor-meant :
        (ev : EventNotice) (name : String) (i : ℕ) (bs : List NamedBinding) (h : Heap)
        → All (Holds h) (made ev i bs)
        → AreFor ev
            (keep (λ b. b.1.queue == name) bs)
            (meant_for name (map (λ t. t.0) (made ev i bs)))
            h
    unfolding created
    AreFor-meant ev name i [] h a = tt
    AreFor-meant ev name i (b ∷ bs) h a = elim (Bool-cases (b.1.queue == name)) [
      | inl e ↦ rw e (
        refl,
        refl,
        refl,
        a.0 ∙ ap hook (hook_run_metadata-event ev b),
        AreFor-meant ev name (i + 1) bs h a.1,
      )
      | inr e ↦ rw e (AreFor-meant ev name (i + 1) bs h a.1)
    ]

    store_states-apart :
        (ev : EventNotice) (j i : ℕ) (bs : List NamedBinding) (h : Heap)
        → ((j k : ℕ) → (new j).0 ≡ (new k).0 → j ≡ k)
        → j < i
        → store_states calls range_links new (made ev i bs) h (new j).0 ≡ h (new j).0
    unfolding created store_states
    store_states-apart ev j i [] h fresh l = refl
    store_states-apart ev j i (b ∷ bs) h fresh l =
        let t = hook_run_task (new i) b.0 (info_of ev b.1) in
        let s = new_state (hook_run_metadata on_kubernetes_event b.0 (info_of ev b.1)) in
        let n : (new j).0 ≢ (new i).0 = λ p. let q = fresh j i p in omega arith in
        store_states-apart ev j (i + 1) bs (change (λ _. s) t h) fresh (omega arith)
        ∙ change_apart s t h (new j).0 n

    store_states-Holds :
        (ev : EventNotice) (i : ℕ) (bs : List NamedBinding) (h : Heap)
        → ((j k : ℕ) → (new j).0 ≡ (new k).0 → j ≡ k)
        → All (Holds (store_states calls range_links new (made ev i bs) h)) (made ev i bs)
    unfolding created store_states
    store_states-Holds ev i [] h fresh = tt
    store_states-Holds ev i (b ∷ bs) h fresh =
        let t = hook_run_task (new i) b.0 (info_of ev b.1) in
        let s = new_state (hook_run_metadata on_kubernetes_event b.0 (info_of ev b.1)) in
        let h' = change (λ _. s) t h in
        (
          ap (λ x. x.metadata)
              (store_states-apart ev i (i + 1) bs h' fresh (omega arith) ∙ change_self s t h),
          store_states-Holds ev (i + 1) bs h' fresh,
        )

    -- An event of Kubernetes, for hooks in order: every queue of the set gets, behind its tasks and as one
    -- AddLast would add them, one task for each binding that is linked to the event's monitor and names that queue, in the
    -- order of the hooks. Each of them runs the hook of its binding with one context for each watch event, or with one
    -- Synchronization, and with the settings of the binding. No queue
    -- is made. New tasks have addresses of their own.
    pub handle_one_event-queues :
        (runtime : Runtime) (hs : List (LinkedHook M)) (ev : EventNotice) (s : TaskQueueSet)
        (name : String)
        → ((j k : ℕ) → (new j).0 ≡ (new k).0 → j ≡ k)
        → let stored =
            store_states calls range_links new
              (create_tasks_from_event calls range_links new (kube_event ev) hs) in
          (ts : List Task) × (get_by_name name
              (handle_one_event calls range_links new runtime hs (kube_event ev) s)
            ≡ added_to runtime ts (Option.map (with_heap stored) (get_by_name name s)))
          × ((h : Heap)
              → AreFor ev
                  (keep (λ b. b.1.queue == name) (linked_to ev.monitor_id hs))
                  ts
                  (stored h))
    unfolding handle_one_event
    handle_one_event-queues runtime hs ev s name fresh =
        let bs = linked_to ev.monitor_id hs in
        let made_ts = create_tasks_from_event calls range_links new (kube_event ev) hs in
        let e : made_ts ≡ made ev 0 bs =
          ap (created calls range_links new on_kubernetes_event 0) (named_infos-linked ev hs) in
        let stored = store_states calls range_links new made_ts in
        (
          meant_for name (map (λ t. t.0) made_ts),
          add_tail_tasks-lookup runtime (map (λ t. t.0) made_ts)
                (seen_by_queues calls range_links new stored s) name
              ∙ ap (added_to runtime (meant_for name (map (λ t. t.0) made_ts)))
                  (lookup-with_heap name stored s.queues),
          λ h.
              subst
                (λ x.
                  AreFor ev (keep (λ b. b.1.queue == name) bs) (meant_for name (map (λ t. t.0) x))
                    (store_states calls range_links new x h))
                (sym e)
                (AreFor-meant ev name 0 bs (store_states calls range_links new (made ev 0 bs) h)
                  (store_states-Holds ev 0 bs h fresh)),
        )
