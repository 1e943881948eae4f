-- ===== src/Queue/Delivered.antt =====
-- The second pass of TaskQueue.compaction (pkg/task/queue/task_queue.go): what becomes of a hook's first task while the
-- groups of all hooks are merged.
use shell_operator.Base.{
  ◌≡◌, ◌≢◌, ◌==◌, string_key, nat_key, List, [], ◌∷◌, ◌++◌, some, String, true, false, keep, refl,
  arith, All, eq_iff, Option-cases, Bool-cases, inl, inr, ap, ◌∙◌, sym,
}
use shell_operator.LinkedList.Sequence.{values}
use shell_operator.Task.{
  Task, HookMetadata, Metadata, hook, hook_metadata, metadata_of, Heap, change, update_metadata,
  contexts_of, monitor_ids_of,
}
use shell_operator.Counter.{is_empty}
use shell_operator.Queue.State.{CompactionGroup, Runtime, TaskQueue}
use shell_operator.Queue.Merge.{merge_group, merge_groups}
use shell_operator.Queue.Groups.{Groups}
use shell_operator.Queue.Grouped.{group_tasks}
use shell_operator.Queue.Merged.{merge_group-empty, merge_groups-cons}
use shell_operator.Queue.Handed.{name_in, name_of, merged, merge_group-heap}

name_of-some :
    (h : Heap) (t : Task) (n : String)
    → name_of h t ≡ some n
    → (m : HookMetadata) × (hook_metadata (metadata_of t h) ≡ some m) × (m.hook_name ≡ n)
name_of-some h t n e = elim (Option-cases (hook_metadata (metadata_of t h))) [
  | inl q ↦ absurd (ground arith)
  | inr (m, q) ↦ (m, q, ground arith)
]

-- Storing metadata changes the tasks at that pointer.
update-other :
    (m : Metadata) (t u : Task) (h : Heap)
    → (t.pointer == u.pointer) ≡ false
    → metadata_of t (update_metadata m u h) ≡ metadata_of t h
unfolding change
update-other m t u h e = rw (e, metadata_of, change) refl

update-same :
    (m : Metadata) (t u : Task) (h : Heap)
    → (t.pointer == u.pointer) ≡ true
    → metadata_of t (update_metadata m u h) ≡ m
unfolding change
update-same m t u h e = rw (e, metadata_of, change) refl

same_metadata :
    (t u : Task) (h : Heap) → (t.pointer == u.pointer) ≡ true → metadata_of t h ≡ metadata_of u h
same_metadata t u h e = let p : t.pointer ≡ u.pointer = ground arith in ap (λ a. (h a).metadata) p

abbrev pub AllNamed : Heap → String → List Task → Type 0
AllNamed h n = All (λ t. name_of h t ≡ some n)

-- Every group holds tasks of its hook.
abbrev pub AreNamed : Heap → Groups → Type 0
AreNamed h = All (λ e. AllNamed h e.0 (group_tasks (some e.1)))

kept_head :
    (j n : String) (d g : CompactionGroup) (gs : Groups)
    → keep (λ e. e.0 == n) ((j, d) ∷ gs) ≡ (n, g) ∷ []
    → (j == n) ≡ true
    → (d ≡ g) × (keep (λ e. e.0 == n) gs ≡ [])
kept_head j n d g gs h q = (ground arith, ground arith)

module _ (world : Runtime) where
  -- The merge of one hook's group leaves the metadata of other hooks' tasks.
  merge_group-other :
      (g : CompactionGroup) (q : TaskQueue) (t : Task) (n k : String)
      → name_of q.heap t ≡ some n
      → name_of q.heap g.target.value ≡ some k
      → k ≢ n
      → metadata_of t (merge_group world g q).heap ≡ metadata_of t q.heap
  merge_group-other g q t n k a b ne = elim (Bool-cases (is_empty g.to_merge)) [
    | inl e ↦ ap (λ r. metadata_of t r.heap) (merge_group-empty world g q e)
    | inr e ↦
        let (m, h, s) = name_of-some q.heap g.target.value k b in
        ap (metadata_of t) (merge_group-heap world g q m e h)
        ∙ elim (Bool-cases (t.pointer == g.target.value.pointer)) [
          | inl p ↦
              let w : some n ≡ some k =
                sym a
                ∙ ap (λ r. name_in (hook_metadata r)) (same_metadata t g.target.value q.heap p)
                ∙ b in
              absurd (ne (ground arith))
          | inr p ↦
              update-other (hook (merged world g.target.value q.heap (values g.to_merge) m)) t
                g.target.value q.heap p
        ]
  ]

  -- It leaves the hook of every task.
  merge_group-name :
      (g : CompactionGroup) (q : TaskQueue) (t : Task) (k : String)
      → name_of q.heap g.target.value ≡ some k
      → name_of (merge_group world g q).heap t ≡ name_of q.heap t
  merge_group-name g q t k b = elim (Bool-cases (is_empty g.to_merge)) [
    | inl e ↦ ap (λ r. name_of r.heap t) (merge_group-empty world g q e)
    | inr e ↦
        let (m, h, s) = name_of-some q.heap g.target.value k b in
        ap (λ r. name_of r t) (merge_group-heap world g q m e h)
        ∙ elim (Bool-cases (t.pointer == g.target.value.pointer)) [
          | inl p ↦
              ap (λ r. name_in (hook_metadata r))
                (update-same (hook (merged world g.target.value q.heap (values g.to_merge) m)) t
                  g.target.value q.heap p)
              ∙ sym (ap name_in h)
              ∙ ap (λ r. name_in (hook_metadata r)) (sym (same_metadata t g.target.value q.heap p))
          | inr p ↦
              ap (λ r. name_in (hook_metadata r))
                (update-other (hook (merged world g.target.value q.heap (values g.to_merge) m)) t
                  g.target.value q.heap p)
        ]
  ]

  -- Its own first task ends with what has been gathered.
  merge_group-own :
      (g : CompactionGroup) (q : TaskQueue) (m : HookMetadata)
      → is_empty g.to_merge ≡ false
      → hook_metadata (metadata_of g.target.value q.heap) ≡ some m
      → hook_metadata (metadata_of g.target.value (merge_group world g q).heap)
        ≡ some (merged world g.target.value q.heap (values g.to_merge) m)
  merge_group-own g q m e h =
      ap (λ r. hook_metadata (metadata_of g.target.value r)) (merge_group-heap world g q m e h)
      ∙ ap hook_metadata (
          update-same (hook (merged world g.target.value q.heap (values g.to_merge) m))
            g.target.value g.target.value q.heap (ground arith))

  AllNamed-kept :
      (h h' : Heap) (n : String) (ts : List Task)
      → ((t : Task) → name_of h' t ≡ name_of h t)
      → AllNamed h n ts
      → AllNamed h' n ts
  AllNamed-kept h h' n [] f a = tt
  AllNamed-kept h h' n (t ∷ ts) f a = (f t ∙ a.0, AllNamed-kept h h' n ts f a.1)

  AreNamed-kept :
      (h h' : Heap) (gs : Groups)
      → ((t : Task) → name_of h' t ≡ name_of h t)
      → AreNamed h gs
      → AreNamed h' gs
  AreNamed-kept h h' [] f a = tt
  AreNamed-kept h h' (e ∷ gs) f a =
      (AllNamed-kept h h' e.0 (group_tasks (some e.1)) f a.0, AreNamed-kept h h' gs f a.1)

  -- The merges of the other hooks' groups leave a task's metadata.
  merge_groups-other :
      (gs : Groups) (q : TaskQueue) (t : Task) (n : String)
      → keep (λ e. e.0 == n) gs ≡ []
      → name_of q.heap t ≡ some n
      → AreNamed q.heap gs
      → metadata_of t (merge_groups world gs q).heap ≡ metadata_of t q.heap
  merge_groups-other [] q t n k a named = unfold merge_groups in refl
  merge_groups-other (e ∷ gs) q t n k a named =
      let next = merge_group world e.1 q in
      let f = λ (u : Task). merge_group-name e.1 q u e.0 named.0.0 in
      let differs : e.0 ≢ n = λ p. absurd (ground (arith, eq_iff e.0 n, p, k)) in
      ap (λ r. metadata_of t r.heap) (merge_groups-cons world e gs q)
      ∙ merge_groups-other gs next t n (ground (arith, k)) (f t ∙ a)
          (AreNamed-kept q.heap next.heap gs f named.1)
      ∙ merge_group-other e.1 q t n e.0 a named.0.0 differs

  contexts_of-kept :
      (h h' : Heap) (n : String) (ts : List Task)
      → ((t : Task) → name_of h t ≡ some n → metadata_of t h' ≡ metadata_of t h)
      → AllNamed h n ts
      → (contexts_of h' ts ≡ contexts_of h ts) × (monitor_ids_of h' ts ≡ monitor_ids_of h ts)
  unfolding contexts_of monitor_ids_of
  contexts_of-kept h h' n [] f a = (refl, refl)
  contexts_of-kept h h' n (t ∷ ts) f a =
      let (p, q) = contexts_of-kept h h' n ts f a.1 in
      let (m, e, s) = name_of-some h t n a.0 in
      let e' : hook_metadata (metadata_of t h') ≡ some m = ap hook_metadata (f t a.0) ∙ e in
      rw (e, e', contexts_of, monitor_ids_of)
        (ap (λ r. m.binding_context ++ r) p, ap (λ r. m.monitor_ids ++ r) q)

  -- In whatever order the groups are merged, a hook's first task ends with what its group has gathered.
  pub merge_groups-own :
      (gs : Groups) (q : TaskQueue) (n : String) (g : CompactionGroup) (m : HookMetadata)
      → keep (λ e. e.0 == n) gs ≡ (n, g) ∷ []
      → is_empty g.to_merge ≡ false
      → AreNamed q.heap gs
      → AllNamed q.heap n (group_tasks (some g))
      → hook_metadata (metadata_of g.target.value q.heap) ≡ some m
      → hook_metadata (metadata_of g.target.value (merge_groups world gs q).heap)
        ≡ some (merged world g.target.value q.heap (values g.to_merge) m)
  merge_groups-own [] q n g m k e named own h = absurd (ground arith)
  merge_groups-own ((j, d) ∷ gs) q n g m k e named own h =
      let next = merge_group world d q in
      let f = λ (u : Task). merge_group-name d q u j named.0.0 in
      ap (λ r. hook_metadata (metadata_of g.target.value r.heap))
        (merge_groups-cons world (j, d) gs q)
      ∙ elim (Bool-cases (j == n)) [
        | inl same ↦
            let (group, rest) = kept_head j n d g gs k same in
            ap hook_metadata (
              merge_groups-other gs next g.target.value n rest (f g.target.value ∙ own.0)
                (AreNamed-kept q.heap next.heap gs f named.1))
            ∙ ap (λ r. hook_metadata (metadata_of g.target.value (merge_group world r q).heap))
                group
            ∙ merge_group-own g q m e h
        | inr other ↦
            let ne : j ≢ n = λ p. absurd (ground (arith, eq_iff j n, p, other)) in
            let kept = λ (t : Task) (a : name_of q.heap t ≡ some n).
              merge_group-other d q t n j a named.0.0 ne in
            let (cs, ids) = contexts_of-kept q.heap next.heap n (values g.to_merge) kept own.1 in
            merge_groups-own gs next n g m (ground (arith, k, other)) e
              (AreNamed-kept q.heap next.heap gs f named.1)
              (AllNamed-kept q.heap next.heap n (group_tasks (some g)) f own)
              (ap hook_metadata (kept g.target.value own.0) ∙ h)
            ∙ rw (cs, ids) refl
      ]
