-- ===== src/Queue/Merged.antt =====
-- The second pass of TaskQueue.compaction (pkg/task/queue/task_queue.go): the merges take out what the groups mark.
use shell_operator.Base.{
  ℕ, Bool, ◌≡◌, string_key, nat_key, List, [], ◌∷◌, none, some, String, true, false, not, keep,
  refl, arith, All, Option-cases, Bool-cases, inl, inr, ap, ◌∙◌, keep_all, keep-keep, keep-cong,
  sym, subst,
}
use shell_operator.LinkedList.Sequence.{Element, holds, IsDistinct}
use shell_operator.LinkedList.Sequence.Kept.{without-keep, IsDistinct-keep}
use shell_operator.Task.{Task, HookMetadata, hook_metadata, metadata_of, Heap, change, task_has_id}
use shell_operator.Counter.{is_empty}
use shell_operator.Queue.State.{CompactionGroup, Runtime, TaskQueue}
use shell_operator.Queue.Merge.{
  drop_merged, Gathered, gather, merge_elements, store_merged, merge_into, merge_group,
  merge_groups,
}
use shell_operator.Queue.Groups.{Groups, in_groups}

abbrev pub is_hook : Heap → Task → Bool
is_hook h t = elim (hook_metadata (metadata_of t h)) [ none ↦ false | some m ↦ true ]

abbrev pub elements_of : TaskQueue → List (Element Task)
elements_of q = q.storage.items.elements

drop_merged-elements :
    (e : Element Task) (q : TaskQueue)
    → IsDistinct (elements_of q)
    → elements_of (drop_merged e q)
      ≡ keep (λ x. not (nat_key.same x.handle e.handle)) (elements_of q)
unfolding drop_merged
drop_merged-elements e q d = without-keep e.handle (elements_of q) d

pub drop_merged-heap : (e : Element Task) (q : TaskQueue) → (drop_merged e q).heap ≡ q.heap
unfolding drop_merged
drop_merged-heap e q = refl

pub merge_elements-some :
    (e : Element Task) (es : List (Element Task)) (g : Gathered) (q : TaskQueue) (m : HookMetadata)
    → hook_metadata (metadata_of e.value q.heap) ≡ some m
    → merge_elements (e ∷ es) g q ≡ merge_elements es (gather m g) (drop_merged e q)
unfolding merge_elements
merge_elements-some e es g q m h = rw (h, merge_elements)

is_hook-some :
    (t : Task) (h : Heap)
    → is_hook h t ≡ true
    → (m : HookMetadata) × (hook_metadata (metadata_of t h) ≡ some m)
is_hook-some t h p = elim (Option-cases (hook_metadata (metadata_of t h))) [
  | inl e ↦ absurd (ground arith)
  | inr (m, e) ↦ (m, e)
]

abbrev pub AreHooks : Heap → List (Element Task) → Type 0
AreHooks h = All (λ e. is_hook h e.value ≡ true)

-- The merge of one group's elements takes them out, and touches no task's object.
merge_elements-elements :
    (es : List (Element Task)) (g : Gathered) (q : TaskQueue)
    → IsDistinct (elements_of q)
    → AreHooks q.heap es
    → (elements_of (merge_elements es g q).1 ≡ keep (λ x. not (holds x.handle es)) (elements_of q))
      × ((merge_elements es g q).1.heap ≡ q.heap)
merge_elements-elements [] g q d h = unfold merge_elements in (sym (keep_all (elements_of q)), refl)
merge_elements-elements (e ∷ es) g q d h =
    let (m, p) = is_hook-some e.value q.heap h.0 in
    let dropped = drop_merged-elements e q d in
    let hooks : AreHooks (drop_merged e q).heap es =
      subst (λ r. AreHooks r es) (sym (drop_merged-heap e q)) h.1 in
    let (a, b) =
      merge_elements-elements es (gather m g) (drop_merged e q)
        (subst IsDistinct (sym dropped) (IsDistinct-keep _ (elements_of q) d)) hooks in
    let step = merge_elements-some e es g q m p in
    (
      ap (λ r. elements_of r.1) step
          ∙ a
          ∙ ap (keep (λ x. not (holds x.handle es))) dropped
          ∙ keep-keep (λ x. not (holds x.handle es)) (λ x. not (nat_key.same x.handle e.handle))
              (λ x. not (holds x.handle (e ∷ es))) (elements_of q) (λ x. ground arith),
      ap (λ r. r.1.heap) step ∙ b ∙ drop_merged-heap e q,
    )

-- A heap in which no hook metadata of another has been lost.
abbrev KeepsHooks : Heap → Heap → Type 0
KeepsHooks h h' = (t : Task) → is_hook h t ≡ true → is_hook h' t ≡ true

store_merged-elements :
    (world : Runtime) (g : CompactionGroup) (m : HookMetadata) (r : Gathered × TaskQueue)
    → elements_of (store_merged world g m r) ≡ elements_of r.1
unfolding store_merged
store_merged-elements world g m r = refl

store_merged-KeepsHooks :
    (world : Runtime) (g : CompactionGroup) (m : HookMetadata) (r : Gathered × TaskQueue)
    → KeepsHooks r.1.heap (store_merged world g m r).heap
unfolding store_merged change
store_merged-KeepsHooks world g m r t h = ground arith

abbrev pub group_elements : CompactionGroup → List (Element Task)
group_elements g = g.target ∷ g.to_merge

pub merge_group-empty :
    (world : Runtime) (g : CompactionGroup) (q : TaskQueue)
    → is_empty g.to_merge ≡ true
    → merge_group world g q ≡ q
unfolding merge_group
merge_group-empty world g q e = rw (e, merge_group)

pub merge_group-some :
    (world : Runtime) (g : CompactionGroup) (q : TaskQueue) (m : HookMetadata)
    → is_empty g.to_merge ≡ false
    → hook_metadata (metadata_of g.target.value q.heap) ≡ some m
    → merge_group world g q
      ≡ store_merged world g m (
          merge_elements g.to_merge
            (record { contexts = m.binding_context; monitor_ids = m.monitor_ids })
            q)
unfolding merge_group merge_into
merge_group-some world g q m e h = rw (e, h, merge_group)

empty-holds : (es : List (Element Task)) (h : ℕ) → is_empty es ≡ true → not (holds h es) ≡ true
empty-holds [] h e = refl
empty-holds (x ∷ es) h e = absurd (ground arith)

-- One group's merge takes out the elements that the group marks.
merge_group-elements :
    (world : Runtime) (g : CompactionGroup) (q : TaskQueue)
    → IsDistinct (elements_of q)
    → AreHooks q.heap (group_elements g)
    → (elements_of (merge_group world g q)
        ≡ keep (λ x. not (holds x.handle g.to_merge)) (elements_of q))
      × KeepsHooks q.heap (merge_group world g q).heap
merge_group-elements world g q d h = elim (Bool-cases (is_empty g.to_merge)) [
  | inl e ↦ (
    ap elements_of (merge_group-empty world g q e)
        ∙ sym (keep_all (elements_of q))
        ∙ keep-cong (λ _. true) (λ x. not (holds x.handle g.to_merge)) (elements_of q)
            (λ x. sym (empty-holds g.to_merge x.handle e)),
    subst (λ r. KeepsHooks q.heap r.heap) (sym (merge_group-empty world g q e)) (λ t k. k),
  )
  | inr e ↦
      let (m, p) = is_hook-some g.target.value q.heap h.0 in
      let start : Gathered = record { contexts = m.binding_context; monitor_ids = m.monitor_ids } in
      let (a, b) = merge_elements-elements g.to_merge start q d h.1 in
      let step = merge_group-some world g q m e p in
      (
        ap elements_of step
            ∙ store_merged-elements world g m (merge_elements g.to_merge start q)
            ∙ a,
        subst (λ r. KeepsHooks q.heap r.heap) (sym step)
            (λ t k.
              store_merged-KeepsHooks world g m (merge_elements g.to_merge start q) t
                (subst (λ r. is_hook r t ≡ true) (sym b) k)),
      )
]

-- All groups of a compaction hold tasks of hooks.
abbrev pub GroupsAreHooks : Heap → Groups → Type 0
GroupsAreHooks h = All (λ n. AreHooks h (group_elements n.1))

AreHooks-kept :
    (h h' : Heap) (es : List (Element Task)) → KeepsHooks h h' → AreHooks h es → AreHooks h' es
AreHooks-kept h h' [] k a = tt
AreHooks-kept h h' (e ∷ es) k a = (k e.value a.0, AreHooks-kept h h' es k a.1)

GroupsAreHooks-kept :
    (h h' : Heap) (gs : Groups) → KeepsHooks h h' → GroupsAreHooks h gs → GroupsAreHooks h' gs
GroupsAreHooks-kept h h' [] k a = tt
GroupsAreHooks-kept h h' (n ∷ gs) k a =
    (AreHooks-kept h h' (group_elements n.1) k a.0, GroupsAreHooks-kept h h' gs k a.1)

pub merge_groups-cons :
    (world : Runtime) (n : String × CompactionGroup) (gs : Groups) (q : TaskQueue)
    → merge_groups world (n ∷ gs) q ≡ merge_groups world gs (merge_group world n.1 q)
unfolding merge_groups
merge_groups-cons world n gs q = refl

pub merge_groups-elements :
    (world : Runtime) (gs : Groups) (q : TaskQueue)
    → IsDistinct (elements_of q)
    → GroupsAreHooks q.heap gs
    → elements_of (merge_groups world gs q)
      ≡ keep (λ x. not (in_groups x.handle gs)) (elements_of q)
merge_groups-elements world [] q d h = unfold merge_groups in sym (keep_all (elements_of q))
merge_groups-elements world (n ∷ gs) q d h =
    let (a, b) = merge_group-elements world n.1 q d h.0 in
    let next = merge_group world n.1 q in
    ap elements_of (merge_groups-cons world n gs q)
    ∙ merge_groups-elements world gs next
        (subst IsDistinct (sym a) (IsDistinct-keep _ (elements_of q) d))
        (GroupsAreHooks-kept q.heap next.heap gs b h.1)
    ∙ ap (keep (λ x. not (in_groups x.handle gs))) a
    ∙ keep-keep (λ x. not (in_groups x.handle gs)) (λ x. not (holds x.handle n.1.to_merge))
        (λ x. not (in_groups x.handle (n ∷ gs))) (elements_of q) (λ x. ground arith)
