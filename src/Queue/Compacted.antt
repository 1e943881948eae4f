-- ===== src/Queue/Compacted.antt =====
-- TaskQueue.compaction (pkg/task/queue/task_queue.go): which tasks are left in the queue.
use mathlib.Core.List.{Permᴰ}
use shell_operator.Base.{
  All-append, ℕ, ◌≡◌, ◌==◌, string_key, nat_key, List, [], ◌∷◌, ◌++◌, some, String, true, false,
  not, lookup, insert, refl, arith, All, Option-cases, Bool-cases, inl, inr, ap, ◌∙◌, keep-cong,
  All-perm, ltb, length, sym, subst,
}
use shell_operator.LinkedList.Sequence.{Element, values}
use shell_operator.Task.{Task, HookMetadata, Heap, task_has_id}
use shell_operator.Storage.{get_snapshot, storage_length}
use shell_operator.Storage.Index.{IsSound}
use shell_operator.Counter.{NameSet, reset_reached_cap}
use shell_operator.Contexts.Grouped.{IsRangeOrder}
use shell_operator.Queue.State.{CompactionGroup, Runtime, TaskQueue, with_counter}
use shell_operator.Queue.Merge.{
  mergeable, add_to_group, add_mergeable, collect_groups, merge_groups, compaction,
}
use shell_operator.Queue.Groups.{
  Groups, in_groups, first_of_hooks, unmarked-first_of_hooks, collect_groups-cons,
}
use shell_operator.Queue.Merged.{
  is_hook, elements_of, AreHooks, GroupsAreHooks, group_elements, merge_groups-elements,
}

mergeable-is_hook :
    (ids : NameSet) (q : TaskQueue) (t : Task) (m : HookMetadata)
    → mergeable ids q t ≡ some m
    → is_hook q.heap t ≡ true
unfolding mergeable
mergeable-is_hook ids q t m h = ground arith

module _ {A : Type 0} (P : A → Type 0) where
  All-insert :
      (k : String) (v : A) (m : List (String × A))
      → P v
      → All (λ e. P e.1) m
      → All (λ e. P e.1) (insert k v m)
  unfolding insert
  All-insert k v [] p h = (p, tt)
  All-insert k v ((j, w) ∷ m) p h = elim (Bool-cases (j == k)) [
    | inl e ↦ rw (e, insert) (p, h.1)
    | inr e ↦ rw (e, insert) (h.0, All-insert k v m p h.1)
  ]

  All-lookup :
      (k : String) (v : A) (m : List (String × A)) → lookup k m ≡ some v → All (λ e. P e.1) m → P v
  All-lookup k v [] e h = absurd (ground arith)
  All-lookup k v ((j, w) ∷ m) e h = elim (Bool-cases (j == k)) [
    | inl f ↦ let p : w ≡ v = ground arith in subst P p h.0
    | inr f ↦ All-lookup k v m (ground arith) h.1
  ]

  in_any_order : {m m' : List (String × A)} → Permᴰ m' m → All (λ e. P e.1) m → All (λ e. P e.1) m'
  in_any_order = All-perm (λ e. P e.1)

abbrev IsHookGroup : Heap → CompactionGroup → Type 0
IsHookGroup h g = AreHooks h (group_elements g)

add_to_group-hooks :
    (h : Heap) (e : Element Task) (name : String) (gs : Groups)
    → GroupsAreHooks h gs
    → is_hook h e.value ≡ true
    → GroupsAreHooks h (add_to_group name e gs)
unfolding add_to_group
add_to_group-hooks h e name gs a k = elim (Option-cases (lookup name gs)) [
  | inl n ↦
      rw (n, add_to_group)
        (All-insert (IsHookGroup h) name (record { target = e; to_merge = [] }) gs (k, tt) a)
  | inr (g, n) ↦
      let b = All-lookup (IsHookGroup h) name g gs n a in
      rw (n, add_to_group)
        (All-insert (IsHookGroup h) name (record g { to_merge = g.to_merge ++ e ∷ [] }) gs
          (b.0, All-append (λ x. is_hook h x.value ≡ true) g.to_merge (e ∷ []) b.1 (k, tt)) a)
]

-- The groups of the first pass hold tasks of hooks only.
collect_groups-hooks :
    (ids : NameSet) (q : TaskQueue) (es : List (Element Task)) (gs : Groups)
    → GroupsAreHooks q.heap gs
    → GroupsAreHooks q.heap (collect_groups ids q es gs)
collect_groups-hooks ids q [] gs h = unfold collect_groups in h
collect_groups-hooks ids q (e ∷ es) gs h =
    subst (GroupsAreHooks q.heap) (sym (collect_groups-cons ids q e es gs)) (
      collect_groups-hooks ids q es (add_mergeable (mergeable ids q e.value) e gs)
        (elim (Option-cases (mergeable ids q e.value)) [
          | inl n ↦ subst (λ r. GroupsAreHooks q.heap (add_mergeable r e gs)) (sym n) h
          | inr (m, n) ↦
              subst (λ r. GroupsAreHooks q.heap (add_mergeable r e gs)) (sym n)
                (add_to_group-hooks q.heap e m.hook_name gs h (mergeable-is_hook ids q e.value m n))
        ]))

in_groups-perm : (h : ℕ) {gs gs' : Groups} → Permᴰ gs' gs → in_groups h gs' ≡ in_groups h gs
in_groups-perm h Permᴰ.nil = refl
in_groups-perm h (Permᴰ.cons e d) = ground (arith, in_groups-perm h d)
in_groups-perm h (Permᴰ.swap e f) = ground arith
in_groups-perm h (Permᴰ.trans d f) = in_groups-perm h d ∙ in_groups-perm h f

length-values : (es : List (Element Task)) → length (values es) ≡ length es
length-values [] = refl
length-values (e ∷ es) = omega (arith, length-values es)

none_marked : (es : List (Element Task)) → All (λ e. in_groups e.handle [] ≡ false) es
none_marked [] = tt
none_marked (e ∷ es) = (refl, none_marked es)

first_of_few :
    (ids : NameSet) (q : TaskQueue) (ts : List Task)
    → ltb (length ts) 2 ≡ true
    → first_of_hooks ids q [] ts ≡ ts
unfolding first_of_hooks
first_of_few ids q [] h = refl
first_of_few ids q (t ∷ []) h = ground arith
first_of_few ids q (t ∷ u ∷ ts) h = absurd (ground arith)

compaction-few :
    (world : Runtime) (ids : NameSet) (q : TaskQueue)
    → ltb (storage_length q.storage) 2 ≡ true
    → compaction world ids q ≡ q
unfolding compaction
compaction-few world ids q h = rw (h, compaction)

pub compaction-many :
    (world : Runtime) (ids : NameSet) (q : TaskQueue)
    → ltb (storage_length q.storage) 2 ≡ false
    → compaction world ids q
      ≡ with_counter reset_reached_cap
          (merge_groups world (world.range_groups (collect_groups ids q (elements_of q) [])) q)
unfolding compaction
compaction-many world ids q h = rw (h, compaction)

-- A compaction leaves in the queue, in order, the tasks that may not be merged and the first task of every hook whose
-- tasks may be merged. A task may be merged if its type is compactable, its compaction id has reached the cap, or no id
-- is given, it is not being processed, and its metadata is that of a hook. The list's pointers are distinct, and
-- Go walks the map of groups in any order.
pub compaction-snapshot :
    (world : Runtime) (ids : NameSet) (q : TaskQueue)
    → IsRangeOrder world.range_groups
    → IsSound q.storage
    → get_snapshot (compaction world ids q).storage
      ≡ first_of_hooks ids q [] (get_snapshot q.storage)
compaction-snapshot world ids q walks v = elim (Bool-cases (ltb (storage_length q.storage) 2)) [
  | inl few ↦
      ap (λ r. get_snapshot r.storage) (compaction-few world ids q few)
      ∙ sym (
          first_of_few ids q (get_snapshot q.storage)
            (ap (λ n. ltb n 2) (length-values (elements_of q)) ∙ few))
  | inr many ↦
      let gs = collect_groups ids q (elements_of q) [] in
      let order = walks gs in
      ap (λ r. get_snapshot r.storage) (compaction-many world ids q many)
      ∙ ap values (
          merge_groups-elements world (world.range_groups gs) q v.distinct (
            All-perm (λ n. IsHookGroup q.heap n.1) order
              (collect_groups-hooks ids q (elements_of q) [] tt)))
      ∙ ap values (
          keep-cong (λ x. not (in_groups x.handle (world.range_groups gs)))
            (λ x. not (in_groups x.handle gs)) (elements_of q)
            (λ x. ap not (in_groups-perm x.handle order)))
      ∙ unmarked-first_of_hooks ids q [] (elements_of q) [] v.distinct (none_marked (elements_of q))
          (λ k. refl)
]
