-- ===== src/Queue/Grouped.antt =====
-- The first pass of TaskQueue.compaction (pkg/task/queue/task_queue.go): each group holds the tasks of its hook, in the
-- order of the queue.
use mathlib.Core.List.{append-nil, append_assoc, map-append}
use shell_operator.Base.{
  Bool, ◌≡◌, ◌==◌, string_key, nat_key, if◌then◌else◌, List, [], ◌∷◌, ◌++◌, Option, none, some,
  String, false, ◌||◌, lookup, insert, has_key, keep, refl, arith, eq_iff, Option-cases, Bool-cases,
  lookup-insert, inl, inr, ap, ◌∙◌, sym, subst,
}
use shell_operator.LinkedList.Sequence.{Element, values}
use shell_operator.Task.{Task, HookMetadata}
use shell_operator.Counter.{NameSet}
use shell_operator.Queue.State.{CompactionGroup, TaskQueue}
use shell_operator.Queue.Merge.{mergeable, add_to_group, add_mergeable, collect_groups}
use shell_operator.Queue.Groups.{Groups, collect_groups-cons}

-- Whether a task's metadata is that of the hook.
abbrev pub names : String → Option HookMetadata → Bool
names n none = false
names n (some m) = m.hook_name == n

-- The tasks that may be merged for the hook.
abbrev pub tasks_of : NameSet → TaskQueue → String → List Task → List Task
tasks_of ids q n = keep (λ t. names n (mergeable ids q t))

abbrev pub group_tasks : Option CompactionGroup → List Task
group_tasks none = []
group_tasks (some g) = g.target.value ∷ values g.to_merge

abbrev pub grown : Element Task → Option CompactionGroup → CompactionGroup
grown e none = record { target = e; to_merge = [] }
grown e (some g) = record g { to_merge = g.to_merge ++ e ∷ [] }

pub add_to_group-grown :
    (name : String) (e : Element Task) (gs : Groups)
    → add_to_group name e gs ≡ insert name (grown e (lookup name gs)) gs
unfolding add_to_group
add_to_group-grown name e gs = elim (Option-cases (lookup name gs)) [
  | inl l ↦ rw (l, add_to_group) refl
  | inr (g, l) ↦ rw (l, add_to_group) refl
]

grown-tasks :
    (e : Element Task) (o : Option CompactionGroup)
    → group_tasks (some (grown e o)) ≡ group_tasks o ++ e.value ∷ []
grown-tasks e none = refl
grown-tasks e (some g) =
    ap (λ r. g.target.value ∷ r) (map-append (λ (x : Element Task). x.value) g.to_merge (e ∷ []))

add_to_group-tasks :
    (n name : String) (e : Element Task) (gs : Groups)
    → group_tasks (lookup n (add_to_group name e gs))
      ≡ group_tasks (lookup n gs) ++ (if name == n then e.value ∷ [] else [])
add_to_group-tasks n name e gs =
    ap (λ r. group_tasks (lookup n r)) (add_to_group-grown name e gs)
    ∙ ap group_tasks (lookup-insert name n (grown e (lookup name gs)) gs)
    ∙ elim (Bool-cases (name == n)) [
      | inr q ↦ rw q (sym (append-nil (group_tasks (lookup n gs))))
      | inl q ↦ rw q (
          grown-tasks e (lookup name gs)
          ∙ ap (λ k. group_tasks (lookup k gs) ++ e.value ∷ []) (ground (arith, eq_iff name n)))
    ]

-- What the first pass gathers for a hook: its tasks, in the order of the queue.
pub collect_groups-tasks :
    (ids : NameSet) (q : TaskQueue) (n : String) (es : List (Element Task)) (gs : Groups)
    → group_tasks (lookup n (collect_groups ids q es gs))
      ≡ group_tasks (lookup n gs) ++ tasks_of ids q n (values es)
collect_groups-tasks ids q n [] gs =
    unfold collect_groups in sym (append-nil (group_tasks (lookup n gs)))
collect_groups-tasks ids q n (e ∷ es) gs =
    ap (λ r. group_tasks (lookup n r)) (collect_groups-cons ids q e es gs)
    ∙ collect_groups-tasks ids q n es (add_mergeable (mergeable ids q e.value) e gs)
    ∙ elim (Option-cases (mergeable ids q e.value)) [
      | inl h ↦ rw h refl
      | inr (m, h) ↦ rw h (
          ap (λ r. r ++ tasks_of ids q n (values es)) (add_to_group-tasks n m.hook_name e gs)
          ∙ append_assoc (group_tasks (lookup n gs)) (if m.hook_name == n then e.value ∷ [] else [])
              (tasks_of ids q n (values es))
          ∙ ap (λ r. group_tasks (lookup n gs) ++ r) (ground arith))
    ]

-- No hook has two groups.
abbrev pub AreUnique : Groups → Type 0
AreUnique [] = Unit {0}
AreUnique ((k, g) ∷ gs) = (has_key k gs ≡ false) × AreUnique gs

has_key-insert :
    (k name : String) (g : CompactionGroup) (gs : Groups)
    → has_key k (insert name g gs) ≡ (name == k || has_key k gs)
has_key-insert k name g gs = ground (arith, lookup-insert name k g gs)

AreUnique-insert :
    (name : String) (g : CompactionGroup) (gs : Groups)
    → AreUnique gs
    → AreUnique (insert name g gs)
unfolding insert
AreUnique-insert name g [] u = (refl, tt)
AreUnique-insert name g ((k, d) ∷ gs) u = elim (Bool-cases (k == name)) [
  | inl q ↦
      let same : k ≡ name = ground (arith, eq_iff k name) in
      rw (q, insert) (subst (λ r. has_key r gs ≡ false) same u.0, u.1)
  | inr q ↦
      rw (q, insert)
        (
          has_key-insert k name g gs ∙ ground (arith, q, u.0, eq_iff name k, eq_iff k name),
          AreUnique-insert name g gs u.1,
        )
]

add_mergeable-AreUnique :
    (m : Option HookMetadata) (e : Element Task) (gs : Groups)
    → AreUnique gs
    → AreUnique (add_mergeable m e gs)
add_mergeable-AreUnique none e gs u = u
add_mergeable-AreUnique (some m) e gs u =
    subst AreUnique (sym (add_to_group-grown m.hook_name e gs))
      (AreUnique-insert m.hook_name (grown e (lookup m.hook_name gs)) gs u)

pub collect_groups-AreUnique :
    (ids : NameSet) (q : TaskQueue) (es : List (Element Task)) (gs : Groups)
    → AreUnique gs
    → AreUnique (collect_groups ids q es gs)
collect_groups-AreUnique ids q [] gs u = unfold collect_groups in u
collect_groups-AreUnique ids q (e ∷ es) gs u =
    subst AreUnique (sym (collect_groups-cons ids q e es gs)) (
      collect_groups-AreUnique ids q es (add_mergeable (mergeable ids q e.value) e gs)
        (add_mergeable-AreUnique (mergeable ids q e.value) e gs u))

no_group : (n : String) (gs : Groups) → has_key n gs ≡ false → keep (λ e. e.0 == n) gs ≡ []
no_group n [] h = refl
no_group n ((k, g) ∷ gs) h = ground (arith, no_group n gs)

-- In a list without two groups of a hook, a hook's group is the only entry under its name.
pub one_entry :
    (n : String) (g : CompactionGroup) (gs : Groups)
    → AreUnique gs
    → lookup n gs ≡ some g
    → keep (λ e. e.0 == n) gs ≡ (n, g) ∷ []
one_entry n g [] u h = absurd (ground arith)
one_entry n g ((k, d) ∷ gs) u h = elim (Bool-cases (k == n)) [
  | inl q ↦
      let name : k ≡ n = ground (arith, eq_iff k n) in
      let group : d ≡ g = ground arith in
      rw q (
        ap (λ r. (k, d) ∷ r) (no_group n gs (subst (λ r. has_key r gs ≡ false) name u.0))
        ∙ ap (λ r. (r, d) ∷ []) name
        ∙ ap (λ r. (n, r) ∷ []) group)
  | inr q ↦ rw q (one_entry n g gs u.1 (ground arith))
]
