-- ===== src/QueueSet/Tails.antt =====
-- What AddTailTasks and GetSnapshot of pkg/task/queue/queue_set.go do to the queues of the set.
use shell_operator.Base.{
  ◌≡◌, ◌==◌, string_key, List, [], ◌∷◌, Option, none, some, String, false, lookup, insert, keep,
  refl, sym, arith, ap, ◌∙◌, eq_iff, Bool-cases, Option-cases, inl, inr, lookup-insert, subst,
}
use shell_operator.Task.{Task}
use shell_operator.Queue.{Runtime, TaskQueue, add_last}
use shell_operator.QueueSet.{TaskQueueSet, add_tail_task, add_tail_tasks, get_by_name}

abbrev pub added_to : Runtime → List Task → Option TaskQueue → Option TaskQueue
added_to world ts none = none
added_to world ts (some q) = some (add_last world ts q)

-- The tasks that are meant for a queue.
abbrev pub meant_for : String → List Task → List Task
meant_for name = keep (λ t. t.queue_name == name)

add_last-cons :
    (world : Runtime) (t : Task) (ts : List Task) (q : TaskQueue)
    → add_last world (t ∷ ts) q ≡ add_last world ts (add_last world (t ∷ []) q)
unfolding add_last
add_last-cons world t ts q = refl

add_last-nil : (world : Runtime) (q : TaskQueue) → add_last world [] q ≡ q
unfolding add_last
add_last-nil world q = refl

added_none :
    (world : Runtime) (ts : List Task) (o : Option TaskQueue) → o ≡ none → added_to world ts o ≡ o
added_none world ts none e = refl
added_none world ts (some q) e = absurd (ground arith)

missing_queue :
    (world : Runtime) (t : Task) (s : TaskQueueSet)
    → lookup t.queue_name s.queues ≡ none
    → add_tail_task world t s ≡ s
missing_queue world t s e = rw (e, add_tail_task) refl

known_queue :
    (world : Runtime) (t : Task) (s : TaskQueueSet) (q : TaskQueue)
    → lookup t.queue_name s.queues ≡ some q
    → add_tail_task world t s
      ≡ record s { queues = insert t.queue_name (add_last world (t ∷ []) q) s.queues }
known_queue world t s q e = rw (e, add_tail_task) refl

add_tail_task-same :
    (world : Runtime) (t : Task) (s : TaskQueueSet)
    → get_by_name t.queue_name (add_tail_task world t s)
      ≡ added_to world (t ∷ []) (get_by_name t.queue_name s)
add_tail_task-same world t s = elim (Option-cases (lookup t.queue_name s.queues)) [
  | inl e ↦
      ap (get_by_name t.queue_name) (missing_queue world t s e)
      ∙ sym (added_none world (t ∷ []) (lookup t.queue_name s.queues) e)
  | inr (q, e) ↦
      ap (get_by_name t.queue_name) (known_queue world t s q e)
      ∙ lookup-insert t.queue_name t.queue_name (add_last world (t ∷ []) q) s.queues
      ∙ ground (arith, eq_iff t.queue_name t.queue_name)
      ∙ ap (added_to world (t ∷ [])) (sym e)
]

add_tail_task-other :
    (world : Runtime) (t : Task) (s : TaskQueueSet) (name : String)
    → (t.queue_name == name) ≡ false
    → get_by_name name (add_tail_task world t s) ≡ get_by_name name s
add_tail_task-other world t s name d = elim (Option-cases (lookup t.queue_name s.queues)) [
  | inl e ↦ ap (get_by_name name) (missing_queue world t s e)
  | inr (q, e) ↦
      ap (get_by_name name) (known_queue world t s q e)
      ∙ lookup-insert t.queue_name name (add_last world (t ∷ []) q) s.queues
      ∙ ground (arith, d)
]

added_to-cons :
    (world : Runtime) (t : Task) (ts : List Task) (o : Option TaskQueue)
    → added_to world ts (added_to world (t ∷ []) o) ≡ added_to world (t ∷ ts) o
added_to-cons world t ts none = refl
added_to-cons world t ts (some q) = ap some (sym (add_last-cons world t ts q))

added_to-nil : (world : Runtime) (o : Option TaskQueue) → added_to world [] o ≡ o
added_to-nil world none = refl
added_to-nil world (some q) = ap some (add_last-nil world q)

add_tail_tasks-cons :
    (world : Runtime) (t : Task) (ts : List Task) (s : TaskQueueSet)
    → add_tail_tasks world (t ∷ ts) s ≡ add_tail_tasks world ts (add_tail_task world t s)
unfolding add_tail_tasks
add_tail_tasks-cons world t ts s = refl

-- AddTailTasks gives to every queue of the set exactly the tasks that name it, in their order, as one AddLast would; it
-- makes no queue, and tasks that name no queue of the set change nothing.
pub add_tail_tasks-lookup :
    (world : Runtime) (ts : List Task) (s : TaskQueueSet) (name : String)
    → get_by_name name (add_tail_tasks world ts s)
      ≡ added_to world (meant_for name ts) (get_by_name name s)
add_tail_tasks-lookup world [] s name =
    unfold add_tail_tasks in sym (added_to-nil world (get_by_name name s))
add_tail_tasks-lookup world (t ∷ ts) s name =
    ap (get_by_name name) (add_tail_tasks-cons world t ts s)
    ∙ add_tail_tasks-lookup world ts (add_tail_task world t s) name
    ∙ elim (Bool-cases (t.queue_name == name)) [
      | inl q ↦
          let n : t.queue_name ≡ name = ground (arith, eq_iff t.queue_name name) in
          rw q (
            ap (added_to world (meant_for name ts)) (
              subst
                (λ k.
                  get_by_name k (add_tail_task world t s)
                  ≡ added_to world (t ∷ []) (get_by_name k s))
                n (add_tail_task-same world t s))
            ∙ added_to-cons world t (meant_for name ts) (get_by_name name s))
      | inr q ↦
          rw q (ap (added_to world (meant_for name ts)) (add_tail_task-other world t s name q))
    ]
