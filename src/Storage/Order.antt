-- ===== src/Storage/Order.antt =====
-- What the operations of pkg/task/queue/task_storage.go do to the sequence of tasks that a snapshot shows.
use mathlib.Core.List.{append_assoc, map-append}
use shell_operator.Base.{
  ◌≡◌, ◌≢◌, Bool, string_key, if◌then◌else◌, List, [], ◌∷◌, ◌++◌, none, some, String, lookup, inl,
  inr, refl, sym, Bool-cases, All, subst, ◌∙◌, ap,
}
use shell_operator.LinkedList.Sequence.{Element, IsDistinct, values}
use shell_operator.LinkedList.Sequence.Splits.{IsDistinct-omit}
use shell_operator.Storage.{
  HasId, get_id, TaskStorage, TaskStatus, success, keep, NewTasks, remove_element, add_after_mark,
  add_after, remove_indexed, remove, delete_loop, delete_func, settle, process_result, get_snapshot,
}
use shell_operator.Storage.Index.{IsSound, IsIndexed}
use shell_operator.Storage.Steps
use shell_operator.Storage.Calls
use shell_operator.Storage.Places.{
  snapshot-add_first, snapshot-add_last, Inserted, add_after_mark-Inserted, add_after_mark-lookup,
  ValueSplit, snapshot-Inserted, locate,
}

module _ {T : Type 0} ⦃i : HasId T⦄ where
  add_after-found :
      (id : String) (m : Element T) (ts : List T) (s : TaskStorage T)
      → lookup id s.id_index ≡ some m
      → add_after id ts s ≡ add_after_mark m ts s
  unfolding add_after
  add_after-found id m ts s e = rw (e, add_after)

  remove-found :
      (id : String) (m : Element T) (s : TaskStorage T)
      → lookup id s.id_index ≡ some m
      → remove id s ≡ remove_indexed id m s
  unfolding remove
  remove-found id m s e = rw (e, remove)

  snapshot-remove_indexed :
      (m : Element T) (s : TaskStorage T) (xs ys : List (Element T))
      → s.items.elements ≡ xs ++ m ∷ ys
      → IsDistinct s.items.elements
      → get_snapshot (remove_indexed (get_id m.value) m s).1 ≡ values xs ++ values ys
  snapshot-remove_indexed m s xs ys e d =
      rw (Steps.remove_indexed-omitted m s xs ys e d)
        (map-append (λ (q : Element T). q.value) xs ys)

  -- The handled task leaves on success, and the new tasks stand in its place.
  settle_after :
      (s : TaskStorage T) (pre post new : List T) (t : T)
      → IsIndexed s
      → get_snapshot s ≡ pre ++ t ∷ post
      → All (λ a. get_id a ≢ get_id t) new
      → (get_snapshot (add_after (get_id t) new s) ≡ pre ++ t ∷ (new ++ post))
        × (get_snapshot (settle success t (add_after (get_id t) new s)) ≡ pre ++ (new ++ post))
  unfolding settle
  settle_after s pre post new t v h apart = (
    ap get_snapshot (add_after-found (get_id t) p.at new s found)
        ∙ snapshot-Inserted p.at new p.before p.after s₁ r
        ∙ cc (p.values_before, p.value_at, p.values_after),
    ap (λ q. get_snapshot (remove (get_id t) q).1) (add_after-found (get_id t) p.at new s found)
        ∙ ap (λ q. get_snapshot q.1)
            (remove-found (get_id t) p.at s₁
              (add_after_mark-lookup (get_id t) p.at new s apart ∙ found))
        ∙ ap (λ q. get_snapshot (remove_indexed (get_id q) p.at s₁).1) (sym p.value_at)
        ∙ snapshot-remove_indexed p.at s₁ p.before (r.new ++ p.after) r.place w.distinct
        ∙ rw (map-append (λ (q : Element T). q.value) r.new p.after)
            (cc (p.values_before, p.values_after, r.in_order)),
  )
    where
      p : ValueSplit pre t post s.items.elements
      p = (locate s pre post t v h).0

      found : lookup (get_id t) s.id_index ≡ some p.at
      found = (locate s pre post t v h).1

      s₁ : TaskStorage T
      s₁ = add_after_mark p.at new s

      r : Inserted p.at new p.before p.after s₁
      r = add_after_mark-Inserted p.at new s p.before p.after p.joined v.sound

      w : IsSound s₁
      w =
          (Calls.add_after_mark-IsSound p.at new s (v.sound.indexed (get_id t) p.at found).0
            v.sound).0

  -- What ProcessResult does to the sequence of tasks for Success and for Keep, when the handled
  -- task is in a queue whose index is complete and no after task has its id: head tasks come first,
  -- the task's own place takes the after tasks (behind the task itself for Keep), and tail tasks
  -- come last.
  pub process_result-snapshot :
      (s : TaskStorage T) (pre post : List T) (t : T) (new : NewTasks T)
      → IsIndexed s
      → get_snapshot s ≡ pre ++ t ∷ post
      → All (λ a. get_id a ≢ get_id t) new.after_tasks
      → (get_snapshot (process_result success new t s)
          ≡ (new.head_tasks ++ (pre ++ (new.after_tasks ++ post))) ++ new.tail_tasks)
        × (get_snapshot (process_result keep new t s)
            ≡ (new.head_tasks ++ (pre ++ t ∷ (new.after_tasks ++ post))) ++ new.tail_tasks)
  unfolding process_result settle
  process_result-snapshot s pre post t new v h apart =
      let (kept, gone) = settle_after s pre post new.after_tasks t v h apart in
      (
        snapshot-add_last new.tail_tasks _
            ∙ ap (λ q. q ++ new.tail_tasks)
                (snapshot-add_first new.head_tasks _ ∙ ap (λ q. new.head_tasks ++ q) gone),
        snapshot-add_last new.tail_tasks _
            ∙ ap (λ q. q ++ new.tail_tasks)
                (snapshot-add_first new.head_tasks _ ∙ ap (λ q. new.head_tasks ++ q) kept),
      )

  add_after-missing :
      (id : String) (ts : List T) (s : TaskStorage T)
      → lookup id s.id_index ≡ none
      → add_after id ts s ≡ s
  unfolding add_after
  add_after-missing id ts s e = rw (e, add_after)

  remove-missing :
      (id : String) (s : TaskStorage T) → lookup id s.id_index ≡ none → remove id s ≡ (none, s)
  unfolding remove
  remove-missing id s e = rw (e, remove)

  settle-missing :
      (status : TaskStatus) (t : T) (s : TaskStorage T)
      → lookup (get_id t) s.id_index ≡ none
      → settle status t s ≡ s
  unfolding settle remove
  settle-missing success t s e = ap (λ q. q.1) (remove-missing (get_id t) s e)
  settle-missing _ t s e = refl

  -- If the handled task is not in the index any more, ProcessResult drops the after tasks, for
  -- every status, and adds only the head and tail tasks.
  pub process_result-snapshot_gone :
      (s : TaskStorage T) (t : T) (new : NewTasks T) (status : TaskStatus)
      → lookup (get_id t) s.id_index ≡ none
      → get_snapshot (process_result status new t s)
        ≡ (new.head_tasks ++ get_snapshot s) ++ new.tail_tasks
  unfolding process_result
  process_result-snapshot_gone s t new status e =
      snapshot-add_last new.tail_tasks _
      ∙ ap (λ q. q ++ new.tail_tasks)
          (snapshot-add_first new.head_tasks _
            ∙ ap (λ q. new.head_tasks ++ get_snapshot q)
                (ap (settle status t) (add_after-missing (get_id t) new.after_tasks s e)
                  ∙ settle-missing status t s e))

  -- The tasks that a callback keeps, and the state that it ends in.
  unfoldable pub survivors {ℓ} : {S : Type ℓ} → (T → S → Bool × S) → List T → S → List T
  survivors fn [] acc = []
  survivors fn (t ∷ ts) acc =
      let (stays, acc') = fn t acc in
      if stays then t ∷ survivors fn ts acc' else survivors fn ts acc'

  pub final_state {ℓ} : {S : Type ℓ} → (T → S → Bool × S) → List T → S → S
  final_state fn [] acc = acc
  final_state fn (t ∷ ts) acc = final_state fn ts (fn t acc).1

  delete_loop-snapshot {ℓ} :
      {S : Type ℓ} (fn : T → S → Bool × S) (xs es : List (Element T)) (acc : S) (s : TaskStorage T)
      → s.items.elements ≡ xs ++ es
      → IsDistinct s.items.elements
      → (get_snapshot (delete_loop fn es acc s).1 ≡ values xs ++ survivors fn (values es) acc)
        × ((delete_loop fn es acc s).0 ≡ final_state fn (values es) acc)
  unfolding delete_loop survivors final_state
  delete_loop-snapshot fn xs [] acc s e d =
      (rw e (map-append (λ (q : Element T). q.value) xs []), refl)
  delete_loop-snapshot fn xs (x ∷ es) acc s e d = elim (Bool-cases (fn x.value acc).0) [
    | inl stays ↦
        let (p, q) =
          delete_loop-snapshot fn (xs ++ x ∷ []) es (fn x.value acc).1 s
            (e ∙ sym (append_assoc xs (x ∷ []) es)) d in
        rw (stays, delete_loop)
          (
            p
                ∙ ap (λ r. r ++ survivors fn (values es) (fn x.value acc).1)
                    (map-append (λ (r : Element T). r.value) xs (x ∷ []))
                ∙ append_assoc (values xs) (x.value ∷ [])
                    (survivors fn (values es) (fn x.value acc).1),
            q,
          )
    | inr goes ↦
        let removed = Steps.remove_element-omitted x s xs es e d in
        let (p, q) =
          delete_loop-snapshot fn xs es (fn x.value acc).1 (remove_element x s).1
            (ap (λ r. r.1.items.elements) removed)
            (subst IsDistinct (sym (ap (λ r. r.1.items.elements) removed))
              (IsDistinct-omit x xs es (subst IsDistinct e d))) in
        rw (goes, delete_loop) (p, q)
  ]

  -- When the index is sound, DeleteFunc asks the callback about every task once, from the first to
  -- the last, in the states that the earlier answers left, and removes exactly the tasks that it
  -- refuses.
  pub delete_func-survivors {ℓ} :
      {S : Type ℓ} (fn : T → S → Bool × S) (acc : S) (s : TaskStorage T)
      → IsSound s
      → (get_snapshot (delete_func fn acc s).1 ≡ survivors fn (get_snapshot s) acc)
        × ((delete_func fn acc s).0 ≡ final_state fn (get_snapshot s) acc)
  unfolding delete_func
  delete_func-survivors fn acc s v =
      delete_loop-snapshot fn [] s.items.elements acc s refl v.distinct
