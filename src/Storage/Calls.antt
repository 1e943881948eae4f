-- ===== src/Storage/Calls.antt =====
-- Whole calls of pkg/task/queue/task_storage.go, and histories of calls, keep the index in step.
use mathlib.Core.List.{append_assoc}
use shell_operator.Base.{
  ap, ◌⊎◌, false, lookup-delete_cases, ◌≡◌, Bool, string_key, List, [], ◌∷◌, ◌++◌, some, String,
  lookup, inl, inr, refl, sym, Bool-cases, Option-cases, subst, ◌∙◌,
}
use shell_operator.LinkedList.Sequence.{
  holds, Element, IsDistinct, Listed, front, back, first, last, new_element,
}
use shell_operator.LinkedList.Sequence.Splits.{
  without-absent, Split-at, first-split, last-split, Listed-insert, Listed-middle,
}
use shell_operator.Storage.{
  HasId, get_id, TaskStorage, TaskStatus, success, NewTasks, new_task_storage, add_first,
  add_last_one, add_last, remove_element, remove_first, remove_last, add_after_one, add_after_mark,
  add_after, add_before, remove, delete_loop, delete_func, settle, process_result,
}
use shell_operator.Storage.Index.{IsSound}
use shell_operator.Storage.Steps

-- The calls that change the storage. A callback of DeleteFunc may keep a state, which `S` is.
pub data Call (T S : Type 0) : Type 0 where
  adds_first adds_last : List T → Call T S
  adds_after : String → List T → Call T S
  adds_before : String → T → Call T S
  removes_first removes_last : Call T S
  removes_element : Element T → Call T S
  removes : String → Call T S
  deletes : (T → S → Bool × S) → S → Call T S
  processes : TaskStatus → NewTasks T → T → Call T S

module _ {T : Type 0} ⦃i : HasId T⦄ where
  pub add_first-IsSound : (ts : List T) (s : TaskStorage T) → IsSound s → IsSound (add_first ts s)
  unfolding add_first
  add_first-IsSound [] s v = v
  add_first-IsSound (t ∷ ts) s v =
      Steps.add_first_one-IsSound t (add_first ts s) (add_first-IsSound ts s v)

  pub add_last-IsSound : (ts : List T) (s : TaskStorage T) → IsSound s → IsSound (add_last ts s)
  unfolding add_last
  add_last-IsSound [] s v = v
  add_last-IsSound (t ∷ ts) s v =
      add_last-IsSound ts (add_last_one t s) (Steps.add_last_one-IsSound t s v)

  -- The mark stays in the list.
  pub add_after_one-Listed :
      (x m : Element T) (t : T) (s : TaskStorage T)
      → Listed m s.items.elements
      → IsDistinct s.items.elements
      → Listed x s.items.elements
      → Listed x (add_after_one m t s).items.elements
  add_after_one-Listed x m t s l d h =
      let p = Split-at m s.items.elements l in
      rw (Steps.add_after_one-joined m t s p.before p.after p.joined d) (
        Listed-insert x (new_element t s.items) (p.before ++ m ∷ []) p.after
          (subst (Listed x) (p.joined ∙ sym (append_assoc p.before (m ∷ []) p.after)) h))

  pub add_after_mark-IsSound :
      (m : Element T) (ts : List T) (s : TaskStorage T)
      → Listed m s.items.elements
      → IsSound s
      → IsSound (add_after_mark m ts s) × Listed m (add_after_mark m ts s).items.elements
  unfolding add_after_mark
  add_after_mark-IsSound m [] s l v = (v, l)
  add_after_mark-IsSound m (t ∷ ts) s l v =
      let (w, h) = add_after_mark-IsSound m ts s l v in
      (
        Steps.add_after_one-IsSound m t (add_after_mark m ts s) h w,
        add_after_one-Listed m m t (add_after_mark m ts s) h w.distinct h,
      )

  pub add_after-IsSound :
      (id : String) (ts : List T) (s : TaskStorage T) → IsSound s → IsSound (add_after id ts s)
  unfolding add_after
  add_after-IsSound id ts s v = elim (Option-cases (lookup id s.id_index)) [
    | inl e ↦ rw (e, add_after) v
    | inr (m, e) ↦ rw (e, add_after) (add_after_mark-IsSound m ts s (v.indexed id m e).0 v).0
  ]

  pub add_before-IsSound :
      (id : String) (t : T) (s : TaskStorage T) → IsSound s → IsSound (add_before id t s)
  unfolding add_before
  add_before-IsSound id t s v = elim (Option-cases (lookup id s.id_index)) [
    | inl e ↦ rw (e, add_before) v
    | inr (m, e) ↦ rw (e, add_before) (Steps.add_before_one-IsSound m t s (v.indexed id m e).0 v)
  ]

  pub remove-IsSound : (id : String) (s : TaskStorage T) → IsSound s → IsSound (remove id s).1
  unfolding remove
  remove-IsSound id s v = elim (Option-cases (lookup id s.id_index)) [
    | inl e ↦ rw (e, remove) v
    | inr (m, e) ↦
        let (l, named) = v.indexed id m e in
        rw (e, remove) (Steps.remove_indexed-IsSound id m s l named v)
  ]

  pub front-Listed : (xs : List (Element T)) (e : Element T) → first xs ≡ some e → Listed e xs
  front-Listed xs e p = let (ys, q) = first-split xs e p in rw q (Listed-middle e [] ys)

  pub back-Listed : (xs : List (Element T)) (e : Element T) → last xs ≡ some e → Listed e xs
  back-Listed xs e p = let (ys, q) = last-split xs e p in rw q (Listed-middle e ys [])

  pub remove_first-IsSound : (s : TaskStorage T) → IsSound s → IsSound (remove_first s).1
  unfolding remove_first
  remove_first-IsSound s v = elim (Option-cases (front s.items)) [
    | inl e ↦ rw (e, remove_first) v
    | inr (m, e) ↦ rw (e, remove_first) (Steps.remove_element-IsSound m s (front-Listed _ m e) v)
  ]

  pub remove_last-IsSound : (s : TaskStorage T) → IsSound s → IsSound (remove_last s).1
  unfolding remove_last
  remove_last-IsSound s v = elim (Option-cases (back s.items)) [
    | inl e ↦ rw (e, remove_last) v
    | inr (m, e) ↦ rw (e, remove_last) (Steps.remove_element-IsSound m s (back-Listed _ m e) v)
  ]

  pub delete_loop-IsSound {ℓ} :
      {S : Type ℓ} (fn : T → S → Bool × S) (xs es : List (Element T)) (acc : S) (s : TaskStorage T)
      → s.items.elements ≡ xs ++ es
      → IsSound s
      → IsSound (delete_loop fn es acc s).1
  unfolding delete_loop
  delete_loop-IsSound fn xs [] acc s e v = v
  delete_loop-IsSound fn xs (x ∷ es) acc s e v = elim (Bool-cases (fn x.value acc).0) [
    | inl stays ↦
        rw (stays, delete_loop)
          (delete_loop-IsSound fn (xs ++ x ∷ []) es (fn x.value acc).1 s
            (e ∙ sym (append_assoc xs (x ∷ []) es)) v)
    | inr goes ↦
        let removed = Steps.remove_element-omitted x s xs es e v.distinct in
        rw (goes, delete_loop)
          (delete_loop-IsSound fn xs es (fn x.value acc).1 (remove_element x s).1
            (ap (λ r. r.1.items.elements) removed)
            (Steps.remove_element-IsSound x s (rw e (Listed-middle x xs es)) v))
  ]

  pub settle-IsSound :
      (status : TaskStatus) (t : T) (s : TaskStorage T) → IsSound s → IsSound (settle status t s)
  unfolding settle
  settle-IsSound success t s v = remove-IsSound (get_id t) s v
  settle-IsSound _ t s v = v

  pub process_result-IsSound :
      (status : TaskStatus) (new : NewTasks T) (t : T) (s : TaskStorage T)
      → IsSound s
      → IsSound (process_result status new t s)
  unfolding process_result
  process_result-IsSound status new t s v = add_last-IsSound new.tail_tasks _ (
      add_first-IsSound new.head_tasks _
        (settle-IsSound status t _ (add_after-IsSound (get_id t) new.after_tasks s v)))

  -- A pointer to an element of the list, or to one that has been removed.
  abbrev pub IsPointer : Element T → TaskStorage T → Type 0
  IsPointer e s = Listed e s.items.elements ⊎ (holds e.handle s.items.elements ≡ false)

  remove_stale-IsSound :
      (e : Element T) (s : TaskStorage T)
      → holds e.handle s.items.elements ≡ false
      → IsSound s
      → IsSound (remove_element e s).1
  unfolding remove_element
  remove_stale-IsSound e s p v = rw (without-absent e.handle s.items.elements p) (record {
    distinct = v.distinct;
    below = v.below;
    indexed = λ id x q. v.indexed id x (lookup-delete_cases (get_id e.value) id x s.id_index q).1;
  })

  remove_pointer-IsSound :
      (e : Element T) (s : TaskStorage T)
      → IsPointer e s
      → IsSound s
      → IsSound (remove_element e s).1
  remove_pointer-IsSound e s (inl l) v = Steps.remove_element-IsSound e s l v
  remove_pointer-IsSound e s (inr p) v = remove_stale-IsSound e s p v

  unfoldable pub step : {S : Type 0} → Call T S → TaskStorage T → TaskStorage T
  unfolding delete_func
  step (adds_first ts) s = add_first ts s
  step (adds_last ts) s = add_last ts s
  step (adds_after id ts) s = add_after id ts s
  step (adds_before id t) s = add_before id t s
  step removes_first s = (remove_first s).1
  step removes_last s = (remove_last s).1
  step (removes_element e) s = (remove_element e s).1
  step (removes id) s = (remove id s).1
  step (deletes fn acc) s = (delete_func fn acc s).1
  step (processes status new t) s = process_result status new t s

  pub run : {S : Type 0} → List (Call T S) → TaskStorage T → TaskStorage T
  run [] s = s
  run (c ∷ cs) s = run cs (step c s)

  -- RemoveElement is called with pointers only, to the list or stale.
  abbrev pub HasPointers : {S : Type 0} → Call T S → TaskStorage T → Type 0
  HasPointers (removes_element e) s = IsPointer e s
  HasPointers _ s = Unit {0}

  abbrev pub AllHavePointers : {S : Type 0} → List (Call T S) → TaskStorage T → Type 0
  AllHavePointers [] s = Unit {0}
  AllHavePointers (c ∷ cs) s = HasPointers c s × AllHavePointers cs (step c s)

  step-IsSound :
      {S : Type 0} (c : Call T S) (s : TaskStorage T)
      → HasPointers c s
      → IsSound s
      → IsSound (step c s)
  unfolding step
  step-IsSound (adds_first ts) s p v = add_first-IsSound ts s v
  step-IsSound (adds_last ts) s p v = add_last-IsSound ts s v
  step-IsSound (adds_after id ts) s p v = add_after-IsSound id ts s v
  step-IsSound (adds_before id t) s p v = add_before-IsSound id t s v
  step-IsSound removes_first s p v = remove_first-IsSound s v
  step-IsSound removes_last s p v = remove_last-IsSound s v
  step-IsSound (removes_element e) s p v = remove_pointer-IsSound e s p v
  step-IsSound (removes id) s p v = remove-IsSound id s v
  step-IsSound (deletes fn acc) s p v = delete_loop-IsSound fn [] s.items.elements acc s refl v
  step-IsSound (processes status new t) s p v = process_result-IsSound status new t s v

  run-IsSound :
      {S : Type 0} (cs : List (Call T S)) (s : TaskStorage T)
      → AllHavePointers cs s
      → IsSound s
      → IsSound (run cs s)
  unfolding run
  run-IsSound [] s p v = v
  run-IsSound (c ∷ cs) s p v = run-IsSound cs (step c s) p.1 (step-IsSound c s p.0 v)

  pub new_task_storage-IsSound : IsSound {T = T} new_task_storage
  new_task_storage-IsSound = record { distinct = tt; below = tt; indexed = λ id e p. cc }

  -- After any history of calls of the storage's methods, also with task ids that repeat, with callbacks that keep a
  -- state, and with RemoveElement for a pointer into the list or for a stale one: the pointers of the list
  -- are distinct, and each index entry leads to an element of the list whose task has the entry's id.
  pub run-new-IsSound :
      {S : Type 0} (cs : List (Call T S))
      → AllHavePointers cs new_task_storage
      → IsSound (run cs new_task_storage)
  run-new-IsSound cs p = run-IsSound cs new_task_storage p new_task_storage-IsSound
