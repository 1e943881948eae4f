-- ===== src/Storage/Unique.antt =====
-- pkg/task/queue/task_storage.go with ids that are not in use yet, as the UUIDs of tasks are: the index is
-- complete, so a task is found by its id exactly while it is in the queue.
use mathlib.Core.List.{append_assoc}
use shell_operator.Base.{
  lookup-delete, ◌≡◌, ◌≢◌, Bool, string_key, List, [], ◌∷◌, ◌++◌, none, String, lookup, inl, inr,
  refl, sym, arith, Bool-cases, Option-cases, eq_iff, All, lookup-insert_ne, ◌∙◌, ap,
}
use shell_operator.LinkedList.Sequence.{Element, Listed, front, back}
use shell_operator.LinkedList.Sequence.Splits.{Listed-middle}
use shell_operator.Storage.{
  HasId, get_id, TaskStorage, TaskStatus, success, NewTasks, add_first, add_last_one, add_last,
  remove_element, remove_first, remove_last, add_after_mark, add_after, add_before, remove_indexed,
  remove, delete_loop, settle, process_result,
}
use shell_operator.Storage.Index.{IsIndexed}
use shell_operator.Storage.Steps
use shell_operator.Storage.Steps.{IsNew}
use shell_operator.Storage.Calls
use shell_operator.Storage.Calls.{
  Call, adds_first, adds_last, adds_after, adds_before, removes_first, removes_last,
  removes_element, removes, deletes, processes,
}
use shell_operator.Storage.Places.{add_after_mark-lookup}

module _ {T : Type 0} ⦃i : HasId T⦄ where
  -- The ids of the tasks are not in the index, and differ from one another.
  abbrev pub AreNew : List T → TaskStorage T → Type 0
  AreNew [] s = Unit {0}
  AreNew (t ∷ ts) s = IsNew t s × All (λ u. get_id u ≢ get_id t) ts × AreNew ts s

  add_first-lookup :
      (k : String) (ts : List T) (s : TaskStorage T)
      → All (λ t. get_id t ≢ k) ts
      → lookup k (add_first ts s).id_index ≡ lookup k s.id_index
  unfolding add_first
  add_first-lookup k [] s h = refl
  add_first-lookup k (t ∷ ts) s h =
      ap (λ q. lookup k q.id_index) (Steps.add_first_one-joined t (add_first ts s))
      ∙ lookup-insert_ne (get_id t) k _ (add_first ts s).id_index h.0
      ∙ add_first-lookup k ts s h.1

  pub add_first-IsIndexed :
      (ts : List T) (s : TaskStorage T) → AreNew ts s → IsIndexed s → IsIndexed (add_first ts s)
  unfolding add_first
  add_first-IsIndexed [] s new v = v
  add_first-IsIndexed (t ∷ ts) s new v =
      Steps.add_first_one-IsIndexed t (add_first ts s)
        (add_first-lookup (get_id t) ts s new.1 ∙ new.0) (add_first-IsIndexed ts s new.2 v)

  -- Adding one task leaves the others new.
  AreNew-add_last_one :
      (t : T) (ts : List T) (s : TaskStorage T)
      → All (λ u. get_id u ≢ get_id t) ts
      → AreNew ts s
      → AreNew ts (add_last_one t s)
  AreNew-add_last_one t [] s apart new = tt
  AreNew-add_last_one t (u ∷ ts) s apart new = (
    ap (λ q. lookup (get_id u) q.id_index) (Steps.add_last_one-joined t s)
        ∙ lookup-insert_ne (get_id t) (get_id u) _ s.id_index (λ q. apart.0 (sym q))
        ∙ new.0,
    new.1,
    AreNew-add_last_one t ts s apart.1 new.2,
  )

  pub add_last-IsIndexed :
      (ts : List T) (s : TaskStorage T) → AreNew ts s → IsIndexed s → IsIndexed (add_last ts s)
  unfolding add_last
  add_last-IsIndexed [] s new v = v
  add_last-IsIndexed (t ∷ ts) s new v =
      add_last-IsIndexed ts (add_last_one t s) (AreNew-add_last_one t ts s new.1 new.2)
        (Steps.add_last_one-IsIndexed t s new.0 v)

  add_after_mark-IsIndexed :
      (m : Element T) (ts : List T) (s : TaskStorage T)
      → Listed m s.items.elements
      → AreNew ts s
      → IsIndexed s
      → IsIndexed (add_after_mark m ts s)
  unfolding add_after_mark
  add_after_mark-IsIndexed m [] s l new v = v
  add_after_mark-IsIndexed m (t ∷ ts) s l new v =
      let (_, h) = Calls.add_after_mark-IsSound m ts s l v.sound in
      Steps.add_after_one-IsIndexed m t (add_after_mark m ts s) h
        (add_after_mark-lookup (get_id t) m ts s new.1 ∙ new.0)
        (add_after_mark-IsIndexed m ts s l new.2 v)

  pub add_after-IsIndexed :
      (id : String) (ts : List T) (s : TaskStorage T)
      → AreNew ts s
      → IsIndexed s
      → IsIndexed (add_after id ts s)
  unfolding add_after
  add_after-IsIndexed id ts s new v = elim (Option-cases (lookup id s.id_index)) [
    | inl e ↦ rw (e, add_after) v
    | inr (m, e) ↦
        rw (e, add_after) (add_after_mark-IsIndexed m ts s (v.sound.indexed id m e).0 new v)
  ]

  pub add_before-IsIndexed :
      (id : String) (t : T) (s : TaskStorage T)
      → IsNew t s
      → IsIndexed s
      → IsIndexed (add_before id t s)
  unfolding add_before
  add_before-IsIndexed id t s new v = elim (Option-cases (lookup id s.id_index)) [
    | inl e ↦ rw (e, add_before) v
    | inr (m, e) ↦
        rw (e, add_before) (Steps.add_before_one-IsIndexed m t s (v.sound.indexed id m e).0 new v)
  ]

  pub remove-IsIndexed : (id : String) (s : TaskStorage T) → IsIndexed s → IsIndexed (remove id s).1
  unfolding remove
  remove-IsIndexed id s v = elim (Option-cases (lookup id s.id_index)) [
    | inl e ↦ rw (e, remove) v
    | inr (m, e) ↦
        let (l, named) = v.sound.indexed id m e in
        rw (e, remove) (Steps.remove_indexed-IsIndexed id m s l named v)
  ]

  pub remove_first-IsIndexed : (s : TaskStorage T) → IsIndexed s → IsIndexed (remove_first s).1
  unfolding remove_first
  remove_first-IsIndexed s v = elim (Option-cases (front s.items)) [
    | inl e ↦ rw (e, remove_first) v
    | inr (m, e) ↦
        rw (e, remove_first) (Steps.remove_element-IsIndexed m s (Calls.front-Listed _ m e) v)
  ]

  pub remove_last-IsIndexed : (s : TaskStorage T) → IsIndexed s → IsIndexed (remove_last s).1
  unfolding remove_last
  remove_last-IsIndexed s v = elim (Option-cases (back s.items)) [
    | inl e ↦ rw (e, remove_last) v
    | inr (m, e) ↦
        rw (e, remove_last) (Steps.remove_element-IsIndexed m s (Calls.back-Listed _ m e) v)
  ]

  pub delete_loop-IsIndexed {ℓ} :
      {S : Type ℓ} (fn : T → S → Bool × S) (xs es : List (Element T)) (acc : S) (s : TaskStorage T)
      → s.items.elements ≡ xs ++ es
      → IsIndexed s
      → IsIndexed (delete_loop fn es acc s).1
  unfolding delete_loop
  delete_loop-IsIndexed fn xs [] acc s e v = v
  delete_loop-IsIndexed fn xs (x ∷ es) acc s e v = elim (Bool-cases (fn x.value acc).0) [
    | inl stays ↦
        rw (stays, delete_loop)
          (delete_loop-IsIndexed fn (xs ++ x ∷ []) es (fn x.value acc).1 s
            (e ∙ sym (append_assoc xs (x ∷ []) es)) v)
    | inr goes ↦
        let removed = Steps.remove_element-omitted x s xs es e v.sound.distinct in
        rw (goes, delete_loop)
          (delete_loop-IsIndexed fn xs es (fn x.value acc).1 (remove_element x s).1
            (ap (λ r. r.1.items.elements) removed)
            (Steps.remove_element-IsIndexed x s (rw e (Listed-middle x xs es)) v))
  ]

  -- The new tasks of one list have ids that differ from those of another.
  abbrev pub AreApart : List T → List T → Type 0
  AreApart ts us = All (λ u. All (λ t. get_id t ≢ get_id u) ts) us

  AreNew-transfer :
      (ts : List T) (s s' : TaskStorage T)
      → All (λ u. IsNew u s → IsNew u s') ts
      → AreNew ts s
      → AreNew ts s'
  AreNew-transfer [] s s' h new = tt
  AreNew-transfer (t ∷ ts) s s' h new = (h.0 new.0, new.1, AreNew-transfer ts s s' h.1 new.2)

  All-map {κ μ} :
      {P : T → Type κ} {Q : T → Type μ} (ts : List T) → ((t : T) → P t → Q t) → All P ts → All Q ts
  All-map [] f h = tt
  All-map (t ∷ ts) f h = (f t h.0, All-map ts f h.1)

  All-always {κ} : {P : T → Type κ} (ts : List T) → ((t : T) → P t) → All P ts
  All-always [] f = tt
  All-always (t ∷ ts) f = (f t, All-always ts f)

  add_after-lookup :
      (k id : String) (ts : List T) (s : TaskStorage T)
      → All (λ t. get_id t ≢ k) ts
      → lookup k (add_after id ts s).id_index ≡ lookup k s.id_index
  unfolding add_after
  add_after-lookup k id ts s h = elim (Option-cases (lookup id s.id_index)) [
    | inl e ↦ rw (e, add_after)
    | inr (m, e) ↦ rw (e, add_after) (add_after_mark-lookup k m ts s h)
  ]

  remove-lookup :
      (k id : String) (s : TaskStorage T)
      → lookup k s.id_index ≡ none
      → lookup k (remove id s).1.id_index ≡ none
  unfolding remove remove_indexed
  remove-lookup k id s h = elim (Option-cases (lookup id s.id_index)) [
    | inl e ↦ rw (e, remove) h
    | inr (m, e) ↦ rw (e, remove) (ground (arith, lookup-delete id k s.id_index, eq_iff id k))
  ]

  settle-lookup :
      (k : String) (status : TaskStatus) (t : T) (s : TaskStorage T)
      → lookup k s.id_index ≡ none
      → lookup k (settle status t s).id_index ≡ none
  unfolding settle
  settle-lookup k success t s h = remove-lookup k (get_id t) s h
  settle-lookup k _ t s h = h

  settle-IsIndexed :
      (status : TaskStatus) (t : T) (s : TaskStorage T)
      → IsIndexed s
      → IsIndexed (settle status t s)
  unfolding settle
  settle-IsIndexed success t s v = remove-IsIndexed (get_id t) s v
  settle-IsIndexed _ t s v = v

  -- The new tasks of a result: no id is in use, and none occurs twice.
  pub record AreNewTasks (new : NewTasks T) (s : TaskStorage T) : Type 0 where
    pub head_new : AreNew new.head_tasks s
    pub tail_new : AreNew new.tail_tasks s
    pub after_new : AreNew new.after_tasks s
    pub after_head : AreApart new.after_tasks new.head_tasks
    pub after_tail : AreApart new.after_tasks new.tail_tasks
    pub head_tail : AreApart new.head_tasks new.tail_tasks

  pub process_result-IsIndexed :
      (status : TaskStatus) (new : NewTasks T) (t : T) (s : TaskStorage T)
      → AreNewTasks new s
      → IsIndexed s
      → IsIndexed (process_result status new t s)
  unfolding process_result
  process_result-IsIndexed status new t s h v =
      let s₁ = add_after (get_id t) new.after_tasks s in
      let s₂ = settle status t s₁ in
      let v₂ =
        settle-IsIndexed status t s₁
          (add_after-IsIndexed (get_id t) new.after_tasks s h.after_new v) in
      let through = λ (u : T) (a : All (λ w. get_id w ≢ get_id u) new.after_tasks) (n : IsNew u s).
        settle-lookup (get_id u) status t s₁
          (add_after-lookup (get_id u) (get_id t) new.after_tasks s a ∙ n) in
      let head_new =
        AreNew-transfer new.head_tasks s s₂ (All-map new.head_tasks through h.after_head)
          h.head_new in
      let tail_new =
        AreNew-transfer new.tail_tasks s s₂ (All-map new.tail_tasks through h.after_tail)
          h.tail_new in
      add_last-IsIndexed new.tail_tasks (add_first new.head_tasks s₂)
        (AreNew-transfer new.tail_tasks s₂ (add_first new.head_tasks s₂)
          (All-map new.tail_tasks (λ u a n. add_first-lookup (get_id u) new.head_tasks s₂ a ∙ n)
            h.head_tail)
          tail_new)
        (add_first-IsIndexed new.head_tasks s₂ head_new v₂)

  -- The ids that a call brings in are new, and the element that it removes is in the list.
  abbrev pub BringsNew : {S : Type 0} → Call T S → TaskStorage T → Type 0
  BringsNew (adds_first ts) s = AreNew ts s
  BringsNew (adds_last ts) s = AreNew ts s
  BringsNew (adds_after id ts) s = AreNew ts s
  BringsNew (adds_before id t) s = IsNew t s
  BringsNew (removes_element e) s = Listed e s.items.elements
  BringsNew (processes status new t) s = AreNewTasks new s
  BringsNew _ s = Unit {0}

  -- Every call of a method of the storage whose tasks have new ids keeps the index complete, so that each task of
  -- the list is found under its id and no two tasks share one. RemoveElement is called for elements of the
  -- list, as the compaction of a queue does; a callback of DeleteFunc may keep a state.
  pub step-IsIndexed :
      {S : Type 0} (c : Call T S) (s : TaskStorage T)
      → BringsNew c s
      → IsIndexed s
      → IsIndexed (Calls.step c s)
  unfolding Calls.step
  step-IsIndexed (adds_first ts) s new v = add_first-IsIndexed ts s new v
  step-IsIndexed (adds_last ts) s new v = add_last-IsIndexed ts s new v
  step-IsIndexed (adds_after id ts) s new v = add_after-IsIndexed id ts s new v
  step-IsIndexed (adds_before id t) s new v = add_before-IsIndexed id t s new v
  step-IsIndexed removes_first s new v = remove_first-IsIndexed s v
  step-IsIndexed removes_last s new v = remove_last-IsIndexed s v
  step-IsIndexed (removes_element e) s l v = Steps.remove_element-IsIndexed e s l v
  step-IsIndexed (removes id) s new v = remove-IsIndexed id s v
  step-IsIndexed (deletes fn acc) s new v =
      delete_loop-IsIndexed fn [] s.items.elements acc s refl v
  step-IsIndexed (processes status new t) s h v = process_result-IsIndexed status new t s h v
