-- ===== src/Storage.antt =====
-- pkg/task/queue/task_storage.go: the tasks of one queue, as a list of elements and an index from task
-- ids to elements. A task is known by what the interface task.Task answers to GetId. The mutex is
-- not modelled: every public method holds it for its whole body, so calls do not overlap.
pub mod Index
pub mod Steps
pub mod Calls
pub mod Reads
pub mod Unique
pub mod Places
pub mod Order
mod Tests
use shell_operator.Base.{
  ℕ, Bool, if◌then◌else◌, List, [], ◌∷◌, Option, none, some, String, string_key, lookup, insert,
  delete,
}
use shell_operator.LinkedList.Sequence.{
  Element, Sequence, empty, len, front, back, values, push_front, push_back,
  insert_after as list_after, insert_before as list_before, remove as list_remove,
}

-- The part of the interface task.Task that the storage calls.
pub record HasId (T : Type 0) : Type 0 where
  pub get_id : T → String

abbrev pub get_id : {T : Type 0} ⦃i : HasId T⦄ → T → String
get_id ⦃i⦄ = i.get_id

pub data TaskStatus : Type 0 where
  success fail repeat keep : TaskStatus
  other : String → TaskStatus

pub record TaskStorage (T : Type 0) : Type 0 where
  pub items : Sequence T
  pub id_index : List (String × Element T)

-- The tasks that a handler's result asks to add.
pub record NewTasks (T : Type 0) : Type 0 where
  pub head_tasks : List T
  pub tail_tasks : List T
  pub after_tasks : List T

module _ {T : Type 0} where
  abbrev pub new_task_storage : TaskStorage T
  new_task_storage = record { items = empty; id_index = [] }

  unfoldable pub get_first : TaskStorage T → Option T
  get_first s = elim (front s.items) [ none ↦ none | some e ↦ some e.value ]

  unfoldable pub get_last : TaskStorage T → Option T
  get_last s = elim (back s.items) [ none ↦ none | some e ↦ some e.value ]

  abbrev pub storage_length : TaskStorage T → ℕ
  storage_length s = len s.items

  abbrev pub get_snapshot : TaskStorage T → List T
  get_snapshot s = values s.items.elements

module _ {T : Type 0} ⦃i : HasId T⦄ where
  unfoldable pub add_first_one : T → TaskStorage T → TaskStorage T
  unfolding push_front
  add_first_one t s =
      let (e, l) = push_front t s.items in
      record { items = l; id_index = insert (get_id t) e s.id_index }

  -- The loop runs from the last task to the first.
  unfoldable pub add_first : List T → TaskStorage T → TaskStorage T
  add_first [] s = s
  add_first (t ∷ ts) s = add_first_one t (add_first ts s)

  unfoldable pub add_last_one : T → TaskStorage T → TaskStorage T
  unfolding push_back
  add_last_one t s =
      let (e, l) = push_back t s.items in
      record { items = l; id_index = insert (get_id t) e s.id_index }

  unfoldable pub add_last : List T → TaskStorage T → TaskStorage T
  add_last [] s = s
  add_last (t ∷ ts) s = add_last ts (add_last_one t s)

  unfoldable pub remove_element : Element T → TaskStorage T → T × TaskStorage T
  unfolding list_remove
  remove_element e s =
      let (t, l) = list_remove e s.items in
      (t, record { items = l; id_index = delete (get_id t) s.id_index })

  abbrev remove_found : Option (Element T) → TaskStorage T → Option T × TaskStorage T
  remove_found none s = (none, s)
  remove_found (some e) s = let (t, s') = remove_element e s in (some t, s')

  unfoldable pub remove_first : TaskStorage T → Option T × TaskStorage T
  unfolding remove_element
  remove_first s = remove_found (front s.items) s

  unfoldable pub remove_last : TaskStorage T → Option T × TaskStorage T
  unfolding remove_element
  remove_last s = remove_found (back s.items) s

  -- The list answers no element only if the mark is not in it, which an index that is sound excludes.
  abbrev index_new : T → Option (Element T) × Sequence T → TaskStorage T → TaskStorage T
  index_new t (none, l) s = record s { items = l }
  index_new t (some e, l) s = record { items = l; id_index = insert (get_id t) e s.id_index }

  unfoldable pub add_after_one : Element T → T → TaskStorage T → TaskStorage T
  unfolding list_after
  add_after_one mark t s = index_new t (list_after t mark s.items) s

  -- The loop runs from the last task to the first, at one mark.
  unfoldable pub add_after_mark : Element T → List T → TaskStorage T → TaskStorage T
  add_after_mark mark [] s = s
  add_after_mark mark (t ∷ ts) s = add_after_one mark t (add_after_mark mark ts s)

  unfoldable pub add_after : String → List T → TaskStorage T → TaskStorage T
  add_after id ts s = elim (lookup id s.id_index) [
    | none ↦ s
    | some mark ↦ add_after_mark mark ts s
  ]

  unfoldable pub add_before_one : Element T → T → TaskStorage T → TaskStorage T
  unfolding list_before
  add_before_one mark t s = index_new t (list_before t mark s.items) s

  unfoldable pub add_before : String → T → TaskStorage T → TaskStorage T
  add_before id t s = elim (lookup id s.id_index) [ none ↦ s | some mark ↦ add_before_one mark t s ]

  unfoldable pub remove_indexed : String → Element T → TaskStorage T → Option T × TaskStorage T
  unfolding list_remove
  remove_indexed id e s =
      let (t, l) = list_remove e s.items in
      (some t, record { items = l; id_index = delete id s.id_index })

  unfoldable pub remove : String → TaskStorage T → Option T × TaskStorage T
  remove id s = elim (lookup id s.id_index) [ none ↦ (none, s) | some e ↦ remove_indexed id e s ]

  unfoldable pub get : String → TaskStorage T → Option T
  get id s = elim (lookup id s.id_index) [ none ↦ none | some e ↦ some e.value ]

  -- The callback may change a state of its own, which `acc` is. `e.Next()` is read before `e` is
  -- removed, so the loop walks the elements that were there at its start.
  unfoldable pub delete_loop {ℓ} :
      {S : Type ℓ} → (T → S → Bool × S) → List (Element T) → S → TaskStorage T → S × TaskStorage T
  delete_loop fn [] acc s = (acc, s)
  delete_loop fn (e ∷ es) acc s =
      let (stays, acc') = fn e.value acc in
      delete_loop fn es acc' (if stays then s else (remove_element e s).1)

  unfoldable pub delete_func {ℓ} :
      {S : Type ℓ} → (T → S → Bool × S) → S → TaskStorage T → S × TaskStorage T
  unfolding delete_loop
  delete_func fn acc s = delete_loop fn s.items.elements acc s

  -- The task stays in the queue unless its status is Success.
  unfoldable pub settle : TaskStatus → T → TaskStorage T → TaskStorage T
  settle success t s = (remove (get_id t) s).1
  settle _ t s = s

  unfoldable pub process_result : TaskStatus → NewTasks T → T → TaskStorage T → TaskStorage T
  unfolding settle
  process_result status new t s =
      add_last new.tail_tasks
        (add_first new.head_tasks (settle status t (add_after (get_id t) new.after_tasks s)))
