-- ===== src/Storage/Tests.antt =====
-- pkg/task/queue/task_storage.go at concrete tasks, which here are their own ids.
use shell_operator.Base.{
  inl, inr, List, ℕ, ◌≡◌, Bool, ◌==◌, string_key, [], ◌∷◌, String, refl, not, insert, differ,
}
use shell_operator.LinkedList.Sequence.{without, behind, Element, push_back}
use shell_operator.Storage.{
  remove, add_after, add_after_mark, add_after_one, remove_indexed, HasId, TaskStorage, success,
  keep, NewTasks, new_task_storage, get_snapshot, process_result, delete_func, add_last,
  add_last_one,
}
use shell_operator.Storage.Index.{IsSound, IsIndexed}
use shell_operator.Storage.Calls
use shell_operator.Storage.Calls.{
  Call, removes_element, adds_last, adds_after, removes, run, run-new-IsSound,
}
use shell_operator.Storage.Unique.{step-IsIndexed, add_last-IsIndexed}
use shell_operator.Storage.Order.{
  process_result-snapshot, delete_func-survivors, survivors, final_state,
}

instance abbrev string_has_id : HasId String
string_has_id = record { get_id = λ s. s }

abbrev none_yet : TaskStorage String
none_yet = new_task_storage

none_yet-IsIndexed : IsIndexed none_yet
none_yet-IsIndexed = record {
  sound = record { distinct = tt; below = tt; indexed = λ id e p. cc };
  complete = λ e l. absurd l;
}

abbrev three : TaskStorage String
three = add_last ("a" ∷ "b" ∷ "c" ∷ []) none_yet

three-IsIndexed : IsIndexed three
three-IsIndexed =
    add_last-IsIndexed ("a" ∷ "b" ∷ "c" ∷ []) none_yet
      (
        refl,
        (differ "b" "a" refl, (differ "c" "a" refl, tt)),
        (refl, (differ "c" "b" refl, tt), (refl, tt, tt)),
      )
      none_yet-IsIndexed

abbrev new_tasks : NewTasks String
new_tasks = record { head_tasks = "h" ∷ []; tail_tasks = "t" ∷ []; after_tasks = "x" ∷ "y" ∷ [] }

abbrev b_element : Element String
b_element = record { handle = 1; value = "b" }

-- The element that `removes` has taken out.
abbrev stale_element : Element String
stale_element = record { handle = 1; value = "a" }

abbrev mixed_calls : List (Call String ℕ)
mixed_calls =
    adds_last ("a" ∷ "a" ∷ [])
    ∷ adds_after "a" ("b" ∷ [])
    ∷ removes "a"
    ∷ removes_element stale_element
    ∷ []

run-new-IsSound_example : IsSound (run mixed_calls none_yet)
unfolding Calls.step add_last add_last_one insert push_back remove add_after add_after_mark
    add_after_one remove_indexed without behind
run-new-IsSound_example = run-new-IsSound mixed_calls (tt, (tt, (tt, (inr refl, tt))))

step-IsIndexed_example : IsIndexed (Calls.step {S = ℕ} (removes_element b_element) three)
unfolding add_last add_last_one insert push_back
step-IsIndexed_example =
    step-IsIndexed {S = ℕ} (removes_element b_element) three (inr (inl refl)) three-IsIndexed

process_result-snapshot_example :
    (get_snapshot (process_result success new_tasks "b" three)
      ≡ ("h" ∷ "a" ∷ "x" ∷ "y" ∷ "c" ∷ "t" ∷ []))
    × (get_snapshot (process_result keep new_tasks "b" three)
        ≡ ("h" ∷ "a" ∷ "b" ∷ "x" ∷ "y" ∷ "c" ∷ "t" ∷ []))
unfolding add_last add_last_one push_back insert
process_result-snapshot_example =
    process_result-snapshot three ("a" ∷ []) ("c" ∷ []) "b" new_tasks three-IsIndexed refl
      (differ "x" "b" refl, (differ "y" "b" refl, tt))

abbrev refuse_one : String → ℕ → Bool × ℕ
refuse_one s n = (not (s == "b"), n)

delete_func-survivors_example :
    (get_snapshot (delete_func refuse_one 0 three).1 ≡ survivors refuse_one (get_snapshot three) 0)
    × ((delete_func refuse_one 0 three).0 ≡ final_state refuse_one (get_snapshot three) 0)
delete_func-survivors_example = delete_func-survivors refuse_one 0 three three-IsIndexed.sound
