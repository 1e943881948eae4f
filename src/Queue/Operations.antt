-- ===== src/Queue/Operations.antt =====
-- The operations of TaskQueue (pkg/task/queue/task_queue.go) that its clients call. Logging and the time
-- metrics of the operations are left out.
use shell_operator.Base.{
  Bool, string_key, if◌then◌else◌, List, [], ◌∷◌, Option, none, some, String, true, false, ◌&&◌,
  nat_key, has_key, ltb,
}
use shell_operator.Task.{Task, task_has_id}
use shell_operator.Storage
use shell_operator.Storage.{TaskStorage, storage_length}
use shell_operator.Counter
use shell_operator.Counter.{TaskCounter, compaction_threshold, is_any_cap_reached, get_reached_cap}
use shell_operator.Queue.State.{Runtime, TaskQueue, with_counter, with_storage}
use shell_operator.Queue.Merge.{compaction}

-- `for _, t := range tasks { q.queueTasksCounter.Add(t) }`
unfoldable pub count_all : List Task → TaskCounter → TaskCounter
count_all [] c = c
count_all (t ∷ ts) c = count_all ts (Counter.add t c)

abbrev pub uncount : Option Task → TaskCounter → TaskCounter
uncount none c = c
uncount (some t) c = Counter.remove t c

unfoldable pub add_first : List Task → TaskQueue → TaskQueue
unfolding count_all
add_first ts q = with_counter (count_all ts) (with_storage (Storage.add_first ts) q)

-- A removal by the storage, and the counter told of what was removed.
abbrev pub take_out : Option Task × TaskStorage Task → TaskQueue → Option Task × TaskQueue
take_out (t, s) q = (t, record q { storage = s; tasks_counter = uncount t q.tasks_counter })

unfoldable pub remove_first : TaskQueue → Option Task × TaskQueue
remove_first q = take_out (Storage.remove_first q.storage) q

unfoldable pub remove_last : TaskQueue → Option Task × TaskQueue
remove_last q =
    if nat_key.same (storage_length q.storage) 0
    then (none, q)
    else take_out (Storage.remove_last q.storage) q

unfoldable pub remove : String → TaskQueue → Option Task × TaskQueue
remove id q = take_out (Storage.remove id q.storage) q

unfoldable pub get_first : TaskQueue → Option Task
get_first q = Storage.get_first q.storage

unfoldable pub get_last : TaskQueue → Option Task
get_last q = Storage.get_last q.storage

unfoldable pub get : String → TaskQueue → Option Task
get id q = Storage.get id q.storage

unfoldable pub add_after : String → List Task → TaskQueue → TaskQueue
unfolding count_all
add_after id ts q = with_counter (count_all ts) (with_storage (Storage.add_after id ts) q)

unfoldable pub add_before : String → Task → TaskQueue → TaskQueue
add_before id t q = with_counter (Counter.add t) (with_storage (Storage.add_before id t) q)

-- The queue is compacted when it has grown past the threshold and some id has reached the cap.
abbrev pub is_crowded : TaskQueue → Bool
is_crowded q =
    ltb compaction_threshold (storage_length q.storage) && is_any_cap_reached q.tasks_counter

unfoldable pub compact_after_add : Runtime → Task → TaskQueue → TaskQueue
compact_after_add world t q =
    if has_key t.task_type q.compactable_types && is_crowded q
    then compaction world (get_reached_cap q.tasks_counter) q
    else q

unfoldable pub add_last_one : Runtime → Task → TaskQueue → TaskQueue
unfolding compact_after_add
add_last_one world t q =
    compact_after_add world t
      (with_counter (Counter.add t) (with_storage (Storage.add_last (t ∷ [])) q))

unfoldable pub add_last : Runtime → List Task → TaskQueue → TaskQueue
unfolding add_last_one
add_last world [] q = q
add_last world (t ∷ ts) q = add_last world ts (add_last_one world t q)

-- The callback that DeleteFunc hands to the storage: a refused task leaves the counter too.
abbrev pub delete_or_keep : (Task → Bool) → Task → TaskCounter → Bool × TaskCounter
delete_or_keep fn t c = if fn t then (true, c) else (false, Counter.remove t c)

unfoldable pub delete_func : (Task → Bool) → TaskQueue → TaskQueue
delete_func fn q =
    let (c, s) = Storage.delete_func (delete_or_keep fn) q.tasks_counter q.storage in
    record q { storage = s; tasks_counter = c }
