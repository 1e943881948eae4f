-- ===== src/QueueSet.antt =====
-- pkg/task/queue/queue_set.go and pkg/task/queue/queue_storage.go: the queues by their names. Handlers, goroutines and the
-- wait for queues to stop are left out.
pub mod Tails
mod Tests
use shell_operator.Base.{
  ◌==◌, string_key, List, [], ◌∷◌, ◌++◌, Option, none, some, String, not, lookup, insert, delete,
  keep, map,
}
use shell_operator.Task.{Task}
use shell_operator.Queue.{Runtime, TaskQueue, add_last}

pub record TaskQueueSet : Type 0 where
  pub main_name : String
  pub queues : List (String × TaskQueue)

abbrev pub main_queue_name : String
main_queue_name = "main"

abbrev pub new_task_queue_set : TaskQueueSet
new_task_queue_set = record { main_name = main_queue_name; queues = [] }

-- queueStorage.Get.
abbrev pub get_by_name : String → TaskQueueSet → Option TaskQueue
get_by_name name s = lookup name s.queues

abbrev pub get_main : TaskQueueSet → Option TaskQueue
get_main s = get_by_name s.main_name s

-- queueStorage.Set.
unfoldable pub add_queue : TaskQueue → TaskQueueSet → TaskQueueSet
add_queue q s = record s { queues = insert q.name q s.queues }

-- Remove stops the queue, and forgets it.
unfoldable pub remove_queue : String → TaskQueueSet → TaskQueueSet
remove_queue name s = record s { queues = delete name s.queues }

-- A queue is a pointer, so AddLast on it changes what the set holds. A task of an unknown queue is only reported.
abbrev pub add_tail_task : Runtime → Task → TaskQueueSet → TaskQueueSet
add_tail_task world t s = elim (lookup t.queue_name s.queues) [
  | none ↦ s
  | some q ↦ record s { queues = insert t.queue_name (add_last world (t ∷ []) q) s.queues }
]

unfoldable pub add_tail_tasks : Runtime → List Task → TaskQueueSet → TaskQueueSet
add_tail_tasks world [] s = s
add_tail_tasks world (t ∷ ts) s = add_tail_tasks world ts (add_tail_task world t s)

abbrev pub listed_first : Option TaskQueue → List TaskQueue
listed_first none = []
listed_first (some q) = q ∷ []

-- The main queue, and then the others, in the order in which Go walks the map.
unfoldable pub get_queues :
    (List (String × TaskQueue) → List (String × TaskQueue)) → TaskQueueSet → List TaskQueue
get_queues range_order s =
    listed_first (get_main s)
    ++ keep (λ q. not (q.name == s.main_name)) (map (λ e. e.1) (range_order s.queues))
