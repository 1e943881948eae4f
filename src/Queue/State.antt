-- ===== src/Queue/State.antt =====
-- The state of a TaskQueue (pkg/task/queue/task_queue.go), and what the model takes from outside.
use shell_operator.Base.{ℕ, Bool, List, String}
use shell_operator.LinkedList.Sequence.{Element}
use shell_operator.Task.{Task, Heap, BindingContext}
use shell_operator.Storage.{TaskStorage}
use shell_operator.Counter.{TaskCounter, NameSet}
use shell_operator.Queue.Status.{TaskQueueStatus}

-- The tasks of one hook that are to be merged. The two totals of the source only size its buffers.
pub record CompactionGroup : Type 0 where
  pub target : Element Task
  pub to_merge : List (Element Task)

-- The orders in which Go walks the maps of a compaction, and time.Duration.String. A merge gives its slices back to
-- a pool while the task's metadata refers to them: `left_contexts` and `left_monitor_ids` are what the slices of a task
-- hold at the end of the compaction, after other merges that may have got and filled the same slices.
pub record Runtime : Type 0 where
  pub range_groups : List (String × CompactionGroup) → List (String × CompactionGroup)
  pub range_contexts : List (String × BindingContext) → List (String × BindingContext)
  pub left_contexts : Task → List BindingContext → List BindingContext
  pub left_monitor_ids : Task → List String → List String
  pub duration_string : ℕ → String

-- Durations are numbers of nanoseconds. `heap` holds the tasks' objects, `cancelled` tells whether the queue's
-- context is done, and `compacted` logs the calls of the compaction callback.
pub record TaskQueue : Type 0 where
  pub name : String
  pub storage : TaskStorage Task
  pub tasks_counter : TaskCounter
  pub compactable_types : NameSet
  pub status : TaskQueueStatus
  pub heap : Heap
  pub cancelled : Bool
  pub delay_on_repeat : ℕ
  pub exponential_backoff : ℕ → ℕ
  pub compacted : List (List Task × Task)

abbrev pub with_heap : (Heap → Heap) → TaskQueue → TaskQueue
with_heap f q = record q { heap = f q.heap }

abbrev pub with_status : (TaskQueueStatus → TaskQueueStatus) → TaskQueue → TaskQueue
with_status f q = record q { status = f q.status }

abbrev pub with_counter : (TaskCounter → TaskCounter) → TaskQueue → TaskQueue
with_counter f q = record q { tasks_counter = f q.tasks_counter }

abbrev pub with_storage : (TaskStorage Task → TaskStorage Task) → TaskQueue → TaskQueue
with_storage f q = record q { storage = f q.storage }
