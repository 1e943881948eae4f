-- ===== src/Queue/Lossless.antt =====
-- TaskQueue.compaction (pkg/task/queue/task_queue.go) as a whole: what the task that stays for a hook carries.
use shell_operator.Base.{string_key, nat_key, List}
use shell_operator.Task.{Task}
use shell_operator.Queue.Groups.{Groups}
