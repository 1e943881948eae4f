-- ===== src/Queue/Status.antt =====
-- pkg/task/queue/queue_status_type.go.
use shell_operator.Base.{◌==◌, string_key, if◌then◌else◌, String}

pub data QueueStatusType : Type 0 where
  unknown idle no_handler_set running_task stop repeat_task sleeping waiting : QueueStatusType

unfoldable pub status_string : QueueStatusType → String
status_string idle = ""
status_string no_handler_set = "no handler set"
status_string running_task = "run first task"
status_string stop = "stop"
status_string repeat_task = "repeat head task"
status_string sleeping = "sleeping"
status_string waiting = "waiting for task"
status_string unknown = "unknown"

pub record TaskQueueStatus : Type 0 where
  pub status_type : QueueStatusType
  pub custom_text : String

abbrev pub new_task_queue_status : TaskQueueStatus
new_task_queue_status = record { status_type = idle; custom_text = "" }

unfoldable pub status_get : TaskQueueStatus → String
status_get s = if s.custom_text == "" then status_string s.status_type else s.custom_text

abbrev pub status_set : QueueStatusType → TaskQueueStatus → TaskQueueStatus
status_set t s = record { status_type = t; custom_text = "" }

abbrev pub status_set_text : String → TaskQueueStatus → TaskQueueStatus
status_set_text text s = record { status_type = sleeping; custom_text = text }

abbrev pub status_set_with_text : QueueStatusType → String → TaskQueueStatus → TaskQueueStatus
status_set_with_text t text s = record { status_type = t; custom_text = text }

abbrev pub status_snapshot : TaskQueueStatus → QueueStatusType × String
status_snapshot s = (s.status_type, s.custom_text)

abbrev pub status_restore : QueueStatusType → String → TaskQueueStatus → TaskQueueStatus
status_restore t text s = record { status_type = t; custom_text = text }
