-- ===== src/Queue/Waiting.antt =====
-- TaskQueue.waitForTask of pkg/task/queue/task_queue.go. What the worker meets in the loop is a list of events, in the
-- order in which its select takes them; other goroutines change the queue between any two reads of it.
use Prim.Native.String.{◌++◌ as append}
use shell_operator.Base.{
  ℕ, Bool, ◌==◌, nat_key, string_key, if◌then◌else◌, List, [], ◌∷◌, Option, none, String, ◌&&◌, ltb,
  leb, ◌+◌, ◌*◌, ◌/◌,
}
use shell_operator.Task.{Task}
use shell_operator.Queue.Status.{TaskQueueStatus, status_set_text, status_restore, status_string}

-- One tick of the ticker: the time since the wait began, whether CancelTaskDelay was called, what Length and then
-- GetFirst answer, and the time that the status shows.
pub record Tick : Type 0 where
  pub elapsed : ℕ
  pub delay_cancelled : Bool
  pub queue_length : ℕ
  pub head : Option Task
  pub shown : ℕ

pub data WaitEvent : Type 0 where
  done : WaitEvent
  ticks : Tick → WaitEvent

-- time.Duration.String, also of a difference, which may be negative.
pub record Durations : Type 0 where
  pub duration_string : ℕ → String
  pub difference_string : ℕ → ℕ → String

-- The settings of one wait.
pub record Wait : Type 0 where
  pub on_empty : ℕ
  pub sleep_delay : ℕ
  pub original : TaskQueueStatus

-- `answers none` is the nil that waitForTask returns; `waits` is a loop whose events have run out.
pub data Waited : Type 0 where
  answers : Option Task → Waited
  waits : ℕ → TaskQueueStatus → Waited

abbrev pub truncate_second : ℕ → ℕ
truncate_second d = d / 1000000000 * 1000000000

abbrev pub original_text : TaskQueueStatus → String
original_text s = if s.custom_text == "" then status_string s.status_type else s.custom_text

-- The status text while the wait goes on.
unfoldable pub progress_text : Durations → Wait → ℕ → String
progress_text world w shown =
    let delay = truncate_second w.sleep_delay in
    if w.sleep_delay == 0
    then append "waiting for task " (world.duration_string (truncate_second shown))
    else append (original_text w.original) (
        append " (" (
          append (world.difference_string delay (truncate_second shown))
            (append " left of " (append (world.duration_string delay) " delay)"))))

-- A cancelled delay ends at once.
abbrev pub until_at : Tick → ℕ → ℕ
until_at k wait_until = if k.delay_cancelled then k.elapsed else wait_until

unfoldable pub wait_loop : Durations → Wait → List WaitEvent → ℕ → TaskQueueStatus → Waited
unfolding progress_text
wait_loop world w [] wait_until s = waits wait_until s
wait_loop world w (done ∷ es) wait_until s = answers none
wait_loop world w (ticks k ∷ es) wait_until s =
    let until = until_at k wait_until in
    let later =
      wait_loop world w es (until + w.on_empty)
        (status_set_text (progress_text world w k.shown) s) in
    let sooner = wait_loop world w es until (status_set_text (progress_text world w k.shown) s) in
    if leb until k.elapsed then (if k.queue_length == 0 then later else answers k.head) else sooner

-- The deferred function restores the status when the wait ends.
abbrev pub restored : TaskQueueStatus → Waited → Waited × TaskQueueStatus
restored original (answers t) =
    (answers t, status_restore original.status_type original.custom_text original)
restored original (waits n s) = (waits n s, s)

abbrev pub first_wait : Wait → ℕ
first_wait w = if w.sleep_delay == 0 then w.on_empty else w.sleep_delay

-- `cancelled`, `len` and `head`: whether the context is done, and what Length and GetFirst answer at the start.
unfoldable pub wait_for_task :
    Durations → Wait → Bool → ℕ → Option Task → List WaitEvent → Waited × TaskQueueStatus
unfolding wait_loop
wait_for_task world w cancelled len head es =
    if cancelled
    then (answers none, w.original)
    else if ltb 0 len && (w.sleep_delay == 0)
    then (answers head, w.original)
    else restored w.original (wait_loop world w es (first_wait w) w.original)
