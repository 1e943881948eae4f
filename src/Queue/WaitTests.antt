-- ===== src/Queue/WaitTests.antt =====
-- TaskQueue.waitForTask of pkg/task/queue/task_queue.go at concrete events.
use shell_operator.Base.{
  ℕ, ◌≡◌, List, [], ◌∷◌, ◌++◌, Option, none, some, true, false, ◌<◌, ◌⊎◌, any, refl, arith,
}
use shell_operator.Task.{Task}
use shell_operator.Queue.Status.{new_task_queue_status}
use shell_operator.Queue.Waiting.{
  Tick, WaitEvent, ticks, Durations, Wait, answers, wait_loop, wait_for_task,
}
use shell_operator.Queue.Waits.{
  AtTick, Hands, HandsAfter, Emptied, is_cancelling, is_done, wait_for_task-some, wait_loop-none,
  wait_loop-ends,
}

abbrev world : Durations
world = record { duration_string = λ n. "1s"; difference_string = λ n m. "1s" }

abbrev five_seconds : Wait
five_seconds = record { on_empty = 250; sleep_delay = 5000; original = new_task_queue_status }

abbrev task : Task
task = record {
  pointer = 0;
  id = "1";
  task_type = "HookRun";
  queue_name = "main";
  compaction_id = "hook.sh";
}

abbrev tick : ℕ → ℕ → Option Task → Tick
tick elapsed len head = record {
  elapsed = elapsed;
  delay_cancelled = false;
  queue_length = len;
  head = head;
  shown = elapsed;
}

abbrev some_events : List WaitEvent
some_events = ticks (tick 125 1 (some task)) ∷ ticks (tick 5000 1 (some task)) ∷ []

wait_for_task-some_example :
    ((0 < 1) × (five_seconds.sleep_delay ≡ 0) × (some task ≡ some task))
    ⊎ (AtTick (HandsAfter 5000 task) some_events
        ⊎ (any is_cancelling some_events ≡ true) × AtTick (Hands task) some_events)
unfolding wait_for_task wait_loop
wait_for_task-some_example =
    wait_for_task-some world five_seconds false 1 (some task) some_events task refl

-- The queue is emptied after its length was read.
abbrev emptied : List WaitEvent
emptied = ticks (tick 5000 1 none) ∷ []

wait_loop-none_example : (any is_done emptied ≡ true) ⊎ AtTick Emptied emptied
unfolding wait_loop
wait_loop-none_example = wait_loop-none world five_seconds emptied 5000 new_task_queue_status refl

wait_loop-ends_example :
    (a : Option Task) × (wait_loop world five_seconds
        ((ticks (tick 5000 0 none) ∷ []) ++ ticks (tick 5250 1 (some task)) ∷ [])
        5000
        new_task_queue_status
      ≡ answers a)
wait_loop-ends_example =
    wait_loop-ends world five_seconds (ticks (tick 5000 0 none) ∷ []) [] (tick 5250 1 (some task))
      5000 new_task_queue_status (omega arith) (omega arith) (omega arith, tt)
