-- ===== src/Queue/LoopTests.antt =====
-- Turns of the worker, TaskQueue.Start of pkg/task/queue/task_queue.go, on a queue whose first task fails and then succeeds.
use shell_operator.Base.{
  any, ◌⊎◌, ◌<◌, ◌≡◌, ℕ, ◌+◌, false, true, some, none, nat_key, string_key, arith, refl, [], ◌∷◌,
}
use shell_operator.Task.{failure_count_of, change}
use shell_operator.Storage.{TaskStatus, success, fail}
use shell_operator.Queue.State.{Runtime, TaskQueue}
use shell_operator.Queue.Worker.{Handler, TaskResult, returns, before_handler}
use shell_operator.Queue.Waiting.{Durations, WaitEvent, ticks}
use shell_operator.Queue.Waits.{AtTick, Hands, HandsAfter, is_cancelling}
use shell_operator.Queue.Settled.{handled}
use shell_operator.Queue.Loop.{Round, Turn, goes_on, turn, start}
use shell_operator.Queue.Turns.{after_meanwhile, turn-after_fail}
use shell_operator.Combine.Samples.{task, queue}

abbrev runtime : Runtime
runtime = record {
  range_groups = λ m. m;
  range_contexts = λ m. m;
  left_contexts = λ t cs. cs;
  left_monitor_ids = λ t ids. ids;
  duration_string = λ n. "5s";
}

abbrev durations : Durations
durations = record { duration_string = λ n. "5s"; difference_string = λ m n. "1s" }

abbrev slow_queue : TaskQueue
slow_queue = record queue { exponential_backoff = λ n. 5 + n }

abbrev result : TaskStatus → TaskResult
result s = record {
  status = s;
  new_tasks = record { head_tasks = []; tail_tasks = []; after_tasks = [] };
  delay_before_next_task = 0;
  after_handle = none;
}

abbrev answers_with : TaskStatus → Handler
answers_with s t q = (returns (result s), q)

abbrev tick_at : ℕ → WaitEvent
tick_at n = ticks (record {
  elapsed = n;
  delay_cancelled = false;
  queue_length = 3;
  head = some (task 0 "1");
  shown = 0;
})

abbrev failing : Round
failing = record {
  context_done = false;
  first_length = 3;
  first_head = some (task 0 "1");
  events = [];
  meanwhile = λ q. q;
  handler = answers_with fail;
}

-- The tick at 4 comes too early.
abbrev retried : Round
retried = record failing { events = tick_at 4 ∷ tick_at 6 ∷ []; handler = answers_with success }

abbrev delay_of : Turn → ℕ
delay_of (goes_on t d q) = d
delay_of _ = 0

abbrev queue_of : Turn → TaskQueue
queue_of (goes_on t d q) = q
queue_of _ = slow_queue

abbrev first_turn : Turn
first_turn = turn runtime durations 10 failing 0 slow_queue

abbrev second_turn : Turn
second_turn = turn runtime durations 10 retried (delay_of first_turn) (queue_of first_turn)

abbrev left : TaskQueue
left =
    (handled runtime (answers_with fail) (task 0 "1")
      (after_meanwhile runtime durations 10 failing 0 slow_queue)).1

first_goes_on : first_turn ≡ goes_on (task 0 "1") (delay_of first_turn) (queue_of first_turn)
unfolding turn
first_goes_on = refl

second_goes_on : second_turn ≡ goes_on (task 0 "1") (delay_of second_turn) (queue_of second_turn)
unfolding turn change
second_goes_on = refl

left_cancelled : left.cancelled ≡ false
unfolding before_handler
left_cancelled = refl

left_backoff : 0 < left.exponential_backoff (failure_count_of (task 0 "1") left.heap)
unfolding before_handler
left_backoff = omega arith

turn-after_fail_example :
    ((queue_of first_turn).storage ≡ left.storage)
    × (failure_count_of (task 0 "1") (queue_of first_turn).heap
        ≡ failure_count_of (task 0 "1") left.heap + 1)
    × (AtTick
          (HandsAfter
            (left.exponential_backoff (failure_count_of (task 0 "1") left.heap))
            (task 0 "1"))
          retried.events
        ⊎ (any is_cancelling retried.events ≡ true) × AtTick (Hands (task 0 "1")) retried.events)
turn-after_fail_example =
    turn-after_fail runtime durations 10 failing retried 0 slow_queue (task 0 "1")
      (delay_of first_turn) (queue_of first_turn) (result fail) left (task 0 "1")
      (delay_of second_turn) (queue_of second_turn) first_goes_on refl left_cancelled refl refl refl
      left_backoff second_goes_on

-- The task is run again, and then the worker stops, since the context is done.
two_runs :
    (start runtime durations 10
      (failing ∷ retried ∷ record failing { context_done = true } ∷ [])
      slow_queue).0
    ≡ task 0 "1" ∷ task 0 "1" ∷ []
unfolding start change
two_runs = refl
