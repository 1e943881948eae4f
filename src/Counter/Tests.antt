-- ===== src/Counter/Tests.antt =====
-- pkg/task/queue/task_counter.go at a concrete history of calls.
use shell_operator.Base.{
  ℕ, zero, suc, ◌≡◌, ◌≤◌, ◌+◌, ◌-◌, ◌==◌, if◌then◌else◌, string_key, List, [], ◌∷◌, String, refl,
  arith, insert,
}
use shell_operator.Task.{Task}
use shell_operator.Counter.{
  compaction_threshold, NameSet, TaskCounter, new_task_counter, add, add_id, remove_id,
}
use shell_operator.Counter.Counts.{
  Call, adds, removes, resets, step, run, count_of, tally, run-new-IsCapped, run-new-tally,
  add_id-count, remove_id-count,
}

abbrev hook_run : NameSet
hook_run = ("HookRun", tt) ∷ []

abbrev a_task : Task
a_task = record {
  pointer = 0;
  id = "1";
  task_type = "HookRun";
  queue_name = "main";
  compaction_id = "hook.sh";
}

abbrev calls : List Call
calls = adds a_task ∷ adds a_task ∷ removes a_task ∷ resets ∷ adds a_task ∷ []

-- A counter that one task short of the threshold has been added to.
abbrev almost : TaskCounter
almost = record { counter = ("hook.sh", 99) ∷ []; reached_cap = []; countable_types = hook_run }

repeat_add : ℕ → List Call
repeat_add zero = []
repeat_add (suc n) = adds a_task ∷ repeat_add n

run-new-tally_example :
    count_of "hook.sh" (run calls (new_task_counter hook_run)) ≡ tally hook_run "hook.sh" calls 0
run-new-tally_example = run-new-tally hook_run calls "hook.sh" (omega arith)

add_id-count_example : count_of "hook.sh" (add_id "hook.sh" almost) ≡ (
    if ◌==◌ {K = String} "hook.sh" "hook.sh"
    then count_of "hook.sh" almost + 1
    else count_of "hook.sh" almost)
add_id-count_example = add_id-count "hook.sh" "hook.sh" almost (omega arith)

remove_id-count_example : count_of "hook.sh" (remove_id "hook.sh" almost) ≡ (
    if ◌==◌ {K = String} "hook.sh" "hook.sh"
    then count_of "hook.sh" almost - 1
    else count_of "hook.sh" almost)
remove_id-count_example = remove_id-count "hook.sh" "hook.sh" almost

run-new-IsCapped_example :
    compaction_threshold ≤ count_of "hook.sh" (run (repeat_add 100) (new_task_counter hook_run))
unfolding run repeat_add step add add_id insert
run-new-IsCapped_example = run-new-IsCapped hook_run (repeat_add 100) "hook.sh" (omega arith) refl
