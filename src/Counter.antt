-- ===== src/Counter.antt =====
-- pkg/task/queue/task_counter.go: how many tasks of each compaction id a queue holds, and which ids have
-- reached the threshold of compaction. A count is a `uint` of 64 bits, so it wraps.
pub mod Counts
mod Tests
use shell_operator.Base.{
  ℕ, Bool, string_key, nat_key, if◌then◌else◌, List, [], ◌∷◌, Option, none, some, String, true,
  false, ◌+◌, ◌-◌, ◌%◌, ◌^◌, lookup, insert, delete, has_key, ltb,
}
use shell_operator.Task.{Task}

abbrev pub compaction_threshold : ℕ
compaction_threshold = 100

abbrev pub uint_mod : ℕ
uint_mod = 2 ^ 64

-- A Go `map[string]struct{}`.
abbrev pub NameSet : Type 0
NameSet = List (String × Unit {0})

abbrev pub is_empty : {A : Type 0} → List A → Bool
is_empty [] = true
is_empty (x ∷ xs) = false

pub record TaskCounter : Type 0 where
  pub counter : List (String × ℕ)
  pub reached_cap : NameSet
  pub countable_types : NameSet

abbrev pub new_task_counter : NameSet → TaskCounter
new_task_counter types = record { counter = []; reached_cap = []; countable_types = types }

-- The tasks that Add and Remove do not pass over.
abbrev pub is_countable : Task → TaskCounter → Bool
is_countable t c =
    if is_empty c.countable_types then true else has_key t.task_type c.countable_types

-- `counter, ok := tc.counter[id]`, where a missing key reads as 0.
abbrev pub count_or_zero : Option ℕ → ℕ
count_or_zero none = 0
count_or_zero (some n) = n

abbrev pub with_zero : String → Option ℕ → List (String × ℕ) → List (String × ℕ)
with_zero id none m = insert id 0 m
with_zero id (some n) m = m

unfoldable pub add_id : String → TaskCounter → TaskCounter
add_id id c =
    let found = lookup id c.counter in
    let n = (count_or_zero found + 1) % uint_mod in
    record c {
      counter = insert id n (with_zero id found c.counter);
      reached_cap =
          if nat_key.same n compaction_threshold then insert id tt c.reached_cap else c.reached_cap;
    }

unfoldable pub add : Task → TaskCounter → TaskCounter
add t c = if is_countable t c then add_id t.compaction_id c else c

unfoldable pub remove_one : String → ℕ → TaskCounter → TaskCounter
remove_one id n c =
    if nat_key.same n 0
    then record c { counter = delete id c.counter; reached_cap = delete id c.reached_cap }
    else record c {
      counter = if nat_key.same (n - 1) 0 then delete id c.counter else insert id (n - 1) c.counter;
      reached_cap =
          if ltb (n - 1) compaction_threshold then delete id c.reached_cap else c.reached_cap;
    }

unfoldable pub remove_id : String → TaskCounter → TaskCounter
unfolding remove_one
remove_id id c = elim (lookup id c.counter) [
  | none ↦ record c { reached_cap = delete id c.reached_cap }
  | some n ↦ remove_one id n c
]

unfoldable pub remove : Task → TaskCounter → TaskCounter
remove t c = if is_countable t c then remove_id t.compaction_id c else c

abbrev pub get_reached_cap : TaskCounter → NameSet
get_reached_cap c = c.reached_cap

abbrev pub is_any_cap_reached : TaskCounter → Bool
is_any_cap_reached c = if is_empty c.reached_cap then false else true

unfoldable pub reset_reached_cap : TaskCounter → TaskCounter
reset_reached_cap c = record c { reached_cap = [] }
