-- ===== src/Counter/Counts.antt =====
-- pkg/task/queue/task_counter.go: the counts are those of the calls, and an id is marked as having reached the cap only
-- while its count is at the threshold or above.
use shell_operator.Base.{
  ℕ, ◌≡◌, Bool, ◌==◌, string_key, nat_key, if◌then◌else◌, ◌&&◌, List, [], ◌∷◌, some, String, true,
  ◌+◌, ◌-◌, ◌%◌, lookup, insert, has_key, ◌≤◌, ◌<◌, refl, arith, eq_iff, lookup-insert,
  lookup-delete, Option-cases, Bool-cases, inl, inr, length, ◌⊎◌, ap, ◌∙◌,
}
use shell_operator.Task.{Task}
use shell_operator.Counter.{
  compaction_threshold, uint_mod, NameSet, TaskCounter, is_countable, count_or_zero, with_zero,
  add_id, add, remove_id, remove, reset_reached_cap, new_task_counter,
}

abbrev pub count_of : String → TaskCounter → ℕ
count_of id c = count_or_zero (lookup id c.counter)

abbrev pub is_reached : String → TaskCounter → Bool
is_reached id c = has_key id c.reached_cap

lookup-with_zero :
    (id k : String) (n : ℕ) (m : List (String × ℕ))
    → lookup k (insert id n (with_zero id (lookup id m) m))
      ≡ (if id == k then some n else lookup k m)
lookup-with_zero id k n m = ground (
  arith,
  Option-cases (lookup id m),
  lookup-insert id k n m,
  lookup-insert id k n (insert id 0 m),
  lookup-insert id k 0 m,
)

-- Adding an id counts it once more and leaves the other counts, while the count fits the 64 bits.
pub add_id-count :
    (id k : String) (c : TaskCounter)
    → count_of id c + 1 < uint_mod
    → count_of k (add_id id c) ≡ (if id == k then count_of id c + 1 else count_of k c)
unfolding add_id
add_id-count id k c h =
    let e : (count_of id c + 1) % uint_mod ≡ count_of id c + 1 = omega arith in
    ground (arith, e, lookup-with_zero id k ((count_of id c + 1) % uint_mod) c.counter)

-- Removing an id takes one from its count, unless that is 0, and leaves the other counts.
pub remove_id-count :
    (id k : String) (c : TaskCounter)
    → count_of k (remove_id id c) ≡ (if id == k then count_of id c - 1 else count_of k c)
unfolding remove_id
remove_id-count id k c = elim (Option-cases (lookup id c.counter)) [
  | inl e ↦ ground (arith, eq_iff id k)
  | inr (n, e) ↦
      ground
        (arith, eq_iff id k, lookup-delete id k c.counter, lookup-insert id k (n - 1) c.counter)
]

-- The calls that change a counter.
pub data Call : Type 0 where
  adds removes : Task → Call
  resets : Call

unfoldable pub step : Call → TaskCounter → TaskCounter
step (adds t) c = add t c
step (removes t) c = remove t c
step resets c = reset_reached_cap c

unfoldable pub run : List Call → TaskCounter → TaskCounter
run [] c = c
run (x ∷ xs) c = run xs (step x c)

-- The count of an id by the calls alone; taking away stops at zero.
abbrev pub tally_one : NameSet → String → Call → ℕ → ℕ
tally_one types id (adds t) n =
    if is_countable t (new_task_counter types) && (t.compaction_id == id) then n + 1 else n
tally_one types id (removes t) n =
    if is_countable t (new_task_counter types) && (t.compaction_id == id) then n - 1 else n
tally_one types id resets n = n

abbrev pub tally : NameSet → String → List Call → ℕ → ℕ
tally types id [] n = n
tally types id (x ∷ xs) n = tally types id xs (tally_one types id x n)

-- No count is above the bound.
abbrev pub IsAtMost : ℕ → TaskCounter → Type 0
IsAtMost n c = (id : String) → count_of id c ≤ n

-- An id is marked only while its count is at the threshold or above.
abbrev pub IsCapped : TaskCounter → Type 0
IsCapped c = (id : String) → is_reached id c ≡ true → compaction_threshold ≤ count_of id c

step-IsAtMost :
    (x : Call) (n : ℕ) (c : TaskCounter)
    → n + 1 < uint_mod
    → IsAtMost n c
    → IsAtMost (n + 1) (step x c)
unfolding step add remove reset_reached_cap
step-IsAtMost (adds t) n c h b id =
    ground (arith, add_id-count t.compaction_id id c, b id, b t.compaction_id)
step-IsAtMost (removes t) n c h b id =
    ground (arith, remove_id-count t.compaction_id id c, b id, b t.compaction_id)
step-IsAtMost resets n c h b id = omega (arith, b id)

add_id-reached :
    (id k : String) (c : TaskCounter)
    → count_of id c + 1 < uint_mod
    → is_reached k (add_id id c) ≡ true
    → (id ≡ k) × (count_of id c + 1 ≡ compaction_threshold) ⊎ (is_reached k c ≡ true)
unfolding add_id
add_id-reached id k c h r =
    let e : (count_of id c + 1) % uint_mod ≡ count_of id c + 1 = omega arith in
    ground (arith, e, lookup-insert id k tt c.reached_cap, eq_iff id k)

remove_id-reached :
    (id k : String) (c : TaskCounter)
    → is_reached k (remove_id id c) ≡ true
    → (is_reached k c ≡ true) × (id ≡ k → compaction_threshold ≤ count_of id c - 1)
unfolding remove_id
remove_id-reached id k c r = elim (Option-cases (lookup id c.counter)) [
  | inl e ↦ ground (arith, lookup-delete id k c.reached_cap, eq_iff id k)
  | inr (n, e) ↦ ground (arith, lookup-delete id k c.reached_cap, eq_iff id k)
]

add_id-IsCapped :
    (id : String) (c : TaskCounter)
    → count_of id c + 1 < uint_mod
    → IsCapped c
    → IsCapped (add_id id c)
add_id-IsCapped id c h v k r =
    ground (arith, add_id-reached id k c h r, add_id-count id k c h, v k, eq_iff id k)

remove_id-IsCapped : (id : String) (c : TaskCounter) → IsCapped c → IsCapped (remove_id id c)
remove_id-IsCapped id c v k r =
    ground (arith, remove_id-reached id k c r, remove_id-count id k c, v k, eq_iff id k)

step-IsCapped :
    (x : Call) (n : ℕ) (c : TaskCounter)
    → n + 1 < uint_mod
    → IsAtMost n c
    → IsCapped c
    → IsCapped (step x c)
unfolding step add remove reset_reached_cap
step-IsCapped (adds t) n c h b v = elim (Bool-cases (is_countable t c)) [
  | inl p ↦
      rw (p, step, add) (add_id-IsCapped t.compaction_id c (omega (arith, b t.compaction_id)) v)
  | inr p ↦ rw (p, step, add) v
]
step-IsCapped (removes t) n c h b v = elim (Bool-cases (is_countable t c)) [
  | inl p ↦ rw (p, step, remove) (remove_id-IsCapped t.compaction_id c v)
  | inr p ↦ rw (p, step, remove) v
]
step-IsCapped resets n c h b v = λ id r. absurd (cc)

run-IsCapped_from :
    (xs : List Call) (n : ℕ) (c : TaskCounter)
    → n + length xs < uint_mod
    → IsAtMost n c
    → IsCapped c
    → IsCapped (run xs c)
unfolding run
run-IsCapped_from [] n c h b v = v
run-IsCapped_from (x ∷ xs) n c h b v =
    run-IsCapped_from xs (n + 1) (step x c) (omega arith) (step-IsAtMost x n c (omega arith) b)
      (step-IsCapped x n c (omega arith) b v)

-- After any history of fewer than 2^64 calls, an id is marked as having reached the cap only while its count is at
-- the threshold of 100 or above.
pub run-new-IsCapped :
    (types : NameSet) (xs : List Call) (id : String)
    → length xs < uint_mod
    → is_reached id (run xs (new_task_counter types)) ≡ true
    → compaction_threshold ≤ count_of id (run xs (new_task_counter types))
run-new-IsCapped types xs id h =
    run-IsCapped_from xs 0 (new_task_counter types) (omega arith) (λ k. omega arith) (λ k r. cc) id

step-types : (x : Call) (c : TaskCounter) → (step x c).countable_types ≡ c.countable_types
unfolding step add remove reset_reached_cap add_id remove_id
step-types (adds t) c = ground arith
step-types (removes t) c = ground arith
step-types resets c = refl

step-tally :
    (x : Call) (n : ℕ) (c : TaskCounter) (id : String)
    → n + 1 < uint_mod
    → IsAtMost n c
    → count_of id (step x c) ≡ tally_one c.countable_types id x (count_of id c)
unfolding step add remove reset_reached_cap
step-tally (adds t) n c id h b =
    ground (arith, add_id-count t.compaction_id id c, b t.compaction_id, eq_iff t.compaction_id id)
step-tally (removes t) n c id h b =
    ground (arith, remove_id-count t.compaction_id id c, eq_iff t.compaction_id id)
step-tally resets n c id h b = refl

run-tally :
    (xs : List Call) (n : ℕ) (c : TaskCounter) (id : String)
    → n + length xs < uint_mod
    → IsAtMost n c
    → count_of id (run xs c) ≡ tally c.countable_types id xs (count_of id c)
unfolding run
run-tally [] n c id h b = refl
run-tally (x ∷ xs) n c id h b =
    run-tally xs (n + 1) (step x c) id (omega arith) (step-IsAtMost x n c (omega arith) b)
    ∙ ap (λ types. tally types id xs (count_of id (step x c))) (step-types x c)
    ∙ ap (tally c.countable_types id xs) (step-tally x n c id (omega arith) b)

-- After any history of fewer than 2^64 calls the count of an id is the number of countable tasks with that
-- compaction id that were added, less those that were removed, where taking away stops at zero.
pub run-new-tally :
    (types : NameSet) (xs : List Call) (id : String)
    → length xs < uint_mod
    → count_of id (run xs (new_task_counter types)) ≡ tally types id xs 0
run-new-tally types xs id h =
    run-tally xs 0 (new_task_counter types) id (omega arith) (λ k. omega arith)
