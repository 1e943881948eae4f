-- ===== src/Queue/Turns.antt =====
-- Turns of the worker of a queue, TaskQueue.Start of pkg/task/queue/task_queue.go.
use shell_operator.Base.{
  ◌∙◌, if_false, sym, ◌==◌, ◌+◌, any, ◌<◌, if◌then◌else◌, subst, ap, Bool-cases, ◌⊎◌, ℕ, ◌≡◌, inr,
  inl, false, true, some, none, nat_key, string_key, arith, refl,
}
use shell_operator.Task.{Task, failure_count_of}
use shell_operator.Storage.{fail}
use shell_operator.Queue.Status.{TaskQueueStatus}
use shell_operator.Queue.State.{Runtime, TaskQueue, with_status}
use shell_operator.Queue.Worker.{Handler, TaskResult, returns, Processed, process_one}
use shell_operator.Queue.Waiting.{Durations, Waited, answers, waits, wait_for_task}
use shell_operator.Queue.Waits.{AtTick, Hands, HandsAfter, is_cancelling, wait_for_task-some}
use shell_operator.Queue.Settled.{process_one-fail, handled}
use shell_operator.Queue.Loop.{Round, goes_on, turn_of, after_wait, wait_of, turn}

Waited-cases :
    (a : Waited)
    → ((t : Task) × (a ≡ answers (some t)))
      ⊎ (a ≡ answers none)
      ⊎ ((n : ℕ) × (s : TaskQueueStatus) × (a ≡ waits n s))
Waited-cases (answers none) = inr (inl refl)
Waited-cases (answers (some t)) = inl (t, refl)
Waited-cases (waits n s) = inr (inr (n, s, refl))

module _ (world : Runtime) (durations : Durations) (delay_on_empty : ℕ) where
  abbrev pub waited : Round → ℕ → TaskQueue → Waited × TaskQueueStatus
  waited r delay q =
      wait_for_task durations (wait_of world durations delay_on_empty delay q) r.context_done
        r.first_length r.first_head r.events

  -- The queue as the worker gets it after its wait.
  abbrev pub after_meanwhile : Round → ℕ → TaskQueue → TaskQueue
  after_meanwhile r delay q = with_status (λ _. (waited r delay q).1) (r.meanwhile q)

  turn_of-goes_on :
      (t t' : Task) (p : Processed) (d : ℕ) (q : TaskQueue)
      → turn_of t p ≡ goes_on t' d q
      → (t ≡ t') × (p.sleep_delay ≡ d) × (p.queue ≡ q)
  turn_of-goes_on t t' p d q h = elim (Bool-cases p.exits) [
    | inl e ↦ let x = rw e at h in absurd (cc)
    | inr e ↦ let x = rw e at h in (cc, cc, cc)
  ]

  after_wait-goes_on :
      (handler : Handler) (q : TaskQueue) (a : Waited) (s : TaskQueueStatus) (t : Task) (d : ℕ)
      (q' : TaskQueue)
      → after_wait world handler q (a, s) ≡ goes_on t d q'
      → let p = process_one world handler t (with_status (λ _. s) q) in
        (a ≡ answers (some t)) × (p.sleep_delay ≡ d) × (p.queue ≡ q')
  unfolding after_wait
  after_wait-goes_on handler q (answers none) s t d q' h = absurd (cc)
  after_wait-goes_on handler q (waits n s') s t d q' h = absurd (cc)
  after_wait-goes_on handler q (answers (some x)) s t d q' h =
      let (e, f, g) =
        turn_of-goes_on x t (process_one world handler x (with_status (λ _. s) q)) d q' h in
      (
        ap (λ y. answers (some y)) e,
        subst (λ y. (process_one world handler y (with_status (λ _. s) q)).sleep_delay ≡ d) e f,
        subst (λ y. (process_one world handler y (with_status (λ _. s) q)).queue ≡ q') e g,
      )

  turn-goes_on :
      (r : Round) (delay : ℕ) (q : TaskQueue) (t : Task) (d : ℕ) (q' : TaskQueue)
      → turn world durations delay_on_empty r delay q ≡ goes_on t d q'
      → let p = process_one world r.handler t (after_meanwhile r delay q) in
        ((waited r delay q).0 ≡ answers (some t)) × (p.sleep_delay ≡ d) × (p.queue ≡ q')
  unfolding turn
  turn-goes_on r delay q t d q' h =
      after_wait-goes_on r.handler (r.meanwhile q) (waited r delay q).0 (waited r delay q).1 t d q'
        h

  chosen_delay : (d b : ℕ) → d ≡ 0 → (if nat_key.same d 0 then b else d) ≡ b
  chosen_delay d b e = ground arith

  -- A wait for a delay that is not zero ends at a tick.
  waited_delay :
      (r : Round) (b : ℕ) (q : TaskQueue) (t : Task)
      → 0 < b
      → (waited r b q).0 ≡ answers (some t)
      → AtTick (HandsAfter b t) r.events
        ⊎ (any is_cancelling r.events ≡ true) × AtTick (Hands t) r.events
  waited_delay r b q t l h =
      elim (wait_for_task-some durations (wait_of world durations delay_on_empty b q) r.context_done
        r.first_length r.first_head r.events t h) [
          | inl (_, e, _) ↦ absurd (omega arith)
          | inr (inl x) ↦
              let n : (b == 0) ≡ false = ground arith in
              inl (subst (λ k. AtTick (HandsAfter k t) r.events) (if_false delay_on_empty b n) x)
          | inr (inr x) ↦ inr x
        ]

  -- The worker has run a task, whose handler has returned the status Fail with neither a delay nor an AfterHandle,
  -- while the queue was not cancelled, and the backoff is not zero: if its next turn runs a task, then that is a
  -- task that a tick has found at the head of the queue once the backoff for the failures before
  -- had passed, unless some tick has found the delay cancelled. When that wait begins, the tasks are as the
  -- handler has left them, and the failure count has grown by one.
  pub turn-after_fail :
      (r next : Round) (delay : ℕ) (q : TaskQueue) (t : Task) (d : ℕ) (q' : TaskQueue)
      (res : TaskResult) (left : TaskQueue) (t' : Task) (d' : ℕ) (q'' : TaskQueue)
      → turn world durations delay_on_empty r delay q ≡ goes_on t d q'
      → handled world r.handler t (after_meanwhile r delay q) ≡ (returns res, left)
      → left.cancelled ≡ false
      → res.status ≡ fail
      → res.after_handle ≡ none
      → res.delay_before_next_task ≡ 0
      → 0 < left.exponential_backoff (failure_count_of t left.heap)
      → turn world durations delay_on_empty next d q' ≡ goes_on t' d' q''
      → (q'.storage ≡ left.storage)
        × (failure_count_of t q'.heap ≡ failure_count_of t left.heap + 1)
        × (AtTick
              (HandsAfter (left.exponential_backoff (failure_count_of t left.heap)) t')
              next.events
            ⊎ (any is_cancelling next.events ≡ true) × AtTick (Hands t') next.events)
  turn-after_fail r next delay q t d q' res left t' d' q'' h e c s a z l h' =
      let b = left.exponential_backoff (failure_count_of t left.heap) in
      let (_, sd, sq) = turn-goes_on r delay q t d q' h in
      let (st, fc, _, _, sl) =
        process_one-fail world r.handler t (after_meanwhile r delay q) res left e c s a in
      let same : d ≡ b = sym sd ∙ sl ∙ chosen_delay res.delay_before_next_task b z in
      let (w, _, _) = turn-goes_on next d q' t' d' q'' h' in
      (
        sym (ap (λ x. x.storage) sq) ∙ st,
        sym (ap (λ x. failure_count_of t x.heap) sq) ∙ fc,
        waited_delay next b q' t' l (subst (λ x. (waited next x q').0 ≡ answers (some t')) same w),
      )
