-- ===== src/Queue/Waits.antt =====
-- How TaskQueue.waitForTask of pkg/task/queue/task_queue.go ends.
use shell_operator.Base.{
  if◌then◌else◌, sym, ℕ, Bool, ◌≡◌, ◌==◌, nat_key, List, [], ◌∷◌, ◌++◌, Option, none, some, true,
  false, ◌&&◌, ltb, leb, ◌+◌, ◌≤◌, ◌<◌, any, All, refl, arith, Bool-cases, inl, inr, ◌⊎◌, ap, ◌∙◌,
}
use shell_operator.Task.{Task}
use shell_operator.Queue.Status.{status_set_text, TaskQueueStatus}
use shell_operator.Queue.Waiting.{
  progress_text, Tick, WaitEvent, done, ticks, Durations, Wait, Waited, answers, waits, until_at,
  wait_loop, restored, first_wait, wait_for_task,
}

abbrev pub is_cancelling : WaitEvent → Bool
is_cancelling done = false
is_cancelling (ticks k) = k.delay_cancelled

abbrev pub is_done : WaitEvent → Bool
is_done done = true
is_done (ticks k) = false

-- Some tick of the list satisfies the predicate.
abbrev pub AtTick : (Tick → Type 0) → List WaitEvent → Type 0
AtTick P [] = ⊥
AtTick P (done ∷ es) = AtTick P es
AtTick P (ticks k ∷ es) = P k ⊎ AtTick P es

abbrev pub Hands : Task → Tick → Type 0
Hands t k = (0 < k.queue_length) × (k.head ≡ some t)

abbrev pub HandsAfter : ℕ → Task → Tick → Type 0
HandsAfter n t k = (n ≤ k.elapsed) × (0 < k.queue_length) × (k.head ≡ some t)

-- Length has found tasks and GetFirst has found none: another goroutine has emptied the queue in between.
abbrev pub Emptied : Tick → Type 0
Emptied k = (0 < k.queue_length) × (k.head ≡ none)

module _ (world : Durations) (w : Wait) where
  AtTick-map :
      (P Q : Tick → Type 0) (es : List WaitEvent)
      → ((k : Tick) → P k → Q k)
      → AtTick P es
      → AtTick Q es
  AtTick-map P Q [] f h = h
  AtTick-map P Q (done ∷ es) f h = AtTick-map P Q es f h
  AtTick-map P Q (ticks k ∷ es) f (inl p) = inl (f k p)
  AtTick-map P Q (ticks k ∷ es) f (inr h) = inr (AtTick-map P Q es f h)

  loop-nil : (n : ℕ) (s : TaskQueueStatus) → wait_loop world w [] n s ≡ waits n s
  unfolding wait_loop
  loop-nil n s = refl

  loop-done :
      (es : List WaitEvent) (n : ℕ) (s : TaskQueueStatus)
      → wait_loop world w (done ∷ es) n s ≡ answers none
  unfolding wait_loop
  loop-done es n s = refl

  -- One tick ends the wait, or leads to the rest of the wait with another limit.
  data Round (k : Tick) (es : List WaitEvent) (n : ℕ) (s : TaskQueueStatus) : Type 0 where
    ends :
        wait_loop world w (ticks k ∷ es) n s ≡ answers k.head
        → 0 < k.queue_length
        → (k.delay_cancelled ≡ true) ⊎ (n ≤ k.elapsed)
        → Round k es n s
    goes_on :
        (m : ℕ) (s' : TaskQueueStatus)
        → wait_loop world w (ticks k ∷ es) n s ≡ wait_loop world w es m s'
        → (k.delay_cancelled ≡ true) ⊎ (n ≤ m)
        → (m ≤ n) ⊎ (m ≤ k.elapsed + w.on_empty)
        → (k.queue_length ≡ 0) ⊎ (k.elapsed < n)
        → Round k es n s

  round : (k : Tick) (es : List WaitEvent) (n : ℕ) (s : TaskQueueStatus) → Round k es n s
  unfolding wait_loop
  round k es n s = elim (Bool-cases (leb (until_at k n) k.elapsed)) [
    | inl over ↦ elim (Bool-cases (k.queue_length == 0)) [
      | inl empty ↦
          goes_on (until_at k n + w.on_empty) (status_set_text (progress_text world w k.shown) s)
            (rw (over, empty, wait_loop) refl) (ground arith) (ground arith) (ground arith)
      | inr some_left ↦ ends (rw (over, some_left, wait_loop) refl) (ground arith) (ground arith)
    ]
    | inr early ↦
        goes_on (until_at k n) (status_set_text (progress_text world w k.shown) s)
          (rw (early, wait_loop) refl) (ground arith) (ground arith) (ground arith)
  ]

  -- The loop hands out a task that it has met at the head of a queue that was not empty, and not before the wait is over
  -- unless the delay has been cancelled.
  pub wait_loop-some :
      (t : Task) (es : List WaitEvent) (n : ℕ) (s : TaskQueueStatus)
      → wait_loop world w es n s ≡ answers (some t)
      → AtTick (HandsAfter n t) es ⊎ (any is_cancelling es ≡ true) × AtTick (Hands t) es
  wait_loop-some t [] n s h = absurd (ground (arith, loop-nil n s))
  wait_loop-some t (done ∷ es) n s h = absurd (ground (arith, loop-done es n s))
  wait_loop-some t (ticks k ∷ es) n s h = elim (round k es n s) [
    | ends e p (inl c) ↦ inr (ground arith, inl (p, ground (arith, e, h)))
    | ends e p (inr o) ↦ inl (inl (o, p, ground (arith, e, h)))
    | goes_on m s' e b c d ↦ elim (wait_loop-some t es m s' (sym e ∙ h)) [
      | inl a ↦ elim b [
        | inl x ↦
            inr (ground arith, inr (AtTick-map (HandsAfter m t) (Hands t) es (λ j q. (q.1, q.2)) a))
        | inr x ↦ inl (
            inr (
              AtTick-map (HandsAfter m t) (HandsAfter n t) es
                (λ j q. (omega (arith, x, q.0), q.1, q.2)) a))
      ]
      | inr (c', a) ↦ inr (ground arith, inr a)
    ]
  ]

  -- The loop answers nil, on which the worker stops, only if the context is done, or if the queue was emptied between the
  -- worker's reads of its length and of its head.
  pub wait_loop-none :
      (es : List WaitEvent) (n : ℕ) (s : TaskQueueStatus)
      → wait_loop world w es n s ≡ answers none
      → (any is_done es ≡ true) ⊎ AtTick Emptied es
  wait_loop-none [] n s h = absurd (ground (arith, loop-nil n s))
  wait_loop-none (done ∷ es) n s h = inl refl
  wait_loop-none (ticks k ∷ es) n s h = elim (round k es n s) [
    | ends e p o ↦ inr (inl (p, ground (arith, e, h)))
    | goes_on m s' e b c d ↦ elim (wait_loop-none es m s' (sym e ∙ h)) [
      | inl a ↦ inl a
      | inr a ↦ inr (inr a)
    ]
  ]

  -- What comes before a tick leaves the wait time to be over by then.
  abbrev pub IsEarly : ℕ → WaitEvent → Type 0
  IsEarly n done = Unit {0}
  IsEarly n (ticks k) = k.elapsed + w.on_empty ≤ n

  -- The wait ends: it is over at the latest at a tick that finds the queue not empty, when the time since the begin of
  -- the wait has reached the limit and every earlier tick lies at least DelayOnQueueIsEmpty before.
  pub wait_loop-ends :
      (pre post : List WaitEvent) (k : Tick) (n : ℕ) (s : TaskQueueStatus)
      → 0 < k.queue_length
      → n ≤ k.elapsed
      → All (IsEarly k.elapsed) pre
      → (a : Option Task) × (wait_loop world w (pre ++ ticks k ∷ post) n s ≡ answers a)
  wait_loop-ends [] post k n s p o early = elim (round k post n s) [
    | ends e q r ↦ (k.head, e)
    | goes_on m s' e b c d ↦ absurd (ground arith)
  ]
  wait_loop-ends (done ∷ pre) post k n s p o early = (none, loop-done (pre ++ ticks k ∷ post) n s)
  wait_loop-ends (ticks j ∷ pre) post k n s p o early = elim (round j (pre ++ ticks k ∷ post) n s) [
    | ends e q r ↦ (j.head, e)
    | goes_on m s' e b c d ↦
        let bound : m ≤ k.elapsed = ground (arith, early.0, o, c) in
        let (a, h) = wait_loop-ends pre post k m s' p bound early.1 in (a, e ∙ h)
  ]

  restored-answers :
      (r : Waited) (a : Option Task) → (restored w.original r).0 ≡ answers a → r ≡ answers a
  restored-answers (answers b) a h = h
  restored-answers (waits n s) a h = absurd (ground arith)

  waited_later :
      (len : ℕ) (head : Option Task) (es : List WaitEvent)
      → (ltb 0 len && (w.sleep_delay == 0)) ≡ false
      → wait_for_task world w false len head es
        ≡ restored w.original (wait_loop world w es (first_wait w) w.original)
  unfolding wait_for_task
  waited_later len head es h = rw (h, wait_for_task)

  restored-status :
      (r : Waited) (a : Option Task)
      → (restored w.original r).0 ≡ answers a
      → (restored w.original r).1 ≡ w.original
  restored-status (answers b) a h = refl
  restored-status (waits n s) a h = absurd (ground arith)

  -- A task that waitForTask hands out was at the head of a queue that was not empty: at once if no
  -- delay is asked for, else at a tick that comes no earlier than the delay (or
  -- DelayOnQueueIsEmpty, if no delay is asked for), unless some tick has found the delay cancelled.
  pub wait_for_task-some :
      (cancelled : Bool) (len : ℕ) (head : Option Task) (es : List WaitEvent) (t : Task)
      → (wait_for_task world w cancelled len head es).0 ≡ answers (some t)
      → ((0 < len) × (w.sleep_delay ≡ 0) × (head ≡ some t))
        ⊎ (AtTick (HandsAfter (if w.sleep_delay == 0 then w.on_empty else w.sleep_delay) t) es
            ⊎ (any is_cancelling es ≡ true) × AtTick (Hands t) es)
  unfolding wait_for_task
  wait_for_task-some true len head es t h = absurd (ground arith)
  wait_for_task-some false len head es t h = elim (Bool-cases (ltb 0 len && (w.sleep_delay == 0))) [
    | inl now ↦ inl (ground arith)
    | inr later ↦ inr (
        wait_loop-some t es (first_wait w) w.original (
          restored-answers (wait_loop world w es (first_wait w) w.original) (some t)
            (ap (λ r. r.0) (sym (waited_later len head es later)) ∙ h)))
  ]

  -- Whenever waitForTask returns, the status is the one from before the wait.
  pub wait_for_task-status :
      (cancelled : Bool) (len : ℕ) (head : Option Task) (es : List WaitEvent) (a : Option Task)
      → (wait_for_task world w cancelled len head es).0 ≡ answers a
      → (wait_for_task world w cancelled len head es).1 ≡ w.original
  unfolding wait_for_task
  wait_for_task-status true len head es a h = refl
  wait_for_task-status false len head es a h =
      elim (Bool-cases (ltb 0 len && (w.sleep_delay == 0))) [
        | inl now ↦ rw (now, wait_for_task) refl
        | inr later ↦
            let step = waited_later len head es later in
            ap (λ r. r.1) step
            ∙ restored-status (wait_loop world w es (first_wait w) w.original) a
                (ap (λ r. r.0) (sym step) ∙ h)
      ]
