-- ===== src/Orchestration/TaskQueue/Counts.antt =====
-- How many tasks of the queue of cli/src/orchestration/PriorityTaskQueue.ts pass a test, before and after
-- a call.
use ouroboros_runtime.Base.{
  ℕ, ◌+◌, ◌≤◌, ◌≡◌, refl, ◌∙◌, ◌⊎◌, inl, inr, Bool, true, false, List, [], ◌∷◌, ◌++◌, map, keep,
  length, find?, Option-cases, Bool-cases, arith,
}
use ouroboros_runtime.Base.Text.{Text, text_eq}
use ouroboros_runtime.Base.Sort.Keep.{length-keep-sort}
use ouroboros_runtime.Orchestration.TaskQueue.{
  PriorityTaskQueue, QueuedTask, QueueTaskStatus, status_order, status_is, is_pending, is_live,
  is_overdue, time_out, with_status, may_precede, sort_queue, update_first, dequeue, peek, complete,
  fail, cancel, set_status, enforce_timeouts, purge_completed, clear,
}
use ouroboros_runtime.Orchestration.TaskQueue.Calls.{Call, perform}

abbrev pub shrinks : Call → Bool
shrinks (Call.enqueues request) = false
shrinks (Call.restores snapshot) = false
shrinks call = true

-- Counting the tasks that pass a test `c`.
module _ (c p : QueuedTask → Bool) (f : QueuedTask → QueuedTask)
    (kept : (t : QueuedTask) → c (f t) ≡ true → c t ≡ true) where
  count-update_first :
      (ts : List QueuedTask) → length (keep c (update_first p f ts)) ≤ length (keep c ts)
  unfolding update_first
  count-update_first [] = omega arith
  count-update_first (t ∷ ts) = ground (arith, count-update_first ts, kept t)

module _ (c : QueuedTask → Bool) (f : QueuedTask → QueuedTask)
    (kept : (t : QueuedTask) → c (f t) ≡ true → c t ≡ true) where
  count-map : (ts : List QueuedTask) → length (keep c (map f ts)) ≤ length (keep c ts)
  count-map [] = omega arith
  count-map (t ∷ ts) = ground (arith, count-map ts, kept t)

module _ (c : QueuedTask → Bool) where
  count-keep :
      (p : QueuedTask → Bool) (ts : List QueuedTask)
      → length (keep c (keep p ts)) ≤ length (keep c ts)
  count-keep p [] = omega arith
  count-keep p (t ∷ ts) = ground (arith, count-keep p ts)

  count-append :
      (ts us : List QueuedTask)
      → length (keep c (ts ++ us)) ≡ length (keep c ts) + length (keep c us)
  count-append [] us = omega arith
  count-append (t ∷ ts) us = ground (arith, count-append ts us)

  pub count-sort_queue :
      (ts : List QueuedTask) (u : QueuedTask)
      → length (keep c (sort_queue (ts ++ u ∷ []))) ≡ length (keep c ts) + length (keep c (u ∷ []))
  unfolding sort_queue
  count-sort_queue ts u = length-keep-sort may_precede c (ts ++ u ∷ []) ∙ count-append ts (u ∷ [])

module _ (to_lower_case sha256_hex : Text → Text) where
  -- A test that no new status but `pending` makes a task pass.
  module _ (c : QueuedTask → Bool)
      (kept : (t : QueuedTask) (status : QueueTaskStatus)
        → status_is status QueueTaskStatus.pending ≡ false
        → c (with_status status t) ≡ true
        → c t ≡ true) where
    kept_timeout :
        (now : ℕ) (t : QueuedTask)
        → (is_overdue now t ≡ true) ⊎ (is_overdue now t ≡ false)
        → c (time_out now t) ≡ true
        → c t ≡ true
    unfolding status_is status_order
    kept_timeout now t (inl e) h = kept t QueueTaskStatus.timed_out refl (rw e at h)
    kept_timeout now t (inr e) h = rw e at h

    abbrev pub count : PriorityTaskQueue → ℕ
    count q = length (keep c q.queue)

    count-set_status :
        (p : QueuedTask → Bool) (status : QueueTaskStatus) (q : PriorityTaskQueue)
        → status_is status QueueTaskStatus.pending ≡ false
        → count (set_status p status q).1 ≤ count q
    unfolding set_status
    count-set_status p status q leaves = elim (Option-cases (find? p q.queue)) [
      | inl e ↦ rw (set_status, e) (omega arith)
      | inr (t, e) ↦
          rw (set_status, e)
            (count-update_first c p (with_status status) (λ u. kept u status leaves) q.queue)
    ]

    -- No call but an accepted `enqueue` or a restore makes more tasks pass the test.
    pub count-perform :
        (call : Call) (q : PriorityTaskQueue)
        → shrinks call ≡ true
        → count (perform to_lower_case sha256_hex call q) ≤ count q
    unfolding perform dequeue peek complete fail cancel enforce_timeouts purge_completed clear
        status_is status_order
    count-perform (Call.enqueues request) q h = cc
    count-perform (Call.restores snapshot) q h = cc
    count-perform Call.dequeues q h = elim (Option-cases (peek q)) [
      | inl e ↦ rw (perform, dequeue, e) (omega arith)
      | inr (t, e) ↦
          rw (perform, dequeue, e)
            (count-update_first c is_pending (with_status QueueTaskStatus.running)
              (λ u. kept u QueueTaskStatus.running refl) q.queue)
    ]
    count-perform (Call.completes task_id) q h = count-set_status _ QueueTaskStatus.completed q refl
    count-perform (Call.fails task_id) q h = count-set_status _ QueueTaskStatus.failed q refl
    count-perform (Call.cancels task_id) q h = count-set_status _ QueueTaskStatus.cancelled q refl
    count-perform (Call.enforces now) q h =
        count-map c (time_out now) (λ u e. kept_timeout now u (Bool-cases (is_overdue now u)) e)
          q.queue
    count-perform Call.purges q h = count-keep c is_live q.queue
    count-perform Call.clears q h = omega arith
