-- ===== src/Orchestration/TaskQueue/Calls.antt =====
-- The queue of cli/src/orchestration/PriorityTaskQueue.ts in time: the queue that any sequence of its
-- calls leaves.
use ouroboros_runtime.Base.{
  ℕ, ◌≡◌, refl, ◌⊎◌, inl, inr, ◌&&◌, false, Bool-cases, none, some, List, [], ◌∷◌, ◌++◌, contains,
}
use ouroboros_runtime.Base.Text.{Text, text_eq}
use ouroboros_runtime.Orchestration.TaskQueue.{
  PriorityTaskQueue, QueueConfig, QueueSnapshot, EnqueueRequest, enqueue, dequeue, complete, fail,
  cancel, enforce_timeouts, queued_task, is_full, sort_queue, restore_from_snapshot,
  purge_completed, clear,
}
use ouroboros_runtime.Orchestration.TaskQueue.Hash.{compute_hash}

pub data Call : Type 0 where
  enqueues : EnqueueRequest → Call
  dequeues : Call
  completes : (task_id : Text) → Call
  fails : (task_id : Text) → Call
  cancels : (task_id : Text) → Call
  enforces : (now : ℕ) → Call
  restores : QueueSnapshot → Call
  purges : Call
  clears : Call

abbrev pub create : QueueConfig → PriorityTaskQueue
create config = record { queue = []; config = config; known_hashes = [] }

module _ (to_lower_case sha256_hex : Text → Text) where
  unfoldable pub perform : Call → PriorityTaskQueue → PriorityTaskQueue
  perform (Call.enqueues request) q = (enqueue to_lower_case sha256_hex request q).1
  perform Call.dequeues q = (dequeue q).1
  perform (Call.completes task_id) q = (complete task_id q).1
  perform (Call.fails task_id) q = (fail task_id q).1
  perform (Call.cancels task_id) q = (cancel task_id q).1
  perform (Call.enforces now) q = (enforce_timeouts now q).1
  perform (Call.restores snapshot) q = (restore_from_snapshot snapshot q).1
  perform Call.purges q = (purge_completed q).1
  perform Call.clears q = clear q

  unfoldable pub perform_all : List Call → PriorityTaskQueue → PriorityTaskQueue
  unfolding perform
  perform_all [] q = q
  perform_all (call ∷ calls) q = perform_all calls (perform call q)

  -- What a call of `enqueue` leaves: the queue it found, or one with the new task in its place.
  pub enqueue-cases :
      (request : EnqueueRequest) (q : PriorityTaskQueue)
      → let hash = compute_hash to_lower_case sha256_hex request.instruction in
        let task = queued_task hash q.config request in
        (enqueue to_lower_case sha256_hex request q ≡ (none, q))
        ⊎ ((is_full q ≡ false)
            × ((q.config.enable_dedup && contains hash q.known_hashes) ≡ false)
            × (enqueue to_lower_case sha256_hex request q ≡ (
              some task,
              record q {
                queue = sort_queue (q.queue ++ task ∷ []);
                known_hashes = hash ∷ q.known_hashes;
              },
            )))
  unfolding enqueue
  enqueue-cases request q = elim (Bool-cases (is_full q)) [
    | inl full ↦ inl (rw full refl)
    | inr room ↦
        elim (Bool-cases (
          q.config.enable_dedup
          && contains (compute_hash to_lower_case sha256_hex request.instruction) q.known_hashes)) [
            | inl known ↦ inl (rw (room, known) refl)
            | inr fresh ↦ inr (room, fresh, rw (room, fresh) refl)
          ]
  ]
