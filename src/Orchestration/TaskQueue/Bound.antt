-- ===== src/Orchestration/TaskQueue/Bound.antt =====
-- How many tasks are pending in the queue of cli/src/orchestration/PriorityTaskQueue.ts.
use ouroboros_runtime.Base.{◌≤◌, ◌≡◌, ap, inl, inr, true, List, [], ◌∷◌, length, all, arith}
use ouroboros_runtime.Base.Text.{Text, text_eq}
use ouroboros_runtime.Orchestration.TaskQueue.{
  PriorityTaskQueue, QueueConfig, EnqueueRequest, is_pending, is_full, queued_task, pending_tasks,
}
use ouroboros_runtime.Orchestration.TaskQueue.Calls.{
  Call, create, perform, perform_all, enqueue-cases,
}
use ouroboros_runtime.Orchestration.TaskQueue.Hash.{compute_hash}
use ouroboros_runtime.Orchestration.TaskQueue.Counts.{count-perform, count-sort_queue}
use ouroboros_runtime.Orchestration.TaskQueue.Kept.{
  restores_nothing, Call-cases, config-perform, config-perform_all,
}

module _ (to_lower_case sha256_hex : Text → Text) where
  abbrev hash_of : EnqueueRequest → Text
  hash_of request = compute_hash to_lower_case sha256_hex request.instruction

  abbrev IsBounded : PriorityTaskQueue → Type 0
  IsBounded q = length (pending_tasks q) ≤ q.config.max_size

  enqueue-IsBounded :
      (request : EnqueueRequest) (q : PriorityTaskQueue)
      → IsBounded q
      → IsBounded (perform to_lower_case sha256_hex (Call.enqueues request) q)
  unfolding is_full perform
  enqueue-IsBounded request q b = elim (enqueue-cases to_lower_case sha256_hex request q) [
    | inl same ↦ rw (perform, same) b
    | inr (room, _, next) ↦
        let task = queued_task (hash_of request) q.config request in
        rw (perform, next) (ground (arith, count-sort_queue is_pending q.queue task))
  ]

  perform-IsBounded :
      (call : Call) (q : PriorityTaskQueue)
      → restores_nothing call ≡ true
      → IsBounded q
      → IsBounded (perform to_lower_case sha256_hex call q)
  perform-IsBounded call q r b = elim (Call-cases call r) [
    | inl (request, e) ↦ rw e (enqueue-IsBounded request q b)
    | inr (e, _) ↦ omega (
      arith,
      count-perform to_lower_case sha256_hex is_pending (λ t status leaves now. cc (leaves, now))
          call q e,
      ap (λ (c : QueueConfig). c.max_size) (config-perform to_lower_case sha256_hex call q),
    )
  ]

  -- However many tasks are enqueued, at most `max_size` of them are pending, unless a snapshot is
  -- restored, which no bound is asked of.
  pub perform_all-IsBounded :
      (config : QueueConfig) (calls : List Call)
      → all restores_nothing calls ≡ true
      → length (pending_tasks (perform_all to_lower_case sha256_hex calls (create config)))
        ≤ config.max_size
  unfolding perform_all
  perform_all-IsBounded config calls r = omega (
    arith,
    kept calls (create config) r (omega arith),
    ap (λ (c : QueueConfig). c.max_size)
        (config-perform_all to_lower_case sha256_hex calls (create config)),
  )
    where
      kept :
          (later : List Call) (q : PriorityTaskQueue)
          → all restores_nothing later ≡ true
          → IsBounded q
          → IsBounded (perform_all to_lower_case sha256_hex later q)
      kept [] q s b = b
      kept (call ∷ later) q s b =
          kept later (perform to_lower_case sha256_hex call q) (ground arith)
            (perform-IsBounded call q (ground arith) b)
