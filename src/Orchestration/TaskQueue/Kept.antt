-- ===== src/Orchestration/TaskQueue/Kept.antt =====
-- What each call of cli/src/orchestration/PriorityTaskQueue.ts leaves as it is.
use ouroboros_runtime.Base.{◌≡◌, refl, ◌∙◌, ◌⊎◌, inl, inr, Bool, true, false, List, [], ◌∷◌, arith}
use ouroboros_runtime.Base.Text.{Text, text_eq}
use ouroboros_runtime.Orchestration.TaskQueue.{
  PriorityTaskQueue, QueuedTask, QueueTaskStatus, EnqueueRequest, dequeue, complete, fail, cancel,
  set_status, enforce_timeouts, restore_from_snapshot, purge_completed, clear,
}
use ouroboros_runtime.Orchestration.TaskQueue.Calls.{Call, perform, perform_all, enqueue-cases}
use ouroboros_runtime.Orchestration.TaskQueue.Counts.{shrinks}

abbrev pub restores_nothing : Call → Bool
restores_nothing (Call.restores snapshot) = false
restores_nothing call = true

abbrev pub forgets_nothing : Call → Bool
forgets_nothing Call.clears = false
forgets_nothing (Call.restores snapshot) = false
forgets_nothing call = true

pub Call-cases :
    (call : Call)
    → restores_nothing call ≡ true
    → ((request : EnqueueRequest) × (call ≡ Call.enqueues request))
      ⊎ ((shrinks call ≡ true) × ((call ≡ Call.clears) ⊎ (forgets_nothing call ≡ true)))
Call-cases (Call.enqueues request) h = inl (request, refl)
Call-cases (Call.restores snapshot) h = cc
Call-cases Call.dequeues h = inr (refl, inr refl)
Call-cases (Call.completes task_id) h = inr (refl, inr refl)
Call-cases (Call.fails task_id) h = inr (refl, inr refl)
Call-cases (Call.cancels task_id) h = inr (refl, inr refl)
Call-cases (Call.enforces now) h = inr (refl, inr refl)
Call-cases Call.purges h = inr (refl, inr refl)
Call-cases Call.clears h = inr (refl, inl refl)

set_status-kept :
    (p : QueuedTask → Bool) (status : QueueTaskStatus) (q : PriorityTaskQueue)
    → ((set_status p status q).1.config ≡ q.config)
      × ((set_status p status q).1.known_hashes ≡ q.known_hashes)
unfolding set_status
set_status-kept p status q = ground arith

dequeue-kept :
    (q : PriorityTaskQueue)
    → ((dequeue q).1.config ≡ q.config) × ((dequeue q).1.known_hashes ≡ q.known_hashes)
unfolding dequeue
dequeue-kept q = ground arith

module _ (to_lower_case sha256_hex : Text → Text) where
  pub config-perform :
      (call : Call) (q : PriorityTaskQueue)
      → (perform to_lower_case sha256_hex call q).config ≡ q.config
  unfolding perform complete fail cancel enforce_timeouts purge_completed clear
      restore_from_snapshot
  config-perform (Call.enqueues request) q =
      elim (enqueue-cases to_lower_case sha256_hex request q) [
        | inl e ↦ rw (perform, e) refl
        | inr (_, _, e) ↦ rw (perform, e) refl
      ]
  config-perform Call.dequeues q = (dequeue-kept q).0
  config-perform (Call.completes task_id) q = (set_status-kept _ QueueTaskStatus.completed q).0
  config-perform (Call.fails task_id) q = (set_status-kept _ QueueTaskStatus.failed q).0
  config-perform (Call.cancels task_id) q = (set_status-kept _ QueueTaskStatus.cancelled q).0
  config-perform call q = refl

  pub known-perform :
      (call : Call) (q : PriorityTaskQueue)
      → forgets_nothing call ≡ true
      → shrinks call ≡ true
      → (perform to_lower_case sha256_hex call q).known_hashes ≡ q.known_hashes
  unfolding perform complete fail cancel enforce_timeouts purge_completed
  known-perform (Call.enqueues request) q h k = cc
  known-perform Call.dequeues q h k = (dequeue-kept q).1
  known-perform (Call.completes task_id) q h k = (set_status-kept _ QueueTaskStatus.completed q).1
  known-perform (Call.fails task_id) q h k = (set_status-kept _ QueueTaskStatus.failed q).1
  known-perform (Call.cancels task_id) q h k = (set_status-kept _ QueueTaskStatus.cancelled q).1
  known-perform (Call.restores snapshot) q h k = cc
  known-perform Call.clears q h k = cc
  known-perform call q h k = refl

  pub config-perform_all :
      (calls : List Call) (q : PriorityTaskQueue)
      → (perform_all to_lower_case sha256_hex calls q).config ≡ q.config
  unfolding perform_all
  config-perform_all [] q = refl
  config-perform_all (call ∷ calls) q =
      config-perform_all calls (perform to_lower_case sha256_hex call q) ∙ config-perform call q
