-- ===== src/Orchestration/Tests.antt =====
-- The theorems on the semaphore and the task queue at small inputs.
use mathlib.Core.List.{Perm}
use ouroboros_runtime.Base.{
  ℕ, ◌≤◌, ◌≡◌, refl, none, some, List, [], ◌∷◌, keep, length, In, ◌==◌, contains, arith,
}
use ouroboros_runtime.Base.Text.{Text, text_eq, text_beq, trim, trim_start, is_white}
use ouroboros_runtime.Base.Sort.{sort, insert}
use ouroboros_runtime.Orchestration.Semaphore
use ouroboros_runtime.Orchestration.Semaphore.{Semaphore, acquire, release, hand_on, is_full}
use ouroboros_runtime.Orchestration.Semaphore.Laws
use ouroboros_runtime.Orchestration.Semaphore.Laws.{
  IsFair, serve, serve_all, fresh, fresh-IsFair, serve_all-In,
}
use ouroboros_runtime.Orchestration.TaskQueue.{
  EnqueueRequest, TaskCategory, PriorityTaskQueue, QueuedTask, default_queue_config, enqueue,
  dequeue, peek, pending_tasks, queued_task, clamp_priority, sort_queue,
}
use ouroboros_runtime.Orchestration.TaskQueue.Hash.{
  compute_hash, normalize, collapse_white, first_units,
}
use ouroboros_runtime.Orchestration.TaskQueue.Calls.{Call, create, perform, perform_all}
use ouroboros_runtime.Orchestration.TaskQueue.Dequeue.{Dequeues, perform_all-Dequeues}
use ouroboros_runtime.Orchestration.TaskQueue.Bound.{perform_all-IsBounded}
use ouroboros_runtime.Orchestration.TaskQueue.Dedup.{perform_all-hash, enqueue-again}
use ouroboros_runtime.Orchestration.TaskQueue.Restore.{reload, reload-pending_tasks}

abbrev one_slot : Semaphore
one_slot = record { max_concurrency = 1; max_queue_size = some 2; active_count = 0; queue = [] }

abbrev crowd : List Laws.Call
crowd =
    Laws.Call.acquires 7
    ∷ Laws.Call.acquires 8
    ∷ Laws.Call.acquires 9
    ∷ Laws.Call.acquires 10
    ∷ Laws.Call.releases
    ∷ []

fresh-IsFair_example : IsFair (serve_all (fresh one_slot) crowd)
unfolding Semaphore.create
fresh-IsFair_example = fresh-IsFair 1 (some 2) crowd refl

abbrev busy : Laws.Trace
busy = record {
  semaphore = record {
    max_concurrency = 1;
    max_queue_size = some 2;
    active_count = 1;
    queue = 8 ∷ 9 ∷ [];
  };
  admitted = 7 ∷ 8 ∷ 9 ∷ [];
  let_run = 7 ∷ [];
  released = 0;
}

abbrev two_releases : List Laws.Call
two_releases = Laws.Call.releases ∷ Laws.Call.acquires 10 ∷ Laws.Call.releases ∷ []

busy-IsFair : IsFair busy
unfolding Semaphore.create acquire release hand_on is_full serve serve_all
busy-IsFair =
    fresh-IsFair 1 (some 2)
      (Laws.Call.acquires 7 ∷ Laws.Call.acquires 8 ∷ Laws.Call.acquires 9 ∷ []) refl

serve_all-In_example : In 9 (serve_all busy two_releases).let_run
serve_all-In_example = serve_all-In busy two_releases (8 ∷ []) 9 [] busy-IsFair refl (omega arith)

abbrev same_text : Text → Text
same_text t = t

abbrev request : (code priority now : ℕ) → EnqueueRequest
request code priority now = record {
  instruction = code ∷ [];
  priority = priority;
  category = TaskCategory.user;
  soft_timeout_ms = none;
  hard_timeout_ms = none;
  metadata = none;
  parent_id = none;
  id = code ∷ [];
  now = now;
}

-- The second instruction comes twice, and the task of the first is cancelled.
abbrev some_calls : List Call
some_calls =
    Call.enqueues (request 97 3 10)
    ∷ Call.enqueues (request 98 12 20)
    ∷ Call.enqueues (request 98 5 30)
    ∷ Call.enqueues (request 99 12 15)
    ∷ Call.cancels (97 ∷ [])
    ∷ []

abbrev queue : PriorityTaskQueue
queue = perform_all same_text same_text some_calls (create default_queue_config)

perform_all-Dequeues_example : Dequeues queue (dequeue queue)
perform_all-Dequeues_example =
    perform_all-Dequeues same_text same_text default_queue_config some_calls

perform_all-IsBounded_example : length (pending_tasks queue) ≤ 100
perform_all-IsBounded_example =
    perform_all-IsBounded same_text same_text default_queue_config some_calls refl

perform_all-hash_example : length (keep (λ (t : QueuedTask). t.hash == 98 ∷ []) queue.queue) ≤ 1
perform_all-hash_example =
    perform_all-hash same_text same_text default_queue_config some_calls (98 ∷ []) refl refl

reload-pending_tasks_example :
    Perm (reload 50 queue queue).queue queue.queue
    × (pending_tasks (reload 50 queue queue) ≡ pending_tasks queue)
    × (peek (reload 50 queue queue) ≡ peek queue)
reload-pending_tasks_example =
    reload-pending_tasks same_text same_text default_queue_config some_calls 50 queue

abbrev one_task : PriorityTaskQueue
one_task =
    perform_all same_text same_text (Call.enqueues (request 97 3 10) ∷ [])
      (create default_queue_config)

abbrev run_and_purge : List Call
run_and_purge = Call.dequeues ∷ Call.completes (97 ∷ []) ∷ Call.purges ∷ []

enqueue-again_example :
    enqueue same_text same_text
      (request 97 3 40)
      (perform_all same_text same_text run_and_purge one_task)
    ≡ (none, perform_all same_text same_text run_and_purge one_task)
unfolding enqueue perform perform_all compute_hash normalize collapse_white first_units trim
    trim_start is_white contains queued_task clamp_priority sort_queue sort insert text_beq
enqueue-again_example =
    enqueue-again same_text same_text (request 97 3 10) (request 97 3 40) run_and_purge
      (create default_queue_config) {next = one_task}
      {t = queued_task (97 ∷ []) default_queue_config (request 97 3 10)} refl refl refl refl
