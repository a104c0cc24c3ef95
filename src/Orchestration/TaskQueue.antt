-- ===== src/Orchestration/TaskQueue.antt =====
-- cli/src/orchestration/PriorityTaskQueue.ts. A call returns what the method returns, and the queue that
-- it leaves; a moment is a number of milliseconds. The log messages and the event bus are left out.
pub mod Hash
pub mod Calls
pub mod Order
pub mod Dequeue
pub mod Counts
pub mod Kept
pub mod Bound
pub mod Dedup
pub mod Restore
use ouroboros_runtime.Base.{
  ℕ, ◌+◌, ◌-◌, ◌*◌, Bool, true, false, not, ◌&&◌, ◌||◌, Option, none, some, List, [], ◌∷◌, ◌++◌,
  map, find?, keep, length, ltb, leb, nat_beq, contains, ◌==◌, if◌then◌else◌,
}
use ouroboros_runtime.Base.Text.{Text, text_eq}
use ouroboros_runtime.Base.Sort.{sort}
use ouroboros_runtime.Orchestration.TaskQueue.Hash.{compute_hash}

pub data QueueTaskStatus : Type 0 where
  pending : QueueTaskStatus
  running : QueueTaskStatus
  completed : QueueTaskStatus
  failed : QueueTaskStatus
  cancelled : QueueTaskStatus
  timed_out : QueueTaskStatus

pub data TaskCategory : Type 0 where
  user : TaskCategory
  evolution : TaskCategory
  review : TaskCategory
  consciousness : TaskCategory
  system : TaskCategory

-- The metadata is an opaque text.
pub record QueuedTask : Type 0 where
  pub id : Text
  pub instruction : Text
  pub priority : ℕ
  pub category : TaskCategory
  pub hash : Text
  pub enqueued_at : ℕ
  pub soft_timeout_ms : ℕ
  pub hard_timeout_ms : ℕ
  pub status : QueueTaskStatus
  pub metadata : Option Text
  pub parent_id : Option Text

pub record QueueConfig : Type 0 where
  pub max_size : ℕ
  pub enable_dedup : Bool
  pub default_soft_timeout_ms : ℕ
  pub default_hard_timeout_ms : ℕ

abbrev pub default_queue_config : QueueConfig
default_queue_config = record {
  max_size = 100;
  enable_dedup = true;
  default_soft_timeout_ms = 5 * 60 * 1000;
  default_hard_timeout_ms = 15 * 60 * 1000;
}

pub record QueueSnapshot : Type 0 where
  pub tasks : List QueuedTask
  pub timestamp : ℕ
  pub version : ℕ

pub record PriorityTaskQueue : Type 0 where
  pub queue : List QueuedTask
  pub config : QueueConfig
  pub known_hashes : List Text

-- The options of `enqueue`, with the id and the moment that the call draws for its task.
pub record EnqueueRequest : Type 0 where
  pub instruction : Text
  pub priority : ℕ
  pub category : TaskCategory
  pub soft_timeout_ms : Option ℕ
  pub hard_timeout_ms : Option ℕ
  pub metadata : Option Text
  pub parent_id : Option Text
  pub id : Text
  pub now : ℕ

unfoldable pub status_order : QueueTaskStatus → ℕ
status_order QueueTaskStatus.pending = 0
status_order QueueTaskStatus.running = 1
status_order QueueTaskStatus.completed = 2
status_order QueueTaskStatus.failed = 3
status_order QueueTaskStatus.cancelled = 4
status_order QueueTaskStatus.timed_out = 5

unfoldable pub status_is : QueueTaskStatus → QueueTaskStatus → Bool
unfolding status_order
status_is s t = nat_beq (status_order s) (status_order t)

abbrev pub is_pending : QueuedTask → Bool
is_pending t = status_is t.status QueueTaskStatus.pending

abbrev pub is_running : QueuedTask → Bool
is_running t = status_is t.status QueueTaskStatus.running

-- Does the comparison of sortQueue give at most zero?
unfoldable pub may_precede : QueuedTask → QueuedTask → Bool
unfolding status_order
may_precede a b =
    ltb (status_order a.status) (status_order b.status)
    || (nat_beq (status_order a.status) (status_order b.status)
        && (ltb b.priority a.priority
            || (nat_beq a.priority b.priority && leb a.enqueued_at b.enqueued_at)))

unfoldable pub sort_queue : List QueuedTask → List QueuedTask
sort_queue = sort may_precede

-- A change of the first task that passes a test; none when no task does.
unfoldable pub update_first :
    (QueuedTask → Bool) → (QueuedTask → QueuedTask) → List QueuedTask → List QueuedTask
update_first p f [] = []
update_first p f (t ∷ ts) = let rest = t ∷ update_first p f ts in if p t then f t ∷ ts else rest

abbrev pub with_status : QueueTaskStatus → QueuedTask → QueuedTask
with_status status t = record t { status = status }

unfoldable pub clamp_priority : ℕ → ℕ
clamp_priority priority =
    let raised = if leb 1 priority then priority else 1 in if leb raised 10 then raised else 10

abbrev pub or_else : Option ℕ → ℕ → ℕ
or_else none n = n
or_else (some m) n = m

unfoldable pub queued_task : (hash : Text) → QueueConfig → EnqueueRequest → QueuedTask
unfolding clamp_priority
queued_task hash config request = record {
  id = request.id;
  instruction = request.instruction;
  priority = clamp_priority request.priority;
  category = request.category;
  hash = hash;
  enqueued_at = request.now;
  soft_timeout_ms = or_else request.soft_timeout_ms config.default_soft_timeout_ms;
  hard_timeout_ms = or_else request.hard_timeout_ms config.default_hard_timeout_ms;
  status = QueueTaskStatus.pending;
  metadata = request.metadata;
  parent_id = request.parent_id;
}

abbrev pub pending_tasks : PriorityTaskQueue → List QueuedTask
pending_tasks q = keep is_pending q.queue

unfoldable pub is_full : PriorityTaskQueue → Bool
is_full q = leb q.config.max_size (length (pending_tasks q))

-- `String.prototype.toLowerCase`, and the hexadecimal SHA-256 of node's crypto.
module _ (to_lower_case sha256_hex : Text → Text) where
  unfoldable pub enqueue :
      EnqueueRequest → PriorityTaskQueue → Option QueuedTask × PriorityTaskQueue
  unfolding queued_task sort_queue is_full compute_hash
  enqueue request q =
      let hash = compute_hash to_lower_case sha256_hex request.instruction in
      let task = queued_task hash q.config request in
      if is_full q
      then (none, q)
      else if q.config.enable_dedup && contains hash q.known_hashes
      then (none, q)
      else (
        some task,
        record q {
          queue = sort_queue (q.queue ++ task ∷ []);
          known_hashes = hash ∷ q.known_hashes;
        },
      )

unfoldable pub peek : PriorityTaskQueue → Option QueuedTask
peek q = find? is_pending q.queue

unfoldable pub dequeue : PriorityTaskQueue → Option QueuedTask × PriorityTaskQueue
unfolding peek update_first
dequeue q = elim (peek q) [
  | none ↦ (none, q)
  | some t ↦ (
    some (with_status QueueTaskStatus.running t),
    record q { queue = update_first is_pending (with_status QueueTaskStatus.running) q.queue },
  )
]

abbrev pub has_id : Text → QueuedTask → Bool
has_id task_id t = t.id == task_id

unfoldable pub get_task : Text → PriorityTaskQueue → Option QueuedTask
get_task task_id q = find? (has_id task_id) q.queue

-- The first task that passes the test gets the status, and the call tells whether there was one.
unfoldable pub set_status :
    (QueuedTask → Bool) → QueueTaskStatus → PriorityTaskQueue → Bool × PriorityTaskQueue
unfolding update_first
set_status p status q = elim (find? p q.queue) [
  | none ↦ (false, q)
  | some t ↦ (true, record q { queue = update_first p (with_status status) q.queue })
]

unfoldable pub complete : Text → PriorityTaskQueue → Bool × PriorityTaskQueue
unfolding set_status
complete task_id q = set_status (has_id task_id) QueueTaskStatus.completed q

unfoldable pub fail : Text → PriorityTaskQueue → Bool × PriorityTaskQueue
unfolding set_status
fail task_id q = set_status (has_id task_id) QueueTaskStatus.failed q

unfoldable pub cancel : Text → PriorityTaskQueue → Bool × PriorityTaskQueue
unfolding set_status
cancel task_id q = set_status (λ t. has_id task_id t && is_pending t) QueueTaskStatus.cancelled q

-- A task that ran past its hard timeout.
abbrev pub is_overdue : (now : ℕ) → QueuedTask → Bool
is_overdue now t = is_running t && leb (t.enqueued_at + t.hard_timeout_ms) now

abbrev pub time_out : (now : ℕ) → QueuedTask → QueuedTask
time_out now t = if is_overdue now t then with_status QueueTaskStatus.timed_out t else t

unfoldable pub enforce_timeouts :
    (now : ℕ) → PriorityTaskQueue → List QueuedTask × PriorityTaskQueue
enforce_timeouts now q = (
  map (with_status QueueTaskStatus.timed_out) (keep (is_overdue now) q.queue),
  record q { queue = map (time_out now) q.queue },
)

unfoldable pub get_by_category : (TaskCategory → Bool) → PriorityTaskQueue → List QueuedTask
get_by_category is_wanted q = keep (λ t. is_wanted t.category && is_pending t) q.queue

unfoldable pub create_snapshot : (now : ℕ) → PriorityTaskQueue → QueueSnapshot
create_snapshot now q = record { tasks = q.queue; timestamp = now; version = 1 }

unfoldable pub restore_from_snapshot : QueueSnapshot → PriorityTaskQueue → ℕ × PriorityTaskQueue
unfolding sort_queue
restore_from_snapshot snapshot q = (
  length (sort_queue snapshot.tasks),
  record q {
    queue = sort_queue snapshot.tasks;
    known_hashes = map (λ (t : QueuedTask). t.hash) snapshot.tasks;
  },
)

abbrev pub is_live : QueuedTask → Bool
is_live t = is_pending t || is_running t

unfoldable pub purge_completed : PriorityTaskQueue → ℕ × PriorityTaskQueue
purge_completed q =
    let left = keep is_live q.queue in (length q.queue - length left, record q { queue = left })

unfoldable pub clear : PriorityTaskQueue → PriorityTaskQueue
clear q = record q { queue = []; known_hashes = [] }
