-- ===== src/Orchestration/Semaphore.antt =====
-- cli/src/utils/Semaphore.ts. A caller that waits is an identity in the queue, in place of the closure
-- that counts it in and resolves its promise. The sizes are whole numbers.
pub mod Laws
use ouroboros_runtime.Base.{
  ℕ, suc, ◌-◌, ◌+◌, Bool, true, false, Option, none, some, List, [], ◌∷◌, ◌++◌, length, ltb, leb,
  if◌then◌else◌, Result, ok, err, ◌>>=◌, ◌>>◌, reject_if,
}

pub data SemaphoreError : Type 0 where
  max_concurrency_not_positive : SemaphoreError
  queue_full : SemaphoreError
  no_active_tasks : SemaphoreError

-- No `max_queue_size` stands for Infinity.
pub record Semaphore : Type 0 where
  pub max_concurrency : ℕ
  pub max_queue_size : Option ℕ
  pub active_count : ℕ
  pub queue : List ℕ

unfoldable pub create :
    (max_concurrency : ℕ) (max_queue_size : Option ℕ) → Result SemaphoreError Semaphore
create max_concurrency max_queue_size =
    reject_if (leb max_concurrency 0) SemaphoreError.max_concurrency_not_positive
    >> ok (record {
      max_concurrency = max_concurrency;
      max_queue_size = max_queue_size;
      active_count = 0;
      queue = [];
    })

-- What an `acquire` that does not throw did: it resolved at once, or its caller waits.
pub data Admission : Type 0 where
  granted : Admission
  queued : Admission

unfoldable pub is_full : Semaphore → Bool
is_full s = elim s.max_queue_size [ none ↦ false | some limit ↦ leb limit (length s.queue) ]

unfoldable pub acquire : ℕ → Semaphore → Result SemaphoreError (Admission × Semaphore)
acquire caller s =
    if ltb s.active_count s.max_concurrency
    then ok (Admission.granted, record s { active_count = s.active_count + 1 })
    else reject_if (is_full s) SemaphoreError.queue_full
      >> ok (Admission.queued, record s { queue = s.queue ++ caller ∷ [] })

-- Who is resolved by `queue.shift()`, and what the call leaves.
unfoldable pub hand_on : Semaphore → Option ℕ × Semaphore
hand_on s = elim s.queue [
  | [] ↦ (none, s)
  | next ∷ rest ↦ (some next, record s { active_count = s.active_count + 1; queue = rest })
]

unfoldable pub release : Semaphore → Result SemaphoreError (Option ℕ × Semaphore)
release s =
    reject_if (leb s.active_count 0) SemaphoreError.no_active_tasks
    >> ok (hand_on (record s { active_count = s.active_count - 1 }))
