-- ===== src/Orchestration/TaskQueue/Order.antt =====
-- The order in which cli/src/orchestration/PriorityTaskQueue.ts hands out its tasks.
use ouroboros_runtime.Base.{
  ℕ, ◌≡◌, refl, inl, inr, Bool, true, false, List, [], ◌∷◌, ◌++◌, map, keep, find?, Option-cases,
  All, Bool-cases, arith,
}
use ouroboros_runtime.Base.Text.{Text}
use ouroboros_runtime.Base.Sort.{sort, IsSorted, sort-IsSorted}
use ouroboros_runtime.Base.Sort.Keep.{keep-IsSorted}
use ouroboros_runtime.Orchestration.TaskQueue.{
  PriorityTaskQueue, QueuedTask, QueueTaskStatus, status_order, status_is, is_pending, is_live,
  time_out, with_status, may_precede, sort_queue, update_first, queued_task, dequeue, peek,
  complete, fail, cancel, set_status, enforce_timeouts, restore_from_snapshot, purge_completed,
  clear,
}
use ouroboros_runtime.Orchestration.TaskQueue.Calls.{Call, perform, perform_all, enqueue-cases}
use ouroboros_runtime.Orchestration.TaskQueue.Hash.{compute_hash}

pub may_precede_total : (a b : QueuedTask) → may_precede a b ≡ false → may_precede b a ≡ true
unfolding may_precede
may_precede_total a b h = ground arith

pub may_precede_trans :
    (a b c : QueuedTask) → may_precede a b ≡ true → may_precede b c ≡ true → may_precede a c ≡ true
unfolding may_precede
may_precede_trans a b c h k = ground arith

-- The pending tasks stand in the order in which they are to run.
abbrev pub IsOrdered : List QueuedTask → Type 0
IsOrdered ts = IsSorted may_precede (keep is_pending ts)

pub sort_queue-IsOrdered : (ts : List QueuedTask) → IsOrdered (sort_queue ts)
unfolding sort_queue
sort_queue-IsOrdered ts =
    keep-IsSorted may_precede is_pending (sort may_precede ts)
      (sort-IsSorted may_precede may_precede_total may_precede_trans ts)

All-later :
    (P : QueuedTask → Type 0) (t : QueuedTask) (ts : List QueuedTask)
    → All P (keep is_pending (t ∷ ts))
    → All P (keep is_pending ts)
All-later P t ts h = elim (Bool-cases (is_pending t)) [
  | inl e ↦ let both : All P (t ∷ keep is_pending ts) = rw e at h in both.1
  | inr e ↦ rw e at h
]

IsOrdered-later : (t : QueuedTask) (ts : List QueuedTask) → IsOrdered (t ∷ ts) → IsOrdered ts
IsOrdered-later t ts h = elim (Bool-cases (is_pending t)) [
  | inl e ↦ let both : IsSorted may_precede (t ∷ keep is_pending ts) = rw e at h in both.1
  | inr e ↦ rw e at h
]

-- A status that is not pending only takes tasks out of the order.
module _ (p : QueuedTask → Bool) (f : QueuedTask → QueuedTask)
    (leaves : (t : QueuedTask) → is_pending (f t) ≡ false) where
  All-update_first :
      (P : QueuedTask → Type 0) (ts : List QueuedTask)
      → All P (keep is_pending ts)
      → All P (keep is_pending (update_first p f ts))
  unfolding update_first
  All-update_first P [] h = tt
  All-update_first P (t ∷ ts) h = elim (Bool-cases (p t)) [
    | inl e ↦ rw (e, leaves t) (All-later P t ts h)
    | inr e ↦ elim (Bool-cases (is_pending t)) [
      | inl w ↦
          let both : All P (t ∷ keep is_pending ts) = rw w at h in
          rw (e, w) (both.0, All-update_first P ts both.1)
      | inr w ↦ rw (e, w) (All-update_first P ts (All-later P t ts h))
    ]
  ]

  update_first-IsOrdered : (ts : List QueuedTask) → IsOrdered ts → IsOrdered (update_first p f ts)
  unfolding update_first
  update_first-IsOrdered [] h = tt
  update_first-IsOrdered (t ∷ ts) h = elim (Bool-cases (p t)) [
    | inl e ↦ rw (e, leaves t) (IsOrdered-later t ts h)
    | inr e ↦ elim (Bool-cases (is_pending t)) [
      | inl w ↦
          let both : IsSorted may_precede (t ∷ keep is_pending ts) = rw w at h in
          rw (e, w)
            (
              All-update_first (λ u. may_precede t u ≡ true) ts both.0,
              update_first-IsOrdered ts both.1,
            )
      | inr w ↦ rw (e, w) (update_first-IsOrdered ts (IsOrdered-later t ts h))
    ]
  ]

pending-time_out :
    (now : ℕ) (ts : List QueuedTask) → keep is_pending (map (time_out now) ts) ≡ keep is_pending ts
unfolding status_is status_order
pending-time_out now [] = refl
pending-time_out now (t ∷ ts) = ground (arith, pending-time_out now ts)

pending-live : (ts : List QueuedTask) → keep is_pending (keep is_live ts) ≡ keep is_pending ts
pending-live [] = refl
pending-live (t ∷ ts) = ground (arith, pending-live ts)

set_status-IsOrdered :
    (p : QueuedTask → Bool) (status : QueueTaskStatus) (q : PriorityTaskQueue)
    → status_is status QueueTaskStatus.pending ≡ false
    → IsOrdered q.queue
    → IsOrdered (set_status p status q).1.queue
unfolding set_status
set_status-IsOrdered p status q leaves h = elim (Option-cases (find? p q.queue)) [
  | inl e ↦ rw (e, set_status) h
  | inr (t, e) ↦
      rw (e, set_status) (update_first-IsOrdered p (with_status status) (λ u. leaves) q.queue h)
]

module _ (to_lower_case sha256_hex : Text → Text) where
  perform-IsOrdered :
      (call : Call) (q : PriorityTaskQueue)
      → IsOrdered q.queue
      → IsOrdered (perform to_lower_case sha256_hex call q).queue
  unfolding perform dequeue complete fail cancel enforce_timeouts restore_from_snapshot
      purge_completed clear status_is status_order
  perform-IsOrdered (Call.enqueues request) q h =
      elim (enqueue-cases to_lower_case sha256_hex request q) [
        | inl e ↦ rw (perform, e) h
        | inr (_, _, e) ↦
            rw (perform, e)
              (sort_queue-IsOrdered (
                q.queue
                ++ queued_task (compute_hash to_lower_case sha256_hex request.instruction) q.config
                    request
                  ∷ []))
      ]
  perform-IsOrdered Call.dequeues q h = elim (Option-cases (peek q)) [
    | inl e ↦ rw (perform, dequeue, e) h
    | inr (t, e) ↦
        rw (perform, dequeue, e)
          (update_first-IsOrdered is_pending (with_status QueueTaskStatus.running) (λ u. refl)
            q.queue h)
  ]
  perform-IsOrdered (Call.completes task_id) q h =
      set_status-IsOrdered _ QueueTaskStatus.completed q refl h
  perform-IsOrdered (Call.fails task_id) q h =
      set_status-IsOrdered _ QueueTaskStatus.failed q refl h
  perform-IsOrdered (Call.cancels task_id) q h =
      set_status-IsOrdered _ QueueTaskStatus.cancelled q refl h
  perform-IsOrdered (Call.enforces now) q h = rw (pending-time_out now q.queue) h
  perform-IsOrdered (Call.restores snapshot) q h = sort_queue-IsOrdered snapshot.tasks
  perform-IsOrdered Call.purges q h = rw (pending-live q.queue) h
  perform-IsOrdered Call.clears q h = tt

  pub perform_all-IsOrdered :
      (calls : List Call) (q : PriorityTaskQueue)
      → IsOrdered q.queue
      → IsOrdered (perform_all to_lower_case sha256_hex calls q).queue
  unfolding perform_all
  perform_all-IsOrdered [] q h = h
  perform_all-IsOrdered (call ∷ calls) q h =
      perform_all-IsOrdered calls (perform to_lower_case sha256_hex call q)
        (perform-IsOrdered call q h)
