-- ===== src/Orchestration/TaskQueue/Restore.antt =====
-- Snapshots of cli/src/orchestration/PriorityTaskQueue.ts.
use mathlib.Core.List.{Perm}
use ouroboros_runtime.Base.{
  ℕ, ◌≡◌, refl, ◌∙◌, Bool, Option, none, some, List, [], ◌∷◌, keep, find?, arith,
}
use ouroboros_runtime.Base.Text.{Text}
use ouroboros_runtime.Base.Sort.{sort, sort-perm}
use ouroboros_runtime.Base.Sort.Keep.{keep-sort, sort_sorted}
use ouroboros_runtime.Orchestration.TaskQueue.{
  PriorityTaskQueue, QueuedTask, QueueConfig, is_pending, may_precede, sort_queue, pending_tasks,
  peek, create_snapshot, restore_from_snapshot,
}
use ouroboros_runtime.Orchestration.TaskQueue.Calls.{Call, create, perform_all}
use ouroboros_runtime.Orchestration.TaskQueue.Order.{
  IsOrdered, may_precede_total, may_precede_trans, perform_all-IsOrdered,
}

abbrev first? : List QueuedTask → Option QueuedTask
first? [] = none
first? (t ∷ ts) = some t

find?-keep : (p : QueuedTask → Bool) (ts : List QueuedTask) → find? p ts ≡ first? (keep p ts)
find?-keep p [] = refl
find?-keep p (t ∷ ts) = ground (arith, find?-keep p ts)

sorted_pending :
    (ts : List QueuedTask) → IsOrdered ts → keep is_pending (sort_queue ts) ≡ keep is_pending ts
unfolding sort_queue
sorted_pending ts o =
    keep-sort may_precede is_pending may_precede_total may_precede_trans ts
    ∙ sort_sorted may_precede (keep is_pending ts) o

-- A queue restored from a snapshot of `q`.
abbrev pub reload : ℕ → PriorityTaskQueue → PriorityTaskQueue → PriorityTaskQueue
reload now q old = (restore_from_snapshot (create_snapshot now q) old).1

-- Taking a snapshot of a queue, after any calls, and restoring it into any queue `old` gives the same
-- tasks, with the pending ones in the same order, so that the same task is next.
pub reload-pending_tasks :
    (to_lower_case sha256_hex : Text → Text) (config : QueueConfig) (calls : List Call) (now : ℕ)
    (old : PriorityTaskQueue)
    → let q = perform_all to_lower_case sha256_hex calls (create config) in
      Perm (reload now q old).queue q.queue
      × (pending_tasks (reload now q old) ≡ pending_tasks q)
      × (peek (reload now q old) ≡ peek q)
unfolding create_snapshot restore_from_snapshot peek sort_queue
reload-pending_tasks to_lower_case sha256_hex config calls now old =
    let q = perform_all to_lower_case sha256_hex calls (create config) in
    let same =
      sorted_pending q.queue
        (perform_all-IsOrdered to_lower_case sha256_hex calls (create config) tt) in
    (
      sort-perm may_precede q.queue,
      same,
      rw (find?-keep is_pending (sort may_precede q.queue), find?-keep is_pending q.queue, same)
          refl,
    )
