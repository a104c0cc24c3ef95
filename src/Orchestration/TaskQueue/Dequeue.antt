-- ===== src/Orchestration/TaskQueue/Dequeue.antt =====
-- What `dequeue` of cli/src/orchestration/PriorityTaskQueue.ts hands out.
use ouroboros_runtime.Base.{
  ◌≤◌, ◌<◌, ◌≡◌, refl, ap, ◌⊎◌, inl, inr, Bool, true, false, Option, none, some, List, [], ◌∷◌,
  ◌++◌, keep, find?, find?-eq-none, Option-cases, All, Bool-cases, arith,
}
use ouroboros_runtime.Base.Text.{Text}
use ouroboros_runtime.Base.Sort.{IsSorted}
use ouroboros_runtime.Orchestration.TaskQueue.{
  PriorityTaskQueue, QueuedTask, QueueTaskStatus, QueueConfig, status_is, is_pending, with_status,
  may_precede, update_first, dequeue, peek,
}
use ouroboros_runtime.Orchestration.TaskQueue.Calls.{Call, create, perform_all}
use ouroboros_runtime.Orchestration.TaskQueue.Order.{IsOrdered, perform_all-IsOrdered}

-- The task that is found first, and the list around it.
record IsFirst (p : QueuedTask → Bool) (ts : List QueuedTask) (u : QueuedTask) : Type 0 where
  before : List QueuedTask
  after : List QueuedTask
  split : ts ≡ before ++ u ∷ after
  passes : p u ≡ true
  others : All (λ v. p v ≡ false) before
  updated : (f : QueuedTask → QueuedTask) → update_first p f ts ≡ before ++ f u ∷ after

find?-IsFirst :
    (p : QueuedTask → Bool) (ts : List QueuedTask) {u : QueuedTask}
    → find? p ts ≡ some u
    → IsFirst p ts u
unfolding update_first
find?-IsFirst p [] h = cc
find?-IsFirst p (t ∷ ts) {u} h = elim (Bool-cases (p t)) [
  | inl e ↦
      let same : t ≡ u = ground arith in
      record {
        before = [];
        after = ts;
        split = rw same refl;
        passes = rw (← same) e;
        others = tt;
        updated = λ f. rw (e, same) refl;
      }
  | inr e ↦
      let later = find?-IsFirst p ts (rw e at h) in
      record {
        before = t ∷ later.before;
        after = later.after;
        split = ap (◌∷◌ t) later.split;
        passes = later.passes;
        others = (e, later.others);
        updated = λ f. rw e (ap (◌∷◌ t) (later.updated f));
      }
]

-- `u` is to run before `v`: it is more urgent, or as urgent and no later in the queue.
abbrev pub RunsBefore : QueuedTask → QueuedTask → Type 0
RunsBefore u v =
    (v.priority < u.priority) ⊎ ((v.priority ≡ u.priority) × (u.enqueued_at ≤ v.enqueued_at))

RunsBefore-may_precede :
    (u v : QueuedTask)
    → is_pending u ≡ true
    → is_pending v ≡ true
    → may_precede u v ≡ true
    → RunsBefore u v
unfolding may_precede status_is
RunsBefore-may_precede u v p q h = ground arith

abbrev Follows : QueuedTask → QueuedTask → Type 0
Follows u v = is_pending v ≡ true → RunsBefore u v

Follows-after :
    (u : QueuedTask) (ts : List QueuedTask)
    → is_pending u ≡ true
    → All (λ v. may_precede u v ≡ true) (keep is_pending ts)
    → All (Follows u) ts
Follows-after u [] p h = tt
Follows-after u (t ∷ ts) p h = elim (Bool-cases (is_pending t)) [
  | inl e ↦
      let both : All (λ v. may_precede u v ≡ true) (t ∷ keep is_pending ts) = rw e at h in
      (λ w. RunsBefore-may_precede u t p e both.0, Follows-after u ts p both.1)
  | inr e ↦ (λ w. absurd (cc (e, w)), Follows-after u ts p (rw e at h))
]

Follows-All :
    (u : QueuedTask) (before after : List QueuedTask)
    → is_pending u ≡ true
    → All (λ v. is_pending v ≡ false) before
    → IsOrdered (before ++ u ∷ after)
    → All (Follows u) (before ++ after)
Follows-All u [] after p h o =
    let ordered : IsSorted may_precede (u ∷ keep is_pending after) = rw p at o in
    Follows-after u after p ordered.0
Follows-All u (b ∷ before) after p h o =
    (λ w. absurd (cc (h.0, w)), Follows-All u before after p h.1 (rw (h.0) at o))

-- What `dequeue` does: nothing when no task is pending; else it hands out the pending task `u` that is
-- to run before all other pending ones, now running, and changes no other task.
abbrev pub Dequeues : PriorityTaskQueue → Option QueuedTask × PriorityTaskQueue → Type 0
Dequeues q outcome =
    ((outcome ≡ (none, q)) × All (λ v. is_pending v ≡ false) q.queue)
    ⊎ ((u : QueuedTask) × (before : List QueuedTask) × (after : List QueuedTask) × (q.queue
          ≡ before ++ u ∷ after)
        × (is_pending u ≡ true)
        × All (λ v. is_pending v ≡ true → RunsBefore u v) (before ++ after)
        × (outcome ≡ (
          some (with_status QueueTaskStatus.running u),
          record q { queue = before ++ with_status QueueTaskStatus.running u ∷ after },
        )))

dequeue-Dequeues : (q : PriorityTaskQueue) → IsOrdered q.queue → Dequeues q (dequeue q)
unfolding dequeue peek
dequeue-Dequeues q o = elim (Option-cases (find? is_pending q.queue)) [
  | inl e ↦ inl (rw (dequeue, peek, e) refl, find?-eq-none is_pending q.queue e)
  | inr (u, e) ↦
      let found = find?-IsFirst is_pending q.queue e in
      inr (
        u,
        found.before,
        found.after,
        found.split,
        found.passes,
        Follows-All u found.before found.after found.passes found.others (rw (found.split) at o),
        rw (dequeue, peek, e, found.updated (with_status QueueTaskStatus.running)) refl,
      )
]

-- After any calls on a new queue, whatever tasks they restored, completed or cancelled.
pub perform_all-Dequeues :
    (to_lower_case sha256_hex : Text → Text) (config : QueueConfig) (calls : List Call)
    → let q = perform_all to_lower_case sha256_hex calls (create config) in Dequeues q (dequeue q)
perform_all-Dequeues to_lower_case sha256_hex config calls =
    dequeue-Dequeues (perform_all to_lower_case sha256_hex calls (create config))
      (perform_all-IsOrdered to_lower_case sha256_hex calls (create config) tt)
