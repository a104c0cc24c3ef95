-- ===== src/Orchestration/TaskQueue/Dedup.antt =====
-- The duplicates of cli/src/orchestration/PriorityTaskQueue.ts.
use ouroboros_runtime.Base.{
  ◌+◌, ◌≤◌, ◌≡◌, refl, sym, ap, ◌∙◌, inl, inr, Bool, true, false, ◌||◌, Option, none, some, List,
  [], ◌∷◌, ◌++◌, keep, length, all, Bool-cases, if◌then◌else◌, contains, ◌==◌, ==_iff, &&-true,
  arith,
}
use ouroboros_runtime.Base.Text.{Text, text_eq}
use ouroboros_runtime.Orchestration.TaskQueue.{
  PriorityTaskQueue, QueuedTask, QueueTaskStatus, QueueConfig, EnqueueRequest, status_is,
  with_status, sort_queue, queued_task, enqueue, clear,
}
use ouroboros_runtime.Orchestration.TaskQueue.Calls.{
  Call, create, perform, perform_all, enqueue-cases,
}
use ouroboros_runtime.Orchestration.TaskQueue.Hash.{compute_hash}
use ouroboros_runtime.Orchestration.TaskQueue.Counts.{count-perform, count-sort_queue}
use ouroboros_runtime.Orchestration.TaskQueue.Kept.{
  restores_nothing, forgets_nothing, Call-cases, config-perform, known-perform, config-perform_all,
}

||-false : (a b : Bool) → (a || b) ≡ false → (a ≡ false) × (b ≡ false)
||-false a b h = ground arith

restores-forgets : (call : Call) → forgets_nothing call ≡ true → restores_nothing call ≡ true
restores-forgets call h = ground arith

abbrev has_hash : Text → QueuedTask → Bool
has_hash h t = t.hash == h

module _ (to_lower_case sha256_hex : Text → Text) where
  abbrev hash_of : EnqueueRequest → Text
  hash_of request = compute_hash to_lower_case sha256_hex request.instruction

  -- Of two tasks with one hash at most one is in the queue; a hash that is not known is in none.
  record IsUnique (q : PriorityTaskQueue) : Type 0 where
    dedup : q.config.enable_dedup ≡ true
    once : (h : Text) → length (keep (has_hash h) q.queue) ≤ 1
    known : (h : Text) → contains h q.known_hashes ≡ false → length (keep (has_hash h) q.queue) ≡ 0

  count-queued_task :
      (h hash : Text) (config : QueueConfig) (request : EnqueueRequest)
      → length (keep (has_hash h) (queued_task hash config request ∷ []))
        ≡ (if hash == h then 1 else 0)
  unfolding queued_task
  count-queued_task h hash config request = ground arith

  count-added :
      (h : Text) (request : EnqueueRequest) (q : PriorityTaskQueue)
      → length (
          keep
            (has_hash h)
            (sort_queue (q.queue ++ queued_task (hash_of request) q.config request ∷ [])))
        ≡ length (keep (has_hash h) q.queue) + (if hash_of request == h then 1 else 0)
  count-added h request q =
      rw (← count-queued_task h (hash_of request) q.config request)
        (count-sort_queue (has_hash h) q.queue (queued_task (hash_of request) q.config request))

  enqueue-IsUnique :
      (request : EnqueueRequest) (q : PriorityTaskQueue)
      → IsUnique q
      → IsUnique (perform to_lower_case sha256_hex (Call.enqueues request) q)
  unfolding perform contains
  enqueue-IsUnique request q u = elim (enqueue-cases to_lower_case sha256_hex request q) [
    | inl same ↦ rw (perform, same) u
    | inr (room, fresh, next) ↦
        let absent : length (keep (has_hash (hash_of request)) q.queue) ≡ 0 =
          u.known (hash_of request) (rw (u.dedup) at fresh) in
        rw (perform, next)
          (record {
            dedup = u.dedup;
            once = λ h. elim (Bool-cases (hash_of request == h)) [
              | inl t ↦
                  rw (count-added h request q, t, ← (==_iff (hash_of request) h).0 t) (omega arith)
              | inr f ↦ rw (count-added h request q, f) (omega (arith, u.once h))
            ];
            known = λ h unknown.
                let (other, before) =
                  ||-false (hash_of request == h) (contains h q.known_hashes) unknown in
                rw (count-added h request q, other) (omega (arith, u.known h before));
          })
  ]

  kept_hash :
      (h : Text) (t : QueuedTask) (status : QueueTaskStatus)
      → status_is status QueueTaskStatus.pending ≡ false
      → has_hash h (with_status status t) ≡ true
      → has_hash h t ≡ true
  kept_hash h t status leaves e = e

  perform-IsUnique :
      (call : Call) (q : PriorityTaskQueue)
      → restores_nothing call ≡ true
      → IsUnique q
      → IsUnique (perform to_lower_case sha256_hex call q)
  unfolding perform clear
  perform-IsUnique call q r u = elim (Call-cases call r) [
    | inl (request, e) ↦ rw e (enqueue-IsUnique request q u)
    | inr (s, cleared_or_not) ↦
        let fewer = λ (h : Text).
          count-perform to_lower_case sha256_hex (has_hash h) (kept_hash h) call q s in
        record {
          dedup = rw (config-perform to_lower_case sha256_hex call q) u.dedup;
          once = λ h. omega (arith, fewer h, u.once h);
          known = λ h unknown. elim cleared_or_not [
            | inl c ↦ rw c refl
            | inr f ↦ omega (
              arith,
              fewer h,
              u.known h (rw (known-perform to_lower_case sha256_hex call q f s) at unknown),
            )
          ];
        }
  ]

  perform_all-IsUnique :
      (calls : List Call) (q : PriorityTaskQueue)
      → all restores_nothing calls ≡ true
      → IsUnique q
      → IsUnique (perform_all to_lower_case sha256_hex calls q)
  unfolding perform_all
  perform_all-IsUnique [] q r u = u
  perform_all-IsUnique (call ∷ calls) q r u =
      let (now, later) = &&-true (restores_nothing call) (all restores_nothing calls) r in
      perform_all-IsUnique calls (perform to_lower_case sha256_hex call q) later
        (perform-IsUnique call q now u)

  -- Where duplicates are looked for and no snapshot is restored, no two tasks in the queue have one hash.
  pub perform_all-hash :
      (config : QueueConfig) (calls : List Call) (h : Text)
      → config.enable_dedup ≡ true
      → all restores_nothing calls ≡ true
      → length (
          keep
            (λ t. t.hash == h)
            (perform_all to_lower_case sha256_hex calls (create config)).queue)
        ≤ 1
  perform_all-hash config calls h d r =
      (perform_all-IsUnique calls (create config) r
          (record { dedup = d; once = λ k. omega arith; known = λ k unknown. refl })).once
        h

  -- A hash that the queue knows stays known.
  known-kept :
      (call : Call) (q : PriorityTaskQueue) (h : Text)
      → forgets_nothing call ≡ true
      → contains h q.known_hashes ≡ true
      → contains h (perform to_lower_case sha256_hex call q).known_hashes ≡ true
  unfolding perform contains
  known-kept call q h f k = elim (Call-cases call (restores-forgets call f)) [
    | inl (request, e) ↦ rw e (elim (enqueue-cases to_lower_case sha256_hex request q) [
      | inl refused ↦ rw (perform, refused) k
      | inr (_, _, next) ↦ rw (perform, next) (ground arith)
    ])
    | inr (s, _) ↦ rw (known-perform to_lower_case sha256_hex call q f s) k
  ]

  known-perform_all :
      (calls : List Call) (q : PriorityTaskQueue) (h : Text)
      → all forgets_nothing calls ≡ true
      → contains h q.known_hashes ≡ true
      → contains h (perform_all to_lower_case sha256_hex calls q).known_hashes ≡ true
  unfolding perform_all
  known-perform_all [] q h f k = k
  known-perform_all (call ∷ calls) q h f k =
      let (now, later) = &&-true (forgets_nothing call) (all forgets_nothing calls) f in
      known-perform_all calls (perform to_lower_case sha256_hex call q) h later
        (known-kept call q h now k)

  enqueue-known :
      (request : EnqueueRequest) (q : PriorityTaskQueue)
      → q.config.enable_dedup ≡ true
      → contains (hash_of request) q.known_hashes ≡ true
      → enqueue to_lower_case sha256_hex request q ≡ (none, q)
  enqueue-known request q d k = elim (enqueue-cases to_lower_case sha256_hex request q) [
    | inl e ↦ e
    | inr (_, fresh, _) ↦ cc (rw (d, k) at fresh)
  ]

  accepted-known :
      (request : EnqueueRequest) (q : PriorityTaskQueue) {next : PriorityTaskQueue} {t : QueuedTask}
      → enqueue to_lower_case sha256_hex request q ≡ (some t, next)
      → (next.config ≡ q.config) × (contains (hash_of request) next.known_hashes ≡ true)
  unfolding contains
  accepted-known request q {next} {t} e = elim (enqueue-cases to_lower_case sha256_hex request q) [
    | inl refused ↦ cc (e, refused)
    | inr (_, _, accepted) ↦
        let same = ap (λ (o : Option QueuedTask × PriorityTaskQueue). o.1) (sym accepted ∙ e) in
        rw (← same) (refl, ground (arith, (==_iff (hash_of request) (hash_of request)).1 refl))
  ]

  -- Where duplicates are looked for, an instruction that was once accepted is refused until the queue is
  -- cleared or a snapshot is restored, whatever became of its task, and though it was purged.
  pub enqueue-again :
      (first again : EnqueueRequest) (calls : List Call) (q : PriorityTaskQueue)
      {next : PriorityTaskQueue} {t : QueuedTask}
      → q.config.enable_dedup ≡ true
      → enqueue to_lower_case sha256_hex first q ≡ (some t, next)
      → all forgets_nothing calls ≡ true
      → hash_of again ≡ hash_of first
      → let later = perform_all to_lower_case sha256_hex calls next in
        enqueue to_lower_case sha256_hex again later ≡ (none, later)
  enqueue-again first again calls q {next} {t} d accepted f same =
      let after = accepted-known first q accepted in
      enqueue-known again (perform_all to_lower_case sha256_hex calls next)
        (rw (config-perform_all to_lower_case sha256_hex calls next, after.0) d)
        (rw same (known-perform_all calls next (hash_of first) f after.1))
