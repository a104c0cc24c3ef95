-- ===== src/Orchestration/Semaphore/Laws.antt =====
-- What cli/src/utils/Semaphore.ts promises: it admits no more callers than it may, serves them in the
-- order that they came, and leaves nobody waiting while a slot is free.
use ouroboros_runtime.Base.{
  ℕ, suc, ◌+◌, ◌≤◌, ◌<◌, ◌≡◌, refl, ◌⊎◌, Option, none, some, List, [], ◌∷◌, ◌++◌, append_assoc,
  append-nil, length, length-append, Result, ok, err, arith, In, In-append_left, In-append_right,
  Bool-cases, inl, inr,
}
use ouroboros_runtime.Orchestration.Semaphore.{
  Semaphore, SemaphoreError, Admission, create, is_full, acquire, hand_on, release,
}

-- The calls of the clients, in the order that they come.
pub data Call : Type 0 where
  acquires : (caller : ℕ) → Call
  releases : Call

-- The semaphore with what its calls showed so far: who was admitted, to run or to wait, who was let
-- run, and how many slots came back. A call that throws leaves no mark.
pub record Trace : Type 0 where
  pub semaphore : Semaphore
  pub admitted : List ℕ
  pub let_run : List ℕ
  pub released : ℕ

after_acquire : Trace → ℕ → Result SemaphoreError (Admission × Semaphore) → Trace
after_acquire t caller (err thrown) = t
after_acquire t caller (ok (Admission.granted, s)) = record t {
  semaphore = s;
  admitted = t.admitted ++ caller ∷ [];
  let_run = t.let_run ++ caller ∷ [];
}
after_acquire t caller (ok (Admission.queued, s)) = record t {
  semaphore = s;
  admitted = t.admitted ++ caller ∷ [];
}

after_release : Trace → Result SemaphoreError (Option ℕ × Semaphore) → Trace
after_release t (err thrown) = t
after_release t (ok (none, s)) = record t { semaphore = s; released = suc t.released }
after_release t (ok (some next, s)) = record t {
  semaphore = s;
  let_run = t.let_run ++ next ∷ [];
  released = suc t.released;
}

unfoldable pub serve : Trace → Call → Trace
unfolding after_acquire after_release
serve t (Call.acquires caller) = after_acquire t caller (acquire caller t.semaphore)
serve t Call.releases = after_release t (release t.semaphore)

unfoldable pub serve_all : Trace → List Call → Trace
unfolding serve
serve_all t [] = t
serve_all t (call ∷ calls) = serve_all (serve t call) calls

abbrev pub fresh : Semaphore → Trace
fresh s = record { semaphore = s; admitted = []; let_run = []; released = 0 }

abbrev pub Within : Option ℕ → List ℕ → Type 0
Within none waiting = Unit
Within (some limit) waiting = length waiting ≤ limit

-- The bounds hold, and a caller waits only while every slot is taken.
pub record IsValid (s : Semaphore) : Type 0 where
  pub bounded : s.active_count ≤ s.max_concurrency
  pub positive : 0 < s.max_concurrency
  pub waits_for_slot : (s.queue ≡ []) ⊎ (s.active_count ≡ s.max_concurrency)
  pub within : Within s.max_queue_size s.queue

-- Callers run in the order of their admission, and each one that runs holds a slot or gave it back.
pub record IsFair (t : Trace) : Type 0 where
  pub valid : IsValid t.semaphore
  pub in_order : t.let_run ++ t.semaphore.queue ≡ t.admitted
  pub counted : length t.let_run ≡ t.semaphore.active_count + t.released

create-IsFair :
    (max_concurrency : ℕ) (max_queue_size : Option ℕ) {s : Semaphore}
    → create max_concurrency max_queue_size ≡ ok s
    → IsFair (fresh s)
unfolding create
create-IsFair max_concurrency max_queue_size h = ground arith

release-IsFair :
    (t : Trace) (waiting : List ℕ)
    → t.semaphore.queue ≡ waiting
    → IsFair t
    → IsFair (serve t Call.releases)
unfolding serve release hand_on after_release
release-IsFair t [] e f = ground arith
release-IsFair t (next ∷ rest) e f =
    ground (arith, append_assoc t.let_run (next ∷ []) rest, length-append t.let_run (next ∷ []))

-- One more call, whether it throws or not, keeps the semaphore fair.
serve-IsFair : (t : Trace) (call : Call) → IsFair t → IsFair (serve t call)
unfolding serve acquire release is_full hand_on after_acquire after_release
serve-IsFair t (Call.acquires caller) f = ground (
  arith,
  append_assoc t.let_run t.semaphore.queue (caller ∷ []),
  append-nil t.let_run,
  append-nil (t.let_run ++ caller ∷ []),
  length-append t.let_run (caller ∷ []),
  length-append t.semaphore.queue (caller ∷ []),
)
serve-IsFair t Call.releases f = release-IsFair t t.semaphore.queue refl f

serve_all-IsFair : (t : Trace) (calls : List Call) → IsFair t → IsFair (serve_all t calls)
unfolding serve_all
serve_all-IsFair t [] f = f
serve_all-IsFair t (call ∷ calls) f = serve_all-IsFair (serve t call) calls (serve-IsFair t call f)

-- Over any calls from a new semaphore: never more than `max_concurrency` callers hold a slot, the queue
-- keeps its bound, a caller waits only while all slots are taken, those who run are those admitted
-- before all others, in the order of their admission, and each of them holds a slot or gave it back.
pub fresh-IsFair :
    (max_concurrency : ℕ) (max_queue_size : Option ℕ) (calls : List Call) {s : Semaphore}
    → create max_concurrency max_queue_size ≡ ok s
    → IsFair (serve_all (fresh s) calls)
fresh-IsFair max_concurrency max_queue_size calls {s} h =
    serve_all-IsFair (fresh s) calls (create-IsFair max_concurrency max_queue_size h)

-- How many of the calls give a slot back.
abbrev pub releases_in : List Call → ℕ
releases_in [] = 0
releases_in (Call.acquires caller ∷ calls) = releases_in calls
releases_in (Call.releases ∷ calls) = suc (releases_in calls)

In-after_acquire :
    (c : ℕ) (t : Trace) (caller : ℕ) (outcome : Result SemaphoreError (Admission × Semaphore))
    → In c t.let_run
    → In c (after_acquire t caller outcome).let_run
unfolding after_acquire
In-after_acquire c t caller (err thrown) h = h
In-after_acquire c t caller (ok (Admission.granted, s)) h =
    In-append_left c t.let_run (caller ∷ []) h
In-after_acquire c t caller (ok (Admission.queued, s)) h = h

In-after_release :
    (c : ℕ) (t : Trace) (outcome : Result SemaphoreError (Option ℕ × Semaphore))
    → In c t.let_run
    → In c (after_release t outcome).let_run
unfolding after_release
In-after_release c t (err thrown) h = h
In-after_release c t (ok (none, s)) h = h
In-after_release c t (ok (some next, s)) h = In-append_left c t.let_run (next ∷ []) h

-- Who was let run stays so.
In-serve_all :
    (c : ℕ) (t : Trace) (calls : List Call) → In c t.let_run → In c (serve_all t calls).let_run
unfolding serve_all serve
In-serve_all c t [] h = h
In-serve_all c t (Call.acquires caller ∷ calls) h =
    In-serve_all c (serve t (Call.acquires caller)) calls
      (In-after_acquire c t caller (acquire caller t.semaphore) h)
In-serve_all c t (Call.releases ∷ calls) h =
    In-serve_all c (serve t Call.releases) calls (In-after_release c t (release t.semaphore) h)

-- While somebody waits, an `acquire` can only join the end of the queue.
acquire-waiting :
    (t : Trace) (caller e : ℕ) (rest : List ℕ)
    → IsFair t
    → t.semaphore.queue ≡ e ∷ rest
    → (joined : List ℕ) × ((serve t (Call.acquires caller)).semaphore.queue
        ≡ t.semaphore.queue ++ joined)
unfolding serve acquire is_full after_acquire
acquire-waiting t caller e rest f h = elim (Bool-cases (is_full t.semaphore)) [
  | inl full ↦ ([], ground (arith, append-nil t.semaphore.queue))
  | inr room ↦ (caller ∷ [], ground arith)
]

-- While somebody waits, a slot that comes back goes to the first in the queue.
release-waiting :
    (t : Trace) (first : ℕ) (rest : List ℕ)
    → IsFair t
    → t.semaphore.queue ≡ first ∷ rest
    → ((serve t Call.releases).semaphore.queue ≡ rest)
      × ((serve t Call.releases).let_run ≡ t.let_run ++ first ∷ [])
unfolding serve release hand_on after_release
release-waiting t first rest f h = ground arith

-- Whoever waits behind `ahead` callers runs after one release more than these are, whatever other calls
-- come in between.
pub serve_all-In :
    (t : Trace) (calls : List Call) (ahead : List ℕ) (caller : ℕ) (behind : List ℕ)
    → IsFair t
    → t.semaphore.queue ≡ ahead ++ caller ∷ behind
    → length ahead < releases_in calls
    → In caller (serve_all t calls).let_run
unfolding serve_all
serve_all-In t [] ahead caller behind f q enough = absurd (omega arith)
serve_all-In t (Call.acquires other ∷ calls) [] caller behind f q enough =
    let (joined, e) = acquire-waiting t other caller behind f q in
    serve_all-In (serve t (Call.acquires other)) calls [] caller (behind ++ joined)
      (serve-IsFair t (Call.acquires other) f) (rw (e, q) refl) enough
serve_all-In t (Call.acquires other ∷ calls) (a ∷ ahead) caller behind f q enough =
    let (joined, e) = acquire-waiting t other a (ahead ++ caller ∷ behind) f q in
    serve_all-In (serve t (Call.acquires other)) calls (a ∷ ahead) caller (behind ++ joined)
      (serve-IsFair t (Call.acquires other) f)
      (rw (e, q) (append_assoc (a ∷ ahead) (caller ∷ behind) joined)) enough
serve_all-In t (Call.releases ∷ calls) [] caller behind f q enough =
    let (_, runs) = release-waiting t caller behind f q in
    In-serve_all caller (serve t Call.releases) calls
      (rw runs (In-append_right caller t.let_run (caller ∷ []) (inl refl)))
serve_all-In t (Call.releases ∷ calls) (a ∷ ahead) caller behind f q enough =
    serve_all-In (serve t Call.releases) calls ahead caller behind (serve-IsFair t Call.releases f)
      (release-waiting t a (ahead ++ caller ∷ behind) f q).0 (omega arith)
