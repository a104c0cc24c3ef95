-- ===== src/Lib.antt =====
-- The core of the runtime. The Mission boundary, cli/src/mission: a Mission is a durable intent, a planner proposes
-- plans for it, a policy decides which plans it may follow, and an engine dispatches the steps of the
-- accepted plan as capability invocations, whose rows a store keeps.
--
-- Base: Boolean tests, lists, texts of UTF-16 units, sorting; the built-ins of JavaScript that the code uses.
-- Mission/Contracts: the data of cli/src/mission/contracts.ts, and its rules for invocations.
-- Mission/Policy: cli/src/mission/policy.ts. Graph is findCycleOrUnknownSteps, Decision is DecisionBuilder and
--   sameStringList, Refs the patterns of references, Validate the validator, Spec what an allowed plan is.
-- Mission/Engine: cli/src/mission/mission-engine.ts. Services is what the engine is given, Approvals is
--   acceptPlan and recordApproval, Dispatch is dispatchStep, Results is recordInvocationResult, Late is
--   recordLateCancelledFacts, Retry is prepareInvocationRetry, Delivery is markInvocationHandoff and
--   markInvocationReconciliation, Cancel is cancelMission, cancelUnsubmitted and
--   recordInvocationCancellationOutcome, Verify is DefaultMissionVerifier, Lifecycle the other operations on
--   the state of a Mission. Attempts and Rows are the helpers of that file and of contracts.ts.
-- Mission/Engine/Steps: the step relation of the operations on an invocation, and what each step keeps.
-- Mission/Store: saveInvocation of cli/src/mission/sqlite-mission-store.ts on a row that it has; Store/History
--   is the sequence of rows when every operation of the engine is saved by the store.
-- Mission/Scheduler: cli/src/mission/mission-scheduler.ts. The file itself is the selection of ready steps with
--   getInvocationSchedulingFacts of the store, Pass the loop of runOnce over Missions and steps, whose store,
--   engine and dispatch seam are parameters.
-- Orchestration: who runs, and in which order. TaskQueue is cli/src/orchestration/PriorityTaskQueue.ts and
--   Semaphore is cli/src/utils/Semaphore.ts, each a function for each method; the modules below them hold
--   any sequence of calls and what it keeps.
-- Inference: cli/src/inference/provider-resilience.ts. Circuit is CircuitBreaker, Circuit/Phases the abstract
--   machine that it implements, Retry is classifyProviderError and RetryPolicy, Limiter is quotaKey and
--   ProviderConcurrencyLimiter, Quota is ProviderQuotaLimiter. The
--   floating point arithmetic of its tokens is a parameter, and Quota/Rounding says what is relied on.
--
-- An operation is a function from the record that it reads to the record that it writes, or to the error
-- that it throws. A timestamp is its number of milliseconds. One call reads the clock once. The depth-first
-- search of the dependency graph runs on fuel, one more than the number of steps: a chain of visits repeats
-- no step, and ends at the latest with an id that names none. The loop of RetryPolicy.execute has as many
-- rounds as attempts are allowed.
--
-- Not modelled: the regular expressions of the sanitizer, the catalog, the verification authority and the hash
-- behind a fingerprint, which are services of the engine; SQL, transactions and listeners; the texts of errors
-- and reasons; the search of dispatchStep for an earlier invocation of the same effect; recovery and retries in a
-- pass of the scheduler; promises, timers and log messages of the task queue and the resilience policy; the
-- snapshots of the limiters; the other parts of the runtime.
pub mod Base
pub mod Mission
pub mod Orchestration
pub mod Inference
